-- ===== src/Sift/Xcc/Split.antt =====
-- How `Device::PartitionsFromNodes` of src/sift/device.cc shares the XCCs of a device out.
use rocsift_glog_fork.Common.{
  List, [], ◌∷◌, ◌++◌, map, length, take, drop, ℕ, zero, suc, ◌-◌, ◌<◌, true, false, some, ◌≡◌,
  refl, sym, ap, ◌∙◌, if◌then◌else◌, ltb, arith, inl, inr, Bool-cases, append-nil, append_assoc,
  length-append, ltb→lt,
}
use rocsift_glog_fork.Common.Run.{done}
use rocsift_glog_fork.Sift.Xcc.{place_dies, xcc_die_ids}
use rocsift_glog_fork.Sift.Xcc.{place_xcc}
use rocsift_glog_fork.Sift.Xcc.{place_instances}
use rocsift_glog_fork.Sift.Xcc.{GcInstance}

-- The instances of all dies that are not harvested, in order.
abbrev pub alive : List GcInstance → List ℕ
alive [] = []
alive (i ∷ is) = let rest = alive is in if i.harvest then rest else i.num_instance ∷ rest

abbrev pub alive_in : List (List GcInstance) → List ℕ
alive_in [] = []
alive_in (d ∷ dies) = alive d ++ alive_in dies

-- A list cut into pieces of given lengths, as far as it reaches.
abbrev pub split_by : List ℕ → List ℕ → List (List ℕ)
split_by [] xs = []
split_by (n ∷ ns) xs = take n xs ∷ split_by ns (drop n xs)

-- The instances placed one after the other.
abbrev place_all : List ℕ → List (ℕ × List ℕ) × ℕ → List (ℕ × List ℕ) × ℕ
place_all [] st = st
place_all (x ∷ xs) st = place_all xs (place_xcc st.1 st.0 x)

place_all_append :
    (xs ys : List ℕ) (st : List (ℕ × List ℕ) × ℕ)
    → place_all (xs ++ ys) st ≡ place_all ys (place_all xs st)
place_all_append [] ys st = refl
place_all_append (x ∷ xs) ys st = place_all_append xs ys (place_xcc st.1 st.0 x)

place_instances-alive :
    (is : List GcInstance) (st : List (ℕ × List ℕ) × ℕ)
    → place_instances is st ≡ place_all (alive is) st
unfolding place_instances
place_instances-alive [] st = refl
place_instances-alive (i ∷ is) st =
    let m = place_xcc st.1 st.0 i.num_instance in
    elim (Bool-cases i.harvest) [
      | inl h ↦ rw h (place_instances-alive is st)
      | inr h ↦ rw h (place_instances-alive is m)
    ]

place_dies-alive :
    (dies : List (List GcInstance)) (st : List (ℕ × List ℕ) × ℕ)
    → place_dies (map some dies) st ≡ done (place_all (alive_in dies) st)
unfolding place_dies
place_dies-alive [] st = refl
place_dies-alive (d ∷ dies) st =
    place_dies-alive dies (place_instances d st)
    ∙ ap (λ t. done (place_all (alive_in dies) t)) (place_instances-alive d st)
    ∙ ap done (sym (place_all_append (alive d) (alive_in dies) st))

-- Nodes before `current` are left as they are.
place_all_skip :
    (xs : List ℕ) (s : ℕ × List ℕ) (slots : List (ℕ × List ℕ)) (c : ℕ)
    → place_all xs (s ∷ slots, suc c)
      ≡ (s ∷ (place_all xs (slots, c)).0, suc (place_all xs (slots, c)).1)
unfolding place_xcc
place_all_skip [] s slots c = refl
place_all_skip (x ∷ xs) s slots c = let r = place_xcc c slots x in place_all_skip xs s r.0 r.1

place_all_nowhere : (xs : List ℕ) → place_all xs ([], 0) ≡ ([], 0)
unfolding place_xcc
place_all_nowhere [] = refl
place_all_nowhere (x ∷ xs) = place_all_nowhere xs

-- The nodes filled up in order.
abbrev fill : List (ℕ × List ℕ) → List ℕ → List (ℕ × List ℕ)
fill [] xs = []
fill (s ∷ slots) xs =
    (s.0, s.1 ++ take (s.0 - length s.1) xs) ∷ fill slots (drop (s.0 - length s.1) xs)

take_nil : (n : ℕ) → take {A = ℕ} n [] ≡ []
take_nil zero = refl
take_nil (suc n) = refl

drop_nil : (n : ℕ) → drop {A = ℕ} n [] ≡ []
drop_nil zero = refl
drop_nil (suc n) = refl

fill_nil : (slots : List (ℕ × List ℕ)) → fill slots [] ≡ slots
fill_nil [] = refl
fill_nil (s ∷ slots) =
    rw (take_nil (s.0 - length s.1), drop_nil (s.0 - length s.1), append-nil s.1, fill_nil slots)
      refl

abbrev Fills : List (ℕ × List ℕ) → Type 0
Fills slots = (xs : List ℕ) → (place_all xs (slots, 0)).0 ≡ fill slots xs

fill_room :
    (s : ℕ × List ℕ) (slots : List (ℕ × List ℕ)) (x : ℕ) (xs : List ℕ)
    → length s.1 < s.0
    → fill ((s.0, s.1 ++ (x ∷ [])) ∷ slots) xs ≡ fill (s ∷ slots) (x ∷ xs)
fill_room s slots x xs h =
    rw (e, append_assoc s.1 (x ∷ []) (take (s.0 - length (s.1 ++ (x ∷ []))) xs)) refl
  where
    e : s.0 - length s.1 ≡ suc (s.0 - length (s.1 ++ (x ∷ [])))
    e = omega (arith, length-append s.1 (x ∷ []))

place_room :
    (s : ℕ × List ℕ) (slots : List (ℕ × List ℕ)) (x : ℕ)
    → ltb (length s.1) s.0 ≡ true
    → place_xcc 0 (s ∷ slots) x ≡ ((s.0, s.1 ++ (x ∷ [])) ∷ slots, 0)
unfolding place_xcc
place_room s slots x h = rw (place_xcc, h) refl

place_full :
    (s : ℕ × List ℕ) (slots : List (ℕ × List ℕ)) (x : ℕ)
    → ltb (length s.1) s.0 ≡ false
    → place_xcc 0 (s ∷ slots) x ≡ (s ∷ (place_xcc 0 slots x).0, suc (place_xcc 0 slots x).1)
unfolding place_xcc
place_full s slots x h = rw (place_xcc, h) refl

full_drop :
    (s : ℕ × List ℕ) (slots : List (ℕ × List ℕ)) (xs : List ℕ)
    → ltb (length s.1) s.0 ≡ false
    → fill (s ∷ slots) xs ≡ s ∷ fill slots xs
full_drop s slots xs h = rw (e, append-nil s.1) refl
  where
    e : s.0 - length s.1 ≡ 0
    e = ground arith

fill_step : (s : ℕ × List ℕ) (slots : List (ℕ × List ℕ)) → Fills slots → Fills (s ∷ slots)
fill_step s slots ih [] = sym (fill_nil (s ∷ slots))
fill_step s slots ih (x ∷ xs) = elim (Bool-cases (ltb (length s.1) s.0)) [
  | inl h ↦
      ap (λ st. (place_all xs st).0) (place_room s slots x h)
      ∙ fill_step (s.0, s.1 ++ (x ∷ [])) slots ih xs
      ∙ fill_room s slots x xs (ltb→lt _ _ h)
  | inr h ↦
      ap (λ st. (place_all xs st).0) (place_full s slots x h)
      ∙ ap (λ r. r.0) (place_all_skip xs s (place_xcc 0 slots x).0 (place_xcc 0 slots x).1)
      ∙ ap (λ l. s ∷ l) (ih (x ∷ xs))
      ∙ sym (full_drop s slots (x ∷ xs) h)
]

place_all-Fills : (slots : List (ℕ × List ℕ)) → Fills slots
place_all-Fills [] = λ xs. ap (λ r. r.0) (place_all_nowhere xs)
place_all-Fills (s ∷ slots) = fill_step s slots (place_all-Fills slots)

fill-split_by :
    (nodes xs : List ℕ) → map (λ s. s.1) (fill (map (λ n. (n, [])) nodes) xs) ≡ split_by nodes xs
fill-split_by [] xs = refl
fill-split_by (n ∷ nodes) xs = rw e (ap (λ l. take n xs ∷ l) (fill-split_by nodes (drop n xs)))
  where
    e : n - 0 ≡ n
    e = omega arith

-- With an IP discovery table whose dies all have the IP "GC", the instances that are not harvested
-- go to the nodes in order: each node gets the next `num_xcc` of them, as far as there are any.
pub xcc_die_ids-split :
    (dies : List (List GcInstance)) (nodes : List ℕ)
    → xcc_die_ids (some (map some dies)) nodes ≡ done (some (split_by nodes (alive_in dies)))
unfolding xcc_die_ids
xcc_die_ids-split dies nodes = rw (place_dies-alive dies (map (λ n. (n, [])) nodes, 0)) (
    ap (λ l. done (some l))
      (ap (map (λ s. s.1)) (place_all-Fills (map (λ n. (n, [])) nodes) (alive_in dies))
        ∙ fill-split_by nodes (alive_in dies)))

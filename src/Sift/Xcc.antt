-- ===== src/Sift/Xcc.antt =====
-- The XCCs of the partitions: the first half of `Device::PartitionsFromNodes` of
-- src/sift/device.cc. A pair stands for a node: its `num_xcc` and the list `xcc_die_ids.at(id)`.
pub mod Split
use rocsift_glog_fork.Common.{
  List, [], ◌∷◌, ◌++◌, map, length, get_elem?, take, drop, ℕ, zero, suc, ◌+◌, ◌-◌, ◌*◌, ◌/◌, ◌%◌,
  ◌^◌, ◌≤◌, ◌<◌, Bool, true, false, not, ◌&&◌, ◌||◌, Option, none, some, ◌≡◌, refl, sym, ap, ◌∙◌,
  if◌then◌else◌, ltb, leb, ◌==◌, arith, ◌≢◌, ◌⊎◌, inl, inr, Bool-cases, Option-cases, append-nil,
  append_assoc, length-append, lt→ltb, le→ltb, ltb→lt, ==_self, ==_differ, subst,
}
use rocsift_glog_fork.Common.Run.{
  Run, done, throw, fault, spin, ◌>>=◌, or_fault, std_exception, status_error, code_bug,
  not_privileged, out_of_range, try_catch, IsSafe, Returns,
}

-- What is read of an instance of the IP "GC" in the IP discovery table.
pub record GcInstance : Type 0 where
  pub harvest : Bool
  pub num_instance : ℕ

-- The inner loop: the first node from `current_node` on that has room takes the instance. The
-- variable `id` is a reference to `current_node`, which so stops at that node, or at the end.
unfoldable pub place_xcc : ℕ → List (ℕ × List ℕ) → ℕ → List (ℕ × List ℕ) × ℕ
place_xcc current [] inst = ([], 0)
place_xcc (suc current) (s ∷ slots) inst =
    let r = place_xcc current slots inst in (s ∷ r.0, suc r.1)
place_xcc zero (s ∷ slots) inst =
    let r = place_xcc 0 slots inst in
    if ltb (length s.1) s.0 then ((s.0, s.1 ++ (inst ∷ [])) ∷ slots, 0) else (s ∷ r.0, suc r.1)

-- The loop over the instances of a die.
unfoldable pub place_instances : List GcInstance → List (ℕ × List ℕ) × ℕ → List (ℕ × List ℕ) × ℕ
place_instances [] st = st
place_instances (i ∷ instances) st =
    place_instances instances (if i.harvest then st else place_xcc st.1 st.0 i.num_instance)

-- The loop over the dies. `LookupIP("GC")` throws for a die without that IP.
unfoldable pub place_dies :
    List (Option (List GcInstance)) → List (ℕ × List ℕ) × ℕ → Run (List (ℕ × List ℕ) × ℕ)
place_dies [] st = done st
place_dies (none ∷ dies) st = throw std_exception
place_dies (some instances ∷ dies) st = place_dies dies (place_instances instances st)

-- The loop without a table: each node gets the die 0, and a node of several XCCs ends the loop.
unfoldable pub guess_xcc : List ℕ → Option (List (List ℕ))
guess_xcc [] = some []
guess_xcc (n ∷ nodes) =
    let rest = guess_xcc nodes in
    if ltb 1 n then none else elim rest [ none ↦ none | some ids ↦ some ((0 ∷ []) ∷ ids) ]

-- The lists of all nodes, and `none` where no partition is made. The table is `none` if it was not
-- found.
unfoldable pub xcc_die_ids :
    Option (List (Option (List GcInstance))) → List ℕ → Run (Option (List (List ℕ)))
xcc_die_ids none nodes = done (guess_xcc nodes)
xcc_die_ids (some dies) nodes = do
  st ← place_dies dies (map (λ n. (n, [])) nodes, 0)
  done (some (map (λ s. s.1) st.0))

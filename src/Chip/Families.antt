-- ===== src/Chip/Families.antt =====
-- The ten families of device IDs that have a test of their own.
use rocsift_glog_fork.Common.{
  leb, Bool, Bool-cases, List, [], arith, if◌then◌else◌, inl, inr, refl, true, ℕ, ==_iff, ◌==◌, ◌∷◌,
  ◌≡◌, ◌∙◌, sym, ap, ◌||◌,
}
use rocsift_glog_fork.Chip.{
  vega20_ids, mi100_ids, navi10_ids, navi21_ids, navi31_ids, mi200_ids, mi300x_ids, mi300x_hf_ids,
  mi300a_ids, mi325x_ids, is_mi100, is_mi200, is_mi300, is_mi300a, is_mi300x, is_mi300x_hf,
  is_mi325x, is_mi3xx, is_navi10, is_navi21, is_navi31, is_one_of, is_vega20,
}

-- The families that the code tells apart by their own test.
pub data Family : Type 0 where
  vega20 mi100 navi10 navi21 navi31 mi200 mi300x mi300x_hf mi300a mi325x : Family

abbrev pub is_family : Family → ℕ → Bool
is_family vega20 = is_vega20
is_family mi100 = is_mi100
is_family navi10 = is_navi10
is_family navi21 = is_navi21
is_family navi31 = is_navi31
is_family mi200 = is_mi200
is_family mi300x = is_mi300x
is_family mi300x_hf = is_mi300x_hf
is_family mi300a = is_mi300a
is_family mi325x = is_mi325x

-- The family of an ID, read off the ranges of the numbers; no code computes it.
abbrev pub family_at : ℕ → Family
family_at id =
    if (leb id 0x66af)
    then vega20
    else if (leb id 0x731f)
    then navi10
    else if (leb id 0x738e)
    then mi100
    else if (leb id 0x73bf)
    then navi21
    else if (leb id 0x740f)
    then mi200
    else if (leb id 0x745e)
    then navi31
    else if (id == 0x74a0 || id == 0x74b4)
    then mi300a
    else if (id == 0x74a1 || id == 0x74b5)
    then mi300x
    else if (id == 0x74a5 || id == 0x74b9)
    then mi325x
    else mi300x_hf

abbrev AllAt : Family → List ℕ → Type 0
AllAt f [] = Unit
AllAt f (c ∷ cs) = (family_at c ≡ f) × AllAt f cs

one_of-at :
    (f : Family) (cs : List ℕ) (id : ℕ) → AllAt f cs → is_one_of cs id ≡ true → family_at id ≡ f
one_of-at f [] id a h = cc
one_of-at f (c ∷ cs) id (e, a) h = elim (Bool-cases (id == c)) [
  | inl same ↦ ap family_at ((==_iff id c).0 same) ∙ e
  | inr differ ↦ one_of-at f cs id a (ground arith)
]

pub is_family-at : (f : Family) (id : ℕ) → is_family f id ≡ true → family_at id ≡ f
unfolding is_vega20 is_mi100 is_navi10 is_navi21 is_navi31 is_mi200 is_mi300x is_mi300x_hf is_mi300a
    is_mi325x
is_family-at vega20 id = one_of-at vega20 vega20_ids id (refl, (refl, (refl, (refl, (refl, tt)))))
is_family-at mi100 id = one_of-at mi100 mi100_ids id (refl, (refl, (refl, tt)))
is_family-at navi10 id = one_of-at navi10 navi10_ids id (refl, (refl, (refl, (refl, tt))))
is_family-at navi21 id =
    one_of-at navi21 navi21_ids id
      (refl, (refl, (refl, (refl, (refl, (refl, (refl, (refl, tt))))))))
is_family-at navi31 id = one_of-at navi31 navi31_ids id (refl, (refl, (refl, tt)))
is_family-at mi200 id = one_of-at mi200 mi200_ids id (refl, (refl, (refl, tt)))
is_family-at mi300x id = one_of-at mi300x mi300x_ids id (refl, (refl, tt))
is_family-at mi300x_hf id = one_of-at mi300x_hf mi300x_hf_ids id (refl, (refl, tt))
is_family-at mi300a id = one_of-at mi300a mi300a_ids id (refl, (refl, tt))
is_family-at mi325x id = one_of-at mi325x mi325x_ids id (refl, (refl, tt))

-- No ID passes the tests of two families.
pub is_family_unique :
    (f g : Family) (id : ℕ) → is_family f id ≡ true → is_family g id ≡ true → f ≡ g
is_family_unique f g id h k = sym (is_family-at f id h) ∙ is_family-at g id k

-- The tests of several families together: an ID passes `is_mi3xx` where it passes one of four.
pub is_mi3xx-families :
    (id : ℕ) → is_mi3xx id ≡ (is_mi300a id || (is_mi300x id || (is_mi300x_hf id || is_mi325x id)))
unfolding is_mi3xx is_mi300
is_mi3xx-families id = ground arith

-- ===== src/Chip/Mtype.antt =====
-- `decode_mtype` of include/rocsift/mtype.h.
use rocsift_glog_fork.Common.{suc, zero, ◌∷◌, List, [], get_elem?, []}
use rocsift_glog_fork.Chip.Families.{is_family}
use rocsift_glog_fork.Common.{List, get_elem?}
use rocsift_glog_fork.Chip.Families.{
  Family, family_at, is_family-at, is_mi3xx-families, mi100, mi200, mi300a, mi300x, mi300x_hf,
  mi325x, navi10, navi21, navi31, vega20,
}
use rocsift_glog_fork.Chip.{
  is_mi100, is_mi200, is_mi3xx, is_navi10, is_navi21, is_navi31, is_mi300a, is_mi300x, is_mi300x_hf,
}
use rocsift_glog_fork.Common.{
  Bool, Bool-cases, Option, arith, false, if◌then◌else◌, inl, inr, none, refl, some, true, ap, ℕ,
  ◌==◌, ◌||◌, ◌≡◌, ◌∙◌, sym,
}

-- `sift_mtype_t`, less the number of the types; a type stands for its string too.
pub data Mtype : Type 0 where
  mtype_nc mtype_wc mtype_rw mtype_cc mtype_uc mtype_c_rw_us mtype_c_rw_s mtype_c_ro_us mtype_c_ro_s
        mtype_reserved :
      Mtype

abbrev pub is_cdna : ℕ → Bool
is_cdna id = is_mi100 id || (is_mi200 id || is_mi3xx id)

abbrev pub is_navi : ℕ → Bool
is_navi id = is_navi10 id || (is_navi21 id || is_navi31 id)

-- `none` is SIFT_STATUS_OUT_OF_RANGE.
unfoldable pub decode_mtype : ℕ → ℕ → Option Mtype
decode_mtype mtype id =
    if is_cdna id
    then if mtype == 0
      then some mtype_nc
      else if mtype == 1
      then some mtype_rw
      else if mtype == 2
      then some mtype_cc
      else if mtype == 3
      then some mtype_uc
      else none
    else if is_navi id
    then if mtype == 0
      then some mtype_c_rw_us
      else if mtype == 1
      then some mtype_reserved
      else if mtype == 2
      then some mtype_c_ro_s
      else if mtype == 3
      then some mtype_uc
      else if mtype == 4
      then some mtype_c_rw_s
      else if mtype == 5
      then some mtype_reserved
      else if mtype == 6
      then some mtype_c_ro_us
      else if mtype == 7
      then some mtype_reserved
      else none
    else none

abbrev pub cdna_mtypes : List Mtype
cdna_mtypes = mtype_nc ∷ mtype_rw ∷ mtype_cc ∷ mtype_uc ∷ []

abbrev pub navi_mtypes : List Mtype
navi_mtypes =
    mtype_c_rw_us ∷ mtype_reserved ∷ mtype_c_ro_s ∷ mtype_uc ∷ mtype_c_rw_s ∷ mtype_reserved
    ∷ mtype_c_ro_us ∷ mtype_reserved ∷ []

abbrev cdna_family : Family → Bool
cdna_family vega20 = false
cdna_family mi100 = true
cdna_family navi10 = false
cdna_family navi21 = false
cdna_family navi31 = false
cdna_family mi200 = true
cdna_family mi300x = true
cdna_family mi300x_hf = true
cdna_family mi300a = true
cdna_family mi325x = true

abbrev navi_family : Family → Bool
navi_family vega20 = false
navi_family mi100 = false
navi_family navi10 = true
navi_family navi21 = true
navi_family navi31 = true
navi_family mi200 = false
navi_family mi300x = false
navi_family mi300x_hf = false
navi_family mi300a = false
navi_family mi325x = false

or_elim : {C : Type 0} (a b : Bool) → (a || b) ≡ true → (a ≡ true → C) → (b ≡ true → C) → C
or_elim true b h k l = k refl
or_elim false b h k l = l h

in_family :
    (p : Family → Bool) (f : Family) (id : ℕ)
    → p f ≡ true
    → family_at id ≡ f
    → p (family_at id) ≡ true
in_family p f id h e = ap p e ∙ h

cdna-at : (id : ℕ) → is_cdna id ≡ true → cdna_family (family_at id) ≡ true
cdna-at id h =
    or_elim (is_mi100 id) _ h (λ e. in_family cdna_family mi100 id refl (is_family-at mi100 id e))
      λ h'.
        or_elim (is_mi200 id) _ h'
          (λ e. in_family cdna_family mi200 id refl (is_family-at mi200 id e))
          λ h''.
            or_elim (is_mi300a id) _ (sym (is_mi3xx-families id) ∙ h'')
              (λ e. in_family cdna_family mi300a id refl (is_family-at mi300a id e))
              λ k.
                or_elim (is_mi300x id) _ k
                  (λ e. in_family cdna_family mi300x id refl (is_family-at mi300x id e))
                  λ k'.
                    or_elim (is_mi300x_hf id) _ k'
                      (λ e. in_family cdna_family mi300x_hf id refl (is_family-at mi300x_hf id e))
                      λ e. in_family cdna_family mi325x id refl (is_family-at mi325x id e)

navi-at : (id : ℕ) → is_navi id ≡ true → navi_family (family_at id) ≡ true
navi-at id h =
    or_elim (is_navi10 id) _ h
      (λ e. in_family navi_family navi10 id refl (is_family-at navi10 id e))
      λ h'.
        or_elim (is_navi21 id) _ h'
          (λ e. in_family navi_family navi21 id refl (is_family-at navi21 id e))
          λ e. in_family navi_family navi31 id refl (is_family-at navi31 id e)

-- Which of the two tests an ID of a family passes.
is_cdna-family : (f : Family) (id : ℕ) → is_family f id ≡ true → is_cdna id ≡ cdna_family f
is_cdna-family f id h = elim (Bool-cases (is_cdna id)) [
  | inl e ↦ e ∙ sym (ap cdna_family (sym (is_family-at f id h)) ∙ cdna-at id e)
  | inr e ↦ e ∙ sym (other f h e)
]
  where
    other : (f : Family) → is_family f id ≡ true → is_cdna id ≡ false → cdna_family f ≡ false
    other vega20 h e = refl
    other mi100 h e = ground arith
    other navi10 h e = refl
    other navi21 h e = refl
    other navi31 h e = refl
    other mi200 h e = ground arith
    other mi300x h e = ground (arith, is_mi3xx-families id)
    other mi300x_hf h e = ground (arith, is_mi3xx-families id)
    other mi300a h e = ground (arith, is_mi3xx-families id)
    other mi325x h e = ground (arith, is_mi3xx-families id)

is_navi-family : (f : Family) (id : ℕ) → is_family f id ≡ true → is_navi id ≡ navi_family f
is_navi-family f id h = elim (Bool-cases (is_navi id)) [
  | inl e ↦ e ∙ sym (ap navi_family (sym (is_family-at f id h)) ∙ navi-at id e)
  | inr e ↦ e ∙ sym (other f h e)
]
  where
    other : (f : Family) → is_family f id ≡ true → is_navi id ≡ false → navi_family f ≡ false
    other vega20 h e = refl
    other mi100 h e = refl
    other navi10 h e = ground arith
    other navi21 h e = ground arith
    other navi31 h e = ground arith
    other mi200 h e = refl
    other mi300x h e = refl
    other mi300x_hf h e = refl
    other mi300a h e = refl
    other mi325x h e = refl

-- The memory types of a family, by their numbers; no family, or Vega 20, has none.
abbrev pub mtypes_of : Option Family → List Mtype
mtypes_of none = []
mtypes_of (some vega20) = []
mtypes_of (some mi100) = cdna_mtypes
mtypes_of (some navi10) = navi_mtypes
mtypes_of (some navi21) = navi_mtypes
mtypes_of (some navi31) = navi_mtypes
mtypes_of (some mi200) = cdna_mtypes
mtypes_of (some mi300x) = cdna_mtypes
mtypes_of (some mi300x_hf) = cdna_mtypes
mtypes_of (some mi300a) = cdna_mtypes
mtypes_of (some mi325x) = cdna_mtypes

-- An ID is of a family, or of none.
abbrev pub IsOf : Option Family → ℕ → Type 0
IsOf none id = (f : Family) → is_family f id ≡ false
IsOf (some f) id = is_family f id ≡ true

decode_cdna :
    (mtype id : ℕ) → is_cdna id ≡ true → decode_mtype mtype id ≡ get_elem? cdna_mtypes mtype
unfolding decode_mtype
decode_cdna zero id e = rw e refl
decode_cdna (suc zero) id e = rw e refl
decode_cdna (suc (suc zero)) id e = rw e refl
decode_cdna (suc (suc (suc zero))) id e = rw e refl
decode_cdna (suc (suc (suc (suc m)))) id e = ground arith

decode_navi :
    (mtype id : ℕ)
    → is_cdna id ≡ false
    → is_navi id ≡ true
    → decode_mtype mtype id ≡ get_elem? navi_mtypes mtype
unfolding decode_mtype
decode_navi zero id e n = rw (e, n) refl
decode_navi (suc zero) id e n = rw (e, n) refl
decode_navi (suc (suc zero)) id e n = rw (e, n) refl
decode_navi (suc (suc (suc zero))) id e n = rw (e, n) refl
decode_navi (suc (suc (suc (suc zero)))) id e n = rw (e, n) refl
decode_navi (suc (suc (suc (suc (suc zero))))) id e n = rw (e, n) refl
decode_navi (suc (suc (suc (suc (suc (suc zero)))))) id e n = rw (e, n) refl
decode_navi (suc (suc (suc (suc (suc (suc (suc zero))))))) id e n = rw (e, n) refl
decode_navi (suc (suc (suc (suc (suc (suc (suc (suc m)))))))) id e n = ground arith

decode_none :
    (mtype id : ℕ) → is_cdna id ≡ false → is_navi id ≡ false → decode_mtype mtype id ≡ none
unfolding decode_mtype
decode_none mtype id e n = rw (e, n) refl

decode_table :
    (f : Family) (mtype id : ℕ)
    → is_cdna id ≡ cdna_family f
    → is_navi id ≡ navi_family f
    → decode_mtype mtype id ≡ get_elem? (mtypes_of (some f)) mtype
decode_table vega20 mtype id e n = decode_none mtype id e n
decode_table mi100 mtype id e n = decode_cdna mtype id e
decode_table navi10 mtype id e n = decode_navi mtype id e n
decode_table navi21 mtype id e n = decode_navi mtype id e n
decode_table navi31 mtype id e n = decode_navi mtype id e n
decode_table mi200 mtype id e n = decode_cdna mtype id e
decode_table mi300x mtype id e n = decode_cdna mtype id e
decode_table mi300x_hf mtype id e n = decode_cdna mtype id e
decode_table mi300a mtype id e n = decode_cdna mtype id e
decode_table mi325x mtype id e n = decode_cdna mtype id e

-- The memory type that a number stands for on a device is the one at that place in the list of the
-- device's family: NC, RW, CC, UC on the MI families, eight types on the Navi families. On a device
-- of no family, on Vega 20, and behind the list's end there is none.
pub decode_mtype-mtypes_of :
    (o : Option Family) (mtype id : ℕ)
    → IsOf o id
    → decode_mtype mtype id ≡ get_elem? (mtypes_of o) mtype
decode_mtype-mtypes_of none mtype id h =
    let mi3xx = is_mi3xx-families id in
    decode_none mtype id
      (ground (arith, mi3xx, h mi100, h mi200, h mi300a, h mi300x, h mi300x_hf, h mi325x))
      (ground (arith, h navi10, h navi21, h navi31))
decode_mtype-mtypes_of (some f) mtype id h =
    decode_table f mtype id (is_cdna-family f id h) (is_navi-family f id h)

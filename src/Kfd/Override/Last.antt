-- ===== src/Kfd/Override/Last.antt =====
-- What the overrides of src/kfd/kfdnode.cc make of the device ID.
use rocsift_glog_fork.Common.{
  List, [], ◌∷◌, ℕ, ◌<◌, ◌^◌, ◌==◌, Bool, true, false, Option, none, some, ◌≡◌, refl, ap, ◌∙◌,
  if◌then◌else◌, Bool-cases, inl, inr, lt→ltb,
}
use rocsift_glog_fork.Common.Run.{done, ◌>>=◌}
use rocsift_glog_fork.Common.Words.{u32}
use rocsift_glog_fork.Kfd.Field.{Field, Properties, set_field, device_id, field_number}
use rocsift_glog_fork.Kfd.Override.{OverrideMatch, stoul16, is_at, apply_override, apply_overrides}
use rocsift_glog_fork.Pm4.Line.{number_from}

-- The number of a group, and whether it fits `unsigned long`.
abbrev pub hex_number : List ℕ → ℕ
hex_number cs = u32 (number_from 16 0 cs)

abbrev pub Fits : List ℕ → Type 0
Fits cs = number_from 16 0 cs < 2 ^ 64

abbrev pub AreNumbers : OverrideMatch → Type 0
AreNumbers m = Fits m.domain × Fits m.bus × Fits m.device × Fits m.function × Fits m.did

abbrev pub AllNumbers : List OverrideMatch → Type 0
AllNumbers [] = Unit
AllNumbers (m ∷ ms) = AreNumbers m × AllNumbers ms

-- An override is for the place of the node.
abbrev pub is_for : Properties → OverrideMatch → Bool
is_for props m =
    is_at props (hex_number m.domain) (hex_number m.bus) (hex_number m.device)
      (hex_number m.function)

-- The device ID of the last override for the node.
abbrev pub last_did : List OverrideMatch → Properties → Option ℕ
last_did [] props = none
last_did (m ∷ ms) props =
    let later = last_did ms props in
    elim later [ none ↦ if is_for props m then some (hex_number m.did) else none | some d ↦ some d ]

abbrev pub with_did : Properties → Option ℕ → Properties
with_did props none = props
with_did props (some d) = set_field props device_id d

stoul16-Fits : (cs : List ℕ) → Fits cs → stoul16 cs ≡ done (hex_number cs)
unfolding stoul16
stoul16-Fits cs h = rw (stoul16, lt→ltb _ _ h) refl

apply_override-is_for :
    (m : OverrideMatch) (props : Properties)
    → AreNumbers m
    → apply_override m props
      ≡ done (if is_for props m then set_field props device_id (hex_number m.did) else props)
unfolding apply_override
apply_override-is_for m props (a, b, c, d, e) =
    rw
      (
        apply_override,
        stoul16-Fits m.domain a,
        stoul16-Fits m.bus b,
        stoul16-Fits m.device c,
        stoul16-Fits m.function d,
        stoul16-Fits m.did e,
      )
      refl

-- An override of the device ID does not change what the others are for.
last_did-set :
    (ms : List OverrideMatch) (props : Properties) (d : ℕ)
    → last_did ms (set_field props device_id d) ≡ last_did ms props
last_did-set [] props d = refl
last_did-set (m ∷ ms) props d =
    ap
      (λ o. elim o [
        | none ↦ if is_for props m then some (hex_number m.did) else none
        | some d ↦ some d
      ])
      (last_did-set ms props d)

set_field-twice :
    (props : Properties) (a : ℕ) (o : Option ℕ) (g : Field)
    → with_did (set_field props device_id a) o g
      ≡ with_did props (elim o [ none ↦ some a | some d ↦ some d ]) g
set_field-twice props a none g = refl
set_field-twice props a (some d) g = elim (Bool-cases (field_number g == field_number device_id)) [
  | inl h ↦ rw h refl
  | inr h ↦ rw h refl
]

or_none : (o : Option ℕ) → o ≡ elim o [ none ↦ none | some d ↦ some d ]
or_none none = refl
or_none (some d) = refl

after_one :
    (b : Bool) (m : OverrideMatch) (ms : List OverrideMatch) (props : Properties)
    → ((q : Properties)
        → (p : Properties) × (apply_overrides ms q ≡ done p)
          × ((g : Field) → p g ≡ with_did q (last_did ms q) g))
    → (p : Properties) × (apply_overrides ms
          (if b then set_field props device_id (hex_number m.did) else props)
        ≡ done p)
      × ((g : Field)
          → p g
            ≡ with_did props
                (elim (last_did ms props) [
                  | none ↦ if b then some (hex_number m.did) else none
                  | some d ↦ some d
                ])
                g)
after_one true m ms props rest =
    let (p, e, f) = rest (set_field props device_id (hex_number m.did)) in
    (
      p,
      e,
      λ g.
          f g
          ∙ ap (λ o. with_did (set_field props device_id (hex_number m.did)) o g)
              (last_did-set ms props (hex_number m.did))
          ∙ set_field-twice props (hex_number m.did) (last_did ms props) g,
    )
after_one false m ms props rest =
    let (p, e, f) = rest props in
    (p, e, λ g. f g ∙ ap (λ o. with_did props o g) (or_none (last_did ms props)))

-- The overrides throw nothing and leave the device ID of the last override for the node, or the
-- properties as they are if there is none, if every number fits 64 bits.
pub apply_overrides-last :
    (ms : List OverrideMatch) (props : Properties)
    → AllNumbers ms
    → (p : Properties) × (apply_overrides ms props ≡ done p)
      × ((g : Field) → p g ≡ with_did props (last_did ms props) g)
unfolding apply_overrides
apply_overrides-last [] props h = (props, refl, λ g. refl)
apply_overrides-last (m ∷ ms) props (a, h) =
    let (p, e, f) = after_one (is_for props m) m ms props (λ q. apply_overrides-last ms q h) in
    (p, ap (λ r. r >>= λ p. apply_overrides ms p) (apply_override-is_for m props a) ∙ e, f)

-- ===== src/Kfd/OverrideTests.antt =====
-- Runs of the overrides of device IDs of src/kfd.
use rocsift_glog_fork.Common.{[], ◌∷◌, ◌≡◌, refl, arith, ℕ, Option, some, none}
use rocsift_glog_fork.Common.Run.{Run, done}
use rocsift_glog_fork.Kfd.Field.{Field, Properties, set_field, device_id, location_id}
use rocsift_glog_fork.Kfd.Properties.{codes}
use rocsift_glog_fork.Kfd.Override.{
  OverrideMatch, match_override, match_overrides, split_items, override_device_id, apply_override,
  apply_overrides, stoul16,
}
use rocsift_glog_fork.Kfd.Override.Last.{apply_overrides-last, with_did, last_did}
use rocsift_glog_fork.Pm4.Line.{number_from, digit_value, is_digit, is_hex, some_of, span_while}

-- The GPU at bus 0x83.
abbrev gpu_at_83 : Properties
gpu_at_83 = set_field (set_field (λ f. 0) location_id 0x8300) device_id 1

abbrev override_83 : OverrideMatch
override_83 = record {
  domain = codes "0";
  bus = codes "83";
  device = codes "00";
  function = codes "0";
  did = codes "753";
}

matched : match_override (codes "0:83:00.0->0x753") ≡ some override_83
unfolding match_override is_hex is_digit some_of span_while
matched = refl

abbrev did_of : Run Properties → Option ℕ
did_of (done p) = some (p device_id)
did_of _ = none

overridden :
    did_of (override_device_id (some (codes "0:83:00.0->0x753,0.03:00.0->0x74a1")) gpu_at_83)
    ≡ some 0x753
unfolding override_device_id match_overrides split_items match_override is_hex is_digit some_of
    span_while apply_override apply_overrides stoul16 number_from digit_value
overridden = refl

override_example :
    (p : Properties) × (apply_overrides (override_83 ∷ []) gpu_at_83 ≡ done p)
    × ((g : Field) → p g ≡ with_did gpu_at_83 (last_did (override_83 ∷ []) gpu_at_83) g)
unfolding number_from digit_value is_digit
override_example =
    apply_overrides-last (override_83 ∷ []) gpu_at_83
      ((omega arith, omega arith, omega arith, omega arith, omega arith), tt)

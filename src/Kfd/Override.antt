-- ===== src/Kfd/Override.antt =====
-- The override of device IDs at the end of `KFDNode::ParseKFDProperties` of src/kfd/kfdnode.cc. The
-- value of the environment variable is an argument.
pub mod Last
use rocsift_glog_fork.Kfd.Properties.{parse_properties}
use rocsift_glog_fork.Pm4.Line.{is_hex}
use rocsift_glog_fork.Common.{leb}
use rocsift_glog_fork.Common.{
  List, [], ◌∷◌, ℕ, ◌/◌, ◌%◌, ◌^◌, ◌==◌, ◌&&◌, ◌||◌, ltb, Bool, true, false, Option, none, some,
  if◌then◌else◌,
}
use rocsift_glog_fork.Common.Run.{Run, done, throw, ◌>>=◌, std_exception, status_error, error}
use rocsift_glog_fork.Common.Words.{u32}
use rocsift_glog_fork.Kfd.Field.{Properties, set_field, device_id, location_id, domain_id}
use rocsift_glog_fork.Pm4.Line.{number_from, some_of}

abbrev start_item : ℕ → List (List ℕ) → List (List ℕ)
start_item c [] = (c ∷ []) ∷ []
start_item c (item ∷ items) = (c ∷ item) ∷ items

-- `std::getline` up to commas: nothing follows a comma at the end.
unfoldable pub split_items : List ℕ → List (List ℕ)
split_items [] = []
split_items (c ∷ cs) =
    let items = split_items cs in if c == b',' then [] ∷ items else start_item c items

-- The groups of a match but for the prefix of the last number.
pub record OverrideMatch : Type 0 where
  pub domain : List ℕ
  pub bus : List ℕ
  pub device : List ℕ
  pub function : List ℕ
  pub did : List ℕ

abbrev and_then {ℓ κ} : {A : Type ℓ} {B : Type κ} → Option A → (A → Option B) → Option B
and_then none f = none
and_then (some a) f = f a

-- One character of the expression.
abbrev one_of : (ℕ → Bool) → List ℕ → Option (List ℕ)
one_of p [] = none
one_of p (c ∷ cs) = if p c then some cs else none

-- `(0[xX])?`, which is taken where it can be: without it a number cannot go on behind the 0.
abbrev skip_prefix : List ℕ → List ℕ
skip_prefix [] = []
skip_prefix (c ∷ []) = c ∷ []
skip_prefix (c ∷ d ∷ cs) = if c == b'0' && (d == b'x' || d == b'X') then cs else c ∷ d ∷ cs

abbrev at_end : List ℕ → OverrideMatch → Option OverrideMatch
at_end [] m = some m
at_end (c ∷ cs) m = none

-- `std::regex_match` with the expression of an override. The characters between the numbers are no
-- hexadecimal digits, so that there is one way to match.
unfoldable pub match_override : List ℕ → Option OverrideMatch
match_override cs = and_then (some_of is_hex cs) λ dom.
    and_then (one_of (λ c. c == b'.' || c == b':') dom.1) λ r1. and_then (some_of is_hex r1) λ bus.
      and_then (one_of (λ c. c == b':') bus.1) λ r2. and_then (some_of is_hex r2) λ dev.
        and_then (one_of (λ c. c == b'.') dev.1) λ r3. and_then (some_of is_hex r3) λ fun.
          and_then (one_of (λ c. c == b'-') fun.1) λ r4. and_then (one_of (λ c. c == b'>') r4) λ r5.
            and_then (some_of is_hex (skip_prefix r5)) λ did. at_end did.1 (record {
              domain = dom.0;
              bus = bus.0;
              device = dev.0;
              function = fun.0;
              did = did.0;
            })

-- The loop over the entries; the first that does not match throws.
unfoldable pub match_overrides : List (List ℕ) → Run (List OverrideMatch)
match_overrides [] = done []
match_overrides (item ∷ items) = elim (match_override item) [
  | none ↦ throw (status_error error)
  | some m ↦ match_overrides items >>= λ ms. done (m ∷ ms)
]

-- `std::stoul(text, nullptr, 16)`, cut to 32 bits by the assignment.
unfoldable pub stoul16 : List ℕ → Run ℕ
stoul16 cs =
    let n = number_from 16 0 cs in if ltb n (2 ^ 64) then done (u32 n) else throw std_exception

-- `bus_id`, `device_id` and `function_id` of a location.
abbrev pub is_at : Properties → ℕ → ℕ → ℕ → ℕ → Bool
is_at props domain bus device function =
    domain == props domain_id
    && (bus == props location_id / 2 ^ 8 % 2 ^ 8
        && (device == props location_id / 2 ^ 3 % 2 ^ 5 && function == props location_id % 2 ^ 3))

-- The body of the loop over the matches.
unfoldable pub apply_override : OverrideMatch → Properties → Run Properties
apply_override m props = do
  domain ← stoul16 m.domain
  bus ← stoul16 m.bus
  device ← stoul16 m.device
  function ← stoul16 m.function
  did ← stoul16 m.did
  done (if is_at props domain bus device function then set_field props device_id did else props)

unfoldable pub apply_overrides : List OverrideMatch → Properties → Run Properties
apply_overrides [] props = done props
apply_overrides (m ∷ ms) props = apply_override m props >>= λ p. apply_overrides ms p

unfoldable pub override_device_id : Option (List ℕ) → Properties → Run Properties
override_device_id none props = done props
override_device_id (some text) props =
    match_overrides (split_items text) >>= λ ms. apply_overrides ms props

-- `ParseKFDProperties`; the lines are `none` where the path is empty.
unfoldable pub parse_kfd_properties : Option (List ℕ) → Option (List (List ℕ)) → Run Properties
parse_kfd_properties env none = done λ f. 0
parse_kfd_properties env (some lines) = override_device_id env (parse_properties lines)

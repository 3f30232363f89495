-- ===== src/Kfd/File.antt =====
-- The whole `properties` file of a node: `ParseKFDProperties` of src/kfd/kfdnode.cc over lines that
-- the driver prints.
use rocsift_glog_fork.Kfd.Lines.{Digits}
use rocsift_glog_fork.Kfd.Names.{printed_name}
use rocsift_glog_fork.Pm4.Line.{number_from}
use rocsift_glog_fork.Kfd.Lines.{line_of}
use rocsift_glog_fork.Kfd.Printed.{parse_line-printed}
use rocsift_glog_fork.Kfd.Names.{is_read}
use rocsift_glog_fork.Common.{◌==◌}
use rocsift_glog_fork.Kfd.Field.{field_number}
use rocsift_glog_fork.Common.{if◌then◌else◌, if◌then◌else◌}
use rocsift_glog_fork.Common.{none, some}
use rocsift_glog_fork.Kfd.Field.{set_field}
use rocsift_glog_fork.Common.{Option, ◌≡◌}
use rocsift_glog_fork.Kfd.Field.{Properties}
use rocsift_glog_fork.Kfd.Field.{Field}
use rocsift_glog_fork.Common.{List, ℕ}
use rocsift_glog_fork.Kfd.Properties.{parse_lines, parse_properties}
use rocsift_glog_fork.Common.{
  List, [], ◌∷◌, ◌==◌, ◌^◌, ◌<◌, ◌∙◌, true, false, Bool, Option, none, some, ◌≡◌, refl, ap,
  if◌then◌else◌,
}

-- The lines for fields and their values.
abbrev pub printed_lines : List (Field × List ℕ) → List (List ℕ)
printed_lines [] = []
printed_lines ((f, v) ∷ es) = line_of (printed_name f) v ∷ printed_lines es

-- Every field is read, and every value is digits and fits 64 bits.
abbrev pub AreRead : List (Field × List ℕ) → Type 0
AreRead [] = Unit
AreRead ((f, v) ∷ es) = ((is_read f ≡ true) × Digits v × (number_from 10 0 v < 2 ^ 64)) × AreRead es

-- The value in the last of the lines for a field.
abbrev pub last_value : List (Field × List ℕ) → Field → Option ℕ
last_value [] g = none
last_value ((f, v) ∷ es) g =
    let later = last_value es g in
    elim later [
      | none ↦ if field_number g == field_number f then some (number_from 10 0 v) else none
      | some n ↦ some n
    ]

abbrev pub or_default : ℕ → Option ℕ → ℕ
or_default n none = n
or_default n (some m) = m

or_default_step :
    (b : Bool) (m n : ℕ) (later : Option ℕ)
    → or_default (if b then m else n) later
      ≡ or_default n (elim later [ none ↦ if b then some m else none | some k ↦ some k ])
or_default_step b m n (some k) = refl
or_default_step true m n none = refl
or_default_step false m n none = refl

parse_lines-printed :
    (es : List (Field × List ℕ)) (props : Properties) (g : Field)
    → AreRead es
    → parse_lines (printed_lines es) props g ≡ or_default (props g) (last_value es g)
unfolding parse_lines
parse_lines-printed [] props g h = refl
parse_lines-printed ((f, v) ∷ es) props g ((r, d, b), hs) =
    ap (λ p. parse_lines (printed_lines es) p g) (parse_line-printed f v props r d b)
    ∙ parse_lines-printed es (set_field props f (number_from 10 0 v)) g hs
    ∙ or_default_step (field_number g == field_number f) (number_from 10 0 v) (props g)
        (last_value es g)

-- Reading a file of lines that the driver prints gives each field the value in the last of its
-- lines, and 0 if it has none, if every line is for a field other than `sdma_fw_version` and
-- `num_gws` and its value is digits and fits 64 bits.
pub parse_properties-printed :
    (es : List (Field × List ℕ)) (g : Field)
    → AreRead es
    → parse_properties (printed_lines es) g ≡ or_default 0 (last_value es g)
unfolding parse_properties
parse_properties-printed es g h = parse_lines-printed es (λ f. 0) g h

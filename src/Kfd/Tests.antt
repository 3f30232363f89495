-- ===== src/Kfd/Tests.antt =====
-- Runs of the definitions for src/kfd.
use rocsift_glog_fork.Common.{refl}
use rocsift_glog_fork.Kfd.Printed.{parse_line-lost}
use rocsift_glog_fork.Common.{arith}
use rocsift_glog_fork.Kfd.Field.{num_gws, simd_count}
use rocsift_glog_fork.Kfd.Field.{fw_version}
use rocsift_glog_fork.Kfd.File.{parse_properties-printed}
use rocsift_glog_fork.Common.{[]}
use rocsift_glog_fork.Kfd.Field.{set_field}
use rocsift_glog_fork.Common.{◌∷◌, ◌≡◌}
use rocsift_glog_fork.Kfd.Field.{sdma_fw_version}
use rocsift_glog_fork.Kfd.Properties.{codes}
use rocsift_glog_fork.Kfd.Field.{simd_count}
use rocsift_glog_fork.Kfd.Names.{printed_name}
use rocsift_glog_fork.Common.{ℕ}
use rocsift_glog_fork.Kfd.File.{printed_lines}
use rocsift_glog_fork.Kfd.Lines.{Digits, line_of}
use rocsift_glog_fork.Pm4.Line.{is_digit, number_from, digit_value}
use rocsift_glog_fork.Kfd.Properties.{parse_line, parse_properties}
use rocsift_glog_fork.Common.{List}

abbrev value_16 : List ℕ
value_16 = codes "16"

value_16-Digits : Digits value_16
unfolding is_digit
value_16-Digits = (refl, (refl, tt))

sdma_fw_version_example :
    (parse_line (line_of (printed_name sdma_fw_version) value_16) (λ f. 0)
      ≡ set_field (λ f. 0) fw_version 16)
    × (parse_line (line_of (printed_name num_gws) value_16) (λ f. 0) ≡ λ f. 0)
unfolding number_from digit_value
sdma_fw_version_example = parse_line-lost value_16 (λ f. 0) value_16-Digits (omega arith)

file_example :
    parse_properties
      (printed_lines ((simd_count, codes "3") ∷ (simd_count, value_16) ∷ []))
      simd_count
    ≡ 16
unfolding number_from digit_value is_digit
file_example =
    parse_properties-printed ((simd_count, codes "3") ∷ (simd_count, value_16) ∷ []) simd_count
      ((refl, (refl, tt), omega arith), ((refl, value_16-Digits, omega arith), tt))

-- ===== src/Kfd/Printed.antt =====
-- The lines that the driver prints for the fields, and what `ParseKFDProperties` makes of them.
use rocsift_glog_fork.Common.{
  List, [], ◌∷◌, ℕ, true, none, some, ◌≡◌, refl, ◌∙◌, ap, ◌<◌, ◌^◌, lt→ltb,
}
use rocsift_glog_fork.Kfd.Field.{Field, Properties, set_field, fw_version, sdma_fw_version, num_gws}
use rocsift_glog_fork.Kfd.Names.{printed_name, is_read, printed_row, printed_plain}
use rocsift_glog_fork.Kfd.Properties.{find_row, rows, parse_line, strtoul}
use rocsift_glog_fork.Kfd.Rows.{
  find_row-first_suffix, with_value, first_suffix, plain_chars, plain_chars_lem,
}
use rocsift_glog_fork.Kfd.Lines.{line_of, Digits, span_all}
use rocsift_glog_fork.Pm4.Line.{number_from, is_space, is_digit}

found :
    (w v : List ℕ)
    → plain_chars w ≡ true
    → Digits v
    → find_row rows (line_of w v) ≡ with_value v (first_suffix rows w)
unfolding is_digit is_space
found w v p h = find_row-first_suffix rows w v refl (plain_chars_lem w p) h

strtoul-Digits :
    (v : List ℕ) → Digits v → number_from 10 0 v < 2 ^ 64 → strtoul v ≡ number_from 10 0 v
unfolding strtoul
strtoul-Digits [] h b = absurd h
strtoul-Digits (d ∷ ds) h b = rw (strtoul, span_all is_digit (d ∷ ds) h) (rw (lt→ltb _ _ b))

parse_line-found :
    (w v : List ℕ) (f : Field) (props : Properties)
    → find_row rows (line_of w v) ≡ some (f, v)
    → Digits v
    → number_from 10 0 v < 2 ^ 64
    → parse_line (line_of w v) props ≡ set_field props f (number_from 10 0 v)
unfolding parse_line
parse_line-found w v f props e h b = rw (parse_line, e, strtoul-Digits v h b)

-- The line that the driver prints for a field sets that field to its value, and no other, if the
-- value is digits and fits 64 bits, for every field but `sdma_fw_version` and `num_gws`.
pub parse_line-printed :
    (f : Field) (v : List ℕ) (props : Properties)
    → is_read f ≡ true
    → Digits v
    → number_from 10 0 v < 2 ^ 64
    → parse_line (line_of (printed_name f) v) props ≡ set_field props f (number_from 10 0 v)
parse_line-printed f v props r h b =
    parse_line-found (printed_name f) v f props
      (found (printed_name f) v (printed_plain f) h ∙ ap (with_value v) (printed_row f r)) h b

-- The line for `sdma_fw_version` sets `fw_version` instead, and the line for `num_gws` sets nothing.
pub parse_line-lost :
    (v : List ℕ) (props : Properties)
    → Digits v
    → number_from 10 0 v < 2 ^ 64
    → (parse_line (line_of (printed_name sdma_fw_version) v) props
        ≡ set_field props fw_version (number_from 10 0 v))
      × (parse_line (line_of (printed_name num_gws) v) props ≡ props)
unfolding parse_line
parse_line-lost v props h b = (
  parse_line-found (printed_name sdma_fw_version) v fw_version props
      (found (printed_name sdma_fw_version) v (printed_plain sdma_fw_version) h
        ∙ ap (with_value v) sdma_row)
      h b,
  rw
      (
        parse_line,
        found (printed_name num_gws) v (printed_plain num_gws) h ∙ ap (with_value v) gws_row,
      )
      refl,
)
  where
    sdma_row : first_suffix rows (printed_name sdma_fw_version) ≡ some fw_version
    sdma_row = refl

    gws_row : first_suffix rows (printed_name num_gws) ≡ none
    gws_row = refl

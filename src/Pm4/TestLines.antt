-- ===== src/Pm4/TestLines.antt =====
-- Lines of a small runlist file, for the tests.
use rocsift_glog_fork.Common.{
  Bool, List, [], arith, inr, not, refl, true, ℕ, ◌&&◌, ◌++◌, ◌==◌, ◌∷◌, ◌≡◌,
}
use rocsift_glog_fork.Common.Run.{done}
use rocsift_glog_fork.Pm4.Encode.{encode_packet}
use rocsift_glog_fork.Pm4.Line.{
  digit_value, get_data_start_position, is_digit, is_hex, is_space, match_dword, number_from,
  parse_node_line, span_while,
}
use rocsift_glog_fork.Pm4.Parser.{new_for}
use rocsift_glog_fork.Pm4.Parser.Section.{Section, lines_then}
use rocsift_glog_fork.Pm4.Parser.Steps.{IsDataLine}
use rocsift_glog_fork.Pm4.Parser.Text.{NoNewline}
use rocsift_glog_fork.Pm4.Print.{
  get_data_start_position-print, parse_data_section-print, parse_node_line-print, print_data,
  print_node,
}
use rocsift_glog_fork.Pm4.Tests.{queues_packet}
use rocsift_glog_fork.Pm4.Types.{mismatches, returns}

-- "1", "2a" and "2b".
abbrev pub node_1 : List ℕ
node_1 = b'1' ∷ []

abbrev pub gpu_2a : List ℕ
gpu_2a = b'2' ∷ b'a' ∷ []

abbrev pub gpu_2b : List ℕ
gpu_2b = b'2' ∷ b'b' ∷ []

abbrev pub other_line : List ℕ
other_line = print_node node_1 gpu_2b

abbrev pub wanted_line : List ℕ
wanted_line = print_node node_1 gpu_2a

abbrev pub data_line : List ℕ
data_line = print_data 0 (encode_packet queues_packet)

unfoldable pub no_newline : List ℕ → Bool
no_newline [] = true
no_newline (c ∷ cs) = not (c == b'\n') && no_newline cs

pub no_newline_lem : (cs : List ℕ) → no_newline cs ≡ true → NoNewline cs
unfolding no_newline
no_newline_lem [] h = tt
no_newline_lem (c ∷ cs) h = (ground arith, no_newline_lem cs (ground arith))

pub wanted_read : parse_node_line wanted_line ≡ done (returns (record { node_id = 1; gpu_id = 42 }))
unfolding number_from is_digit is_hex digit_value
wanted_read =
    parse_node_line-print b'1' [] b'2' (b'a' ∷ []) (refl, tt) (refl, (refl, tt)) (omega arith)
      (omega arith)

pub other_read : parse_node_line other_line ≡ done (returns (record { node_id = 1; gpu_id = 43 }))
unfolding number_from is_digit is_hex digit_value
other_read =
    parse_node_line-print b'1' [] b'2' (b'b' ∷ []) (refl, tt) (refl, (refl, tt)) (omega arith)
      (omega arith)

pub other_ends : get_data_start_position other_line ≡ done mismatches
unfolding get_data_start_position match_dword span_while is_space is_hex is_digit
other_ends = refl

pub data_line_read : IsDataLine data_line (encode_packet queues_packet)
data_line_read = (
  11,
  get_data_start_position-print 0 (encode_packet queues_packet),
  parse_data_section-print (encode_packet queues_packet)
      (
        omega arith,
        (
          omega arith,
          (
            omega arith,
            (omega arith, (omega arith, (omega arith, (omega arith, (omega arith, tt))))),
          ),
        ),
      )
      (omega arith),
)

abbrev pub text : List ℕ
text =
    lines_then (other_line ∷ [])
      (wanted_line ++ (b'\n' ∷ lines_then (data_line ∷ []) (other_line ++ (b'\n' ∷ []))))

unfoldable pub text_section : Section (new_for text 1 42) 0
unfolding no_newline new_for
text_section = record {
  skipped = other_line ∷ [];
  node_line = wanted_line;
  found = record { node_id = 1; gpu_id = 42 };
  data_lines = data_line ∷ [];
  dwords = encode_packet queues_packet ∷ [];
  rest = other_line ++ (b'\n' ∷ []);
  stands = refl;
  skips = (
    (
      no_newline_lem other_line refl,
      inr (record { node_id = 1; gpu_id = 43 }, other_read, refl, refl),
    ),
    tt,
  );
  node_ends = no_newline_lem wanted_line refl;
  node_read = wanted_read;
  wanted = inr (refl, refl);
  data_read = ((no_newline_lem data_line refl, data_line_read), tt);
  few = omega arith;
  followed = inr (other_line, [], refl, no_newline_lem other_line refl, other_ends);
}

-- ===== src/Pm4/Capi/Tests.antt =====
-- The theorems on lists of runlists, on small files.
use rocsift_glog_fork.Common.{List, [], arith, map, none, refl, some, true, ℕ, ◌++◌, ◌∷◌, ◌≡◌}
use rocsift_glog_fork.Common.Run.{done, error, fault, success}
use rocsift_glog_fork.Pm4.Capi.{destroy_runlist_entries, destroy_runlists}
use rocsift_glog_fork.Pm4.Capi.BadLine.{
  BadLine, parse_runlists-BadLine, parse_runlists-BadLine_many,
}
use rocsift_glog_fork.Pm4.Capi.Found.{parse_runlist-Section}
use rocsift_glog_fork.Pm4.Capi.Layout.{BodiesAt, ListAt, SameBelow, SameFrom, cells_at}
use rocsift_glog_fork.Pm4.Capi.RoundTrip.{destroy_runlists-parse_runlists, parse_runlists-text_of}
use rocsift_glog_fork.Pm4.Capi.Series.{parse_runlists}
use rocsift_glog_fork.Pm4.Capi.Single.{parse_runlist}
use rocsift_glog_fork.Pm4.Capi.Text.{GoodSection, SectionText, runlist_of, text_of, text_then}
use rocsift_glog_fork.Pm4.Encode.{encode_packet}
use rocsift_glog_fork.Pm4.Heap.{Heap, Ptr, RunlistCell, entries_block}
use rocsift_glog_fork.Pm4.Line.{
  digit_value, drop_spaces, ends_node, get_data_start_position, is_digit, is_hex, is_space,
  match_dword, match_node, number_from, parse_node_line, some_of, span_while, stoul,
}
use rocsift_glog_fork.Pm4.Print.{print_node}
use rocsift_glog_fork.Pm4.Stream.{decoded}
use rocsift_glog_fork.Pm4.TestLines.{
  data_line, data_line_read, gpu_2a, no_newline, no_newline_lem, other_ends, other_line, other_read,
  text, text_section, wanted_line, wanted_read,
}
use rocsift_glog_fork.Pm4.Tests.{queues_packet, queues_packet-FitsPacket}
use rocsift_glog_fork.Pm4.Types.{fails, mismatches}

-- A line behind sections must not read as data.
wanted_ends : get_data_start_position wanted_line ≡ done mismatches
unfolding get_data_start_position match_dword span_while is_space is_hex is_digit
wanted_ends = refl

-- Sections with one data line.
abbrev section_2a : SectionText
section_2a = record {
  skipped = [];
  node_line = wanted_line;
  found = record { node_id = 1; gpu_id = 42 };
  data_lines = data_line ∷ [];
  dwords = encode_packet queues_packet ∷ [];
  packet = queues_packet;
  packets = [];
}

abbrev section_2b : SectionText
section_2b = record section_2a {
  node_line = other_line;
  found = record { node_id = 1; gpu_id = 43 };
}

section_2a-GoodSection : GoodSection section_2a
unfolding no_newline
section_2a-GoodSection = record {
  skips = tt;
  node_ends = no_newline_lem wanted_line refl;
  node_read = wanted_read;
  data_read = ((no_newline_lem data_line refl, data_line_read), tt);
  few = omega arith;
  holds = refl;
  fits = (queues_packet-FitsPacket, tt);
  starts = wanted_ends;
}

section_2b-GoodSection : GoodSection section_2b
unfolding no_newline
section_2b-GoodSection = record {
  skips = tt;
  node_ends = no_newline_lem other_line refl;
  node_read = other_read;
  data_read = ((no_newline_lem data_line refl, data_line_read), tt);
  few = omega arith;
  holds = refl;
  fits = (queues_packet-FitsPacket, tt);
  starts = other_ends;
}

abbrev no_blocks : Heap
no_blocks = record { next_addr = 5; cell = λ a. none }

-- Twenty nines, which 64 bits do not hold.
abbrev nines : List ℕ
nines =
    b'9' ∷ b'9' ∷ b'9' ∷ b'9' ∷ b'9' ∷ b'9' ∷ b'9' ∷ b'9' ∷ b'9' ∷ b'9' ∷ b'9' ∷ b'9' ∷ b'9' ∷ b'9'
    ∷ b'9' ∷ b'9' ∷ b'9' ∷ b'9' ∷ b'9' ∷ b'9' ∷ []

abbrev large_line : List ℕ
large_line = print_node nines gpu_2a

large_refused : parse_node_line large_line ≡ done fails
unfolding parse_node_line match_node drop_spaces is_space some_of span_while is_digit is_hex
    ends_node stoul number_from digit_value
large_refused = refl

large_ends : get_data_start_position large_line ≡ done mismatches
unfolding get_data_start_position match_dword span_while is_space is_hex is_digit
large_ends = refl

large_line-BadLine : BadLine large_line
unfolding no_newline
large_line-BadLine = record {
  line_ends = no_newline_lem large_line refl;
  refused = large_refused;
  no_data = large_ends;
}

abbrev two : List SectionText
two = section_2a ∷ section_2b ∷ []

parse_runlists_example :
    (g : Heap) × (parse_runlists (λ _. true) (text_of two) no_blocks ≡ done (success, some 6, g))
    × ListAt g 5 (map runlist_of two)
    × SameBelow 5 no_blocks g
    × (g.next_addr ≡ 13)
    × SameFrom g.next_addr no_blocks g
parse_runlists_example =
    parse_runlists-text_of section_2a (section_2b ∷ []) no_blocks
      (section_2a-GoodSection, (section_2b-GoodSection, tt)) (omega arith)

destroy_runlists_example :
    (g : Heap) × (f : Heap) × (head : Ptr) × (parse_runlists (λ _. true) (text_of two) no_blocks
      ≡ done (success, head, g))
    × (destroy_runlists head g ≡ done (success, f))
    × ((q : ℕ) → f.cell q ≡ none)
destroy_runlists_example =
    destroy_runlists-parse_runlists section_2a (section_2b ∷ []) no_blocks
      (section_2a-GoodSection, (section_2b-GoodSection, tt)) (omega arith) (λ q u. refl)

bad_line_example :
    (f : Heap) × (parse_runlists
        (λ _. true)
        (text_then (section_2a ∷ []) (large_line ++ (b'\n' ∷ [])))
        no_blocks
      ≡ done (error, some 6, f))
    × ((q : ℕ) → f.cell q ≡ none)
bad_line_example =
    parse_runlists-BadLine section_2a large_line [] no_blocks section_2a-GoodSection
      large_line-BadLine (omega arith) (λ q u. refl)

bad_line_behind_two_example :
    parse_runlists (λ _. true) (text_then two (large_line ++ (b'\n' ∷ []))) no_blocks ≡ fault
bad_line_behind_two_example =
    parse_runlists-BadLine_many section_2a section_2b [] large_line [] no_blocks
      (section_2a-GoodSection, (section_2b-GoodSection, tt)) large_line-BadLine (omega arith)

abbrev no_runlist : RunlistCell
no_runlist = record { node = record { node_id = 0; gpu_id = 0 }; entries = none; num_entries = 0 }

parse_runlist_example :
    (g : Heap) × (f : Heap) × (parse_runlist (λ _. true) 1 42 text no_runlist no_blocks
      ≡ done (
        success,
        record { node = record { node_id = 1; gpu_id = 42 }; entries = some 6; num_entries = 1 },
        g,
      ))
    × BodiesAt g 5 (decoded queues_packet ∷ [])
    × (g.cell 6 ≡ some (entries_block (cells_at 5 (decoded queues_packet ∷ []))))
    × (destroy_runlist_entries (some 6) 1 g ≡ done f)
    × ((q : ℕ) → f.cell q ≡ none)
unfolding text_section
parse_runlist_example =
    parse_runlist-Section text 1 42 text_section queues_packet [] no_runlist no_blocks refl
      (queues_packet-FitsPacket, tt) (λ q u. refl)

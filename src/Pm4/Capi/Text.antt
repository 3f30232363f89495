-- ===== src/Pm4/Capi/Text.antt =====
-- The text of a runlist file as sections, each with lines to pass over, a node line and data lines.
use rocsift_glog_fork.Common.{◌^◌, ◌^◌}
use rocsift_glog_fork.Common.{◌<◌, ◌<◌}
use rocsift_glog_fork.Common.{List, [], arith, length, length-append, map, ℕ, ◌++◌, ◌∷◌, ◌≡◌, ◌≤◌}
use rocsift_glog_fork.Common.Run.{done}
use rocsift_glog_fork.Pm4.Capi.Layout.{Runlist}
use rocsift_glog_fork.Pm4.Encode.{FitsPackets, Packet, encode_packets}
use rocsift_glog_fork.Pm4.Line.{get_data_start_position, parse_node_line}
use rocsift_glog_fork.Pm4.Parser.{concat}
use rocsift_glog_fork.Pm4.Parser.Section.{DataLines, length-lines_then, lines_then}
use rocsift_glog_fork.Pm4.Parser.Text.{NoNewline}
use rocsift_glog_fork.Pm4.Stream.{decoded}
use rocsift_glog_fork.Pm4.Types.{Node, mismatches, returns}

pub record SectionText : Type 0 where
  pub skipped : List (List ℕ)
  pub node_line : List ℕ
  pub found : Node
  pub data_lines : List (List ℕ)
  pub dwords : List (List ℕ)
  pub packet : Packet
  pub packets : List Packet

-- The text of sections in front of a rest.
abbrev pub text_then : List SectionText → List ℕ → List ℕ
text_then [] rest = rest
text_then (t ∷ ts) rest =
    lines_then t.skipped (t.node_line ++ (b'\n' ∷ lines_then t.data_lines (text_then ts rest)))

abbrev pub text_of : List SectionText → List ℕ
text_of ts = text_then ts []

-- Lines that are no node lines.
abbrev pub PassedLines : List (List ℕ) → Type 0
PassedLines [] = Unit
PassedLines (line ∷ lines) =
    (NoNewline line × (parse_node_line line ≡ done mismatches)) × PassedLines lines

abbrev pub first_line : SectionText → List ℕ
first_line t = elim t.skipped [ [] ↦ t.node_line | line ∷ lines ↦ line ]

-- The lines read as the fields of the section say, the first is no data line, and the dwords are
-- fewer than 2^31.
pub record GoodSection (t : SectionText) : Type 0 where
  pub skips : PassedLines t.skipped
  pub node_ends : NoNewline t.node_line
  pub node_read : parse_node_line t.node_line ≡ done (returns t.found)
  pub data_read : DataLines t.data_lines t.dwords
  pub few : length (concat t.dwords) < 2 ^ 31
  pub holds : concat t.dwords ≡ encode_packets (t.packet ∷ t.packets)
  pub fits : FitsPackets (t.packet ∷ t.packets)
  pub starts : get_data_start_position (first_line t) ≡ done mismatches

abbrev pub GoodSections : List SectionText → Type 0
GoodSections [] = Unit
GoodSections (t ∷ ts) = GoodSection t × GoodSections ts

abbrev pub runlist_of : SectionText → Runlist
runlist_of t = record { node = t.found; entries = map decoded (t.packet ∷ t.packets) }

pub length-text_then :
    (ts : List SectionText) (rest : List ℕ) → length ts ≤ length (text_then ts rest)
length-text_then [] rest = omega arith
length-text_then (t ∷ ts) rest =
    let later = text_then ts rest in
    omega (
      arith,
      length-text_then ts rest,
      length-lines_then t.data_lines later,
      length-append {0} t.node_line (b'\n' ∷ lines_then t.data_lines later),
      length-lines_then t.skipped (t.node_line ++ (b'\n' ∷ lines_then t.data_lines later)),
    )

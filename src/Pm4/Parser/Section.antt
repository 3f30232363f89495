-- ===== src/Pm4/Parser/Section.antt =====
-- `Parse` on a whole section of the runlist file: lines to pass over, a node line, its data lines,
-- and what follows them.
use rocsift_glog_fork.Common.{◌^◌}
use rocsift_glog_fork.Common.{◌<◌}
use rocsift_glog_fork.Pm4.Parser.{concat}
use native.Mathlib.Nat.{suc-add}
use native.Mathlib.Nat.{zero-add}
use rocsift_glog_fork.Common.{List, [], drop, length, ℕ, ◌++◌, ◌+◌, ◌∙◌, ◌∷◌, ◌≡◌}
use rocsift_glog_fork.Pm4.Parser.{RlsParser, node_state, parse_loop}
use rocsift_glog_fork.Pm4.Parser.Steps.{IsDataLine, IsSkipped, at_line, loop-skip}
use rocsift_glog_fork.Pm4.Parser.Text.{LineAt, NoNewline, after_line, drop-after_line}
use rocsift_glog_fork.Common.{append-nil, append_assoc}
use rocsift_glog_fork.Pm4.Parser.{data_state}
use rocsift_glog_fork.Pm4.Parser.Steps.{loop-data, with_dwords}
use rocsift_glog_fork.Common.{
  Option, ap, arith, inl, inr, length-append, length-drop, none, some, suc, ◌-◌, ◌≤◌, ◌⊎◌,
}
use rocsift_glog_fork.Common.Run.{done}
use rocsift_glog_fork.Common.Words.{sub64}
use rocsift_glog_fork.Pm4.Line.{get_data_start_position, parse_node_line}
use rocsift_glog_fork.Pm4.Parser.{State, end_state}
use rocsift_glog_fork.Pm4.Parser.Steps.{
  IsWanted, loop-end_of_text, loop-leave, loop-take, with_node,
}
use rocsift_glog_fork.Pm4.Types.{Node, mismatches, returns}

-- The text of lines, each ended by a newline, in front of a rest.
abbrev pub lines_then : List (List ℕ) → List ℕ → List ℕ
lines_then [] rest = rest
lines_then (line ∷ lines) rest = line ++ (b'\n' ∷ lines_then lines rest)

abbrev pub SkippedLines : RlsParser → List (List ℕ) → Type 0
SkippedLines p [] = Unit
SkippedLines p (line ∷ lines) = (NoNewline line × IsSkipped p line) × SkippedLines p lines

-- Data lines with the dwords of each.
abbrev pub DataLines : List (List ℕ) → List (List ℕ) → Type 0
DataLines [] [] = Unit
DataLines [] (ws ∷ wss) = ⊥
DataLines (line ∷ lines) [] = ⊥
DataLines (line ∷ lines) (ws ∷ wss) = (NoNewline line × IsDataLine line ws) × DataLines lines wss

abbrev pub after_lines : ℕ → List (List ℕ) → ℕ
after_lines start [] = start
after_lines start (line ∷ lines) = after_lines (after_line start line) lines

skip_lines :
    (p : RlsParser) (lines : List (List ℕ)) (rest : List ℕ) (start last fuel : ℕ)
    → drop start p.rls_text ≡ lines_then lines rest
    → SkippedLines p lines
    → parse_loop (length lines + fuel) (at_line p node_state start) start last
      ≡ parse_loop fuel
          (at_line p node_state (after_lines start lines))
          (after_lines start lines)
          last
skip_lines p [] rest start last fuel e h = rw zero-add
skip_lines p (line ∷ lines) rest start last fuel e h =
    let at : LineAt p.rls_text start line (lines_then lines rest) = (e, h.0.0) in
    rw suc-add (
      loop-skip p start last (length lines + fuel) line (lines_then lines rest) at h.0.1
      ∙ skip_lines p lines rest (after_line start line) last fuel
          (drop-after_line p.rls_text start line (lines_then lines rest) e) h.1)

pub drop-after_lines :
    (text : List ℕ) (lines : List (List ℕ)) (rest : List ℕ) (start : ℕ)
    → drop start text ≡ lines_then lines rest
    → drop (after_lines start lines) text ≡ rest
drop-after_lines text [] rest start e = e
drop-after_lines text (line ∷ lines) rest start e =
    drop-after_lines text lines rest (after_line start line)
      (drop-after_line text start line (lines_then lines rest) e)

-- The parser after data lines.
abbrev pub with_data : RlsParser → List (List ℕ) → RlsParser
with_data p wss = record p { dwords_buffer = p.dwords_buffer ++ wss }

read_data :
    (p : RlsParser) (lines wss : List (List ℕ)) (rest : List ℕ) (start last fuel : ℕ)
    → drop start p.rls_text ≡ lines_then lines rest
    → DataLines lines wss
    → parse_loop (length lines + fuel) (at_line p data_state start) start last
      ≡ parse_loop fuel
          (at_line (with_data p wss) data_state (after_lines start lines))
          (after_lines start lines)
          last
read_data p [] [] rest start last fuel e h = rw (zero-add, append-nil)
read_data p [] (ws ∷ wss) rest start last fuel e h = absurd h
read_data p (line ∷ lines) [] rest start last fuel e h = absurd h
read_data p (line ∷ lines) (ws ∷ wss) rest start last fuel e h = rw suc-add (
    loop-data p start last (length lines + fuel) line (lines_then lines rest) (e, h.0.0) ws h.0.1
    ∙ read_data (with_dwords p ws) lines wss rest (after_line start line) last fuel
        (drop-after_line p.rls_text start line (lines_then lines rest) e) h.1
    ∙ rw append_assoc)

-- What may follow the data: the end of the text, or a line that is no data line.
abbrev pub IsFollowed : List ℕ → Type 0
IsFollowed rest =
    (rest ≡ [])
    ⊎ ((line : List ℕ) × (post : List ℕ) × (rest ≡ line ++ (b'\n' ∷ post))
        × NoNewline line
        × (get_data_start_position line ≡ done mismatches))

-- Where the next call of `Parse` goes on: nowhere, or at the newline in front of that line.
abbrev pub next_pos : (rest : List ℕ) → IsFollowed rest → ℕ → Option ℕ
next_pos rest (inl e) pos = none
next_pos rest (inr follower) pos = some (sub64 pos 1)

abbrev pub last_state : (rest : List ℕ) → IsFollowed rest → State
last_state rest (inl e) = data_state
last_state rest (inr follower) = end_state

leave_data :
    (p : RlsParser) (rest : List ℕ) (f : IsFollowed rest) (start last fuel : ℕ)
    → drop start p.rls_text ≡ rest
    → parse_loop (suc (suc fuel)) (at_line p data_state start) start last
      ≡ done (record p { state = last_state rest f; end_pos = next_pos rest f start })
leave_data p rest (inl e) start last fuel h =
    loop-end_of_text p data_state start last (suc fuel) (h ∙ e)
leave_data p rest (inr (line, post, e, n, d)) start last fuel h =
    loop-leave p start last fuel line post (h ∙ e, n) d

pub length-lines_then :
    (lines : List (List ℕ)) (rest : List ℕ)
    → length lines + length rest ≤ length (lines_then lines rest)
length-lines_then [] rest = omega arith
length-lines_then (line ∷ lines) rest =
    omega
      (arith, length-append {0} line (b'\n' ∷ lines_then lines rest), length-lines_then lines rest)

-- The text from `start` on is a section of the parser's node, with fewer than 2^31 dwords.
pub record Section (p : RlsParser) (start : ℕ) : Type 0 where
  pub skipped : List (List ℕ)
  pub node_line : List ℕ
  pub found : Node
  pub data_lines : List (List ℕ)
  pub dwords : List (List ℕ)
  pub rest : List ℕ
  pub stands :
      drop start p.rls_text ≡ lines_then skipped (node_line ++ (b'\n' ∷ lines_then data_lines rest))
  pub skips : SkippedLines p skipped
  pub node_ends : NoNewline node_line
  pub node_read : parse_node_line node_line ≡ done (returns found)
  pub wanted : IsWanted p found
  pub data_read : DataLines data_lines dwords
  pub few : length (concat dwords) < 2 ^ 31
  pub followed : IsFollowed rest

-- Where the data and the rest of a section begin.
abbrev pub data_start : {p : RlsParser} {start : ℕ} → Section p start → ℕ
data_start {start} s = after_line (after_lines start s.skipped) s.node_line

abbrev pub rest_start : {p : RlsParser} {start : ℕ} → Section p start → ℕ
rest_start s = after_lines (data_start s) s.data_lines

module _ {p : RlsParser} {start : ℕ} (s : Section p start) where
  -- The parser when the loop has read the section.
  abbrev pub read_parser : RlsParser
  read_parser = record (with_data (with_node p s.found) s.dwords) {
    state = last_state s.rest s.followed;
    end_pos = next_pos s.rest s.followed (rest_start s);
  }

  section_fuel :
      (k : ℕ) × (length p.rls_text + 3 ≡ length s.skipped + suc (length s.data_lines + suc (suc k)))
  section_fuel = (
    length p.rls_text - length s.skipped - length s.data_lines,
    omega (
      arith,
      length-drop start p.rls_text,
      ap length s.stands,
      length-lines_then s.skipped (s.node_line ++ (b'\n' ∷ lines_then s.data_lines s.rest)),
      length-append {0} s.node_line (b'\n' ∷ lines_then s.data_lines s.rest),
      length-lines_then s.data_lines s.rest,
    ),
  )

  pub loop-section :
      (last : ℕ)
      → parse_loop (length p.rls_text + 3) (at_line p node_state start) start last
        ≡ done read_parser
  loop-section last =
      let (k, e) = section_fuel in
      let after_skip = after_lines start s.skipped in
      let at_node = drop-after_lines p.rls_text s.skipped _ start s.stands in
      let at_data = drop-after_line p.rls_text after_skip s.node_line _ at_node in
      rw e (
        skip_lines p s.skipped _ start last (suc (length s.data_lines + suc (suc k))) s.stands
          s.skips
        ∙ loop-take p after_skip last (length s.data_lines + suc (suc k)) s.node_line _
            (at_node, s.node_ends) s.found s.node_read s.wanted
        ∙ read_data (with_node p s.found) s.data_lines s.dwords s.rest (data_start s) last
            (suc (suc k)) at_data s.data_read
        ∙ leave_data (with_data (with_node p s.found) s.dwords) s.rest s.followed (rest_start s)
            last k (drop-after_lines p.rls_text s.data_lines s.rest (data_start s) at_data))

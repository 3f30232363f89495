-- ===== src/Pm4/Capi/Newlines.antt =====
-- Where the newline stands in front of what follows a section of the runlist file.
use rocsift_glog_fork.Common.{
  List, [], ap, arith, drop, drop-drop, length, length-drop, sym, ℕ, ◌++◌, ◌-◌, ◌∙◌, ◌∷◌, ◌≡◌, ◌≤◌,
}
use rocsift_glog_fork.Pm4.Parser.{RlsParser}
use rocsift_glog_fork.Pm4.Parser.Section.{
  DataLines, Section, after_lines, data_start, drop-after_lines, lines_then, rest_start,
}
use rocsift_glog_fork.Pm4.Parser.Text.{NoNewline, after_line, drop_at_newline}

abbrev NoNewlines : List (List ℕ) → Type 0
NoNewlines [] = Unit
NoNewlines (line ∷ lines) = NoNewline line × NoNewlines lines

-- A newline stands in front of what follows lines.
newline_before :
    (text : List ℕ) (lines : List (List ℕ)) (rest : List ℕ) (start : ℕ)
    → 1 ≤ start
    → drop (start - 1) text ≡ b'\n' ∷ lines_then lines rest
    → NoNewlines lines
    → (1 ≤ after_lines start lines) × (drop (after_lines start lines - 1) text ≡ b'\n' ∷ rest)
newline_before text [] rest start h e n = (h, e)
newline_before text (line ∷ lines) rest start h e n =
    let here : drop start text ≡ line ++ (b'\n' ∷ lines_then lines rest) =
      ap (λ k. drop k text) (omega arith) ∙ sym (drop-drop (start - 1) 1 text) ∙ ap (drop 1) e in
    newline_before text lines rest (after_line start line) (omega arith)
      (ap (λ k. drop k text) (omega arith)
        ∙ drop_at_newline text start line (lines_then lines rest) (here, n.0))
      n.1

data_ends : (lines wss : List (List ℕ)) → DataLines lines wss → NoNewlines lines
data_ends [] wss d = tt
data_ends (line ∷ lines) [] d = absurd d
data_ends (line ∷ lines) (ws ∷ wss) d = (d.0.0, data_ends lines wss d.1)

pub newline_before_rest :
    (p : RlsParser) (start : ℕ) (s : Section p start)
    → (1 ≤ rest_start s) × (drop (rest_start s - 1) p.rls_text ≡ b'\n' ∷ s.rest)
newline_before_rest p start s =
    let node_start = after_lines start s.skipped in
    let at_node = drop-after_lines p.rls_text s.skipped _ start s.stands in
    newline_before p.rls_text s.data_lines s.rest (data_start s) (omega arith)
      (ap (λ k. drop k p.rls_text) (omega arith)
        ∙ drop_at_newline p.rls_text node_start s.node_line _ (at_node, s.node_ends))
      (data_ends s.data_lines s.dwords s.data_read)

pub rest_start-le :
    (p : RlsParser) (start : ℕ) (s : Section p start) → rest_start s ≤ length p.rls_text
rest_start-le p start s =
    let (low, e) = newline_before_rest p start s in
    omega (arith, ap length e, length-drop (rest_start s - 1) p.rls_text)

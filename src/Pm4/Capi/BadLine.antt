-- ===== src/Pm4/Capi/BadLine.antt =====
-- Runlist files with a line that src/pm4/rls_parser.cc refuses behind the sections.
use rocsift_glog_fork.Common.{
  List, [], arith, inl, inr, length, length-map, map, refl, some, suc, true, ℕ, ◌++◌, ◌+◌, ◌<◌, ◌^◌,
  ◌∷◌, ◌≡◌,
}
use rocsift_glog_fork.Common.Run.{code_bug, done, error, fault, status_error, throw}
use rocsift_glog_fork.Pm4.Capi.Build.{Breaks}
use rocsift_glog_fork.Pm4.Capi.Calls.{AtText, new_all-Calls}
use rocsift_glog_fork.Pm4.Capi.Handler.{parse_runlists-Breaks, parse_runlists-Breaks_many}
use rocsift_glog_fork.Pm4.Capi.Layout.{node_addr}
use rocsift_glog_fork.Pm4.Capi.RoundTrip.{IsFresh}
use rocsift_glog_fork.Pm4.Capi.Series.{parse_runlists}
use rocsift_glog_fork.Pm4.Capi.Text.{
  GoodSection, GoodSections, SectionText, length-text_then, runlist_of, text_then,
}
use rocsift_glog_fork.Pm4.Heap.{Heap}
use rocsift_glog_fork.Pm4.Line.{get_data_start_position, parse_node_line}
use rocsift_glog_fork.Pm4.Parser.{
  RlsParser, error_state, new_all, node_state, node_step, parse, parse_loop, parse_node,
}
use rocsift_glog_fork.Pm4.Parser.Steps.{at_line, loop-skip}
use rocsift_glog_fork.Pm4.Parser.Text.{
  LineAt, NoNewline, after_line, drop-after_line, find_newline-line, find_newline-same, line_read,
}
use rocsift_glog_fork.Pm4.Types.{fails, mismatches}

-- A node line with a number that is too large.
pub record BadLine (line : List ℕ) : Type 0 where
  pub line_ends : NoNewline line
  pub refused : parse_node_line line ≡ done fails
  pub no_data : get_data_start_position line ≡ done mismatches

parse_node-refused :
    (p : RlsParser) (line : List ℕ)
    → parse_node_line line ≡ done fails
    → parse_node line p ≡ done (record { state = error_state; increment = 0 }, p)
unfolding parse_node
parse_node-refused p line e = rw e

loop-refused :
    (p : RlsParser) (start last fuel : ℕ) (line post : List ℕ)
    → LineAt p.rls_text start line post
    → parse_node_line line ≡ done fails
    → parse_loop (suc (suc fuel)) (at_line p node_state start) start last
      ≡ throw (status_error code_bug)
unfolding parse_loop node_step
loop-refused p start last fuel line post at e =
    rw
      (
        parse_loop,
        find_newline-line p.rls_text start line post at,
        node_step,
        line_read p.rls_text start line post at,
        parse_node-refused (at_line p node_state start) line e,
      )
      (rw (parse_loop, find_newline-same p.rls_text start line post at))

parse-BadLine :
    (p : RlsParser) (line post : List ℕ)
    → AtText p ([] ∷ []) (line ++ (b'\n' ∷ post))
    → BadLine line
    → parse (λ _. true) p ≡ throw (status_error code_bug)
unfolding parse
parse-BadLine p line post at bad =
    let rest = line ++ (b'\n' ∷ post) in
    let more : length p.rls_text + 3 ≡ suc (suc (suc (length p.rls_text))) = omega arith in
    rw (
      parse,
      at.at,
      more,
      loop-skip p at.pos at.pos (suc (suc (length p.rls_text))) [] rest (at.stands, tt)
          (inl at.passed.0.1),
      loop-refused p (after_line at.pos []) at.pos (length p.rls_text) line post
          (drop-after_line p.rls_text at.pos [] rest at.stands, bad.line_ends) bad.refused,
    )

abbrev bad_rest : List ℕ → List ℕ → List ℕ
bad_rest line post = line ++ (b'\n' ∷ post)

new_all-Breaks :
    (t : SectionText) (ts : List SectionText) (line post : List ℕ)
    → GoodSections (t ∷ ts)
    → BadLine line
    → length (text_then (t ∷ ts) (bad_rest line post)) < 2 ^ 64
    → Breaks (new_all (text_then (t ∷ ts) (bad_rest line post))) (map runlist_of (t ∷ ts))
new_all-Breaks t ts line post good bad small =
    let (e, calls, at) =
      new_all-Calls t ts (bad_rest line post) (inr (line, post, refl, bad.line_ends, bad.no_data))
        good small in
    (e, calls, status_error code_bug, parse-BadLine e line post at bad)

-- On the text of one section, of fewer than 2^31 dwords, with a node line behind it whose number is
-- too large,
-- `sift_pm4_parse_runlists` returns ERROR where `malloc` gives memory; the memory holds what it held
-- before, and `*runlists` points to where the freed node was.
pub parse_runlists-BadLine :
    (t : SectionText) (line post : List ℕ) (h : Heap)
    → GoodSection t
    → BadLine line
    → length (text_then (t ∷ []) (bad_rest line post)) < 2 ^ 64
    → IsFresh h
    → (f : Heap) × (parse_runlists (λ _. true) (text_then (t ∷ []) (bad_rest line post)) h
        ≡ done (error, some (node_addr h.next_addr (runlist_of t)), f))
      × ((q : ℕ) → f.cell q ≡ h.cell q)
parse_runlists-BadLine t line post h good bad small fresh =
    parse_runlists-Breaks (text_then (t ∷ []) (bad_rest line post)) (runlist_of t) h
      (length-text_then (t ∷ []) (bad_rest line post))
      (new_all-Breaks t [] line post (good, tt) bad small) fresh

-- On the text of two or more sections, each of fewer than 2^31 dwords, with a node line behind them
-- whose number is too large, the handler of `sift_pm4_parse_runlists` reads the last node after it has freed it, where `malloc` gave
-- memory.
pub parse_runlists-BadLine_many :
    (t u : SectionText) (ts : List SectionText) (line post : List ℕ) (h : Heap)
    → GoodSections (t ∷ u ∷ ts)
    → BadLine line
    → length (text_then (t ∷ u ∷ ts) (bad_rest line post)) < 2 ^ 64
    → parse_runlists (λ _. true) (text_then (t ∷ u ∷ ts) (bad_rest line post)) h ≡ fault
parse_runlists-BadLine_many t u ts line post h good bad small =
    parse_runlists-Breaks_many (text_then (t ∷ u ∷ ts) (bad_rest line post)) (runlist_of t)
      (runlist_of u) (map runlist_of ts) h
      (omega (arith, length-text_then (t ∷ u ∷ ts) (bad_rest line post), length-map ts runlist_of))
      (new_all-Breaks t (u ∷ ts) line post good bad small)

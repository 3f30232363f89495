-- ===== src/Pm4/Parser/Steps.antt =====
-- One round of the loop of `Parse` on a line, for each state and outcome.
use rocsift_glog_fork.Common.{
  List, [], arith, drop, false, inl, inr, suc, true, ℕ, ◌&&◌, ◌++◌, ◌==◌, ◌||◌, ◌∷◌, ◌≡◌, ◌⊎◌,
}
use rocsift_glog_fork.Common.Run.{done}
use rocsift_glog_fork.Pm4.Line.{get_data_start_position, parse_data_section, parse_node_line}
use rocsift_glog_fork.Pm4.Parser.{
  RlsParser, State, data_state, end_state, find_newline, node_state, node_step, parse_data,
  parse_loop, parse_node,
}
use rocsift_glog_fork.Pm4.Parser.Text.{LineAt, after_line, find_newline-line, line_read}
use rocsift_glog_fork.Pm4.Types.{Node, mismatches, returns}
use rocsift_glog_fork.Common.{none, some}
use rocsift_glog_fork.Common.Words.{sub64}
use rocsift_glog_fork.Pm4.Parser.{data_step}
use rocsift_glog_fork.Pm4.Parser.Text.{find_newline-same}

-- The parser in a state at a position, as it stands at the head of the loop.
abbrev pub at_line : RlsParser → State → ℕ → RlsParser
at_line p s start = record p { state = s; end_pos = find_newline p.rls_text start }

-- A line that the parser passes over in the NODE state: no node line, or the line of another node
-- than the one that it looks for.
abbrev pub IsSkipped : RlsParser → List ℕ → Type 0
IsSkipped p line =
    (parse_node_line line ≡ done mismatches)
    ⊎ ((nd : Node) × (parse_node_line line ≡ done (returns nd))
        × (p.find_all_nodes ≡ false)
        × ((nd.node_id == p.node && nd.gpu_id == p.gpu) ≡ false))

-- The line of a node that the parser takes.
abbrev pub IsWanted : RlsParser → Node → Type 0
IsWanted p nd = (p.find_all_nodes ≡ true) ⊎ ((nd.node_id ≡ p.node) × (nd.gpu_id ≡ p.gpu))

-- A data line with its dwords.
abbrev pub IsDataLine : List ℕ → List ℕ → Type 0
IsDataLine line ws =
    (k : ℕ) × (get_data_start_position line ≡ done (returns k))
    × (parse_data_section (drop k line) ≡ done (returns ws))

parse_node-skip :
    (p : RlsParser) (line : List ℕ)
    → IsSkipped p line
    → parse_node line p ≡ done (record { state = node_state; increment = 1 }, p)
unfolding parse_node
parse_node-skip p line (inl e) = rw e
parse_node-skip p line (inr (nd, e, h, k)) = rw (e, h, k)

abbrev pub with_node : RlsParser → Node → RlsParser
with_node p nd = record p { node = nd.node_id; gpu = nd.gpu_id }

wanted_test :
    (p : RlsParser) (nd : Node)
    → IsWanted p nd
    → (p.find_all_nodes || (nd.node_id == p.node && nd.gpu_id == p.gpu)) ≡ true
wanted_test p nd w = ground arith

parse_node-take :
    (p : RlsParser) (line : List ℕ) (nd : Node)
    → parse_node_line line ≡ done (returns nd)
    → IsWanted p nd
    → parse_node line p ≡ done (record { state = data_state; increment = 1 }, with_node p nd)
unfolding parse_node
parse_node-take p line nd e w = rw (e, wanted_test p nd w)

abbrev pub with_dwords : RlsParser → List ℕ → RlsParser
with_dwords p ws = record p { dwords_buffer = p.dwords_buffer ++ (ws ∷ []) }

parse_data-take :
    (p : RlsParser) (line ws : List ℕ)
    → IsDataLine line ws
    → parse_data line p ≡ done (record { state = data_state; increment = 1 }, with_dwords p ws)
unfolding parse_data
parse_data-take p line ws (k, e, d) = rw (e, d)

parse_data-leave :
    (p : RlsParser) (line : List ℕ)
    → get_data_start_position line ≡ done mismatches
    → parse_data line p ≡ done (record { state = end_state; increment = 0 }, p)
unfolding parse_data
parse_data-leave p line e = rw e

module _ (p : RlsParser) (start last fuel : ℕ) (line post : List ℕ)
    (at : LineAt p.rls_text start line post) where
  pub loop-skip :
      IsSkipped p line
      → parse_loop (suc fuel) (at_line p node_state start) start last
        ≡ parse_loop fuel
            (at_line p node_state (after_line start line))
            (after_line start line)
            last
  unfolding parse_loop node_step
  loop-skip h = rw (
    parse_loop,
    find_newline-line p.rls_text start line post at,
    node_step,
    line_read p.rls_text start line post at,
    parse_node-skip (at_line p node_state start) line h,
  )

  pub loop-take :
      (nd : Node)
      → parse_node_line line ≡ done (returns nd)
      → IsWanted p nd
      → parse_loop (suc fuel) (at_line p node_state start) start last
        ≡ parse_loop fuel
            (at_line (with_node p nd) data_state (after_line start line))
            (after_line start line)
            last
  unfolding parse_loop node_step
  loop-take nd e w = rw (
    parse_loop,
    find_newline-line p.rls_text start line post at,
    node_step,
    line_read p.rls_text start line post at,
    parse_node-take (at_line p node_state start) line nd e w,
  )

  pub loop-data :
      (ws : List ℕ)
      → IsDataLine line ws
      → parse_loop (suc fuel) (at_line p data_state start) start last
        ≡ parse_loop fuel
            (at_line (with_dwords p ws) data_state (after_line start line))
            (after_line start line)
            last
  unfolding parse_loop data_step
  loop-data ws d = rw (
    parse_loop,
    find_newline-line p.rls_text start line post at,
    data_step,
    line_read p.rls_text start line post at,
    parse_data-take (at_line p data_state start) line ws d,
  )

  -- The first line behind the data: the loop ends a round later, at the newline in front of it.
  pub loop-leave :
      get_data_start_position line ≡ done mismatches
      → parse_loop (suc (suc fuel)) (at_line p data_state start) start last
        ≡ done (record p { state = end_state; end_pos = some (sub64 start 1) })
  unfolding parse_loop data_step
  loop-leave e =
      rw
        (
          parse_loop,
          find_newline-line p.rls_text start line post at,
          data_step,
          line_read p.rls_text start line post at,
          parse_data-leave (at_line p data_state start) line e,
        )
        (rw (parse_loop, find_newline-same p.rls_text start line post at))

-- Behind the last newline `find` finds nothing, and the loop ends.
pub loop-end_of_text :
    (p : RlsParser) (s : State) (start last fuel : ℕ)
    → drop start p.rls_text ≡ []
    → parse_loop (suc fuel) (at_line p s start) start last
      ≡ done (record p { state = s; end_pos = none })
unfolding parse_loop
loop-end_of_text p s start last fuel e =
    let gone : find_newline p.rls_text start ≡ none = rw (find_newline, e) in
    rw (parse_loop, gone) (rw gone)

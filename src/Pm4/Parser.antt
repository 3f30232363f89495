-- ===== src/Pm4/Parser.antt =====
-- The class `RlsParser` of src/pm4/rls_parser.cc and rls_parser.h: a state machine over the lines
-- of the runlist file. Positions count characters of the text; `none` stands for `npos`.
pub mod Text
pub mod Steps
pub mod Section
pub mod Parse
pub mod Lines
pub mod Ends
mod Tests
use rocsift_glog_fork.Common.Run.{fault}
use rocsift_glog_fork.Common.{◌^◌}
use rocsift_glog_fork.Common.{ltb}
use rocsift_glog_fork.Common.{
  Bool, List, Option, [], drop, false, if◌then◌else◌, length, none, some, suc, take, true, zero, ℕ,
  ◌&&◌, ◌++◌, ◌+◌, ◌-◌, ◌==◌, ◌||◌, ◌∷◌,
}
use rocsift_glog_fork.Common.Run.{Run, code_bug, done, spin, status_error, throw, ◌>>=◌}
use rocsift_glog_fork.Common.Words.{sub64}
use rocsift_glog_fork.Pm4.Entry.{parse_runlist_entries}
use rocsift_glog_fork.Pm4.Line.{get_data_start_position, parse_data_section, parse_node_line}
use rocsift_glog_fork.Pm4.Types.{Entry, is_success, success, error, no_match, value_or_throw}

-- `RlsParser::State`
pub data State : Type 0 where
  node_state data_state error_state end_state : State

-- `RlsParser::NextState`
pub record NextState : Type 0 where
  pub state : State
  pub increment : ℕ

-- The members of the class. `node` and `gpu`, of type `int`, are held as their 32-bit patterns.
pub record RlsParser : Type 0 where
  pub rls_text : List ℕ
  pub node : ℕ
  pub gpu : ℕ
  pub find_all_nodes : Bool
  pub state : State
  pub dwords_buffer : List (List ℕ)
  pub end_pos : Option ℕ

-- The two constructors.
unfoldable pub new_for : List ℕ → ℕ → ℕ → RlsParser
new_for text node gpu = record {
  rls_text = text;
  node = node;
  gpu = gpu;
  find_all_nodes = false;
  state = node_state;
  dwords_buffer = [];
  end_pos = some 0;
}

unfoldable pub new_all : List ℕ → RlsParser
unfolding new_for
new_all text = record (new_for text 0 0) { find_all_nodes = true }

-- `ParseNode`
unfoldable pub parse_node : List ℕ → RlsParser → Run (NextState × RlsParser)
parse_node line p = do
  result ← parse_node_line line
  elim result.status [
    | error ↦ done (record { state = error_state; increment = 0 }, p)
    | no_match ↦ done (record { state = node_state; increment = 1 }, p)
    | success ↦ (do
      found ← value_or_throw result.value
      if p.find_all_nodes || (found.node_id == p.node && found.gpu_id == p.gpu)
          then done (
            record { state = data_state; increment = 1 },
            record p { node = found.node_id; gpu = found.gpu_id },
          )
          else done (record { state = node_state; increment = 1 }, p))
  ]

-- `ParseData`
unfoldable pub parse_data : List ℕ → RlsParser → Run (NextState × RlsParser)
parse_data line p = do
  result ← get_data_start_position line
  elim result.status [
    | error ↦ done (record { state = error_state; increment = 0 }, p)
    | no_match ↦ done (record { state = end_state; increment = 0 }, p)
    | success ↦ (do
      start ← value_or_throw result.value
      section ← parse_data_section (drop start line)
      if is_success section.status
          then (do
            dwords ← value_or_throw section.value
            done (
              record { state = data_state; increment = 1 },
              record p { dwords_buffer = p.dwords_buffer ++ (dwords ∷ []) },
            ))
          else done (record { state = error_state; increment = 0 }, p))
  ]

abbrev pub concat : List (List ℕ) → List ℕ
concat [] = []
concat (ws ∷ wss) = ws ++ concat wss

-- `BuildEntries`: the optional entries, and the parser with its buffer cleared. The index `i` is an
-- `int`, which 2^31 dwords overflow.
unfoldable pub build_entries : (ℕ → Bool) → RlsParser → Run (Option (List Entry) × RlsParser)
build_entries malloc_ok p = elim p.dwords_buffer [
  | [] ↦ done (none, p)
  | first ∷ others ↦
      let dwords = concat (first ∷ others) in
      let cleared = record p { dwords_buffer = [] } in
      if ltb (length dwords) (2 ^ 31)
      then (do
        result ← parse_runlist_entries malloc_ok (record { arr = dwords; size = length dwords })
        if is_success result.status then done (result.value, cleared) else done (none, cleared))
      else fault
]

-- `std::string_view::find` of a newline, from a position on.
abbrev pub index_of_newline : List ℕ → Option ℕ
index_of_newline [] = none
index_of_newline (c ∷ cs) =
    let later = index_of_newline cs in
    if c == b'\n' then some 0 else (elim later [ none ↦ none | some i ↦ some (suc i) ])

abbrev pub find_newline : List ℕ → ℕ → Option ℕ
find_newline text start = elim (index_of_newline (drop start text)) [
  | none ↦ none
  | some i ↦ some (start + i)
]

-- `next.state != State::DATA`, in the DATA state.
abbrev pub leaves_data : State → Bool
leaves_data data_state = false
leaves_data node_state = true
leaves_data error_state = true
leaves_data end_state = true

-- A step of the loop of `Parse` in the NODE and DATA states: the parser with its new state and end,
-- and the new `start` and `last_data_match`.
unfoldable pub node_step : RlsParser → ℕ → ℕ → ℕ → Run (RlsParser × ℕ × ℕ)
node_step p start e last = do
  (next, q) ← parse_node (take (e - start) (drop start p.rls_text)) p
  let start' = e + next.increment
  done (record q { state = next.state; end_pos = find_newline p.rls_text start' }, start', last)

unfoldable pub data_step : RlsParser → ℕ → ℕ → ℕ → Run (RlsParser × ℕ × ℕ)
data_step p start e last = do
  (next, q) ← parse_data (take (e - start) (drop start p.rls_text)) p
  let start' = e + next.increment
  done (
    record q { state = next.state; end_pos = find_newline p.rls_text start' },
    start',
    (if leaves_data next.state then sub64 start 1 else last),
  )

-- The loop of `Parse`.
unfoldable pub parse_loop : ℕ → RlsParser → ℕ → ℕ → Run RlsParser
parse_loop zero p start last = spin
parse_loop (suc fuel) p start last =
    let more = λ (s : RlsParser × ℕ × ℕ). parse_loop fuel s.0 s.1 s.2 in
    elim p.end_pos [
      | none ↦ done p
      | some e ↦ elim p.state [
        | node_state ↦ node_step p start e last >>= more
        | data_state ↦ data_step p start e last >>= more
        | end_state ↦ done (record p { end_pos = some last })
        | error_state ↦ throw (status_error code_bug)
      ]
    ]

-- `start` is `end_`, from where `find` looks; at `npos` it finds nothing, and the loop ends at once.
-- The loop has three rounds more than the text has characters.
unfoldable pub parse : (ℕ → Bool) → RlsParser → Run (Option (List Entry) × RlsParser)
parse malloc_ok p = elim p.end_pos [
  | none ↦ build_entries malloc_ok (record p { state = node_state })
  | some start ↦ (do
    q ←
        parse_loop (length p.rls_text + 3)
          (record p { state = node_state; end_pos = find_newline p.rls_text start }) start start
    build_entries malloc_ok q)
]

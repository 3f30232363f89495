-- ===== src/Pm4/Entry.antt =====
-- `parseRunlistEntry` and `parseRunlistEntries` of src/pm4/pm4.cc.
use rocsift_glog_fork.Common.{
  ℕ, zero, suc, ◌+◌, ◌-◌, Bool, not, Option, none, some, List, [], ◌∷◌, ltb, ◌==◌, if◌then◌else◌,
}
use rocsift_glog_fork.Common.Words.{u8, u16, u64, sub64}
use rocsift_glog_fork.Common.Run.{Run, done, spin, ◌>>=◌, try_catch}
use rocsift_glog_fork.Pm4.Types.{
  ResultStatus, returns, fails, PacketType, type1, type2, type3, Body, map_process, map_queues,
  Header, Entry, Span, is_success, value_or_throw, is_empty, subspan, index,
}
use rocsift_glog_fork.Pm4.Packet.{slice, parse_body_map_process, parse_body_map_queues}

-- `eSIFT_PM4_OP_MAP_PROCESS` and `eSIFT_PM4_OP_MAP_QUEUES`
abbrev pub op_map_process : ℕ
op_map_process = 0xa1

abbrev pub op_map_queues : ℕ
op_map_queues = 0xa2

-- The cast of 0, 1 or 2 to `sift_pm4_packet_type_t`.
abbrev pub packet_type_of : ℕ → PacketType
packet_type_of n = if n == 0 then type1 else if n == 1 then type2 else type3

-- The switch on the opcode; `none` for an opcode that is not supported.
unfoldable pub parse_body : ℕ → Span → Run (Option Body)
parse_body opcode body_data =
    if opcode == op_map_process
    then (do b ← parse_body_map_process body_data; done (some (map_process b)))
    else if opcode == op_map_queues
    then (do b ← parse_body_map_queues body_data; done (some (map_queues b)))
    else done none

-- From the allocation of the body on. `malloc_ok` says whether `malloc` gives memory.
unfoldable pub parse_with_header : Bool → Header → Span → Run (ResultStatus Entry)
unfolding subspan parse_body
parse_with_header malloc_ok header span = if not malloc_ok then done fails else (do
  body ← parse_body header.opcode (subspan span 1 (span.size - 1))
  elim body [ none ↦ done fails | some b ↦ done (returns (record { header = header; body = b })) ])

-- The checks of the header's type and of the room for the body.
unfoldable pub parse_checked : Bool → ℕ → Header → Span → Run (ResultStatus Entry)
unfolding parse_with_header
parse_checked malloc_ok kind header span =
    if ltb 2 kind
    then done fails
    else if ltb (span.size - 1) header.count
    then done fails
    else parse_with_header malloc_ok header span

-- The header's fields. The count is stored as N - 1; the types are numbered from 1.
abbrev pub kind_of : ℕ → ℕ
kind_of w = sub64 (slice w 31 30) 1

abbrev pub parse_header : ℕ → Header
parse_header w = record {
  opcode = u8 (slice w 15 8);
  count = u16 (u64 (slice w 29 16 + 1));
  packet_type = packet_type_of (kind_of w);
}

-- The reserved bits of the header are only logged.
unfoldable pub parse_runlist_entry : Bool → Span → Run (ResultStatus Entry)
unfolding is_empty index parse_checked
parse_runlist_entry malloc_ok span = if is_empty span then done fails else (do
  header ← index span 0
  parse_checked malloc_ok (kind_of header) (parse_header header) span)

-- The loop that measures the entries: their sizes in order, and their sum.
unfoldable pub measure_entries : ℕ → Span → ℕ → Run (List ℕ × ℕ)
unfolding index
measure_entries zero span total = spin
measure_entries (suc fuel) span total =
    let more = λ (size : ℕ). measure_entries fuel span (total + size) in
    if ltb total span.size
    then (do
      header ← index span total
      let size = slice header 29 16 + 1 + 1
      rest ← more size
      done (size ∷ rest.0, rest.1))
    else done ([], total)

-- One round of the loop that parses the entries, before those that follow are appended. A status
-- that is no success ends the loop; the packet type is only logged.
abbrev pub append_to :
    ResultStatus Entry → Run (ResultStatus (List Entry)) → Run (ResultStatus (List Entry))
append_to result later =
    if is_success result.status
    then (do
      entry ← value_or_throw result.value
      rest ← later
      if is_success rest.status
          then (do entries ← value_or_throw rest.value; done (returns (entry ∷ entries)))
          else done fails)
    else done fails

-- The loop that parses an entry for each size; `i` counts the calls of `malloc`.
unfoldable pub parse_entries_from :
    (ℕ → Bool) → Span → List ℕ → ℕ → ℕ → Run (ResultStatus (List Entry))
unfolding subspan
parse_entries_from malloc_ok span [] i start = done (returns [])
parse_entries_from malloc_ok span (size ∷ sizes) i start =
    let later = parse_entries_from malloc_ok span sizes (i + 1) (start + size) in
    do result ← parse_runlist_entry (malloc_ok i) (subspan span start size); append_to result later

-- The first loop has one round more than the span has dwords.
unfoldable pub parse_runlist_entries : (ℕ → Bool) → Span → Run (ResultStatus (List Entry))
parse_runlist_entries malloc_ok span =
    if span.size == 0
    then done fails
    else try_catch
        (do
          measured ← measure_entries (suc span.size) span 0
          if ltb span.size measured.1
              then done fails
              else parse_entries_from malloc_ok span measured.0 0 0)
        (λ _. done fails)

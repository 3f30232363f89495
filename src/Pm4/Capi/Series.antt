-- ===== src/Pm4/Capi/Series.antt =====
-- `sift_pm4_parse_runlists` of src/pm4/pm4.cc: a list of runlists in memory, and what its handler
-- frees. `malloc_ok` says which calls of `malloc` give memory, by the address that is due.
use rocsift_glog_fork.Common.{
  Bool, List, Option, false, if◌then◌else◌, length, none, some, suc, zero, ℕ, ◌+◌, ◌==◌,
}
use rocsift_glog_fork.Common.Run.{Run, SiftStatus, done, error, fault, spin, success, throw, ◌>>=◌}
use rocsift_glog_fork.Pm4.Capi.{c_str, destroy_runlists, place_bodies}
use rocsift_glog_fork.Pm4.Heap.{
  EntryCell, Heap, Ptr, RunlistCell, allocate, as_series, entries_block, load, runlist_block,
  series_block, store,
}
use rocsift_glog_fork.Pm4.Parser.{RlsParser, new_all, parse}
use rocsift_glog_fork.Pm4.Types.{Entry, Node}

-- The variables of the function: `*runlists` is `head`.
pub record SeriesList : Type 0 where
  pub head : Ptr
  pub current : Ptr
  pub prev : Ptr
  pub heap : Heap

-- How a round ends: with the variables, or with an exception thrown.
pub data Round : Type 0 where
  goes_on : SeriesList → Round
  throws : SeriesList → Round

-- What uninitialised memory holds; the code reads none of it.
abbrev pub unset : Node
unset = record { node_id = 0; gpu_id = 0 }

-- `prev->next = current`, where there is a `prev`.
unfoldable pub link_prev : Ptr → ℕ → Heap → Run Heap
link_prev none a h = done h
link_prev (some q) a h = do
  s ← load (some q) h >>= as_series
  store q (series_block (record s { next = some a })) h

-- From `allocateEntries` on, for the runlist at `b` of the series node at `a`.
unfoldable pub fill_runlist : (ℕ → Bool) → List EntryCell → Node → ℕ → ℕ → SeriesList → Run Round
fill_runlist malloc_ok cells node a b s =
    let (es, h) = allocate malloc_ok (entries_block cells) s.heap in
    elim es [
      | none ↦ (do
        g ← store b (runlist_block (record { node = unset; entries = none; num_entries = 0 })) h
        done (throws (record s { heap = g })))
      | some c ↦ (do
        let full : RunlistCell = record {
          node = node;
          entries = some c;
          num_entries = length cells;
        }
        g ← store b (runlist_block full) h
        f ← link_prev s.prev a g
        done (goes_on (record s { prev = some a; heap = f })))
    ]

abbrev pub set_head : Ptr → ℕ → Ptr
set_head none a = some a
set_head (some b) a = some b

-- From the setting of `*runlists` on, for the new node at `a`.
unfoldable pub fill_node : (ℕ → Bool) → List EntryCell → Node → ℕ → SeriesList → Run Round
fill_node malloc_ok cells node a s =
    let fresh = runlist_block (record { node = unset; entries = none; num_entries = 0 }) in
    let (r, h) = allocate malloc_ok fresh s.heap in
    do
      g ← store a (series_block (record { runlist = r; next = none })) h
      let t : SeriesList = record {
        head = set_head s.head a;
        current = some a;
        prev = s.prev;
        heap = g;
      }
      elim r [ none ↦ done (throws t) | some b ↦ fill_runlist malloc_ok cells node a b t ]

-- The body of the loop, for the entries that `Parse` returned.
unfoldable pub append_node : (ℕ → Bool) → List EntryCell → Node → SeriesList → Run Round
append_node malloc_ok cells node s =
    let fresh = series_block (record { runlist = none; next = none }) in
    let (p, h) = allocate malloc_ok fresh s.heap in
    elim p [
      | none ↦ done (throws (record s { current = none; heap = h }))
      | some a ↦ fill_node malloc_ok cells node a (record s { heap = h })
    ]

-- `current != *runlists`, where `*runlists` is no null pointer.
abbrev is_at : ℕ → Ptr → Bool
is_at a none = false
is_at a (some b) = a == b

-- The handler: the status, `*runlists` and the memory.
unfoldable pub cleanup_head : Ptr → Ptr → Heap → Run (SiftStatus × Ptr × Heap)
cleanup_head none current h = done (error, none, h)
cleanup_head (some a) current h =
    if is_at a current
    then done (error, some a, h)
    else (do (rc, g) ← destroy_runlists (some a) h; done (error, some a, g))

unfoldable pub cleanup : SeriesList → Run (SiftStatus × Ptr × Heap)
cleanup s = elim s.current [
  | none ↦ cleanup_head s.head none s.heap
  | some c ↦ (do (rc, g) ← destroy_runlists (some c) s.heap; cleanup_head s.head (some c) g)
]

abbrev end_round :
    (RlsParser → SeriesList → Run (SiftStatus × Ptr × Heap))
    → RlsParser
    → Round
    → Run (SiftStatus × Ptr × Heap)
end_round more p (goes_on s) = more p s
end_round more p (throws s) = cleanup s

-- The variables when `Parse` has returned entries.
abbrev pub with_bodies : List Entry → SeriesList → List EntryCell × SeriesList
with_bodies es s = let (cells, h) = place_bodies es s.heap in (cells, record s { heap = h })

-- A round of the loop from what `Parse` did on.
abbrev pub after_parse :
    (ℕ → Bool)
    → (RlsParser → SeriesList → Run (SiftStatus × Ptr × Heap))
    → SeriesList
    → Run (Option (List Entry) × RlsParser)
    → Run (SiftStatus × Ptr × Heap)
after_parse malloc_ok more s (throw e) = cleanup s
after_parse malloc_ok more s fault = fault
after_parse malloc_ok more s spin = spin
after_parse malloc_ok more s (done (none, p)) = done (success, s.head, s.heap)
after_parse malloc_ok more s (done (some es, p)) =
    let (cells, t) = with_bodies es s in
    append_node malloc_ok cells (record { node_id = p.node; gpu_id = p.gpu }) t >>= end_round more p

-- The loop.
unfoldable pub series_loop : ℕ → (ℕ → Bool) → RlsParser → SeriesList → Run (SiftStatus × Ptr × Heap)
series_loop zero malloc_ok p s = spin
series_loop (suc fuel) malloc_ok p s =
    let more = λ (q : RlsParser) (t : SeriesList). series_loop fuel malloc_ok q t in
    after_parse malloc_ok more s (parse (λ i. malloc_ok (s.heap.next_addr + i)) p)

-- `sift_pm4_parse_runlists`. No text has more sections than characters.
unfoldable pub parse_runlists : (ℕ → Bool) → List ℕ → Heap → Run (SiftStatus × Ptr × Heap)
parse_runlists malloc_ok text h =
    series_loop (length text + 2) malloc_ok (new_all text)
      (record { head = none; current = none; prev = none; heap = h })

-- `sift_pm4_get_runlists`, for what is read from the file: nothing where it cannot be opened.
unfoldable pub get_runlists : (ℕ → Bool) → List ℕ → Heap → Run (SiftStatus × Ptr × Heap)
get_runlists malloc_ok contents h = parse_runlists malloc_ok (c_str contents) h

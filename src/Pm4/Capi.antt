-- ===== src/Pm4/Capi.antt =====
-- The C interface of src/pm4/pm4.cc: runlists in memory. The bodies of the entries, which the parser
-- allocates, are put into the memory when it returns them.
pub mod Layout
pub mod Destroy
pub mod Append
pub mod Round
pub mod Build
pub mod Text
pub mod Newlines
pub mod Calls
pub mod RoundTrip
pub mod Handler
pub mod BadLine
pub mod Found
pub mod Series
mod Tests
pub mod Single
use rocsift_glog_fork.Common.{
  Bool, List, [], false, if◌then◌else◌, leb, length, none, some, suc, take, true, zero, ℕ, ◌==◌,
  ◌∷◌,
}
use rocsift_glog_fork.Common.Run.{Run, SiftStatus, done, error, fault, spin, success, ◌>>=◌}
use rocsift_glog_fork.Pm4.Heap.{
  EntryCell, Heap, Ptr, as_entries, as_runlist, as_series, body_block, free, load, place,
}
use rocsift_glog_fork.Pm4.Types.{Entry}

-- The entries of a vector with their bodies in memory.
unfoldable pub place_bodies : List Entry → Heap → List EntryCell × Heap
place_bodies [] h = ([], h)
place_bodies (e ∷ es) h =
    let r = place_bodies es (place (body_block e.body) h) in
    (record { header = e.header; body = h.next_addr } ∷ r.0, r.1)

-- `destroyRunlistEntry` for each entry
unfoldable pub free_bodies : List EntryCell → Heap → Run Heap
free_bodies [] h = done h
free_bodies (e ∷ es) h = free (some e.body) h >>= free_bodies es

-- `destroyRunlistEntries`: its loop reads nothing for no entries, and nothing behind the array.
unfoldable pub destroy_runlist_entries : Ptr → ℕ → Heap → Run Heap
destroy_runlist_entries entries zero h = free entries h
destroy_runlist_entries entries (suc n) h = load entries h >>= as_entries >>= λ es.
    if leb (suc n) (length es) then free_bodies (take (suc n) es) h >>= free entries else fault

-- `sift_pm4_destroy_runlist`
unfoldable pub destroy_runlist : Ptr → Heap → Run (SiftStatus × Heap)
destroy_runlist none h = done (error, h)
destroy_runlist (some a) h = do
  r ← load (some a) h >>= as_runlist
  g ← destroy_runlist_entries r.entries r.num_entries h
  done (success, g)

abbrev is_ok : SiftStatus → Bool
is_ok success = true
is_ok _ = false

-- The loop of `sift_pm4_destroy_runlists`.
unfoldable pub destroy_loop : ℕ → Ptr → Heap → Run (SiftStatus × Heap)
destroy_loop zero current h = spin
destroy_loop (suc fuel) none h = done (success, h)
destroy_loop (suc fuel) (some a) h =
    let later = λ (next : Ptr) (g : Heap). destroy_loop fuel next g in
    do
      s ← load (some a) h >>= as_series
      (rc, g) ← destroy_runlist s.runlist h
      if is_ok rc then (free s.runlist g >>= free (some a) >>= later s.next) else done (rc, g)

-- `sift_pm4_destroy_runlists`. A list has no more nodes than there are addresses.
unfoldable pub destroy_runlists : Ptr → Heap → Run (SiftStatus × Heap)
destroy_runlists none h = done (error, h)
destroy_runlists (some a) h = destroy_loop (suc h.next_addr) (some a) h

-- `std::string::c_str`, as its readers take it: up to the first NUL.
unfoldable pub c_str : List ℕ → List ℕ
c_str [] = []
c_str (c ∷ cs) = let rest = c_str cs in if c == 0 then [] else c ∷ rest

-- ===== src/Pm4/Capi/Single.antt =====
-- `sift_pm4_parse_runlist` of src/pm4/pm4.cc: the runlist of one GPU, in the caller's memory.
use rocsift_glog_fork.Common.{
  Bool, List, Option, [], if◌then◌else◌, length, none, not, some, suc, ℕ, ◌+◌, ◌==◌, ◌∷◌,
}
use rocsift_glog_fork.Common.Run.{Run, SiftStatus, done, error, fault, spin, success, throw}
use rocsift_glog_fork.Pm4.Capi.{c_str, place_bodies}
use rocsift_glog_fork.Pm4.Heap.{EntryCell, Heap, RunlistCell, allocate, entries_block}
use rocsift_glog_fork.Pm4.Parser.{RlsParser, new_for, parse}
use rocsift_glog_fork.Pm4.Types.{Entry}

-- `runlist->entries` and `runlist->num_entries` for the entries that were found.
unfoldable pub take_entries :
    (ℕ → Bool) → List EntryCell → RunlistCell → Heap → SiftStatus × RunlistCell × Heap
take_entries malloc_ok [] r h = (success, record r { entries = none; num_entries = 0 }, h)
take_entries malloc_ok (c ∷ cs) r h =
    let (es, g) = allocate malloc_ok (entries_block (c ∷ cs)) h in
    elim es [
      | none ↦ (error, record r { entries = none }, g)
      | some a ↦ (success, record r { entries = some a; num_entries = suc (length cs) }, g)
    ]

-- From what `Parse` did on.
abbrev pub store_entries :
    (ℕ → Bool)
    → ℕ
    → ℕ
    → RunlistCell
    → Heap
    → Run (Option (List Entry) × RlsParser)
    → Run (SiftStatus × RunlistCell × Heap)
store_entries malloc_ok node gpu r h (throw e) = done (error, r, h)
store_entries malloc_ok node gpu r h fault = fault
store_entries malloc_ok node gpu r h spin = spin
store_entries malloc_ok node gpu r h (done (none, p)) = done (error, r, h)
store_entries malloc_ok node gpu r h (done (some es, p)) =
    let (cells, g) = place_bodies es h in
    let named = record r { node = record { node_id = node; gpu_id = gpu } } in
    if not (gpu == p.gpu)
    then done (error, named, g)
    else if not (node == p.node)
    then done (error, named, g)
    else done (take_entries malloc_ok cells named g)

-- `sift_pm4_parse_runlist`: the status, `*runlist` and the memory.
unfoldable pub parse_runlist :
    (ℕ → Bool) → ℕ → ℕ → List ℕ → RunlistCell → Heap → Run (SiftStatus × RunlistCell × Heap)
parse_runlist malloc_ok node gpu text r h =
    store_entries malloc_ok node gpu r h
      (parse (λ i. malloc_ok (h.next_addr + i)) (new_for text node gpu))

-- `sift_pm4_get_runlist`, for what is read from the file: nothing where it cannot be opened.
unfoldable pub get_runlist :
    (ℕ → Bool) → ℕ → ℕ → List ℕ → RunlistCell → Heap → Run (SiftStatus × RunlistCell × Heap)
get_runlist malloc_ok node gpu contents r h = parse_runlist malloc_ok node gpu (c_str contents) r h

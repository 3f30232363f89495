-- ===== src/Pm4/Heap.antt =====
-- The memory behind the C interface of src/pm4/pm4.cc: the blocks that it allocates and the pointers
-- between them. `none` is a null pointer.
use rocsift_glog_fork.Common.{Bool, List, Option, if◌then◌else◌, none, some, suc, ℕ, ◌==◌}
use rocsift_glog_fork.Common.Run.{Run, done, fault, or_fault}
use rocsift_glog_fork.Pm4.Types.{Body, Header, Node}

abbrev pub Ptr : Type 0
Ptr = Option ℕ

-- `sift_pm4_runlist_entry_t` with the address of its body.
pub record EntryCell : Type 0 where
  pub header : Header
  pub body : ℕ

-- `sift_pm4_runlist_t`
pub record RunlistCell : Type 0 where
  pub node : Node
  pub entries : Ptr
  pub num_entries : ℕ

-- `sift_pm4_runlist_series_t`
pub record SeriesCell : Type 0 where
  pub runlist : Ptr
  pub next : Ptr

pub data Block : Type 0 where
  body_block : Body → Block
  entries_block : List EntryCell → Block
  runlist_block : RunlistCell → Block
  series_block : SeriesCell → Block

-- The blocks by their addresses, and the address of the next one. No address is used twice.
pub record Heap : Type 0 where
  pub next_addr : ℕ
  pub cell : ℕ → Option Block

abbrev pub update : (ℕ → Option Block) → ℕ → Option Block → ℕ → Option Block
update f a b q = if q == a then b else f q

-- A new block.
abbrev pub place : Block → Heap → Heap
place b h = record { next_addr = suc h.next_addr; cell = update h.cell h.next_addr (some b) }

-- `malloc`, which gives memory as `malloc_ok` says for the address that is due, and what is written
-- to the memory at once.
unfoldable pub allocate : (ℕ → Bool) → Block → Heap → Ptr × Heap
allocate malloc_ok b h =
    if malloc_ok h.next_addr
    then (some h.next_addr, place b h)
    else (none, record { next_addr = suc h.next_addr; cell = h.cell })

-- `free`: of no block it is undefined, and of a null pointer it does nothing.
unfoldable pub free : Ptr → Heap → Run Heap
free none h = done h
free (some a) h = elim (h.cell a) [
  | none ↦ fault
  | some b ↦ done (record { next_addr = h.next_addr; cell = update h.cell a none })
]

-- A write to a block.
unfoldable pub store : ℕ → Block → Heap → Run Heap
store a b h = elim (h.cell a) [
  | none ↦ fault
  | some c ↦ done (record { next_addr = h.next_addr; cell = update h.cell a (some b) })
]

-- The block behind a pointer, as the type of the pointer says.
unfoldable pub load : Ptr → Heap → Run Block
load none h = fault
load (some a) h = or_fault (h.cell a)

abbrev pub as_series : Block → Run SeriesCell
as_series (series_block s) = done s
as_series _ = fault

abbrev pub as_runlist : Block → Run RunlistCell
as_runlist (runlist_block r) = done r
as_runlist _ = fault

abbrev pub as_entries : Block → Run (List EntryCell)
as_entries (entries_block es) = done es
as_entries _ = fault

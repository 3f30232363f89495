-- ===== src/Xlator/Process.antt =====
-- `sift_xlator_pt_base_from_pasid` of src/xlator/xlator.c.
use rocsift_glog_fork.Common.{
  ==_differ, ==_self, Bool, List, Option, [], false, if◌then◌else◌, none, some, true, ℕ, ◌&&◌, ◌++◌,
  ◌==◌, ◌∷◌, ◌≡◌, ◌≢◌, refl,
}
use rocsift_glog_fork.Pm4.Types.{
  Entry, MapProcess, Node, PacketType, map_process, map_queues, type1, type2, type3,
}
use rocsift_glog_fork.Pm4.Entry.{op_map_process}
use rocsift_glog_fork.Xlator.Setup.{two_words}
use rocsift_glog_fork.Xlator.Types.{Outcome, failed, returned}

-- `sift_pm4_runlist_t`: a node and its entries. A series is a list of them.
pub record Runlist : Type 0 where
  pub node : Node
  pub entries : List Entry

abbrev pub is_type3 : PacketType → Bool
is_type3 type1 = false
is_type3 type2 = false
is_type3 type3 = true

-- The MAP_PROCESS body of an entry of the process, if the entry passes the three tests. The opcode
-- says which member of the union is read.
unfoldable pub process_of : ℕ → Entry → Option MapProcess
process_of pasid e = elim e.body [
  | map_queues b ↦ none
  | map_process b ↦
      if is_type3 e.header.packet_type && e.header.opcode == op_map_process && b.pasid == pasid
      then some b
      else none
]

-- The loop over the entries; what an earlier round found is replaced.
unfoldable pub find_process : ℕ → List Entry → Option MapProcess → Option MapProcess
find_process pasid [] found = found
find_process pasid (e ∷ es) found =
    find_process pasid es (elim (process_of pasid e) [ none ↦ found | some b ↦ some b ])

-- The loop over the series: the runlist of the GPU, or else the last one.
unfoldable pub find_runlist : ℕ → List Runlist → Option Runlist → Option Runlist
find_runlist gpu_id [] last = last
find_runlist gpu_id (r ∷ rs) last =
    let later = find_runlist gpu_id rs (some r) in if r.node.gpu_id == gpu_id then some r else later

-- `gpu_id` and `runlists` are what the library's calls give, `none` where they fail.
unfoldable pub pt_base_from_pasid : Option ℕ → Option (List Runlist) → ℕ → Outcome ℕ
pt_base_from_pasid none runlists pasid = failed
pt_base_from_pasid (some gpu_id) none pasid = failed
pt_base_from_pasid (some gpu_id) (some runlists) pasid = elim (find_runlist gpu_id runlists none) [
  | none ↦ failed
  | some r ↦ elim (find_process pasid r.entries none) [
    | none ↦ failed
    | some b ↦
        returned
          (two_words b.vm_context_page_table_base_addr_hi32 b.vm_context_page_table_base_addr_lo32)
  ]
]

-- No entry is a MAP_PROCESS of the process.
abbrev pub NoneMatches : ℕ → List Entry → Type 0
NoneMatches pasid [] = Unit
NoneMatches pasid (e ∷ es) = (process_of pasid e ≡ none) × NoneMatches pasid es

abbrev pub OtherGpus : ℕ → List Runlist → Type 0
OtherGpus gpu_id [] = Unit
OtherGpus gpu_id (r ∷ rs) = (r.node.gpu_id ≢ gpu_id) × OtherGpus gpu_id rs

find_process-none :
    (pasid : ℕ) (after : List Entry) (found : Option MapProcess)
    → NoneMatches pasid after
    → find_process pasid after found ≡ found
unfolding find_process
find_process-none pasid [] found n = refl
find_process-none pasid (e ∷ es) found (h, n) = rw h (find_process-none pasid es found n)

find_process-last :
    (pasid : ℕ) (before : List Entry) (e : Entry) (after : List Entry) (found : Option MapProcess)
    (b : MapProcess)
    → process_of pasid e ≡ some b
    → NoneMatches pasid after
    → find_process pasid (before ++ (e ∷ after)) found ≡ some b
unfolding find_process
find_process-last pasid [] e after found b h n =
    rw (find_process, h) (find_process-none pasid after (some b) n)
find_process-last pasid (x ∷ before) e after found b h n =
    find_process-last pasid before e after _ b h n

find_runlist-first :
    (gpu_id : ℕ) (before : List Runlist) (r : Runlist) (after : List Runlist)
    (last : Option Runlist)
    → OtherGpus gpu_id before
    → r.node.gpu_id ≡ gpu_id
    → find_runlist gpu_id (before ++ (r ∷ after)) last ≡ some r
unfolding find_runlist
find_runlist-first gpu_id [] r after last o h = rw (h, ==_self gpu_id)
find_runlist-first gpu_id (x ∷ before) r after last (d, o) h =
    rw (==_differ d) (find_runlist-first gpu_id before r after (some x) o h)

find_runlist-others :
    (gpu_id : ℕ) (before : List Runlist) (r : Runlist) (last : Option Runlist)
    → OtherGpus gpu_id (before ++ (r ∷ []))
    → find_runlist gpu_id (before ++ (r ∷ [])) last ≡ some r
unfolding find_runlist
find_runlist-others gpu_id [] r last (d, o) = rw (==_differ d)
find_runlist-others gpu_id (x ∷ before) r last (d, o) =
    rw (==_differ d) (find_runlist-others gpu_id before r (some x) o)

-- The base of the process's page tables is taken from the last MAP_PROCESS entry with its PASID in
-- the first runlist of the GPU.
pub pt_base_from_pasid-last :
    (gpu_id pasid : ℕ) (before : List Runlist) (r : Runlist) (after : List Runlist)
    (es : List Entry) (e : Entry) (fs : List Entry) (b : MapProcess)
    → OtherGpus gpu_id before
    → r.node.gpu_id ≡ gpu_id
    → r.entries ≡ es ++ (e ∷ fs)
    → process_of pasid e ≡ some b
    → NoneMatches pasid fs
    → pt_base_from_pasid (some gpu_id) (some (before ++ (r ∷ after))) pasid
      ≡ returned
          (two_words b.vm_context_page_table_base_addr_hi32 b.vm_context_page_table_base_addr_lo32)
unfolding pt_base_from_pasid
pt_base_from_pasid-last gpu_id pasid before r after es e fs b o g s h n = rw (
  pt_base_from_pasid,
  find_runlist-first gpu_id before r after none o g,
  s,
  find_process-last pasid es e fs none b h n,
)

-- Where no runlist is of the GPU, the last runlist, of another GPU, is searched all the same.
pub pt_base_from_pasid-other_gpu :
    (gpu_id pasid : ℕ) (before : List Runlist) (r : Runlist) (es : List Entry) (e : Entry)
    (fs : List Entry) (b : MapProcess)
    → OtherGpus gpu_id (before ++ (r ∷ []))
    → r.entries ≡ es ++ (e ∷ fs)
    → process_of pasid e ≡ some b
    → NoneMatches pasid fs
    → pt_base_from_pasid (some gpu_id) (some (before ++ (r ∷ []))) pasid
      ≡ returned
          (two_words b.vm_context_page_table_base_addr_hi32 b.vm_context_page_table_base_addr_lo32)
unfolding pt_base_from_pasid
pt_base_from_pasid-other_gpu gpu_id pasid before r es e fs b o s h n = rw (
  pt_base_from_pasid,
  find_runlist-others gpu_id before r none o,
  s,
  find_process-last pasid es e fs none b h n,
)

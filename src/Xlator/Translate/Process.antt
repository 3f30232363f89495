-- ===== src/Xlator/Translate/Process.antt =====
-- The translator of a process: `sift_xlator_create_for_process` of src/xlator/xlator.c.
use rocsift_glog_fork.Common.{List, ◌∷◌, ◌++◌, ℕ, ◌<◌, ◌^◌, some, true, ◌≡◌, ◌≢◌}
use rocsift_glog_fork.Xlator.Types.{returned}
use rocsift_glog_fork.Xlator.Translate.{Calls, create_for_process, find_pid}
use rocsift_glog_fork.Xlator.Setup.{two_words}
use rocsift_glog_fork.Pm4.Types.{Entry, MapProcess}
use rocsift_glog_fork.Xlator.Process.{
  Runlist, OtherGpus, NoneMatches, process_of, pt_base_from_pasid-last,
}
use rocsift_glog_fork.Xlator.Vmid.{base_of, vmid_from_pt_base-first}
use rocsift_glog_fork.Xlator.Registers.{Xlator, device_supported}
use rocsift_glog_fork.Xlator.Context.{IsLaidOut, create-IsLaidOut}

-- What the library answers for a process with a PASID on a GPU.
pub record Answers (calls : Calls) (pid pasid gpu_id device_id xcc_id : ℕ) (runlists : List Runlist)
    : Type 0 where
  pub node : ℕ
  pub procs : List (ℕ × ℕ)
  pub procs_are : calls.procs ≡ some procs
  pub pid_is : find_pid pid procs ≡ some pasid
  pub node_is : calls.node ≡ some node
  pub gpu_is : calls.gpu_id node ≡ some gpu_id
  pub device_is : calls.device_id node ≡ some device_id
  pub runlists_are : calls.runlists ≡ some runlists
  pub xcc_is : calls.xcc ≡ some xcc_id

-- The page-table base of a MAP_PROCESS packet.
abbrev pub base_of_process : MapProcess → ℕ
base_of_process b =
    two_words b.vm_context_page_table_base_addr_hi32 b.vm_context_page_table_base_addr_lo32

-- For a process whose last MAP_PROCESS packet in the first runlist of the GPU names a page-table base,
-- the translator has the registers of the first VMID that holds this base, on a supported device
-- whose registers up to that VMID can be read, for an XCC ID below 2^13.
pub create_for_process-IsLaidOut :
    (calls : Calls) (pid pasid gpu_id device_id xcc_id v : ℕ) (before : List Runlist) (r : Runlist)
    (after : List Runlist) (es : List Entry) (e : Entry) (fs : List Entry) (b : MapProcess)
    → Answers calls pid pasid gpu_id device_id xcc_id (before ++ (r ∷ after))
    → OtherGpus gpu_id before
    → r.node.gpu_id ≡ gpu_id
    → r.entries ≡ es ++ (e ∷ fs)
    → process_of pasid e ≡ some b
    → NoneMatches pasid fs
    → device_supported device_id ≡ true
    → xcc_id < 2 ^ 13
    → v < 16
    → ((w : ℕ)
        → w < v
        → (n : ℕ) × (base_of calls.reg device_id xcc_id w ≡ returned n) × (n ≢ base_of_process b))
    → base_of calls.reg device_id xcc_id v ≡ returned (base_of_process b)
    → (x : Xlator) × (create_for_process calls pid ≡ returned x) × IsLaidOut device_id xcc_id v x
unfolding create_for_process
create_for_process-IsLaidOut calls pid pasid gpu_id device_id xcc_id v before r after es e fs b a o
      g s h n d k l m i =
    let (x, c, laid) = create-IsLaidOut device_id xcc_id v d k l in
    (
      x,
      rw
          (
            create_for_process,
            a.procs_are,
            a.pid_is,
            a.node_is,
            a.gpu_is,
            a.runlists_are,
            pt_base_from_pasid-last gpu_id pasid before r after es e fs b o g s h n,
            a.device_is,
            a.xcc_is,
            vmid_from_pt_base-first calls.reg device_id xcc_id (base_of_process b) v d k l m i,
          )
          c,
      laid,
    )

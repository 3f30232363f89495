-- ===== src/Xlator/Translate.antt =====
-- The functions of src/xlator/xlator.c that put the others together: `sift_xlator_translate_range`,
-- `sift_xlator_translate` and `sift_xlator_create_for_process`.
pub mod Process
pub mod Walked
use rocsift_glog_fork.Xlator.Types.{undefined}
use rocsift_glog_fork.Common.Run.{
  SiftStatus, success, error, code_bug, not_initialized, not_privileged, out_of_range,
}
use rocsift_glog_fork.Common.{
  List, [], ◌∷◌, ℕ, ◌+◌, ◌-◌, ◌==◌, bit_and, Bool, false, Option, none, some, if◌then◌else◌,
}
use rocsift_glog_fork.Common.Words.{u64, sub64}
use rocsift_glog_fork.Xlator.Types.{Outcome, returned, failed, exited, ◌>>=◌, Fragment, Pte}
use rocsift_glog_fork.Xlator.Range.{and_not, translate_pages}
use rocsift_glog_fork.Xlator.Walk.{walk_pt}
use rocsift_glog_fork.Xlator.Setup.{populate_walk_helper}
use rocsift_glog_fork.Xlator.Registers.{Xlator, create}
use rocsift_glog_fork.Xlator.Process.{Runlist, pt_base_from_pasid}
use rocsift_glog_fork.Xlator.Vmid.{vmid_from_pt_base}

-- `translation_t`
pub record Translation : Type 0 where
  pub pa : ℕ
  pub ok : ℕ
  pub pte : Pte
  pub size : ℕ

-- The memories and the registers are what the library's calls give.
module _ (memory : Bool → ℕ → Option ℕ) (reg : ℕ → Option ℕ) (malloc : ℕ → Bool) where
  unfoldable pub translate_range : Xlator → ℕ → ℕ → Bool → Option (Outcome (List Fragment))
  translate_range xlate va size combine = elim (populate_walk_helper reg xlate) [
    | returned (helper, cache) ↦
        translate_pages (λ addr c. walk_pt memory addr helper c) malloc combine va size cache
    | failed ↦ some failed
    | exited ↦ some exited
    | undefined ↦ some undefined
  ]

  -- What `sift_xlator_translate` takes from the first fragment.
  abbrev pub translation_of : ℕ → List Fragment → Outcome Translation
  translation_of va [] = failed
  translation_of va (f ∷ fs) = returned (record {
    pa = u64 (f.flags.base_address + sub64 va (and_not va (sub64 f.size 1)));
    ok = f.flags.valid;
    pte = f.flags;
    size = f.size;
  })

  unfoldable pub translate : Xlator → ℕ → Option (Outcome Translation)
  translate xlate va = elim (translate_range xlate va (0x1000 - bit_and va 0xfff) false) [
    | none ↦ none
    | some m ↦ some (m >>= translation_of va)
  ]

-- The loop over the list of processes: pairs of a PID and a PASID.
unfoldable pub find_pid : ℕ → List (ℕ × ℕ) → Option ℕ
find_pid pid [] = none
find_pid pid ((p, pasid) ∷ procs) =
    let later = find_pid pid procs in if p == pid then some pasid else later

-- What the calls of the library give: the list of processes, the node of the partition with its GPU
-- ID and its device ID, the runlists, the first XCC of the partition, and its registers.
pub record Calls : Type 0 where
  pub procs : Option (List (ℕ × ℕ))
  pub node : Option ℕ
  pub gpu_id : ℕ → Option ℕ
  pub device_id : ℕ → Option ℕ
  pub runlists : Option (List Runlist)
  pub xcc : Option ℕ
  pub reg : ℕ → Option ℕ

abbrev or_failed {ℓ} : {A : Type ℓ} → Option A → Outcome A
or_failed none = failed
or_failed (some a) = returned a

-- The test of a status.
abbrev passed : SiftStatus → Outcome {0} Unit
passed success = returned tt
passed error = failed
passed code_bug = failed
passed not_initialized = failed
passed not_privileged = failed
passed out_of_range = failed

-- `sift_kfd_proc_list_destroy`, which frees the list.
abbrev pub proc_list_destroy : List (ℕ × ℕ) → SiftStatus
proc_list_destroy procs = success

unfoldable pub create_for_process : Calls → ℕ → Outcome Xlator
create_for_process calls pid = or_failed calls.procs >>= λ procs.
    passed (proc_list_destroy procs) >>= λ _. or_failed (find_pid pid procs) >>= λ pasid.
    or_failed calls.node >>= λ node.
    pt_base_from_pasid (calls.gpu_id node) calls.runlists pasid >>= λ pt_base.
    vmid_from_pt_base calls.reg (calls.device_id node) calls.xcc pt_base >>= λ vmid.
    create (calls.device_id node) calls.xcc vmid

-- ===== src/Xlator/Translate/Walked.antt =====
-- `sift_xlator_translate_range` of src/xlator/xlator.c with the walks of `walk_pt`.
use rocsift_glog_fork.Common.{Bool, Option, ℕ, ◌<◌, ◌≡◌}
use rocsift_glog_fork.Common.Words.{sub64}
use rocsift_glog_fork.Xlator.Types.{WalkCache, WalkHelper, WalkResults, returned}
use rocsift_glog_fork.Xlator.Cache.{OnPath, plain_walk}
use rocsift_glog_fork.Xlator.Registers.{Xlator}

-- The cache that the walk helper starts with.
abbrev pub empty_cache : WalkCache
empty_cache = record { pde_addrs = λ _. 0; raw_pdes = λ _. 0 }

module _ (memory : Bool → ℕ → Option ℕ) (side : Bool) (helper : WalkHelper)
    (pages : ℕ → WalkResults) where
  -- The walk without a cache gives the page of each address below an end, from tables on one side.
  pub record IsMapped (end : ℕ) : Type 0 where
    pub walks : (x : ℕ) → x < end → plain_walk memory x helper ≡ returned (pages x)
    pub on_path :
        (x : ℕ)
        → x < end
        → OnPath memory side helper
            (sub64 x helper.pt_start_addr)
            helper.pt_depth
            helper.pt_base_addr

-- ===== src/Xlator/Types.antt =====
-- The structs of src/xlator/xlator.c and include/rocsift/xlator.h.
use rocsift_glog_fork.Common.{ℕ}

-- How a function ends: it returns 0 with its results, returns -1, ends the process, or does something
-- undefined.
pub data Outcome {ℓ} (A : Type ℓ) : Type ℓ where
  returned : A → Outcome A
  failed : Outcome A
  exited : Outcome A
  undefined : Outcome A

infixl 5 ◌>>=◌
abbrev pub ◌>>=◌ {ℓ κ} : {A : Type ℓ} {B : Type κ} → Outcome A → (A → Outcome B) → Outcome B
returned a >>= f = f a
failed >>= f = failed
exited >>= f = exited
undefined >>= f = undefined

-- `pde_t`
pub record Pde : Type 0 where
  pub valid : ℕ
  pub system : ℕ
  pub coherent : ℕ
  pub base_address : ℕ
  pub pte : ℕ
  pub block_fragment_size : ℕ

-- `pte_t`
pub record Pte : Type 0 where
  pub valid : ℕ
  pub system : ℕ
  pub coherent : ℕ
  pub tmz : ℕ
  pub execute : ℕ
  pub read : ℕ
  pub write : ℕ
  pub fragment : ℕ
  pub base_address : ℕ
  pub tiled : ℕ
  pub sw : ℕ
  pub pte : ℕ
  pub log : ℕ
  pub translate_further : ℕ
  pub mtype : ℕ

-- `walk_level_info_t`
pub record WalkLevelInfo : Type 0 where
  pub pde_size_shift : ℕ
  pub pde_size : ℕ
  pub num_pdes : ℕ
  pub va_range : ℕ

-- `walk_helper_t`, less what is only written: the arrays are functions of the level, and the two
-- that change in a walk stand in `WalkCache`.
pub record WalkHelper : Type 0 where
  pub pt_depth : ℕ
  pub pt_block_size : ℕ
  pub pt_start_addr : ℕ
  pub pt_base_addr : ℕ
  pub pt_end_addr : ℕ
  pub fb_offset : ℕ
  pub levelinfo : ℕ → WalkLevelInfo

-- `pde_addrs` and `raw_pdes` of `walk_helper_t`.
pub record WalkCache : Type 0 where
  pub pde_addrs : ℕ → ℕ
  pub raw_pdes : ℕ → ℕ

-- `walk_results_t`
pub record WalkResults : Type 0 where
  pub pte : Pte
  pub size : ℕ
  pub mask : ℕ

-- `fragment_t`
pub record Fragment : Type 0 where
  pub va : ℕ
  pub pa : ℕ
  pub size : ℕ
  pub flags : Pte

-- ===== src/Xlator/Tests.antt =====
-- The theorems of the translation on small page tables.
use rocsift_glog_fork.Common.{subst}
use rocsift_glog_fork.Common.{
  Bool, Option, arith, inl, refl, some, true, false, ℕ, ◌+◌, ◌≡◌, ◌^◌, ◌↔◌,
}
use rocsift_glog_fork.Common.Words.{mask}
use rocsift_glog_fork.Xlator.Types.{Fragment, Pte, WalkCache, WalkHelper, WalkLevelInfo, returned}
use rocsift_glog_fork.Chip.{is_mi300, is_mi300a, is_mi300x, is_mi3xx, is_vega20}
use rocsift_glog_fork.Common.{◌<◌}
use rocsift_glog_fork.Xlator.Cache.{Agrees, Kept, OnPath, plain_walk, walk_pt-Agrees}
use rocsift_glog_fork.Xlator.Context.{
  IsLaidOut, create-IsLaidOut, place, registers-distinct, start_lo,
}
use rocsift_glog_fork.Xlator.Fields.{get_bits, get_pde_fields}
use rocsift_glog_fork.Xlator.Overlap.{
  FitsFragment, IsIn, fragments_overlap, fragments_overlap-physical, fragments_overlap-virtual,
}
use rocsift_glog_fork.Xlator.Registers.{Xlator, create, device_supported}
use rocsift_glog_fork.Xlator.Walk.{walk_pt}

abbrev readable : Pte
readable = record {
  valid = 1;
  system = 0;
  coherent = 0;
  tmz = 0;
  execute = 0;
  read = 1;
  write = 0;
  fragment = 0;
  base_address = 0;
  tiled = 0;
  sw = 0;
  pte = 0;
  log = 0;
  translate_further = 0;
  mtype = 0;
}

abbrev fragment_at : ℕ → ℕ → ℕ → Fragment
fragment_at va pa size = record { va = va; pa = pa; size = size; flags = readable }

fragment_fits :
    (va pa size : ℕ)
    → va + size < 2 ^ 64
    → pa + size < 2 ^ 64
    → 0 < size
    → FitsFragment (fragment_at va pa size)
fragment_fits va pa size v p s = record { va_end = v; pa_end = p; some_byte = s }

physical_example :
    fragments_overlap (fragment_at 0x1000 0x8000 0x1000) (fragment_at 0x4000 0x7000 0x2000) ≡ true
physical_example =
    fragments_overlap-physical (fragment_at 0x1000 0x8000 0x1000) (fragment_at 0x4000 0x7000 0x2000)
      0x8000 (fragment_fits 0x1000 0x8000 0x1000 (omega arith) (omega arith) (omega arith))
      (fragment_fits 0x4000 0x7000 0x2000 (omega arith) (omega arith) (omega arith)) (omega arith)
      (omega arith) (omega arith, omega arith) (omega arith, omega arith)

virtual_example :
    (fragments_overlap (fragment_at 0x1000 0x8000 0x1000) (fragment_at 0 0x10000 0x4000) ≡ true)
    ↔ IsIn 0 0x1000 0x1000
virtual_example =
    fragments_overlap-virtual (fragment_at 0x1000 0x8000 0x1000) (fragment_at 0 0x10000 0x4000)
      (fragment_fits 0x1000 0x8000 0x1000 (omega arith) (omega arith) (omega arith))
      (fragment_fits 0 0x10000 0x4000 (omega arith) (omega arith) (omega arith)) (omega arith)
      (omega arith) (inl (omega arith))

create_example :
    (x : Xlator) × (create (some 0x74a1) (some 2) 8 ≡ returned x) × IsLaidOut 0x74a1 2 8 x
unfolding device_supported is_vega20 is_mi3xx is_mi300 is_mi300a is_mi300x
create_example = create-IsLaidOut 0x74a1 2 8 refl (omega arith) (omega arith)

made : (x : Xlator) × (create (some 0x74a1) (some 2) 8 ≡ returned x) × IsLaidOut 0x74a1 2 8 x
unfolding device_supported is_vega20 is_mi3xx is_mi300 is_mi300a is_mi300x
made = create-IsLaidOut 0x74a1 2 8 refl (omega arith) (omega arith)

distinct_example : (place start_lo ≡ place start_lo) × (◌≡◌ {A = ℕ} 8 8)
unfolding device_supported is_vega20 is_mi3xx is_mi300 is_mi300a is_mi300x
distinct_example =
    registers-distinct 0x74a1 2 8 8 made.0 made.0 start_lo start_lo refl (omega arith) (omega arith)
      (omega arith) made.1 made.1 refl

-- A table in VRAM at 0x1000 whose entries are valid PTEs.
abbrev memory : Bool → ℕ → Option ℕ
memory system addr = some 0x5001

abbrev level : WalkLevelInfo
level = record { pde_size_shift = 21; pde_size = 2 ^ 21; num_pdes = 512; va_range = 2 ^ 30 }

abbrev helper : WalkHelper
helper = record {
  pt_depth = 1;
  pt_block_size = 0;
  pt_start_addr = 0;
  pt_base_addr = 0x1001;
  pt_end_addr = 2 ^ 30;
  fb_offset = 0;
  levelinfo = λ _. level;
}

-- The cache that a translation starts with.
abbrev empty_cache : WalkCache
empty_cache = record { pde_addrs = λ _. 0; raw_pdes = λ _. 0 }

the_entry : {val : ℕ} → memory false 0x1000 ≡ some val → 0x5001 ≡ val
the_entry e = cc

on_path : OnPath memory false helper 0x200000 1 0x1001
unfolding get_pde_fields get_bits mask
on_path h = (
  refl,
  omega arith,
  λ val e. subst (OnPath memory false helper 0x200000 0) (the_entry e) λ k. (refl, omega arith),
)

walk_example :
    Agrees
      (Kept memory false)
      (walk_pt memory 0x200000 helper empty_cache)
      (plain_walk memory 0x200000 helper)
walk_example =
    walk_pt-Agrees memory false 0x200000 helper empty_cache on_path λ depth k. absurd (k refl)

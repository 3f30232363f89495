-- ===== src/Xlator/Setup.antt =====
-- `sift_xlator_populate_walk_helper` of src/xlator/xlator.c.
use native.Mathlib.Nat.{pow-suc}
use rocsift_glog_fork.Common.{
  sym, false, ◌<◌, ◌≤◌, ◌≡◌, suc, zero, arith, ap, ==_differ, ◌∙◌, Option, bit_or, if◌then◌else◌,
  none, some, ℕ, ◌*◌, ◌+◌, ◌/◌, ◌==◌, ◌^◌,
}
use rocsift_glog_fork.Common.Words.{sub64, u32, u64}
use rocsift_glog_fork.Xlator.Fields.{get_bits}
use rocsift_glog_fork.Xlator.Registers.{Xlator}
use rocsift_glog_fork.Xlator.Types.{
  Outcome, WalkCache, WalkHelper, WalkLevelInfo, exited, returned, ◌>>=◌,
}
use rocsift_glog_fork.Xlator.Walk.{log2num_bytes_4kib_page, log2num_intermediate_pdbs, log2num_mib2}

-- Two registers as a 64-bit value.
abbrev pub two_words : ℕ → ℕ → ℕ
two_words hi lo = bit_or (u64 (hi * 2 ^ 32)) lo

-- The information of a level.
unfoldable pub level_info : ℕ → ℕ → ℕ → ℕ → ℕ → WalkLevelInfo
level_info pt_depth pt_block_size pt_start_addr pt_end_addr i =
    let shift = u64 (pt_block_size + log2num_mib2 + u64 (sub64 i 1 * log2num_intermediate_pdbs)) in
    let range = u64 (sub64 pt_end_addr pt_start_addr + 2 ^ log2num_bytes_4kib_page) in
    record {
      pde_size_shift = shift;
      pde_size = 2 ^ shift;
      num_pdes = if i == pt_depth then range / 2 ^ shift else 2 ^ log2num_intermediate_pdbs;
      va_range = range;
    }

-- `reg` is `sift_partition_read_reg32` in the MMIO aperture; where it fails SIFT_CHECK ends the
-- process. The arrays of the cache are set to 0.
module _ (reg : ℕ → Option ℕ) where
  abbrev pub read_reg : ℕ → Outcome ℕ
  read_reg addr = elim (reg addr) [ none ↦ exited | some val ↦ returned val ]

  unfoldable pub populate_walk_helper : Xlator → Outcome (WalkHelper × WalkCache)
  populate_walk_helper xlate = do
    start_lo ← read_reg xlate.pt_start_addr_lo_addr
    start_hi ← read_reg xlate.pt_start_addr_hi_addr
    end_lo ← read_reg xlate.pt_end_addr_lo_addr
    end_hi ← read_reg xlate.pt_end_addr_hi_addr
    base_lo ← read_reg xlate.pt_base_addr_lo_addr
    base_hi ← read_reg xlate.pt_base_addr_hi_addr
    context_cntl ← read_reg xlate.context_cntl_addr
    offset ← read_reg xlate.mc_vm_fb_offset_addr
    let pt_start = u64 (two_words start_hi start_lo * 2 ^ 12)
    let pt_end = u64 (two_words end_hi end_lo * 2 ^ 12)
    let depth = get_bits context_cntl 2 1
    let block_size = get_bits context_cntl 6 3
    returned (
      record {
        pt_depth = depth;
        pt_block_size = block_size;
        pt_start_addr = pt_start;
        pt_base_addr = two_words base_hi base_lo;
        pt_end_addr = pt_end;
        fb_offset = u32 (offset * 2 ^ 24);
        levelinfo = level_info depth block_size pt_start pt_end;
      },
      record { pde_addrs = λ _. 0; raw_pdes = λ _. 0 },
    )

-- What a level's shift is: pages of 4 KiB in blocks, and 9 bits a level.
level_shift :
    (depth block start end i : ℕ)
    → block < 16
    → i ≤ 3
    → (level_info depth block start end i).pde_size_shift ≡ block + 12 + 9 * i
unfolding level_info
level_shift depth block start end zero b h = omega arith
level_shift depth block start end (suc i) b h = omega arith

add_nine :
    (block i : ℕ)
    → block + 12 + 9 * suc i
      ≡ suc (suc (suc (suc (suc (suc (suc (suc (suc (block + 12 + 9 * i)))))))))
add_nine block i = omega arith

pow_nine : (x : ℕ) → 2 ^ (suc (suc (suc (suc (suc (suc (suc (suc (suc x))))))))) ≡ 2 ^ x * 512
pow_nine x = omega (
  arith,
  pow-suc 2 x,
  pow-suc 2 (suc x),
  pow-suc 2 (suc (suc x)),
  pow-suc 2 (suc (suc (suc x))),
  pow-suc 2 (suc (suc (suc (suc x)))),
  pow-suc 2 (suc (suc (suc (suc (suc x))))),
  pow-suc 2 (suc (suc (suc (suc (suc (suc x)))))),
  pow-suc 2 (suc (suc (suc (suc (suc (suc (suc x))))))),
  pow-suc 2 (suc (suc (suc (suc (suc (suc (suc (suc x)))))))),
)

-- Below the top, the table of a level covers what an entry of the level above does.
pub level_info-nested :
    (depth block start end i : ℕ)
    → block < 16
    → i < depth
    → depth ≤ 3
    → (level_info depth block start end (suc i)).pde_size
      ≡ (level_info depth block start end i).pde_size
        * (level_info depth block start end i).num_pdes
unfolding level_info
level_info-nested depth block start end i b h d =
    let here = level_shift depth block start end i b (omega arith) in
    let above = level_shift depth block start end (suc i) b (omega arith) in
    let below : (i == depth) ≡ false = ==_differ λ e. absurd (omega arith) in
    rw (below) (
      ap (λ s. 2 ^ s) above
      ∙ ap (λ s. 2 ^ s) (add_nine block i)
      ∙ pow_nine (block + 12 + 9 * i)
      ∙ ap (λ s. 2 ^ s * 512) (sym here))

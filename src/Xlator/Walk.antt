-- ===== src/Xlator/Walk.antt =====
-- `walk_pt` of src/xlator/xlator.c.
use rocsift_glog_fork.Common.{
  Bool, Option, bit_and, false, if◌then◌else◌, none, not, some, suc, true, zero, ℕ, ◌&&◌, ◌*◌, ◌+◌,
  ◌-◌, ◌/◌, ◌==◌, ◌^◌,
}
use rocsift_glog_fork.Common.Words.{sub64, to_bool, u64}
use rocsift_glog_fork.Xlator.Fields.{get_pde_fields, get_pte_fields}
use rocsift_glog_fork.Xlator.Types.{
  Outcome, Pde, Pte, WalkCache, WalkHelper, WalkResults, exited, failed, returned, ◌>>=◌,
}

abbrev pub log2num_bytes_4kib_page : ℕ
log2num_bytes_4kib_page = 12

abbrev pub log2num_intermediate_pdbs : ℕ
log2num_intermediate_pdbs = 9

abbrev pub log2num_mib2 : ℕ
log2num_mib2 = 21

-- `helper->array[depth] = value`
abbrev pub store : (ℕ → ℕ) → ℕ → ℕ → ℕ → ℕ
store array depth value d = if d == depth then value else array d

-- What the loop over the levels leaves: the last entry read, the PDE in front of it, whether that
-- PDE is a PTE, and the level of that PDE.
pub record Descent : Type 0 where
  pub base : ℕ
  pub pde : Pde
  pub pde_is_pte : Bool
  pub level : ℕ

-- The address of the entry of a level that the PDE points to. `fb_offset` is taken off in VRAM.
abbrev pub pde_base : WalkHelper → Pde → ℕ
pde_base helper pde =
    if to_bool pde.system then pde.base_address else sub64 pde.base_address helper.fb_offset

abbrev pub pde_addr : WalkHelper → ℕ → ℕ → Pde → ℕ
pde_addr helper depth va pde =
    let info = helper.levelinfo depth in
    u64 (bit_and (va / 2 ^ info.pde_size_shift) (sub64 info.num_pdes 1) * 8 + pde_base helper pde)

-- `read_ent` reads 8 bytes of system memory or VRAM by a call of the library; where that fails it
-- ends the process.
module _ (memory : Bool → ℕ → Option ℕ) where
  abbrev pub read_ent : ℕ → Bool → Outcome ℕ
  read_ent addr system = elim (memory system addr) [ none ↦ exited | some val ↦ returned val ]

  -- The entry at an address, from the cache if that holds the address for the level.
  unfoldable pub cached_ent : ℕ → ℕ → Bool → WalkCache → Outcome (ℕ × WalkCache)
  cached_ent depth addr system cache =
      if addr == cache.pde_addrs depth then returned (cache.raw_pdes depth, cache) else (do
        base ← read_ent addr system
        returned (
          base,
          record {
            pde_addrs = store cache.pde_addrs depth addr;
            raw_pdes = store cache.raw_pdes depth base;
          },
        ))

  -- The loop over the levels, from `depth` down to 0.
  unfoldable pub descend : WalkHelper → ℕ → ℕ → ℕ → WalkCache → Outcome (Descent × WalkCache)
  descend helper va zero base cache =
      let pde = get_pde_fields base in
      if to_bool pde.pte
      then returned (record { base = base; pde = pde; pde_is_pte = true; level = 0 }, cache)
      else (do
        (base', cache') ← cached_ent 0 (pde_addr helper 0 va pde) (to_bool pde.system) cache
        returned (record { base = base'; pde = pde; pde_is_pte = false; level = 0 }, cache'))
  descend helper va (suc depth) base cache =
      let pde = get_pde_fields base in
      let more = descend helper va depth in
      if to_bool pde.pte
      then returned (record { base = base; pde = pde; pde_is_pte = true; level = suc depth }, cache)
      else (do
        (base', cache') ←
            cached_ent (suc depth) (pde_addr helper (suc depth) va pde) (to_bool pde.system) cache
        more base' cache')

  -- The size of the page.
  unfoldable pub page_size : WalkHelper → Descent → ℕ
  page_size helper d =
      if d.pde_is_pte
      then if d.level == 0
        then 2 ^ (helper.pt_block_size + log2num_mib2)
        else 2 ^ log2num_intermediate_pdbs * 8
      else 2 ^ (d.pde.block_fragment_size + log2num_bytes_4kib_page)

  abbrev pub results_of : Pte → ℕ → WalkResults
  results_of pte size = record { pte = pte; size = size; mask = sub64 size 1 }

  -- The address of the PTE that a PTE with the translate-further bit leads to.
  abbrev pub further_addr : ℕ → ℕ → ℕ
  further_addr va base = u64 (
      (get_pde_fields base).base_address
      + bit_and (va / 2 ^ log2num_bytes_4kib_page) (2 ^ log2num_intermediate_pdbs - 1) * 8)

  -- What follows the loop.
  unfoldable pub finish : WalkHelper → ℕ → Descent → Outcome WalkResults
  finish helper va d =
      let pte = get_pte_fields d.base in
      let size = page_size helper d in
      if to_bool pte.valid && not (to_bool d.pde.pte) && to_bool pte.translate_further
      then if not (size == 2 ^ 21) then failed else (do
        base ← read_ent (further_addr va d.base) (to_bool (get_pde_fields d.base).system)
        returned (results_of (get_pte_fields base) (size / 2 ^ log2num_intermediate_pdbs)))
      else returned (results_of pte size)

  unfoldable pub walk_pt : ℕ → WalkHelper → WalkCache → Outcome (WalkResults × WalkCache)
  walk_pt va helper cache = if helper.pt_depth == 0 then failed else (do
    let offset = sub64 va helper.pt_start_addr
    (d, cache') ← descend helper offset helper.pt_depth helper.pt_base_addr cache
    results ← finish helper offset d
    returned (results, cache'))

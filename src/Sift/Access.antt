-- ===== src/Sift/Access.antt =====
-- The accessors of src/sift for system memory and for SMN registers: what they do with the files
-- that they own. `S` is the state of the system behind the files, and of the buffers.
pub mod Window
use rocsift_glog_fork.Common.{
  ◌==◌, Bool, Option, false, if◌then◌else◌, none, some, suc, true, zero, ℕ, ◌%◌, ◌/◌, ◌^◌,
}
use rocsift_glog_fork.Common.Run.{
  Run, done, error, not_privileged, spin, status_error, throw, ◌>>=◌,
}

-- `lseek` to an address, which may fail, and then `read` or `write` of a buffer: the system calls of
-- a file. A transfer gives the number of bytes, and `none` for -1.
pub record File (S : Type 0) : Type 0 where
  pub lseek : ℕ → S → Bool × S
  pub transfer : S → Option ℕ × S

module _ {S : Type 0} where
  -- `Read` and `Write` of `DebugFSVRAMAccessor` and `DebugFSIOMEMAccessor`, and of
  -- `SRAMAccessor` where it uses /dev/mem.
  unfoldable pub file_access : File S → ℕ → S → Option ℕ × S
  file_access file address s =
      let sought = file.lseek address s in
      if sought.0 then file.transfer sought.1 else (none, sought.1)

  -- The `while` loop of `SRAMAccessor`, with `use_iomem`.
  unfoldable pub sram_loop : ℕ → File S → File S → Bool → ℕ → S → Run (Option ℕ × S)
  sram_loop zero iomem devmem use_iomem address s = spin
  sram_loop (suc fuel) iomem devmem false address s = done (file_access devmem address s)
  sram_loop (suc fuel) iomem devmem true address s =
      let r = file_access iomem address s in
      let again = sram_loop fuel iomem devmem false address r.1 in
      elim r.0 [ none ↦ again | some n ↦ done (some n, r.1) ]

  -- `SRAMAccessor::Read` and `SRAMAccessor::Write`; `iomem` is `none` for a null pointer.
  unfoldable pub sram_access : Option (File S) → File S → ℕ → S → Run (Option ℕ × S)
  sram_access none devmem address s = sram_loop 2 devmem devmem false address s
  sram_access (some iomem) devmem address s = sram_loop 2 iomem devmem true address s

-- The registers of the SMN window.
abbrev pub rsmu_index_offset : ℕ
rsmu_index_offset = 0x50

abbrev pub rsmu_data_offset : ℕ
rsmu_data_offset = 0x54

abbrev pub rsmu_index_hi_offset : ℕ
rsmu_index_hi_offset = 0x58

-- The MMIO accessor that the SMN accessor uses.
pub record Mmio (S : Type 0) : Type 0 where
  pub read_reg32 : ℕ → S → Run (ℕ × S)
  pub write_reg32 : ℕ → ℕ → S → Run S

module _ {S : Type 0} (mmio : Mmio S) where
  -- `DebugFSSMNAccessor`: the two writes of an address, and the access of the data.
  unfoldable pub smn_select : ℕ → S → Run S
  smn_select reg s = do
    t ← mmio.write_reg32 rsmu_index_hi_offset (reg / 2 ^ 32 % 2 ^ 8) s
    mmio.write_reg32 rsmu_index_offset (reg % 2 ^ 32) t

  unfoldable pub smn_read_reg32 : ℕ → S → Run (ℕ × S)
  smn_read_reg32 reg s = do t ← smn_select reg s; mmio.read_reg32 rsmu_data_offset t

  unfoldable pub smn_write_reg32 : ℕ → ℕ → S → Run S
  smn_write_reg32 reg value s = do t ← smn_select reg s; mmio.write_reg32 rsmu_data_offset value t

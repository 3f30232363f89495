-- ===== src/Sift/Capi/Access.antt =====
-- The accesses to memories and registers through the C interface, src/sift/capi.cc, and the members
-- of `Device` and `Partition` that they call. `S` is the state of the system, and `T` says what is
-- transferred: a buffer, its size, and whether it is read or written.
use rocsift_glog_fork.Sift.Capi.{partition_at}
use rocsift_glog_fork.Sift.Capi.{device_at, guarded}
use rocsift_glog_fork.Sift.Device.{Device, PartitionInfo}
use rocsift_glog_fork.Sift.Capi.{EngineState, ok}
use rocsift_glog_fork.Common.{List, map, get_elem?, ℕ, Bool, Option, none, some, ap, if◌then◌else◌}
use rocsift_glog_fork.Common.Run.{
  Run, done, throw, ◌>>=◌, or_fault, status_error, not_privileged, try_catch,
}
use rocsift_glog_fork.Common.Run.{SiftStatus, success}
use rocsift_glog_fork.Sift.Vram.{Partition, DrmNode, read_vram, write_vram}
use rocsift_glog_fork.Sift.Access.{
  File, Mmio, file_access, sram_access, smn_read_reg32, smn_write_reg32,
}

-- `sift_mem_region_t` and `sift_aperture_t`; `other_region` and `other_aperture` are values outside
-- the enumerations.
pub data Region : Type 0 where
  linear_video_mem linear_system_mem other_region : Region

pub data Aperture : Type 0 where
  aper_smn aper_mmio other_aperture : Aperture

-- What the accessors of a debugfs directory are, by its number: the VRAM file, the MMIO registers,
-- whether an `SRAMAccessor` can be made of it, and the files of that.
pub record Files (S T : Type 0) : Type 0 where
  pub vram : ℕ → T → File S
  pub mmio : ℕ → Mmio S
  pub has_sram : ℕ → Bool
  pub iomem : ℕ → T → Option (File S)
  pub devmem : T → File S

-- `XGMI()` of a DRM node, and what other GPUs see of it.
pub record Xgmi : Type 0 where
  pub node : DrmNode
  pub hive_id : ℕ
  pub nodes : List DrmNode

-- The constructor of `Device` takes the debugfs directory of the first partition, if there is one.
abbrev pub device_debugfs : Device → Option ℕ
device_debugfs d = elim (get_elem? d.partitions 0) [ none ↦ none | some p ↦ p.amdgpu_debugfs ]

abbrev pub vram_partition : (ℕ → Xgmi) → PartitionInfo → Partition
vram_partition xgmi p = record {
  drmnode = (xgmi p.drm_node).node;
  hive_id = (xgmi p.drm_node).hive_id;
  nodes = (xgmi p.drm_node).nodes;
  amdgpu_debugfs = p.amdgpu_debugfs;
}

-- The test with which the members begin.
abbrev pub privileged : Option ℕ → Run ℕ
privileged none = throw (status_error not_privileged)
privileged (some h) = done h

-- The handlers of the functions that give -1. The members throw before they access anything.
abbrev pub caught : {S : Type 0} → S → Run (Option ℕ × S) → Run (Option ℕ × S)
caught s m = try_catch m λ _. done (none, s)

module _ {S T : Type 0} (fs : Files S T) where
  -- `Device::ReadVRAM` and `Device::WriteVRAM`
  abbrev pub device_vram : Device → T → ℕ → S → Run (Option ℕ × S)
  device_vram d t address s =
      privileged (device_debugfs d) >>= λ h. done (file_access (fs.vram h t) address s)

  -- `ReadSystemRAM` and `WriteSystemRAM` of both classes
  abbrev pub system_ram : Option ℕ → T → ℕ → S → Run (Option ℕ × S)
  system_ram debugfs t address s = privileged debugfs >>= λ h.
      if fs.has_sram h
      then sram_access (fs.iomem h t) (fs.devmem t) address s
      else throw (status_error not_privileged)

  -- `Partition::ReadVRAM` and `Partition::WriteVRAM`
  abbrev pub partition_vram :
      (ℕ → Xgmi) → List PartitionInfo → Bool → PartitionInfo → T → ℕ → S → Run (Option ℕ × S)
  partition_vram xgmi partitions writes p t address s =
      (if writes
        then write_vram (λ h a. file_access (fs.vram h t) a) (vram_partition xgmi p)
            (map (vram_partition xgmi) partitions) address
        else read_vram (λ h a. file_access (fs.vram h t) a) (vram_partition xgmi p)
            (map (vram_partition xgmi) partitions) address)
      >>= λ f. done (f s)

  -- The reads of a register, with `SMNReadReg32` and `MMIOReadReg32`. Outside the enumeration nothing
  -- is read.
  abbrev pub read_register : Option ℕ → Aperture → ℕ → S → Run (SiftStatus × Option (ℕ × S))
  read_register debugfs aper_smn reg s =
      privileged debugfs >>= λ h. smn_read_reg32 (fs.mmio h) reg s >>= λ r. ok r
  read_register debugfs aper_mmio reg s =
      privileged debugfs >>= λ h. (fs.mmio h).read_reg32 reg s >>= λ r. ok r
  read_register debugfs other_aperture reg s = done (success, none)

  abbrev pub write_register : Option ℕ → Aperture → ℕ → ℕ → S → Run (SiftStatus × Option S)
  write_register debugfs aper_smn reg value s =
      privileged debugfs >>= λ h. smn_write_reg32 (fs.mmio h) reg value s >>= λ r. ok r
  write_register debugfs aper_mmio reg value s =
      privileged debugfs >>= λ h. (fs.mmio h).write_reg32 reg value s >>= λ r. ok r
  write_register debugfs other_aperture reg value s = done (success, none)

  -- The `switch` of `sift_device_read` and `sift_device_write`
  abbrev pub device_memory : Device → Region → T → ℕ → S → Run (Option ℕ × S)
  device_memory d linear_video_mem t address s = device_vram d t address s
  device_memory d linear_system_mem t address s = system_ram (device_debugfs d) t address s
  device_memory d other_region t address s = done (none, s)

  -- `sift_device_read` and `sift_device_write`
  unfoldable pub device_access : Option EngineState → ℕ → Region → T → ℕ → S → Run (Option ℕ × S)
  device_access eng dev region t address s =
      caught s (device_at eng dev >>= λ d. device_memory d region t address s)

  -- The `switch` of `sift_partition_read` and `sift_partition_write`
  abbrev pub partition_memory :
      (ℕ → Xgmi)
      → List PartitionInfo
      → Bool
      → PartitionInfo
      → Region
      → T
      → ℕ
      → S
      → Run (Option ℕ × S)
  partition_memory xgmi partitions writes p linear_video_mem t address s =
      partition_vram xgmi partitions writes p t address s
  partition_memory xgmi partitions writes p linear_system_mem t address s =
      system_ram p.amdgpu_debugfs t address s
  partition_memory xgmi partitions writes p other_region t address s = done (none, s)

  -- `sift_partition_read` and `sift_partition_write`
  unfoldable pub partition_access :
      (ℕ → Xgmi) → Bool → Option EngineState → ℕ → Region → T → ℕ → S → Run (Option ℕ × S)
  partition_access xgmi writes eng part region t address s = caught s (
      or_fault eng >>= λ e. or_fault (get_elem? e.partitions part) >>= λ p.
      partition_memory xgmi e.partitions writes p region t address s)

  unfoldable pub device_read_reg32 :
      Option EngineState → ℕ → Aperture → ℕ → S → Run (SiftStatus × Option (ℕ × S))
  device_read_reg32 eng dev ap reg s =
      guarded (device_at eng dev >>= λ d. read_register (device_debugfs d) ap reg s)

  unfoldable pub device_write_reg32 :
      Option EngineState → ℕ → Aperture → ℕ → ℕ → S → Run (SiftStatus × Option S)
  device_write_reg32 eng dev ap reg value s =
      guarded (device_at eng dev >>= λ d. write_register (device_debugfs d) ap reg value s)

  unfoldable pub partition_read_reg32 :
      Option EngineState → ℕ → Aperture → ℕ → S → Run (SiftStatus × Option (ℕ × S))
  partition_read_reg32 eng part ap reg s =
      guarded (partition_at eng part >>= λ p. read_register p.amdgpu_debugfs ap reg s)

  unfoldable pub partition_write_reg32 :
      Option EngineState → ℕ → Aperture → ℕ → ℕ → S → Run (SiftStatus × Option S)
  partition_write_reg32 eng part ap reg value s =
      guarded (partition_at eng part >>= λ p. write_register p.amdgpu_debugfs ap reg value s)

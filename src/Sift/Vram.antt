-- ===== src/Sift/Vram.antt =====
-- `Partition::ReadVRAM` and `Partition::WriteVRAM` of src/sift/partition.cc: an address of the
-- XGMI hive is turned into a GPU and an address in its own VRAM.
pub mod Layout
pub mod Route
pub mod Access
use rocsift_glog_fork.Common.{
  Bool, List, Option, [], false, if◌then◌else◌, ltb, none, some, true, ℕ, ◌&&◌, ◌*◌, ◌+◌, ◌-◌, ◌/◌,
  ◌==◌, ◌^◌, ◌∷◌,
}
use rocsift_glog_fork.Common.Run.{
  Run, done, fault, not_privileged, or_fault, out_of_range, status_error, throw, ◌>>=◌,
}
use rocsift_glog_fork.Common.Words.{sub64, u64}

-- What is read of a `DRMNode`: `CardName()`, `XGMI().device_id` and `TotalVRAMBytes()`.
pub record DrmNode : Type 0 where
  pub card_name : List ℕ
  pub device_id : ℕ
  pub vram_bytes : ℕ

-- What is read of a `Partition`: its `drmnode_` with `XGMI().hive_id` and `XGMI().nodes`, and the
-- number of its `amdgpu_debugfs_`, which is `none` without privileges.
pub record Partition : Type 0 where
  pub drmnode : DrmNode
  pub hive_id : ℕ
  pub nodes : List DrmNode
  pub amdgpu_debugfs : Option ℕ

-- `==` of strings.
abbrev pub same_name : List ℕ → List ℕ → Bool
same_name [] [] = true
same_name [] (d ∷ ds) = false
same_name (c ∷ cs) [] = false
same_name (c ∷ cs) (d ∷ ds) = c == d && same_name cs ds

-- `1ull << 30`
abbrev pub gb : ℕ
gb = 2 ^ 30

-- `gb * ((vram_size + gb - 1) / gb)`
abbrev pub round_up : ℕ → ℕ
round_up vram_size = u64 (gb * (u64 (vram_size + gb - 1) / gb))

-- An access to a VRAM file, by the number of its debugfs directory.
module _ {ℓ} {R : Type ℓ} (vram : ℕ → ℕ → R) where
  -- `p->amdgpu_debugfs_->VRAM()`, which is undefined where the pointer is null.
  abbrev pub access : Partition → ℕ → Run R
  access p address = do h ← or_fault p.amdgpu_debugfs; done (vram h address)

  -- The loop over the partitions of the engine.
  unfoldable pub through_partition : List Partition → ℕ → ℕ → Run R
  through_partition [] device_id address = throw (status_error out_of_range)
  through_partition (p ∷ ps) device_id address =
      let later = through_partition ps device_id address in
      if p.drmnode.device_id == device_id then access p address else later

  -- The loop over the nodes of the hive, for reads.
  unfoldable pub read_loop : Partition → List Partition → List DrmNode → ℕ → Run R
  read_loop self partitions [] address = throw (status_error out_of_range)
  read_loop self partitions (n ∷ ns) address =
      let later = read_loop self partitions ns (sub64 address (round_up n.vram_bytes)) in
      if ltb address n.vram_bytes
      then if same_name n.card_name self.drmnode.card_name
        then access self address
        else through_partition partitions n.device_id address
      else later

  unfoldable pub read_vram : Partition → List Partition → ℕ → Run R
  read_vram self partitions address = elim self.amdgpu_debugfs [
    | none ↦ throw (status_error not_privileged)
    | some h ↦
        if self.hive_id == 0
        then done (vram h address)
        else read_loop self partitions self.nodes address
  ]

  -- The loop over the nodes of the hive, for writes.
  unfoldable pub write_loop : List Partition → List DrmNode → ℕ → Run R
  write_loop partitions [] address = throw (status_error out_of_range)
  write_loop partitions (n ∷ ns) address =
      let later = write_loop partitions ns (sub64 address (round_up n.vram_bytes)) in
      if ltb address n.vram_bytes then through_partition partitions n.device_id address else later

  unfoldable pub write_vram : Partition → List Partition → ℕ → Run R
  write_vram self partitions address = elim self.amdgpu_debugfs [
    | none ↦ throw (status_error not_privileged)
    | some h ↦
        if self.hive_id == 0
        then done (vram h address)
        else write_loop partitions self.nodes address
  ]

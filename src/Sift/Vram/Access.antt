-- ===== src/Sift/Vram/Access.antt =====
-- What `ReadVRAM` and `WriteVRAM` do with an address of the hive.
use rocsift_glog_fork.Common.{
  ==_differ, if◌then◌else◌, List, [], Bool-cases, inl, inr, true, none, some, ==_self, ◌++◌, subst,
  ℕ, ◌<◌, ◌≡◌, ◌≢◌, ◌⊎◌, ◌==◌, ◌^◌, ◌∷◌, ap, ◌∙◌,
}
use rocsift_glog_fork.Common.Run.{
  Run, not_privileged, done, fault, out_of_range, status_error, throw,
}
use rocsift_glog_fork.Sift.Vram.{
  DrmNode, Partition, access, read_loop, read_vram, same_name, round_up, through_partition,
  write_loop, write_vram,
}
use rocsift_glog_fork.Sift.Vram.Layout.{FitsHive, InNode}
use rocsift_glog_fork.Sift.Vram.Route.{write_loop-InNode, write_loop-nowhere}
use rocsift_glog_fork.Common.Words.{sub64}

-- The first partition of the engine whose GPU has the XGMI device ID.
abbrev pub IsFirst : List Partition → ℕ → Partition → Type 0
IsFirst [] id q = ⊥
IsFirst (p ∷ ps) id q =
    ((p.drmnode.device_id ≡ id) × (p ≡ q)) ⊎ ((p.drmnode.device_id ≢ id) × IsFirst ps id q)

-- Every node of the hive with the partition's card name has a device ID that leads to the partition.
abbrev pub FindsItself : Partition → List Partition → List DrmNode → Type 0
FindsItself self partitions [] = Unit
FindsItself self partitions (n ∷ ns) =
    (same_name n.card_name self.drmnode.card_name ≡ true → IsFirst partitions n.device_id self)
    × FindsItself self partitions ns

-- What ends in a partition, at an address in its own VRAM.
module _ {ℓ} {R : Type ℓ} (vram : ℕ → ℕ → R) where
  through_partition-IsFirst :
      (ps : List Partition) (id address : ℕ) (q : Partition)
      → IsFirst ps id q
      → through_partition vram ps id address ≡ access vram q address
  unfolding through_partition
  through_partition-IsFirst [] id address q i = absurd i
  through_partition-IsFirst (p ∷ ps) id address q (inl (e, same)) =
      rw (e, ==_self id) (ap (λ p. access vram p address) same)
  through_partition-IsFirst (p ∷ ps) id address q (inr (e, i)) =
      rw (==_differ e) (through_partition-IsFirst ps id address q i)

  module _ (self : Partition) (partitions : List Partition) where
    hive_write :
        (h address : ℕ)
        → self.amdgpu_debugfs ≡ some h
        → self.hive_id ≢ 0
        → write_vram vram self partitions address ≡ write_loop vram partitions self.nodes address
    unfolding write_vram
    hive_write h address d x = rw (write_vram, d, ==_differ x)

    to_node :
        (h address : ℕ) (n : DrmNode) (offset : ℕ) (q : Partition)
        → self.amdgpu_debugfs ≡ some h
        → self.hive_id ≢ 0
        → FitsHive self.nodes
        → InNode self.nodes address n offset
        → IsFirst partitions n.device_id q
        → write_vram vram self partitions address ≡ access vram q offset
    to_node h address n offset q d x f i first =
        hive_write h address d x
        ∙ ap (λ l. write_loop vram partitions l address) i.stands
        ∙ ap (write_loop vram partitions (i.before ++ (n ∷ i.after))) i.at
        ∙ write_loop-InNode vram partitions i.before i.after n offset (subst FitsHive i.stands f)
            i.inside
        ∙ through_partition-IsFirst partitions n.device_id offset q first

    -- A hive-wide address that lies in a node's VRAM is written at its offset in the VRAM of the
    -- first partition with the node's device ID, if the partition and that one have their debugfs
    -- directories and the address space of the hive fits 64 bits.
    pub write_vram-InNode :
        (h address : ℕ) (n : DrmNode) (offset : ℕ) (q : Partition) (g : ℕ)
        → self.amdgpu_debugfs ≡ some h
        → self.hive_id ≢ 0
        → FitsHive self.nodes
        → InNode self.nodes address n offset
        → IsFirst partitions n.device_id q
        → q.amdgpu_debugfs ≡ some g
        → write_vram vram self partitions address ≡ done (vram g offset)
    write_vram-InNode h address n offset q g d x f i first e =
        to_node h address n offset q d x f i first ∙ rw e

    -- If that partition has no debugfs directory, `WriteVRAM` follows a null pointer.
    pub write_vram-null :
        (h address : ℕ) (n : DrmNode) (offset : ℕ) (q : Partition)
        → self.amdgpu_debugfs ≡ some h
        → self.hive_id ≢ 0
        → FitsHive self.nodes
        → InNode self.nodes address n offset
        → IsFirst partitions n.device_id q
        → q.amdgpu_debugfs ≡ none
        → write_vram vram self partitions address ≡ fault
    write_vram-null h address n offset q d x f i first e =
        to_node h address n offset q d x f i first ∙ rw e

    -- If the partition has its debugfs directory and is in a hive whose address space fits 64 bits,
    -- a write to a 64-bit hive address that lies in the VRAM of no node, be it between two nodes or
    -- behind the last, is OUT_OF_RANGE.
    pub write_vram-nowhere :
        (h address : ℕ)
        → self.amdgpu_debugfs ≡ some h
        → self.hive_id ≢ 0
        → FitsHive self.nodes
        → address < 2 ^ 64
        → ((n : DrmNode) (offset : ℕ) → ¬ InNode self.nodes address n offset)
        → write_vram vram self partitions address ≡ throw (status_error out_of_range)
    write_vram-nowhere h address d x f k free =
        hive_write h address d x ∙ write_loop-nowhere vram partitions self.nodes address f k free

    read_loop-write_loop :
        (nodes : List DrmNode) (address : ℕ)
        → FindsItself self partitions nodes
        → read_loop vram self partitions nodes address ≡ write_loop vram partitions nodes address
    unfolding read_loop write_loop
    read_loop-write_loop [] address f = λ i. throw (status_error out_of_range)
    read_loop-write_loop (n ∷ ns) address (here, later) =
        elim (Bool-cases (same_name n.card_name self.drmnode.card_name)) [
          | inl e ↦ rw (
            e,
            through_partition-IsFirst partitions n.device_id address self (here e),
            read_loop-write_loop ns (sub64 address (round_up n.vram_bytes)) later,
          )
          | inr e ↦ rw (e, read_loop-write_loop ns (sub64 address (round_up n.vram_bytes)) later)
        ]

    -- `ReadVRAM` and `WriteVRAM` reach the same place for every address, and fail alike, in every
    -- state, if the nodes with the partition's card name have device IDs that lead to the partition.
    pub read_vram-write_vram :
        (address : ℕ)
        → FindsItself self partitions self.nodes
        → read_vram vram self partitions address ≡ write_vram vram self partitions address
    unfolding read_vram write_vram
    read_vram-write_vram address f =
        ap
          (λ (m : Run R). elim self.amdgpu_debugfs as (λ _. Run R) [
            | none ↦ throw (status_error not_privileged)
            | some h ↦ if self.hive_id == 0 then done (vram h address) else m
          ])
          (read_loop-write_loop self.nodes address f)

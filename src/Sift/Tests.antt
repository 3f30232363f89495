-- ===== src/Sift/Tests.antt =====
-- The theorems of the VRAM accesses on a hive of two GPUs.
use rocsift_glog_fork.Sift.Vram.Route.{InNode-bound}
use rocsift_glog_fork.Common.{
  List, [], arith, inl, inr, none, some, refl, ℕ, ◌*◌, ◌+◌, ◌∷◌, ◌≡◌, ◌^◌,
}
use rocsift_glog_fork.Common.Run.{done, out_of_range, status_error, throw}
use rocsift_glog_fork.Sift.Vram.{DrmNode, Partition, read_vram, write_vram}
use rocsift_glog_fork.Sift.Vram.Access.{read_vram-write_vram, write_vram-InNode, write_vram-nowhere}
use rocsift_glog_fork.Sift.Vram.Layout.{InNode}

-- 3 GiB less a half, and 2 GiB.
abbrev first_node : DrmNode
first_node = record { card_name = b'0' ∷ []; device_id = 10; vram_bytes = 5 * 2 ^ 29 }

abbrev second_node : DrmNode
second_node = record { card_name = b'1' ∷ []; device_id = 11; vram_bytes = 2 ^ 31 }

abbrev hive : List DrmNode
hive = first_node ∷ second_node ∷ []

abbrev first_partition : Partition
first_partition = record {
  drmnode = first_node;
  hive_id = 1;
  nodes = hive;
  amdgpu_debugfs = some 100;
}

abbrev second_partition : Partition
second_partition = record {
  drmnode = second_node;
  hive_id = 1;
  nodes = hive;
  amdgpu_debugfs = some 101;
}

abbrev closed_partition : Partition
closed_partition = record {
  drmnode = second_node;
  hive_id = 1;
  nodes = hive;
  amdgpu_debugfs = none;
}

-- An access gives back the place that it reaches.
abbrev place : ℕ → ℕ → ℕ × ℕ
place h address = (h, address)

in_second : InNode hive (3 * 2 ^ 30 + 7) second_node 7
in_second = record {
  before = first_node ∷ [];
  after = [];
  stands = refl;
  at = omega arith;
  inside = omega arith;
}

write_example :
    write_vram place first_partition (first_partition ∷ second_partition ∷ []) (3 * 2 ^ 30 + 7)
    ≡ done (101, 7)
write_example =
    write_vram-InNode place first_partition (first_partition ∷ second_partition ∷ []) 100
      (3 * 2 ^ 30 + 7) second_node 7 second_partition 101 refl (omega arith) (omega arith) in_second
      (inr (omega arith, inl (refl, refl))) refl

-- Behind the 5 GiB of the hive.
behind : (n : DrmNode) (offset : ℕ) → ¬ InNode hive (5 * 2 ^ 30) n offset
behind n offset i = absurd (omega (arith, InNode-bound i))

nowhere_example :
    write_vram place first_partition (first_partition ∷ []) (5 * 2 ^ 30)
    ≡ throw (status_error out_of_range)
nowhere_example =
    write_vram-nowhere place first_partition (first_partition ∷ []) 100 (5 * 2 ^ 30) refl
      (omega arith) (omega arith) (omega arith) behind

read_example :
    read_vram place first_partition (first_partition ∷ second_partition ∷ []) 5
    ≡ write_vram place first_partition (first_partition ∷ second_partition ∷ []) 5
read_example =
    read_vram-write_vram place first_partition (first_partition ∷ second_partition ∷ []) 5
      ((λ _. inl (refl, refl)), ((λ e. absurd (ground arith)), tt))

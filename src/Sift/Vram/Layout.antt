-- ===== src/Sift/Vram/Layout.antt =====
-- The address space of a hive, independently of the loops: the nodes stand one behind another, each
-- from a multiple of a GiB on.
use rocsift_glog_fork.Common.{List, [], ℕ, ◌*◌, ◌+◌, ◌++◌, ◌-◌, ◌/◌, ◌<◌, ◌≡◌, ◌≤◌, ◌^◌, ◌∷◌}
use rocsift_glog_fork.Sift.Vram.{DrmNode, gb}

-- The room of a node: its VRAM, up to the next GiB.
abbrev pub room : DrmNode → ℕ
room n = (n.vram_bytes + (gb - 1)) / gb * gb

-- Where what follows nodes begins.
abbrev pub base : List DrmNode → ℕ
base [] = 0
base (n ∷ ns) = room n + base ns

-- The address lies in the VRAM of a node, at an offset.
pub record InNode (nodes : List DrmNode) (address : ℕ) (n : DrmNode) (offset : ℕ) : Type 0 where
  pub before : List DrmNode
  pub after : List DrmNode
  pub stands : nodes ≡ before ++ (n ∷ after)
  pub at : address ≡ base before + offset
  pub inside : offset < n.vram_bytes

-- The whole address space, with a GiB behind it, has 64-bit addresses.
abbrev pub FitsHive : List DrmNode → Type 0
FitsHive nodes = base nodes + gb ≤ 2 ^ 64

-- ===== src/Sift/Device.antt =====
-- The constructors of `Partition` and `Device` of src/sift/partition.cc and src/sift/device.cc: the
-- partitions of a device. What the system answers is an argument.
use rocsift_glog_fork.Kfd.Field.{num_xcc}
use rocsift_glog_fork.Sift.Resolve.{resolve_debugfs}
use rocsift_glog_fork.Sift.Xcc.{xcc_die_ids}
use rocsift_glog_fork.Kfd.Field.{drm_render_minor}
use rocsift_glog_fork.Common.{List, [], ◌∷◌, map, ℕ, suc, Option, none, some}
use rocsift_glog_fork.Common.Run.{
  Run, done, throw, ◌>>=◌, std_exception, status_error, out_of_range,
}
use rocsift_glog_fork.Sift.Xcc.{GcInstance}
use rocsift_glog_fork.Sift.Resolve.{DriDir}
use rocsift_glog_fork.Kfd.Field.{Properties}

-- What the constructors ask of the system: the directories below /sys/kernel/debug/dri, the IP
-- discovery table of a domain and a bdf, and `NodeByName` for the name that a render minor gives.
pub record Host : Type 0 where
  pub dri : Option (List DriDir)
  pub ip_discovery : ℕ → ℕ → Run (Option (List (Option (List GcInstance))))
  pub render_node : ℕ → Option ℕ

-- The members of a `Partition`; `device` is `GetDevice().Instance()`, and `kfd` the place of its node
-- in `KFDHandle::Nodes()`.
pub record PartitionInfo : Type 0 where
  pub device : ℕ
  pub kfd : ℕ
  pub local_id : ℕ
  pub global_id : ℕ
  pub drm_node : ℕ
  pub amdgpu_debugfs : Option ℕ
  pub die_ids : List ℕ

-- A node of a `DeviceBuilder`, with the ID of its partition.
pub record BuilderNode : Type 0 where
  pub kfd : ℕ
  pub props : Properties
  pub global_partition_id : ℕ

pub record DeviceBuilder : Type 0 where
  pub instance_ : ℕ
  pub domain : ℕ
  pub bdf : ℕ
  pub nodes : List BuilderNode

pub record Device : Type 0 where
  pub instance_ : ℕ
  pub domain : ℕ
  pub bdf : ℕ
  pub partitions : List PartitionInfo

-- `std::make_unique<Partition>(...)`
unfoldable pub make_partition : Host → ℕ → BuilderNode → ℕ → ℕ → List ℕ → Run PartitionInfo
make_partition host device n local_id drm_node die_ids = do
  debugfs ← resolve_debugfs host.dri n.props
  done (record {
    device = device;
    kfd = n.kfd;
    local_id = local_id;
    global_id = n.global_partition_id;
    drm_node = drm_node;
    amdgpu_debugfs = debugfs;
    die_ids = die_ids;
  })

-- The last loop of `PartitionsFromNodes`. There is a list of XCCs for every node.
unfoldable pub make_partitions :
    Host → ℕ → ℕ → List BuilderNode → List (List ℕ) → Run (List PartitionInfo)
make_partitions host device i [] ids = done []
make_partitions host device i (n ∷ ns) [] = throw std_exception
make_partitions host device i (n ∷ ns) (x ∷ ids) =
    elim (host.render_node (n.props drm_render_minor)) [
      | none ↦ throw (status_error out_of_range)
      | some drm ↦ make_partition host device n i drm x >>= λ p.
          make_partitions host device (suc i) ns ids >>= λ ps. done (p ∷ ps)
    ]

unfoldable pub partitions_from_nodes :
    Host
    → ℕ
    → Option (List (Option (List GcInstance)))
    → List BuilderNode
    → Run (List PartitionInfo)
partitions_from_nodes host device table [] = done []
partitions_from_nodes host device table (n ∷ ns) = do
  ids ← xcc_die_ids table (map (λ b. b.props num_xcc) (n ∷ ns))
  elim ids [ none ↦ done [] | some l ↦ make_partitions host device 0 (n ∷ ns) l ]

-- `std::make_unique<Device>(...)`
unfoldable pub make_device : Host → DeviceBuilder → Run Device
make_device host b = do
  table ← host.ip_discovery b.domain b.bdf
  ps ← partitions_from_nodes host b.instance_ table b.nodes
  done (record { instance_ = b.instance_; domain = b.domain; bdf = b.bdf; partitions = ps })

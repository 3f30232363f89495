-- ===== src/Sift/Engine.antt =====
-- `Engine::EnumerateDevices` and `Engine::EnumeratePartitions` of src/sift/engine.cc: the devices of
-- the machine out of the nodes of the KFD topology.
pub mod Builders
pub mod Numbers
pub mod Made
pub mod Order
use rocsift_glog_fork.Common.{bit_and}
use rocsift_glog_fork.Common.Words.{u64}
use rocsift_glog_fork.Kfd.Field.{location_id}
use rocsift_glog_fork.Sift.Device.{PartitionInfo, make_device}
use rocsift_glog_fork.Kfd.Field.{domain_id, simd_count}
use rocsift_glog_fork.Common.{bit_or}
use rocsift_glog_fork.Sift.Device.{BuilderNode, Device, DeviceBuilder, Host}
use rocsift_glog_fork.Kfd.Field.{Properties}
use rocsift_glog_fork.Common.{
  List, [], ◌∷◌, ◌++◌, ℕ, suc, ◌*◌, ◌%◌, ◌^◌, Option, none, some, if◌then◌else◌, ltb, ◌==◌,
}
use rocsift_glog_fork.Common.Run.{Run, done, ◌>>=◌}

-- `props.domain_id << 16 | (props.location_id & 0xffffff8)`
abbrev pub device_key : Properties → ℕ
device_key props = bit_or (u64 (props domain_id * 2 ^ 16)) (bit_and (props location_id) 0xffffff8)

-- The `std::map` by keys: its entries in the order of their keys.
abbrev pub Builders : Type 0
Builders = List (ℕ × DeviceBuilder)

-- `builders.find(key)`
unfoldable pub find_builder : ℕ → Builders → Option DeviceBuilder
find_builder key [] = none
find_builder key ((k, b) ∷ bs) =
    let later = find_builder key bs in if key == k then some b else later

-- `builders[key] = b`
unfoldable pub set_builder : ℕ → DeviceBuilder → Builders → Builders
set_builder key b [] = (key, b) ∷ []
set_builder key b ((k, c) ∷ bs) =
    let later = set_builder key b bs in
    if ltb key k then (key, b) ∷ (k, c) ∷ bs else if key == k then (key, b) ∷ bs else (k, c) ∷ later

-- `std::make_unique<DeviceBuilder>(instance, domain_id, location_id)`, which cuts the last to 16 bits.
-- The domain becomes an `int`, held as its 32-bit pattern. The instance counts the nodes of the KFD,
-- of which there are fewer than 2^31.
abbrev pub new_builder : ℕ → Properties → DeviceBuilder
new_builder i props = record {
  instance_ = i;
  domain = props domain_id % 2 ^ 32;
  bdf = props location_id % 2 ^ 16;
  nodes = [];
}

-- `AddPartition`
abbrev pub add_partition : BuilderNode → DeviceBuilder → DeviceBuilder
add_partition n b = record {
  instance_ = b.instance_;
  domain = b.domain;
  bdf = b.bdf;
  nodes = b.nodes ++ (n ∷ []);
}

-- The variables of the loop.
pub record Enumeration : Type 0 where
  pub builders : Builders
  pub global_partition_id : ℕ
  pub num_builders : ℕ

-- The body of the loop for a node with compute units: the builder that is found, or a new one, gets
-- the node.
unfoldable pub add_node : ℕ → Properties → Enumeration → Enumeration
add_node i props e =
    let key = device_key props in
    let n : BuilderNode = record {
      kfd = i;
      props = props;
      global_partition_id = e.global_partition_id;
    } in
    elim (find_builder key e.builders) [
      | none ↦ record {
        builders = set_builder key (add_partition n (new_builder e.num_builders props)) e.builders;
        global_partition_id = suc e.global_partition_id;
        num_builders = suc e.num_builders;
      }
      | some b ↦ record {
        builders = set_builder key (add_partition n b) e.builders;
        global_partition_id = suc e.global_partition_id;
        num_builders = e.num_builders;
      }
    ]

-- The loop over the nodes, from the `i`-th on.
unfoldable pub enumerate_loop : ℕ → List Properties → Enumeration → Enumeration
enumerate_loop i [] e = e
enumerate_loop i (props ∷ nodes) e =
    enumerate_loop (suc i) nodes (if props simd_count == 0 then e else add_node i props e)

-- The builders at the end.
abbrev pub device_builders : List Properties → Builders
device_builders nodes =
    (enumerate_loop 0 nodes
      (record { builders = []; global_partition_id = 0; num_builders = 0 })).builders

-- The loop that makes the devices.
unfoldable pub make_devices : Host → Builders → Run (List Device)
make_devices host [] = done []
make_devices host ((k, b) ∷ bs) =
    make_device host b >>= λ d. make_devices host bs >>= λ ds. done (d ∷ ds)

unfoldable pub enumerate_devices : Host → List Properties → Run (List Device)
enumerate_devices host nodes = make_devices host (device_builders nodes)

-- `EnumeratePartitions`
abbrev pub enumerate_partitions : List Device → List PartitionInfo
enumerate_partitions [] = []
enumerate_partitions (d ∷ ds) = d.partitions ++ enumerate_partitions ds

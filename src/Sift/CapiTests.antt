-- ===== src/Sift/CapiTests.antt =====
-- Runs of the definitions for the engine and the C interface of src/sift.
use rocsift_glog_fork.Sift.Capi.Handles.{device_get_partition-Device}
use rocsift_glog_fork.Sift.Capi.Lifetime.Balance.{run_calls-alive, sift_init-again}
use rocsift_glog_fork.Sift.Capi.Lifetime.{null}
use rocsift_glog_fork.Common.Ints.{negsuc, pos}
use rocsift_glog_fork.Sift.Capi.Lifetime.Balance.{holds}
use rocsift_glog_fork.Sift.Capi.{partition_get_device}
use rocsift_glog_fork.Sift.Capi.Lifetime.{int_increment}
use rocsift_glog_fork.Sift.Capi.Lifetime.{sift_init, start}
use rocsift_glog_fork.Common.Ints.{int_of}
use rocsift_glog_fork.Common.Run.{SiftStatus}
use rocsift_glog_fork.Sift.Capi.{EngineState, device_get_partition, get_device, make_engine}
use rocsift_glog_fork.Sift.Xcc.Split.{xcc_die_ids-split}
use rocsift_glog_fork.Sift.Device.{Device, Host, PartitionInfo}
use rocsift_glog_fork.Sift.Capi.Lifetime.{run_calls}
use rocsift_glog_fork.Common.{
  List, [], ◌∷◌, ◌++◌, map, get_elem?, ℕ, ◌-◌, ◌^◌, true, Option, some, ◌≡◌, refl, ◌==◌, arith,
}
use rocsift_glog_fork.Common.Run.{Run, done, throw, ◌>>=◌, or_fault, std_exception, code_bug}
use rocsift_glog_fork.Common.Run.{success}
use rocsift_glog_fork.Kfd.Field.{
  Properties, set_field, simd_count, location_id, num_xcc, drm_render_minor,
}
use rocsift_glog_fork.Sift.Engine.Order.{KeysAscend}
use rocsift_glog_fork.Sift.Engine.Made.{HasTables}
use rocsift_glog_fork.Sift.Engine.{
  add_node, enumerate_loop, find_builder, set_builder, make_devices, enumerate_devices,
}
use rocsift_glog_fork.Sift.Device.{
  make_device, make_partition, make_partitions, partitions_from_nodes,
}
use rocsift_glog_fork.Sift.Xcc.{xcc_die_ids, place_dies, place_instances, place_xcc, GcInstance}
use rocsift_glog_fork.Sift.Resolve.{resolve_debugfs, search_dirs, search_names, DriDir}
use rocsift_glog_fork.Sift.Capi.Lifetime.{init, destroy}

-- A GPU at a location, with one XCC.
abbrev gpu : ℕ → ℕ → Properties
gpu location minor =
    set_field
      (set_field (set_field (set_field (λ f. 0) simd_count 4) location_id location) num_xcc 1)
      drm_render_minor minor

abbrev cpu : Properties
cpu = λ f. 0

abbrev gc : ℕ → GcInstance
gc n = record { harvest = n == 0; num_instance = n }

abbrev dri_dir : ℕ → ℕ → DriDir
dri_dir n bus = record { number = n; has_regs2 = true; opens = true; names = some (0, bus, 0) ∷ [] }

-- Two buses, and tables with one harvested and two other instances.
abbrev two_gpus : Host
two_gpus = record {
  dri = some (dri_dir 7 1 ∷ dri_dir 8 2 ∷ []);
  ip_discovery = λ domain bdf. done (some (some (gc 0 ∷ gc 1 ∷ gc 2 ∷ []) ∷ []));
  render_node = λ minor. some minor;
}

two_gpus-HasTables : HasTables two_gpus
two_gpus-HasTables domain bdf = (some (gc 0 ∷ gc 1 ∷ gc 2 ∷ []) ∷ [], refl)

-- A CPU, a GPU of two partitions and a GPU of one.
abbrev in_order : List Properties
in_order = cpu ∷ gpu 0x100 128 ∷ gpu 0x101 129 ∷ gpu 0x200 130 ∷ []

abbrev pub part : ℕ → ℕ → ℕ → ℕ → ℕ → ℕ → List ℕ → PartitionInfo
part device kfd local_id global_id drm dir ids = record {
  device = device;
  kfd = kfd;
  local_id = local_id;
  global_id = global_id;
  drm_node = drm;
  amdgpu_debugfs = some dir;
  die_ids = ids;
}

abbrev pub first_device : Device
first_device = record {
  instance_ = 0;
  domain = 0;
  bdf = 0x100;
  partitions = part 0 1 0 0 128 7 (1 ∷ []) ∷ part 0 2 1 1 129 7 (2 ∷ []) ∷ [];
}

abbrev pub second_device : Device
second_device = record {
  instance_ = 1;
  domain = 0;
  bdf = 0x200;
  partitions = part 1 3 0 2 130 8 (1 ∷ []) ∷ [];
}

abbrev pub engine : EngineState
engine = record {
  nodes = in_order;
  devices = first_device ∷ second_device ∷ [];
  partitions = first_device.partitions ++ second_device.partitions;
}

engine_made : make_engine two_gpus in_order ≡ done engine
unfolding make_engine enumerate_devices make_devices make_device partitions_from_nodes
    make_partitions make_partition resolve_debugfs search_dirs search_names xcc_die_ids place_dies
    place_instances place_xcc enumerate_loop add_node find_builder set_builder
engine_made = refl

in_order-KeysAscend : KeysAscend 0 in_order
in_order-KeysAscend = (omega arith, (omega arith, (omega arith, tt)))

partition_handle_example :
    (partition_get_device (some engine) 2 ≡ done (success, some 1))
    × (dev : Device) × (get_elem? engine.devices 1 ≡ some dev)
    × (get_elem? engine.partitions 2 ≡ get_elem? dev.partitions 0)
unfolding device_get_partition int_of
partition_handle_example =
    device_get_partition-Device two_gpus in_order engine 1 (pos 0) 2 two_gpus-HasTables
      in_order-KeysAscend engine_made refl

-- The nodes of the GPUs the other way round: the device 0 is the GPU at 0x100, but the handle for its
-- partition stands for the GPU at 0x200.
abbrev swapped : Run EngineState
swapped = make_engine two_gpus (gpu 0x200 128 ∷ gpu 0x100 129 ∷ [])

abbrev first_partition : Run EngineState → Run (SiftStatus × Option ℕ)
first_partition m = m >>= λ e. device_get_partition (some e) 0 (pos 0)

abbrev dir_of : Run EngineState → ℕ → Run (Option ℕ)
dir_of m h = m >>= λ e. or_fault (get_elem? e.partitions h) >>= λ p. done p.amdgpu_debugfs

swapped_partition : first_partition swapped ≡ done (success, some 1)
unfolding device_get_partition int_of make_engine enumerate_devices make_devices make_device
    partitions_from_nodes make_partitions make_partition resolve_debugfs search_dirs search_names
    xcc_die_ids place_dies place_instances place_xcc enumerate_loop add_node find_builder
    set_builder
swapped_partition = refl

swapped_dir : dir_of swapped 1 ≡ done (some 8)
unfolding make_engine enumerate_devices make_devices make_device partitions_from_nodes
    make_partitions make_partition resolve_debugfs search_dirs search_names xcc_die_ids place_dies
    place_instances place_xcc enumerate_loop add_node find_builder set_builder
swapped_dir = refl

xcc_example :
    xcc_die_ids (some (map some ((gc 0 ∷ gc 1 ∷ gc 2 ∷ []) ∷ (gc 3 ∷ []) ∷ []))) (1 ∷ 2 ∷ [])
    ≡ done (some ((1 ∷ []) ∷ (2 ∷ 3 ∷ []) ∷ []))
xcc_example = xcc_die_ids-split ((gc 0 ∷ gc 1 ∷ gc 2 ∷ []) ∷ (gc 3 ∷ []) ∷ []) (1 ∷ 2 ∷ [])

alive_example :
    run_calls (done engine) (init ∷ init ∷ destroy ∷ destroy ∷ []) start ≡ done (holds 0 engine)
alive_example = run_calls-alive engine (init ∷ destroy ∷ destroy ∷ []) tt (omega arith)

again_example :
    (run_calls (done engine) (init ∷ destroy ∷ []) start >>= sift_init (done engine))
    ≡ done (code_bug, holds 1 engine)
again_example = sift_init-again engine (destroy ∷ []) (done engine) tt (omega arith) refl

-- After a constructor that throws, the next call succeeds, with a null pointer.
failed_init :
    (run_calls (throw std_exception) (init ∷ []) start >>= sift_init (done engine))
    ≡ done (success, record { engref = pos 2; eng = null })
unfolding run_calls sift_init int_increment
failed_init = refl

-- A negative number is taken.
negative_device : get_device (some engine) (negsuc 0) ≡ done (success, some (2 ^ 64 - 1))
unfolding get_device int_of
negative_device = refl

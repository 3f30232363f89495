-- ===== src/Sift/Capi.antt =====
-- The handles of the C interface, src/sift/capi.cc and src/kfd/kfdcapi.cc. A function gives its
-- status, and what it writes through its last pointer, if it does. An engine that is `none` is a
-- null pointer, which the functions follow all the same.
pub mod Handles
pub mod Access
pub mod Lifetime
use rocsift_glog_fork.Common.{
  List, [], ◌∷◌, ◌++◌, map, length, get_elem?, take, drop, ℕ, zero, suc, ◌+◌, ◌-◌, ◌*◌, ◌/◌, ◌%◌,
  ◌^◌, ◌≤◌, ◌<◌, Bool, true, false, not, ◌&&◌, ◌||◌, Option, none, some, ◌≡◌, refl, sym, ap, ◌∙◌,
  if◌then◌else◌, ltb, leb, ◌==◌, arith, ◌≢◌, ◌⊎◌, inl, inr, Bool-cases, Option-cases, append-nil,
  append_assoc, length-append, lt→ltb, le→ltb, ltb→lt, ==_self, ==_differ, subst,
}
use rocsift_glog_fork.Common.Run.{
  Run, done, throw, fault, spin, ◌>>=◌, or_fault, std_exception, status_error, code_bug,
  not_privileged, out_of_range, try_catch, IsSafe, Returns,
}
use rocsift_glog_fork.Common.Ints.{negsuc, uint64_of}
use rocsift_glog_fork.Sift.Engine.{enumerate_partitions}
use rocsift_glog_fork.Common.Ints.{geq, int_of, pos}
use rocsift_glog_fork.Sift.Engine.{enumerate_devices}
use rocsift_glog_fork.Sift.Device.{Host}
use rocsift_glog_fork.Common.Ints.{ℤ}
use rocsift_glog_fork.Common.{
  List, [], ◌∷◌, length, get_elem?, take, ℕ, suc, not, ◌&&◌, Option, none, some, if◌then◌else◌, leb,
  ◌==◌,
}
use rocsift_glog_fork.Common.Run.{
  Run, done, ◌>>=◌, or_fault, std_exception, status_error, out_of_range, try_catch,
}
use rocsift_glog_fork.Sift.Device.{Device, PartitionInfo}
use rocsift_glog_fork.Kfd.Field.{Properties}
use rocsift_glog_fork.Common.Run.{SiftStatus, Exception, success, error}

-- The members of an `Engine` that the functions read.
pub record EngineState : Type 0 where
  pub nodes : List Properties
  pub devices : List Device
  pub partitions : List PartitionInfo

-- `new Engine()`
unfoldable pub make_engine : Host → List Properties → Run EngineState
make_engine host nodes = do
  ds ← enumerate_devices host nodes
  done (record { nodes = nodes; devices = ds; partitions = enumerate_partitions ds })

-- The handlers that end every function.
abbrev pub status_of : Exception → SiftStatus
status_of (status_error s) = s
status_of std_exception = error

abbrev pub guarded {ℓ} : {A : Type ℓ} → Run (SiftStatus × Option A) → Run (SiftStatus × Option A)
guarded m = try_catch m λ e. done (status_of e, none)

abbrev pub ok {ℓ} : {A : Type ℓ} → A → Run (SiftStatus × Option A)
ok a = done (success, some a)

-- `eng->Devices()[handle]` and `eng->Partitions()[handle]`
abbrev pub device_at : Option EngineState → ℕ → Run Device
device_at eng dev = or_fault eng >>= λ e. or_fault (get_elem? e.devices dev)

abbrev pub partition_at : Option EngineState → ℕ → Run PartitionInfo
partition_at eng part = or_fault eng >>= λ e. or_fault (get_elem? e.partitions part)

unfoldable pub get_device_count : Option EngineState → Run (SiftStatus × Option ℤ)
get_device_count eng = guarded (or_fault eng >>= λ e. ok (int_of (length e.devices)))

unfoldable pub get_device : Option EngineState → ℤ → Run (SiftStatus × Option ℕ)
get_device eng n = guarded (
    or_fault eng >>= λ e.
    if geq n (int_of (length e.devices)) then done (out_of_range, none) else ok (uint64_of n))

unfoldable pub device_get_partition_count : Option EngineState → ℕ → Run (SiftStatus × Option ℤ)
device_get_partition_count eng dev =
    guarded (device_at eng dev >>= λ h. ok (int_of (length h.partitions)))

unfoldable pub device_get_partition : Option EngineState → ℕ → ℤ → Run (SiftStatus × Option ℕ)
device_get_partition eng dev n = guarded (
    device_at eng dev >>= λ h.
    if geq n (int_of (length h.partitions))
    then done (error, none)
    else or_fault (get_elem? h.partitions (uint64_of n)) >>= λ p. ok p.global_id)

unfoldable pub get_partition_count : Option EngineState → Run (SiftStatus × Option ℤ)
get_partition_count eng = guarded (or_fault eng >>= λ e. ok (int_of (length e.partitions)))

unfoldable pub get_partition : Option EngineState → ℤ → Run (SiftStatus × Option ℕ)
get_partition eng n = guarded (
    or_fault eng >>= λ e.
    if geq n (int_of (length e.partitions)) then done (out_of_range, none) else ok (uint64_of n))

unfoldable pub partition_get_device : Option EngineState → ℕ → Run (SiftStatus × Option ℕ)
partition_get_device eng part = guarded (partition_at eng part >>= λ p. ok p.device)

-- The loop of `sift_partition_get_kfd_node`: pointers to nodes are their places.
unfoldable pub find_kfd_node : ℕ → List Properties → ℕ → Option ℕ
find_kfd_node i [] kfd = none
find_kfd_node i (n ∷ ns) kfd =
    let later = find_kfd_node (suc i) ns kfd in if i == kfd then some i else later

unfoldable pub partition_get_kfd_node : Option EngineState → ℕ → Run (SiftStatus × Option ℕ)
partition_get_kfd_node eng part = guarded (
    partition_at eng part >>= λ p. or_fault eng >>= λ e. elim (find_kfd_node 0 e.nodes p.kfd) [
      | none ↦ done (out_of_range, none)
      | some i ↦ ok i
    ])

unfoldable pub partition_get_xcc_count : Option EngineState → ℕ → Run (SiftStatus × Option ℤ)
partition_get_xcc_count eng part =
    guarded (partition_at eng part >>= λ p. ok (int_of (length p.die_ids)))

-- The rounds of a loop up to an `int`.
abbrev rounds : ℤ → ℕ
rounds (pos n) = n
rounds (negsuc n) = 0

-- The IDs that are written to the array, which has room for `num_xcc_ids` of them.
unfoldable pub partition_get_xcc_die_ids :
    Option EngineState → ℕ → ℤ → Run (SiftStatus × Option (List ℕ))
partition_get_xcc_die_ids eng part num_xcc_ids = guarded (
    partition_at eng part >>= λ p.
    if geq (int_of (length p.die_ids)) num_xcc_ids
    then ok (take (rounds num_xcc_ids) p.die_ids)
    else done (error, none))

-- src/kfd/kfdcapi.cc
unfoldable pub kfd_get_node_count : Option EngineState → Run (SiftStatus × Option ℤ)
kfd_get_node_count eng = guarded (or_fault eng >>= λ e. ok (int_of (length e.nodes)))

unfoldable pub kfd_get_node : Option EngineState → ℤ → Run (SiftStatus × Option ℕ)
kfd_get_node eng n = guarded (
    or_fault eng >>= λ e.
    if geq n (int_of (length e.nodes)) then done (error, none) else ok (uint64_of n))

unfoldable pub kfd_node_get_properties :
    Option EngineState → ℕ → Run (SiftStatus × Option Properties)
kfd_node_get_properties eng node =
    guarded (or_fault eng >>= λ e. or_fault (get_elem? e.nodes node) >>= λ p. ok p)

-- ===== src/Sift/Capi/Handles.antt =====
-- Handles of partitions and of their devices, src/sift/capi.cc.
use rocsift_glog_fork.Common.Run.{or_fault-eq-done}
use rocsift_glog_fork.Common.Run.{>>=-eq-done, SiftStatus, done_inj}
use rocsift_glog_fork.Common.{
  List, length, get_elem?, ℕ, ◌+◌, Bool, true, false, Option, none, some, ◌≡◌, refl, sym, ap, ◌∙◌,
  if◌then◌else◌, arith,
}
use rocsift_glog_fork.Common.Run.{Run, done, throw, fault, spin, ◌>>=◌, or_fault}
use rocsift_glog_fork.Common.Run.{success, error}
use rocsift_glog_fork.Sift.Engine.Numbers.{AllMade-device}
use rocsift_glog_fork.Sift.Engine.Numbers.{AllMade-instances}
use rocsift_glog_fork.Sift.Engine.{enumerate_partitions}
use rocsift_glog_fork.Sift.Engine.Numbers.{get_elem?-map}
use rocsift_glog_fork.Sift.Capi.{ok}
use rocsift_glog_fork.Sift.Engine.Numbers.{AllMade-ids}
use rocsift_glog_fork.Common.Ints.{int_of}
use rocsift_glog_fork.Sift.Engine.Order.{get_elem?-from}
use rocsift_glog_fork.Common.Ints.{geq}
use rocsift_glog_fork.Common.Ints.{uint64_of}
use rocsift_glog_fork.Sift.Engine.Numbers.{partition_place}
use rocsift_glog_fork.Sift.Engine.{device_builders}
use rocsift_glog_fork.Sift.Engine.Made.{make_devices-AllMade}
use rocsift_glog_fork.Sift.Engine.Order.{device_builders-numbered}
use rocsift_glog_fork.Sift.Device.{PartitionInfo}
use rocsift_glog_fork.Sift.Engine.Order.{KeysAscend}
use rocsift_glog_fork.Sift.Engine.Made.{HasTables}
use rocsift_glog_fork.Sift.Device.{Device}
use rocsift_glog_fork.Kfd.Field.{Properties}
use rocsift_glog_fork.Common.Ints.{ℤ}
use rocsift_glog_fork.Sift.Engine.{enumerate_devices}
use rocsift_glog_fork.Sift.Capi.{EngineState}
use rocsift_glog_fork.Sift.Device.{Host}
use rocsift_glog_fork.Sift.Capi.{device_get_partition, make_engine, partition_get_device}
use rocsift_glog_fork.Sift.Capi.{guarded}

pub guarded-eq-done {ℓ} :
    {A : Type ℓ} (m : Run (SiftStatus × Option A)) {s : SiftStatus} {a : A}
    → guarded m ≡ done (s, some a)
    → m ≡ done (s, some a)
guarded-eq-done (done x) h = h
guarded-eq-done {A = A} (throw e) {a = a} h =
    let f : ◌≡◌ {A = Option A} none (some a) = ap (λ x. x.1) (done_inj h) in cc
guarded-eq-done fault h = cc
guarded-eq-done spin h = cc

chosen-found :
    (b : Bool) (o : Option PartitionInfo) {h : ℕ}
    → (if b then done (error, none) else (or_fault o >>= λ p. ok p.global_id))
      ≡ done (success, some h)
    → (p : PartitionInfo) × (o ≡ some p) × (p.global_id ≡ h)
chosen-found true o {h = h} g =
    let f : ◌≡◌ {A = Option ℕ} none (some h) = ap (λ x. x.1) (done_inj g) in
    let bad : ⊥ = cc in absurd bad
chosen-found false none g = let bad : ⊥ = cc in absurd bad
chosen-found false (some p) g = (p, refl, cc)

-- What `sift_device_get_partition` found.
device_get_partition-found :
    (e : EngineState) (d : ℕ) (n : ℤ) {h : ℕ}
    → device_get_partition (some e) d n ≡ done (success, some h)
    → (dev : Device) × (p : PartitionInfo) × (get_elem? e.devices d ≡ some dev)
      × (get_elem? dev.partitions (uint64_of n) ≡ some p)
      × (p.global_id ≡ h)
unfolding device_get_partition
device_get_partition-found e d n {h = h} g =
    let (dev, i, f) = >>=-eq-done (or_fault (get_elem? e.devices d)) _ (guarded-eq-done _ g) in
    let (p, j, k) =
      chosen-found (geq n (int_of (length dev.partitions))) (get_elem? dev.partitions (uint64_of n))
        f in
    (dev, p, or_fault-eq-done _ i, j, k)

-- The numbers of an engine, where the keys of the nodes ascend.
made_partition :
    (host : Host) (nodes : List Properties) (e : EngineState) (d i : ℕ) {dev : Device}
    {p : PartitionInfo}
    → HasTables host
    → KeysAscend 0 nodes
    → make_engine host nodes ≡ done e
    → get_elem? e.devices d ≡ some dev
    → get_elem? dev.partitions i ≡ some p
    → (get_elem? e.partitions p.global_id ≡ some p) × (p.device ≡ d)
unfolding make_engine enumerate_devices
made_partition host nodes e d i {dev = dev} {p = p} t a m f g =
    let (ds, h, k) = >>=-eq-done (enumerate_devices host nodes) _ m in
    let (x, y, ids, insts) = device_builders-numbered nodes a in
    let all = make_devices-AllMade host (device_builders nodes) t h in
    let f2 : get_elem? ds d ≡ some dev = ap (λ q. get_elem? q.devices d) (done_inj k) ∙ f in
    let (j, at) = partition_place ds d i f2 g in
    let id : p.global_id ≡ 0 + j = get_elem?-from 0 x j (
      sym (ap (λ l. get_elem? l j) (AllMade-ids (device_builders nodes) ds all ∙ ids))
      ∙ get_elem?-map (λ p. p.global_id) (enumerate_partitions ds) j at) in
    let inst : dev.instance_ ≡ 0 + d = get_elem?-from 0 y d (
      sym (ap (λ l. get_elem? l d) (AllMade-instances (device_builders nodes) ds all ∙ insts))
      ∙ get_elem?-map (λ p. p.instance_) ds d f2) in
    let place : p.global_id ≡ j = omega (arith, id) in
    (
      ap (λ q. get_elem? q.partitions p.global_id) (sym (done_inj k))
          ∙ ap (get_elem? (enumerate_partitions ds)) place
          ∙ at,
      AllMade-device (device_builders nodes) ds d i all f2 g ∙ omega (arith, inst),
    )

-- A handle that `sift_device_get_partition` gives for a device and a number is the handle of that
-- partition of that device, and `sift_partition_get_device` gives the handle of the device for it, if
-- every device has an IP discovery table and the keys of the nodes with compute units come in
-- ascending order.
pub device_get_partition-Device :
    (host : Host) (nodes : List Properties) (e : EngineState) (d : ℕ) (n : ℤ) (h : ℕ)
    → HasTables host
    → KeysAscend 0 nodes
    → make_engine host nodes ≡ done e
    → device_get_partition (some e) d n ≡ done (success, some h)
    → (partition_get_device (some e) h ≡ done (success, some d))
      × (dev : Device) × (get_elem? e.devices d ≡ some dev)
      × (get_elem? e.partitions h ≡ get_elem? dev.partitions (uint64_of n))
unfolding partition_get_device
device_get_partition-Device host nodes e d n h t a m g =
    let (dev, p, f, i, k) = device_get_partition-found e d n g in
    let (at, own) = made_partition host nodes e d (uint64_of n) t a m f i in
    (
      rw (partition_get_device, sym k, at, own) refl,
      dev,
      f,
      ap (get_elem? e.partitions) (sym k) ∙ at ∙ sym i,
    )

-- ===== src/Sift/Engine/Made.antt =====
-- The constructors of src/sift/device.cc and src/sift/partition.cc keep the numbers of the builders.
use rocsift_glog_fork.Sift.Xcc.{place_dies}
use rocsift_glog_fork.Kfd.Field.{num_xcc}
use rocsift_glog_fork.Sift.Device.{Device, DeviceBuilder}
use rocsift_glog_fork.Sift.Xcc.{xcc_die_ids}
use rocsift_glog_fork.Sift.Engine.{Builders, make_devices}
use rocsift_glog_fork.Sift.Device.{make_device, partitions_from_nodes}
use rocsift_glog_fork.Kfd.Field.{drm_render_minor}
use rocsift_glog_fork.Common.Run.{>>=-eq-done, done_inj}
use rocsift_glog_fork.Common.{
  List, [], ◌∷◌, map, ℕ, suc, Option, none, some, ◌≡◌, refl, sym, ap, ◌∙◌, inl, inr, Option-cases,
  subst,
}
use rocsift_glog_fork.Common.Run.{done, throw, ◌>>=◌, status_error, out_of_range}
use rocsift_glog_fork.Sift.Resolve.{resolve_debugfs}
use rocsift_glog_fork.Sift.Xcc.{GcInstance}
use rocsift_glog_fork.Sift.Device.{PartitionInfo}
use rocsift_glog_fork.Sift.Device.{BuilderNode, Host, make_partition, make_partitions}

-- Every device has an IP discovery table.
abbrev pub HasTables : Host → Type 0
HasTables host =
    (domain bdf : ℕ)
    → (dies : List (Option (List GcInstance))) × (host.ip_discovery domain bdf ≡ done (some dies))

-- The partitions have the IDs of the nodes, and are of a device.
abbrev pub Made : ℕ → List BuilderNode → List PartitionInfo → Type 0
Made device ns [] = ns ≡ []
Made device [] (p ∷ ps) = ⊥
Made device (n ∷ ns) (p ∷ ps) =
    (p.global_id ≡ n.global_partition_id) × (p.device ≡ device) × Made device ns ps

make_partition-numbers :
    (host : Host) (device : ℕ) (n : BuilderNode) (i drm : ℕ) (x : List ℕ) {p : PartitionInfo}
    → make_partition host device n i drm x ≡ done p
    → (p.global_id ≡ n.global_partition_id) × (p.device ≡ device)
unfolding make_partition
make_partition-numbers host device n i drm x h =
    let (d, e, f) = >>=-eq-done (resolve_debugfs host.dri n.props) _ h in
    (ap (λ q. q.global_id) (sym (done_inj f)), ap (λ q. q.device) (sym (done_inj f)))

make_partitions-none :
    (host : Host) (device i : ℕ) (n : BuilderNode) (ns : List BuilderNode) (x : List ℕ)
    (ids : List (List ℕ))
    → host.render_node (n.props drm_render_minor) ≡ none
    → make_partitions host device i (n ∷ ns) (x ∷ ids) ≡ throw (status_error out_of_range)
unfolding make_partitions
make_partitions-none host device i n ns x ids r = rw (make_partitions, r) refl

make_partitions-some :
    (host : Host) (device i : ℕ) (n : BuilderNode) (ns : List BuilderNode) (x : List ℕ)
    (ids : List (List ℕ)) (drm : ℕ)
    → host.render_node (n.props drm_render_minor) ≡ some drm
    → make_partitions host device i (n ∷ ns) (x ∷ ids) ≡ (
        make_partition host device n i drm x >>= λ p.
        make_partitions host device (suc i) ns ids >>= λ ps. done (p ∷ ps))
unfolding make_partitions
make_partitions-some host device i n ns x ids drm r = rw (make_partitions, r) refl

make_partitions-Made :
    (host : Host) (device i : ℕ) (ns : List BuilderNode) (ids : List (List ℕ))
    {ps : List PartitionInfo}
    → make_partitions host device i ns ids ≡ done ps
    → Made device ns ps
unfolding make_partitions
make_partitions-Made host device i [] ids {ps = ps} h = subst (Made device []) (done_inj h) refl
make_partitions-Made host device i (n ∷ ns) [] h = cc
make_partitions-Made host device i (n ∷ ns) (x ∷ ids) {ps = ps} h =
    elim (Option-cases (host.render_node (n.props drm_render_minor))) [
      | inl r ↦ let e = make_partitions-none host device i n ns x ids r in cc
      | inr (drm, r) ↦
          let (p, hp, f) =
            >>=-eq-done (make_partition host device n i drm x) _
              (sym (make_partitions-some host device i n ns x ids drm r) ∙ h) in
          let (qs, hq, g) = >>=-eq-done (make_partitions host device (suc i) ns ids) _ f in
          let (a, b) = make_partition-numbers host device n i drm x hp in
          subst (Made device (n ∷ ns)) (done_inj g)
            (a, b, make_partitions-Made host device (suc i) ns ids hq)
    ]

partitions_from_nodes-Made :
    (host : Host) (device : ℕ) (dies : List (Option (List GcInstance))) (ns : List BuilderNode)
    {ps : List PartitionInfo}
    → partitions_from_nodes host device (some dies) ns ≡ done ps
    → Made device ns ps
unfolding partitions_from_nodes xcc_die_ids
partitions_from_nodes-Made host device dies [] h = subst (Made device []) (done_inj h) refl
partitions_from_nodes-Made host device dies (n ∷ ns) h =
    let (o, e, f) = >>=-eq-done (xcc_die_ids (some dies) limits) _ h in
    let (st, g, k) = >>=-eq-done (place_dies dies (map (λ n. (n, [])) limits, 0)) _ e in
    make_partitions-Made host device 0 (n ∷ ns) (map (λ s. s.1) st.0) (
      ap (λ q. elim q [ none ↦ done [] | some l ↦ make_partitions host device 0 (n ∷ ns) l ])
        (done_inj k)
      ∙ f)
  where
    limits : List ℕ
    limits = map (λ b. b.props num_xcc) (n ∷ ns)

pub make_device-Made :
    (host : Host) (b : DeviceBuilder) {d : Device}
    → HasTables host
    → make_device host b ≡ done d
    → (d.instance_ ≡ b.instance_) × Made b.instance_ b.nodes d.partitions
unfolding make_device
make_device-Made host b {d = d} t h =
    let (table, e, f) = >>=-eq-done (host.ip_discovery b.domain b.bdf) _ h in
    let (dies, i) = t b.domain b.bdf in
    let same : some dies ≡ table = done_inj (sym i ∙ e) in
    let (ps, g, k) = >>=-eq-done (partitions_from_nodes host b.instance_ table b.nodes) _ f in
    (
      ap (λ q. q.instance_) (sym (done_inj k)),
      subst (λ q. Made b.instance_ b.nodes q.partitions) (done_inj k)
          (partitions_from_nodes-Made host b.instance_ dies b.nodes
            (ap (λ x. partitions_from_nodes host b.instance_ x b.nodes) same ∙ g)),
    )

-- The devices, with the numbers of the builders.
abbrev pub AllMade : Builders → List Device → Type 0
AllMade bs [] = bs ≡ []
AllMade [] (d ∷ ds) = ⊥
AllMade ((k, b) ∷ bs) (d ∷ ds) =
    (d.instance_ ≡ b.instance_) × Made b.instance_ b.nodes d.partitions × AllMade bs ds

pub make_devices-AllMade :
    (host : Host) (bs : Builders) {ds : List Device}
    → HasTables host
    → make_devices host bs ≡ done ds
    → AllMade bs ds
unfolding make_devices
make_devices-AllMade host [] t h = subst (AllMade []) (done_inj h) refl
make_devices-AllMade host ((k, b) ∷ bs) t h =
    let (d, e, f) = >>=-eq-done (make_device host b) _ h in
    let (ds, g, i) = >>=-eq-done (make_devices host bs) _ f in
    let (n, m) = make_device-Made host b t e in
    subst (AllMade ((k, b) ∷ bs)) (done_inj i) (n, m, make_devices-AllMade host bs t g)

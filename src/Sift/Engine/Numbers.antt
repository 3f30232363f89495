-- ===== src/Sift/Engine/Numbers.antt =====
-- The numbers of devices and partitions in the lists of an `Engine`, src/sift/engine.cc.
use rocsift_glog_fork.Common.{get_elem?-append_right}
use rocsift_glog_fork.Common.{
  List, [], ◌∷◌, ◌++◌, map, length, get_elem?, ℕ, zero, suc, ◌+◌, some, ◌≡◌, refl, sym, ap, ◌∙◌,
  subst,
}
use rocsift_glog_fork.Sift.Engine.Builders.{ids_of, instances_of}
use rocsift_glog_fork.Sift.Engine.Made.{AllMade, Made}
use rocsift_glog_fork.Sift.Engine.{enumerate_partitions}
use rocsift_glog_fork.Sift.Engine.{Builders}
use rocsift_glog_fork.Sift.Device.{BuilderNode, Device, PartitionInfo}

pub get_elem?-map {ℓ κ} :
    {A : Type ℓ} {B : Type κ} (f : A → B) (xs : List A) (i : ℕ) {x : A}
    → get_elem? xs i ≡ some x
    → get_elem? (map f xs) i ≡ some (f x)
get_elem?-map f [] i h = cc
get_elem?-map f (y ∷ xs) zero h = cc
get_elem?-map f (y ∷ xs) (suc i) h = get_elem?-map f xs i h

Made-ids :
    (device : ℕ) (ns : List BuilderNode) (ps : List PartitionInfo)
    → Made device ns ps
    → map (λ p. p.global_id) ps ≡ map (λ n. n.global_partition_id) ns
Made-ids device ns [] h = rw h refl
Made-ids device [] (p ∷ ps) h = absurd h
Made-ids device (n ∷ ns) (p ∷ ps) (e, f, h) = rw (e, Made-ids device ns ps h) refl

Made-device :
    (device : ℕ) (ns : List BuilderNode) (ps : List PartitionInfo) (i : ℕ) {p : PartitionInfo}
    → Made device ns ps
    → get_elem? ps i ≡ some p
    → p.device ≡ device
Made-device device ns [] i h e = cc
Made-device device [] (p ∷ ps) i h e = absurd h
Made-device device (n ∷ ns) (p ∷ ps) zero {p = q} (e, f, h) g =
    let same : p ≡ q = cc in subst (λ q. q.device ≡ device) same f
Made-device device (n ∷ ns) (p ∷ ps) (suc i) (e, f, h) g = Made-device device ns ps i h g

map_append :
    (ps qs : List PartitionInfo)
    → map (λ p. p.global_id) (ps ++ qs) ≡ map (λ p. p.global_id) ps ++ map (λ p. p.global_id) qs
map_append [] qs = refl
map_append (p ∷ ps) qs = ap (λ l. p.global_id ∷ l) (map_append ps qs)

pub AllMade-ids :
    (bs : Builders) (ds : List Device)
    → AllMade bs ds
    → map (λ p. p.global_id) (enumerate_partitions ds) ≡ ids_of bs
AllMade-ids bs [] h = rw h refl
AllMade-ids [] (d ∷ ds) h = absurd h
AllMade-ids ((k, b) ∷ bs) (d ∷ ds) (e, m, h) =
    map_append d.partitions (enumerate_partitions ds)
    ∙ rw (Made-ids b.instance_ b.nodes d.partitions m, AllMade-ids bs ds h) refl

pub AllMade-instances :
    (bs : Builders) (ds : List Device) → AllMade bs ds → map (λ d. d.instance_) ds ≡ instances_of bs
AllMade-instances bs [] h = rw h refl
AllMade-instances [] (d ∷ ds) h = absurd h
AllMade-instances ((k, b) ∷ bs) (d ∷ ds) (e, m, h) = rw (e, AllMade-instances bs ds h) refl

-- A partition of a device is of that device.
pub AllMade-device :
    (bs : Builders) (ds : List Device) (d i : ℕ) {dev : Device} {p : PartitionInfo}
    → AllMade bs ds
    → get_elem? ds d ≡ some dev
    → get_elem? dev.partitions i ≡ some p
    → p.device ≡ dev.instance_
AllMade-device bs [] d i h e f = cc
AllMade-device [] (x ∷ ds) d i h e f = absurd h
AllMade-device ((k, b) ∷ bs) (x ∷ ds) zero i {dev = dev} {p = p} (e, m, h) g f =
    let same : x ≡ dev = cc in
    let f2 : get_elem? x.partitions i ≡ some p = ap (λ q. get_elem? q.partitions i) same ∙ f in
    Made-device b.instance_ b.nodes x.partitions i m f2 ∙ sym e ∙ ap (λ q. q.instance_) same
AllMade-device ((k, b) ∷ bs) (x ∷ ds) (suc d) i (e, m, h) g f = AllMade-device bs ds d i h g f

get_elem?-append_some :
    (ps qs : List PartitionInfo) (i : ℕ) {p : PartitionInfo}
    → get_elem? ps i ≡ some p
    → get_elem? (ps ++ qs) i ≡ some p
get_elem?-append_some [] qs i h = cc
get_elem?-append_some (q ∷ ps) qs zero h = h
get_elem?-append_some (q ∷ ps) qs (suc i) h = get_elem?-append_some ps qs i h

-- It is also in the list of all partitions.
pub partition_place :
    (ds : List Device) (d i : ℕ) {dev : Device} {p : PartitionInfo}
    → get_elem? ds d ≡ some dev
    → get_elem? dev.partitions i ≡ some p
    → (j : ℕ) × (get_elem? (enumerate_partitions ds) j ≡ some p)
partition_place [] d i e f = cc
partition_place (x ∷ ds) zero i {dev = dev} {p = p} e f =
    let same : x ≡ dev = cc in
    let f2 : get_elem? x.partitions i ≡ some p = ap (λ q. get_elem? q.partitions i) same ∙ f in
    (i, get_elem?-append_some x.partitions (enumerate_partitions ds) i f2)
partition_place (x ∷ ds) (suc d) i e f =
    let (j, g) = partition_place ds d i e f in
    (length x.partitions + j, get_elem?-append_right x.partitions (enumerate_partitions ds) j ∙ g)

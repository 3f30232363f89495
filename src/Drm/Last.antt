-- ===== src/Drm/Last.antt =====
-- The hive of the last node that the constructor of `DRM` of src/drm/drm.cc reads.
use rocsift_glog_fork.Common.{
  Bool-cases, List, [], ap, arith, get_elem?, get_elem?-some, inl, inr, length, not, refl, set,
  some, subst, suc, sym, zero, ℕ, ◌+◌, ◌-◌, ◌<◌, ◌∙◌, ◌∷◌, ◌≡◌, ◌≤◌,
}
use rocsift_glog_fork.Common.Run.{Ensures, Ensures-bind, Ensures-if, done}
use rocsift_glog_fork.Drm.{DrmSysfsNode, classify, classify_all, create_node, list_drm, new_node}
use rocsift_glog_fork.Drm.Files.{FilePath, FileSystem, Name, iterate, to_set}
use rocsift_glog_fork.Drm.Find.{Ensures-done, find_peers-Ensures}
use rocsift_glog_fork.Drm.Hive.{
  create_nodes, directories, drm, find_peers, init_node, init_nodes, init_xgmi, join_hive,
  number_in, sort_peers, with_xgmi,
}
use rocsift_glog_fork.Drm.Order.{iterate-Ensures}
use rocsift_glog_fork.Drm.Sorted.{
  ByPhysicalId, ByPhysicalId-ids, get-set, get-set_other, ids-set, sort-ByPhysicalId,
}
use rocsift_glog_fork.Kfd.Properties.{codes}

-- The nodes from `i` on have no list yet.
abbrev Unread : List DrmSysfsNode → ℕ → Type 0
Unread ns i = (j : ℕ) (n : DrmSysfsNode) → i ≤ j → get_elem? ns j ≡ some n → n.xgmi.nodes ≡ []

-- The list of the node at `i` is in order.
abbrev pub InOrder : List DrmSysfsNode → ℕ → Type 0
InOrder ns i = (m : DrmSysfsNode) → get_elem? ns i ≡ some m → ByPhysicalId ns m.xgmi.nodes

record Read (i : ℕ) (ns ms : List DrmSysfsNode) : Type 0 where
  in_order : InOrder ms i
  unread : Unread ms (suc i)
  same_length : length ms ≡ length ns

length-set : (ns : List DrmSysfsNode) (i : ℕ) (m : DrmSysfsNode) → length (set ns i m) ≡ length ns
length-set [] i m = refl
length-set (x ∷ ns) zero m = refl
length-set (x ∷ ns) (suc i) m = ap suc (length-set ns i m)

Read-set :
    (ns : List DrmSysfsNode) (i : ℕ) (m : DrmSysfsNode)
    → Unread ns i
    → ByPhysicalId (set ns i m) m.xgmi.nodes
    → Read i ns (set ns i m)
Read-set ns i m u s = record {
  in_order = λ n e.
      subst (λ (x : DrmSysfsNode). ByPhysicalId (set ns i m) x.xgmi.nodes) (get-set ns i m n e) s;
  unread = λ j n l e. u j n (omega arith) (sym (get-set_other ns i j m l) ∙ e);
  same_length = length-set ns i m;
}

ByPhysicalId-none : (ns : List DrmSysfsNode) (ks : List ℕ) → ks ≡ [] → ByPhysicalId ns ks
ByPhysicalId-none ns ks e = subst (ByPhysicalId ns) (sym e) tt

join_hive-Read :
    (fs : FileSystem) (ns : List DrmSysfsNode) (i : ℕ) (n : DrmSysfsNode)
    → Unread ns i
    → Ensures (Read i ns) (join_hive fs ns i n)
unfolding join_hive
join_hive-Read fs ns i n u =
    let hive = codes "xgmi_hive_info" ∷ codes "device" ∷ n.path in
    let x = record n.xgmi { hive_id = number_in fs (codes "xgmi_hive_id" ∷ hive) } in
    let known = set ns i (with_xgmi n x) in
    Ensures-bind (λ _. Unit) (Read i ns) (iterate fs _) _ (iterate-Ensures fs _)
      λ names v.
        Ensures-bind (λ _. Unit) (Read i ns) (find_peers fs _ _ _ _) _
          (find_peers-Ensures fs known hive (to_set (directories fs hive names)) x.nodes)
          λ found w.
            let m = with_xgmi n (record x { nodes = sort_peers known found }) in
            Read-set ns i m u (
              ByPhysicalId-ids known (set ns i m) (sort_peers known found)
                (λ j. ids-set ns i m (with_xgmi n x) j refl) (sort-ByPhysicalId known found))

init_node-Read :
    (fs : FileSystem) (ns : List DrmSysfsNode) (i : ℕ) (n : DrmSysfsNode)
    → get_elem? ns i ≡ some n
    → Unread ns i
    → Ensures (Read i ns) (init_node fs ns i n)
unfolding init_node
init_node-Read fs ns i n e u =
    let device = codes "device" ∷ n.path in
    let x = record n.xgmi { device_id = number_in fs (codes "xgmi_device_id" ∷ device) } in
    let y = record x { physical_id = number_in fs (codes "xgmi_physical_id" ∷ device) } in
    let none_yet : n.xgmi.nodes ≡ [] = u i n (omega arith) e in
    let kept = Read-set ns i (with_xgmi n y) u (ByPhysicalId-none _ n.xgmi.nodes none_yet) in
    let untouched : Read i ns ns = record {
      in_order = λ m k. ByPhysicalId-none ns m.xgmi.nodes (u i m (omega arith) k);
      unread = λ j m l k. u j m (omega arith) k;
      same_length = refl;
    } in
    Ensures-if (Read i ns) (not (fs.exists _)) _ _ untouched (
      Ensures-if (Read i ns) (not (fs.exists _)) _ _
        (Read-set ns i (with_xgmi n x) u (ByPhysicalId-none _ n.xgmi.nodes none_yet))
        (Ensures-if (Read i ns) (not (fs.exists _)) _ _ kept (
          Ensures-if (Read i ns) (not (fs.is_directory _)) _ _ kept (
            Ensures-if (Read i ns) (not (fs.exists _)) _ _ kept
              (join_hive-Read fs ns i (with_xgmi n y) u)))))

init_xgmi-Read :
    (fs : FileSystem) (ns : List DrmSysfsNode) (i : ℕ)
    → i < length ns
    → Unread ns i
    → Ensures (Read i ns) (init_xgmi fs ns i)
unfolding init_xgmi
init_xgmi-Read fs ns i l u =
    let (n, e) = get_elem?-some ns i l in rw (init_xgmi, e) (init_node-Read fs ns i n e u)

-- In order at the last place.
abbrev LastInOrder : List DrmSysfsNode → Type 0
LastInOrder ns =
    (m : DrmSysfsNode) → get_elem? ns (length ns - 1) ≡ some m → ByPhysicalId ns m.xgmi.nodes

init_nodes-LastInOrder :
    (fs : FileSystem) (k i : ℕ) (ns : List DrmSysfsNode)
    → i + suc k ≡ length ns
    → Unread ns i
    → Ensures LastInOrder (init_nodes fs (suc k) i ns)
unfolding init_nodes
init_nodes-LastInOrder fs zero i ns l u =
    Ensures-bind (Read i ns) LastInOrder (init_xgmi fs ns i) _
      (init_xgmi-Read fs ns i (omega arith) u)
      λ ms r m e. r.in_order m (ap (get_elem? ms) (omega (arith, r.same_length)) ∙ e)
init_nodes-LastInOrder fs (suc k) i ns l u =
    Ensures-bind (Read i ns) LastInOrder (init_xgmi fs ns i) _
      (init_xgmi-Read fs ns i (omega arith) u)
      λ ms r. init_nodes-LastInOrder fs k (suc i) ms (omega (arith, r.same_length)) r.unread

classify-xgmi :
    (fs : FileSystem) (dir : FilePath) (m : Name) (n : DrmSysfsNode)
    → (classify fs dir m n).xgmi.nodes ≡ n.xgmi.nodes
unfolding classify
classify-xgmi fs dir m n = ground arith

classify_all-xgmi :
    (fs : FileSystem) (dir : FilePath) (names : List Name) (n : DrmSysfsNode)
    → (classify_all fs dir names n).xgmi.nodes ≡ n.xgmi.nodes
unfolding classify_all
classify_all-xgmi fs dir [] n = refl
classify_all-xgmi fs dir (m ∷ ms) n =
    classify_all-xgmi fs dir ms (classify fs dir m n) ∙ classify-xgmi fs dir m n

abbrev NoPeers : DrmSysfsNode → Type 0
NoPeers n = n.xgmi.nodes ≡ []

list_drm-NoPeers :
    (fs : FileSystem) (dir path : FilePath) → Ensures NoPeers (list_drm fs dir (new_node path))
list_drm-NoPeers fs dir path =
    Ensures-bind (λ _. Unit) NoPeers (iterate fs dir) _ (iterate-Ensures fs dir)
      λ names u. classify_all-xgmi fs dir names (new_node path)

create_node-NoPeers : (fs : FileSystem) (path : FilePath) → Ensures NoPeers (create_node fs path)
unfolding create_node
create_node-NoPeers fs path =
    Ensures-if NoPeers (fs.is_directory _) _ _ (list_drm-NoPeers fs _ path)
      (Ensures-if NoPeers (fs.is_directory _) _ _ (list_drm-NoPeers fs _ path) refl)

Unread-cons :
    (m : DrmSysfsNode) (ns : List DrmSysfsNode) → NoPeers m → Unread ns 0 → Unread (m ∷ ns) 0
Unread-cons m ns e u zero n l k =
    let same : m ≡ n = cc in subst (λ (x : DrmSysfsNode). x.xgmi.nodes ≡ []) same e
Unread-cons m ns e u (suc j) n l k = u j n (omega arith) k

create_nodes-Unread :
    (fs : FileSystem) (root : FilePath) (names : List Name)
    → Ensures (λ (ns : List DrmSysfsNode). Unread ns 0) (create_nodes fs root names)
unfolding create_nodes
create_nodes-Unread fs root [] = λ j n l e. absurd cc
create_nodes-Unread fs root (n ∷ ns) = elim (Bool-cases (fs.is_directory (n ∷ root))) [
  | inl t ↦
      rw (create_nodes, t)
        (Ensures-bind NoPeers (λ (ms : List DrmSysfsNode). Unread ms 0) (create_node fs (n ∷ root))
          _ (create_node-NoPeers fs (n ∷ root))
          λ m e.
            Ensures-bind (λ (ms : List DrmSysfsNode). Unread ms 0)
              (λ (ms : List DrmSysfsNode). Unread ms 0) (create_nodes fs root ns) _
              (create_nodes-Unread fs root ns) λ ms u. Unread-cons m ms e u)
  | inr f ↦ rw (create_nodes, f) (create_nodes-Unread fs root ns)
]

init_all :
    (fs : FileSystem) (ns : List DrmSysfsNode)
    → Unread ns 0
    → Ensures LastInOrder (init_nodes fs (length ns) 0 ns)
unfolding init_nodes
init_all fs [] u = λ m e. absurd cc
init_all fs (n ∷ ns) u = init_nodes-LastInOrder fs (length ns) 0 (n ∷ ns) (omega arith) u

drm-LastInOrder : (fs : FileSystem) (root : FilePath) → Ensures LastInOrder (drm fs root)
unfolding drm
drm-LastInOrder fs root =
    Ensures-bind (λ _. Unit) LastInOrder (iterate fs root) _ (iterate-Ensures fs root)
      λ names u.
        Ensures-bind (λ (ns : List DrmSysfsNode). Unread ns 0) LastInOrder
          (create_nodes fs root (to_set names)) _ (create_nodes-Unread fs root (to_set names))
          λ ns r. init_all fs ns r

-- Where the constructor of `DRM` returns, the hive list of the last node stands in the order of
-- `physical_id`.
pub drm-ByPhysicalId :
    (fs : FileSystem) (root : FilePath) (ns : List DrmSysfsNode) (m : DrmSysfsNode)
    → drm fs root ≡ done ns
    → get_elem? ns (length ns - 1) ≡ some m
    → ByPhysicalId ns m.xgmi.nodes
drm-ByPhysicalId fs root ns m e h =
    Ensures-done LastInOrder (drm fs root) (drm-LastInOrder fs root) e m h

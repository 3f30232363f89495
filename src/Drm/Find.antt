-- ===== src/Drm/Find.antt =====
-- `DRM::DRM` of src/drm/drm.cc as a whole: what the reading of the hives leaves as it is.
use rocsift_glog_fork.Common.{
  List, Option-cases, [], ap, arith, get_elem?, get_elem?-some, inl, inr, length, length-map, not,
  refl, set, some, subst, suc, sym, zero, ℕ, ◌++◌, ◌+◌, ◌<◌, ◌∙◌, ◌∷◌, ◌≡◌, ◌≤◌,
}
use rocsift_glog_fork.Common.Run.{Ensures, Ensures-bind, Ensures-if, Run, done, fault, spin, throw}
use rocsift_glog_fork.Drm.{DrmSysfsNode, name_of, node_by_name}
use rocsift_glog_fork.Drm.Files.{FilePath, FileSystem, Name, filename, iterate, to_set}
use rocsift_glog_fork.Drm.Hive.{
  create_nodes, directories, drm, find_peers, first_peer, init_node, init_nodes, init_xgmi,
  join_hive, number_in, with_xgmi,
}
use rocsift_glog_fork.Drm.Order.{
  Ascending, create_nodes-names, directories-Ascending, find-Ascending, iterate-Ensures, names_of,
  to_set-Ascending,
}
use rocsift_glog_fork.Kfd.Properties.{codes}

names-set :
    (ns : List DrmSysfsNode) (i : ℕ) (n m : DrmSysfsNode)
    → get_elem? ns i ≡ some n
    → m.path ≡ n.path
    → names_of (set ns i m) ≡ names_of ns
names-set [] i n m e p = refl
names-set (x ∷ ns) zero n m e p =
    let same : x ≡ n = cc in
    ap (λ q. filename q ∷ names_of ns) (p ∙ ap (λ (y : DrmSysfsNode). y.path) (sym same))
names-set (x ∷ ns) (suc i) n m e p = ap (λ l. name_of x ∷ l) (names-set ns i n m e p)

abbrev SameNames : List DrmSysfsNode → List DrmSysfsNode → Type 0
SameNames ns ms = names_of ms ≡ names_of ns

-- A loop that throws, or returns.
pub find_peers-Ensures :
    (fs : FileSystem) (nodes : List DrmSysfsNode) (hive : FilePath) (names : List Name)
    (found : List ℕ)
    → Ensures (λ _. Unit) (find_peers fs nodes hive names found)
unfolding find_peers
find_peers-Ensures fs nodes hive [] found = tt
find_peers-Ensures fs nodes hive (n ∷ ns) found =
    Ensures-bind (λ _. Unit) _ (iterate fs _) _ (iterate-Ensures fs _)
      λ names u. elim (Option-cases (first_peer fs nodes (codes "drm" ∷ n ∷ hive) names)) [
        | inl e ↦ rw e tt
        | inr e ↦ rw (e.1) (find_peers-Ensures fs nodes hive ns (found ++ (e.0 ∷ [])))
      ]

join_hive-names :
    (fs : FileSystem) (ns : List DrmSysfsNode) (i : ℕ) (n m : DrmSysfsNode)
    → get_elem? ns i ≡ some n
    → m.path ≡ n.path
    → Ensures (SameNames ns) (join_hive fs ns i m)
unfolding join_hive
join_hive-names fs ns i n m e p =
    Ensures-bind (λ _. Unit) _ (iterate fs _) _ (iterate-Ensures fs _)
      λ names u.
        Ensures-bind (λ _. Unit) _ (find_peers fs _ _ _ _) _ (find_peers-Ensures fs _ _ _ _)
          λ found v. names-set ns i n _ e p

init_node-names :
    (fs : FileSystem) (ns : List DrmSysfsNode) (i : ℕ) (n : DrmSysfsNode)
    → get_elem? ns i ≡ some n
    → Ensures (SameNames ns) (init_node fs ns i n)
unfolding init_node
init_node-names fs ns i n e =
    let device = codes "device" ∷ n.path in
    let x = record n.xgmi { device_id = number_in fs (codes "xgmi_device_id" ∷ device) } in
    let y = record x { physical_id = number_in fs (codes "xgmi_physical_id" ∷ device) } in
    let kept = names-set ns i n (with_xgmi n y) e refl in
    Ensures-if (SameNames ns) (not (fs.exists _)) _ _ refl (
      Ensures-if (SameNames ns) (not (fs.exists _)) _ _ (names-set ns i n (with_xgmi n x) e refl) (
        Ensures-if (SameNames ns) (not (fs.exists _)) _ _ kept (
          Ensures-if (SameNames ns) (not (fs.is_directory _)) _ _ kept (
            Ensures-if (SameNames ns) (not (fs.exists _)) _ _ kept
              (join_hive-names fs ns i n (with_xgmi n y) e refl)))))

init_xgmi-names :
    (fs : FileSystem) (ns : List DrmSysfsNode) (i : ℕ)
    → i < length ns
    → Ensures (SameNames ns) (init_xgmi fs ns i)
unfolding init_xgmi
init_xgmi-names fs ns i l =
    let (n, e) = get_elem?-some ns i l in rw (init_xgmi, e) (init_node-names fs ns i n e)

Ensures-weaken {ℓ} :
    {A : Type ℓ} (P Q : A → Type 0) (m : Run A) → ((a : A) → P a → Q a) → Ensures P m → Ensures Q m
Ensures-weaken P Q (done a) f h = f a h
Ensures-weaken P Q (throw e) f h = tt
Ensures-weaken P Q fault f h = absurd h
Ensures-weaken P Q spin f h = absurd h

init_nodes-names :
    (fs : FileSystem) (k i : ℕ) (ns : List DrmSysfsNode)
    → i + k ≤ length ns
    → Ensures (SameNames ns) (init_nodes fs k i ns)
unfolding init_nodes
init_nodes-names fs zero i ns l = refl
init_nodes-names fs (suc k) i ns l =
    Ensures-bind (SameNames ns) _ (init_xgmi fs ns i) _ (init_xgmi-names fs ns i (omega arith))
      λ ms e.
        Ensures-weaken (SameNames ms) (SameNames ns) (init_nodes fs k (suc i) ms) (λ ls d. d ∙ e)
          (init_nodes-names fs k (suc i) ms
            (omega (arith, ap length e, length-map ms name_of, length-map ns name_of)))

-- Nodes of a list by their names.
abbrev FindsAll : List DrmSysfsNode → Type 0
FindsAll ns =
    (k : ℕ) (n : DrmSysfsNode) → get_elem? ns k ≡ some n → node_by_name ns (name_of n) ≡ some k

pub Ensures-done {ℓ} :
    {A : Type ℓ} (P : A → Type 0) (m : Run A) {a : A} → Ensures P m → m ≡ done a → P a
Ensures-done P m h e = subst (Ensures P) e h

drm-FindsAll : (fs : FileSystem) (root : FilePath) → Ensures FindsAll (drm fs root)
unfolding drm
drm-FindsAll fs root =
    Ensures-bind (λ _. Unit) FindsAll (iterate fs root) _ (iterate-Ensures fs root)
      λ names u.
        Ensures-bind (λ (ns : List DrmSysfsNode). names_of ns ≡ directories fs root (to_set names))
          FindsAll (create_nodes fs root (to_set names)) _
          (create_nodes-names fs root (to_set names))
          λ ns e.
            Ensures-weaken (SameNames ns) FindsAll (init_nodes fs (length ns) 0 ns)
              (λ ms d k n h.
                find-Ascending ms k n
                  (subst Ascending (sym (d ∙ e))
                    (directories-Ascending fs root (to_set names) (to_set-Ascending names)))
                  h)
              (init_nodes-names fs (length ns) 0 ns (omega arith))

-- `NodeByName` finds each node that the constructor of `DRM` has made under the node's own name.
pub drm-node_by_name :
    (fs : FileSystem) (root : FilePath) (ns : List DrmSysfsNode) (k : ℕ) (n : DrmSysfsNode)
    → drm fs root ≡ done ns
    → get_elem? ns k ≡ some n
    → node_by_name ns (name_of n) ≡ some k
drm-node_by_name fs root ns k n e h =
    Ensures-done FindsAll (drm fs root) (drm-FindsAll fs root) e k n h

-- ===== src/Drm/Order.antt =====
-- The order of the nodes that `DRM::DRM` of src/drm/drm.cc makes, and `DRM::NodeByName` on them.
use rocsift_glog_fork.Common.{
  ==_self, Bool-cases, List, Option-cases, [], ap, arith, false, get_elem?, inl, inr, map, refl,
  some, subst, suc, true, zero, ℕ, ◌∙◌, ◌∷◌, ◌≡◌,
}
use rocsift_glog_fork.Common.Run.{Ensures, Ensures-bind, Ensures-if}
use rocsift_glog_fork.Drm.{
  DrmSysfsNode, classify, classify_all, create_node, list_drm, name_of, new_node, node_by_name,
}
use rocsift_glog_fork.Drm.Files.{
  FilePath, FileSystem, Name, filename, insert_name, is_name, iterate, path_less, to_set,
}
use rocsift_glog_fork.Drm.Hive.{create_nodes, directories}

is_name_self : (n : Name) → is_name n n ≡ true
is_name_self [] = refl
is_name_self (c ∷ cs) = rw (==_self c, is_name_self cs)

path_less-differs : (m n : Name) → path_less m n ≡ true → is_name m n ≡ false
path_less-differs cs [] h = absurd cc
path_less-differs [] (d ∷ ds) h = refl
path_less-differs (c ∷ cs) (d ∷ ds) h = ground (arith, path_less-differs cs ds)

path_less_trans :
    (l m n : Name) → path_less l m ≡ true → path_less m n ≡ true → path_less l n ≡ true
path_less_trans l m [] h k = absurd cc
path_less_trans l [] (d ∷ ds) h k = absurd cc
path_less_trans [] (c ∷ cs) (d ∷ ds) h k = refl
path_less_trans (b ∷ bs) (c ∷ cs) (d ∷ ds) h k = ground (arith, path_less_trans bs cs ds)

abbrev AllBefore : Name → List Name → Type 0
AllBefore n [] = Unit
AllBefore n (m ∷ ms) = (path_less n m ≡ true) × AllBefore n ms

-- Each name stands before all that follow it.
abbrev pub Ascending : List Name → Type 0
Ascending [] = Unit
Ascending (n ∷ ns) = AllBefore n ns × Ascending ns

AllBefore-trans :
    (n m : Name) (ms : List Name) → path_less n m ≡ true → AllBefore m ms → AllBefore n ms
AllBefore-trans n m [] h a = tt
AllBefore-trans n m (k ∷ ks) h a = (path_less_trans n m k h a.0, AllBefore-trans n m ks h a.1)

insert-AllBefore :
    (k n : Name) (ms : List Name)
    → path_less k n ≡ true
    → AllBefore k ms
    → AllBefore k (insert_name n ms)
unfolding insert_name
insert-AllBefore k n [] h a = (h, tt)
insert-AllBefore k n (m ∷ ms) h a = elim (Bool-cases (path_less n m)) [
  | inl t ↦ rw (insert_name, t) (h, a)
  | inr f ↦ elim (Bool-cases (path_less m n)) [
    | inl t ↦ rw (insert_name, f, t) (a.0, insert-AllBefore k n ms h a.1)
    | inr g ↦ rw (insert_name, f, g) a
  ]
]

insert-Ascending : (n : Name) (ms : List Name) → Ascending ms → Ascending (insert_name n ms)
unfolding insert_name
insert-Ascending n [] a = (tt, tt)
insert-Ascending n (m ∷ ms) a = elim (Bool-cases (path_less n m)) [
  | inl t ↦ rw (insert_name, t) ((t, AllBefore-trans n m ms t a.0), a)
  | inr f ↦ elim (Bool-cases (path_less m n)) [
    | inl t ↦ rw (insert_name, f, t) (insert-AllBefore m n ms t a.0, insert-Ascending n ms a.1)
    | inr g ↦ rw (insert_name, f, g) a
  ]
]

pub to_set-Ascending : (ns : List Name) → Ascending (to_set ns)
unfolding to_set
to_set-Ascending [] = tt
to_set-Ascending (n ∷ ns) = insert-Ascending n (to_set ns) (to_set-Ascending ns)

abbrev pub names_of : List DrmSysfsNode → List Name
names_of ns = map name_of ns

path_less_elem :
    (m : Name) (ns : List DrmSysfsNode) (k : ℕ) (n : DrmSysfsNode)
    → AllBefore m (names_of ns)
    → get_elem? ns k ≡ some n
    → path_less m (name_of n) ≡ true
path_less_elem m [] k n a e = absurd cc
path_less_elem m (x ∷ ns) zero n a e =
    let same : x ≡ n = cc in subst (λ y. path_less m (name_of y) ≡ true) same a.0
path_less_elem m (x ∷ ns) (suc k) n a e = path_less_elem m ns k n a.1 e

-- In ascending order every node is found under its own name.
pub find-Ascending :
    (ns : List DrmSysfsNode) (k : ℕ) (n : DrmSysfsNode)
    → Ascending (names_of ns)
    → get_elem? ns k ≡ some n
    → node_by_name ns (name_of n) ≡ some k
unfolding node_by_name
find-Ascending [] k n a e = absurd cc
find-Ascending (m ∷ ns) zero n a e =
    let same : m ≡ n = cc in
    subst (λ x. node_by_name (m ∷ ns) (name_of x) ≡ some 0) same
      (rw (node_by_name, is_name_self (name_of m)) refl)
find-Ascending (m ∷ ns) (suc k) n a e =
    rw
      (
        node_by_name,
        path_less-differs (name_of m) (name_of n) (path_less_elem (name_of m) ns k n a.0 e),
        find-Ascending ns k n a.1 e,
      )
      refl

classify-path :
    (fs : FileSystem) (dir : FilePath) (m : Name) (n : DrmSysfsNode)
    → (classify fs dir m n).path ≡ n.path
unfolding classify
classify-path fs dir m n = ground arith

classify_all-path :
    (fs : FileSystem) (dir : FilePath) (names : List Name) (n : DrmSysfsNode)
    → (classify_all fs dir names n).path ≡ n.path
unfolding classify_all
classify_all-path fs dir [] n = refl
classify_all-path fs dir (m ∷ ms) n =
    classify_all-path fs dir ms (classify fs dir m n) ∙ classify-path fs dir m n

pub iterate-Ensures : (fs : FileSystem) (dir : FilePath) → Ensures (λ _. Unit) (iterate fs dir)
unfolding iterate
iterate-Ensures fs dir = elim (Option-cases (fs.entries dir)) [
  | inl e ↦ rw (iterate, e) tt
  | inr e ↦ rw (iterate, e.1) tt
]

list_drm-path :
    (fs : FileSystem) (dir : FilePath) (n : DrmSysfsNode)
    → Ensures (λ (m : DrmSysfsNode). m.path ≡ n.path) (list_drm fs dir n)
list_drm-path fs dir n =
    Ensures-bind (λ _. Unit) _ (iterate fs dir) _ (iterate-Ensures fs dir)
      λ names u. classify_all-path fs dir names n

create_node-path :
    (fs : FileSystem) (path : FilePath)
    → Ensures (λ (n : DrmSysfsNode). n.path ≡ path) (create_node fs path)
unfolding create_node
create_node-path fs path =
    Ensures-if _ (fs.is_directory _) _ _ (list_drm-path fs _ (new_node path))
      (Ensures-if _ (fs.is_directory _) _ _ (list_drm-path fs _ (new_node path)) refl)

pub create_nodes-names :
    (fs : FileSystem) (root : FilePath) (names : List Name)
    → Ensures
        (λ (ns : List DrmSysfsNode). names_of ns ≡ directories fs root names)
        (create_nodes fs root names)
unfolding create_nodes
create_nodes-names fs root [] = refl
create_nodes-names fs root (n ∷ ns) = elim (Bool-cases (fs.is_directory (n ∷ root))) [
  | inl t ↦
      rw (create_nodes, t)
        (Ensures-bind (λ (m : DrmSysfsNode). m.path ≡ n ∷ root) _ (create_node fs (n ∷ root)) _
          (create_node-path fs (n ∷ root))
          λ m e.
            Ensures-bind (λ (ms : List DrmSysfsNode). names_of ms ≡ directories fs root ns) _
              (create_nodes fs root ns) _ (create_nodes-names fs root ns)
              λ ms k. ap (λ p. filename p ∷ names_of ms) e ∙ ap (λ l. n ∷ l) k)
  | inr f ↦ rw (create_nodes, f) (create_nodes-names fs root ns)
]

directories-AllBefore :
    (fs : FileSystem) (dir : FilePath) (n : Name) (ns : List Name)
    → AllBefore n ns
    → AllBefore n (directories fs dir ns)
directories-AllBefore fs dir n [] a = tt
directories-AllBefore fs dir n (m ∷ ms) a =
    let rest = directories-AllBefore fs dir n ms a.1 in
    elim (Bool-cases (fs.is_directory (m ∷ dir))) [ inl t ↦ rw t (a.0, rest) | inr f ↦ rw f rest ]

pub directories-Ascending :
    (fs : FileSystem) (dir : FilePath) (ns : List Name)
    → Ascending ns
    → Ascending (directories fs dir ns)
directories-Ascending fs dir [] a = tt
directories-Ascending fs dir (m ∷ ms) a =
    let rest = directories-Ascending fs dir ms a.1 in
    elim (Bool-cases (fs.is_directory (m ∷ dir))) [
      | inl t ↦ rw t (directories-AllBefore fs dir m ms a.0, rest)
      | inr f ↦ rw f rest
    ]

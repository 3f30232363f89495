-- ===== src/Drm/Hive.antt =====
-- The hive of a DRM node, `DRMNode::InitXGMIInfo` of src/drm/drm.cc, and the constructor of `DRM`.
use rocsift_glog_fork.Common.{
  List, Option, [], get_elem?, if◌then◌else◌, length, ltb, none, not, set, some, suc, zero, ℕ, ◌&&◌,
  ◌++◌, ◌∷◌,
}
use rocsift_glog_fork.Common.Run.{Run, done, or_fault, ◌>>=◌}
use rocsift_glog_fork.Drm.{
  DrmSysfsNode, XgmiInfo, begins, card, create_node, node_by_name, strtoull,
}
use rocsift_glog_fork.Drm.Files.{FilePath, FileSystem, Name, iterate, to_set}
use rocsift_glog_fork.Kfd.Properties.{codes}

-- The number at the front of a file.
abbrev pub number_in : FileSystem → FilePath → ℕ
number_in fs path = strtoull (fs.contents path)

abbrev pub directories : FileSystem → FilePath → List Name → List Name
directories fs dir [] = []
directories fs dir (n ∷ ns) =
    let rest = directories fs dir ns in if fs.is_directory (n ∷ dir) then n ∷ rest else rest

-- The loop over the entries of a directory `drm` of the hive, which ends at a node that is known.
unfoldable pub first_peer : FileSystem → List DrmSysfsNode → FilePath → List Name → Option ℕ
first_peer fs nodes dir [] = none
first_peer fs nodes dir (n ∷ ns) =
    let later = first_peer fs nodes dir ns in
    if fs.is_directory (n ∷ dir) && begins card n
    then (elim (node_by_name nodes n) [ none ↦ later | some k ↦ some k ])
    else later

-- The loop over the directories of the hive.
unfoldable pub find_peers :
    FileSystem → List DrmSysfsNode → FilePath → List Name → List ℕ → Run (List ℕ)
find_peers fs nodes hive [] found = done found
find_peers fs nodes hive (n ∷ ns) found =
    let drm = codes "drm" ∷ n ∷ hive in
    let later = λ (k : ℕ). find_peers fs nodes hive ns (found ++ (k ∷ [])) in
    do
      names ← iterate fs drm
      elim (first_peer fs nodes drm names) [ none ↦ done [] | some k ↦ later k ]

-- `physical_id` of the node behind a pointer.
abbrev pub physical_id_at : List DrmSysfsNode → ℕ → ℕ
physical_id_at [] k = 0
physical_id_at (n ∷ ns) zero = n.xgmi.physical_id
physical_id_at (n ∷ ns) (suc k) = physical_id_at ns k

-- `std::sort` by `physical_id`; nodes with the same one stay in their order, which it leaves open.
unfoldable pub insert_peer : List DrmSysfsNode → ℕ → List ℕ → List ℕ
insert_peer nodes k [] = k ∷ []
insert_peer nodes k (j ∷ js) =
    let later = insert_peer nodes k js in
    if ltb (physical_id_at nodes j) (physical_id_at nodes k) then j ∷ later else k ∷ j ∷ js

unfoldable pub sort_peers : List DrmSysfsNode → List ℕ → List ℕ
sort_peers nodes [] = []
sort_peers nodes (k ∷ ks) = insert_peer nodes k (sort_peers nodes ks)

abbrev pub with_xgmi : DrmSysfsNode → XgmiInfo → DrmSysfsNode
with_xgmi n x = record n { xgmi = x }

-- From the reading of `xgmi_hive_id` on. The nodes that are sorted have the new numbers.
unfoldable pub join_hive :
    FileSystem → List DrmSysfsNode → ℕ → DrmSysfsNode → Run (List DrmSysfsNode)
join_hive fs nodes i n =
    let hive = codes "xgmi_hive_info" ∷ codes "device" ∷ n.path in
    let x = record n.xgmi { hive_id = number_in fs (codes "xgmi_hive_id" ∷ hive) } in
    let known = set nodes i (with_xgmi n x) in
    do
      names ← iterate fs hive
      found ← find_peers fs known hive (to_set (directories fs hive names)) x.nodes
      done (set nodes i (with_xgmi n (record x { nodes = sort_peers known found })))

-- `DRMNode::InitXGMIInfo` of the node `n` at `i`.
unfoldable pub init_node :
    FileSystem → List DrmSysfsNode → ℕ → DrmSysfsNode → Run (List DrmSysfsNode)
init_node fs nodes i n =
    let device = codes "device" ∷ n.path in
    let hive = codes "xgmi_hive_info" ∷ device in
    let x = record n.xgmi { device_id = number_in fs (codes "xgmi_device_id" ∷ device) } in
    let y = record x { physical_id = number_in fs (codes "xgmi_physical_id" ∷ device) } in
    if not (fs.exists (codes "xgmi_device_id" ∷ device))
    then done nodes
    else if not (fs.exists (codes "xgmi_physical_id" ∷ device))
    then done (set nodes i (with_xgmi n x))
    else if not (fs.exists hive)
    then done (set nodes i (with_xgmi n y))
    else if not (fs.is_directory hive)
    then done (set nodes i (with_xgmi n y))
    else if not (fs.exists (codes "xgmi_hive_id" ∷ hive))
    then done (set nodes i (with_xgmi n y))
    else join_hive fs nodes i (with_xgmi n y)

unfoldable pub init_xgmi : FileSystem → List DrmSysfsNode → ℕ → Run (List DrmSysfsNode)
init_xgmi fs nodes i = or_fault (get_elem? nodes i) >>= init_node fs nodes i

-- The loops of the constructor of `DRM`. The names of the nodes are looked up among those that it
-- has made, as where the list is built in its place.
unfoldable pub create_nodes : FileSystem → FilePath → List Name → Run (List DrmSysfsNode)
create_nodes fs root [] = done []
create_nodes fs root (n ∷ ns) =
    let later = create_nodes fs root ns in
    if fs.is_directory (n ∷ root)
    then (do node ← create_node fs (n ∷ root); nodes ← later; done (node ∷ nodes))
    else later

unfoldable pub init_nodes : FileSystem → ℕ → ℕ → List DrmSysfsNode → Run (List DrmSysfsNode)
init_nodes fs zero i nodes = done nodes
init_nodes fs (suc n) i nodes = init_xgmi fs nodes i >>= init_nodes fs n (suc i)

-- `DRM::DRM`
unfoldable pub drm : FileSystem → FilePath → Run (List DrmSysfsNode)
drm fs root = do
  names ← iterate fs root
  nodes ← create_nodes fs root (to_set names)
  init_nodes fs (length nodes) 0 nodes

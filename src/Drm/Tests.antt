-- ===== src/Drm/Tests.antt =====
-- The theorems on a small tree of DRM nodes.
use rocsift_glog_fork.Common.{
  List, [], get_elem?, if◌then◌else◌, length, none, refl, some, suc, true, zero, ℕ, ◌-◌, ◌∷◌, ◌≡◌,
}
use rocsift_glog_fork.Common.Run.{Run, done, fault, spin, throw}
use rocsift_glog_fork.Drm.{
  DrmSysfsNode, classify, classify_all, create_node, name_of, new_node, node_by_name, strtoull,
}
use rocsift_glog_fork.Drm.Files.{
  FilePath, FileSystem, Name, filename, insert_name, is_name, iterate, to_set,
}
use rocsift_glog_fork.Drm.Find.{drm-node_by_name}
use rocsift_glog_fork.Drm.Hive.{
  create_nodes, drm, find_peers, first_peer, init_node, init_nodes, init_xgmi, insert_peer,
  join_hive, sort_peers,
}
use rocsift_glog_fork.Drm.Last.{drm-ByPhysicalId}
use rocsift_glog_fork.Drm.Paths.{classify_all-picks}
use rocsift_glog_fork.Drm.Sorted.{ByPhysicalId}
use rocsift_glog_fork.Kfd.Properties.{codes, strtoul}
use rocsift_glog_fork.Pm4.Line.{
  digit_value, drop_spaces, is_digit, is_space, number_from, span_while,
}

abbrev card0 : Name
card0 = codes "card0"

abbrev card1 : Name
card1 = codes "card1"

abbrev root : FilePath
root = codes "drm_root" ∷ []

abbrev nth_name : List Name → ℕ → Name
nth_name [] i = []
nth_name (n ∷ ns) zero = n
nth_name (n ∷ ns) (suc i) = nth_name ns i

-- Two nodes in a hive, with the numbers 1 and 2.
abbrev two_nodes : FileSystem
two_nodes = record {
  exists = λ p. true;
  is_directory = λ p. true;
  entries = λ p.
      if is_name (filename p) (codes "drm_root")
      then some (card1 ∷ card0 ∷ [])
      else if is_name (filename p) (codes "xgmi_hive_info")
      then some (codes "node1" ∷ codes "node2" ∷ [])
      else if is_name (nth_name p 1) (codes "node1")
      then some (card0 ∷ [])
      else if is_name (nth_name p 1) (codes "node2")
      then some (card1 ∷ [])
      else some (codes "card0" ∷ codes "renderD128" ∷ codes "version" ∷ []);
  contents = λ p. if is_name (nth_name p 2) card0 then b'1' ∷ [] else b'2' ∷ [];
}

abbrev returned : Run (List DrmSysfsNode) → List DrmSysfsNode
returned (done ns) = ns
returned (throw e) = []
returned fault = []
returned spin = []

abbrev node_at : ℕ → DrmSysfsNode
node_at k = elim (get_elem? (returned (drm two_nodes root)) k) [ none ↦ new_node [] | some n ↦ n ]

returns_nodes : drm two_nodes root ≡ done (returned (drm two_nodes root))
unfolding drm create_nodes create_node classify classify_all iterate to_set insert_name init_nodes
    init_xgmi init_node join_hive find_peers first_peer node_by_name sort_peers insert_peer strtoull
    strtoul
returns_nodes = refl

second_node : get_elem? (returned (drm two_nodes root)) 1 ≡ some (node_at 1)
unfolding drm create_nodes create_node classify classify_all iterate to_set insert_name init_nodes
    init_xgmi init_node join_hive find_peers first_peer node_by_name sort_peers insert_peer strtoull
    strtoul
second_node = refl

last_node :
    get_elem? (returned (drm two_nodes root)) (length (returned (drm two_nodes root)) - 1)
    ≡ some (node_at 1)
unfolding drm create_nodes create_node classify classify_all iterate to_set insert_name init_nodes
    init_xgmi init_node join_hive find_peers first_peer node_by_name sort_peers insert_peer strtoull
    strtoul
last_node = refl

find_example : node_by_name (returned (drm two_nodes root)) (name_of (node_at 1)) ≡ some 1
find_example =
    drm-node_by_name two_nodes root (returned (drm two_nodes root)) 1 (node_at 1) returns_nodes
      second_node

last_hive_example : ByPhysicalId (returned (drm two_nodes root)) (node_at 1).xgmi.nodes
last_hive_example =
    drm-ByPhysicalId two_nodes root (returned (drm two_nodes root)) (node_at 1) returns_nodes
      last_node

-- The list of the first node is sorted before the number of the second is read.
first_hive : (node_at 0).xgmi.nodes ≡ 1 ∷ 0 ∷ []
unfolding drm create_nodes create_node classify classify_all iterate to_set insert_name init_nodes
    init_xgmi init_node join_hive find_peers first_peer node_by_name sort_peers insert_peer strtoull
    strtoul drop_spaces is_space number_from span_while is_digit digit_value
first_hive = refl

abbrev entries_in : List Name
entries_in = codes "version" ∷ codes "renderD128" ∷ card0 ∷ []

abbrev picked : DrmSysfsNode
picked = classify_all two_nodes root entries_in (new_node root)

picks_example :
    (picked.card_path ≡ card0 ∷ root)
    × (picked.render_path ≡ codes "renderD128" ∷ root)
    × (picked.control_path ≡ codes "version" ∷ root)
picks_example = classify_all-picks two_nodes root root entries_in

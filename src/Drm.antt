-- ===== src/Drm.antt =====
-- src/drm/drm.cc and drm.h: the DRM nodes of /sys/class/drm with what they know of their XGMI hive.
-- A pointer to a node is its place in the list of nodes.
pub mod Files
pub mod Hive
pub mod Sorted
pub mod Last
pub mod Paths
pub mod Order
mod Tests
pub mod Find
use rocsift_glog_fork.Common.{
  ==_differ, ==_self, Bool, Bool-cases, List, Option, Option-cases, [], ap, append-nil,
  append_assoc, arith, drop, false, get_elem?, if◌then◌else◌, inl, inr, leb, length, length-append,
  le→ltb, ltb, ltb→lt, lt→ltb, map, none, not, refl, some, subst, suc, sym, take, true, zero, ℕ,
  ◌%◌, ◌&&◌, ◌*◌, ◌++◌, ◌+◌, ◌-◌, ◌/◌, ◌<◌, ◌==◌, ◌^◌, ◌||◌, ◌∙◌, ◌∷◌, ◌≡◌, ◌≢◌, ◌≤◌, ◌⊎◌,
}
use rocsift_glog_fork.Common.Run.{
  IsSafe, Returns, Run, code_bug, done, fault, not_privileged, or_fault, out_of_range, spin,
  status_error, std_exception, throw, try_catch, ◌>>=◌,
}
use rocsift_glog_fork.Common.Words.{u64}
use rocsift_glog_fork.Drm.Files.{FilePath, FileSystem, Name, filename, is_name, iterate}
use rocsift_glog_fork.Kfd.Properties.{codes, strtoul}
use rocsift_glog_fork.Pm4.Line.{drop_spaces, is_digit, number_from, span_while}

-- A minus wraps around, but for a number that does not fit.
abbrev negated : ℕ → ℕ
negated n = if ltb n (2 ^ 64) then u64 (2 ^ 64 - n) else 2 ^ 64 - 1

-- `std::strtoull` in base 10.
unfoldable pub strtoull : List ℕ → ℕ
strtoull cs = elim (drop_spaces cs) [
  | [] ↦ 0
  | d ∷ ds ↦
      if d == b'-'
      then negated (number_from 10 0 (span_while is_digit ds).0)
      else if d == b'+'
      then strtoul ds
      else strtoul (d ∷ ds)
]

pub record XgmiInfo : Type 0 where
  pub hive_id : ℕ
  pub device_id : ℕ
  pub physical_id : ℕ
  pub nodes : List ℕ

pub record DrmSysfsNode : Type 0 where
  pub path : FilePath
  pub xgmi : XgmiInfo
  pub card_path : FilePath
  pub render_path : FilePath
  pub control_path : FilePath

-- `path::empty`
abbrev pub is_no_path : FilePath → Bool
is_no_path [] = true
is_no_path (n ∷ p) = false

-- `std::mismatch` with a prefix; the NUL behind the name ends the comparison.
abbrev pub begins : Name → Name → Bool
begins [] name = true
begins (c ∷ cs) [] = false
begins (c ∷ cs) (d ∷ ds) = c == d && begins cs ds

abbrev pub card : Name
card = codes "card"

abbrev pub render : Name
render = codes "render"

-- A round of the loop of the constructor `DRMNode::DRMNode`. The last test compares "control" with
-- itself.
unfoldable pub classify : FileSystem → FilePath → Name → DrmSysfsNode → DrmSysfsNode
classify fs dir name node =
    if not (fs.is_directory (name ∷ dir))
    then node
    else if is_no_path node.card_path && begins card name
    then record node { card_path = name ∷ dir }
    else if is_no_path node.render_path && begins render name
    then record node { render_path = name ∷ dir }
    else if is_no_path node.control_path && begins (codes "control") (codes "control")
    then record node { control_path = name ∷ dir }
    else node

unfoldable pub classify_all : FileSystem → FilePath → List Name → DrmSysfsNode → DrmSysfsNode
classify_all fs dir [] node = node
classify_all fs dir (name ∷ names) node = classify_all fs dir names (classify fs dir name node)

abbrev pub new_node : FilePath → DrmSysfsNode
new_node path = record {
  path = path;
  xgmi = record { hive_id = 0; device_id = 0; physical_id = 0; nodes = [] };
  card_path = [];
  render_path = [];
  control_path = [];
}

abbrev pub list_drm : FileSystem → FilePath → DrmSysfsNode → Run DrmSysfsNode
list_drm fs dir node = do names ← iterate fs dir; done (classify_all fs dir names node)

-- `DRMNode::DRMNode`
unfoldable pub create_node : FileSystem → FilePath → Run DrmSysfsNode
create_node fs path =
    let own = codes "drm" ∷ codes "device" ∷ path in
    let bridged = codes "drm" ∷ codes "device" ∷ codes "device" ∷ path in
    if fs.is_directory own
    then list_drm fs own (new_node path)
    else if fs.is_directory bridged
    then list_drm fs bridged (new_node path)
    else done (new_node path)

-- `DRMNode::Name`
abbrev pub name_of : DrmSysfsNode → Name
name_of n = filename n.path

-- `DRM::NodeByName`
unfoldable pub node_by_name : List DrmSysfsNode → Name → Option ℕ
node_by_name [] name = none
node_by_name (n ∷ ns) name =
    let later = node_by_name ns name in
    if is_name (name_of n) name
    then some 0
    else (elim later [ none ↦ none | some k ↦ some (suc k) ])

-- `DRMNode::TotalVRAMBytes`
unfoldable pub total_vram_bytes : FileSystem → DrmSysfsNode → ℕ
total_vram_bytes fs n =
    let path = codes "mem_info_vram_total" ∷ codes "device" ∷ n.path in
    if fs.exists path then strtoull (fs.contents path) else 0

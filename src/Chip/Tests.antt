-- ===== src/Chip/Tests.antt =====
-- The theorems on device IDs, on some devices.
use rocsift_glog_fork.Common.{refl, ◌≡◌}
use rocsift_glog_fork.Chip.Families.{mi300x, navi21}
use rocsift_glog_fork.Chip.{is_navi21}
use rocsift_glog_fork.Common.{get_elem?, some}
use rocsift_glog_fork.Chip.{is_mi300x}
use rocsift_glog_fork.Chip.Families.{is_family_unique}
use rocsift_glog_fork.Chip.Mtype.{decode_mtype, decode_mtype-mtypes_of, mtypes_of}

unique_example : mi300x ≡ mi300x
unfolding is_mi300x
unique_example = is_family_unique mi300x mi300x 0x74a1 refl refl

decodes_example : decode_mtype 5 0x73bf ≡ get_elem? (mtypes_of (some navi21)) 5
unfolding is_navi21
decodes_example = decode_mtype-mtypes_of (some navi21) 5 0x73bf refl

-- ===== src/Xlator/Registers.antt =====
-- The registers of a translator: `device_supported`, the register tables, `GFXHUB_OFFSET` and
-- `sift_xlator_create` of src/xlator/xlator.c.
use rocsift_glog_fork.Common.{◌^◌, ◌^◌}
use rocsift_glog_fork.Common.{ltb}
use rocsift_glog_fork.Xlator.Types.{undefined}
use rocsift_glog_fork.Common.{Bool, Option, if◌then◌else◌, none, some, ℕ, ◌*◌, ◌+◌, ◌||◌}
use rocsift_glog_fork.Common.Words.{u32}
use rocsift_glog_fork.Chip.{is_mi200, is_mi3xx, is_vega20}
use rocsift_glog_fork.Xlator.Types.{Outcome, exited, failed, returned, ◌>>=◌}

unfoldable pub device_supported : ℕ → Bool
device_supported device_id = is_vega20 device_id || is_mi3xx device_id

-- A register's place in the two layouts; `abort` where the device has neither.
unfoldable pub register_of : ℕ → ℕ → ℕ → Outcome ℕ
register_of mi3xx_place vega20_place device_id =
    if is_mi3xx device_id
    then returned mi3xx_place
    else if is_vega20 device_id || is_mi200 device_id
    then returned vega20_place
    else exited

abbrev pub vm_context0_page_table_base_addr_lo32 : ℕ → Outcome ℕ
vm_context0_page_table_base_addr_lo32 = register_of 0xa32c 0xa3ac

abbrev pub vm_context0_page_table_base_addr_hi32 : ℕ → Outcome ℕ
vm_context0_page_table_base_addr_hi32 = register_of 0xa330 0xa3b0

abbrev pub vm_context0_page_table_start_addr_lo32 : ℕ → Outcome ℕ
vm_context0_page_table_start_addr_lo32 = register_of 0xa3ac 0xa42c

abbrev pub vm_context0_page_table_start_addr_hi32 : ℕ → Outcome ℕ
vm_context0_page_table_start_addr_hi32 = register_of 0xa3b0 0xa430

abbrev pub vm_context0_page_table_end_addr_lo32 : ℕ → Outcome ℕ
vm_context0_page_table_end_addr_lo32 = register_of 0xa42c 0xa4ac

abbrev pub vm_context0_page_table_end_addr_hi32 : ℕ → Outcome ℕ
vm_context0_page_table_end_addr_hi32 = register_of 0xa430 0xa4b0

abbrev pub vm_context0_cntl : ℕ → Outcome ℕ
vm_context0_cntl = register_of 0xa180 0xa200

abbrev pub mc_vm_fb_offset_base : ℕ → Outcome ℕ
mc_vm_fb_offset_base = register_of 0xa51c 0xa5ac

-- The product is one of `int`, which overflows from 2^13 on.
abbrev pub gfxhub_offset : ℕ → Outcome ℕ
gfxhub_offset xcc_id = if ltb xcc_id (2 ^ 13) then returned (0x40000 * xcc_id) else undefined

-- `xlator_t`, less the partition and the register that is never set.
pub record Xlator : Type 0 where
  pub vmid : ℕ
  pub pt_base_addr_lo_addr : ℕ
  pub pt_base_addr_hi_addr : ℕ
  pub pt_start_addr_lo_addr : ℕ
  pub pt_start_addr_hi_addr : ℕ
  pub pt_end_addr_lo_addr : ℕ
  pub pt_end_addr_hi_addr : ℕ
  pub context_cntl_addr : ℕ
  pub mc_vm_fb_offset_addr : ℕ

-- `device_id` and `xcc_id` are what the library's calls give for the node and the partition, `none`
-- where they fail.
unfoldable pub create : Option ℕ → Option ℕ → ℕ → Outcome Xlator
create none xcc vmid = failed
create (some device_id) xcc vmid =
    if device_supported device_id
    then (elim xcc [
      | none ↦ failed
      | some xcc_id ↦ (do
        hub ← gfxhub_offset xcc_id
        let at = λ (stride place : ℕ). u32 (hub + stride * vmid + place)
        base_lo ← vm_context0_page_table_base_addr_lo32 device_id
        base_hi ← vm_context0_page_table_base_addr_hi32 device_id
        start_lo ← vm_context0_page_table_start_addr_lo32 device_id
        start_hi ← vm_context0_page_table_start_addr_hi32 device_id
        end_lo ← vm_context0_page_table_end_addr_lo32 device_id
        end_hi ← vm_context0_page_table_end_addr_hi32 device_id
        cntl ← vm_context0_cntl device_id
        fb_offset ← mc_vm_fb_offset_base device_id
        returned (record {
          vmid = vmid;
          pt_base_addr_lo_addr = at 8 base_lo;
          pt_base_addr_hi_addr = at 8 base_hi;
          pt_start_addr_lo_addr = at 8 start_lo;
          pt_start_addr_hi_addr = at 8 start_hi;
          pt_end_addr_lo_addr = at 8 end_lo;
          pt_end_addr_hi_addr = at 8 end_hi;
          context_cntl_addr = at 4 cntl;
          mc_vm_fb_offset_addr = at 0 fb_offset;
        }))
    ])
    else failed

-- ===== src/Pm4/Types.antt =====
-- The data of include/rocsift/pm4.h, the statuses of src/pm4/pm4.h, and src/pm4/span.h.
use rocsift_glog_fork.Common.{ℕ, Bool, true, false, Option, none, some, List, ◌==◌, get_elem?, drop}
use rocsift_glog_fork.Common.Run.{Run, done, throw, std_exception, or_fault}

-- `enum class Status`
pub data Status : Type 0 where
  success error no_match : Status

-- `ResultStatus`: a status with an optional value.
pub record ResultStatus {ℓ} (A : Type ℓ) : Type ℓ where
  pub status : Status
  pub value : Option A

abbrev pub returns {ℓ} : {A : Type ℓ} → A → ResultStatus A
returns a = record { status = success; value = some a }

abbrev pub fails {ℓ} : {A : Type ℓ} → ResultStatus A
fails = record { status = error; value = none }

abbrev pub mismatches {ℓ} : {A : Type ℓ} → ResultStatus A
mismatches = record { status = no_match; value = none }

abbrev pub is_success : Status → Bool
is_success success = true
is_success error = false
is_success no_match = false

-- `std::optional::value()`
abbrev pub value_or_throw {ℓ} : {A : Type ℓ} → Option A → Run A
value_or_throw none = throw std_exception
value_or_throw (some a) = done a

-- `sift_pm4_packet_type_t`, the numbers 0, 1 and 2.
pub data PacketType : Type 0 where
  type1 type2 type3 : PacketType

pub record MapProcess : Type 0 where
  pub single_memop : Bool
  pub debug_flag : Bool
  pub tmz : Bool
  pub diq_enable : Bool
  pub sdma_enable : Bool
  pub pasid : ℕ
  pub debug_vmid : ℕ
  pub process_quantum : ℕ
  pub vm_context_page_table_base_addr_lo32 : ℕ
  pub vm_context_page_table_base_addr_hi32 : ℕ
  pub sh_mem_bases : ℕ
  pub sh_mem_config : ℕ
  pub sq_shader_tba_lo : ℕ
  pub sq_shader_tba_hi : ℕ
  pub sq_shader_tma_lo : ℕ
  pub sq_shader_tma_hi : ℕ
  pub gds_addr_lo : ℕ
  pub gds_addr_hi : ℕ
  pub num_gws : ℕ
  pub num_oac : ℕ
  pub gds_size_hi : ℕ
  pub gds_size_lo : ℕ
  pub num_queues : ℕ
  pub spi_gdbg_per_vmid_cntl : ℕ
  pub tcp_watch0_cntl : ℕ
  pub tcp_watch1_cntl : ℕ
  pub tcp_watch2_cntl : ℕ
  pub tcp_watch3_cntl : ℕ
  pub completion_signal_lo32 : ℕ
  pub completion_signal_hi32 : ℕ

pub record MapQueues : Type 0 where
  pub extended_engine_sel : ℕ
  pub queue_sel : ℕ
  pub vmid : ℕ
  pub gws_enabled : Bool
  pub queue : ℕ
  pub queue_type : ℕ
  pub static_queue_group : ℕ
  pub engine_sel : ℕ
  pub num_queues : ℕ
  pub check_disable : Bool
  pub doorbell_offset : ℕ
  pub mqd_addr_lo : ℕ
  pub mqd_addr_hi : ℕ
  pub wptr_addr_lo : ℕ
  pub wptr_addr_hi : ℕ

-- `sift_pm4_body_t`, a union whose member the opcode tells.
pub data Body : Type 0 where
  map_process : MapProcess → Body
  map_queues : MapQueues → Body

pub record Header : Type 0 where
  pub opcode : ℕ
  pub count : ℕ
  pub packet_type : PacketType

-- `sift_pm4_runlist_entry_t`; the body stands in place of the pointer to it.
pub record Entry : Type 0 where
  pub header : Header
  pub body : Body

-- `sift_pm4_node_t`
pub record Node : Type 0 where
  pub node_id : ℕ
  pub gpu_id : ℕ

-- `span<const uint32_t>`: the array from the span's pointer up to its end, and the length that the
-- span was given. An index is checked against neither.
pub record Span : Type 0 where
  pub arr : List ℕ
  pub size : ℕ

unfoldable pub is_empty : Span → Bool
is_empty s = s.size == 0

unfoldable pub subspan : Span → ℕ → ℕ → Span
subspan s offset count = record { arr = drop offset s.arr; size = count }

-- `operator[]`
unfoldable pub index : Span → ℕ → Run ℕ
index s idx = or_fault (get_elem? s.arr idx)

-- ===== src/Pm4/Encode.antt =====
-- The PM4 packet format, written down independently of the parser: the dwords of a body and of a
-- header, as sums of the fields at their bit positions.
use rocsift_glog_fork.Common.{ℕ, ◌+◌, ◌*◌, ◌-◌, ◌^◌, ◌<◌, Bool, true, false, List, [], ◌∷◌}
use rocsift_glog_fork.Pm4.Types.{PacketType, type1, type2, type3, MapProcess, MapQueues, Header}
use rocsift_glog_fork.Common.{length, ◌++◌, ◌≤◌}
use rocsift_glog_fork.Pm4.Entry.{op_map_process, op_map_queues}
use rocsift_glog_fork.Pm4.Types.{Body, map_process, map_queues}

abbrev pub of_bool : Bool → ℕ
of_bool true = 1
of_bool false = 0

-- The packed dwords, numbered as in the packet format table.
abbrev pub queues_dword2 : MapQueues → ℕ
queues_dword2 b =
    (b.extended_engine_sel * 2 ^ 2
      + b.queue_sel * 2 ^ 4
      + b.vmid * 2 ^ 8
      + of_bool b.gws_enabled * 2 ^ 12
      + b.queue * 2 ^ 13
      + b.queue_type * 2 ^ 21
      + b.static_queue_group * 2 ^ 24
      + b.engine_sel * 2 ^ 26
      + b.num_queues * 2 ^ 29)

abbrev pub queues_dword3 : MapQueues → ℕ
queues_dword3 b = of_bool b.check_disable * 2 + b.doorbell_offset * 2 ^ 2

abbrev pub process_dword2 : MapProcess → ℕ
process_dword2 b =
    (b.pasid
      + of_bool b.single_memop * 2 ^ 16
      + b.debug_vmid * 2 ^ 18
      + of_bool b.debug_flag * 2 ^ 22
      + of_bool b.tmz * 2 ^ 23
      + of_bool b.diq_enable * 2 ^ 24
      + b.process_quantum * 2 ^ 25)

abbrev pub process_dword14 : MapProcess → ℕ
process_dword14 b =
    (b.num_gws
      + of_bool b.sdma_enable * 2 ^ 7
      + b.num_oac * 2 ^ 8
      + b.gds_size_hi * 2 ^ 12
      + b.gds_size_lo * 2 ^ 16
      + b.num_queues * 2 ^ 22)

abbrev pub encode_map_queues : MapQueues → List ℕ
encode_map_queues b =
    queues_dword2 b
    ∷ queues_dword3 b
    ∷ b.mqd_addr_lo
    ∷ b.mqd_addr_hi
    ∷ b.wptr_addr_lo
    ∷ b.wptr_addr_hi
    ∷ []

-- Every field fits its bits.
pub record FitsQueues (b : MapQueues) : Type 0 where
  pub extended_engine_sel : b.extended_engine_sel < 2 ^ 2
  pub queue_sel : b.queue_sel < 2 ^ 2
  pub vmid : b.vmid < 2 ^ 4
  pub queue : b.queue < 2 ^ 8
  pub queue_type : b.queue_type < 2 ^ 3
  pub static_queue_group : b.static_queue_group < 2 ^ 2
  pub engine_sel : b.engine_sel < 2 ^ 3
  pub num_queues : b.num_queues < 2 ^ 3
  pub doorbell_offset : b.doorbell_offset < 2 ^ 26
  pub mqd_addr_lo : b.mqd_addr_lo < 2 ^ 32
  pub mqd_addr_hi : b.mqd_addr_hi < 2 ^ 32
  pub wptr_addr_lo : b.wptr_addr_lo < 2 ^ 32
  pub wptr_addr_hi : b.wptr_addr_hi < 2 ^ 32

-- `skipped` is dword 11, which no field is read from.
abbrev pub encode_map_process : ℕ → MapProcess → List ℕ
encode_map_process skipped b =
    process_dword2 b
    ∷ b.vm_context_page_table_base_addr_lo32
    ∷ b.vm_context_page_table_base_addr_hi32
    ∷ b.sh_mem_bases
    ∷ b.sh_mem_config
    ∷ b.sq_shader_tba_lo
    ∷ b.sq_shader_tba_hi
    ∷ b.sq_shader_tma_lo
    ∷ b.sq_shader_tma_hi
    ∷ skipped
    ∷ b.gds_addr_lo
    ∷ b.gds_addr_hi
    ∷ process_dword14 b
    ∷ b.spi_gdbg_per_vmid_cntl
    ∷ b.tcp_watch0_cntl
    ∷ b.tcp_watch1_cntl
    ∷ b.tcp_watch2_cntl
    ∷ b.tcp_watch3_cntl
    ∷ b.completion_signal_lo32
    ∷ b.completion_signal_hi32
    ∷ []

pub record FitsProcess (b : MapProcess) : Type 0 where
  pub pasid : b.pasid < 2 ^ 16
  pub debug_vmid : b.debug_vmid < 2 ^ 4
  pub process_quantum : b.process_quantum < 2 ^ 7
  pub base_lo : b.vm_context_page_table_base_addr_lo32 < 2 ^ 32
  pub base_hi : b.vm_context_page_table_base_addr_hi32 < 2 ^ 32
  pub sh_mem_bases : b.sh_mem_bases < 2 ^ 32
  pub sh_mem_config : b.sh_mem_config < 2 ^ 32
  pub sq_shader_tba_lo : b.sq_shader_tba_lo < 2 ^ 32
  pub sq_shader_tba_hi : b.sq_shader_tba_hi < 2 ^ 32
  pub sq_shader_tma_lo : b.sq_shader_tma_lo < 2 ^ 32
  pub sq_shader_tma_hi : b.sq_shader_tma_hi < 2 ^ 32
  pub gds_addr_lo : b.gds_addr_lo < 2 ^ 32
  pub gds_addr_hi : b.gds_addr_hi < 2 ^ 32
  pub num_gws : b.num_gws < 2 ^ 7
  pub num_oac : b.num_oac < 2 ^ 4
  pub gds_size_hi : b.gds_size_hi < 2 ^ 4
  pub gds_size_lo : b.gds_size_lo < 2 ^ 6
  pub num_queues : b.num_queues < 2 ^ 10
  pub spi_gdbg_per_vmid_cntl : b.spi_gdbg_per_vmid_cntl < 2 ^ 32
  pub tcp_watch0_cntl : b.tcp_watch0_cntl < 2 ^ 32
  pub tcp_watch1_cntl : b.tcp_watch1_cntl < 2 ^ 32
  pub tcp_watch2_cntl : b.tcp_watch2_cntl < 2 ^ 32
  pub tcp_watch3_cntl : b.tcp_watch3_cntl < 2 ^ 32
  pub completion_signal_lo32 : b.completion_signal_lo32 < 2 ^ 32
  pub completion_signal_hi32 : b.completion_signal_hi32 < 2 ^ 32

abbrev pub type_number : PacketType → ℕ
type_number type1 = 0
type_number type2 = 1
type_number type3 = 2

-- A header in front of `count` dwords of body; the low byte is reserved.
abbrev pub encode_header : ℕ → Header → ℕ
encode_header reserved h =
    reserved + h.opcode * 2 ^ 8 + (h.count - 1) * 2 ^ 16 + (type_number h.packet_type + 1) * 2 ^ 30

-- A packet that the driver may put into a runlist: a supported body, dwords behind it up to the
-- length that the header gives, and what no field is read from.
pub record Packet : Type 0 where
  pub reserved : ℕ
  pub packet_type : PacketType
  pub skipped : ℕ
  pub body : Body
  pub padding : List ℕ

abbrev pub opcode_of : Body → ℕ
opcode_of (map_process b) = op_map_process
opcode_of (map_queues b) = op_map_queues

abbrev pub encode_body : ℕ → Body → List ℕ
encode_body skipped (map_process b) = encode_map_process skipped b
encode_body skipped (map_queues b) = encode_map_queues b

-- The number of dwords of a body.
abbrev pub body_size : Body → ℕ
body_size (map_process b) = 20
body_size (map_queues b) = 6

abbrev pub header_of : Packet → Header
header_of p = record {
  opcode = opcode_of p.body;
  count = body_size p.body + length p.padding;
  packet_type = p.packet_type;
}

abbrev pub encode_packet : Packet → List ℕ
encode_packet p =
    encode_header p.reserved (header_of p) ∷ (encode_body p.skipped p.body ++ p.padding)

abbrev pub packet_size : Packet → ℕ
packet_size p = body_size p.body + length p.padding + 1

-- The dwords of a runlist.
abbrev pub encode_packets : List Packet → List ℕ
encode_packets [] = []
encode_packets (p ∷ ps) = encode_packet p ++ encode_packets ps

abbrev pub FitsBody : Body → Type 0
FitsBody (map_process b) = FitsProcess b
FitsBody (map_queues b) = FitsQueues b

-- The body fits its bits, the reserved byte is a byte, and 14 bits hold the count less one.
pub record FitsPacket (p : Packet) : Type 0 where
  pub reserved : p.reserved < 2 ^ 8
  pub count : body_size p.body + length p.padding ≤ 2 ^ 14
  pub body : FitsBody p.body

abbrev pub FitsPackets : List Packet → Type 0
FitsPackets [] = Unit
FitsPackets (p ∷ ps) = FitsPacket p × FitsPackets ps

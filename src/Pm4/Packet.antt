-- ===== src/Pm4/Packet.antt =====
-- The fields of a packet body: `slice`, `getBodySlice` and the two body parsers of src/pm4/pm4.cc.
use rocsift_glog_fork.Common.{ℕ, suc, ◌-◌, ◌/◌, ◌%◌, ◌^◌, ◌<◌, ◌≡◌, bit_and}
use rocsift_glog_fork.Common.Words.{u8, u16, u32, to_bool, mask, mask_bits}
use rocsift_glog_fork.Common.Run.{Run, done, ◌>>=◌}
use rocsift_glog_fork.Pm4.Types.{MapProcess, MapQueues, Span, index}

unfoldable pub slice : ℕ → ℕ → ℕ → ℕ
slice val msb lsb = bit_and val (mask msb) / 2 ^ lsb

pub slice_lem : (val msb lsb : ℕ) → msb < 64 → slice val msb lsb ≡ val % 2 ^ suc msb / 2 ^ lsb
unfolding slice
slice_lem = mask_bits

-- Dwords are counted as in the packet format table, where the body begins at dword 2.
unfoldable pub get_body_slice : Span → ℕ → ℕ → ℕ → Run ℕ
unfolding index
get_body_slice body_data i msb lsb = do d ← index body_data (i - 2); done (slice d msb lsb)

-- Each field is converted to the type it has in the struct.
unfoldable pub parse_body_map_process : Span → Run MapProcess
unfolding get_body_slice
parse_body_map_process body_data = do
  pasid ← get_body_slice body_data 2 15 0
  single_memop ← get_body_slice body_data 2 16 16
  debug_vmid ← get_body_slice body_data 2 21 18
  debug_flag ← get_body_slice body_data 2 22 22
  tmz ← get_body_slice body_data 2 23 23
  diq_enable ← get_body_slice body_data 2 24 24
  process_quantum ← get_body_slice body_data 2 31 25
  vm_context_page_table_base_addr_lo32 ← get_body_slice body_data 3 31 0
  vm_context_page_table_base_addr_hi32 ← get_body_slice body_data 4 31 0
  sh_mem_bases ← get_body_slice body_data 5 31 0
  sh_mem_config ← get_body_slice body_data 6 31 0
  sq_shader_tba_lo ← get_body_slice body_data 7 31 0
  sq_shader_tba_hi ← get_body_slice body_data 8 31 0
  sq_shader_tma_lo ← get_body_slice body_data 9 31 0
  sq_shader_tma_hi ← get_body_slice body_data 10 31 0
  gds_addr_lo ← get_body_slice body_data 12 31 0
  gds_addr_hi ← get_body_slice body_data 13 31 0
  num_gws ← get_body_slice body_data 14 6 0
  sdma_enable ← get_body_slice body_data 14 7 0
  num_oac ← get_body_slice body_data 14 11 8
  gds_size_hi ← get_body_slice body_data 14 15 12
  gds_size_lo ← get_body_slice body_data 14 21 16
  num_queues ← get_body_slice body_data 14 31 22
  spi_gdbg_per_vmid_cntl ← get_body_slice body_data 15 31 0
  tcp_watch0_cntl ← get_body_slice body_data 16 31 0
  tcp_watch1_cntl ← get_body_slice body_data 17 31 0
  tcp_watch2_cntl ← get_body_slice body_data 18 31 0
  tcp_watch3_cntl ← get_body_slice body_data 19 31 0
  completion_signal_lo32 ← get_body_slice body_data 20 31 0
  completion_signal_hi32 ← get_body_slice body_data 21 31 0
  done (record {
    pasid = u32 pasid;
    single_memop = to_bool single_memop;
    debug_vmid = u16 debug_vmid;
    debug_flag = to_bool debug_flag;
    tmz = to_bool tmz;
    diq_enable = to_bool diq_enable;
    process_quantum = u8 process_quantum;
    vm_context_page_table_base_addr_lo32 = u32 vm_context_page_table_base_addr_lo32;
    vm_context_page_table_base_addr_hi32 = u32 vm_context_page_table_base_addr_hi32;
    sh_mem_bases = u32 sh_mem_bases;
    sh_mem_config = u32 sh_mem_config;
    sq_shader_tba_lo = u32 sq_shader_tba_lo;
    sq_shader_tba_hi = u32 sq_shader_tba_hi;
    sq_shader_tma_lo = u32 sq_shader_tma_lo;
    sq_shader_tma_hi = u32 sq_shader_tma_hi;
    gds_addr_lo = u32 gds_addr_lo;
    gds_addr_hi = u32 gds_addr_hi;
    num_gws = u8 num_gws;
    sdma_enable = to_bool sdma_enable;
    num_oac = u8 num_oac;
    gds_size_hi = u8 gds_size_hi;
    gds_size_lo = u8 gds_size_lo;
    num_queues = u16 num_queues;
    spi_gdbg_per_vmid_cntl = u32 spi_gdbg_per_vmid_cntl;
    tcp_watch0_cntl = u32 tcp_watch0_cntl;
    tcp_watch1_cntl = u32 tcp_watch1_cntl;
    tcp_watch2_cntl = u32 tcp_watch2_cntl;
    tcp_watch3_cntl = u32 tcp_watch3_cntl;
    completion_signal_lo32 = u32 completion_signal_lo32;
    completion_signal_hi32 = u32 completion_signal_hi32;
  })

unfoldable pub parse_body_map_queues : Span → Run MapQueues
unfolding get_body_slice
parse_body_map_queues body_data = do
  extended_engine_sel ← get_body_slice body_data 2 3 2
  queue_sel ← get_body_slice body_data 2 5 4
  vmid ← get_body_slice body_data 2 11 8
  gws_enabled ← get_body_slice body_data 2 12 12
  queue ← get_body_slice body_data 2 20 13
  queue_type ← get_body_slice body_data 2 23 21
  static_queue_group ← get_body_slice body_data 2 25 24
  engine_sel ← get_body_slice body_data 2 28 26
  num_queues ← get_body_slice body_data 2 31 29
  check_disable ← get_body_slice body_data 3 1 1
  doorbell_offset ← get_body_slice body_data 3 27 2
  mqd_addr_lo ← get_body_slice body_data 4 31 0
  mqd_addr_hi ← get_body_slice body_data 5 31 0
  wptr_addr_lo ← get_body_slice body_data 6 31 0
  wptr_addr_hi ← get_body_slice body_data 7 31 0
  done (record {
    extended_engine_sel = u8 extended_engine_sel;
    queue_sel = u8 queue_sel;
    vmid = u8 vmid;
    gws_enabled = to_bool gws_enabled;
    queue = u8 queue;
    queue_type = u8 queue_type;
    static_queue_group = u8 static_queue_group;
    engine_sel = u8 engine_sel;
    num_queues = u8 num_queues;
    check_disable = to_bool check_disable;
    doorbell_offset = u32 doorbell_offset;
    mqd_addr_lo = u32 mqd_addr_lo;
    mqd_addr_hi = u32 mqd_addr_hi;
    wptr_addr_lo = u32 wptr_addr_lo;
    wptr_addr_hi = u32 wptr_addr_hi;
  })

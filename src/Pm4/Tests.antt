-- ===== src/Pm4/Tests.antt =====
-- The PM4 theorems on a small runlist.
use rocsift_glog_fork.Common.Words.{mask}
use rocsift_glog_fork.Common.{List, [], false, true, ℕ, ◌∷◌, ◌≡◌, refl, arith, map, length, ◌++◌}
use rocsift_glog_fork.Common.Run.{done, fault}
use rocsift_glog_fork.Pm4.Types.{MapProcess, MapQueues, map_queues, map_process, type3, returns}
use rocsift_glog_fork.Pm4.Encode.{FitsPacket, FitsProcess, FitsQueues, Packet, encode_packets}
use rocsift_glog_fork.Pm4.Entry.{parse_runlist_entries, parse_runlist_entry}
use rocsift_glog_fork.Pm4.Line.{digit_value, is_digit, is_hex, number_from, parse_node_line}
use rocsift_glog_fork.Pm4.Packet.{slice}
use rocsift_glog_fork.Pm4.Print.{parse_node_line-print, print_node}
use rocsift_glog_fork.Pm4.Short.{parse_runlist_entry-short_process}
use rocsift_glog_fork.Pm4.Stream.{decoded, parse_entries-encode_packets}

abbrev some_queues : MapQueues
some_queues = record {
  extended_engine_sel = 1;
  queue_sel = 2;
  vmid = 8;
  gws_enabled = true;
  queue = 3;
  queue_type = 4;
  static_queue_group = 1;
  engine_sel = 2;
  num_queues = 1;
  check_disable = true;
  doorbell_offset = 1000;
  mqd_addr_lo = 1;
  mqd_addr_hi = 2;
  wptr_addr_lo = 3;
  wptr_addr_hi = 4;
}

some_queues-FitsQueues : FitsQueues some_queues
some_queues-FitsQueues = record {
  extended_engine_sel = omega arith;
  queue_sel = omega arith;
  vmid = omega arith;
  queue = omega arith;
  queue_type = omega arith;
  static_queue_group = omega arith;
  engine_sel = omega arith;
  num_queues = omega arith;
  doorbell_offset = omega arith;
  mqd_addr_lo = omega arith;
  mqd_addr_hi = omega arith;
  wptr_addr_lo = omega arith;
  wptr_addr_hi = omega arith;
}

abbrev some_process : MapProcess
some_process = record {
  single_memop = true;
  debug_flag = false;
  tmz = true;
  diq_enable = false;
  sdma_enable = false;
  pasid = 32769;
  debug_vmid = 8;
  process_quantum = 10;
  vm_context_page_table_base_addr_lo32 = 1;
  vm_context_page_table_base_addr_hi32 = 2;
  sh_mem_bases = 3;
  sh_mem_config = 4;
  sq_shader_tba_lo = 5;
  sq_shader_tba_hi = 6;
  sq_shader_tma_lo = 7;
  sq_shader_tma_hi = 8;
  gds_addr_lo = 9;
  gds_addr_hi = 10;
  num_gws = 64;
  num_oac = 1;
  gds_size_hi = 2;
  gds_size_lo = 3;
  num_queues = 4;
  spi_gdbg_per_vmid_cntl = 11;
  tcp_watch0_cntl = 12;
  tcp_watch1_cntl = 13;
  tcp_watch2_cntl = 14;
  tcp_watch3_cntl = 15;
  completion_signal_lo32 = 16;
  completion_signal_hi32 = 17;
}

some_process-FitsProcess : FitsProcess some_process
some_process-FitsProcess = record {
  pasid = omega arith;
  debug_vmid = omega arith;
  process_quantum = omega arith;
  base_lo = omega arith;
  base_hi = omega arith;
  sh_mem_bases = omega arith;
  sh_mem_config = omega arith;
  sq_shader_tba_lo = omega arith;
  sq_shader_tba_hi = omega arith;
  sq_shader_tma_lo = omega arith;
  sq_shader_tma_hi = omega arith;
  gds_addr_lo = omega arith;
  gds_addr_hi = omega arith;
  num_gws = omega arith;
  num_oac = omega arith;
  gds_size_hi = omega arith;
  gds_size_lo = omega arith;
  num_queues = omega arith;
  spi_gdbg_per_vmid_cntl = omega arith;
  tcp_watch0_cntl = omega arith;
  tcp_watch1_cntl = omega arith;
  tcp_watch2_cntl = omega arith;
  tcp_watch3_cntl = omega arith;
  completion_signal_lo32 = omega arith;
  completion_signal_hi32 = omega arith;
}

abbrev pub queues_packet : Packet
queues_packet = record {
  reserved = 5;
  packet_type = type3;
  skipped = 0;
  body = map_queues some_queues;
  padding = 9 ∷ [];
}

abbrev process_packet : Packet
process_packet = record {
  reserved = 0;
  packet_type = type3;
  skipped = 7;
  body = map_process some_process;
  padding = [];
}

pub queues_packet-FitsPacket : FitsPacket queues_packet
queues_packet-FitsPacket = record {
  reserved = omega arith;
  count = omega arith;
  body = some_queues-FitsQueues;
}

process_packet-FitsPacket : FitsPacket process_packet
process_packet-FitsPacket = record {
  reserved = omega arith;
  count = omega arith;
  body = some_process-FitsProcess;
}

abbrev two_packets : List ℕ
two_packets = encode_packets (process_packet ∷ queues_packet ∷ [])

encode_packets_example :
    parse_runlist_entries
      (λ _. true)
      (record { arr = two_packets ++ []; size = length two_packets })
    ≡ done (returns (map decoded (process_packet ∷ queues_packet ∷ [])))
encode_packets_example =
    parse_entries-encode_packets process_packet (queues_packet ∷ []) []
      (process_packet-FitsPacket, (queues_packet-FitsPacket, tt))

abbrev short_body : List ℕ
short_body = 1 ∷ 2 ∷ 3 ∷ []

short_process_example :
    parse_runlist_entry true (record { arr = 0xc002a100 ∷ short_body; size = 4 }) ≡ fault
unfolding slice mask
short_process_example =
    parse_runlist_entry-short_process 0xc002a100 short_body refl refl (omega arith) (omega arith)

node_line_example :
    parse_node_line (print_node (b'1' ∷ []) (b'2' ∷ b'a' ∷ []))
    ≡ done (returns (record { node_id = 1; gpu_id = 42 }))
unfolding number_from is_digit is_hex digit_value
node_line_example =
    parse_node_line-print b'1' [] b'2' (b'a' ∷ []) (refl, tt) (refl, (refl, tt)) (omega arith)
      (omega arith)

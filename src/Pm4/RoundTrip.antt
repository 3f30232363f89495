-- ===== src/Pm4/RoundTrip.antt =====
-- The body parsers on the dwords of the packet format.
use rocsift_glog_fork.Common.{
  ℕ, ◌+◌, ◌*◌, ◌^◌, ◌<◌, Bool, true, false, not, ◌||◌, ◌==◌, ◌≡◌, refl, List, ◌++◌, arith,
}
use rocsift_glog_fork.Common.Words.{u32, to_bool}
use rocsift_glog_fork.Common.Run.{done}
use rocsift_glog_fork.Pm4.Types.{MapProcess, MapQueues}
use rocsift_glog_fork.Pm4.Packet.{slice, slice_lem, parse_body_map_queues}
use rocsift_glog_fork.Pm4.Encode.{
  of_bool, queues_dword2, queues_dword3, process_dword2, process_dword14, encode_map_queues,
  FitsQueues, FitsProcess,
}
use rocsift_glog_fork.Pm4.Encode.{encode_map_process}
use rocsift_glog_fork.Pm4.Packet.{parse_body_map_process}
use rocsift_glog_fork.Common.{some}
use rocsift_glog_fork.Pm4.Encode.{FitsBody, encode_body, opcode_of}
use rocsift_glog_fork.Pm4.Entry.{parse_body}
use rocsift_glog_fork.Pm4.Types.{Body, map_process, map_queues}

of_bool-lt : (b : Bool) → of_bool b < 2
of_bool-lt true = omega arith
of_bool-lt false = omega arith

to_bool-of_bool : (b : Bool) → to_bool (of_bool b) ≡ b
to_bool-of_bool true = refl
to_bool-of_bool false = refl

-- A dword that is one field.
slice_all : (d : ℕ) → d < 2 ^ 32 → u32 (slice d 31 0) ≡ d
slice_all d h = omega (arith, slice_lem)

queues_dword2_slices :
    (b : MapQueues)
    → FitsQueues b
    → (slice (queues_dword2 b) 3 2 ≡ b.extended_engine_sel)
      × (slice (queues_dword2 b) 5 4 ≡ b.queue_sel)
      × (slice (queues_dword2 b) 11 8 ≡ b.vmid)
      × (slice (queues_dword2 b) 12 12 ≡ of_bool b.gws_enabled)
      × (slice (queues_dword2 b) 20 13 ≡ b.queue)
      × (slice (queues_dword2 b) 23 21 ≡ b.queue_type)
      × (slice (queues_dword2 b) 25 24 ≡ b.static_queue_group)
      × (slice (queues_dword2 b) 28 26 ≡ b.engine_sel)
      × (slice (queues_dword2 b) 31 29 ≡ b.num_queues)
queues_dword2_slices b f = omega (arith, slice_lem, of_bool-lt b.gws_enabled)

queues_dword3_slices :
    (b : MapQueues)
    → FitsQueues b
    → (slice (queues_dword3 b) 1 1 ≡ of_bool b.check_disable)
      × (slice (queues_dword3 b) 27 2 ≡ b.doorbell_offset)
queues_dword3_slices b f = omega (arith, slice_lem, of_bool-lt b.check_disable)

process_dword2_slices :
    (b : MapProcess)
    → FitsProcess b
    → (slice (process_dword2 b) 15 0 ≡ b.pasid)
      × (slice (process_dword2 b) 16 16 ≡ of_bool b.single_memop)
      × (slice (process_dword2 b) 21 18 ≡ b.debug_vmid)
      × (slice (process_dword2 b) 22 22 ≡ of_bool b.debug_flag)
      × (slice (process_dword2 b) 23 23 ≡ of_bool b.tmz)
      × (slice (process_dword2 b) 24 24 ≡ of_bool b.diq_enable)
      × (slice (process_dword2 b) 31 25 ≡ b.process_quantum)
process_dword2_slices b f = omega (
  arith,
  slice_lem,
  of_bool-lt b.single_memop,
  of_bool-lt b.debug_flag,
  of_bool-lt b.tmz,
  of_bool-lt b.diq_enable,
)

process_dword14_slices :
    (b : MapProcess)
    → FitsProcess b
    → (slice (process_dword14 b) 6 0 ≡ b.num_gws)
      × (slice (process_dword14 b) 7 0 ≡ b.num_gws + of_bool b.sdma_enable * 2 ^ 7)
      × (slice (process_dword14 b) 11 8 ≡ b.num_oac)
      × (slice (process_dword14 b) 15 12 ≡ b.gds_size_hi)
      × (slice (process_dword14 b) 21 16 ≡ b.gds_size_lo)
      × (slice (process_dword14 b) 31 22 ≡ b.num_queues)
process_dword14_slices b f = omega (arith, slice_lem, of_bool-lt b.sdma_enable)

-- `parseBodyMapQueues` on the dwords that the format gives for a body returns that body, whatever
-- dwords follow, if every field fits its bits.
pub parse_body-encode_map_queues :
    (b : MapQueues) (rest : List ℕ) (n : ℕ)
    → FitsQueues b
    → parse_body_map_queues (record { arr = encode_map_queues b ++ rest; size = n }) ≡ done b
unfolding parse_body_map_queues
parse_body-encode_map_queues b rest n f = ground (
  arith,
  queues_dword2_slices b f,
  queues_dword3_slices b f,
  to_bool-of_bool b.gws_enabled,
  to_bool-of_bool b.check_disable,
  slice_all b.mqd_addr_lo f.mqd_addr_lo,
  slice_all b.mqd_addr_hi f.mqd_addr_hi,
  slice_all b.wptr_addr_lo f.wptr_addr_lo,
  slice_all b.wptr_addr_hi f.wptr_addr_hi,
)

-- The value that the parser gives to `sdma_enable`: it reads bits 7 down to 0 where the format has
-- the flag in bit 7, below which stands `num_gws`.
abbrev pub sdma_enable_read : MapProcess → Bool
sdma_enable_read b = b.sdma_enable || not (b.num_gws == 0)

sdma_enable_slice :
    (b : MapProcess) → FitsProcess b → to_bool (slice (process_dword14 b) 7 0) ≡ sdma_enable_read b
sdma_enable_slice b f = ground (arith, process_dword14_slices b f)

-- `parseBodyMapProcess` on the dwords that the format gives for a body returns that body, whatever
-- dwords follow and whatever stands in dword 11, if every field fits its bits; but `sdma_enable`
-- comes back as true also where the flag is off and `num_gws` is not 0.
pub parse_body-encode_map_process :
    (b : MapProcess) (skipped : ℕ) (rest : List ℕ) (n : ℕ)
    → FitsProcess b
    → parse_body_map_process (record { arr = encode_map_process skipped b ++ rest; size = n })
      ≡ done (record b { sdma_enable = sdma_enable_read b })
unfolding parse_body_map_process
parse_body-encode_map_process b skipped rest n f = ground (
  arith,
  process_dword2_slices b f,
  process_dword14_slices b f,
  sdma_enable_slice b f,
  to_bool-of_bool b.single_memop,
  to_bool-of_bool b.debug_flag,
  to_bool-of_bool b.tmz,
  to_bool-of_bool b.diq_enable,
  slice_all b.vm_context_page_table_base_addr_lo32 f.base_lo,
  slice_all b.vm_context_page_table_base_addr_hi32 f.base_hi,
  slice_all b.sh_mem_bases f.sh_mem_bases,
  slice_all b.sh_mem_config f.sh_mem_config,
  slice_all b.sq_shader_tba_lo f.sq_shader_tba_lo,
  slice_all b.sq_shader_tba_hi f.sq_shader_tba_hi,
  slice_all b.sq_shader_tma_lo f.sq_shader_tma_lo,
  slice_all b.sq_shader_tma_hi f.sq_shader_tma_hi,
  slice_all b.gds_addr_lo f.gds_addr_lo,
  slice_all b.gds_addr_hi f.gds_addr_hi,
  slice_all b.spi_gdbg_per_vmid_cntl f.spi_gdbg_per_vmid_cntl,
  slice_all b.tcp_watch0_cntl f.tcp_watch0_cntl,
  slice_all b.tcp_watch1_cntl f.tcp_watch1_cntl,
  slice_all b.tcp_watch2_cntl f.tcp_watch2_cntl,
  slice_all b.tcp_watch3_cntl f.tcp_watch3_cntl,
  slice_all b.completion_signal_lo32 f.completion_signal_lo32,
  slice_all b.completion_signal_hi32 f.completion_signal_hi32,
)

-- What the parser makes of a body.
abbrev pub read_back : Body → Body
read_back (map_process b) = map_process (record b { sdma_enable = sdma_enable_read b })
read_back (map_queues b) = map_queues b

pub parse_body-encode_body :
    (b : Body) (skipped : ℕ) (rest : List ℕ) (n : ℕ)
    → FitsBody b
    → parse_body (opcode_of b) (record { arr = encode_body skipped b ++ rest; size = n })
      ≡ done (some (read_back b))
unfolding parse_body
parse_body-encode_body (map_process b) skipped rest n f =
    rw (parse_body-encode_map_process b skipped rest n f)
parse_body-encode_body (map_queues b) skipped rest n f =
    rw (parse_body-encode_map_queues b rest n f)

-- ===== src/Xlator/ProcessTests.antt =====
-- The theorems on the translator of a process, on two runlists and the registers of an MI300X.
use rocsift_glog_fork.Common.{
  false, suc, zero, Option, [], arith, refl, some, ℕ, ◌*◌, ◌++◌, ◌∷◌, ◌≡◌, ◌<◌, if◌then◌else◌, ◌==◌,
  ◌≢◌,
}
use rocsift_glog_fork.Pm4.Types.{Entry, MapProcess, map_process, type3}
use rocsift_glog_fork.Xlator.Types.{returned}
use rocsift_glog_fork.Chip.{is_mi300, is_mi300a, is_mi300x, is_mi3xx, is_vega20}
use rocsift_glog_fork.Xlator.Process.{
  Runlist, process_of, pt_base_from_pasid, pt_base_from_pasid-last, pt_base_from_pasid-other_gpu,
}
use rocsift_glog_fork.Xlator.Registers.{device_supported}
use rocsift_glog_fork.Xlator.Setup.{level_info, level_info-nested, two_words}
use rocsift_glog_fork.Xlator.Vmid.{base_of, vmid_from_pt_base, vmid_from_pt_base-first}

abbrev pub process : ℕ → MapProcess
process pasid = record {
  single_memop = false;
  debug_flag = false;
  tmz = false;
  diq_enable = false;
  sdma_enable = false;
  pasid = pasid;
  debug_vmid = 8;
  process_quantum = 10;
  vm_context_page_table_base_addr_lo32 = 0x1001;
  vm_context_page_table_base_addr_hi32 = 2;
  sh_mem_bases = 3;
  sh_mem_config = 4;
  sq_shader_tba_lo = 5;
  sq_shader_tba_hi = 6;
  sq_shader_tma_lo = 7;
  sq_shader_tma_hi = 8;
  gds_addr_lo = 9;
  gds_addr_hi = 10;
  num_gws = 0;
  num_oac = 1;
  gds_size_hi = 2;
  gds_size_lo = 3;
  num_queues = 4;
  spi_gdbg_per_vmid_cntl = 11;
  tcp_watch0_cntl = 12;
  tcp_watch1_cntl = 13;
  tcp_watch2_cntl = 14;
  tcp_watch3_cntl = 15;
  completion_signal_lo32 = 16;
  completion_signal_hi32 = 17;
}

abbrev pub entry_of : ℕ → Entry
entry_of pasid = record {
  header = record { opcode = 0xa1; count = 20; packet_type = type3 };
  body = map_process (process pasid);
}

abbrev pub runlist_of : ℕ → Runlist
runlist_of gpu = record {
  node = record { node_id = 1; gpu_id = gpu };
  entries = entry_of 5 ∷ entry_of 6 ∷ [];
}

last_example :
    pt_base_from_pasid (some 42) (some ((runlist_of 41 ∷ []) ++ (runlist_of 42 ∷ []))) 5
    ≡ returned (two_words 2 0x1001)
unfolding process_of
last_example =
    pt_base_from_pasid-last 42 5 (runlist_of 41 ∷ []) (runlist_of 42) [] [] (entry_of 5)
      (entry_of 6 ∷ []) (process 5) (omega arith, tt) refl refl refl (refl, tt)

other_gpu_example :
    pt_base_from_pasid (some 43) (some ((runlist_of 41 ∷ []) ++ (runlist_of 42 ∷ []))) 5
    ≡ returned (two_words 2 0x1001)
unfolding process_of
other_gpu_example =
    pt_base_from_pasid-other_gpu 43 5 (runlist_of 41 ∷ []) (runlist_of 42) [] (entry_of 5)
      (entry_of 6 ∷ []) (process 5) (omega arith, (omega arith, tt)) refl refl (refl, tt)

-- The registers hold 1 for VMID 0 and 5 for the others.
abbrev registers : ℕ → Option ℕ
registers addr = some (if addr == 0xa32c then 1 else if addr == 0xa330 then 0 else 5)

vmid_example : vmid_from_pt_base registers (some 0x74a1) (some 0) (two_words 5 5) ≡ returned 1
unfolding device_supported is_vega20 is_mi3xx is_mi300 is_mi300a is_mi300x
vmid_example =
    vmid_from_pt_base-first registers 0x74a1 0 (two_words 5 5) 1 refl (omega arith) (omega arith)
      below refl
  where
    below :
        (w : ℕ)
        → w < 1
        → (b : ℕ) × (base_of registers 0x74a1 0 w ≡ returned b) × (b ≢ two_words 5 5)
    below zero l = (1, refl, omega arith)
    below (suc w) l = absurd (omega arith)

nested_example :
    (level_info 3 0 0 0 2).pde_size
    ≡ (level_info 3 0 0 0 1).pde_size * (level_info 3 0 0 0 1).num_pdes
nested_example = level_info-nested 3 0 0 0 1 (omega arith) (omega arith) (omega arith)

abbrev same_registers : ℕ → Option ℕ
same_registers addr = some 5

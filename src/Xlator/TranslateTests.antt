-- ===== src/Xlator/TranslateTests.antt =====
-- The theorems on ranges and on the translator of a process, on pages of 4 KiB and on two runlists.
use rocsift_glog_fork.Common.{◌+◌, ◌+◌}
use rocsift_glog_fork.Common.{◌*◌, ◌*◌}
use rocsift_glog_fork.Xlator.Translate.Process.{base_of_process}
use rocsift_glog_fork.Xlator.Vmid.{base_of}
use rocsift_glog_fork.Xlator.Registers.{Xlator}
use rocsift_glog_fork.Chip.{is_mi300x}
use rocsift_glog_fork.Chip.{is_mi300a}
use rocsift_glog_fork.Chip.{is_mi300}
use rocsift_glog_fork.Chip.{is_mi3xx}
use rocsift_glog_fork.Chip.{is_vega20}
use rocsift_glog_fork.Xlator.Registers.{device_supported}
use rocsift_glog_fork.Xlator.Process.{process_of}
use rocsift_glog_fork.Xlator.Overlap.{fragments_overlap}
use rocsift_glog_fork.Common.{
  List, [], ◌∷◌, ◌++◌, ℕ, zero, suc, ◌<◌, ◌==◌, ◌^◌, true, false, Option, none, some, ◌≡◌, ◌≢◌,
  refl, arith, if◌then◌else◌, map,
}
use rocsift_glog_fork.Xlator.Types.{Outcome, returned, Pte, WalkResults, Fragment}
use rocsift_glog_fork.Xlator.Range.{and_not, translate_pages, translate_loop, take_fragment}
use rocsift_glog_fork.Xlator.Setup.{level_info}
use rocsift_glog_fork.Xlator.Walk.{results_of}
use rocsift_glog_fork.Xlator.Fields.{get_pde_fields, get_pte_fields}
use rocsift_glog_fork.Common.Words.{mask, sub64, u64}
use rocsift_glog_fork.Common.{Bool, bit_and, ltb, ◌/◌}
use rocsift_glog_fork.Xlator.Types.{WalkHelper}
use rocsift_glog_fork.Xlator.Walk.{Descent}
use rocsift_glog_fork.Xlator.ProcessTests.{runlist_of, entry_of, process}
use rocsift_glog_fork.Xlator.Translate.{Calls, create_for_process, find_pid}
use rocsift_glog_fork.Xlator.Translate.Process.{create_for_process-IsLaidOut}
use rocsift_glog_fork.Xlator.Context.{IsLaidOut}

-- The page of an address, which is mapped to the same physical address.
abbrev valid_pte : ℕ → Pte
valid_pte base = record {
  valid = 1;
  system = 0;
  coherent = 0;
  tmz = 0;
  execute = 0;
  read = 0;
  write = 0;
  fragment = 0;
  base_address = base;
  tiled = 0;
  sw = 0;
  pte = 0;
  log = 0;
  translate_further = 0;
  mtype = 0;
}

abbrev page_at : ℕ → WalkResults
page_at x = record { pte = valid_pte (and_not x 0xfff); size = 0x1000; mask = 0xfff }

abbrev page_walk : ℕ → ℕ → Outcome (WalkResults × ℕ)
page_walk x c = returned (page_at x, suc c)

-- A translator whose registers hold a page table of two levels in VRAM at 0x1000 for 1 GiB.
abbrev xlate : Xlator
xlate = record {
  vmid = 0;
  pt_base_addr_lo_addr = 1;
  pt_base_addr_hi_addr = 0;
  pt_start_addr_lo_addr = 0;
  pt_start_addr_hi_addr = 0;
  pt_end_addr_lo_addr = 2;
  pt_end_addr_hi_addr = 0;
  context_cntl_addr = 3;
  mc_vm_fb_offset_addr = 0;
}

abbrev table_registers : ℕ → Option ℕ
table_registers addr =
    some (if addr == 1 then 0x1001 else if addr == 2 then 0x3ffff else if addr == 3 then 2 else 0)

-- Its upper entries all lead to the table at 0x5000, where the second page has another place.
abbrev leaf : ℕ → ℕ
leaf addr = if addr == 0x5008 then 0x9001 else 0x5001

abbrev tables : Bool → ℕ → Option ℕ
tables system addr = some (if ltb addr 0x5000 then 0x5001 else leaf addr)

abbrev table_helper : WalkHelper
table_helper = record {
  pt_depth = 1;
  pt_block_size = 0;
  pt_start_addr = 0;
  pt_base_addr = 0x1001;
  pt_end_addr = 0x3ffff000;
  fb_offset = 0;
  levelinfo = level_info 1 0 0 0x3ffff000;
}

abbrev upper_addr : ℕ → ℕ
upper_addr x = u64 (bit_and (x / 2 ^ 21) 0x1ff * 8 + 0x1000)

abbrev leaf_addr : ℕ → ℕ
leaf_addr x = u64 (bit_and (x / 2 ^ 12) 0x1ff * 8 + 0x5000)

abbrev table_pages : ℕ → WalkResults
table_pages x = results_of tables (get_pte_fields (leaf (leaf_addr (sub64 x 0)))) 0x1000

-- Where the walk of an address ends.
abbrev descent : ℕ → Descent
descent x = record {
  base = leaf (leaf_addr x);
  pde = get_pde_fields 0x5001;
  pde_is_pte = false;
  level = 0;
}

-- Half a page gives two pages.
starts_of : Option (Outcome (List Fragment)) → List ℕ
starts_of none = []
starts_of (some (returned l)) = map (λ f. f.va) l
starts_of (some _) = []

extra_page :
    starts_of (translate_pages page_walk (λ n. true) false 0x1800 0x800 0) ≡ 0x1000 ∷ 0x2000 ∷ []
unfolding translate_pages translate_loop take_fragment fragments_overlap starts_of
extra_page = refl

abbrev process_registers : ℕ → Option ℕ
process_registers addr = some (if addr == 0xa334 then 0x1001 else if addr == 0xa338 then 2 else 0)

abbrev process_calls : Calls
process_calls = record {
  procs = some ((100, 4) ∷ (200, 5) ∷ []);
  node = some 7;
  gpu_id = λ n. some 42;
  device_id = λ n. some 0x74a1;
  runlists = some ((runlist_of 41 ∷ []) ++ (runlist_of 42 ∷ []));
  xcc = some 0;
  reg = process_registers;
}

process_example :
    (x : Xlator) × (create_for_process process_calls 200 ≡ returned x) × IsLaidOut 0x74a1 0 1 x
unfolding process_of find_pid device_supported is_vega20 is_mi3xx is_mi300 is_mi300a is_mi300x
process_example =
    create_for_process-IsLaidOut process_calls 200 5 42 0x74a1 0 1 (runlist_of 41 ∷ [])
      (runlist_of 42) [] [] (entry_of 5) (entry_of 6 ∷ []) (process 5)
      (record {
        node = 7;
        procs = (100, 4) ∷ (200, 5) ∷ [];
        procs_are = refl;
        pid_is = refl;
        node_is = refl;
        gpu_is = refl;
        device_is = refl;
        runlists_are = refl;
        xcc_is = refl;
      })
      (omega arith, tt) refl refl refl (refl, tt) refl (omega arith) (omega arith) below refl
  where
    below :
        (w : ℕ)
        → w < 1
        → (n : ℕ) × (base_of process_registers 0x74a1 0 w ≡ returned n)
          × (n ≢ base_of_process (process 5))
    below zero l = (0, refl, omega arith)
    below (suc w) l = absurd (omega arith)

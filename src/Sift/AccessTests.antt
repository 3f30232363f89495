-- ===== src/Sift/AccessTests.antt =====
-- The theorem of the accessors on a window of registers.
use rocsift_glog_fork.Common.{
  if◌then◌else◌, refl, ℕ, ◌*◌, ◌+◌, ◌==◌, ◌^◌, ◌≡◌, ◌≢◌, ==_self, ==_differ,
}
use rocsift_glog_fork.Common.Run.{done}
use rocsift_glog_fork.Sift.Access.{
  Mmio, rsmu_index_hi_offset, rsmu_index_offset, smn_read_reg32, smn_write_reg32,
}
use rocsift_glog_fork.Sift.Access.Window.{Window, cell_of, smn_write-read}

-- The selected cell and the cells.
abbrev Registers : Type 0
Registers = (ℕ × ℕ) × (ℕ → ℕ)

abbrev selected_cell : Registers → ℕ
selected_cell s = s.0.0 * 2 ^ 32 + s.0.1

abbrev with_cell : (ℕ → ℕ) → ℕ → ℕ → ℕ → ℕ
with_cell cells place v a = if a == place then v else cells a

abbrev registers : Mmio Registers
registers = record {
  read_reg32 = λ reg s. done (s.1 (selected_cell s), s);
  write_reg32 = λ reg v s.
      if reg == rsmu_index_hi_offset
      then done ((v, s.0.1), s.1)
      else if reg == rsmu_index_offset
      then done ((s.0.0, v), s.1)
      else done (s.0, with_cell s.1 (selected_cell s) v);
}

abbrev register_window : Window registers
register_window = record {
  selected = λ s. s.0;
  cell = λ s. s.1;
  write_hi = λ v s. (((v, s.0.1), s.1), refl, refl, refl);
  write_index = λ v s. (((s.0.0, v), s.1), refl, refl, refl);
  write_data = λ v s. (
    (s.0, with_cell s.1 (selected_cell s) v),
    refl,
    rw (==_self (selected_cell s)),
    λ a differ. rw (==_differ differ),
  );
  read_data = λ s. (s, refl, refl);
}

abbrev start : Registers
start = ((0, 0), λ a. 0)

window_example :
    (t : Registers) × (smn_write_reg32 registers 0x100000050 7 start ≡ done t)
    × (cell_of 0x100000050 ≡ cell_of 0x100000050
        → (u : Registers) × (smn_read_reg32 registers 0x100000050 t ≡ done (7, u)))
    × (cell_of 0x100000050 ≢ cell_of 0x100000050
        → (u : Registers) × (smn_read_reg32 registers 0x100000050 t ≡ done (0, u)))
window_example = smn_write-read registers register_window 0x100000050 7 0x100000050 start

-- ===== src/Sift/Access/Window.antt =====
-- `DebugFSSMNAccessor` of src/sift on a window of two index registers and a data register.
use rocsift_glog_fork.Common.{arith, ap, sym, ℕ, ◌%◌, ◌*◌, ◌+◌, ◌/◌, ◌^◌, ◌≡◌, ◌≢◌, ◌∙◌}
use rocsift_glog_fork.Common.Run.{done}
use rocsift_glog_fork.Sift.Access.{
  Mmio, rsmu_data_offset, rsmu_index_hi_offset, rsmu_index_offset, smn_read_reg32, smn_select,
  smn_write_reg32,
}

-- The hardware behind the window: two index registers select a cell of the SMN address space, and
-- the data register accesses that cell.
pub record Window {S : Type 0} (mmio : Mmio S) : Type 0 where
  pub selected : S → ℕ × ℕ
  pub cell : S → ℕ → ℕ
  pub write_hi :
      (v : ℕ) (s : S)
      → (t : S) × (mmio.write_reg32 rsmu_index_hi_offset v s ≡ done t)
        × (selected t ≡ (v, (selected s).1))
        × (cell t ≡ cell s)
  pub write_index :
      (v : ℕ) (s : S)
      → (t : S) × (mmio.write_reg32 rsmu_index_offset v s ≡ done t)
        × (selected t ≡ ((selected s).0, v))
        × (cell t ≡ cell s)
  pub write_data :
      (v : ℕ) (s : S)
      → (t : S) × (mmio.write_reg32 rsmu_data_offset v s ≡ done t)
        × (cell t ((selected s).0 * 2 ^ 32 + (selected s).1) ≡ v)
        × ((a : ℕ) → a ≢ (selected s).0 * 2 ^ 32 + (selected s).1 → cell t a ≡ cell s a)
  pub read_data :
      (s : S)
      → (t : S) × (mmio.read_reg32 rsmu_data_offset s
          ≡ done (cell s ((selected s).0 * 2 ^ 32 + (selected s).1), t))
        × (cell t ≡ cell s)

-- The cell of a register number: its low 40 bits.
abbrev pub cell_of : ℕ → ℕ
cell_of reg = reg % 2 ^ 40

split_cell : (reg : ℕ) → reg / 2 ^ 32 % 2 ^ 8 * 2 ^ 32 + reg % 2 ^ 32 ≡ cell_of reg
split_cell reg = omega arith

module _ {S : Type 0} (mmio : Mmio S) (w : Window mmio) where
  abbrev at : S → ℕ
  at s = (w.selected s).0 * 2 ^ 32 + (w.selected s).1

  select_lem :
      (reg : ℕ) (s : S)
      → (t : S) × (smn_select mmio reg s ≡ done t) × (at t ≡ cell_of reg) × (w.cell t ≡ w.cell s)
  unfolding smn_select
  select_lem reg s =
      let (t, e, sel, same) = w.write_hi (reg / 2 ^ 32 % 2 ^ 8) s in
      let (u, f, sel', same') = w.write_index (reg % 2 ^ 32) t in
      let place : at u ≡ reg / 2 ^ 32 % 2 ^ 8 * 2 ^ 32 + reg % 2 ^ 32 =
        ap (λ (p : ℕ × ℕ). p.0 * 2 ^ 32 + p.1) sel'
        ∙ ap (λ (p : ℕ × ℕ). p.0 * 2 ^ 32 + reg % 2 ^ 32) sel in
      (u, rw (e, f), place ∙ split_cell reg, same' ∙ same)

  read_lem :
      (reg : ℕ) (s : S) → (t : S) × (smn_read_reg32 mmio reg s ≡ done (w.cell s (cell_of reg), t))
  unfolding smn_read_reg32
  read_lem reg s =
      let (t, e, place, same) = select_lem reg s in
      let (u, f, same') = w.read_data t in
      let value : w.cell t (at t) ≡ w.cell s (cell_of reg) =
        ap (w.cell t) place ∙ ap (λ (c : ℕ → ℕ). c (cell_of reg)) same in
      (u, rw (e, f, value))

  write_lem :
      (reg v : ℕ) (s : S)
      → (t : S) × (smn_write_reg32 mmio reg v s ≡ done t)
        × (w.cell t (cell_of reg) ≡ v)
        × ((a : ℕ) → a ≢ cell_of reg → w.cell t a ≡ w.cell s a)
  unfolding smn_write_reg32
  write_lem reg v s =
      let (t, e, place, same) = select_lem reg s in
      let (u, f, here, others) = w.write_data v t in
      (
        u,
        rw (e, f),
        ap (w.cell u) (sym place) ∙ here,
        λ a differ. others a (λ x. differ (x ∙ place)) ∙ ap (λ (c : ℕ → ℕ). c a) same,
      )

  -- After `WriteReg32` of the SMN accessor, `ReadReg32` of a register with the same low 40 bits
  -- gives the value, and of any other what its cell held before, on a window that behaves as the
  -- hardware does.
  pub smn_write-read :
      (reg v q : ℕ) (s : S)
      → (t : S) × (smn_write_reg32 mmio reg v s ≡ done t)
        × (cell_of q ≡ cell_of reg → (u : S) × (smn_read_reg32 mmio q t ≡ done (v, u)))
        × (cell_of q ≢ cell_of reg
            → (u : S) × (smn_read_reg32 mmio q t ≡ done (w.cell s (cell_of q), u)))
  smn_write-read reg v q s =
      let (t, e, here, others) = write_lem reg v s in
      let (u, f) = read_lem q t in
      (
        t,
        e,
        λ same. (u, f ∙ ap (λ x. done (x, u)) (ap (w.cell t) same ∙ here)),
        λ differ. (u, f ∙ ap (λ x. done (x, u)) (others (cell_of q) differ)),
      )

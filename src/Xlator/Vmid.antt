-- ===== src/Xlator/Vmid.antt =====
-- `sift_xlator_vmid_from_pt_base` of src/xlator/xlator.c.
use rocsift_glog_fork.Common.{◌^◌}
use rocsift_glog_fork.Xlator.Context.{register_of-supported}
use rocsift_glog_fork.Xlator.Registers.{device_supported}
use rocsift_glog_fork.Chip.{is_mi3xx}
use native.Mathlib.Nat.{zero-add, add-zero}
use rocsift_glog_fork.Common.{
  ◌≤◌, sym, ==_differ, ==_self, Option, arith, if◌then◌else◌, none, some, suc, true, zero, ℕ, ◌*◌,
  ◌+◌, ◌<◌, ◌==◌, ◌≡◌, ◌≢◌, refl, ap, ◌∙◌,
}
use rocsift_glog_fork.Xlator.Registers.{
  gfxhub_offset, vm_context0_page_table_base_addr_hi32, vm_context0_page_table_base_addr_lo32,
}
use rocsift_glog_fork.Xlator.Setup.{two_words}
use rocsift_glog_fork.Xlator.Types.{Outcome, failed, returned, ◌>>=◌}

-- The page-table base that the registers of a context hold. `reg` is `sift_partition_read_reg32`.
abbrev pub context_base : (ℕ → Option ℕ) → ℕ → ℕ → ℕ → ℕ → Outcome ℕ
context_base reg xcc_id place_lo place_hi v = gfxhub_offset xcc_id >>= λ hub.
    elim (reg (hub + 8 * v + place_lo)) [
      | none ↦ failed
      | some lo ↦ elim (reg (hub + 8 * v + place_hi)) [
        | none ↦ failed
        | some hi ↦ returned (two_words hi lo)
      ]
    ]

-- The loop over the VMIDs, from `v` on for `count` rounds.
unfoldable pub find_vmid : (ℕ → Outcome ℕ) → ℕ → ℕ → ℕ → Outcome ℕ
find_vmid base pt_base zero v = failed
find_vmid base pt_base (suc count) v =
    let later = find_vmid base pt_base count (suc v) in
    do b ← base v; if b == pt_base then returned v else later

unfoldable pub vmid_from_pt_base : (ℕ → Option ℕ) → Option ℕ → Option ℕ → ℕ → Outcome ℕ
vmid_from_pt_base reg none xcc pt_base = failed
vmid_from_pt_base reg (some device_id) none pt_base = failed
vmid_from_pt_base reg (some device_id) (some xcc_id) pt_base = do
  place_lo ← vm_context0_page_table_base_addr_lo32 device_id
  place_hi ← vm_context0_page_table_base_addr_hi32 device_id
  find_vmid (context_base reg xcc_id place_lo place_hi) pt_base 16 0

find_vmid-first :
    (base : ℕ → Outcome ℕ) (pt_base count v k : ℕ)
    → k < count
    → ((w : ℕ) → v ≤ w → w < v + k → (b : ℕ) × (base w ≡ returned b) × (b ≢ pt_base))
    → base (v + k) ≡ returned pt_base
    → find_vmid base pt_base count v ≡ returned (v + k)
unfolding find_vmid
find_vmid-first base pt_base zero v k h d e = absurd (omega arith)
find_vmid-first base pt_base (suc count) v zero h d e =
    let at : base v ≡ returned pt_base = ap base (sym (add-zero v)) ∙ e in
    rw (find_vmid, at, ==_self pt_base) (ap returned (sym (add-zero v)))
find_vmid-first base pt_base (suc count) v (suc k) h d e =
    let (b, at, other) = d v (omega arith) (omega arith) in
    let shift : v + suc k ≡ suc v + k = omega arith in
    rw (find_vmid, at, ==_differ other)
      (find_vmid-first base pt_base count (suc v) k (omega arith)
          (λ w l m. d w (omega arith) (omega arith)) (ap base (sym shift) ∙ e)
        ∙ ap returned (sym shift))

find_vmid-none :
    (base : ℕ → Outcome ℕ) (pt_base count v : ℕ)
    → ((w : ℕ) → v ≤ w → w < v + count → (b : ℕ) × (base w ≡ returned b) × (b ≢ pt_base))
    → find_vmid base pt_base count v ≡ failed
unfolding find_vmid
find_vmid-none base pt_base zero v d = refl
find_vmid-none base pt_base (suc count) v d =
    let (b, at, other) = d v (omega arith) (omega arith) in
    rw (find_vmid, at, ==_differ other)
      (find_vmid-none base pt_base count (suc v) λ w l m. d w (omega arith) (omega arith))

-- The base that a VMID's registers hold on a supported device.
abbrev pub base_of : (ℕ → Option ℕ) → ℕ → ℕ → ℕ → Outcome ℕ
base_of reg device_id xcc_id v =
    context_base reg xcc_id (if is_mi3xx device_id then 0xa32c else 0xa3ac)
      (if is_mi3xx device_id then 0xa330 else 0xa3b0) v

module _ (reg : ℕ → Option ℕ) (device_id xcc_id pt_base : ℕ) where
  supported :
      device_supported device_id ≡ true
      → vmid_from_pt_base reg (some device_id) (some xcc_id) pt_base
        ≡ find_vmid (base_of reg device_id xcc_id) pt_base 16 0
  unfolding vmid_from_pt_base
  supported s = rw (
    register_of-supported 0xa32c 0xa3ac device_id s,
    register_of-supported 0xa330 0xa3b0 device_id s,
  )

  -- On a supported device, for an XCC below 2^13, the VMID found is the first whose registers hold
  -- the page-table base, if the registers up to it can be read.
  pub vmid_from_pt_base-first :
      (v : ℕ)
      → device_supported device_id ≡ true
      → xcc_id < 2 ^ 13
      → v < 16
      → ((w : ℕ) → w < v → (b : ℕ) × (base_of reg device_id xcc_id w ≡ returned b) × (b ≢ pt_base))
      → base_of reg device_id xcc_id v ≡ returned pt_base
      → vmid_from_pt_base reg (some device_id) (some xcc_id) pt_base ≡ returned v
  vmid_from_pt_base-first v s x h d e =
      supported s
      ∙ find_vmid-first (base_of reg device_id xcc_id) pt_base 16 0 v h (λ w l m. d w (omega arith))
          (ap (base_of reg device_id xcc_id) (zero-add v) ∙ e)
      ∙ ap returned (zero-add v)

  -- If the registers of all 16 VMIDs can be read and none holds the base, the search fails.
  pub vmid_from_pt_base-none :
      device_supported device_id ≡ true
      → ((w : ℕ) → w < 16 → (b : ℕ) × (base_of reg device_id xcc_id w ≡ returned b) × (b ≢ pt_base))
      → vmid_from_pt_base reg (some device_id) (some xcc_id) pt_base ≡ failed
  vmid_from_pt_base-none s d =
      supported s
      ∙ find_vmid-none (base_of reg device_id xcc_id) pt_base 16 0 λ w l m. d w (omega arith)

-- ===== src/Xlator/Context.antt =====
-- The layout of the registers of the VM contexts.
use rocsift_glog_fork.Common.{ltb}
use rocsift_glog_fork.Xlator.Registers.{Xlator, create, device_supported, register_of}
use rocsift_glog_fork.Common.{
  arith, ap, refl, sym, ◌∙◌, if◌then◌else◌, some, true, ℕ, ◌*◌, ◌+◌, ◌<◌, ◌^◌, ◌≡◌,
}
use rocsift_glog_fork.Common.Words.{u32}
use rocsift_glog_fork.Chip.{is_mi3xx}
use rocsift_glog_fork.Xlator.Types.{returned}

-- The six 32-bit registers of a VM context.
pub data Context : Type 0 where
  base_lo base_hi start_lo start_hi end_lo end_hi : Context

abbrev pub context_addr : Xlator → Context → ℕ
context_addr x base_lo = x.pt_base_addr_lo_addr
context_addr x base_hi = x.pt_base_addr_hi_addr
context_addr x start_lo = x.pt_start_addr_lo_addr
context_addr x start_hi = x.pt_start_addr_hi_addr
context_addr x end_lo = x.pt_end_addr_lo_addr
context_addr x end_hi = x.pt_end_addr_hi_addr

-- Where a register stands behind the first one of context 0.
abbrev pub place : Context → ℕ
place base_lo = 0
place base_hi = 4
place start_lo = 0x80
place start_hi = 0x84
place end_lo = 0x100
place end_hi = 0x104

-- The first register.
abbrev pub first_register : ℕ → ℕ
first_register device_id = if is_mi3xx device_id then 0xa32c else 0xa3ac

-- What a translator's registers are.
abbrev pub IsLaidOut : ℕ → ℕ → ℕ → Xlator → Type 0
IsLaidOut device_id xcc_id vmid x =
    (r : Context)
    → context_addr x r ≡ 0x40000 * xcc_id + first_register device_id + place r + 8 * vmid

-- A supported device has one of the layouts.
pub register_of-supported :
    (m v device_id : ℕ)
    → device_supported device_id ≡ true
    → register_of m v device_id ≡ returned (if is_mi3xx device_id then m else v)
unfolding register_of device_supported
register_of-supported m v device_id s = ground arith

module _ (device_id xcc_id vmid : ℕ) where
  abbrev addr : ℕ → ℕ → ℕ → ℕ
  addr stride m v = u32 (0x40000 * xcc_id + stride * vmid + (if is_mi3xx device_id then m else v))

  abbrev created : Xlator
  created = record {
    vmid = vmid;
    pt_base_addr_lo_addr = addr 8 0xa32c 0xa3ac;
    pt_base_addr_hi_addr = addr 8 0xa330 0xa3b0;
    pt_start_addr_lo_addr = addr 8 0xa3ac 0xa42c;
    pt_start_addr_hi_addr = addr 8 0xa3b0 0xa430;
    pt_end_addr_lo_addr = addr 8 0xa42c 0xa4ac;
    pt_end_addr_hi_addr = addr 8 0xa430 0xa4b0;
    context_cntl_addr = addr 4 0xa180 0xa200;
    mc_vm_fb_offset_addr = addr 0 0xa51c 0xa5ac;
  }

  create-created :
      device_supported device_id ≡ true
      → xcc_id < 2 ^ 13
      → create (some device_id) (some xcc_id) vmid ≡ returned created
  unfolding create
  create-created s k = rw (
    s,
    below,
    register_of-supported 0xa32c 0xa3ac device_id s,
    register_of-supported 0xa330 0xa3b0 device_id s,
    register_of-supported 0xa3ac 0xa42c device_id s,
    register_of-supported 0xa3b0 0xa430 device_id s,
    register_of-supported 0xa42c 0xa4ac device_id s,
    register_of-supported 0xa430 0xa4b0 device_id s,
    register_of-supported 0xa180 0xa200 device_id s,
    register_of-supported 0xa51c 0xa5ac device_id s,
  )
    where
      below : ltb xcc_id (2 ^ 13) ≡ true
      below = ground arith

  created-IsLaidOut : xcc_id < 2 ^ 13 → vmid < 16 → IsLaidOut device_id xcc_id vmid created
  created-IsLaidOut k v base_lo = ground arith
  created-IsLaidOut k v base_hi = ground arith
  created-IsLaidOut k v start_lo = ground arith
  created-IsLaidOut k v start_hi = ground arith
  created-IsLaidOut k v end_lo = ground arith
  created-IsLaidOut k v end_hi = ground arith

  -- For a supported device whose partition has an XCC, `sift_xlator_create` returns a translator,
  -- whose context registers stand where the register layout has them, if the XCC ID is below 2^13
  -- and there are 16 VMIDs.
  pub create-IsLaidOut :
      device_supported device_id ≡ true
      → xcc_id < 2 ^ 13
      → vmid < 16
      → (x : Xlator) × (create (some device_id) (some xcc_id) vmid ≡ returned x)
        × IsLaidOut device_id xcc_id vmid x
  create-IsLaidOut s k v = (created, create-created s k, created-IsLaidOut k v)

returned-injective : {x y : Xlator} → returned x ≡ returned y → x ≡ y
returned-injective e = cc

-- A place is a group of 128 bytes and one of two halves of 4.
place-parts : (r : Context) → (g : ℕ) × (half : ℕ) × (half < 2) × (place r ≡ 128 * g + 4 * half)
place-parts base_lo = (0, 0, omega arith, refl)
place-parts base_hi = (0, 1, omega arith, refl)
place-parts start_lo = (1, 0, omega arith, refl)
place-parts start_hi = (1, 1, omega arith, refl)
place-parts end_lo = (2, 0, omega arith, refl)
place-parts end_hi = (2, 1, omega arith, refl)

place-injective :
    (r q : Context) (v w : ℕ)
    → v < 16
    → w < 16
    → place r + 8 * v ≡ place q + 8 * w
    → (place r ≡ place q) × (v ≡ w)
place-injective r q v w h k e =
    let (g, a, la, ea) = place-parts r in
    let (i, b, lb, eb) = place-parts q in
    (omega (arith, ea, eb, la, lb), omega (arith, ea, eb, la, lb))

-- Translators of one device and XCC share a context register only where they have the same VMID,
-- and then it is the same register.
pub registers-distinct :
    (device_id xcc_id v w : ℕ) (x y : Xlator) (r q : Context)
    → device_supported device_id ≡ true
    → xcc_id < 2 ^ 13
    → v < 16
    → w < 16
    → create (some device_id) (some xcc_id) v ≡ returned x
    → create (some device_id) (some xcc_id) w ≡ returned y
    → context_addr x r ≡ context_addr y q
    → (place r ≡ place q) × (v ≡ w)
registers-distinct device_id xcc_id v w x y r q s k hv hw cx cy e = place-injective r q v w hv hw (
    omega (
      arith,
      created-IsLaidOut device_id xcc_id v k hv r,
      created-IsLaidOut device_id xcc_id w k hw q,
      same_addr x r v cx,
      same_addr y q w cy,
    ))
  where
    same_addr :
        (x : Xlator) (r : Context) (v : ℕ)
        → create (some device_id) (some xcc_id) v ≡ returned x
        → context_addr (created device_id xcc_id v) r ≡ context_addr x r
    same_addr x r v c =
        ap (λ x. context_addr x r)
          (returned-injective (sym (create-created device_id xcc_id v s k) ∙ c))

-- ===== src/Xlator/Overlap.antt =====
-- `fragments_overlap` of src/xlator/xlator.c, and which overlaps it finds.
use rocsift_glog_fork.Common.{
  Bool, arith, false, if◌then◌else◌, leb, ltb, not, true, ℕ, ◌&&◌, ◌+◌, ◌<◌, ◌==◌, ◌^◌, ◌≡◌, ◌≤◌,
  ◌⊎◌, ◌↔◌,
}
use rocsift_glog_fork.Common.Words.{to_bool, u64}
use rocsift_glog_fork.Xlator.Types.{Fragment}

unfoldable pub fragments_overlap : Fragment → Fragment → Bool
fragments_overlap lhs rhs =
    if not (to_bool lhs.flags.valid)
    then false
    else if not (to_bool rhs.flags.valid)
    then false
    else if lhs.va == rhs.va && lhs.pa == rhs.pa && lhs.size == rhs.size
    then true
    else if leb lhs.va rhs.va && ltb rhs.va (u64 (lhs.va + lhs.size))
    then true
    else if leb lhs.pa rhs.pa && ltb rhs.pa (u64 (lhs.pa + lhs.size))
    then true
    else leb rhs.pa lhs.pa && ltb lhs.pa (u64 (rhs.pa + rhs.size))

-- An address in a range.
abbrev pub IsIn : ℕ → ℕ → ℕ → Type 0
IsIn x start size = (start ≤ x) × (x < start + size)

-- A fragment with at least a byte whose ranges end below 2^64.
pub record FitsFragment (f : Fragment) : Type 0 where
  pub va_end : f.va + f.size < 2 ^ 64
  pub pa_end : f.pa + f.size < 2 ^ 64
  pub some_byte : 0 < f.size

-- Two valid fragments that share a physical address are found, in either order.
pub fragments_overlap-physical :
    (lhs rhs : Fragment) (x : ℕ)
    → FitsFragment lhs
    → FitsFragment rhs
    → 0 < lhs.flags.valid
    → 0 < rhs.flags.valid
    → IsIn x lhs.pa lhs.size
    → IsIn x rhs.pa rhs.size
    → fragments_overlap lhs rhs ≡ true
unfolding fragments_overlap
fragments_overlap-physical lhs rhs x f g v w (a, b) (c, d) = ground (arith, f.pa_end, g.pa_end)

-- Valid fragments with disjoint physical ranges are found if the virtual range of the first holds
-- the start of the second, but not if the second starts in front of the first.
pub fragments_overlap-virtual :
    (lhs rhs : Fragment)
    → FitsFragment lhs
    → FitsFragment rhs
    → 0 < lhs.flags.valid
    → 0 < rhs.flags.valid
    → (lhs.pa + lhs.size ≤ rhs.pa) ⊎ (rhs.pa + rhs.size ≤ lhs.pa)
    → (fragments_overlap lhs rhs ≡ true) ↔ IsIn rhs.va lhs.va lhs.size
unfolding fragments_overlap
fragments_overlap-virtual lhs rhs f g v w apart =
    ground (arith, f.pa_end, g.pa_end, f.va_end, f.some_byte, g.some_byte)

-- ===== src/Xlator/Range/Pages.antt =====
-- `sift_xlator_translate_range` of src/xlator/xlator.c on pages that divide the address space.
use rocsift_glog_fork.Xlator.Types.{undefined}
use rocsift_glog_fork.Xlator.Range.{fragment_of}
use rocsift_glog_fork.Common.{
  List, [], ◌∷◌, ◌++◌, length, ℕ, ◌+◌, ◌-◌, ◌^◌, ◌≤◌, ◌<◌, Bool, true, false, ◌≡◌, refl, sym, ◌∙◌,
  if◌then◌else◌, ltb, arith, ◌⊎◌, inl, inr, Bool-cases, ltb→lt, subst,
}
use rocsift_glog_fork.Common.Words.{u64}
use rocsift_glog_fork.Xlator.Types.{Outcome, returned, failed, exited, ◌>>=◌, Fragment, WalkResults}
use rocsift_glog_fork.Xlator.Range.{and_not, grow, push, take_fragment, is_contiguous, continues}
use rocsift_glog_fork.Xlator.Overlap.{fragments_overlap}

-- The page at an address: where it starts, by the mask of the walk.
abbrev pub page_start : (ℕ → WalkResults) → ℕ → ℕ
page_start pages x = and_not x (pages x).mask

-- The results of the walks divide the addresses into pages of at most `most` bytes.
pub record ArePages (pages : ℕ → WalkResults) (most : ℕ) : Type 0 where
  pub start_le : (x : ℕ) → page_start pages x ≤ x
  pub lt_end : (x : ℕ) → x < page_start pages x + (pages x).size
  pub bounded : (x : ℕ) → (pages x).size ≤ most
  pub same :
      (x y : ℕ)
      → page_start pages x ≤ y
      → y < page_start pages x + (pages x).size
      → (page_start pages y ≡ page_start pages x) × ((pages y).size ≡ (pages x).size)

-- The address behind a page starts a page.
pub next_starts :
    (pages : ℕ → WalkResults) (most x : ℕ)
    → ArePages pages most
    → page_start pages (page_start pages x + (pages x).size) ≡ page_start pages x + (pages x).size
next_starts pages most x p = elim (Bool-cases (ltb (page_start pages next) next)) [
  | inl h ↦ absurd (apart (ltb→lt _ _ h))
  | inr h ↦ ground (arith, p.start_le next)
]
  where
    next : ℕ
    next = page_start pages x + (pages x).size

    apart : page_start pages next < next → ⊥
    apart h =
        let (e, f) =
          p.same x (next - 1) (omega (arith, p.start_le x, p.lt_end x))
            (omega (arith, p.lt_end x)) in
        let (g, i) = p.same next (next - 1) (omega arith) (omega (arith, p.lt_end next)) in
        omega (arith, p.lt_end next)

-- A fragment begins with a page: it has its start, its physical address and its flags.
abbrev pub Begins : (ℕ → WalkResults) → Fragment → Type 0
Begins pages f =
    (y : ℕ) × (f.va ≡ page_start pages y)
    × (f.pa ≡ (pages y).pte.base_address)
    × (f.flags ≡ (pages y).pte)

-- A fragment of at least a byte, which begins with a page.
abbrev pub Stands : (ℕ → WalkResults) → Fragment → Type 0
Stands pages f = (0 < f.size) × Begins pages f

-- Such fragments that follow on each other, from one address to another.
abbrev pub Chain : (ℕ → WalkResults) → ℕ → List Fragment → ℕ → Type 0
Chain pages a [] b = a ≡ b
Chain pages a (f ∷ fs) b = ((f.va ≡ a) × Stands pages f) × Chain pages (f.va + f.size) fs b

pub Chain-snoc :
    (pages : ℕ → WalkResults) (a b : ℕ) (fs : List Fragment) (f : Fragment)
    → Chain pages a fs b
    → f.va ≡ b
    → Stands pages f
    → Chain pages a (fs ++ (f ∷ [])) (f.va + f.size)
Chain-snoc pages a b [] f h e s = ((e ∙ sym h, s), refl)
Chain-snoc pages a b (g ∷ fs) f (i, h) e s = (i, Chain-snoc pages (g.va + g.size) b fs f h e s)

-- Why a fragment cannot be added to those before it: the allocation of the next one of the list
-- fails, or the fragment is taken to overlap the page behind it.
abbrev pub Blocks : (ℕ → WalkResults) → (ℕ → Bool) → List Fragment → Fragment → Type 0
Blocks pages malloc l f =
    (malloc (length l) ≡ false)
    ⊎ (fragments_overlap f (fragment_of (f.va + f.size) (pages (f.va + f.size))) ≡ true)

-- How the run may fail: with fragments that cover the addresses from the first page to another
-- fragment, which cannot be added to them.
abbrev pub Fails : (ℕ → WalkResults) → (ℕ → Bool) → ℕ → ℕ → Type 0
Fails pages malloc a end =
    (l : List Fragment) × (f : Fragment) × Chain pages a l f.va
    × Stands pages f
    × (f.va + f.size ≤ end)
    × Blocks pages malloc l f

is_contiguous-joined :
    (prev curr : Fragment)
    → prev.va + prev.size ≡ curr.va
    → curr.va < 2 ^ 64
    → is_contiguous prev curr ≡ returned (continues prev curr)
unfolding is_contiguous
is_contiguous-joined prev curr h b = rw (is_contiguous, below) refl
  where
    below : ltb curr.va (u64 (prev.va + prev.size)) ≡ false
    below = ground arith

joins_lem :
    (combine : Bool) (prev curr : Fragment)
    → prev.va + prev.size ≡ curr.va
    → curr.va < 2 ^ 64
    → (j : Bool) × ((if combine then is_contiguous prev curr else returned false) ≡ returned j)
joins_lem true prev curr h b = (continues prev curr, is_contiguous-joined prev curr h b)
joins_lem false prev curr h b = (false, refl)

module _ (pages : ℕ → WalkResults) (malloc : ℕ → Bool) (a end : ℕ) where
  -- How a round is left: it does not end the process, fails for one of the reasons, or what it
  -- returns is covered up to an address.
  abbrev pub LeavesAt : ℕ → Outcome (Fragment × List Fragment) → Type 0
  LeavesAt b failed = Fails pages malloc a end
  LeavesAt b exited = ⊥
  LeavesAt b undefined = ⊥
  LeavesAt b (returned (p, l)) = Chain pages a l p.va × (p.va + p.size ≡ b) × Stands pages p

  joined :
      (joins : Bool) (prev : Fragment) (list : List Fragment) (curr : Fragment)
      → Chain pages a list prev.va
      → prev.va + prev.size ≡ curr.va
      → curr.va + curr.size < 2 ^ 64
      → curr.va ≤ end
      → Stands pages prev
      → Stands pages curr
      → LeavesAt (curr.va + curr.size) (
          if joins
          then returned (grow prev curr.size, list)
          else push malloc list prev >>= λ l. returned (curr, l))
  joined true prev list curr h e b t (z, p) q = (h, omega arith, (omega arith, p))
  joined false prev list curr h e b t p q = elim (Bool-cases (malloc (length list))) [
    | inl m ↦ rw m (
      subst (Chain pages a (list ++ (prev ∷ []))) e (Chain-snoc pages a prev.va list prev h refl p),
      refl,
      q,
    )
    | inr m ↦ rw m (list, prev, h, p, omega arith, inl m)
  ]

  LeavesAt-unless :
      (overlap : Bool) (m : Outcome Bool) (j : Bool) (b : ℕ)
      (f : Bool → Outcome (Fragment × List Fragment))
      → (overlap ≡ true → Fails pages malloc a end)
      → m ≡ returned j
      → LeavesAt b (f j)
      → LeavesAt b (if overlap then failed else (m >>= f))
  LeavesAt-unless true m j b f o e h = o refl
  LeavesAt-unless false m j b f o e h = subst (λ m. LeavesAt b (m >>= f)) (sym e) h

  -- A round after the first one, at an address where a page starts.
  pub take_fragment-LeavesAt :
      (combine : Bool) (prev : Fragment) (list : List Fragment) (x : ℕ)
      → Chain pages a list prev.va
      → page_start pages x ≡ x
      → prev.va + prev.size ≡ x
      → x + (pages x).size < 2 ^ 64
      → x ≤ end
      → 0 < (pages x).size
      → Stands pages prev
      → LeavesAt
          (x + (pages x).size)
          (take_fragment malloc combine prev list (fragment_of x (pages x)))
  unfolding take_fragment
  take_fragment-LeavesAt combine prev list x h s e b t z p =
      let (j, i) = joins_lem combine prev curr (e ∙ sym s) (omega (arith, s)) in
      subst (λ y. LeavesAt (y + (pages x).size) (take_fragment malloc combine prev list curr)) s
        (LeavesAt-unless (fragments_overlap prev curr) _ j (curr.va + curr.size) _ blocked i (
          joined j prev list curr h (e ∙ sym s) (omega (arith, s)) (omega (arith, s)) p
            (z, (x, refl, refl, refl))))
    where
      curr : Fragment
      curr = fragment_of x (pages x)

      blocked : fragments_overlap prev curr ≡ true → Fails pages malloc a end
      blocked o = (
        list,
        prev,
        h,
        p,
        omega arith,
        inr (subst (λ y. fragments_overlap prev (fragment_of y (pages y)) ≡ true) (sym e) o),
      )

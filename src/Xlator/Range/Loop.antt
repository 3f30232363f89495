-- ===== src/Xlator/Range/Loop.antt =====
-- The loop of `sift_xlator_translate_range` of src/xlator/xlator.c on pages.
use rocsift_glog_fork.Xlator.Types.{undefined}
use rocsift_glog_fork.Xlator.Range.Pages.{Stands}
use rocsift_glog_fork.Common.{
  List, ℕ, zero, suc, ◌+◌, ◌-◌, ◌^◌, ◌≤◌, ◌<◌, Bool, true, false, Option, none, some, ◌≡◌, refl,
  sym, ap, ◌∙◌, ltb, arith, inl, inr, Bool-cases, subst,
}
use rocsift_glog_fork.Common.Words.{u64}
use rocsift_glog_fork.Xlator.Types.{Outcome, returned, failed, exited, Fragment, WalkResults}
use rocsift_glog_fork.Xlator.Range.{
  and_not, fragment_of, take_fragment, next_fragment, translate_loop,
}
use rocsift_glog_fork.Xlator.Range.Pages.{
  Fails, ArePages, Chain, LeavesAt, next_starts, page_start, take_fragment-LeavesAt,
}

-- The loop ends, not with the process, and fails for one of the reasons, or what it returns is
-- covered from the first page to behind the range.
abbrev pub EndsCovered :
    (ℕ → WalkResults) → (ℕ → Bool) → ℕ → ℕ → ℕ → Outcome (Fragment × List Fragment) → Type 0
EndsCovered pages malloc a end target failed = Fails pages malloc a end
EndsCovered pages malloc a end target exited = ⊥
EndsCovered pages malloc a end target undefined = ⊥
EndsCovered pages malloc a end target (returned (p, l)) =
    (target ≤ p.va + p.size) × (p.va + p.size ≤ end) × Chain pages a l p.va × Stands pages p

abbrev pub Covered :
    (ℕ → WalkResults)
    → (ℕ → Bool)
    → ℕ
    → ℕ
    → ℕ
    → Option (Outcome (Fragment × List Fragment))
    → Type 0
Covered pages malloc a end target none = ⊥
Covered pages malloc a end target (some m) = EndsCovered pages malloc a end target m

-- The walks of the addresses below an end give the results of the pages, and keep what they need
-- of their state.
abbrev pub Follows :
    {C : Type 0}
    → (ℕ → C → Outcome (WalkResults × C))
    → (C → Type 0)
    → (ℕ → WalkResults)
    → ℕ
    → Type 0
Follows {C} walk Keeps pages end =
    (x : ℕ) (c : C) → x < end → Keeps c → (c' : C) × (walk x c ≡ returned (pages x, c')) × Keeps c'

module _ {C : Type 0} (walk : ℕ → C → Outcome (WalkResults × C)) (Keeps : C → Type 0)
    (malloc : ℕ → Bool) (combine : Bool) (pages : ℕ → WalkResults) (most a end : ℕ) where
  -- The loop after a fragment was taken.
  abbrev after :
      ℕ
      → ℕ
      → ℕ
      → ℕ
      → C
      → Outcome (Fragment × List Fragment)
      → Option (Outcome (Fragment × List Fragment))
  after fuel va size addr c (returned (p, l)) =
      translate_loop walk malloc combine fuel va size addr false p l c
  after fuel va size addr c failed = some failed
  after fuel va size addr c exited = some exited
  after fuel va size addr c undefined = some undefined

  loop-end :
      (fuel va size addr : ℕ) (first : Bool) (prev : Fragment) (list : List Fragment) (c : C)
      → ltb addr (u64 (va + size)) ≡ false
      → translate_loop walk malloc combine (suc fuel) va size addr first prev list c
        ≡ some (returned (prev, list))
  unfolding translate_loop
  loop-end fuel va size addr first prev list c h = rw (translate_loop, h) refl

  pub loop-step :
      (fuel va size addr : ℕ) (first : Bool) (prev : Fragment) (list : List Fragment) (c c' : C)
      (r : WalkResults) (s t : ℕ)
      → ltb addr (u64 (va + size)) ≡ true
      → walk addr c ≡ returned (r, c')
      → u64 (size + (addr - and_not addr r.mask)) ≡ s
      → u64 (and_not addr r.mask + r.size) ≡ t
      → translate_loop walk malloc combine (suc fuel) va size addr first prev list c
        ≡ after fuel va s t c'
            (next_fragment walk malloc combine first prev list (fragment_of addr r))
  unfolding translate_loop
  loop-step fuel va size addr first prev list c c' r s t h w e f =
      rw (translate_loop, h, w)
        (ap (λ u. after fuel va u (u64 (and_not addr r.mask + r.size)) c' o) e
          ∙ ap (λ u. after fuel va s u c' o) f)
    where
      o : Outcome (Fragment × List Fragment)
      o = next_fragment walk malloc combine first prev list (fragment_of addr r)

  after-Covered :
      (fuel va size target b : ℕ) (c : C) (o : Outcome (Fragment × List Fragment))
      → LeavesAt pages malloc a end b o
      → ((p : Fragment) (l : List Fragment)
          → Chain pages a l p.va
          → p.va + p.size ≡ b
          → Stands pages p
          → Covered pages malloc a end target
              (translate_loop walk malloc combine fuel va size b false p l c))
      → Covered pages malloc a end target (after fuel va size b c o)
  after-Covered fuel va size target b c (returned (p, l)) (h, e, f) k = k p l h e f
  after-Covered fuel va size target b c failed h k = h
  after-Covered fuel va size target b c exited h k = h
  after-Covered fuel va size target b c undefined h k = h

  pub loop-aligned :
      (fuel va size addr target : ℕ) (prev : Fragment) (list : List Fragment) (c : C)
      → ArePages pages most
      → Follows walk Keeps pages end
      → Keeps c
      → page_start pages addr ≡ addr
      → prev.va + prev.size ≡ addr
      → Stands pages prev
      → Chain pages a list prev.va
      → target ≤ va + size
      → va + size + most ≤ end
      → end < 2 ^ 64
      → addr ≤ va + size + most
      → 0 < fuel
      → va + size < addr + fuel
      → Covered pages malloc a end target
          (translate_loop walk malloc combine fuel va size addr false prev list c)
  loop-aligned zero va size addr target prev list c p w kc s e bp ch g r t i z m =
      absurd (omega arith)
  loop-aligned (suc fuel) va size addr target prev list c p w kc s e bp ch g r t i z m =
      elim (Bool-cases (ltb addr (u64 (va + size)))) [
        | inl h ↦ step h λ q l' c' kc' d f bq.
            loop-aligned fuel va size next target q l' c' p w kc' starts f bq d g r t (room h)
              (more h) (fuel_left h)
        | inr h ↦
            subst (Covered pages malloc a end target)
              (sym (loop-end fuel va size addr false prev list c h))
              (ground arith, omega arith, ch, bp)
      ]
    where
      curr : Fragment
      curr = fragment_of addr (pages addr)

      next : ℕ
      next = addr + (pages addr).size

      leaves :
          ltb addr (u64 (va + size)) ≡ true
          → LeavesAt pages malloc a end next (take_fragment malloc combine prev list curr)
      leaves h =
          take_fragment-LeavesAt pages malloc a end combine prev list addr ch s e
            (ground (arith, p.bounded addr)) (omega arith)
            (omega (arith, p.lt_end addr, p.start_le addr)) bp

      starts : page_start pages next ≡ next
      starts =
          subst (λ x. page_start pages (x + (pages addr).size) ≡ x + (pages addr).size) s
            (next_starts pages most addr p)

      below : ltb addr (u64 (va + size)) ≡ true → addr < va + size
      below h = ground arith

      room : ltb addr (u64 (va + size)) ≡ true → next ≤ va + size + most
      room h = omega (arith, p.bounded addr, below h)

      more : ltb addr (u64 (va + size)) ≡ true → 0 < fuel
      more h = omega (arith, below h)

      fuel_left : ltb addr (u64 (va + size)) ≡ true → va + size < next + fuel
      fuel_left h = omega (arith, p.lt_end addr)

      step :
          ltb addr (u64 (va + size)) ≡ true
          → ((q : Fragment) (l' : List Fragment) (c' : C)
              → Keeps c'
              → Chain pages a l' q.va
              → q.va + q.size ≡ next
              → Stands pages q
              → Covered pages malloc a end target
                  (translate_loop walk malloc combine fuel va size next false q l' c'))
          → Covered pages malloc a end target
              (translate_loop walk malloc combine (suc fuel) va size addr false prev list c)
      step h rec =
          let (c', q, kc') = w addr c (omega (arith, below h)) kc in
          subst (Covered pages malloc a end target)
            (sym (
              loop-step fuel va size addr false prev list c c' (pages addr) size next h q
                (omega (arith, s)) (omega (arith, s, p.bounded addr, below h))))
            (after-Covered fuel va size target next c' (take_fragment malloc combine prev list curr)
              (leaves h) (λ q l' d f bq. rec q l' c' kc' d f bq))

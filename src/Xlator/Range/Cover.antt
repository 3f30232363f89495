-- ===== src/Xlator/Range/Cover.antt =====
-- `sift_xlator_translate_range` of src/xlator/xlator.c from end to end.
use rocsift_glog_fork.Xlator.Types.{undefined}
use rocsift_glog_fork.Common.{
  List, [], length, ℕ, ◌+◌, ◌-◌, ◌*◌, ◌^◌, ◌≤◌, ◌<◌, Bool, true, Option, none, some, refl, sym,
  arith, inl, inr, Bool-cases, subst,
}
use rocsift_glog_fork.Xlator.Range.Loop.{Covered, Follows, loop-step, loop-aligned}
use rocsift_glog_fork.Xlator.Types.{Outcome, returned, failed, exited, ◌>>=◌, Fragment, WalkResults}
use rocsift_glog_fork.Xlator.Range.{fragment_of, push, translate_pages, zero_fragment}
use rocsift_glog_fork.Xlator.Range.Pages.{
  Fails, ArePages, Chain, Chain-snoc, next_starts, page_start,
}

-- What the whole function gives: fragments that follow on each other and cover the range from the
-- start of its first page on, each of which begins with a page, or a failure for one of the reasons.
abbrev pub Covers :
    (ℕ → WalkResults) → (ℕ → Bool) → ℕ → ℕ → ℕ → ℕ → Option (Outcome (List Fragment)) → Type 0
Covers pages malloc a end va size none = ⊥
Covers pages malloc a end va size (some failed) = Fails pages malloc a end
Covers pages malloc a end va size (some exited) = ⊥
Covers pages malloc a end va size (some undefined) = ⊥
Covers pages malloc a end va size (some (returned l)) =
    (b : ℕ) × (va + size ≤ b) × (b ≤ end) × Chain pages a l b

module _ {C : Type 0} (walk : ℕ → C → Outcome (WalkResults × C)) (Keeps : C → Type 0)
    (malloc : ℕ → Bool) (combine : Bool) (pages : ℕ → WalkResults) (most : ℕ) where
  finish :
      (a end va size : ℕ) (o : Option (Outcome (Fragment × List Fragment)))
      → Covered pages malloc a end (va + size) o
      → Covers pages malloc a end va size
          (elim o [ none ↦ none | some m ↦ some (m >>= λ r. push malloc r.1 r.0) ])
  finish a end va size none h = absurd h
  finish a end va size (some failed) h = h
  finish a end va size (some exited) h = absurd h
  finish a end va size (some undefined) h = absurd h
  finish a end va size (some (returned (p, l))) (j, i, k, s) =
      elim (Bool-cases (malloc (length l))) [
        | inl m ↦ rw m (p.va + p.size, j, i, Chain-snoc pages a p.va l p k refl s)
        | inr m ↦ rw m (l, p, k, s, i, inl m)
      ]

  -- The function of the walks: it covers the range or fails, and never runs out of rounds.
  pub translate_pages-Covers :
      (va size : ℕ) (c : C)
      → ArePages pages most
      → Follows walk Keeps pages (va + size + 2 * most)
      → Keeps c
      → 0 < size
      → va + size + 2 * most < 2 ^ 64
      → Covers pages malloc
          (page_start pages va)
          (va + size + 2 * most)
          va
          size
          (translate_pages walk malloc combine va size c)
  unfolding translate_pages
  translate_pages-Covers va size c p w kc z b =
      let (c', q, kc') = w va c (omega arith) kc in
      finish a end va size _ (
        subst (Covered pages malloc a end (va + size))
          (sym (
            loop-step walk Keeps malloc combine pages most a end (2 ^ 64) va size va true
              zero_fragment [] c c' (pages va) grown next (ground arith) q
              (omega (arith, p.bounded va, p.lt_end va))
              (omega (arith, p.bounded va, p.start_le va))))
          (loop-aligned walk Keeps malloc combine pages most a end (2 ^ 64) va grown next
            (va + size) (fragment_of va (pages va)) [] c' p w kc' (next_starts pages most va p) refl
            (omega (arith, p.lt_end va, p.start_le va), (va, refl, refl, refl)) refl (omega arith)
            (omega (arith, p.bounded va, p.lt_end va)) b
            (omega (arith, p.bounded va, p.start_le va)) (omega arith)
            (omega (arith, p.bounded va, p.lt_end va))))
    where
      a : ℕ
      a = page_start pages va

      end : ℕ
      end = va + size + 2 * most

      grown : ℕ
      grown = size + (va - page_start pages va)

      next : ℕ
      next = page_start pages va + (pages va).size

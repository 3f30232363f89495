-- ===== src/Xlator/Cache.antt =====
-- The walk without the cache of the walk helper, and how the two walks compare.
use rocsift_glog_fork.Xlator.Types.{undefined}
use rocsift_glog_fork.Common.{sym}
use rocsift_glog_fork.Common.{◌≢◌}
use rocsift_glog_fork.Common.{
  ==_iff, Bool, Bool-cases, Option, Option-cases, inl, inr, none, some, suc, refl, true, false,
  zero, ℕ, ◌==◌, ◌≡◌, if◌then◌else◌, ◌∙◌, ap, subst,
}
use rocsift_glog_fork.Common.Words.{sub64, to_bool}
use rocsift_glog_fork.Xlator.Fields.{get_pde_fields}
use rocsift_glog_fork.Xlator.Types.{
  Outcome, WalkCache, WalkHelper, WalkResults, exited, failed, returned, ◌>>=◌,
}
use rocsift_glog_fork.Xlator.Walk.{
  Descent, cached_ent, descend, finish, pde_addr, read_ent, store, walk_pt,
}

-- The walk without a cache, independently of the helper's arrays: each level's entry is read.
module _ (memory : Bool → ℕ → Option ℕ) where
  abbrev pub plain_descend : WalkHelper → ℕ → ℕ → ℕ → Outcome Descent
  plain_descend helper va zero base =
      let pde = get_pde_fields base in
      if to_bool pde.pte
      then returned (record { base = base; pde = pde; pde_is_pte = true; level = 0 })
      else (do
        base' ← read_ent memory (pde_addr helper 0 va pde) (to_bool pde.system)
        returned (record { base = base'; pde = pde; pde_is_pte = false; level = 0 }))
  plain_descend helper va (suc depth) base =
      let pde = get_pde_fields base in
      let more = plain_descend helper va depth in
      if to_bool pde.pte
      then returned (record { base = base; pde = pde; pde_is_pte = true; level = suc depth })
      else (do
        base' ← read_ent memory (pde_addr helper (suc depth) va pde) (to_bool pde.system)
        more base')

  abbrev pub plain_walk : ℕ → WalkHelper → Outcome WalkResults
  plain_walk va helper = if helper.pt_depth == 0 then failed else (do
    let offset = sub64 va helper.pt_start_addr
    d ← plain_descend helper offset helper.pt_depth helper.pt_base_addr
    finish memory helper offset d)

  -- What the cache holds for a level is what the memory of one side holds at that address. The
  -- address 0 stands for nothing held, as in the cache that a translation starts with.
  abbrev pub Coherent : Bool → WalkCache → Type 0
  Coherent side cache =
      (depth : ℕ)
      → cache.pde_addrs depth ≢ 0
      → memory side (cache.pde_addrs depth) ≡ some (cache.raw_pdes depth)

  -- The entries that the walk reads on its way down lie on one side, in system memory or in VRAM,
  -- and none of them at the address 0.
  abbrev pub OnPath : Bool → WalkHelper → ℕ → ℕ → ℕ → Type 0
  OnPath side helper va zero base =
      let pde = get_pde_fields base in
      to_bool pde.pte ≡ false → (to_bool pde.system ≡ side) × (pde_addr helper 0 va pde ≢ 0)
  OnPath side helper va (suc depth) base =
      let pde = get_pde_fields base in
      to_bool pde.pte ≡ false
      → (to_bool pde.system ≡ side)
        × (pde_addr helper (suc depth) va pde ≢ 0)
        × ((val : ℕ)
            → memory side (pde_addr helper (suc depth) va pde) ≡ some val
            → OnPath side helper va depth val)

-- The two ways end alike, with the same result, and what is left with the cache holds.
abbrev pub Agrees :
    {A : Type 0} → (A → WalkCache → Type 0) → Outcome (A × WalkCache) → Outcome A → Type 0
Agrees P (returned (a, cache)) (returned b) = (a ≡ b) × P a cache
Agrees P (returned (a, cache)) failed = ⊥
Agrees P (returned (a, cache)) exited = ⊥
Agrees P failed (returned b) = ⊥
Agrees P failed failed = Unit
Agrees P failed exited = ⊥
Agrees P exited (returned b) = ⊥
Agrees P exited failed = ⊥
Agrees P exited exited = Unit
Agrees P (returned (a, cache)) undefined = ⊥
Agrees P failed undefined = ⊥
Agrees P exited undefined = ⊥
Agrees P undefined (returned b) = ⊥
Agrees P undefined failed = ⊥
Agrees P undefined exited = ⊥
Agrees P undefined undefined = Unit

Agrees-bind :
    {A B : Type 0} (P : A → WalkCache → Type 0) (Q : B → WalkCache → Type 0)
    (m : Outcome (A × WalkCache)) (n : Outcome A) (f : A × WalkCache → Outcome (B × WalkCache))
    (g : A → Outcome B)
    → Agrees P m n
    → ((a : A) (cache : WalkCache) → P a cache → Agrees Q (f (a, cache)) (g a))
    → Agrees Q (m >>= f) (n >>= g)
Agrees-bind P Q (returned (a, cache)) (returned b) f g (e, p) k =
    subst (λ x. Agrees Q (f (a, cache)) (g x)) e (k a cache p)
Agrees-bind P Q (returned (a, cache)) failed f g h k = absurd h
Agrees-bind P Q (returned (a, cache)) exited f g h k = absurd h
Agrees-bind P Q failed (returned b) f g h k = absurd h
Agrees-bind P Q failed failed f g h k = tt
Agrees-bind P Q failed exited f g h k = absurd h
Agrees-bind P Q exited (returned b) f g h k = absurd h
Agrees-bind P Q exited failed f g h k = absurd h
Agrees-bind P Q exited exited f g h k = tt
Agrees-bind P Q (returned (a, cache)) undefined f g h k = absurd h
Agrees-bind P Q failed undefined f g h k = absurd h
Agrees-bind P Q exited undefined f g h k = absurd h
Agrees-bind P Q undefined (returned b) f g h k = absurd h
Agrees-bind P Q undefined failed f g h k = absurd h
Agrees-bind P Q undefined exited f g h k = absurd h
Agrees-bind P Q undefined undefined f g h k = tt

Agrees-if :
    {A : Type 0} (P : A → WalkCache → Type 0) (b : Bool) (m m' : Outcome (A × WalkCache))
    (n n' : Outcome A)
    → Agrees P m n
    → (b ≡ false → Agrees P m' n')
    → Agrees P (if b then m else m') (if b then n else n')
Agrees-if P true m m' n n' h k = h
Agrees-if P false m m' n n' h k = k refl

-- Carrying an unchanged cache through.
Agrees-plain :
    {A : Type 0} (P : A → WalkCache → Type 0) (n : Outcome A) (cache : WalkCache)
    → ((a : A) → P a cache)
    → Agrees P (do a ← n; returned (a, cache)) n
Agrees-plain P (returned a) cache h = (refl, h a)
Agrees-plain P failed cache h = tt
Agrees-plain P exited cache h = tt
Agrees-plain P undefined cache h = tt

module _ (memory : Bool → ℕ → Option ℕ) (side : Bool) where
  read_ent-some :
      (system : Bool) (addr : ℕ) {val : ℕ}
      → memory system addr ≡ some val
      → read_ent memory addr system ≡ returned val
  read_ent-some system addr e = rw (read_ent, e)

  read_ent-none :
      (system : Bool) (addr : ℕ) → memory system addr ≡ none → read_ent memory addr system ≡ exited
  read_ent-none system addr e = rw (read_ent, e)

  -- Of an entry: that the memory holds it, and a coherent cache.
  abbrev Entry : ℕ → ℕ → WalkCache → Type 0
  Entry addr base cache = (memory side addr ≡ some base) × Coherent memory side cache

  abbrev pub Kept : {A : Type 0} → A → WalkCache → Type 0
  Kept a cache = Coherent memory side cache

  store-Coherent :
      (cache : WalkCache) (depth addr base : ℕ)
      → Coherent memory side cache
      → memory side addr ≡ some base
      → Coherent memory side (record {
        pde_addrs = store cache.pde_addrs depth addr;
        raw_pdes = store cache.raw_pdes depth base;
      })
  store-Coherent cache depth addr base c e d = elim (Bool-cases (d == depth)) [
    | inl h ↦ rw h λ k. e
    | inr h ↦ rw h (c d)
  ]

  cached_ent-Agrees :
      (depth addr : ℕ) (cache : WalkCache)
      → addr ≢ 0
      → Coherent memory side cache
      → Agrees (Entry addr) (cached_ent memory depth addr side cache) (read_ent memory addr side)
  unfolding cached_ent
  cached_ent-Agrees depth addr cache z c = elim (Bool-cases (addr == cache.pde_addrs depth)) [
    | inl e ↦
        let same : addr ≡ cache.pde_addrs depth = (==_iff addr (cache.pde_addrs depth)).0 e in
        let held : memory side addr ≡ some (cache.raw_pdes depth) =
          ap (memory side) same ∙ c depth (λ k. z (same ∙ k)) in
        rw (e, read_ent-some side addr held) (refl, (held, c))
    | inr e ↦ elim (Option-cases (memory side addr)) [
      | inl gone ↦ rw (e, read_ent-none side addr gone) tt
      | inr (val, held) ↦
          rw (e, read_ent-some side addr held)
            (refl, (held, store-Coherent cache depth addr val c held))
    ]
  ]

  -- The same for an entry that is known to lie on the side.
  side-Agrees :
      (depth addr : ℕ) (system : Bool) (cache : WalkCache)
      → system ≡ side
      → addr ≢ 0
      → Coherent memory side cache
      → Agrees
          (Entry addr)
          (cached_ent memory depth addr system cache)
          (read_ent memory addr system)
  side-Agrees depth addr system cache s z c =
      subst
        (λ t. Agrees (Entry addr) (cached_ent memory depth addr t cache) (read_ent memory addr t))
        (sym s) (cached_ent-Agrees depth addr cache z c)

  descend-Agrees :
      (helper : WalkHelper) (va depth base : ℕ) (cache : WalkCache)
      → OnPath memory side helper va depth base
      → Coherent memory side cache
      → Agrees Kept
          (descend memory helper va depth base cache)
          (plain_descend memory helper va depth base)
  unfolding descend
  descend-Agrees helper va zero base cache on c =
      let pde = get_pde_fields base in
      let addr = pde_addr helper 0 va pde in
      Agrees-if Kept (to_bool pde.pte) _ _ _ _ (refl, c)
        λ h.
          Agrees-bind (Entry addr) Kept (cached_ent memory 0 addr (to_bool pde.system) cache)
            (read_ent memory addr (to_bool pde.system)) _ _
            (side-Agrees 0 addr (to_bool pde.system) cache (on h).0 (on h).1 c)
            λ base' cache' e. (refl, e.1)
  descend-Agrees helper va (suc depth) base cache on c =
      let pde = get_pde_fields base in
      let addr = pde_addr helper (suc depth) va pde in
      Agrees-if Kept (to_bool pde.pte) _ _ _ _ (refl, c)
        λ h.
          let (s, z, below) = on h in
          Agrees-bind (Entry addr) Kept
            (cached_ent memory (suc depth) addr (to_bool pde.system) cache)
            (read_ent memory addr (to_bool pde.system)) _ _
            (side-Agrees (suc depth) addr (to_bool pde.system) cache s z c)
            λ base' cache' e. descend-Agrees helper va depth base' cache' (below base' e.0) e.1

  -- A walk with a coherent cache, such as the empty one, ends as the walk that reads every entry,
  -- with the same result, and leaves a coherent cache, if the entries that the walk reads on its way
  -- down all lie on one side, system memory or VRAM, and none at the address 0.
  pub walk_pt-Agrees :
      (va : ℕ) (helper : WalkHelper) (cache : WalkCache)
      → OnPath memory side helper
          (sub64 va helper.pt_start_addr)
          helper.pt_depth
          helper.pt_base_addr
      → Coherent memory side cache
      → Agrees Kept (walk_pt memory va helper cache) (plain_walk memory va helper)
  unfolding walk_pt
  walk_pt-Agrees va helper cache on c =
      let offset = sub64 va helper.pt_start_addr in
      Agrees-if Kept (helper.pt_depth == 0) _ _ _ _ tt λ h.
        Agrees-bind Kept Kept
          (descend memory helper offset helper.pt_depth helper.pt_base_addr cache)
          (plain_descend memory helper offset helper.pt_depth helper.pt_base_addr) _ _
          (descend-Agrees helper offset helper.pt_depth helper.pt_base_addr cache on c)
          λ d cache' k. Agrees-plain Kept (finish memory helper offset d) cache' λ _. k

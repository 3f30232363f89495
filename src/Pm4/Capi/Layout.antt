-- ===== src/Pm4/Capi/Layout.antt =====
-- The memory that src/pm4/pm4.cc builds for a list of runlists, and a range of it that is free.
use rocsift_glog_fork.Common.{
  ==_differ, ==_self, Bool-cases, List, Option, [], arith, inl, inr, length, ltb, ltb→lt, none,
  refl, some, subst, suc, sym, ℕ, ◌+◌, ◌<◌, ◌∙◌, ◌∷◌, ◌≡◌, ◌≢◌, ◌≤◌, ◌⊎◌,
}
use rocsift_glog_fork.Common.Run.{done}
use rocsift_glog_fork.Pm4.Heap.{
  Block, EntryCell, Heap, Ptr, RunlistCell, body_block, entries_block, free, runlist_block,
  series_block, update,
}
use rocsift_glog_fork.Pm4.Types.{Entry, Node}

-- A runlist as the parser returns it.
pub record Runlist : Type 0 where
  pub node : Node
  pub entries : List Entry

-- Where the series node of a section stands whose bodies begin at `a`, and where the next begins.
abbrev pub node_addr : ℕ → Runlist → ℕ
node_addr a r = a + length r.entries

abbrev pub next_section : ℕ → Runlist → ℕ
next_section a r = suc (suc (suc (node_addr a r)))

abbrev pub end_addr : ℕ → List Runlist → ℕ
end_addr a [] = a
end_addr a (r ∷ rs) = end_addr (next_section a r) rs

-- The first node of the sections from `a` on.
abbrev pub first : ℕ → List Runlist → Ptr
first a [] = none
first a (r ∷ rs) = some (node_addr a r)

-- The cells of the entries whose bodies stand from `a` on.
abbrev pub cells_at : ℕ → List Entry → List EntryCell
cells_at a [] = []
cells_at a (e ∷ es) = record { header = e.header; body = a } ∷ cells_at (suc a) es

abbrev pub runlist_at : ℕ → Runlist → RunlistCell
runlist_at a r = record {
  node = r.node;
  entries = some (suc (suc (node_addr a r)));
  num_entries = length r.entries;
}

abbrev pub BodiesAt : Heap → ℕ → List Entry → Type 0
BodiesAt h a [] = Unit
BodiesAt h a (e ∷ es) = (h.cell a ≡ some (body_block e.body)) × BodiesAt h (suc a) es

-- The blocks of a section, with the node that follows.
abbrev pub NodeAt : Heap → ℕ → Runlist → Ptr → Type 0
NodeAt h a r next =
    (h.cell (node_addr a r)
      ≡ some (series_block (record { runlist = some (suc (node_addr a r)); next = next })))
    × (h.cell (suc (node_addr a r)) ≡ some (runlist_block (runlist_at a r)))
    × (h.cell (suc (suc (node_addr a r))) ≡ some (entries_block (cells_at a r.entries)))

-- The blocks of the sections from `a` on: each node points to the next, and the last to none.
abbrev pub ListAt : Heap → ℕ → List Runlist → Type 0
ListAt h a [] = Unit
ListAt h a (r ∷ rs) =
    BodiesAt h a r.entries
    × NodeAt h a r (first (next_section a r) rs)
    × ListAt h (next_section a r) rs

-- Two memories hold the same in a range.
abbrev pub SameFrom : ℕ → Heap → Heap → Type 0
SameFrom a h g = (q : ℕ) → a ≤ q → g.cell q ≡ h.cell q

abbrev pub SameBelow : ℕ → Heap → Heap → Type 0
SameBelow a h g = (q : ℕ) → q < a → g.cell q ≡ h.cell q

-- `g` is `h` with nothing from `a` up to `b`.
pub record Erased (a b : ℕ) (h g : Heap) : Type 0 where
  pub next_same : g.next_addr ≡ h.next_addr
  pub gone : (q : ℕ) → a ≤ q → q < b → g.cell q ≡ none
  pub below : SameBelow a h g
  pub above : SameFrom b h g

pub update-same : (f : ℕ → Option Block) (a : ℕ) (b : Option Block) → update f a b a ≡ b
update-same f a b = rw (==_self a)

pub update-other :
    (f : ℕ → Option Block) (a : ℕ) (b : Option Block) (q : ℕ) → q ≢ a → update f a b q ≡ f q
update-other f a b q d = rw (==_differ d)

pub Erased-none : (a : ℕ) (h : Heap) → Erased a a h h
Erased-none a h = record {
  next_same = refl;
  gone = λ q l u. absurd (omega arith);
  below = λ q l. refl;
  above = λ q l. refl;
}

pub lt_or_le : (a b : ℕ) → (a < b) ⊎ (b ≤ a)
lt_or_le a b = elim (Bool-cases (ltb a b)) [
  | inl t ↦ inl (ltb→lt a b t)
  | inr f ↦ inr (ground arith)
]

-- Ranges side by side.
pub Erased-join :
    (a b c : ℕ) (h g f : Heap) → a ≤ b → b ≤ c → Erased a b h g → Erased b c g f → Erased a c h f
Erased-join a b c h g f ab bc x y = record {
  next_same = y.next_same ∙ x.next_same;
  gone = λ q l u. elim (lt_or_le q b) [ inl s ↦ y.below q s ∙ x.gone q l s | inr s ↦ y.gone q s u ];
  below = λ q l. y.below q (omega arith) ∙ x.below q l;
  above = λ q l. y.above q l ∙ x.above q (omega arith);
}

-- The same, where the upper range is freed first.
pub Erased-join_down :
    (a b c : ℕ) (h g f : Heap) → a ≤ b → b ≤ c → Erased b c h g → Erased a b g f → Erased a c h f
Erased-join_down a b c h g f ab bc x y = record {
  next_same = y.next_same ∙ x.next_same;
  gone = λ q l u. elim (lt_or_le q b) [ inl s ↦ y.gone q l s | inr s ↦ y.above q s ∙ x.gone q s u ];
  below = λ q l. y.below q l ∙ x.below q (omega arith);
  above = λ q l. y.above q (omega arith) ∙ x.above q l;
}

-- `free` of a block.
pub free-Erased :
    (a : ℕ) (h : Heap) (b : Block)
    → h.cell a ≡ some b
    → (g : Heap) × (free (some a) h ≡ done g) × Erased a (suc a) h g
unfolding free
free-Erased a h b e =
    let g : Heap = record { next_addr = h.next_addr; cell = update h.cell a none } in
    (
      g,
      rw (free, e) refl,
      record {
        next_same = refl;
        gone =
            λ q l u. subst (λ x. g.cell x ≡ none) (sym (omega arith)) (update-same h.cell a none);
        below = λ q l. update-other h.cell a none q (omega arith);
        above = λ q l. update-other h.cell a none q (omega arith);
      },
    )

pub BodiesAt-same :
    (a : ℕ) (es : List Entry) (h g : Heap)
    → ((q : ℕ) → a ≤ q → q < a + length es → g.cell q ≡ h.cell q)
    → BodiesAt h a es
    → BodiesAt g a es
BodiesAt-same a [] h g s b = tt
BodiesAt-same a (e ∷ es) h g s b = (
  s a (omega arith) (omega arith) ∙ b.0,
  BodiesAt-same (suc a) es h g (λ q l u. s q (omega arith) (omega arith)) b.1,
)

pub NodeAt-same :
    (a : ℕ) (r : Runlist) (next : Ptr) (h g : Heap)
    → SameFrom (node_addr a r) h g
    → NodeAt h a r next
    → NodeAt g a r next
NodeAt-same a r next h g s n = (
  s (node_addr a r) (omega arith) ∙ n.0,
  s (suc (node_addr a r)) (omega arith) ∙ n.1,
  s (suc (suc (node_addr a r))) (omega arith) ∙ n.2,
)

pub ListAt-same :
    (a : ℕ) (rs : List Runlist) (h g : Heap) → SameFrom a h g → ListAt h a rs → ListAt g a rs
ListAt-same a [] h g s l = tt
ListAt-same a (r ∷ rs) h g s l = (
  BodiesAt-same a r.entries h g (λ q u v. s q u) l.0,
  NodeAt-same a r (first (next_section a r) rs) h g (λ q u. s q (omega arith)) l.1,
  ListAt-same (next_section a r) rs h g (λ q u. s q (omega arith)) l.2,
)

-- A range that held nothing before.
pub Erased-fresh :
    (a b : ℕ) (h g f : Heap)
    → ((q : ℕ) → a ≤ q → h.cell q ≡ none)
    → SameBelow a h g
    → SameFrom b h g
    → Erased a b g f
    → (q : ℕ) → f.cell q ≡ h.cell q
Erased-fresh a b h g f fresh below above x q = elim (lt_or_le q a) [
  | inl u ↦ x.below q u ∙ below q u
  | inr u ↦ elim (lt_or_le q b) [
    | inl v ↦ x.gone q u v ∙ sym (fresh q u)
    | inr v ↦ x.above q v ∙ above q v
  ]
]

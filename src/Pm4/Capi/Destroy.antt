-- ===== src/Pm4/Capi/Destroy.antt =====
-- `sift_pm4_destroy_runlists` of src/pm4/pm4.cc on a list in memory.
use native.Mathlib.Nat.{add-zero, suc-add, zero-add}
use rocsift_glog_fork.Common.{
  List, [], ap, arith, leb, length, refl, some, subst, suc, sym, take, true, ℕ, ◌+◌, ◌∙◌, ◌∷◌, ◌≡◌,
  ◌≤◌,
}
use rocsift_glog_fork.Common.Run.{done, done_inj, success, ◌>>=◌}
use rocsift_glog_fork.Pm4.Capi.{destroy_loop, destroy_runlist, destroy_runlist_entries, free_bodies}
use rocsift_glog_fork.Pm4.Capi.Layout.{
  BodiesAt, BodiesAt-same, Erased, Erased-join, Erased-join_down, Erased-none, ListAt, ListAt-same,
  NodeAt, Runlist, cells_at, end_addr, first, free-Erased, next_section, node_addr, runlist_at,
}
use rocsift_glog_fork.Pm4.Heap.{
  EntryCell, Heap, Ptr, as_entries, body_block, entries_block, free, load, runlist_block,
  series_block,
}
use rocsift_glog_fork.Pm4.Types.{Entry}

sum_lem : (a n : ℕ) → suc a + n ≡ a + suc n
sum_lem a n = omega arith

pub free_bodies-Erased :
    (a : ℕ) (es : List Entry) (h : Heap)
    → BodiesAt h a es
    → (g : Heap) × (free_bodies (cells_at a es) h ≡ done g) × Erased a (a + length es) h g
unfolding free_bodies
free_bodies-Erased a [] h b = (h, refl, rw add-zero (Erased-none a h))
free_bodies-Erased a (e ∷ es) h b =
    let (f, free_e, x) = free-Erased a h (body_block e.body) b.0 in
    let (g, rest_e, y) =
      free_bodies-Erased (suc a) es f (BodiesAt-same (suc a) es h f (λ q l u. x.above q l) b.1) in
    (
      g,
      rw (free_e, rest_e) refl,
      subst (λ (n : ℕ). Erased a n h g) (sum_lem a (length es))
          (Erased-join a (suc a) (suc a + length es) h f g (omega arith) (omega arith) x y),
    )

take-cells : (a : ℕ) (es : List Entry) → take (length es) (cells_at a es) ≡ cells_at a es
take-cells a [] = refl
take-cells a (e ∷ es) = ap (λ r. record { header = e.header; body = a } ∷ r) (take-cells (suc a) es)

pub length-cells : (a : ℕ) (es : List Entry) → length (cells_at a es) ≡ length es
length-cells a [] = refl
length-cells a (e ∷ es) = ap suc (length-cells (suc a) es)

leb_self : (n : ℕ) → leb n n ≡ true
leb_self n = ground arith

-- The entries' array behind a pointer.
load_entries :
    (a : ℕ) (h : Heap) (es : List EntryCell)
    → h.cell a ≡ some (entries_block es)
    → (load (some a) h >>= as_entries) ≡ done es
unfolding load
load_entries a h es e = rw (load, e) refl

destroy_many :
    (p : Ptr) (cs : List EntryCell) (n : ℕ) (h : Heap)
    → (load p h >>= as_entries) ≡ done cs
    → length cs ≡ suc n
    → destroy_runlist_entries p (suc n) h ≡ (free_bodies (take (suc n) cs) h >>= free p)
unfolding destroy_runlist_entries
destroy_many p cs n h e l = rw (destroy_runlist_entries, e, l, leb_self (suc n)) refl

pub destroy_entries :
    (p : ℕ) (a : ℕ) (es : List Entry) (h f g : Heap)
    → h.cell p ≡ some (entries_block (cells_at a es))
    → free_bodies (cells_at a es) h ≡ done f
    → free (some p) f ≡ done g
    → destroy_runlist_entries (some p) (length es) h ≡ done g
unfolding destroy_runlist_entries free_bodies
destroy_entries p a [] h f g e b c = subst (λ x. free (some p) x ≡ done g) (sym (done_inj b)) c
destroy_entries p a (x ∷ es) h f g e b c =
    destroy_many (some p) (cells_at a (x ∷ es)) (length es) h
      (load_entries p h (cells_at a (x ∷ es)) e) (length-cells a (x ∷ es))
    ∙ ap (λ cs. free_bodies cs h >>= free (some p)) (take-cells a (x ∷ es))
    ∙ rw b c

-- A section, by the first round of the loop.
pub destroy_node :
    (a : ℕ) (r : Runlist) (next : Ptr) (h : Heap)
    → BodiesAt h a r.entries
    → NodeAt h a r next
    → (g : Heap) × ((fuel : ℕ)
        → destroy_loop (suc fuel) (some (node_addr a r)) h ≡ destroy_loop fuel next g)
      × Erased a (next_section a r) h g
unfolding destroy_loop destroy_runlist load
destroy_node a r next h b n =
    let s = node_addr a r in
    let (h1, free_b, x1) = free_bodies-Erased a r.entries h b in
    let (h2, free_es, x2) =
      free-Erased (suc (suc s)) h1 (entries_block (cells_at a r.entries))
        (x1.above (suc (suc s)) (omega arith) ∙ n.2) in
    let (h3, free_r, x3) =
      free-Erased (suc s) h2 (runlist_block (runlist_at a r))
        (x2.below (suc s) (omega arith) ∙ x1.above (suc s) (omega arith) ∙ n.1) in
    let (h4, free_s, x4) =
      free-Erased s h3 (series_block (record { runlist = some (suc s); next = next }))
        (x3.below s (omega arith) ∙ x2.below s (omega arith) ∙ x1.above s (omega arith) ∙ n.0) in
    (
      h4,
      (λ fuel.
          rw
            (
              destroy_loop,
              n.0,
              n.1,
              destroy_entries (suc (suc s)) a r.entries h h1 h2 n.2 free_b free_es,
              free_r,
              free_s,
            )
            refl),
      Erased-join a s (next_section a r) h h1 h4 (omega arith) (omega arith) x1 (
          Erased-join_down s (suc s) (next_section a r) h1 h3 h4 (omega arith) (omega arith)
            (Erased-join_down (suc s) (suc (suc s)) (next_section a r) h1 h2 h3 (omega arith)
              (omega arith) x2 x3)
            x4),
    )

pub end_addr-le : (a : ℕ) (rs : List Runlist) → a ≤ end_addr a rs
end_addr-le a [] = omega arith
end_addr-le a (r ∷ rs) = omega (arith, end_addr-le (next_section a r) rs)

-- The whole list.
pub destroy_loop-ListAt :
    (a : ℕ) (rs : List Runlist) (h : Heap) (fuel : ℕ)
    → ListAt h a rs
    → (g : Heap) × (destroy_loop (length rs + suc fuel) (first a rs) h ≡ done (success, g))
      × Erased a (end_addr a rs) h g
unfolding destroy_loop
destroy_loop-ListAt a [] h fuel l = (h, rw zero-add refl, Erased-none a h)
destroy_loop-ListAt a (r ∷ rs) h fuel l =
    let b = next_section a r in
    let (f, round, x) = destroy_node a r (first b rs) h l.0 l.1 in
    let (g, rest, y) = destroy_loop-ListAt b rs f fuel (ListAt-same b rs h f x.above l.2) in
    (
      g,
      rw suc-add (round (length rs + suc fuel) ∙ rest),
      Erased-join a b (end_addr b rs) h f g (omega arith) (end_addr-le b rs) x y,
    )

-- ===== src/Pm4/Capi/Round.antt =====
-- A round of the loop of `sift_pm4_parse_runlists` of src/pm4/pm4.cc, where there is memory.
use rocsift_glog_fork.Common.{
  ap, arith, none, refl, some, subst, suc, true, ℕ, ◌<◌, ◌∙◌, ◌≡◌, ◌≢◌, ◌≤◌,
}
use rocsift_glog_fork.Common.Run.{done}
use rocsift_glog_fork.Pm4.Capi.{place_bodies}
use rocsift_glog_fork.Pm4.Capi.Append.{
  append_node-malloc, full_at, leaf_at, place_bodies-BodiesAt, place_bodies-above,
  place_bodies-below, place_bodies-cells, place_bodies-next, put, store-put, with_node,
  with_node-above, with_node-below, with_node-entries, with_node-runlist, with_node-series,
}
use rocsift_glog_fork.Pm4.Capi.Destroy.{length-cells}
use rocsift_glog_fork.Pm4.Capi.Layout.{
  BodiesAt, BodiesAt-same, NodeAt, Runlist, SameBelow, SameFrom, cells_at, next_section, node_addr,
  update-other, update-same,
}
use rocsift_glog_fork.Pm4.Capi.Series.{SeriesList, append_node, goes_on, link_prev, set_head}
use rocsift_glog_fork.Pm4.Heap.{Heap, Ptr, entries_block, load, runlist_block, series_block, store}

-- The node that was appended last, if there is one.
abbrev pub PrevAt : Heap → Ptr → Ptr → Ptr → Type 0
PrevAt h none run next = Unit
PrevAt h (some q) run next =
    (h.cell q ≡ some (series_block (record { runlist = run; next = next }))) × (q < h.next_addr)

abbrev pub SameBut : Ptr → ℕ → Heap → Heap → Type 0
SameBut prev a h g = (p : ℕ) → p < a → some p ≢ prev → g.cell p ≡ h.cell p

PrevAt-same :
    (prev run next : Ptr) (h g : Heap)
    → SameBelow h.next_addr h g
    → h.next_addr ≤ g.next_addr
    → PrevAt h prev run next
    → PrevAt g prev run next
PrevAt-same none run next h g s l x = tt
PrevAt-same (some q) run next h g s l x = (s q x.1 ∙ x.0, omega (arith, x.1))

-- What `prev->next = current` does.
record Linked (prev run : Ptr) (a : ℕ) (h : Heap) : Type 0 where
  after : Heap
  links : link_prev prev a h ≡ done after
  next_same : after.next_addr ≡ h.next_addr
  points : PrevAt after prev run (some a)
  others : (p : ℕ) → some p ≢ prev → after.cell p ≡ h.cell p

linked : (prev run : Ptr) (a : ℕ) (h : Heap) → PrevAt h prev run none → Linked prev run a h
unfolding link_prev load store
linked none run a h x = record {
  after = h;
  links = refl;
  next_same = refl;
  points = tt;
  others = λ p d. refl;
}
linked (some q) run a h x =
    let leaf = series_block (record { runlist = run; next = some a }) in
    record {
      after = put q leaf h;
      links = rw (link_prev, x.0) (store-put q leaf _ h x.0);
      next_same = refl;
      points = (update-same h.cell q (some leaf), x.1);
      others = λ p d. update-other h.cell q (some leaf) p (λ e. d (ap some e));
    }

-- A round of the loop, for a runlist whose bodies begin at `a`.
pub record Added (s : SeriesList) (r : Runlist) (run : Ptr) : Type 0 where
  pub after : Heap
  pub appends :
      append_node
        (λ _. true)
        (place_bodies r.entries s.heap).0
        r.node
        (record s { heap = (place_bodies r.entries s.heap).1 })
      ≡ done (
          goes_on (record {
            head = set_head s.head (node_addr s.heap.next_addr r);
            current = some (node_addr s.heap.next_addr r);
            prev = some (node_addr s.heap.next_addr r);
            heap = after;
          }))
  pub next_is : after.next_addr ≡ next_section s.heap.next_addr r
  pub bodies : BodiesAt after s.heap.next_addr r.entries
  pub node_is : NodeAt after s.heap.next_addr r none
  pub points : PrevAt after s.prev run (some (node_addr s.heap.next_addr r))
  pub others : SameBut s.prev s.heap.next_addr s.heap after
  pub above : SameFrom after.next_addr s.heap after

-- The same where the address of the node is known only by an equation.
node_here :
    (a n : ℕ) (r : Runlist) (g : Heap)
    → n ≡ node_addr a r
    → g.cell n ≡ some (leaf_at n none)
    → g.cell (suc n) ≡ some (full_at (cells_at a r.entries) r.node n)
    → g.cell (suc (suc n)) ≡ some (entries_block (cells_at a r.entries))
    → NodeAt g a r none
node_here a n r g e x y z = (
  subst (λ (m : ℕ). g.cell m ≡ some (leaf_at m none)) e x,
  subst (λ (m : ℕ). g.cell (suc m) ≡ some (full_at (cells_at a r.entries) r.node m)) e y
      ∙ ap
          (λ (k : ℕ). some (
            runlist_block (record {
              node = r.node;
              entries = some (suc (suc (node_addr a r)));
              num_entries = k;
            })))
          (length-cells a r.entries),
  subst (λ (m : ℕ). g.cell (suc (suc m)) ≡ some (entries_block (cells_at a r.entries))) e z,
)

pub prev_differs :
    (h : Heap) (prev run next : Ptr) (p : ℕ)
    → PrevAt h prev run next
    → h.next_addr ≤ p
    → some p ≢ prev
prev_differs h none run next p x l e = cc
prev_differs h (some q) run next p x l e = let same : p ≡ q = cc in absurd (omega (arith, x.1))

pub add_runlist :
    (s : SeriesList) (r : Runlist) (run : Ptr) → PrevAt s.heap s.prev run none → Added s r run
add_runlist s r run x =
    let h : Heap = (place_bodies r.entries s.heap).1 in
    let a = s.heap.next_addr in
    let cells_are = place_bodies-cells r.entries s.heap in
    let stands : h.next_addr ≡ node_addr a r = place_bodies-next r.entries s.heap in
    let cells = cells_at a r.entries in
    let w : Heap = with_node cells r.node h in
    let same : SameBelow a s.heap w = λ q l.
      with_node-below cells r.node h q (omega arith) ∙ place_bodies-below r.entries s.heap q l in
    let l =
      linked s.prev run h.next_addr w (PrevAt-same s.prev run none s.heap w same (omega arith) x) in
    let differs = λ (p : ℕ) (u : a ≤ p). prev_differs s.heap s.prev run none p x u in
    record {
      after = l.after;
      appends =
          ap (λ cs. append_node (λ _. true) cs r.node (record s { heap = h })) cells_are
          ∙ append_node-malloc cells r.node h s.head s.current s.prev l.after l.links
          ∙ ap
              (λ (n : ℕ). done (
                goes_on (record {
                  head = set_head s.head n;
                  current = some n;
                  prev = some n;
                  heap = l.after;
                })))
              stands;
      next_is = l.next_same ∙ omega arith;
      bodies =
          BodiesAt-same a r.entries h l.after
            (λ q u v.
              l.others q (prev_differs s.heap s.prev run none q x u)
              ∙ with_node-below cells r.node h q (omega arith))
            (place_bodies-BodiesAt r.entries s.heap);
      node_is =
          node_here a h.next_addr r l.after stands
            (l.others h.next_addr (differs h.next_addr (omega arith))
              ∙ with_node-series cells r.node h)
            (l.others (suc h.next_addr) (differs (suc h.next_addr) (omega arith))
              ∙ with_node-runlist cells r.node h)
            (l.others (suc (suc h.next_addr)) (differs (suc (suc h.next_addr)) (omega arith))
              ∙ with_node-entries cells r.node h);
      points = subst (λ (m : ℕ). PrevAt l.after s.prev run (some m)) stands l.points;
      others = λ q u d. l.others q d ∙ same q u;
      above = λ q u.
          l.others q (differs q (omega (arith, l.next_same)))
          ∙ with_node-above cells r.node h q (omega (arith, l.next_same))
          ∙ place_bodies-above r.entries s.heap q (omega (arith, l.next_same));
    }

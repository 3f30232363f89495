-- ===== src/Pm4/Capi/Build.antt =====
-- The loop of `sift_pm4_parse_runlists` of src/pm4/pm4.cc, where there is memory.
use native.Mathlib.Nat.{suc-add, zero-add}
use rocsift_glog_fork.Common.{
  List, [], ap, arith, length, none, refl, some, subst, suc, sym, true, ℕ, ◌+◌, ◌<◌, ◌∙◌, ◌∷◌, ◌≡◌,
  ◌≢◌, ◌≤◌,
}
use rocsift_glog_fork.Common.Run.{Exception, done, throw}
use rocsift_glog_fork.Pm4.Capi.Append.{leaf_at}
use rocsift_glog_fork.Pm4.Capi.Destroy.{end_addr-le}
use rocsift_glog_fork.Pm4.Capi.Layout.{
  BodiesAt-same, ListAt, Runlist, SameFrom, end_addr, first, next_section, node_addr,
}
use rocsift_glog_fork.Pm4.Capi.Round.{Added, PrevAt, SameBut, add_runlist, prev_differs}
use rocsift_glog_fork.Pm4.Capi.Series.{SeriesList, series_loop, set_head}
use rocsift_glog_fork.Pm4.Heap.{Heap, Ptr}
use rocsift_glog_fork.Pm4.Parser.{RlsParser, parse}

-- The calls of `Parse` return the entries of these runlists, and leave the parser `q`.
abbrev pub Calls : RlsParser → List Runlist → RlsParser → Type 0
Calls p [] q = p ≡ q
Calls p (r ∷ rs) q =
    (after : RlsParser) × (parse (λ _. true) p ≡ done (some r.entries, after))
    × (record { node_id = after.node; gpu_id = after.gpu } ≡ r.node)
    × Calls after rs q

-- The node of the last of the sections from `a` on.
abbrev pub last_of : ℕ → Ptr → List Runlist → Ptr
last_of a d [] = d
last_of a d (r ∷ rs) = last_of (next_section a r) (some (node_addr a r)) rs

abbrev pub head_of : Ptr → Ptr → Ptr
head_of none q = q
head_of (some a) q = some a

head_of-set_head :
    (head : Ptr) (a : ℕ) (q : Ptr) → head_of (set_head head a) q ≡ head_of head (some a)
head_of-set_head none a q = refl
head_of-set_head (some b) a q = refl

head_of-none : (head : Ptr) → head_of head none ≡ head
head_of-none none = refl
head_of-none (some a) = refl

-- What the loop leaves behind.
pub record Built (p q : RlsParser) (rs : List Runlist) (fuel : ℕ) (s : SeriesList) (run : Ptr)
    : Type 0 where
  pub after : Heap
  pub runs :
      series_loop (length rs + fuel) (λ _. true) p s
      ≡ series_loop fuel
          (λ _. true)
          q
          (record {
            head = head_of s.head (first s.heap.next_addr rs);
            current = last_of s.heap.next_addr s.current rs;
            prev = last_of s.heap.next_addr s.prev rs;
            heap = after;
          })
  pub ends : after.next_addr ≡ end_addr s.heap.next_addr rs
  pub lists : ListAt after s.heap.next_addr rs
  pub points : PrevAt after s.prev run (first s.heap.next_addr rs)
  pub others : SameBut s.prev s.heap.next_addr s.heap after
  pub above : SameFrom after.next_addr s.heap after

first_round :
    (fuel : ℕ) (p q : RlsParser) (r : Runlist) (s : SeriesList) (run : Ptr)
    → parse (λ _. true) p ≡ done (some r.entries, q)
    → record { node_id = q.node; gpu_id = q.gpu } ≡ r.node
    → (d : Added s r run)
    → series_loop (suc fuel) (λ _. true) p s
      ≡ series_loop fuel
          (λ _. true)
          q
          (record {
            head = set_head s.head (node_addr s.heap.next_addr r);
            current = some (node_addr s.heap.next_addr r);
            prev = some (node_addr s.heap.next_addr r);
            heap = d.after;
          })
unfolding series_loop
first_round fuel p q r s run e n d = rw (series_loop, e, n, d.appends) refl

no_round :
    (fuel : ℕ) (p q : RlsParser) (s : SeriesList)
    → p ≡ q
    → series_loop fuel (λ _. true) p s
      ≡ series_loop fuel (λ _. true) q (record s { head = head_of s.head none })
no_round fuel p q s e =
    ap (λ (x : RlsParser). series_loop fuel (λ _. true) x s) e
    ∙ ap (λ (x : Ptr). series_loop fuel (λ _. true) q (record s { head = x }))
        (sym (head_of-none s.head))

some_differs : {a b : ℕ} → a ≢ b → some a ≢ some b
some_differs d e = d cc

PrevAt-kept :
    (prev run next : Ptr) (c : ℕ) (h g : Heap)
    → SameBut (some c) h.next_addr h g
    → some c ≢ prev
    → h.next_addr ≤ g.next_addr
    → PrevAt h prev run next
    → PrevAt g prev run next
PrevAt-kept none run next c h g s d l x = tt
PrevAt-kept (some q) run next c h g s d l x = (s q x.1 (λ e. d (sym e)) ∙ x.0, omega (arith, x.1))

pub build :
    (p q : RlsParser) (rs : List Runlist) (fuel : ℕ) (s : SeriesList) (run : Ptr)
    → Calls p rs q
    → PrevAt s.heap s.prev run none
    → Built p q rs fuel s run
build p z [] fuel s run y x = record {
  after = s.heap;
  runs = rw zero-add (no_round fuel p z s y);
  ends = refl;
  lists = tt;
  points = x;
  others = λ q l d. refl;
  above = λ q l. refl;
}
build p z (r ∷ rs) fuel s run (q, e, n, y) x =
    let d = add_runlist s r run x in
    let a = s.heap.next_addr in
    let c = node_addr a r in
    let t : SeriesList = record {
      head = set_head s.head c;
      current = some c;
      prev = some c;
      heap = d.after;
    } in
    let u = build q z rs fuel t (some (suc c)) y (d.node_is.0, omega (arith, d.next_is)) in
    let inside : (k : ℕ) → k < next_section a r → k < d.after.next_addr =
      λ k l. omega (arith, d.next_is) in
    record {
      after = u.after;
      runs = rw suc-add (
          first_round (length rs + fuel) p q r s run e n d
          ∙ u.runs
          ∙ ap
              (λ (k : ℕ).
                series_loop fuel (λ _. true) z
                  (record {
                    head = head_of (set_head s.head c) (first k rs);
                    current = last_of k (some c) rs;
                    prev = last_of k (some c) rs;
                    heap = u.after;
                  }))
              d.next_is
          ∙ ap
              (λ (x : Ptr).
                series_loop fuel (λ _. true) z
                  (record {
                    head = x;
                    current = last_of a s.current (r ∷ rs);
                    prev = last_of a s.prev (r ∷ rs);
                    heap = u.after;
                  }))
              (head_of-set_head s.head c (first (next_section a r) rs)));
      ends = u.ends ∙ ap (λ (k : ℕ). end_addr k rs) d.next_is;
      lists = (
        BodiesAt-same a r.entries d.after u.after
            (λ k l v. u.others k (inside k (omega arith)) (some_differs (omega arith))) d.bodies,
        (
          subst (λ (k : ℕ). u.after.cell c ≡ some (leaf_at c (first k rs))) d.next_is u.points.0,
          u.others (suc c) (inside (suc c) (omega arith)) (some_differs (omega arith))
              ∙ d.node_is.1,
          u.others (suc (suc c)) (inside (suc (suc c)) (omega arith)) (some_differs (omega arith))
              ∙ d.node_is.2,
        ),
        subst (λ (k : ℕ). ListAt u.after k rs) d.next_is u.lists,
      );
      points =
          PrevAt-kept s.prev run (some c) c d.after u.after u.others
            (prev_differs s.heap s.prev run none c x (omega arith))
            (omega (arith, u.ends, end_addr-le d.after.next_addr rs)) d.points;
      others = λ k l w.
          u.others k (inside k (omega arith)) (some_differs (omega arith)) ∙ d.others k l w;
      above =
          λ k l. u.above k l ∙ d.above k (omega (arith, u.ends, end_addr-le d.after.next_addr rs));
    }

-- The calls of `Parse` return the entries of these runlists, and then none.
abbrev pub Yields : RlsParser → List Runlist → Type 0
Yields p rs =
    (e : RlsParser) × Calls p rs e × (q : RlsParser) × (parse (λ _. true) e ≡ done (none, q))

-- The calls of `Parse` return the entries of these runlists, and the next one throws.
abbrev pub Breaks : RlsParser → List Runlist → Type 0
Breaks p rs = (e : RlsParser) × Calls p rs e × (x : Exception) × (parse (λ _. true) e ≡ throw x)

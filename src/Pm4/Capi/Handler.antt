-- ===== src/Pm4/Capi/Handler.antt =====
-- The handler of `sift_pm4_parse_runlists` of src/pm4/pm4.cc, where a call of `Parse` throws after
-- others have returned runlists.
use native.Mathlib.Nat.{suc-add, zero-add}
use rocsift_glog_fork.Common.{
  ==_differ, ==_self, List, [], ap, arith, length, none, refl, some, suc, true, ℕ, ◌+◌, ◌-◌, ◌<◌,
  ◌∙◌, ◌∷◌, ◌≡◌, ◌≢◌, ◌≤◌,
}
use rocsift_glog_fork.Common.Run.{done, error, fault, success}
use rocsift_glog_fork.Pm4.Capi.{destroy_loop, destroy_runlists}
use rocsift_glog_fork.Pm4.Capi.Build.{Breaks, build, last_of}
use rocsift_glog_fork.Pm4.Capi.Destroy.{destroy_node}
use rocsift_glog_fork.Pm4.Capi.Layout.{
  BodiesAt-same, Erased-fresh, ListAt, Runlist, SameBelow, SameFrom, end_addr, first, next_section,
  node_addr,
}
use rocsift_glog_fork.Pm4.Capi.RoundTrip.{IsFresh, destroy_runlists-ListAt, length-end_addr}
use rocsift_glog_fork.Pm4.Capi.Series.{
  SeriesList, cleanup, cleanup_head, parse_runlists, series_loop,
}
use rocsift_glog_fork.Pm4.Heap.{Heap, Ptr, load}
use rocsift_glog_fork.Pm4.Parser.{new_all}

-- The node and the first body of the last of some sections.
abbrev last_node : ℕ → Runlist → List Runlist → ℕ
last_node a r [] = node_addr a r
last_node a r (s ∷ rs) = last_node (next_section a r) s rs

abbrev last_start : ℕ → Runlist → List Runlist → ℕ
last_start a r [] = a
last_start a r (s ∷ rs) = last_start (next_section a r) s rs

abbrev last_runlist : Runlist → List Runlist → Runlist
last_runlist r [] = r
last_runlist r (s ∷ rs) = last_runlist s rs

last_of-last_node :
    (a : ℕ) (d : Ptr) (r : Runlist) (rs : List Runlist)
    → last_of a d (r ∷ rs) ≡ some (last_node a r rs)
last_of-last_node a d r [] = refl
last_of-last_node a d r (s ∷ rs) = last_of-last_node (next_section a r) (some (node_addr a r)) s rs

last_start-le : (a : ℕ) (r : Runlist) (rs : List Runlist) → a ≤ last_start a r rs
last_start-le a r [] = omega arith
last_start-le a r (s ∷ rs) = omega (arith, last_start-le (next_section a r) s rs)

last_start-last_node :
    (a : ℕ) (r : Runlist) (rs : List Runlist)
    → last_node a r rs ≡ node_addr (last_start a r rs) (last_runlist r rs)
last_start-last_node a r [] = refl
last_start-last_node a r (s ∷ rs) = last_start-last_node (next_section a r) s rs

last-ListAt :
    (a : ℕ) (r : Runlist) (rs : List Runlist) (h : Heap)
    → ListAt h a (r ∷ rs)
    → ListAt h (last_start a r rs) (last_runlist r rs ∷ [])
last-ListAt a r [] h l = l
last-ListAt a r (s ∷ rs) h l = last-ListAt (next_section a r) s rs h l.2

end-last :
    (a : ℕ) (r : Runlist) (rs : List Runlist)
    → end_addr a (r ∷ rs) ≡ end_addr (last_start a r rs) (last_runlist r rs ∷ [])
end-last a r [] = refl
end-last a r (s ∷ rs) = end-last (next_section a r) s rs

-- Where the last node is freed, the walk from the first one reads it.
walk-fault :
    (a : ℕ) (r : Runlist) (rs : List Runlist) (h g : Heap) (fuel : ℕ)
    → ListAt h a (r ∷ rs)
    → ((q : ℕ) → a ≤ q → q < last_start a r rs → g.cell q ≡ h.cell q)
    → g.cell (last_node a r rs) ≡ none
    → destroy_loop (length rs + suc fuel) (some (node_addr a r)) g ≡ fault
unfolding destroy_loop load
walk-fault a r [] h g fuel l s gone = rw (zero-add, destroy_loop, gone) refl
walk-fault a r (t ∷ rs) h g fuel l s gone =
    let b = next_section a r in
    let low : b ≤ last_start b t rs = last_start-le b t rs in
    let (f, round, x) =
      destroy_node a r (some (node_addr b t)) g
        (BodiesAt-same a r.entries h g (λ q u v. s q u (omega arith)) l.0)
        (
          s (node_addr a r) (omega arith) (omega arith) ∙ l.1.0,
          s (suc (node_addr a r)) (omega arith) (omega arith) ∙ l.1.1,
          s (suc (suc (node_addr a r))) (omega arith) (omega arith) ∙ l.1.2,
        ) in
    rw suc-add (
      round (length rs + suc fuel)
      ∙ walk-fault b t rs h f fuel l.2 (λ q u v. x.above q u ∙ s q (omega arith) v)
          (x.above (last_node b t rs) (omega (arith, last_start-last_node b t rs)) ∙ gone))

-- The loop up to the call that throws.
reaches_handler :
    (text : List ℕ) (rs : List Runlist) (h : Heap)
    → length rs ≤ length text
    → Breaks (new_all text) rs
    → (g : Heap) × (parse_runlists (λ _. true) text h
        ≡ cleanup (record {
          head = first h.next_addr rs;
          current = last_of h.next_addr none rs;
          prev = last_of h.next_addr none rs;
          heap = g;
        }))
      × ListAt g h.next_addr rs
      × SameBelow h.next_addr h g
      × (g.next_addr ≡ end_addr h.next_addr rs)
      × SameFrom g.next_addr h g
unfolding parse_runlists series_loop
reaches_handler text rs h l (e, calls, x, throws) =
    let s : SeriesList = record { head = none; current = none; prev = none; heap = h } in
    let b = build (new_all text) e rs (suc (length text + 1 - length rs)) s none calls tt in
    (
      b.after,
      ap (λ n. series_loop n (λ _. true) (new_all text) s) (omega arith)
          ∙ b.runs
          ∙ rw (series_loop, throws) refl,
      b.lists,
      λ q u. b.others q u (λ e. cc),
      b.ends,
      λ q u. b.above q u,
    )

cleanup-one :
    (a : ℕ) (prev : Ptr) (g f : Heap)
    → destroy_runlists (some a) g ≡ done (success, f)
    → cleanup (record { head = some a; current = some a; prev = prev; heap = g })
      ≡ done (error, some a, f)
unfolding cleanup cleanup_head
cleanup-one a prev g f e = rw (cleanup, e, cleanup_head, ==_self a) refl

cleanup-fault :
    (a c : ℕ) (prev : Ptr) (g f : Heap)
    → a ≢ c
    → destroy_runlists (some c) g ≡ done (success, f)
    → destroy_runlists (some a) f ≡ fault
    → cleanup (record { head = some a; current = some c; prev = prev; heap = g }) ≡ fault
unfolding cleanup cleanup_head
cleanup-fault a c prev g f d e w = rw (cleanup, e, cleanup_head, ==_differ d, w) refl

-- Where `Parse` returns one runlist and then throws, `sift_pm4_parse_runlists` returns ERROR, the
-- memory holds what it held before, and `*runlists` points to where the freed node was.
pub parse_runlists-Breaks :
    (text : List ℕ) (r : Runlist) (h : Heap)
    → 1 ≤ length text
    → Breaks (new_all text) (r ∷ [])
    → IsFresh h
    → (f : Heap) × (parse_runlists (λ _. true) text h
        ≡ done (error, some (node_addr h.next_addr r), f))
      × ((q : ℕ) → f.cell q ≡ h.cell q)
parse_runlists-Breaks text r h one breaks fresh =
    let (g, reaches, l, below, ends, above) = reaches_handler text (r ∷ []) h one breaks in
    let (f, destroys, x) = destroy_runlists-ListAt r [] h.next_addr g l (omega (arith, ends)) in
    (
      f,
      reaches ∙ cleanup-one (node_addr h.next_addr r) _ g f destroys,
      Erased-fresh h.next_addr (next_section h.next_addr r) h g f fresh below
          (λ q u. above q (omega (arith, ends))) x,
    )

-- Where `Parse` returns two or more runlists and then throws, the handler of
-- `sift_pm4_parse_runlists` reads the last node after it has freed it.
pub parse_runlists-Breaks_many :
    (text : List ℕ) (r t : Runlist) (rs : List Runlist) (h : Heap)
    → length (r ∷ t ∷ rs) ≤ length text
    → Breaks (new_all text) (r ∷ t ∷ rs)
    → parse_runlists (λ _. true) text h ≡ fault
unfolding destroy_runlists
parse_runlists-Breaks_many text r t rs h many breaks =
    let a = h.next_addr in
    let b = next_section a r in
    let (g, reaches, l, below, ends, above) = reaches_handler text (r ∷ t ∷ rs) h many breaks in
    let c = last_node b t rs in
    let start = last_start b t rs in
    let here = last_start-last_node b t rs in
    let low = last_start-le b t rs in
    let (f, destroys, x) =
      destroy_runlists-ListAt (last_runlist t rs) [] start g (last-ListAt b t rs g l.2)
        (omega (arith, ends, end-last b t rs)) in
    reaches
    ∙ ap
        (λ (p : Ptr).
          cleanup (record { head = some (node_addr a r); current = p; prev = p; heap = g }))
        (last_of-last_node b (some (node_addr a r)) t rs)
    ∙ cleanup-fault (node_addr a r) c (some c) g f (omega (arith, here, low))
        (ap (λ (k : ℕ). destroy_runlists (some k) g) here ∙ destroys)
        (ap (λ n. destroy_loop n (some (node_addr a r)) f)
            (omega (arith, x.next_same, ends, length-end_addr a (r ∷ t ∷ rs)))
          ∙ walk-fault a r (t ∷ rs) g f (f.next_addr - length (t ∷ rs)) l (λ q u v. x.below q v)
              (ap f.cell here
                ∙ x.gone (node_addr start (last_runlist t rs)) (omega arith) (omega arith)))

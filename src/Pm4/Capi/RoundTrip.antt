-- ===== src/Pm4/Capi/RoundTrip.antt =====
-- `sift_pm4_parse_runlists` and `sift_pm4_destroy_runlists` of src/pm4/pm4.cc on the text of
-- sections.
use rocsift_glog_fork.Common.{
  List, [], ap, arith, length, length-map, map, none, refl, suc, true, ℕ, ◌+◌, ◌-◌, ◌<◌, ◌^◌, ◌∙◌,
  ◌∷◌, ◌≡◌, ◌≤◌,
}
use rocsift_glog_fork.Common.Run.{done, success}
use rocsift_glog_fork.Pm4.Capi.{destroy_loop, destroy_runlists}
use rocsift_glog_fork.Pm4.Capi.Build.{Yields, build}
use rocsift_glog_fork.Pm4.Capi.Calls.{new_all-Yields}
use rocsift_glog_fork.Pm4.Capi.Destroy.{destroy_loop-ListAt}
use rocsift_glog_fork.Pm4.Capi.Layout.{
  Erased, Erased-fresh, ListAt, Runlist, SameBelow, SameFrom, end_addr, first, next_section,
}
use rocsift_glog_fork.Pm4.Capi.Series.{SeriesList, parse_runlists, series_loop}
use rocsift_glog_fork.Pm4.Capi.Text.{
  GoodSections, SectionText, length-text_then, runlist_of, text_of,
}
use rocsift_glog_fork.Pm4.Heap.{Heap, Ptr}
use rocsift_glog_fork.Pm4.Parser.{new_all}

-- Nothing stands where the next blocks go.
abbrev pub IsFresh : Heap → Type 0
IsFresh h = (q : ℕ) → h.next_addr ≤ q → h.cell q ≡ none

series_loop-enough :
    (text : List ℕ) (rs : List Runlist) (h : Heap)
    → length rs ≤ length text
    → Yields (new_all text) rs
    → (g : Heap) × (parse_runlists (λ _. true) text h ≡ done (success, first h.next_addr rs, g))
      × ListAt g h.next_addr rs
      × SameBelow h.next_addr h g
      × (g.next_addr ≡ end_addr h.next_addr rs)
      × SameFrom g.next_addr h g
unfolding parse_runlists series_loop
series_loop-enough text rs h l (e, calls, q, last) =
    let s : SeriesList = record { head = none; current = none; prev = none; heap = h } in
    let b = build (new_all text) e rs (suc (length text + 1 - length rs)) s none calls tt in
    (
      b.after,
      ap (λ n. series_loop n (λ _. true) (new_all text) s) (omega arith)
          ∙ b.runs
          ∙ rw (series_loop, last) refl,
      b.lists,
      λ q u. b.others q u (λ e. cc),
      b.ends,
      λ q u. b.above q u,
    )

-- On the text of one or more sections, each of packets of the format in fewer than 2^31 dwords,
-- `sift_pm4_parse_runlists` succeeds where `malloc` gives memory: the list behind its result has a
-- runlist for each section, in order, with the section's node and the decoder's entries of its
-- packets; all blocks that were there are as before.
pub parse_runlists-text_of :
    (t : SectionText) (ts : List SectionText) (h : Heap)
    → GoodSections (t ∷ ts)
    → length (text_of (t ∷ ts)) < 2 ^ 64
    → (g : Heap) × (parse_runlists (λ _. true) (text_of (t ∷ ts)) h
        ≡ done (success, first h.next_addr (map runlist_of (t ∷ ts)), g))
      × ListAt g h.next_addr (map runlist_of (t ∷ ts))
      × SameBelow h.next_addr h g
      × (g.next_addr ≡ end_addr h.next_addr (map runlist_of (t ∷ ts)))
      × SameFrom g.next_addr h g
parse_runlists-text_of t ts h good small =
    series_loop-enough (text_of (t ∷ ts)) (map runlist_of (t ∷ ts)) h
      (omega (arith, length-map (t ∷ ts) runlist_of, length-text_then (t ∷ ts) []))
      (new_all-Yields t ts good small)

pub length-end_addr : (a : ℕ) (rs : List Runlist) → a + length rs ≤ end_addr a rs
length-end_addr a [] = omega arith
length-end_addr a (r ∷ rs) = omega (arith, length-end_addr (next_section a r) rs)

-- On a list of one or more runlists in memory `sift_pm4_destroy_runlists` succeeds, and frees the
-- blocks of the list and no others.
pub destroy_runlists-ListAt :
    (r : Runlist) (rs : List Runlist) (a : ℕ) (g : Heap)
    → ListAt g a (r ∷ rs)
    → end_addr a (r ∷ rs) ≤ g.next_addr
    → (f : Heap) × (destroy_runlists (first a (r ∷ rs)) g ≡ done (success, f))
      × Erased a (end_addr a (r ∷ rs)) g f
unfolding destroy_runlists
destroy_runlists-ListAt r rs a g l e =
    let enough : length (r ∷ rs) ≤ g.next_addr = omega (arith, length-end_addr a (r ∷ rs)) in
    let (f, runs, erased) = destroy_loop-ListAt a (r ∷ rs) g (g.next_addr - length (r ∷ rs)) l in
    (f, ap (λ n. destroy_loop n (first a (r ∷ rs)) g) (omega arith) ∙ runs, erased)

-- The list that `sift_pm4_parse_runlists` makes of the text of one or more sections, each of fewer
-- than 2^31 dwords, with `malloc` giving memory, is destroyed by `sift_pm4_destroy_runlists` with success, and the memory then holds
-- what it held before both calls: nothing is leaked or freed twice.
pub destroy_runlists-parse_runlists :
    (t : SectionText) (ts : List SectionText) (h : Heap)
    → GoodSections (t ∷ ts)
    → length (text_of (t ∷ ts)) < 2 ^ 64
    → IsFresh h
    → (g : Heap) × (f : Heap) × (head : Ptr) × (parse_runlists (λ _. true) (text_of (t ∷ ts)) h
        ≡ done (success, head, g))
      × (destroy_runlists head g ≡ done (success, f))
      × ((q : ℕ) → f.cell q ≡ h.cell q)
destroy_runlists-parse_runlists t ts h good small fresh =
    let rs = map runlist_of (t ∷ ts) in
    let a = h.next_addr in
    let (g, parses, l, below, ends, above) = parse_runlists-text_of t ts h good small in
    let (f, destroys, x) =
      destroy_runlists-ListAt (runlist_of t) (map runlist_of ts) a g l (omega (arith, ends)) in
    (
      g,
      f,
      first a rs,
      parses,
      destroys,
      Erased-fresh a (end_addr a rs) h g f fresh below (λ q u. above q (omega (arith, ends))) x,
    )

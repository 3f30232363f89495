-- ===== src/Pm4/Capi/Append.antt =====
-- A round of the loop of `sift_pm4_parse_runlists` of src/pm4/pm4.cc: the bodies that the parser has
-- allocated, and the node that is appended.
use rocsift_glog_fork.Common.{
  List, [], ap, arith, length, none, refl, some, suc, true, ℕ, ◌+◌, ◌∙◌, ◌∷◌, ◌≡◌,
}
use rocsift_glog_fork.Common.Run.{done}
use rocsift_glog_fork.Pm4.Capi.{place_bodies}
use rocsift_glog_fork.Pm4.Capi.Layout.{
  BodiesAt, SameBelow, SameFrom, cells_at, update-other, update-same,
}
use rocsift_glog_fork.Pm4.Capi.Series.{
  SeriesList, append_node, fill_node, fill_runlist, goes_on, link_prev, set_head, unset,
}
use rocsift_glog_fork.Pm4.Heap.{
  Block, EntryCell, Heap, Ptr, allocate, body_block, entries_block, place, runlist_block,
  series_block, store, update,
}
use rocsift_glog_fork.Pm4.Types.{Entry, Node}

pub place_bodies-cells :
    (es : List Entry) (h : Heap) → (place_bodies es h).0 ≡ cells_at h.next_addr es
unfolding place_bodies
place_bodies-cells [] h = refl
place_bodies-cells (e ∷ es) h =
    ap (λ r. record { header = e.header; body = h.next_addr } ∷ r)
      (place_bodies-cells es (place (body_block e.body) h))

pub place_bodies-next :
    (es : List Entry) (h : Heap) → (place_bodies es h).1.next_addr ≡ h.next_addr + length es
unfolding place_bodies
place_bodies-next [] h = omega arith
place_bodies-next (e ∷ es) h = omega (arith, place_bodies-next es (place (body_block e.body) h))

pub place_bodies-below :
    (es : List Entry) (h : Heap) → SameBelow h.next_addr h (place_bodies es h).1
unfolding place_bodies
place_bodies-below [] h q l = refl
place_bodies-below (e ∷ es) h q l =
    place_bodies-below es (place (body_block e.body) h) q (omega arith)
    ∙ update-other h.cell h.next_addr (some (body_block e.body)) q (omega arith)

pub place_bodies-above :
    (es : List Entry) (h : Heap) → SameFrom (place_bodies es h).1.next_addr h (place_bodies es h).1
unfolding place_bodies
place_bodies-above [] h q l = refl
place_bodies-above (e ∷ es) h q l =
    let g = place (body_block e.body) h in
    place_bodies-above es g q l
    ∙ update-other h.cell h.next_addr (some (body_block e.body)) q
        (omega (arith, place_bodies-next es g))

pub place_bodies-BodiesAt :
    (es : List Entry) (h : Heap) → BodiesAt (place_bodies es h).1 h.next_addr es
unfolding place_bodies
place_bodies-BodiesAt [] h = tt
place_bodies-BodiesAt (e ∷ es) h = (
  place_bodies-below es (place (body_block e.body) h) h.next_addr (omega arith)
      ∙ update-same h.cell h.next_addr (some (body_block e.body)),
  place_bodies-BodiesAt es (place (body_block e.body) h),
)

-- A write to a block that is there.
abbrev pub put : ℕ → Block → Heap → Heap
put a b h = record { next_addr = h.next_addr; cell = update h.cell a (some b) }

pub store-put :
    (a : ℕ) (b c : Block) (h : Heap) → h.cell a ≡ some c → store a b h ≡ done (put a b h)
unfolding store
store-put a b c h e = rw (store, e) refl

abbrev pub full_at : List EntryCell → Node → ℕ → Block
full_at cells node a =
    runlist_block (record { node = node; entries = some (suc (suc a)); num_entries = length cells })

abbrev pub leaf_at : ℕ → Ptr → Block
leaf_at a next = series_block (record { runlist = some (suc a); next = next })

module _ (cells : List EntryCell) (node : Node) (h : Heap) where
  abbrev blank : Block
  blank = runlist_block (record { node = unset; entries = none; num_entries = 0 })

  abbrev with_series : Heap
  with_series = place (series_block (record { runlist = none; next = none })) h

  abbrev with_leaf : Heap
  with_leaf = put h.next_addr (leaf_at h.next_addr none) (place blank with_series)

  -- The memory before the new node is linked.
  abbrev pub with_node : Heap
  with_node =
      put (suc h.next_addr) (full_at cells node h.next_addr) (place (entries_block cells) with_leaf)

  pub with_node-series : with_node.cell h.next_addr ≡ some (leaf_at h.next_addr none)
  with_node-series = ground arith

  pub with_node-runlist : with_node.cell (suc h.next_addr) ≡ some (full_at cells node h.next_addr)
  with_node-runlist = ground arith

  pub with_node-entries : with_node.cell (suc (suc h.next_addr)) ≡ some (entries_block cells)
  with_node-entries = ground arith

  pub with_node-below : SameBelow h.next_addr h with_node
  with_node-below q l = ground arith

  pub with_node-above : SameFrom with_node.next_addr h with_node
  with_node-above q l = ground arith

  -- The variables when the round is over, for the memory that the link leaves.
  abbrev pub appended : Ptr → Heap → SeriesList
  appended head f = record {
    head = set_head head h.next_addr;
    current = some h.next_addr;
    prev = some h.next_addr;
    heap = f;
  }

  pub append_node-malloc :
      (head current prev : Ptr) (f : Heap)
      → link_prev prev h.next_addr with_node ≡ done f
      → append_node
          (λ _. true)
          cells
          node
          (record { head = head; current = current; prev = prev; heap = h })
        ≡ done (goes_on (appended head f))
  unfolding append_node fill_node fill_runlist allocate
  append_node-malloc head current prev f e =
      let series_there : (place blank with_series).cell h.next_addr
          ≡ some (series_block (record { runlist = none; next = none })) =
        ground arith in
      let runlist_there : (place (entries_block cells) with_leaf).cell (suc h.next_addr)
          ≡ some blank =
        ground arith in
      rw
        (
          store-put h.next_addr (leaf_at h.next_addr none) _ (place blank with_series) series_there,
          store-put (suc h.next_addr) (full_at cells node h.next_addr) blank
              (place (entries_block cells) with_leaf) runlist_there,
          e,
        )
        refl

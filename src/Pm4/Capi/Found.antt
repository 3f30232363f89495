-- ===== src/Pm4/Capi/Found.antt =====
-- `sift_pm4_parse_runlist` of src/pm4/pm4.cc on a text that has the section of the wanted GPU.
use rocsift_glog_fork.Common.{
  List, [], ap, arith, inl, inr, length, map, refl, some, subst, suc, true, ℕ, ◌+◌, ◌==◌, ◌∙◌, ◌∷◌,
  ◌≡◌,
}
use rocsift_glog_fork.Common.Run.{done, success}
use rocsift_glog_fork.Pm4.Capi.{destroy_runlist_entries, place_bodies}
use rocsift_glog_fork.Pm4.Capi.Append.{
  place_bodies-BodiesAt, place_bodies-above, place_bodies-below, place_bodies-cells,
  place_bodies-next,
}
use rocsift_glog_fork.Pm4.Capi.Calls.{after_call}
use rocsift_glog_fork.Pm4.Capi.Destroy.{destroy_entries, free_bodies-Erased, length-cells}
use rocsift_glog_fork.Pm4.Capi.Layout.{
  BodiesAt, BodiesAt-same, Erased-fresh, Erased-join, cells_at, free-Erased, update-other,
  update-same,
}
use rocsift_glog_fork.Pm4.Capi.RoundTrip.{IsFresh}
use rocsift_glog_fork.Pm4.Capi.Single.{parse_runlist, store_entries, take_entries}
use rocsift_glog_fork.Pm4.Encode.{FitsPackets, Packet, encode_packets}
use rocsift_glog_fork.Pm4.Heap.{Heap, RunlistCell, allocate, entries_block, place}
use rocsift_glog_fork.Pm4.Parser.{RlsParser, concat, new_for}
use rocsift_glog_fork.Pm4.Parser.Parse.{parse-Section}
use rocsift_glog_fork.Pm4.Parser.Section.{Section}
use rocsift_glog_fork.Pm4.Stream.{decoded}
use rocsift_glog_fork.Pm4.Types.{Entry}

starts_empty :
    (text : List ℕ) (node gpu : ℕ)
    → ((new_for text node gpu).end_pos ≡ some 0) × ((new_for text node gpu).dwords_buffer ≡ [])
unfolding new_for
starts_empty text node gpu = (refl, refl)

wanted_of :
    (text : List ℕ) (node gpu : ℕ) (s : Section (new_for text node gpu) 0)
    → (s.found.node_id ≡ node) × (s.found.gpu_id ≡ gpu)
unfolding new_for
wanted_of text node gpu s = elim s.wanted [ inl e ↦ absurd cc | inr e ↦ e ]

take_entries-malloc :
    (e : Entry) (es : List Entry) (a : ℕ) (r : RunlistCell) (h : Heap)
    → take_entries (λ _. true) (cells_at a (e ∷ es)) r h ≡ (
      success,
      record r { entries = some h.next_addr; num_entries = length (e ∷ es) },
      place (entries_block (cells_at a (e ∷ es))) h,
    )
unfolding take_entries allocate
take_entries-malloc e es a r h =
    ap
      (λ (n : ℕ). (
        success,
        record r { entries = some h.next_addr; num_entries = suc n },
        place (entries_block (cells_at a (e ∷ es))) h,
      ))
      (length-cells (suc a) es)

-- From the parser's return on.
stores :
    (e : Entry) (es : List Entry) (p : RlsParser) (node gpu : ℕ) (r : RunlistCell) (h : Heap)
    → p.node ≡ node
    → p.gpu ≡ gpu
    → store_entries (λ _. true) node gpu r h (done (some (e ∷ es), p))
      ≡ done (
        success,
        record {
          node = record { node_id = node; gpu_id = gpu };
          entries = some (place_bodies (e ∷ es) h).1.next_addr;
          num_entries = length (e ∷ es);
        },
        place (entries_block (cells_at h.next_addr (e ∷ es))) (place_bodies (e ∷ es) h).1,
      )
stores e es p node gpu r h same_node same_gpu =
    let test_gpu : (gpu == p.gpu) ≡ true = ground arith in
    let test_node : (node == p.node) ≡ true = ground arith in
    rw (test_gpu, test_node, place_bodies-cells (e ∷ es) h)
      (ap done (take_entries-malloc e es h.next_addr _ (place_bodies (e ∷ es) h).1))

module _ (text : List ℕ) (node gpu : ℕ) (s : Section (new_for text node gpu) 0) (x : Packet)
    (xs : List Packet) (r : RunlistCell) (h : Heap)
    (holds : concat s.dwords ≡ encode_packets (x ∷ xs)) (fits : FitsPackets (x ∷ xs)) where
  abbrev entries_found : List Entry
  entries_found = map decoded (x ∷ xs)

  abbrev bodies_end : ℕ
  bodies_end = h.next_addr + length entries_found

  abbrev found_runlist : RunlistCell
  found_runlist = record {
    node = record { node_id = node; gpu_id = gpu };
    entries = some bodies_end;
    num_entries = length entries_found;
  }

  -- On a text that has the section of the wanted GPU, of packets of the format in fewer than 2^31
  -- dwords, `sift_pm4_parse_runlist` succeeds where `malloc` gives memory: the runlist has the GPU's
  -- numbers and the array of the decoder's entries of the packets with their bodies, and when the entries are destroyed the
  -- memory holds what it held before.
  pub parse_runlist-Section :
      IsFresh h
      → (g : Heap) × (f : Heap) × (parse_runlist (λ _. true) node gpu text r h
          ≡ done (success, found_runlist, g))
        × BodiesAt g h.next_addr entries_found
        × (g.cell bodies_end ≡ some (entries_block (cells_at h.next_addr entries_found)))
        × (destroy_runlist_entries found_runlist.entries found_runlist.num_entries g ≡ done f)
        × ((q : ℕ) → f.cell q ≡ h.cell q)
  unfolding parse_runlist
  parse_runlist-Section fresh =
      let a = h.next_addr in
      let es = entries_found in
      let h1 : Heap = (place_bodies es h).1 in
      let block = entries_block (cells_at a es) in
      let g : Heap = place block h1 in
      let stands : h1.next_addr ≡ bodies_end = place_bodies-next es h in
      let bodies =
        BodiesAt-same a es h1 g
          (λ q u v. update-other h1.cell h1.next_addr (some block) q (omega arith))
          (place_bodies-BodiesAt es h) in
      let there : g.cell bodies_end ≡ some block =
        subst (λ (n : ℕ). g.cell n ≡ some block) stands
          (update-same h1.cell h1.next_addr (some block)) in
      let (f1, free_b, x1) = free_bodies-Erased a es g bodies in
      let (f2, free_e, x2) =
        free-Erased bodies_end f1 block (x1.above bodies_end (omega arith) ∙ there) in
      let (start, empty) = starts_empty text node gpu in
      let (same_node, same_gpu) = wanted_of text node gpu s in
      (
        g,
        f2,
        rw (parse-Section (new_for text node gpu) 0 s x xs start empty holds fits) (
            stores (decoded x) (map decoded xs) (after_call (new_for text node gpu) 0 s) node gpu r
              h same_node same_gpu
            ∙ ap
                (λ (n : ℕ). done (
                  success,
                  record {
                    node = record { node_id = node; gpu_id = gpu };
                    entries = some n;
                    num_entries = length es;
                  },
                  g,
                ))
                stands),
        bodies,
        there,
        destroy_entries bodies_end a es g f1 f2 there free_b free_e,
        Erased-fresh a (suc bodies_end) h g f2 fresh
            (λ q u.
              update-other h1.cell h1.next_addr (some block) q (omega arith)
              ∙ place_bodies-below es h q u)
            (λ q u.
              update-other h1.cell h1.next_addr (some block) q (omega arith)
              ∙ place_bodies-above es h q (omega arith))
            (Erased-join a bodies_end (suc bodies_end) g f1 f2 (omega arith) (omega arith) x1 x2),
      )

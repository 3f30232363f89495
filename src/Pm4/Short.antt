-- ===== src/Pm4/Short.antt =====
-- What `parseRunlistEntry` does with a body that is shorter than its opcode needs.
use rocsift_glog_fork.Common.{arith, length, ℕ, ◌-◌, ◌<◌, ◌≤◌}
use rocsift_glog_fork.Common.Run.{Run}
use rocsift_glog_fork.Pm4.Packet.{get_body_slice, parse_body_map_process}
use rocsift_glog_fork.Pm4.Types.{Span}
use rocsift_glog_fork.Common.Run.{◌>>=◌}
use rocsift_glog_fork.Common.{inl, inr, true}
use rocsift_glog_fork.Common.Run.{done}
use rocsift_glog_fork.Pm4.Entry.{op_map_process, parse_runlist_entry}
use rocsift_glog_fork.Common.{List, suc, ◌∷◌, ◌≡◌}
use rocsift_glog_fork.Pm4.Entry.{kind_of, parse_header}
use rocsift_glog_fork.Pm4.Packet.{slice}
use rocsift_glog_fork.Common.{Option-cases, get_elem?, get_elem?-none, ◌⊎◌}
use rocsift_glog_fork.Common.Run.{fault}

-- The last dword that a MAP_PROCESS body is read from is the twentieth.
slice_cases :
    (s : Span) (i msb lsb : ℕ)
    → ((d : ℕ) × (get_body_slice s i msb lsb ≡ done d)) ⊎ (get_body_slice s i msb lsb ≡ fault)
unfolding get_body_slice
slice_cases s i msb lsb = elim (Option-cases (get_elem? s.arr (i - 2))) [
  | inl e ↦ inr (rw e)
  | inr (d, e) ↦ inl (slice d msb lsb, rw e)
]

slice_then_fault {ℓ} :
    {B : Type ℓ} (s : Span) (i msb lsb : ℕ) (f : ℕ → Run B)
    → ((d : ℕ) → f d ≡ fault)
    → (get_body_slice s i msb lsb >>= f) ≡ fault
slice_then_fault s i msb lsb f h = elim (slice_cases s i msb lsb) [
  | inl (d, e) ↦ rw e (h d)
  | inr e ↦ rw e
]

parse_body_map_process-short : (s : Span) → length s.arr < 20 → parse_body_map_process s ≡ fault
unfolding parse_body_map_process get_body_slice
parse_body_map_process-short s h = slice_then_fault s 2 _ _ _ λ _. slice_then_fault s 2 _ _ _ λ _.
    slice_then_fault s 2 _ _ _ λ _. slice_then_fault s 2 _ _ _ λ _. slice_then_fault s 2 _ _ _ λ _.
      slice_then_fault s 2 _ _ _ λ _. slice_then_fault s 2 _ _ _ λ _.
        slice_then_fault s 3 _ _ _ λ _. slice_then_fault s 4 _ _ _ λ _.
          slice_then_fault s 5 _ _ _ λ _. slice_then_fault s 6 _ _ _ λ _.
            slice_then_fault s 7 _ _ _ λ _. slice_then_fault s 8 _ _ _ λ _.
              slice_then_fault s 9 _ _ _ λ _. slice_then_fault s 10 _ _ _ λ _.
                slice_then_fault s 12 _ _ _ λ _. slice_then_fault s 13 _ _ _ λ _.
                  slice_then_fault s 14 _ _ _ λ _. slice_then_fault s 14 _ _ _ λ _.
                    slice_then_fault s 14 _ _ _ λ _. slice_then_fault s 14 _ _ _ λ _.
                      slice_then_fault s 14 _ _ _ λ _. slice_then_fault s 14 _ _ _ λ _.
                        slice_then_fault s 15 _ _ _ λ _. slice_then_fault s 16 _ _ _ λ _.
                          slice_then_fault s 17 _ _ _ λ _. slice_then_fault s 18 _ _ _ λ _.
                            slice_then_fault s 19 _ _ _ λ _.
                              slice_then_fault s 20 _ _ _
                                λ _. rw (get_elem?-none s.arr 19 (omega arith))

-- `parseRunlistEntry` checks that the span holds as many dwords as the header counts, but not that
-- the opcode's body has that many: on an array that is one packet with a MAP_PROCESS header of a
-- valid type and fewer than 20 dwords of body, it reads outside the array, where `malloc` gives
-- memory.
pub parse_runlist_entry-short_process :
    (w : ℕ) (body : List ℕ)
    → (parse_header w).opcode ≡ op_map_process
    → (parse_header w).count ≡ length body
    → kind_of w ≤ 2
    → length body < 20
    → parse_runlist_entry true (record { arr = w ∷ body; size = suc (length body) }) ≡ fault
unfolding parse_runlist_entry
parse_runlist_entry-short_process w body op count kind h =
    ground
      (arith, parse_body_map_process-short (record { arr = body; size = suc (length body) - 1 }) h)

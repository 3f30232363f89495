-- ===== src/Sift/Vram/Route.antt =====
-- The loop over the nodes of a hive, on the address space of the layout.
use native.Mathlib.Nat.{zero-add}
use rocsift_glog_fork.Common.{
  lt→ltb, le→ltb, ◌⊎◌, Bool-cases, List, [], arith, inl, inr, ltb, sym, ap, refl, ℕ, ◌+◌, ◌++◌, ◌-◌,
  ◌<◌, ◌≡◌, ◌≤◌, ◌^◌, ◌∷◌, ◌∙◌,
}
use rocsift_glog_fork.Common.Run.{throw, out_of_range, status_error}
use rocsift_glog_fork.Common.Words.{sub64}
use rocsift_glog_fork.Sift.Vram.{DrmNode, Partition, gb, round_up, through_partition, write_loop}
use rocsift_glog_fork.Sift.Vram.Layout.{FitsHive, InNode, base, room}

round_up-room : (n : DrmNode) → room n + gb ≤ 2 ^ 64 → round_up n.vram_bytes ≡ room n
round_up-room n h = omega arith

base-append :
    (before : List DrmNode) (n : DrmNode) (after : List DrmNode)
    → base before + room n ≤ base (before ++ (n ∷ after))
base-append [] n after = omega arith
base-append (m ∷ before) n after = omega (arith, base-append before n after)

pub InNode-bound :
    {nodes : List DrmNode} {address : ℕ} {n : DrmNode} {offset : ℕ}
    → InNode nodes address n offset
    → address < base nodes
InNode-bound {nodes} {address} {n} {offset} i =
    omega (arith, i.at, i.inside, base-append i.before n i.after, ap base i.stands)

in_first :
    (n : DrmNode) (ns : List DrmNode) {address : ℕ}
    → address < n.vram_bytes
    → InNode (n ∷ ns) address n address
in_first n ns {address} h = record {
  before = [];
  after = ns;
  stands = refl;
  at = sym (zero-add address);
  inside = h;
}

in_later :
    (n : DrmNode) (ns : List DrmNode) {address : ℕ} {m : DrmNode} {offset : ℕ}
    → room n ≤ address
    → InNode ns (address - room n) m offset
    → InNode (n ∷ ns) address m offset
in_later n ns g i = record {
  before = n ∷ i.before;
  after = i.after;
  stands = ap (λ l. n ∷ l) i.stands;
  at = omega (arith, i.at);
  inside = i.inside;
}

lt-or-le : (a b : ℕ) → (a < b) ⊎ (b ≤ a)
lt-or-le a b = elim (Bool-cases (ltb a b)) [
  | inl e ↦ inl (ground arith)
  | inr e ↦ inr (ground arith)
]

-- What the loops do, taken together: they differ in how a node is accessed only.
module _ {ℓ} {R : Type ℓ} (vram : ℕ → ℕ → R) (partitions : List Partition) where
  write_loop-here :
      (n : DrmNode) (ns : List DrmNode) (address : ℕ)
      → address < n.vram_bytes
      → write_loop vram partitions (n ∷ ns) address
        ≡ through_partition vram partitions n.device_id address
  unfolding write_loop
  write_loop-here n ns address h = rw (lt→ltb address n.vram_bytes h)

  write_loop-later :
      (n : DrmNode) (ns : List DrmNode) (address : ℕ)
      → n.vram_bytes ≤ address
      → write_loop vram partitions (n ∷ ns) address
        ≡ write_loop vram partitions ns (sub64 address (round_up n.vram_bytes))
  unfolding write_loop
  write_loop-later n ns address h = rw (le→ltb address n.vram_bytes h)

  -- From a node on to the next, where the address does not wrap around.
  write_loop-next :
      (n : DrmNode) (ns : List DrmNode) (address : ℕ)
      → room n ≤ address
      → address < 2 ^ 64
      → room n + gb ≤ 2 ^ 64
      → write_loop vram partitions (n ∷ ns) address
        ≡ write_loop vram partitions ns (address - room n)
  write_loop-next n ns address h k f =
      write_loop-later n ns address (omega arith)
      ∙ ap (write_loop vram partitions ns) (omega (arith, round_up-room n f))

  -- An address behind every node.
  write_loop-behind :
      (ns : List DrmNode) (address : ℕ)
      → base ns ≤ address
      → address < 2 ^ 64
      → FitsHive ns
      → write_loop vram partitions ns address ≡ throw (status_error out_of_range)
  unfolding write_loop
  write_loop-behind [] address h k f = refl
  write_loop-behind (n ∷ ns) address h k f =
      write_loop-next n ns address (omega arith) k (omega arith)
      ∙ write_loop-behind ns (address - room n) (omega arith) (omega arith) (omega arith)

  pub write_loop-InNode :
      (before after : List DrmNode) (n : DrmNode) (offset : ℕ)
      → FitsHive (before ++ (n ∷ after))
      → offset < n.vram_bytes
      → write_loop vram partitions (before ++ (n ∷ after)) (base before + offset)
        ≡ through_partition vram partitions n.device_id offset
  write_loop-InNode [] after n offset f h =
      ap (write_loop vram partitions (n ∷ after)) (zero-add offset)
      ∙ write_loop-here n after offset h
  write_loop-InNode (m ∷ before) after n offset f h =
      let bound = base-append before n after in
      write_loop-next m (before ++ (n ∷ after)) (room m + base before + offset) (omega arith)
        (omega (arith, bound)) (omega arith)
      ∙ ap (write_loop vram partitions (before ++ (n ∷ after))) (omega arith)
      ∙ write_loop-InNode before after n offset (omega arith) h

  pub write_loop-nowhere :
      (nodes : List DrmNode) (address : ℕ)
      → FitsHive nodes
      → address < 2 ^ 64
      → ((n : DrmNode) (offset : ℕ) → ¬ InNode nodes address n offset)
      → write_loop vram partitions nodes address ≡ throw (status_error out_of_range)
  unfolding write_loop
  write_loop-nowhere [] address f k free = refl
  write_loop-nowhere (n ∷ ns) address f k free = elim (lt-or-le address n.vram_bytes) [
    | inl h ↦ absurd (free n address (in_first n ns h))
    | inr h ↦ elim (lt-or-le address (room n)) [
      | inl g ↦
          write_loop-later n ns address h
          ∙ write_loop-behind ns (sub64 address (round_up n.vram_bytes))
              (omega (arith, round_up-room n (omega arith))) (omega arith) (omega arith)
      | inr g ↦
          write_loop-next n ns address g k (omega arith)
          ∙ write_loop-nowhere ns (address - room n) (omega arith) (omega arith)
              λ m offset i. free m offset (in_later n ns g i)
    ]
  ]

-- ===== src/Pm4/Stream.antt =====
-- `parseRunlistEntry` and `parseRunlistEntries` on whole packets and whole runlists of the format.
use rocsift_glog_fork.Common.{arith, length, refl, ℕ, ◌+◌, ◌<◌, ◌^◌, ◌≡◌}
use rocsift_glog_fork.Common.Words.{sub64, u16, u64, u8}
use rocsift_glog_fork.Pm4.Encode.{
  FitsPacket, Packet, body_size, encode_body, encode_header, header_of, opcode_of, type_number,
}
use rocsift_glog_fork.Pm4.Entry.{packet_type_of}
use rocsift_glog_fork.Pm4.Packet.{slice, slice_lem}
use rocsift_glog_fork.Pm4.Types.{Body, PacketType, map_process, map_queues, type1, type2, type3}
use rocsift_glog_fork.Common.{List, append_assoc, true, ◌++◌, ◌-◌, ◌∷◌}
use rocsift_glog_fork.Common.Run.{done}
use rocsift_glog_fork.Pm4.Encode.{FitsBody, encode_packet, packet_size}
use rocsift_glog_fork.Pm4.Entry.{parse_runlist_entry, parse_with_header}
use rocsift_glog_fork.Pm4.RoundTrip.{parse_body-encode_body, read_back}
use rocsift_glog_fork.Pm4.Types.{Entry, returns}
use rocsift_glog_fork.Common.{
  [], ap, drop, drop-append, drop-drop, get_elem?, get_elem?-drop, length-append, map, some, suc,
  sym, zero, ◌∙◌,
}
use rocsift_glog_fork.Pm4.Encode.{FitsPackets, encode_packets}
use rocsift_glog_fork.Pm4.Entry.{measure_entries, parse_entries_from, parse_runlist_entries}
use rocsift_glog_fork.Common.{le→ltb}

type_number-lt : (t : PacketType) → type_number t < 3
type_number-lt type1 = omega arith
type_number-lt type2 = omega arith
type_number-lt type3 = omega arith

packet_type_of-type_number : (t : PacketType) → packet_type_of (type_number t) ≡ t
packet_type_of-type_number type1 = refl
packet_type_of-type_number type2 = refl
packet_type_of-type_number type3 = refl

opcode_of-lt : (b : Body) → opcode_of b < 2 ^ 8
opcode_of-lt (map_process b) = omega arith
opcode_of-lt (map_queues b) = omega arith

body_size_pos : (b : Body) → 0 < body_size b
body_size_pos (map_process b) = omega arith
body_size_pos (map_queues b) = omega arith

length-encode_body : (skipped : ℕ) (b : Body) → length (encode_body skipped b) ≡ body_size b
length-encode_body skipped (map_process b) = refl
length-encode_body skipped (map_queues b) = refl

-- The fields of a header, as the parser takes them.
header_slices :
    (p : Packet)
    → FitsPacket p
    → let w = encode_header p.reserved (header_of p) in
      (u8 (slice w 15 8) ≡ opcode_of p.body)
      × (slice w 29 16 + 1 ≡ body_size p.body + length p.padding)
      × (u16 (u64 (slice w 29 16 + 1)) ≡ body_size p.body + length p.padding)
      × (sub64 (slice w 31 30) 1 ≡ type_number p.packet_type)
header_slices p f =
    omega
      (arith, slice_lem, opcode_of-lt p.body, type_number-lt p.packet_type, body_size_pos p.body)

-- The entry that a packet stands for.
abbrev pub decoded : Packet → Entry
decoded p = record { header = header_of p; body = read_back p.body }

with_header :
    (p : Packet) (rest : List ℕ) (w n : ℕ)
    → FitsBody p.body
    → parse_with_header true
        (header_of p)
        (record { arr = w ∷ ((encode_body p.skipped p.body ++ p.padding) ++ rest); size = n })
      ≡ done (returns (decoded p))
unfolding parse_with_header
with_header p rest w n f = rw (
  append_assoc (encode_body p.skipped p.body) p.padding rest,
  parse_body-encode_body p.body p.skipped (p.padding ++ rest) (n - 1) f,
)

-- `parseRunlistEntry` on a span that is one packet of the format returns the packet's entry,
-- whatever dwords follow the span, if the packet fits and `malloc` gives memory.
pub parse_entry-encode_packet :
    (p : Packet) (rest : List ℕ)
    → FitsPacket p
    → parse_runlist_entry true (record { arr = encode_packet p ++ rest; size = packet_size p })
      ≡ done (returns (decoded p))
unfolding parse_runlist_entry
parse_entry-encode_packet p rest f = ground (
  arith,
  header_slices p f,
  type_number-lt p.packet_type,
  packet_type_of-type_number p.packet_type,
  with_header p rest (encode_header p.reserved (header_of p)) (packet_size p) f.body,
)

length-encode_packet : (p : Packet) → length (encode_packet p) ≡ packet_size p
length-encode_packet p = omega (
  arith,
  length-append {0} (encode_body p.skipped p.body) p.padding,
  length-encode_body p.skipped p.body,
)

length-encode_packets :
    (p : Packet) (ps : List Packet)
    → length (encode_packets (p ∷ ps)) ≡ packet_size p + length (encode_packets ps)
length-encode_packets p ps =
    length-append (encode_packet p) (encode_packets ps)
    ∙ ap (λ n. n + length (encode_packets ps)) (length-encode_packet p)

-- What stands behind a packet.
drop_packet :
    (p : Packet) (ps : List Packet) (tail arr : List ℕ) (start : ℕ)
    → drop start arr ≡ encode_packets (p ∷ ps) ++ tail
    → drop (start + packet_size p) arr ≡ encode_packets ps ++ tail
drop_packet p ps tail arr start e =
    sym (drop-drop start (packet_size p) arr)
    ∙ ap (drop (packet_size p)) (e ∙ append_assoc (encode_packet p) (encode_packets ps) tail)
    ∙ ap (λ n. drop n (encode_packet p ++ (encode_packets ps ++ tail)))
        (sym (length-encode_packet p))
    ∙ drop-append (encode_packet p) (encode_packets ps ++ tail)

header_at :
    (p : Packet) (ps : List Packet) (tail arr : List ℕ) (start : ℕ)
    → drop start arr ≡ encode_packets (p ∷ ps) ++ tail
    → get_elem? arr start ≡ some (encode_header p.reserved (header_of p))
header_at p ps tail arr start e =
    sym (get_elem?-drop start arr) ∙ ap (λ (l : List ℕ). get_elem? l 0) e

measure_entries-encode :
    (ps : List Packet) (tail arr : List ℕ) (fuel start n : ℕ)
    → FitsPackets ps
    → drop start arr ≡ encode_packets ps ++ tail
    → n ≡ start + length (encode_packets ps)
    → length (encode_packets ps) < fuel
    → measure_entries fuel (record { arr = arr; size = n }) start ≡ done (map packet_size ps, n)
unfolding measure_entries
measure_entries-encode [] tail arr zero start n f e h k = absurd (omega arith)
measure_entries-encode (p ∷ ps) tail arr zero start n f e h k = absurd (omega arith)
measure_entries-encode [] tail arr (suc fuel) start n f e h k = ground arith
measure_entries-encode (p ∷ ps) tail arr (suc fuel) start n f e h k = ground (
  arith,
  header_at p ps tail arr start e,
  header_slices p f.0,
  length-encode_packets p ps,
  measure_entries-encode ps tail arr fuel (start + packet_size p) n f.1
      (drop_packet p ps tail arr start e),
)

parse_entries_from-encode :
    (ps : List Packet) (tail arr : List ℕ) (i start n : ℕ)
    → FitsPackets ps
    → drop start arr ≡ encode_packets ps ++ tail
    → parse_entries_from (λ _. true) (record { arr = arr; size = n }) (map packet_size ps) i start
      ≡ done (returns (map decoded ps))
unfolding parse_entries_from
parse_entries_from-encode [] tail arr i start n f e = refl
parse_entries_from-encode (p ∷ ps) tail arr i start n f e = rw (
  e,
  append_assoc (encode_packet p) (encode_packets ps) tail,
  parse_entry-encode_packet p (encode_packets ps ++ tail) f.0,
  parse_entries_from-encode ps tail arr (i + 1) (start + packet_size p) n f.1
      (drop_packet p ps tail arr start e),
)

-- `parseRunlistEntries` on the dwords of any number of packets, at least one, returns one entry for
-- each, in order, whatever stands behind the span, if every packet fits and `malloc` gives memory.
-- An entry holds the fields of its packet, but for `sdma_enable` of a MAP_PROCESS packet, which is
-- also true where `num_gws` is not 0.
pub parse_entries-encode_packets :
    (p : Packet) (ps : List Packet) (tail : List ℕ)
    → FitsPackets (p ∷ ps)
    → parse_runlist_entries
        (λ _. true)
        (record { arr = encode_packets (p ∷ ps) ++ tail; size = length (encode_packets (p ∷ ps)) })
      ≡ done (returns (map decoded (p ∷ ps)))
unfolding parse_runlist_entries
parse_entries-encode_packets p ps tail f =
    let dwords = encode_packets (p ∷ ps) in
    let n = length dwords in
    rw
      (
        measure_entries-encode (p ∷ ps) tail (dwords ++ tail) (suc n) 0 n f refl (omega arith)
            (omega arith),
        le→ltb n n (omega arith),
        parse_entries_from-encode (p ∷ ps) tail (dwords ++ tail) 0 0 n f refl,
      )
      (ground arith)

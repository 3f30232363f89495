-- ===== src/Pm4/Parser/Parse.antt =====
-- `Parse` and `BuildEntries` on a section of the runlist file.
use rocsift_glog_fork.Common.{arith}
use rocsift_glog_fork.Common.{ltb}
use rocsift_glog_fork.Common.{◌^◌}
use rocsift_glog_fork.Common.{◌<◌}
use rocsift_glog_fork.Common.{List, [], ap, append-nil, map, some, true, ℕ, ◌++◌, ◌∷◌, ◌≡◌}
use rocsift_glog_fork.Common.Run.{done}
use rocsift_glog_fork.Pm4.Encode.{FitsPackets, Packet, encode_packets}
use rocsift_glog_fork.Pm4.Parser.{RlsParser, build_entries, concat, parse}
use rocsift_glog_fork.Pm4.Parser.Section.{
  Section, last_state, loop-section, next_pos, read_parser, rest_start,
}
use rocsift_glog_fork.Pm4.Parser.Steps.{with_node}
use rocsift_glog_fork.Pm4.Stream.{decoded, parse_entries-encode_packets}
use rocsift_glog_fork.Common.{length, subst}
use rocsift_glog_fork.Pm4.Entry.{parse_runlist_entries}
use rocsift_glog_fork.Pm4.Types.{returns}

-- On an array of exactly the packets.
entries_of :
    (x : Packet) (xs : List Packet)
    → FitsPackets (x ∷ xs)
    → parse_runlist_entries
        (λ _. true)
        (record { arr = encode_packets (x ∷ xs); size = length (encode_packets (x ∷ xs)) })
      ≡ done (returns (map decoded (x ∷ xs)))
entries_of x xs f =
    subst
      (λ (l : List ℕ).
        parse_runlist_entries (λ _. true)
          (record { arr = l; size = length (encode_packets (x ∷ xs)) })
        ≡ done (returns (map decoded (x ∷ xs))))
      (append-nil (encode_packets (x ∷ xs))) (parse_entries-encode_packets x xs [] f)

build_entries-encode :
    (p : RlsParser) (wss : List (List ℕ)) (x : Packet) (xs : List Packet)
    → p.dwords_buffer ≡ wss
    → concat wss ≡ encode_packets (x ∷ xs)
    → FitsPackets (x ∷ xs)
    → length (concat wss) < 2 ^ 31
    → build_entries (λ _. true) p
      ≡ done (some (map decoded (x ∷ xs)), record p { dwords_buffer = [] })
unfolding build_entries
build_entries-encode p [] x xs b e f h = cc
build_entries-encode p (ws ∷ wss) x xs b e f h = rw (build_entries, b, few, e, entries_of x xs f)
  where
    few : ltb (length (concat (ws ∷ wss))) (2 ^ 31) ≡ true
    few = ground arith

-- `Parse` called where the text holds lines to pass over, the line of the wanted node, and data
-- lines whose dwords, fewer than 2^31, are packets of the format, with the end of the text or another
-- line behind them: it returns the decoder's entries of the packets, takes over the node's numbers,
-- empties its buffer, and leaves its position at the newline in front of that other line, or at
-- `npos`.
pub parse-Section :
    (p : RlsParser) (start : ℕ) (s : Section p start) (x : Packet) (xs : List Packet)
    → p.end_pos ≡ some start
    → p.dwords_buffer ≡ []
    → concat s.dwords ≡ encode_packets (x ∷ xs)
    → FitsPackets (x ∷ xs)
    → parse (λ _. true) p
      ≡ done (
        some (map decoded (x ∷ xs)),
        record (with_node p s.found) {
          state = last_state s.rest s.followed;
          dwords_buffer = [];
          end_pos = next_pos s.rest s.followed (rest_start s);
        },
      )
unfolding parse
parse-Section p start s x xs at empty e f = rw (
  parse,
  at,
  loop-section s start,
  build_entries-encode (read_parser s) s.dwords x xs (ap (λ b. b ++ s.dwords) empty) e f s.few,
)

-- ===== src/Pm4/Parser/Tests.antt =====
-- The parser's theorems on a small runlist file.
use rocsift_glog_fork.Pm4.TestLines.{text, text_section}
use rocsift_glog_fork.Common.{[], true, ◌∷◌, ◌≡◌, refl, arith, some, map, length, ◌+◌}
use rocsift_glog_fork.Common.Run.{done, IsSafe}
use rocsift_glog_fork.Common.{◌-◌}
use rocsift_glog_fork.Pm4.Parser.{end_state, new_all, new_for, node_state, parse, parse_loop}
use rocsift_glog_fork.Pm4.Parser.Ends.{parse_loop-IsSafe}
use rocsift_glog_fork.Pm4.Parser.Parse.{parse-Section}
use rocsift_glog_fork.Pm4.Parser.Steps.{at_line}
use rocsift_glog_fork.Pm4.Stream.{decoded}
use rocsift_glog_fork.Pm4.Tests.{queues_packet, queues_packet-FitsPacket}

section_example :
    parse (λ _. true) (new_for text 1 42)
    ≡ done (
      some (map decoded (queues_packet ∷ [])),
      record (new_for text 1 42) {
        state = end_state;
        dwords_buffer = [];
        end_pos = some (length text - 20);
      },
    )
unfolding new_for text_section
section_example =
    parse-Section (new_for text 1 42) 0 text_section queues_packet [] refl refl refl
      (queues_packet-FitsPacket, tt)

loop_example : IsSafe (parse_loop (length text + 3) (at_line (new_all text) node_state 5) 5 0)
unfolding new_all
loop_example = parse_loop-IsSafe (new_all text) node_state 5 0 (omega arith) (omega arith)

-- ===== src/Pm4/Line.antt =====
-- `parseNodeLine`, `getDataStartPosition` and `parseDataSection` of src/pm4/pm4.cc. A line is a list
-- of character codes. The regular expressions are matched by scanning: each repeated class and what
-- may follow it have no character in common, so that there is one way to match.
use rocsift_glog_fork.Common.Run.{fault}
use rocsift_glog_fork.Common.{
  Bool, List, Option, [], false, if◌then◌else◌, leb, length, ltb, none, not, some, suc, true, zero,
  ℕ, ◌&&◌, ◌*◌, ◌+◌, ◌-◌, ◌==◌, ◌^◌, ◌||◌, ◌∷◌,
}
use rocsift_glog_fork.Common.Run.{Run, done, spin, std_exception, throw, try_catch}
use rocsift_glog_fork.Common.Words.{u32}
use rocsift_glog_fork.Pm4.Types.{Node, ResultStatus, fails, mismatches, returns}
use rocsift_glog_fork.Common.Run.{◌>>=◌}

-- The classes `\s`, `\d` and `[a-fA-F0-9]`.
unfoldable pub is_space : ℕ → Bool
is_space c = c == b' ' || (leb 9 c && leb c 13)

unfoldable pub is_digit : ℕ → Bool
is_digit c = leb b'0' c && leb c b'9'

unfoldable pub is_hex : ℕ → Bool
unfolding is_digit
is_hex c = is_digit c || (leb b'a' c && leb c b'f') || (leb b'A' c && leb c b'F')

unfoldable pub digit_value : ℕ → ℕ
unfolding is_digit
digit_value c = if is_digit c then c - b'0' else if leb b'a' c then c - b'a' + 10 else c - b'A' + 10

unfoldable pub drop_spaces : List ℕ → List ℕ
drop_spaces [] = []
drop_spaces (c ∷ cs) = if is_space c then drop_spaces cs else c ∷ cs

-- The longest prefix of a class, and what follows it.
unfoldable pub span_while : (ℕ → Bool) → List ℕ → List ℕ × List ℕ
span_while p [] = ([], [])
span_while p (c ∷ cs) = let r = span_while p cs in if p c then (c ∷ r.0, r.1) else ([], c ∷ cs)

-- A fixed text at the front.
abbrev pub strip : List ℕ → List ℕ → Option (List ℕ)
strip [] cs = some cs
strip (d ∷ ds) [] = none
strip (d ∷ ds) (c ∷ cs) = if c == d then strip ds cs else none

-- The number that digits stand for, and `std::stoul`, which throws where it does not fit.
unfoldable pub number_from : ℕ → ℕ → List ℕ → ℕ
number_from base acc [] = acc
number_from base acc (c ∷ cs) = number_from base (acc * base + digit_value c) cs

unfoldable pub stoul : ℕ → List ℕ → Run ℕ
stoul base cs =
    let n = number_from base 0 cs in if ltb n (2 ^ 64) then done n else throw std_exception

abbrev pub node_text : List ℕ
node_text = b'N' ∷ b'o' ∷ b'd' ∷ b'e' ∷ b' ' ∷ []

abbrev pub gpu_text : List ℕ
gpu_text = b',' ∷ b' ' ∷ b'g' ∷ b'p' ∷ b'u' ∷ b'_' ∷ b'i' ∷ b'd' ∷ b' ' ∷ []

-- One or more characters of a class.
unfoldable pub some_of : (ℕ → Bool) → List ℕ → Option (List ℕ × List ℕ)
some_of p cs = elim (span_while p cs).0 [ [] ↦ none | d ∷ ds ↦ some (span_while p cs) ]

-- The end of the node line: a colon and spaces.
unfoldable pub ends_node : List ℕ → Bool
ends_node [] = false
ends_node (c ∷ cs) = c == b':' && (elim (drop_spaces cs) [ [] ↦ true | _ ∷ _ ↦ false ])

-- `node_format`, R"(\s*Node (\d+), gpu_id ([a-fA-F0-9]+):\s*)" on the whole line; the two groups.
unfoldable pub match_node : List ℕ → Option (List ℕ × List ℕ)
match_node line = elim (strip node_text (drop_spaces line)) [
  | none ↦ none
  | some a ↦ elim (some_of is_digit a) [
    | none ↦ none
    | some (node, b) ↦ elim (strip gpu_text b) [
      | none ↦ none
      | some c ↦ elim (some_of is_hex c) [
        | none ↦ none
        | some (gpu, d) ↦ if ends_node d then some (node, gpu) else none
      ]
    ]
  ]
]

-- `catch (std::exception &)` gives the status ERROR.
unfoldable pub parse_node_line : List ℕ → Run (ResultStatus Node)
parse_node_line line = elim (match_node line) [
  | none ↦ done mismatches
  | some (node, gpu) ↦
      try_catch
        (do
          n ← stoul 10 node
          g ← stoul 16 gpu
          done (returns (record { node_id = u32 n; gpu_id = u32 g })))
        (λ _. done fails)
]

-- Eight hexadecimal digits, and what follows them.
unfoldable pub match_dword : ℕ → List ℕ → Option (List ℕ × List ℕ)
match_dword zero cs = some ([], cs)
match_dword (suc k) [] = none
match_dword (suc k) (c ∷ cs) =
    let more = match_dword k cs in
    if is_hex c then (elim more [ none ↦ none | some (ds, rest) ↦ some (c ∷ ds, rest) ]) else none

-- What `.` matches: no line terminator.
unfoldable pub is_dots : List ℕ → Bool
is_dots [] = true
is_dots (c ∷ cs) = not (c == b'\n') && not (c == b'\r') && is_dots cs

unfoldable pub ends_address : List ℕ → Bool
ends_address [] = false
ends_address (c ∷ cs) = c == b':' && is_dots cs

-- `data_start_format`, R"((^\s*[a-fA-F0-9]{8}:).*)" on the whole line; the length of the group.
unfoldable pub get_data_start_position : List ℕ → Run (ResultStatus ℕ)
get_data_start_position line =
    let spaces = span_while is_space line in
    elim (match_dword 8 spaces.1) [
      | none ↦ done mismatches
      | some (ds, rest) ↦
          if ends_address rest then done (returns (length spaces.0 + 9)) else done mismatches
    ]

-- The matches of `data_format`, R"([a-fA-F0-9]{8})", from left to right with no overlap, as dwords.
unfoldable pub scan_dwords : ℕ → List ℕ → Run (List ℕ)
scan_dwords zero cs = spin
scan_dwords (suc fuel) [] = done []
scan_dwords (suc fuel) (c ∷ cs) = elim (match_dword 8 (c ∷ cs)) [
  | none ↦ scan_dwords fuel cs
  | some (ds, rest) ↦ (do w ← stoul 16 ds; ws ← scan_dwords fuel rest; done (u32 w ∷ ws))
]

-- The index `i` is an `int`, which 2^31 matches overflow.
unfoldable pub parse_data_section : List ℕ → Run (ResultStatus (List ℕ))
parse_data_section cs =
    try_catch
      (do
        ws ← scan_dwords (suc (length cs)) cs
        if ltb (length ws) (2 ^ 31) then done (returns ws) else fault)
      (λ _. done fails)

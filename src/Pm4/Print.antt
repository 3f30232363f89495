-- ===== src/Pm4/Print.antt =====
-- The lines of the runlist file as they are printed, and the line parsers on them.
use rocsift_glog_fork.Common.{
  Bool, List, [], arith, if◌then◌else◌, length, ltb, refl, some, true, ℕ, ◌%◌, ◌++◌, ◌+◌, ◌-◌, ◌/◌,
  ◌<◌, ◌^◌, ◌∷◌, ◌≡◌,
}
use rocsift_glog_fork.Pm4.Line.{digit_value, gpu_text, is_hex, match_dword, node_text, number_from}
use rocsift_glog_fork.Common.{lt→ltb, suc, zero, ◌*◌, ◌∙◌}
use rocsift_glog_fork.Common.Run.{done}
use native.Mathlib.Nat.{mod-eq_of_lt}
use rocsift_glog_fork.Pm4.Line.{
  get_data_start_position, is_dots, parse_data_section, scan_dwords, stoul,
}
use rocsift_glog_fork.Pm4.Types.{returns}
use rocsift_glog_fork.Common.{false}
use rocsift_glog_fork.Common.Words.{u32}
use rocsift_glog_fork.Pm4.Line.{is_digit, is_space, parse_node_line, some_of, span_while}
use rocsift_glog_fork.Common.{◌==◌}
use rocsift_glog_fork.Pm4.Line.{drop_spaces, ends_node, match_node}
use rocsift_glog_fork.Pm4.Line.{ends_address, strip}

abbrev pub AllOf : (ℕ → Bool) → List ℕ → Type 0
AllOf p [] = Unit
AllOf p (c ∷ cs) = (p c ≡ true) × AllOf p cs

abbrev pub hex_digit : ℕ → ℕ
hex_digit d = if ltb d 10 then d + b'0' else d - 10 + b'a'

-- A dword as eight digits.
abbrev pub hex8 : ℕ → List ℕ
hex8 w =
    hex_digit (w / 2 ^ 28 % 16)
    ∷ hex_digit (w / 2 ^ 24 % 16)
    ∷ hex_digit (w / 2 ^ 20 % 16)
    ∷ hex_digit (w / 2 ^ 16 % 16)
    ∷ hex_digit (w / 2 ^ 12 % 16)
    ∷ hex_digit (w / 2 ^ 8 % 16)
    ∷ hex_digit (w / 2 ^ 4 % 16)
    ∷ hex_digit (w % 16)
    ∷ []

abbrev pub print_dwords : List ℕ → List ℕ
print_dwords [] = []
print_dwords (w ∷ ws) = b' ' ∷ (hex8 w ++ print_dwords ws)

-- A data line: the offset and the dwords.
abbrev pub print_data : ℕ → List ℕ → List ℕ
print_data offset ws = b' ' ∷ b' ' ∷ (hex8 offset ++ (b':' ∷ print_dwords ws))

-- A node line with the digits of the node and of the GPU.
abbrev pub print_node : List ℕ → List ℕ → List ℕ
print_node node gpu = node_text ++ (node ++ (gpu_text ++ (gpu ++ (b':' ∷ []))))

pub is_hex-hex_digit : (d : ℕ) → d < 16 → is_hex (hex_digit d) ≡ true
unfolding is_hex
is_hex-hex_digit d h = ground arith

pub digit_value-hex_digit : (d : ℕ) → d < 16 → digit_value (hex_digit d) ≡ d
unfolding digit_value
digit_value-hex_digit d h = ground arith

-- Eight digits give back the dword.
pub number-hex8 : (w : ℕ) → w < 2 ^ 32 → number_from 16 0 (hex8 w) ≡ w
unfolding number_from
number-hex8 w h = omega (arith, digit_value-hex_digit)

pub match_dword-AllOf :
    (ds rest : List ℕ) → AllOf is_hex ds → match_dword (length ds) (ds ++ rest) ≡ some (ds, rest)
unfolding match_dword
match_dword-AllOf [] rest a = refl
match_dword-AllOf (d ∷ ds) rest a = rw (a.0, match_dword-AllOf ds rest a.1)

hex8-AllOf : (w : ℕ) → AllOf is_hex (hex8 w)
hex8-AllOf w = (
  h (w / 2 ^ 28),
  (
    h (w / 2 ^ 24),
    (
      h (w / 2 ^ 20),
      (h (w / 2 ^ 16), (h (w / 2 ^ 12), (h (w / 2 ^ 8), (h (w / 2 ^ 4), (h w, tt))))),
    ),
  ),
)
  where
    h : (n : ℕ) → is_hex (hex_digit (n % 16)) ≡ true
    h n = is_hex-hex_digit (n % 16) (omega arith)

match_dword-hex8 : (w : ℕ) (rest : List ℕ) → match_dword 8 (hex8 w ++ rest) ≡ some (hex8 w, rest)
match_dword-hex8 w rest = match_dword-AllOf (hex8 w) rest (hex8-AllOf w)

stoul-hex8 : (w : ℕ) → w < 2 ^ 32 → stoul 16 (hex8 w) ≡ done w
unfolding stoul
stoul-hex8 w h = rw (number-hex8 w h, lt→ltb w (2 ^ 64) (omega arith))

abbrev pub Dwords : List ℕ → Type 0
Dwords [] = Unit
Dwords (w ∷ ws) = (w < 2 ^ 32) × Dwords ws

-- Two rounds for each dword and one more are enough.
scan_dwords-print :
    (ws : List ℕ) (fuel : ℕ)
    → Dwords ws
    → length ws * 9 < fuel
    → scan_dwords fuel (print_dwords ws) ≡ done ws
unfolding scan_dwords match_dword is_hex
scan_dwords-print [] zero d h = absurd (omega arith)
scan_dwords-print [] (suc fuel) d h = refl
scan_dwords-print (w ∷ ws) zero d h = absurd (omega arith)
scan_dwords-print (w ∷ ws) (suc zero) d h = absurd (omega arith)
scan_dwords-print (w ∷ ws) (suc (suc fuel)) d h = rw (
  scan_dwords,
  match_dword-hex8 w (print_dwords ws),
  stoul-hex8 w d.0,
  scan_dwords-print ws fuel d.1 (omega arith),
  mod-eq_of_lt d.0,
)

length-print_dwords : (ws : List ℕ) → length (print_dwords ws) ≡ length ws * 9
length-print_dwords [] = refl
length-print_dwords (w ∷ ws) = omega (arith, length-print_dwords ws)

-- The data of a printed line of fewer than 2^31 dwords is read back.
pub parse_data_section-print :
    (ws : List ℕ)
    → Dwords ws
    → length ws < 2 ^ 31
    → parse_data_section (print_dwords ws) ≡ done (returns ws)
unfolding parse_data_section
parse_data_section-print ws d h =
    let few : ltb (length ws) (2 ^ 31) ≡ true = ground arith in
    rw (
      scan_dwords-print ws (suc (length (print_dwords ws))) d
          (omega (arith, length-print_dwords ws)),
      few,
    )

hex_not_terminator : (d : ℕ) → is_hex d ≡ true → ((d == b'\n') ≡ false) × ((d == b'\r') ≡ false)
unfolding is_hex
hex_not_terminator d h = ground arith

is_dots-AllOf : (ds rest : List ℕ) → AllOf is_hex ds → is_dots (ds ++ rest) ≡ is_dots rest
unfolding is_dots
is_dots-AllOf [] rest a = refl
is_dots-AllOf (d ∷ ds) rest a =
    rw ((hex_not_terminator d a.0).0, (hex_not_terminator d a.0).1, is_dots-AllOf ds rest a.1)

is_dots-print : (ws : List ℕ) → is_dots (print_dwords ws) ≡ true
unfolding is_dots
is_dots-print [] = refl
is_dots-print (w ∷ ws) = is_dots-AllOf (hex8 w) (print_dwords ws) (hex8-AllOf w) ∙ is_dots-print ws

is_space-hex_digit : (d : ℕ) → d < 16 → is_space (hex_digit d) ≡ false
unfolding is_space
is_space-hex_digit d h = ground arith

spaces_then :
    (c : ℕ) (cs : List ℕ)
    → is_space c ≡ false
    → span_while is_space (b' ' ∷ b' ' ∷ c ∷ cs) ≡ (b' ' ∷ b' ' ∷ [], c ∷ cs)
unfolding span_while
spaces_then c cs h = rw h (unfold is_space in refl)

get_data_start_lem :
    (line spaces after ds rest : List ℕ)
    → span_while is_space line ≡ (spaces, after)
    → match_dword 8 after ≡ some (ds, rest)
    → ends_address rest ≡ true
    → get_data_start_position line ≡ done (returns (length spaces + 9))
unfolding get_data_start_position
get_data_start_lem line spaces after ds rest e1 e2 e3 =
    rw (get_data_start_position, e1, e2, e3) (rw e1)

-- The data of a printed line starts behind the colon.
pub get_data_start_position-print :
    (offset : ℕ) (ws : List ℕ) → get_data_start_position (print_data offset ws) ≡ done (returns 11)
unfolding ends_address
get_data_start_position-print offset ws =
    get_data_start_lem (print_data offset ws) (b' ' ∷ b' ' ∷ [])
      (hex8 offset ++ (b':' ∷ print_dwords ws)) (hex8 offset) (b':' ∷ print_dwords ws)
      (spaces_then (hex_digit (offset / 2 ^ 28 % 16)) _
        (is_space-hex_digit (offset / 2 ^ 28 % 16) (omega arith)))
      (match_dword-hex8 offset (b':' ∷ print_dwords ws)) (is_dots-print ws)

-- What is no digit ends a run of digits.
span_while-AllOf :
    (p : ℕ → Bool) (ds : List ℕ) (c : ℕ) (rest : List ℕ)
    → AllOf p ds
    → p c ≡ false
    → span_while p (ds ++ (c ∷ rest)) ≡ (ds, c ∷ rest)
unfolding span_while
span_while-AllOf p [] c rest a h = rw h
span_while-AllOf p (d ∷ ds) c rest a h = rw (a.0, span_while-AllOf p ds c rest a.1 h)

some_of-AllOf :
    (p : ℕ → Bool) (d : ℕ) (ds : List ℕ) (c : ℕ) (rest : List ℕ)
    → AllOf p (d ∷ ds)
    → p c ≡ false
    → some_of p ((d ∷ ds) ++ (c ∷ rest)) ≡ some (d ∷ ds, c ∷ rest)
unfolding some_of span_while
some_of-AllOf p d ds c rest a h =
    rw (some_of, span_while, a.0, span_while-AllOf p ds c rest a.1 h) (rw a.0)

match_node_lem :
    (line a node b c gpu d : List ℕ)
    → strip node_text (drop_spaces line) ≡ some a
    → some_of is_digit a ≡ some (node, b)
    → strip gpu_text b ≡ some c
    → some_of is_hex c ≡ some (gpu, d)
    → ends_node d ≡ true
    → match_node line ≡ some (node, gpu)
unfolding match_node
match_node_lem line a node b c gpu d e1 e2 e3 e4 e5 = rw (match_node, e1, e2, e3, e4, e5)

match_node-print :
    (d : ℕ) (ds : List ℕ) (g : ℕ) (gs : List ℕ)
    → AllOf is_digit (d ∷ ds)
    → AllOf is_hex (g ∷ gs)
    → match_node (print_node (d ∷ ds) (g ∷ gs)) ≡ some (d ∷ ds, g ∷ gs)
unfolding drop_spaces is_space ends_node
match_node-print d ds g gs hd hg =
    match_node_lem _ _ (d ∷ ds) (gpu_text ++ ((g ∷ gs) ++ (b':' ∷ []))) ((g ∷ gs) ++ (b':' ∷ []))
      (g ∷ gs) (b':' ∷ []) refl (some_of-AllOf is_digit d ds b',' _ hd (unfold is_digit in refl))
      refl (some_of-AllOf is_hex g gs b':' [] hg (unfold is_hex in refl)) refl

parse_node_line_lem :
    (line node gpu : List ℕ) (n g : ℕ)
    → match_node line ≡ some (node, gpu)
    → stoul 10 node ≡ done n
    → stoul 16 gpu ≡ done g
    → parse_node_line line ≡ done (returns (record { node_id = u32 n; gpu_id = u32 g }))
unfolding parse_node_line
parse_node_line_lem line node gpu n g e1 e2 e3 = rw (parse_node_line, e1, e2, e3)

stoul_fits :
    (base : ℕ) (cs : List ℕ)
    → number_from base 0 cs < 2 ^ 64
    → stoul base cs ≡ done (number_from base 0 cs)
unfolding stoul
stoul_fits base cs h = rw (lt→ltb _ _ h)

-- A node line is read: the two numbers, cut to 32 bits, if the digits are digits, at least one
-- each, and both numbers fit 64 bits.
pub parse_node_line-print :
    (d : ℕ) (ds : List ℕ) (g : ℕ) (gs : List ℕ)
    → AllOf is_digit (d ∷ ds)
    → AllOf is_hex (g ∷ gs)
    → number_from 10 0 (d ∷ ds) < 2 ^ 64
    → number_from 16 0 (g ∷ gs) < 2 ^ 64
    → parse_node_line (print_node (d ∷ ds) (g ∷ gs))
      ≡ done (
          returns (record {
            node_id = u32 (number_from 10 0 (d ∷ ds));
            gpu_id = u32 (number_from 16 0 (g ∷ gs));
          }))
parse_node_line-print d ds g gs hd hg fd fg =
    parse_node_line_lem _ _ _ _ _ (match_node-print d ds g gs hd hg) (stoul_fits 10 (d ∷ ds) fd)
      (stoul_fits 16 (g ∷ gs) fg)

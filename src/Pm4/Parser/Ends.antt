-- ===== src/Pm4/Parser/Ends.antt =====
-- The rounds of the loop of `Parse` on any text: where the next one starts, and in which state.
use rocsift_glog_fork.Common.{take, ◌-◌}
use rocsift_glog_fork.Pm4.Parser.Lines.{Ensures-IsSafe}
use rocsift_glog_fork.Common.{◌^◌}
use rocsift_glog_fork.Common.Run.{Ensures-if}
use rocsift_glog_fork.Common.{
  Bool, List, Option-cases, [], arith, none, Option, ◌||◌, ◌&&◌, ◌==◌, ap, drop, sym, refl, false,
  inl, inr, length, some, suc, true, zero, ℕ, ◌+◌, ◌<◌, ◌≤◌, ◌∙◌, length-drop, ◌∷◌, ◌≡◌, ◌⊎◌,
}
use rocsift_glog_fork.Common.Run.{Ensures, IsSafe, Returns}
use rocsift_glog_fork.Pm4.Line.{get_data_start_position, parse_data_section, parse_node_line}
use rocsift_glog_fork.Pm4.Parser.Steps.{at_line}
use rocsift_glog_fork.Pm4.Parser.{
  NextState, RlsParser, State, data_state, end_state, error_state, node_state, parse_node,
}
use rocsift_glog_fork.Common.Run.{Run, done, throw, fault, spin, Ensures-bind}
use rocsift_glog_fork.Pm4.Parser.{
  parse_data, node_step, data_step, find_newline, index_of_newline, parse_loop,
}
use rocsift_glog_fork.Pm4.Types.{Status, success, error, no_match, value_or_throw, is_success}
use rocsift_glog_fork.Pm4.Parser.Lines.{
  parse_data_section-Returns, get_data_start_position-Returns, parse_node_line-Returns,
}

-- Where the increment is not 1 the next round is the last.
abbrev stops : State → Bool
stops node_state = false
stops data_state = false
stops error_state = true
stops end_state = true

abbrev GoodStep : RlsParser → NextState × RlsParser → Type 0
GoodStep p (n, q) = (q.rls_text ≡ p.rls_text) × ((n.increment ≡ 1) ⊎ (stops n.state ≡ true))

Returns-Ensures {ℓ} : {A : Type ℓ} (m : Run A) → Returns m → Ensures (λ _. Unit) m
Returns-Ensures (done a) h = tt
Returns-Ensures (throw e) h = absurd h
Returns-Ensures fault h = absurd h
Returns-Ensures spin h = absurd h

value_or_throw-Ensures {ℓ} : {A : Type ℓ} (v : Option A) → Ensures (λ _. Unit) (value_or_throw v)
value_or_throw-Ensures none = tt
value_or_throw-Ensures (some a) = tt

Ensures-status {ℓ} :
    {A : Type ℓ} (P : A → Type 0) (s : Status) (x y z : Run A)
    → Ensures P x
    → Ensures P y
    → Ensures P z
    → Ensures P (elim s [ error ↦ x | no_match ↦ y | success ↦ z ])
Ensures-status P success x y z f g h = h
Ensures-status P error x y z f g h = f
Ensures-status P no_match x y z f g h = g

parse_node-GoodStep : (line : List ℕ) (p : RlsParser) → Ensures (GoodStep p) (parse_node line p)
unfolding parse_node
parse_node-GoodStep line p =
    Ensures-bind (λ _. Unit) (GoodStep p) (parse_node_line line) _
      (Returns-Ensures _ (parse_node_line-Returns line))
      λ r u.
        Ensures-status (GoodStep p) r.status _ _ _ (refl, inr refl) (refl, inl refl)
          (Ensures-bind (λ _. Unit) (GoodStep p) (value_or_throw r.value) _
            (value_or_throw-Ensures r.value)
            λ found v.
              Ensures-if (GoodStep p)
                (p.find_all_nodes || found.node_id == p.node && found.gpu_id == p.gpu)
                (done (
                  record { state = data_state; increment = 1 },
                  record p { node = found.node_id; gpu = found.gpu_id },
                ))
                (done (record { state = node_state; increment = 1 }, p)) (refl, inl refl)
                (refl, inl refl))

parse_data-GoodStep :
    (line : List ℕ) (p : RlsParser)
    → length line < 2 ^ 31
    → Ensures (GoodStep p) (parse_data line p)
unfolding parse_data
parse_data-GoodStep line p h =
    Ensures-bind (λ _. Unit) (GoodStep p) (get_data_start_position line) _
      (Returns-Ensures _ (get_data_start_position-Returns line))
      λ r u.
        Ensures-status (GoodStep p) r.status _ _ _ (refl, inr refl) (refl, inr refl)
          (Ensures-bind (λ _. Unit) (GoodStep p) (value_or_throw r.value) _
            (value_or_throw-Ensures r.value)
            λ k v.
              Ensures-bind (λ _. Unit) (GoodStep p) (parse_data_section (drop k line)) _
                (Returns-Ensures _
                  (parse_data_section-Returns (drop k line) (omega (arith, length-drop k line))))
                λ section w.
                  Ensures-if (GoodStep p) (is_success section.status) _ _
                    (Ensures-bind (λ _. Unit) (GoodStep p) (value_or_throw section.value) _
                      (value_or_throw-Ensures section.value) λ ws x. (refl, inl refl))
                    (refl, inr refl))

-- What a round leaves: the text unchanged, the position of the next newline sought from the new
-- start, and a start that advanced or a state that ends the loop.
abbrev pub GoodRound : RlsParser → ℕ → RlsParser × ℕ × ℕ → Type 0
GoodRound p e (q, start', last') =
    (q.rls_text ≡ p.rls_text)
    × (q.end_pos ≡ find_newline p.rls_text start')
    × ((start' ≡ e + 1) ⊎ (stops q.state ≡ true))

node_step-GoodRound :
    (p : RlsParser) (start e last : ℕ) → Ensures (GoodRound p e) (node_step p start e last)
unfolding node_step
node_step-GoodRound p start e last =
    Ensures-bind (GoodStep p) (GoodRound p e) (parse_node _ p) _ (parse_node-GoodStep _ p)
      λ (n, q) (t, d). (t, refl, elim d [ inl i ↦ inl (ap (λ k. e + k) i) | inr h ↦ inr h ])

take_shorter : (n : ℕ) (cs : List ℕ) → length (take n cs) ≤ length cs
take_shorter zero cs = omega arith
take_shorter (suc n) [] = omega arith
take_shorter (suc n) (c ∷ cs) = omega (arith, take_shorter n cs)

data_step-GoodRound :
    (p : RlsParser) (start e last : ℕ)
    → length p.rls_text < 2 ^ 31
    → Ensures (GoodRound p e) (data_step p start e last)
unfolding data_step
data_step-GoodRound p start e last small =
    Ensures-bind (GoodStep p) (GoodRound p e) (parse_data _ p) _
      (parse_data-GoodStep _ p (
        omega
          (arith, take_shorter (e - start) (drop start p.rls_text), length-drop start p.rls_text)))
      λ (n, q) (t, d). (t, refl, elim d [ inl i ↦ inl (ap (λ k. e + k) i) | inr h ↦ inr h ])

index_of_newline-bound : (cs : List ℕ) {i : ℕ} → index_of_newline cs ≡ some i → i < length cs
index_of_newline-bound [] h = cc
index_of_newline-bound (c ∷ cs) h = elim (Option-cases (index_of_newline cs)) [
  | inl e ↦ ground arith
  | inr (i, e) ↦ ground (arith, index_of_newline-bound cs e)
]

find_newline-bound :
    (text : List ℕ) (start : ℕ) {e : ℕ}
    → find_newline text start ≡ some e
    → (start ≤ e) × (e < length text)
find_newline-bound text start h = elim (Option-cases (index_of_newline (drop start text))) [
  | inl e ↦ ground arith
  | inr (i, e) ↦ ground (arith, index_of_newline-bound (drop start text) e, length-drop start text)
]

module _ (fuel : ℕ) (p : RlsParser) (start last : ℕ) where
  loop-none : p.end_pos ≡ none → IsSafe (parse_loop (suc fuel) p start last)
  unfolding parse_loop
  loop-none h = rw (parse_loop, h) tt

  stopped-IsSafe :
      (s : State)
      → p.state ≡ s
      → stops s ≡ true
      → {e : ℕ} → p.end_pos ≡ some e
      → IsSafe (parse_loop (suc fuel) p start last)
  unfolding parse_loop
  stopped-IsSafe node_state w t h = cc
  stopped-IsSafe data_state w t h = cc
  stopped-IsSafe error_state w t h = rw (parse_loop, h, w) tt
  stopped-IsSafe end_state w t h = rw (parse_loop, h, w) tt

  round-IsSafe :
      (s : State) (e : ℕ)
      → p.state ≡ s
      → p.end_pos ≡ some e
      → length p.rls_text < 2 ^ 31
      → ((r : RlsParser × ℕ × ℕ) → GoodRound p e r → IsSafe (parse_loop fuel r.0 r.1 r.2))
      → IsSafe (parse_loop (suc fuel) p start last)
  unfolding parse_loop
  round-IsSafe node_state e w h small k =
      rw (parse_loop, h, w)
        (Ensures-IsSafe _ _ (node_step p start e last) (node_step-GoodRound p start e last) k)
  round-IsSafe data_state e w h small k =
      rw (parse_loop, h, w)
        (Ensures-IsSafe _ _ (data_step p start e last) (data_step-GoodRound p start e last small) k)
  round-IsSafe error_state e w h small k = rw (parse_loop, h, w) tt
  round-IsSafe end_state e w h small k = rw (parse_loop, h, w) tt

loop-stopped :
    (fuel : ℕ) (p : RlsParser) (start last : ℕ)
    → 0 < fuel
    → stops p.state ≡ true
    → IsSafe (parse_loop fuel p start last)
loop-stopped zero p start last h t = absurd (omega arith)
loop-stopped (suc fuel) p start last h t = elim (Option-cases p.end_pos) [
  | inl e ↦ loop-none fuel p start last e
  | inr (e, w) ↦ stopped-IsSafe fuel p start last p.state refl t w
]

-- Fuel for the rest of the text, and two rounds more.
loop-IsSafe :
    (fuel : ℕ) (p : RlsParser) (start last : ℕ)
    → length p.rls_text + 2 < fuel + start
    → start ≤ length p.rls_text
    → p.end_pos ≡ find_newline p.rls_text start
    → length p.rls_text < 2 ^ 31
    → IsSafe (parse_loop fuel p start last)
loop-IsSafe zero p start last h l f small = absurd (omega arith)
loop-IsSafe (suc fuel) p start last h l f small = elim (Option-cases p.end_pos) [
  | inl e ↦ loop-none fuel p start last e
  | inr (e, w) ↦
      let bound = find_newline-bound p.rls_text start (sym f ∙ w) in
      round-IsSafe fuel p start last p.state e refl w small λ (q, start', last') (t, g, d). elim d [
        | inr s ↦ loop-stopped fuel q start' last' (omega (arith, bound)) s
        | inl i ↦
            let same : length q.rls_text ≡ length p.rls_text = ap length t in
            loop-IsSafe fuel q start' last' (omega (arith, bound, same, i))
              (omega (arith, bound, same, i)) (g ∙ ap (λ text. find_newline text start') (sym t))
              (omega (arith, same))
      ]
]

-- From a position in a text of fewer than 2^31 characters, in any state, the loop of `Parse` comes
-- to an end within the rounds that `parse` gives it, and the index of no line's dwords overflows: it
-- returns or throws.
pub parse_loop-IsSafe :
    (p : RlsParser) (s : State) (start last : ℕ)
    → start ≤ length p.rls_text
    → length p.rls_text < 2 ^ 31
    → IsSafe (parse_loop (length p.rls_text + 3) (at_line p s start) start last)
parse_loop-IsSafe p s start last l small =
    loop-IsSafe (length p.rls_text + 3) (at_line p s start) start last (omega arith) l refl small

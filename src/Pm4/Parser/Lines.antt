-- ===== src/Pm4/Parser/Lines.antt =====
-- How the matching of a line ends, for any line.
use rocsift_glog_fork.Pm4.Types.{returns}
use rocsift_glog_fork.Common.{true}
use rocsift_glog_fork.Common.Run.{Ensures-bind}
use rocsift_glog_fork.Common.Run.{Ensures-if, fault, throw}
use rocsift_glog_fork.Common.{◌≤◌}
use rocsift_glog_fork.Common.Run.{Ensures, Run}
use rocsift_glog_fork.Common.{if◌then◌else◌, if◌then◌else◌}
use rocsift_glog_fork.Common.{
  List, Option-cases, [], arith, none, subst, sym, inl, inr, length, ltb, some, suc, zero, ℕ, ◌+◌,
  ◌<◌, ◌^◌, ◌∷◌, ◌≡◌,
}
use rocsift_glog_fork.Common.Run.{IsSafe, IsSafe-bind, IsSafe-if, Returns, Returns-try}
use rocsift_glog_fork.Pm4.Line.{
  get_data_start_position, match_dword, number_from, parse_data_section, parse_node_line,
  scan_dwords, stoul,
}
use rocsift_glog_fork.Pm4.Line.{match_node}
use rocsift_glog_fork.Common.Words.{u32}
use rocsift_glog_fork.Common.Run.{fault, spin, throw, done, ◌>>=◌}

match_dword-length :
    (k : ℕ) (cs : List ℕ) {ds rest : List ℕ}
    → match_dword k cs ≡ some (ds, rest)
    → length rest + k ≡ length cs
unfolding match_dword
match_dword-length zero cs e = ground arith
match_dword-length (suc k) [] e = cc
match_dword-length (suc k) (c ∷ cs) e = elim (Option-cases (match_dword k cs)) [
  | inl none_there ↦ ground arith
  | inr ((ds', rest'), e') ↦ ground (arith, match_dword-length k cs e')
]

stoul-IsSafe : (base : ℕ) (cs : List ℕ) → IsSafe (stoul base cs)
unfolding stoul
stoul-IsSafe base cs = IsSafe-if (ltb (number_from base 0 cs) (2 ^ 64)) _ _ tt tt

stoul-Ensures : (base : ℕ) (cs : List ℕ) → Ensures (λ _. Unit) (stoul base cs)
unfolding stoul
stoul-Ensures base cs = Ensures-if _ (ltb (number_from base 0 cs) (2 ^ 64)) _ _ tt tt

Ensures-mono :
    {A : Type 0} (P Q : A → Type 0) (m : Run A) → Ensures P m → ((a : A) → P a → Q a) → Ensures Q m
Ensures-mono P Q (done a) h k = k a h
Ensures-mono P Q (throw e) h k = tt
Ensures-mono P Q fault h k = h
Ensures-mono P Q spin h k = h

pub Ensures-IsSafe {ℓ κ} :
    {A : Type ℓ} {B : Type κ} (P : A → Type 0) (f : A → Run B) (m : Run A)
    → Ensures P m
    → ((a : A) → P a → IsSafe (f a))
    → IsSafe (m >>= f)
Ensures-IsSafe P f (done a) h k = k a h
Ensures-IsSafe P f (throw e) h k = tt
Ensures-IsSafe P f fault h k = absurd h
Ensures-IsSafe P f spin h k = absurd h

scan_dwords-none :
    (fuel c : ℕ) (cs : List ℕ)
    → match_dword 8 (c ∷ cs) ≡ none
    → scan_dwords (suc fuel) (c ∷ cs) ≡ scan_dwords fuel cs
unfolding scan_dwords
scan_dwords-none fuel c cs e = rw (scan_dwords, e)

scan_dwords-some :
    (fuel c : ℕ) (cs ds rest : List ℕ)
    → match_dword 8 (c ∷ cs) ≡ some (ds, rest)
    → scan_dwords (suc fuel) (c ∷ cs)
      ≡ (do w ← stoul 16 ds; ws ← scan_dwords fuel rest; done (u32 w ∷ ws))
unfolding scan_dwords stoul
scan_dwords-some fuel c cs ds rest e = rw (scan_dwords, e)

-- The scan ends, with no more dwords than there are characters.
scan_dwords-Ensures :
    (fuel : ℕ) (cs : List ℕ)
    → length cs < fuel
    → Ensures (λ ws. length ws ≤ length cs) (scan_dwords fuel cs)
unfolding scan_dwords
scan_dwords-Ensures zero cs h = absurd (omega arith)
scan_dwords-Ensures (suc fuel) [] h = omega arith
scan_dwords-Ensures (suc fuel) (c ∷ cs) h = elim (Option-cases (match_dword 8 (c ∷ cs))) [
  | inl e ↦
      subst (Ensures (λ ws. length ws ≤ suc (length cs))) (sym (scan_dwords-none fuel c cs e)) (
        Ensures-mono _ _ (scan_dwords fuel cs) (scan_dwords-Ensures fuel cs (omega arith))
          λ ws l. omega arith)
  | inr ((ds, rest), e) ↦
      let shorter = match_dword-length 8 (c ∷ cs) e in
      subst (Ensures (λ ws. length ws ≤ suc (length cs)))
        (sym (scan_dwords-some fuel c cs ds rest e))
        (Ensures-bind (λ _. Unit) _ (stoul 16 ds) _ (stoul-Ensures 16 ds)
          λ w u.
            Ensures-bind (λ ws. length ws ≤ length rest) _ (scan_dwords fuel rest) _
              (scan_dwords-Ensures fuel rest (omega (arith, shorter)))
              λ ws l. omega (arith, shorter))
]

pub parse_data_section-Returns :
    (cs : List ℕ) → length cs < 2 ^ 31 → Returns (parse_data_section cs)
unfolding parse_data_section
parse_data_section-Returns cs h =
    Returns-try _ _
      (Ensures-IsSafe (λ ws. length ws ≤ length cs) _ (scan_dwords (suc (length cs)) cs)
        (scan_dwords-Ensures _ cs (omega arith)) λ ws l. few (returns ws) (length ws) (omega arith))
      λ e. tt
  where
    few :
        {A : Type 0} (m : A) (n : ℕ)
        → n < 2 ^ 31
        → IsSafe (if ltb n (2 ^ 31) then done m else fault)
    few m n l = let e : ltb n (2 ^ 31) ≡ true = ground arith in rw e tt

pub get_data_start_position-Returns : (line : List ℕ) → Returns (get_data_start_position line)
unfolding get_data_start_position
get_data_start_position-Returns line = ground arith

pub parse_node_line-Returns : (line : List ℕ) → Returns (parse_node_line line)
unfolding parse_node_line
parse_node_line-Returns line = elim (Option-cases (match_node line)) [
  | inl e ↦ rw (Returns, parse_node_line, e) tt
  | inr ((node, gpu), e) ↦
      rw (Returns, parse_node_line, e)
        (Returns-try _ _
          (IsSafe-bind (stoul 10 node) _ (stoul-IsSafe 10 node)
            λ n. IsSafe-bind (stoul 16 gpu) _ (stoul-IsSafe 16 gpu) λ g. tt)
          λ x. tt)
]

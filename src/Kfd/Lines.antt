-- ===== src/Kfd/Lines.antt =====
-- A line `name value` of the properties file, as the driver prints it.
use rocsift_glog_fork.Common.{Bool-cases, arith, inl, inr, refl}
use rocsift_glog_fork.Pm4.Print.{AllOf}
use rocsift_glog_fork.Pm4.Line.{is_digit}
use rocsift_glog_fork.Common.{
  ◌⊎◌, Bool, List, [], false, none, some, true, ℕ, ◌&&◌, ◌++◌, ◌==◌, ◌||◌, ◌∷◌, ◌≡◌,
}
use rocsift_glog_fork.Kfd.Properties.{is_word, match_at}
use rocsift_glog_fork.Pm4.Line.{is_space, some_of, span_while, strip}

abbrev pub same_text : List ℕ → List ℕ → Bool
same_text [] [] = true
same_text [] (d ∷ ds) = false
same_text (c ∷ cs) [] = false
same_text (c ∷ cs) (d ∷ ds) = c == d && same_text cs ds

abbrev pub is_suffix : List ℕ → List ℕ → Bool
is_suffix name [] = same_text name []
is_suffix name (c ∷ cs) = same_text name (c ∷ cs) || is_suffix name cs

-- The characters of a name: no blanks and no digits in front.
abbrev pub NoSpace : List ℕ → Type 0
NoSpace [] = Unit
NoSpace (c ∷ cs) = (is_space c ≡ false) × NoSpace cs

abbrev pub line_of : List ℕ → List ℕ → List ℕ
line_of w value = w ++ (b' ' ∷ value)

some_of-none : (p : ℕ → Bool) (c : ℕ) (cs : List ℕ) → p c ≡ false → some_of p (c ∷ cs) ≡ none
unfolding some_of span_while
some_of-none p c cs h = rw (some_of, span_while, h)

pub match_at-none : (text cs : List ℕ) → strip text cs ≡ none → match_at text cs ≡ none
unfolding match_at
match_at-none text cs e = rw (match_at, e)

match_at-blanks :
    (text cs rest : List ℕ)
    → strip text cs ≡ some rest
    → some_of is_space rest ≡ none
    → match_at text cs ≡ none
unfolding match_at
match_at-blanks text cs rest e h = rw (match_at, e, h)

match_at-word :
    (text cs rest blanks word g more : List ℕ)
    → strip text cs ≡ some rest
    → some_of is_space rest ≡ some (blanks, word)
    → some_of is_word word ≡ some (g, more)
    → match_at text cs ≡ some g
unfolding match_at
match_at-word text cs rest blanks word g more e h k = rw (match_at, e, h, k)

-- A text is not there, or not followed by a blank.
abbrev pub Blocked : List ℕ → List ℕ → Type 0
Blocked text cs =
    (strip text cs ≡ none)
    ⊎ ((c : ℕ) × (rest : List ℕ) × (strip text cs ≡ some (c ∷ rest)) × (is_space c ≡ false))

pub Blocked-none : (text cs : List ℕ) → Blocked text cs → match_at text cs ≡ none
Blocked-none text cs (inl e) = match_at-none text cs e
Blocked-none text cs (inr (c, rest, e, h)) =
    match_at-blanks text cs (c ∷ rest) e (some_of-none is_space c rest h)

Blocked-step :
    (d : ℕ) (ds : List ℕ) (c : ℕ) (cs : List ℕ) → Blocked ds cs → Blocked (d ∷ ds) (c ∷ cs)
Blocked-step d ds c cs b = elim (Bool-cases (c == d)) [
  | inl e ↦ elim b [ inl h ↦ inl (rw e h) | inr (x, rest, h, k) ↦ inr (x, rest, rw e h, k) ]
  | inr e ↦ inl (rw e)
]

pub Blocked-differ :
    (d : ℕ) (ds : List ℕ) (c : ℕ) (cs : List ℕ) → (c == d) ≡ false → Blocked (d ∷ ds) (c ∷ cs)
Blocked-differ d ds c cs h = inl (rw h)

pub space_differs : (d : ℕ) → is_space d ≡ false → (b' ' == d) ≡ false
unfolding is_space
space_differs d h = ground arith

space_other : (c : ℕ) → is_space c ≡ false → (c == b' ') ≡ false
unfolding is_space
space_other c h = ground arith

-- A value: at least one digit.
abbrev pub Digits : List ℕ → Type 0
Digits [] = ⊥
Digits (d ∷ ds) = AllOf is_digit (d ∷ ds)

digit_no_space : (d : ℕ) → is_digit d ≡ true → is_space d ≡ false
unfolding is_digit is_space
digit_no_space d h = ground arith

pub digit_differs : (c d : ℕ) → is_digit c ≡ true → is_digit d ≡ false → (c == d) ≡ false
unfolding is_digit
digit_differs c d h k = ground arith

-- Another name than the one in the line, or the name with a blank behind it.
pub Blocked-name :
    (name w v : List ℕ)
    → NoSpace name
    → NoSpace w
    → same_text name w ≡ false
    → Blocked name (line_of w v)
Blocked-name [] [] v n m h = cc
Blocked-name [] (c ∷ cs) v n m h = inr (c, line_of cs v, refl, m.0)
Blocked-name (d ∷ ds) [] v n m h = Blocked-differ d ds b' ' v (space_differs d n.0)
Blocked-name (d ∷ ds) (c ∷ cs) v n m h = elim (Bool-cases (c == d)) [
  | inl e ↦ Blocked-step d ds c (line_of cs v) (Blocked-name ds cs v n.1 m.1 (ground arith))
  | inr e ↦ Blocked-differ d ds c (line_of cs v) e
]

pub Blocked-padded :
    (name w v : List ℕ)
    → NoSpace name
    → NoSpace w
    → Digits v
    → Blocked (name ++ (b' ' ∷ [])) (line_of w v)
Blocked-padded [] [] [] n m h = absurd h
Blocked-padded [] [] (x ∷ xs) n m h = inr (x, xs, refl, digit_no_space x h.0)
Blocked-padded [] (c ∷ cs) v n m h = Blocked-differ b' ' [] c (line_of cs v) (space_other c m.0)
Blocked-padded (d ∷ ds) [] v n m h = Blocked-differ d _ b' ' v (space_differs d n.0)
Blocked-padded (d ∷ ds) (c ∷ cs) v n m h =
    Blocked-step d _ c (line_of cs v) (Blocked-padded ds cs v n.1 m.1 h)

pub strip_same :
    (name w v : List ℕ) → same_text name w ≡ true → strip name (line_of w v) ≡ some (b' ' ∷ v)
strip_same [] [] v h = refl
strip_same [] (c ∷ cs) v h = cc
strip_same (d ∷ ds) [] v h = cc
strip_same (d ∷ ds) (c ∷ cs) v h = elim (Bool-cases (c == d)) [
  | inl e ↦ rw e (strip_same ds cs v (ground arith))
  | inr e ↦ ground arith
]

pub span_all : (p : ℕ → Bool) (cs : List ℕ) → AllOf p cs → span_while p cs ≡ (cs, [])
unfolding span_while
span_all p [] h = refl
span_all p (c ∷ cs) h = rw (span_while, h.0, span_all p cs h.1)

digit_word : (c : ℕ) → is_digit c ≡ true → is_word c ≡ true
unfolding is_word
digit_word c h = ground arith

digits_word : (cs : List ℕ) → AllOf is_digit cs → AllOf is_word cs
digits_word [] h = tt
digits_word (c ∷ cs) h = (digit_word c h.0, digits_word cs h.1)

one_blank :
    (x : ℕ) (xs : List ℕ)
    → is_space x ≡ false
    → some_of is_space (b' ' ∷ x ∷ xs) ≡ some (b' ' ∷ [], x ∷ xs)
unfolding some_of span_while is_space
one_blank x xs h = rw h

whole_word :
    (x : ℕ) (xs : List ℕ) → AllOf is_word (x ∷ xs) → some_of is_word (x ∷ xs) ≡ some (x ∷ xs, [])
unfolding some_of
whole_word x xs h = rw (some_of, span_all is_word (x ∷ xs) h) (rw (span_all is_word (x ∷ xs) h))

pub match_at-value :
    (text cs v : List ℕ) → Digits v → strip text cs ≡ some (b' ' ∷ v) → match_at text cs ≡ some v
match_at-value text cs [] h e = absurd h
match_at-value text cs (x ∷ xs) h e =
    match_at-word text cs (b' ' ∷ x ∷ xs) (b' ' ∷ []) (x ∷ xs) (x ∷ xs) [] e
      (one_blank x xs (digit_no_space x h.0)) (whole_word x xs (digits_word (x ∷ xs) h))

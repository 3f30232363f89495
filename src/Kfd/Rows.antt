-- ===== src/Kfd/Rows.antt =====
-- The search for the expressions in a line `name value` of the properties file.
use rocsift_glog_fork.Kfd.Lines.{Blocked-name}
use rocsift_glog_fork.Kfd.Lines.{strip_same}
use rocsift_glog_fork.Common.{append-nil}
use rocsift_glog_fork.Common.{inr, refl}
use rocsift_glog_fork.Kfd.Lines.{match_at-value}
use rocsift_glog_fork.Kfd.Lines.{digit_differs, same_text}
use rocsift_glog_fork.Common.{inl, ◌∙◌}
use rocsift_glog_fork.Common.{Bool-cases}
use rocsift_glog_fork.Kfd.Properties.{find_row, match_at, text_of}
use rocsift_glog_fork.Kfd.Lines.{Blocked-padded, match_at-none}
use rocsift_glog_fork.Kfd.Lines.{space_differs}
use rocsift_glog_fork.Common.{some}
use rocsift_glog_fork.Kfd.Lines.{Blocked-differ, is_suffix}
use rocsift_glog_fork.Common.{◌&&◌}
use rocsift_glog_fork.Kfd.Lines.{Blocked-none}
use rocsift_glog_fork.Common.{arith, if◌then◌else◌, if◌then◌else◌, not}
use rocsift_glog_fork.Common.{[], false, none, true}
use rocsift_glog_fork.Pm4.Line.{is_digit, is_space}
use rocsift_glog_fork.Kfd.Field.{Field}
use rocsift_glog_fork.Kfd.Lines.{line_of}
use rocsift_glog_fork.Pm4.Print.{AllOf}
use rocsift_glog_fork.Kfd.Lines.{Digits, NoSpace}
use rocsift_glog_fork.Common.{Bool, Option, ◌++◌, ◌∷◌, ◌≡◌}
use rocsift_glog_fork.Kfd.Properties.{Row}
use rocsift_glog_fork.Common.{ℕ}
use rocsift_glog_fork.Kfd.Properties.{search_text}
use rocsift_glog_fork.Common.{List}

abbrev pub plain_chars : List ℕ → Bool
plain_chars [] = true
plain_chars (c ∷ cs) = not (is_space c) && plain_chars cs

pub plain_chars_lem : (cs : List ℕ) → plain_chars cs ≡ true → NoSpace cs
plain_chars_lem [] h = tt
plain_chars_lem (c ∷ cs) h = (ground arith, plain_chars_lem cs (ground arith))

-- A name without blanks that does not begin with a digit.
abbrev pub is_name : List ℕ → Bool
is_name [] = false
is_name (c ∷ cs) = not (is_digit c) && plain_chars (c ∷ cs)

-- The text of an expression begins with a character that is neither a blank nor a digit.
abbrev Begins : List ℕ → Type 0
Begins [] = ⊥
Begins (c ∷ cs) = (is_space c ≡ false) × (is_digit c ≡ false)

search-digits : (text v : List ℕ) → Begins text → AllOf is_digit v → search_text text v ≡ none
unfolding search_text
search-digits [] v b h = absurd b
search-digits (c ∷ cs) [] b h = match_at-none (c ∷ cs) [] refl
search-digits (c ∷ cs) (d ∷ ds) b h = rw (
  search_text,
  Blocked-none (c ∷ cs) (d ∷ ds) (Blocked-differ c cs d ds (digit_differs d c h.0 b.1)),
  search-digits (c ∷ cs) ds b h.1,
)

search-value : (text v : List ℕ) → Begins text → Digits v → search_text text (b' ' ∷ v) ≡ none
unfolding search_text
search-value text [] b h = absurd h
search-value [] (x ∷ xs) b h = absurd b
search-value (c ∷ cs) (x ∷ xs) b h = rw (
  search_text,
  Blocked-none (c ∷ cs) (b' ' ∷ x ∷ xs) (Blocked-differ c cs b' ' (x ∷ xs) (space_differs c b.0)),
  search-digits (c ∷ cs) (x ∷ xs) b h,
)

search-skip :
    (text : List ℕ) (c : ℕ) (cs : List ℕ)
    → match_at text (c ∷ cs) ≡ none
    → search_text text (c ∷ cs) ≡ search_text text cs
unfolding search_text
search-skip text c cs e = rw (search_text, e)

search-found :
    (text : List ℕ) (c : ℕ) (cs g : List ℕ)
    → match_at text (c ∷ cs) ≡ some g
    → search_text text (c ∷ cs) ≡ some g
unfolding search_text
search-found text c cs g e = rw (search_text, e)

-- A name is found where the line's name ends with it.
search-name :
    (name w v : List ℕ)
    → Begins name
    → NoSpace name
    → NoSpace w
    → Digits v
    → search_text name (line_of w v) ≡ (if is_suffix name w then some v else none)
unfolding search_text
search-name [] w v b n m h = absurd b
search-name (d ∷ ds) [] v b n m h = rw (search-value (d ∷ ds) v b h)
search-name (d ∷ ds) (c ∷ cs) v b n m h = elim (Bool-cases (same_text (d ∷ ds) (c ∷ cs))) [
  | inl e ↦
      search-found (d ∷ ds) c (line_of cs v) v
        (match_at-value (d ∷ ds) (line_of (c ∷ cs) v) v h (strip_same (d ∷ ds) (c ∷ cs) v e))
      ∙ rw (is_suffix, e)
  | inr e ↦
      search-skip (d ∷ ds) c (line_of cs v)
        (Blocked-none (d ∷ ds) (line_of (c ∷ cs) v) (Blocked-name (d ∷ ds) (c ∷ cs) v n m e))
      ∙ search-name (d ∷ ds) cs v b n m.1 h
      ∙ rw (is_suffix, e)
]

-- A name with a blank behind it is not found.
search-padded :
    (name w v : List ℕ)
    → Begins (name ++ (b' ' ∷ []))
    → NoSpace name
    → NoSpace w
    → Digits v
    → search_text (name ++ (b' ' ∷ [])) (line_of w v) ≡ none
unfolding search_text
search-padded name [] v b n m h = search-value (name ++ (b' ' ∷ [])) v b h
search-padded name (c ∷ cs) v b n m h =
    search-skip (name ++ (b' ' ∷ [])) c (line_of cs v)
      (Blocked-none _ (line_of (c ∷ cs) v) (Blocked-padded name (c ∷ cs) v n m h))
    ∙ search-padded name cs v b n m.1 h

abbrev pub with_value : List ℕ → Option Field → Option (Field × List ℕ)
with_value v none = none
with_value v (some f) = some (f, v)

-- The first expression whose name the line's name ends with.
abbrev pub first_suffix : List Row → List ℕ → Option Field
first_suffix [] w = none
first_suffix (r ∷ rs) w =
    let later = first_suffix rs w in
    if not r.padded && is_suffix r.name w then some r.field else later

abbrev pub all_names : List Row → Bool
all_names [] = true
all_names (r ∷ rs) = is_name r.name && all_names rs

name-Begins : (cs : List ℕ) → is_name cs ≡ true → Begins cs
name-Begins [] h = cc
name-Begins (c ∷ cs) h = (ground arith, ground arith)

Begins-padded : (cs : List ℕ) → Begins cs → Begins (cs ++ (b' ' ∷ []))
Begins-padded [] b = absurd b
Begins-padded (c ∷ cs) b = b

name_plain : (cs : List ℕ) → is_name cs ≡ true → NoSpace cs
name_plain [] h = tt
name_plain (c ∷ cs) h = plain_chars_lem (c ∷ cs) (ground arith)

search-row :
    (r : Row) (w v : List ℕ)
    → is_name r.name ≡ true
    → NoSpace w
    → Digits v
    → search_text (text_of r) (line_of w v)
      ≡ (if not r.padded && is_suffix r.name w then some v else none)
search-row r w v p m h = elim (Bool-cases r.padded) [
  | inl e ↦
      rw (text_of, e)
        (search-padded r.name w v (Begins-padded r.name (name-Begins r.name p))
          (name_plain r.name p) m h)
  | inr e ↦
      rw (text_of, e, append-nil)
        (search-name r.name w v (name-Begins r.name p) (name_plain r.name p) m h)
]

pub find_row-first_suffix :
    (rs : List Row) (w v : List ℕ)
    → all_names rs ≡ true
    → NoSpace w
    → Digits v
    → find_row rs (line_of w v) ≡ with_value v (first_suffix rs w)
unfolding find_row
find_row-first_suffix [] w v p m h = refl
find_row-first_suffix (r ∷ rs) w v p m h =
    let found = search-row r w v (ground arith) m h in
    let later = find_row-first_suffix rs w v (ground arith) m h in
    elim (Bool-cases (not r.padded && is_suffix r.name w)) [
      | inl e ↦ rw (find_row, found, e)
      | inr e ↦ rw (find_row, found, e) later
    ]

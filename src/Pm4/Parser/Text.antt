-- ===== src/Pm4/Parser/Text.antt =====
-- Where the lines of a text stand: what `find` and `substr` of the loop of `Parse` give.
use native.Mathlib.Nat.{add-zero, add_assoc}
use rocsift_glog_fork.Common.{
  List, [], ap, arith, drop, drop-append, drop-drop, false, length, refl, some, sym, take,
  take-append, ℕ, ◌++◌, ◌+◌, ◌-◌, ◌==◌, ◌∙◌, ◌∷◌, ◌≡◌,
}
use rocsift_glog_fork.Pm4.Parser.{find_newline, index_of_newline}

abbrev pub NoNewline : List ℕ → Type 0
NoNewline [] = Unit
NoNewline (c ∷ cs) = ((c == b'\n') ≡ false) × NoNewline cs

-- The text from `start` on begins with a line.
abbrev pub LineAt : List ℕ → ℕ → List ℕ → List ℕ → Type 0
LineAt text start line post = (drop start text ≡ line ++ (b'\n' ∷ post)) × NoNewline line

-- The position behind a line.
abbrev pub after_line : ℕ → List ℕ → ℕ
after_line start line = start + length line + 1

index_of_newline-append :
    (line post : List ℕ)
    → NoNewline line
    → index_of_newline (line ++ (b'\n' ∷ post)) ≡ some (length line)
index_of_newline-append [] post n = refl
index_of_newline-append (c ∷ cs) post n = rw (n.0, index_of_newline-append cs post n.1)

find_newline_of :
    (text : List ℕ) (start i : ℕ)
    → index_of_newline (drop start text) ≡ some i
    → find_newline text start ≡ some (start + i)
find_newline_of text start i e = rw (find_newline, e)

pub drop-after_line :
    (text : List ℕ) (start : ℕ) (line post : List ℕ)
    → drop start text ≡ line ++ (b'\n' ∷ post)
    → drop (after_line start line) text ≡ post
drop-after_line text start line post e =
    ap (λ n. drop n text) (add_assoc start (length line) 1)
    ∙ sym (drop-drop start (length line + 1) text)
    ∙ ap (drop (length line + 1)) e
    ∙ sym (drop-drop (length line) 1 (line ++ (b'\n' ∷ post)))
    ∙ ap (drop 1) (drop-append line (b'\n' ∷ post))

module _ (text : List ℕ) (start : ℕ) (line post : List ℕ) (at : LineAt text start line post) where
  pub find_newline-line : find_newline text start ≡ some (start + length line)
  find_newline-line =
      find_newline_of text start (length line)
        (ap index_of_newline at.0 ∙ index_of_newline-append line post at.1)

  pub line_read : take (start + length line - start) (drop start text) ≡ line
  line_read = rw (at.0, length_line) (take-append line (b'\n' ∷ post))
    where
      length_line : start + length line - start ≡ length line
      length_line = omega arith

  pub drop_at_newline : drop (start + length line) text ≡ b'\n' ∷ post
  drop_at_newline =
      sym (drop-drop start (length line) text)
      ∙ ap (drop (length line)) at.0
      ∙ drop-append line (b'\n' ∷ post)

  -- From the newline itself `find` finds that newline.
  pub find_newline-same : find_newline text (start + length line + 0) ≡ some (start + length line)
  find_newline-same =
      ap (find_newline text) (add-zero (start + length line))
      ∙ find_newline_of text (start + length line) 0 (ap index_of_newline drop_at_newline)
      ∙ ap some (add-zero (start + length line))

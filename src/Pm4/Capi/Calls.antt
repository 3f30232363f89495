-- ===== src/Pm4/Capi/Calls.antt =====
-- The calls of `Parse` of src/pm4/rls_parser.cc on the sections of a text, one after the other.
use rocsift_glog_fork.Common.{
  List, [], ap, arith, drop, inl, inr, length, map, none, refl, some, true, ℕ, ◌++◌, ◌-◌, ◌<◌, ◌^◌,
  ◌∙◌, ◌∷◌, ◌≡◌,
}
use rocsift_glog_fork.Common.Run.{done}
use rocsift_glog_fork.Common.Words.{sub64}
use rocsift_glog_fork.Pm4.Capi.Build.{Calls, Yields}
use rocsift_glog_fork.Pm4.Capi.Newlines.{newline_before_rest, rest_start-le}
use rocsift_glog_fork.Pm4.Capi.Text.{
  GoodSection, GoodSections, PassedLines, SectionText, first_line, runlist_of, text_of, text_then,
}
use rocsift_glog_fork.Pm4.Line.{drop_spaces, match_node, parse_node_line}
use rocsift_glog_fork.Pm4.Parser.{RlsParser, build_entries, new_all, new_for, node_state, parse}
use rocsift_glog_fork.Pm4.Parser.Parse.{parse-Section}
use rocsift_glog_fork.Pm4.Parser.Section.{
  IsFollowed, Section, SkippedLines, last_state, lines_then, next_pos, rest_start,
}
use rocsift_glog_fork.Pm4.Parser.Steps.{with_node}
use rocsift_glog_fork.Pm4.Parser.Text.{NoNewline}
use rocsift_glog_fork.Pm4.Types.{mismatches}

-- The parser between two calls, with the lines that are left of what the last one read, and a rest.
pub record AtText (p : RlsParser) (lead : List (List ℕ)) (rest : List ℕ) : Type 0 where
  pub all : p.find_all_nodes ≡ true
  pub empty : p.dwords_buffer ≡ []
  pub small : length p.rls_text < 2 ^ 64
  pub pos : ℕ
  pub at : p.end_pos ≡ some pos
  pub passed : PassedLines lead
  pub stands : drop pos p.rls_text ≡ lines_then lead rest

first_of_lines :
    (lines : List (List ℕ)) (node_line rest : List ℕ)
    → PassedLines lines
    → NoNewline node_line
    → (post : List ℕ) × (lines_then lines (node_line ++ (b'\n' ∷ rest))
        ≡ elim lines [ [] ↦ node_line | line ∷ others ↦ line ] ++ (b'\n' ∷ post))
      × NoNewline (elim lines [ [] ↦ node_line | line ∷ others ↦ line ])
first_of_lines [] node_line rest s n = (rest, refl, n)
first_of_lines (line ∷ lines) node_line rest s n =
    (lines_then lines (node_line ++ (b'\n' ∷ rest)), refl, s.0.0)

abbrev followed_by :
    (ts : List SectionText) (rest : List ℕ)
    → GoodSections ts
    → IsFollowed rest
    → IsFollowed (text_then ts rest)
followed_by [] rest good f = f
followed_by (t ∷ ts) rest good f =
    let (post, e, n) =
      first_of_lines t.skipped t.node_line (lines_then t.data_lines (text_then ts rest))
        good.0.skips good.0.node_ends in
    inr (first_line t, post, e, n, good.0.starts)

skipped_lines : (p : RlsParser) (lines : List (List ℕ)) → PassedLines lines → SkippedLines p lines
skipped_lines p [] s = tt
skipped_lines p (line ∷ lines) s = ((s.0.0, inl s.0.1), skipped_lines p lines s.1)

append_passed :
    (lead lines : List (List ℕ))
    → PassedLines lead
    → PassedLines lines
    → PassedLines (lead ++ lines)
append_passed [] lines l s = s
append_passed (x ∷ xs) lines l s = (l.0, append_passed xs lines l.1 s)

lines_then-append :
    (lead lines : List (List ℕ)) (rest : List ℕ)
    → lines_then lead (lines_then lines rest) ≡ lines_then (lead ++ lines) rest
lines_then-append [] lines rest = refl
lines_then-append (x ∷ xs) lines rest =
    ap (λ (l : List ℕ). x ++ (b'\n' ∷ l)) (lines_then-append xs lines rest)

-- What the next call reads.
abbrev section_at :
    (p : RlsParser) (lead : List (List ℕ)) (t : SectionText) (rest : List ℕ)
    → (at : AtText p lead (text_then (t ∷ []) rest)) → GoodSection t
    → IsFollowed rest
    → Section p at.pos
section_at p lead t rest at good f = record {
  skipped = lead ++ t.skipped;
  node_line = t.node_line;
  found = t.found;
  data_lines = t.data_lines;
  dwords = t.dwords;
  rest = rest;
  stands = at.stands ∙ lines_then-append lead t.skipped _;
  skips = skipped_lines p (lead ++ t.skipped) (append_passed lead t.skipped at.passed good.skips);
  node_ends = good.node_ends;
  node_read = good.node_read;
  wanted = inl at.all;
  data_read = good.data_read;
  few = good.few;
  followed = f;
}

empty_line : parse_node_line [] ≡ done mismatches
unfolding parse_node_line match_node drop_spaces
empty_line = refl

-- The parser when the call has returned.
abbrev pub after_call : (p : RlsParser) (start : ℕ) → Section p start → RlsParser
after_call p start s = record (with_node p s.found) {
  state = last_state s.rest s.followed;
  dwords_buffer = [];
  end_pos = next_pos s.rest s.followed (rest_start s);
}

-- Where another line follows.
text_after :
    (p : RlsParser) (start : ℕ) (s : Section p start)
    → p.find_all_nodes ≡ true
    → length p.rls_text < 2 ^ 64
    → next_pos s.rest s.followed (rest_start s) ≡ some (sub64 (rest_start s) 1)
    → AtText (after_call p start s) ([] ∷ []) s.rest
text_after p start s all small next =
    let (low, e) = newline_before_rest p start s in
    record {
      all = all;
      empty = refl;
      small = small;
      pos = rest_start s - 1;
      at = next ∙ ap some (omega (arith, small, rest_start-le p start s));
      passed = ((tt, empty_line), tt);
      stands = e;
    }

-- The parser behind the sections: at the end, or at the newline in front of the rest.
abbrev pub AtRest : RlsParser → (rest : List ℕ) → IsFollowed rest → Type 0
AtRest p rest (inl e) = (p.end_pos ≡ none) × (p.dwords_buffer ≡ [])
AtRest p rest (inr follower) = AtText p ([] ∷ []) rest

rest_after :
    (p : RlsParser) (lead : List (List ℕ)) (t : SectionText) (rest : List ℕ) (f : IsFollowed rest)
    → (at : AtText p lead (text_then (t ∷ []) rest)) → (good : GoodSection t)
    → AtRest (after_call p at.pos (section_at p lead t rest at good f)) rest f
rest_after p lead t rest (inl e) at good = (refl, refl)
rest_after p lead t rest (inr follower) at good =
    text_after p at.pos (section_at p lead t rest at good (inr follower)) at.all at.small refl

pub calls-Calls :
    (p : RlsParser) (lead : List (List ℕ)) (t : SectionText) (ts : List SectionText) (rest : List ℕ)
    (f : IsFollowed rest)
    → AtText p lead (text_then (t ∷ ts) rest)
    → GoodSection t
    → GoodSections ts
    → (e : RlsParser) × Calls p (map runlist_of (t ∷ ts)) e × AtRest e rest f
calls-Calls p lead t [] rest f at good goods =
    let s = section_at p lead t rest at good f in
    let after = after_call p at.pos s in
    let read = parse-Section p at.pos s t.packet t.packets at.at at.empty good.holds good.fits in
    (after, (after, read, refl, refl), rest_after p lead t rest f at good)
calls-Calls p lead t (u ∷ ts) rest f at good goods =
    let s =
      section_at p lead t (text_then (u ∷ ts) rest) at good (followed_by (u ∷ ts) rest goods f) in
    let after = after_call p at.pos s in
    let read = parse-Section p at.pos s t.packet t.packets at.at at.empty good.holds good.fits in
    let (e, calls, last) =
      calls-Calls after ([] ∷ []) u ts rest f (text_after p at.pos s at.all at.small refl) goods.0
        goods.1 in
    (e, (after, read, refl, calls), last)

pub new_all-Calls :
    (t : SectionText) (ts : List SectionText) (rest : List ℕ) (f : IsFollowed rest)
    → GoodSections (t ∷ ts)
    → length (text_then (t ∷ ts) rest) < 2 ^ 64
    → (e : RlsParser) × Calls (new_all (text_then (t ∷ ts) rest)) (map runlist_of (t ∷ ts)) e
      × AtRest e rest f
unfolding new_all new_for
new_all-Calls t ts rest f good small =
    calls-Calls (new_all (text_then (t ∷ ts) rest)) [] t ts rest f
      (record {
        all = refl;
        empty = refl;
        small = small;
        pos = 0;
        at = refl;
        passed = tt;
        stands = refl;
      })
      good.0 good.1

last_call :
    (p : RlsParser)
    → (q : RlsParser) × (parse (λ _. true) (record p { dwords_buffer = []; end_pos = none })
        ≡ done (none, q))
unfolding parse build_entries
last_call p = (record p { state = node_state; dwords_buffer = []; end_pos = none }, refl)

pub new_all-Yields :
    (t : SectionText) (ts : List SectionText)
    → GoodSections (t ∷ ts)
    → length (text_of (t ∷ ts)) < 2 ^ 64
    → Yields (new_all (text_of (t ∷ ts))) (map runlist_of (t ∷ ts))
new_all-Yields t ts good small =
    let (e, calls, (none_left, empty)) = new_all-Calls t ts [] (inl refl) good small in
    let ends : e ≡ record e { dwords_buffer = []; end_pos = none } =
      λ i. record e { dwords_buffer = empty i; end_pos = none_left i } in
    let (q, last) = last_call e in (e, calls, q, ap (parse (λ _. true)) ends ∙ last)

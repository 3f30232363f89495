-- ===== src/Xlator/Range.antt =====
-- `sift_xlator_translate_range` and `sift_xlator_translate` of src/xlator/xlator.c. The list of
-- fragments is a value; `malloc` says which of the allocations give memory.
pub mod Pages
pub mod Loop
pub mod Cover
use rocsift_glog_fork.Xlator.Types.{undefined}
use rocsift_glog_fork.Common.{bit_and}
use rocsift_glog_fork.Common.{
  List, [], ◌∷◌, ◌++◌, map, length, get_elem?, take, drop, ℕ, zero, suc, ◌+◌, ◌-◌, ◌*◌, ◌/◌, ◌%◌,
  ◌^◌, ◌≤◌, ◌<◌, Bool, true, false, not, ◌&&◌, ◌||◌, Option, none, some, ◌≡◌, refl, sym, ap, ◌∙◌,
  if◌then◌else◌, ltb, leb, ◌==◌, arith, ◌≢◌, ◌⊎◌, inl, inr, Bool-cases, Option-cases, append-nil,
  append_assoc, length-append, lt→ltb, le→ltb, ltb→lt, ==_self, ==_differ, subst,
}
use rocsift_glog_fork.Common.Words.{u64, sub64, to_bool}
use rocsift_glog_fork.Xlator.Types.{
  Outcome, returned, failed, exited, ◌>>=◌, Fragment, Pte, WalkResults, WalkCache, WalkHelper,
}
use rocsift_glog_fork.Xlator.Overlap.{fragments_overlap}
use rocsift_glog_fork.Xlator.Walk.{walk_pt}
use rocsift_glog_fork.Xlator.Setup.{populate_walk_helper}
use rocsift_glog_fork.Xlator.Registers.{Xlator}

-- `x & ~mask`
abbrev pub and_not : ℕ → ℕ → ℕ
and_not x mask = x - bit_and x mask

-- `==` of flags, but for the base addresses.
unfoldable pub same_flags : Pte → Pte → Bool
same_flags p c =
    p.valid == c.valid
    && p.system == c.system
    && p.coherent == c.coherent
    && p.tmz == c.tmz
    && p.execute == c.execute
    && p.read == c.read
    && p.write == c.write
    && p.fragment == c.fragment
    && p.tiled == c.tiled
    && p.sw == c.sw
    && p.pte == c.pte
    && p.log == c.log
    && p.translate_further == c.translate_further
    && p.mtype == c.mtype

-- The tests behind the first one.
abbrev continues : Fragment → Fragment → Bool
continues prev curr =
    if not (u64 (prev.va + prev.size) == curr.va)
    then false
    else if not (to_bool prev.flags.valid) && not (to_bool curr.flags.valid)
    then true
    else u64 (prev.pa + prev.size) == curr.pa && same_flags prev.flags curr.flags

unfoldable pub is_contiguous : Fragment → Fragment → Outcome Bool
is_contiguous prev curr =
    if ltb curr.va (u64 (prev.va + prev.size)) then exited else returned (continues prev curr)

abbrev pub fragment_of : ℕ → WalkResults → Fragment
fragment_of addr results = record {
  va = and_not addr results.mask;
  pa = results.pte.base_address;
  size = results.size;
  flags = results.pte;
}

abbrev grow : Fragment → ℕ → Fragment
grow f size = record { va = f.va; pa = f.pa; size = u64 (f.size + size); flags = f.flags }

-- A new node at the end of the list.
abbrev pub push : (ℕ → Bool) → List Fragment → Fragment → Outcome (List Fragment)
push malloc list f = if malloc (length list) then returned (list ++ (f ∷ [])) else failed

-- What the loop does with a fragment that is not the first: `prev` and the list that it leaves.
unfoldable pub take_fragment :
    (ℕ → Bool) → Bool → Fragment → List Fragment → Fragment → Outcome (Fragment × List Fragment)
take_fragment malloc combine prev list curr =
    if fragments_overlap prev curr
    then failed
    else (if combine then is_contiguous prev curr else returned false) >>= λ joins.
        if joins
        then returned (grow prev curr.size, list)
        else push malloc list prev >>= λ l. returned (curr, l)

abbrev pub zero_pte : Pte
zero_pte = record {
  valid = 0;
  system = 0;
  coherent = 0;
  tmz = 0;
  execute = 0;
  read = 0;
  write = 0;
  fragment = 0;
  base_address = 0;
  tiled = 0;
  sw = 0;
  pte = 0;
  log = 0;
  translate_further = 0;
  mtype = 0;
}

abbrev pub zero_fragment : Fragment
zero_fragment = record { va = 0; pa = 0; size = 0; flags = zero_pte }

-- The walks of the page tables, with the state `C` that they keep.
module _ {C : Type 0} (walk : ℕ → C → Outcome (WalkResults × C)) (malloc : ℕ → Bool)
    (combine : Bool) where
  -- `prev` and the list after a fragment; the first one is only kept.
  abbrev pub next_fragment :
      Bool → Fragment → List Fragment → Fragment → Outcome (Fragment × List Fragment)
  next_fragment true prev list curr = returned (curr, list)
  next_fragment false prev list curr = take_fragment malloc combine prev list curr

  -- The loop, on fuel; `none` is that the fuel ran out. `first` is `count == 0`.
  unfoldable pub translate_loop :
      ℕ
      → ℕ
      → ℕ
      → ℕ
      → Bool
      → Fragment
      → List Fragment
      → C
      → Option (Outcome (Fragment × List Fragment))
  translate_loop zero va size addr first prev list c = none
  translate_loop (suc fuel) va size addr first prev list c = elim (ltb addr (u64 (va + size))) [
    | false ↦ some (returned (prev, list))
    | true ↦ elim (walk addr c) [
      | returned (results, c') ↦ elim (next_fragment first prev list (fragment_of addr results)) [
        | returned (prev', list') ↦
            translate_loop fuel va (u64 (size + (addr - and_not addr results.mask)))
              (u64 (and_not addr results.mask + results.size)) false prev' list' c'
        | failed ↦ some failed
        | exited ↦ some exited
        | undefined ↦ some undefined
      ]
      | failed ↦ some failed
      | exited ↦ some exited
      | undefined ↦ some undefined
    ]
  ]

  -- A round for every address.
  abbrev pub rounds_of_range : ℕ
  rounds_of_range = suc (2 ^ 64)

  unfoldable pub translate_pages : ℕ → ℕ → C → Option (Outcome (List Fragment))
  translate_pages va size c =
      elim (translate_loop rounds_of_range va size va true zero_fragment [] c) [
        | none ↦ none
        | some m ↦ some (m >>= λ r. push malloc r.1 r.0)
      ]

-- ===== src/Sift/Resolve.antt =====
-- `Partition::ResolveDebugFS` of src/sift/partition.cc: the search for the debugfs directory of a
-- partition. What stands below /sys/kernel/debug/dri is an argument.
use rocsift_glog_fork.Kfd.Field.{location_id}
use rocsift_glog_fork.Kfd.Field.{domain_id}
use rocsift_glog_fork.Kfd.Field.{Properties}
use rocsift_glog_fork.Common.{
  List, [], ◌∷◌, ℕ, ◌/◌, ◌%◌, ◌^◌, Bool, true, false, ◌&&◌, Option, none, some, if◌then◌else◌, ◌==◌,
}
use rocsift_glog_fork.Common.Run.{Run, done, throw, ◌>>=◌, status_error, error, code_bug, try_catch}

-- A directory: its number, whether it has a file `amdgpu_regs2`, whether the constructor of
-- AMDGPUDebugFS returns on it or throws, and for each of its files `name` the
-- domain, the bus and the device in it; `none` where the expression does not match, or its parts
-- are no hexadecimal numbers.
pub record DriDir : Type 0 where
  pub number : ℕ
  pub has_regs2 : Bool
  pub opens : Bool
  pub names : List (Option (ℕ × ℕ × ℕ))

-- The comparison with the location of the node.
abbrev pub at_location : Properties → ℕ × ℕ × ℕ → Bool
at_location props (domain, bus, device) =
    props domain_id == domain
    && props location_id / 2 ^ 8 % 2 ^ 8 == bus
    && props location_id / 2 ^ 3 % 2 ^ 5 == device

-- The loop over the files `name` of a directory: whether one of them matches.
unfoldable pub search_names : Properties → List (Option (ℕ × ℕ × ℕ)) → Run Bool
search_names props [] = done false
search_names props (none ∷ names) = throw (status_error code_bug)
search_names props (some a ∷ names) =
    let later = search_names props names in if at_location props a then done true else later

-- `std::make_unique<AMDGPUDebugFS>`, which opens the files of the directory.
abbrev pub make_debugfs : DriDir → Run (Option ℕ)
make_debugfs d = if d.opens then done (some d.number) else throw (status_error error)

-- The loop over the directories, within `try`; at its end nothing is returned yet.
unfoldable pub search_dirs : Properties → List DriDir → Run (Option ℕ)
search_dirs props [] = done none
search_dirs props (d ∷ dirs) =
    let later = search_dirs props dirs in
    let here = search_names props d.names >>= (λ found. if found then make_debugfs d else later) in
    if d.has_regs2 then here else later

-- The `try` block with its handler, which gives a null pointer: `some` is what it returns.
abbrev pub resolve_tried : Run (Option ℕ) → Run (Option (Option ℕ))
resolve_tried m =
    try_catch (m >>= λ r. elim r [ none ↦ done none | some n ↦ done (some (some n)) ])
      λ _. done (some none)

-- The root is `none` where it is no directory.
unfoldable pub resolve_debugfs : Option (List DriDir) → Properties → Run (Option ℕ)
resolve_debugfs root props = do
  r ←
      resolve_tried
        (elim root [ none ↦ throw (status_error code_bug) | some dirs ↦ search_dirs props dirs ])
  elim r [ none ↦ throw (status_error code_bug) | some h ↦ done h ]

-- ===== src/Drm/Files.antt =====
-- The files that src/drm/drm.cc reads, as it sees them, and the order of their paths.
use rocsift_glog_fork.Common.{
  Bool, List, Option, [], false, if◌then◌else◌, ltb, none, some, true, ℕ, ◌&&◌, ◌==◌, ◌||◌, ◌∷◌,
}
use rocsift_glog_fork.Common.Run.{Run, done, std_exception, throw}

-- A name by its characters, and a path by its names, the last one first.
abbrev pub Name : Type 0
Name = List ℕ

abbrev pub FilePath : Type 0
FilePath = List Name

-- What the system answers: `std_fs::exists`, `std_fs::is_directory`, the names that
-- `directory_iterator` gives, with no list where it throws, and what a stream reads of a file,
-- nothing where it cannot be opened.
pub record FileSystem : Type 0 where
  pub exists : FilePath → Bool
  pub is_directory : FilePath → Bool
  pub entries : FilePath → Option (List Name)
  pub contents : FilePath → List ℕ

unfoldable pub iterate : FileSystem → FilePath → Run (List Name)
iterate fs dir = elim (fs.entries dir) [ none ↦ throw std_exception | some names ↦ done names ]

abbrev pub filename : FilePath → Name
filename [] = []
filename (n ∷ p) = n

abbrev pub is_name : Name → Name → Bool
is_name [] [] = true
is_name [] (d ∷ ds) = false
is_name (c ∷ cs) [] = false
is_name (c ∷ cs) (d ∷ ds) = c == d && is_name cs ds

-- The order of paths in one directory.
abbrev pub path_less : Name → Name → Bool
path_less cs [] = false
path_less [] (d ∷ ds) = true
path_less (c ∷ cs) (d ∷ ds) = ltb c d || (c == d && path_less cs ds)

-- `std::set::insert`
unfoldable pub insert_name : Name → List Name → List Name
insert_name n [] = n ∷ []
insert_name n (m ∷ ms) =
    let later = insert_name n ms in
    if path_less n m then n ∷ m ∷ ms else if path_less m n then m ∷ later else m ∷ ms

unfoldable pub to_set : List Name → List Name
to_set [] = []
to_set (n ∷ ns) = insert_name n (to_set ns)

-- ===== src/Chip.antt =====
-- include/rocsift/chipid.h: the families of the PCI device IDs.
pub mod Families
pub mod Mtype
mod Tests
use rocsift_glog_fork.Common.{Bool, List, [], false, ℕ, ◌==◌, ◌||◌, ◌∷◌}

-- A `switch` that gives true for some IDs.
abbrev pub is_one_of : List ℕ → ℕ → Bool
is_one_of [] id = false
is_one_of (c ∷ cs) id = id == c || is_one_of cs id

abbrev pub vega20_ids : List ℕ
vega20_ids = 0x66a0 ∷ 0x66a1 ∷ 0x66a2 ∷ 0x66a3 ∷ 0x66af ∷ []

abbrev pub mi100_ids : List ℕ
mi100_ids = 0x7388 ∷ 0x738c ∷ 0x738e ∷ []

abbrev pub navi10_ids : List ℕ
navi10_ids = 0x7310 ∷ 0x7312 ∷ 0x731b ∷ 0x731f ∷ []

abbrev pub navi21_ids : List ℕ
navi21_ids = 0x73a1 ∷ 0x73a2 ∷ 0x73a3 ∷ 0x73a5 ∷ 0x73ab ∷ 0x73ae ∷ 0x73af ∷ 0x73bf ∷ []

abbrev pub navi31_ids : List ℕ
navi31_ids = 0x7448 ∷ 0x744c ∷ 0x745e ∷ []

abbrev pub mi200_ids : List ℕ
mi200_ids = 0x740f ∷ 0x7408 ∷ 0x740c ∷ []

abbrev pub mi300x_ids : List ℕ
mi300x_ids = 0x74a1 ∷ 0x74b5 ∷ []

abbrev pub mi300x_hf_ids : List ℕ
mi300x_hf_ids = 0x74a9 ∷ 0x74bd ∷ []

abbrev pub mi300a_ids : List ℕ
mi300a_ids = 0x74a0 ∷ 0x74b4 ∷ []

abbrev pub mi325x_ids : List ℕ
mi325x_ids = 0x74a5 ∷ 0x74b9 ∷ []

unfoldable pub is_vega20 : ℕ → Bool
is_vega20 = is_one_of vega20_ids

unfoldable pub is_mi100 : ℕ → Bool
is_mi100 = is_one_of mi100_ids

unfoldable pub is_navi10 : ℕ → Bool
is_navi10 = is_one_of navi10_ids

unfoldable pub is_navi21 : ℕ → Bool
is_navi21 = is_one_of navi21_ids

unfoldable pub is_navi31 : ℕ → Bool
is_navi31 = is_one_of navi31_ids

unfoldable pub is_mi200 : ℕ → Bool
is_mi200 = is_one_of mi200_ids

unfoldable pub is_mi300x : ℕ → Bool
is_mi300x = is_one_of mi300x_ids

unfoldable pub is_mi300x_hf : ℕ → Bool
is_mi300x_hf = is_one_of mi300x_hf_ids

unfoldable pub is_mi300a : ℕ → Bool
is_mi300a = is_one_of mi300a_ids

unfoldable pub is_mi325x : ℕ → Bool
is_mi325x = is_one_of mi325x_ids

unfoldable pub is_mi300 : ℕ → Bool
is_mi300 id = is_mi300a id || is_mi300x id || is_mi300x_hf id

unfoldable pub is_mi3xx : ℕ → Bool
is_mi3xx id = is_mi300 id || is_mi325x id || is_mi300x_hf id

-- ===== src/Kfd/Properties.antt =====
-- The lines of the `properties` file: `ParseKFDProperties` of src/kfd/kfdnode.cc, up to the
-- override of the device ID.
use Prim.Native.Char.{code}
use Prim.Native.String.{String}
use rocsift_glog_fork.Common.{
  Bool, List, Option, [], false, if◌then◌else◌, leb, ltb, none, some, true, ℕ, ◌&&◌, ◌++◌, ◌-◌,
  ◌==◌, ◌^◌, ◌||◌, ◌∷◌,
}
use rocsift_glog_fork.Kfd.Field.{
  Field, Properties, set_field, cpu_cores_count, simd_count, mem_banks_count, caches_count,
  io_links_count, p2p_links_count, cpu_core_id_base, simd_id_base, max_waves_per_simd,
  lds_size_in_kb, gds_size_in_kb, num_gws, wave_front_size, array_count, simd_arrays_per_engine,
  cu_per_simd_array, simd_per_cu, max_slots_scratch_cu, gfx_target_version, vendor_id, device_id,
  location_id, domain_id, drm_render_minor, hive_id, num_sdma_engines, num_sdma_xgmi_engines,
  num_sdma_queues_per_engine, num_cp_queues, max_engine_clk_fcompute, local_mem_size, fw_version,
  capability, debug_prop, sdma_fw_version, unique_id, num_xcc, max_engine_clk_ccompute,
}
use rocsift_glog_fork.Pm4.Line.{is_digit, is_space, number_from, some_of, span_while, strip}

abbrev pub codes : String → List ℕ
codes String.[] = []
codes (String.◌∷◌ c s) = code c ∷ codes s

-- The class `\w`.
unfoldable pub is_word : ℕ → Bool
unfolding is_digit
is_word c = is_digit c || (leb b'a' c && leb c b'z') || (leb b'A' c && leb c b'Z') || c == b'_'

-- A regular expression `name\s+(\w+)`, or `name \s+(\w+)` with a blank behind the name, and the
-- field that its group is for.
pub record Row : Type 0 where
  pub field : Field
  pub name : List ℕ
  pub padded : Bool

abbrev pub row : Field → List ℕ → Bool → Row
row f name padded = record { field = f; name = name; padded = padded }

-- The expressions in the order of the tests.
abbrev pub rows : List Row
rows =
    row cpu_cores_count (codes "cpu_cores_count") false
    ∷ row simd_count (codes "simd_count") false
    ∷ row mem_banks_count (codes "mem_banks_count") false
    ∷ row caches_count (codes "caches_count") false
    ∷ row io_links_count (codes "io_links_count") false
    ∷ row p2p_links_count (codes "p2p_links_count") false
    ∷ row cpu_core_id_base (codes "cpu_core_id_base") false
    ∷ row simd_id_base (codes "simd_id_base") false
    ∷ row max_waves_per_simd (codes "max_waves_per_simd") false
    ∷ row lds_size_in_kb (codes "lds_size_in_kb") false
    ∷ row gds_size_in_kb (codes "gds_size_in_kb") false
    ∷ row num_gws (codes "num_gws") true
    ∷ row wave_front_size (codes "wave_front_size") false
    ∷ row array_count (codes "array_count") false
    ∷ row simd_arrays_per_engine (codes "simd_arrays_per_engine") false
    ∷ row cu_per_simd_array (codes "cu_per_simd_array") false
    ∷ row simd_per_cu (codes "simd_per_cu") false
    ∷ row max_slots_scratch_cu (codes "max_slots_scratch_cu") false
    ∷ row gfx_target_version (codes "gfx_target_version") false
    ∷ row vendor_id (codes "vendor_id") false
    ∷ row device_id (codes "device_id") false
    ∷ row location_id (codes "location_id") false
    ∷ row domain_id (codes "domain") false
    ∷ row drm_render_minor (codes "drm_render_minor") false
    ∷ row hive_id (codes "hive_id") false
    ∷ row num_sdma_engines (codes "num_sdma_engines") false
    ∷ row num_sdma_xgmi_engines (codes "num_sdma_xgmi_engines") false
    ∷ row num_sdma_queues_per_engine (codes "num_sdma_queues_per_engine") false
    ∷ row num_cp_queues (codes "num_cp_queues") false
    ∷ row max_engine_clk_fcompute (codes "max_engine_clk_fcompute") false
    ∷ row local_mem_size (codes "local_mem_size") false
    ∷ row fw_version (codes "fw_version") false
    ∷ row capability (codes "capability") false
    ∷ row debug_prop (codes "debug_prop") false
    ∷ row sdma_fw_version (codes "sdma_fw_version") false
    ∷ row unique_id (codes "unique_id") false
    ∷ row num_xcc (codes "num_xcc") false
    ∷ row max_engine_clk_ccompute (codes "max_engine_clk_ccompute") false
    ∷ []

abbrev pub text_of : Row → List ℕ
text_of r = r.name ++ (if r.padded then b' ' ∷ [] else [])

-- A match of `text\s+(\w+)` at the front: the group.
unfoldable pub match_at : List ℕ → List ℕ → Option (List ℕ)
match_at text cs = elim (strip text cs) [
  | none ↦ none
  | some rest ↦ elim (some_of is_space rest) [
    | none ↦ none
    | some (blanks, word) ↦ elim (some_of is_word word) [ none ↦ none | some (g, _) ↦ some g ]
  ]
]

-- `std::regex_search`: the first match from left to right.
unfoldable pub search_text : List ℕ → List ℕ → Option (List ℕ)
search_text text [] = match_at text []
search_text text (c ∷ cs) =
    let later = search_text text cs in
    elim (match_at text (c ∷ cs)) [ none ↦ later | some g ↦ some g ]

-- The first expression that is found in a line.
unfoldable pub find_row : List Row → List ℕ → Option (Field × List ℕ)
find_row [] line = none
find_row (r ∷ rs) line =
    let later = find_row rs line in
    elim (search_text (text_of r) line) [ none ↦ later | some g ↦ some (r.field, g) ]

-- `std::strtoul` in base 10: the digits at the front, and the largest value if they do not fit.
unfoldable pub strtoul : List ℕ → ℕ
strtoul cs =
    let n = number_from 10 0 (span_while is_digit cs).0 in if ltb n (2 ^ 64) then n else 2 ^ 64 - 1

unfoldable pub parse_line : List ℕ → Properties → Properties
parse_line line props = elim (find_row rows line) [
  | none ↦ props
  | some (f, g) ↦ set_field props f (strtoul g)
]

-- The loop over the lines of the file; the properties start as 0.
unfoldable pub parse_lines : List (List ℕ) → Properties → Properties
parse_lines [] props = props
parse_lines (line ∷ lines) props = parse_lines lines (parse_line line props)

unfoldable pub parse_properties : List (List ℕ) → Properties
parse_properties lines = parse_lines lines λ f. 0

-- ===== src/Kfd/Names.antt =====
-- The names that the driver prints for the fields of a node.
use rocsift_glog_fork.Common.{List, ℕ, Bool, true, false, ◌≡◌, refl, some}
use rocsift_glog_fork.Kfd.Properties.{codes, rows}
use rocsift_glog_fork.Kfd.Rows.{first_suffix, plain_chars}
use rocsift_glog_fork.Pm4.Line.{is_space}
use rocsift_glog_fork.Kfd.Field.{Field}
use rocsift_glog_fork.Kfd.Field.{
  cpu_cores_count, simd_count, mem_banks_count, caches_count, io_links_count, p2p_links_count,
  cpu_core_id_base, simd_id_base, max_waves_per_simd, lds_size_in_kb, gds_size_in_kb, num_gws,
  wave_front_size, array_count, simd_arrays_per_engine, cu_per_simd_array, simd_per_cu,
  max_slots_scratch_cu, gfx_target_version, vendor_id, device_id, location_id, domain_id,
  drm_render_minor, hive_id, num_sdma_engines, num_sdma_xgmi_engines, num_sdma_queues_per_engine,
  num_cp_queues, max_engine_clk_fcompute, local_mem_size, fw_version, capability, debug_prop,
  sdma_fw_version, unique_id, num_xcc, max_engine_clk_ccompute,
}

-- The name that a field has in the file.
abbrev pub printed_name : Field → List ℕ
printed_name cpu_cores_count = codes "cpu_cores_count"
printed_name simd_count = codes "simd_count"
printed_name mem_banks_count = codes "mem_banks_count"
printed_name caches_count = codes "caches_count"
printed_name io_links_count = codes "io_links_count"
printed_name p2p_links_count = codes "p2p_links_count"
printed_name cpu_core_id_base = codes "cpu_core_id_base"
printed_name simd_id_base = codes "simd_id_base"
printed_name max_waves_per_simd = codes "max_waves_per_simd"
printed_name lds_size_in_kb = codes "lds_size_in_kb"
printed_name gds_size_in_kb = codes "gds_size_in_kb"
printed_name num_gws = codes "num_gws"
printed_name wave_front_size = codes "wave_front_size"
printed_name array_count = codes "array_count"
printed_name simd_arrays_per_engine = codes "simd_arrays_per_engine"
printed_name cu_per_simd_array = codes "cu_per_simd_array"
printed_name simd_per_cu = codes "simd_per_cu"
printed_name max_slots_scratch_cu = codes "max_slots_scratch_cu"
printed_name gfx_target_version = codes "gfx_target_version"
printed_name vendor_id = codes "vendor_id"
printed_name device_id = codes "device_id"
printed_name location_id = codes "location_id"
printed_name domain_id = codes "domain"
printed_name drm_render_minor = codes "drm_render_minor"
printed_name hive_id = codes "hive_id"
printed_name num_sdma_engines = codes "num_sdma_engines"
printed_name num_sdma_xgmi_engines = codes "num_sdma_xgmi_engines"
printed_name num_sdma_queues_per_engine = codes "num_sdma_queues_per_engine"
printed_name num_cp_queues = codes "num_cp_queues"
printed_name max_engine_clk_fcompute = codes "max_engine_clk_fcompute"
printed_name local_mem_size = codes "local_mem_size"
printed_name fw_version = codes "fw_version"
printed_name capability = codes "capability"
printed_name debug_prop = codes "debug_prop"
printed_name sdma_fw_version = codes "sdma_fw_version"
printed_name unique_id = codes "unique_id"
printed_name num_xcc = codes "num_xcc"
printed_name max_engine_clk_ccompute = codes "max_engine_clk_ccompute"

-- The fields but for two: `sdma_fw_version`, whose lines hold the name of another field, and
-- `num_gws`, whose expression asks for two blanks.
abbrev pub is_read : Field → Bool
is_read cpu_cores_count = true
is_read simd_count = true
is_read mem_banks_count = true
is_read caches_count = true
is_read io_links_count = true
is_read p2p_links_count = true
is_read cpu_core_id_base = true
is_read simd_id_base = true
is_read max_waves_per_simd = true
is_read lds_size_in_kb = true
is_read gds_size_in_kb = true
is_read num_gws = false
is_read wave_front_size = true
is_read array_count = true
is_read simd_arrays_per_engine = true
is_read cu_per_simd_array = true
is_read simd_per_cu = true
is_read max_slots_scratch_cu = true
is_read gfx_target_version = true
is_read vendor_id = true
is_read device_id = true
is_read location_id = true
is_read domain_id = true
is_read drm_render_minor = true
is_read hive_id = true
is_read num_sdma_engines = true
is_read num_sdma_xgmi_engines = true
is_read num_sdma_queues_per_engine = true
is_read num_cp_queues = true
is_read max_engine_clk_fcompute = true
is_read local_mem_size = true
is_read fw_version = true
is_read capability = true
is_read debug_prop = true
is_read sdma_fw_version = false
is_read unique_id = true
is_read num_xcc = true
is_read max_engine_clk_ccompute = true

pub printed_row : (f : Field) → is_read f ≡ true → first_suffix rows (printed_name f) ≡ some f
printed_row cpu_cores_count h = refl
printed_row simd_count h = refl
printed_row mem_banks_count h = refl
printed_row caches_count h = refl
printed_row io_links_count h = refl
printed_row p2p_links_count h = refl
printed_row cpu_core_id_base h = refl
printed_row simd_id_base h = refl
printed_row max_waves_per_simd h = refl
printed_row lds_size_in_kb h = refl
printed_row gds_size_in_kb h = refl
printed_row num_gws h = cc
printed_row wave_front_size h = refl
printed_row array_count h = refl
printed_row simd_arrays_per_engine h = refl
printed_row cu_per_simd_array h = refl
printed_row simd_per_cu h = refl
printed_row max_slots_scratch_cu h = refl
printed_row gfx_target_version h = refl
printed_row vendor_id h = refl
printed_row device_id h = refl
printed_row location_id h = refl
printed_row domain_id h = refl
printed_row drm_render_minor h = refl
printed_row hive_id h = refl
printed_row num_sdma_engines h = refl
printed_row num_sdma_xgmi_engines h = refl
printed_row num_sdma_queues_per_engine h = refl
printed_row num_cp_queues h = refl
printed_row max_engine_clk_fcompute h = refl
printed_row local_mem_size h = refl
printed_row fw_version h = refl
printed_row capability h = refl
printed_row debug_prop h = refl
printed_row sdma_fw_version h = cc
printed_row unique_id h = refl
printed_row num_xcc h = refl
printed_row max_engine_clk_ccompute h = refl

pub printed_plain : (f : Field) → plain_chars (printed_name f) ≡ true
unfolding is_space
printed_plain cpu_cores_count = refl
printed_plain simd_count = refl
printed_plain mem_banks_count = refl
printed_plain caches_count = refl
printed_plain io_links_count = refl
printed_plain p2p_links_count = refl
printed_plain cpu_core_id_base = refl
printed_plain simd_id_base = refl
printed_plain max_waves_per_simd = refl
printed_plain lds_size_in_kb = refl
printed_plain gds_size_in_kb = refl
printed_plain num_gws = refl
printed_plain wave_front_size = refl
printed_plain array_count = refl
printed_plain simd_arrays_per_engine = refl
printed_plain cu_per_simd_array = refl
printed_plain simd_per_cu = refl
printed_plain max_slots_scratch_cu = refl
printed_plain gfx_target_version = refl
printed_plain vendor_id = refl
printed_plain device_id = refl
printed_plain location_id = refl
printed_plain domain_id = refl
printed_plain drm_render_minor = refl
printed_plain hive_id = refl
printed_plain num_sdma_engines = refl
printed_plain num_sdma_xgmi_engines = refl
printed_plain num_sdma_queues_per_engine = refl
printed_plain num_cp_queues = refl
printed_plain max_engine_clk_fcompute = refl
printed_plain local_mem_size = refl
printed_plain fw_version = refl
printed_plain capability = refl
printed_plain debug_prop = refl
printed_plain sdma_fw_version = refl
printed_plain unique_id = refl
printed_plain num_xcc = refl
printed_plain max_engine_clk_ccompute = refl

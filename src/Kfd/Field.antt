-- ===== src/Kfd/Field.antt =====
-- `sift_kfd_node_properties_t` of include/rocsift/kfd.h: the properties of a KFD node.
use rocsift_glog_fork.Common.{ℕ, ◌==◌, if◌then◌else◌}

-- The fields of the struct.
pub data Field : Type 0 where
  cpu_cores_count simd_count mem_banks_count caches_count io_links_count p2p_links_count
        cpu_core_id_base simd_id_base max_waves_per_simd lds_size_in_kb gds_size_in_kb num_gws
        wave_front_size array_count simd_arrays_per_engine cu_per_simd_array simd_per_cu
        max_slots_scratch_cu gfx_target_version vendor_id device_id location_id domain_id
        drm_render_minor hive_id num_sdma_engines num_sdma_xgmi_engines num_sdma_queues_per_engine
        num_cp_queues max_engine_clk_fcompute local_mem_size fw_version capability debug_prop
        sdma_fw_version unique_id num_xcc max_engine_clk_ccompute :
      Field

abbrev pub field_number : Field → ℕ
field_number cpu_cores_count = 0
field_number simd_count = 1
field_number mem_banks_count = 2
field_number caches_count = 3
field_number io_links_count = 4
field_number p2p_links_count = 5
field_number cpu_core_id_base = 6
field_number simd_id_base = 7
field_number max_waves_per_simd = 8
field_number lds_size_in_kb = 9
field_number gds_size_in_kb = 10
field_number num_gws = 11
field_number wave_front_size = 12
field_number array_count = 13
field_number simd_arrays_per_engine = 14
field_number cu_per_simd_array = 15
field_number simd_per_cu = 16
field_number max_slots_scratch_cu = 17
field_number gfx_target_version = 18
field_number vendor_id = 19
field_number device_id = 20
field_number location_id = 21
field_number domain_id = 22
field_number drm_render_minor = 23
field_number hive_id = 24
field_number num_sdma_engines = 25
field_number num_sdma_xgmi_engines = 26
field_number num_sdma_queues_per_engine = 27
field_number num_cp_queues = 28
field_number max_engine_clk_fcompute = 29
field_number local_mem_size = 30
field_number fw_version = 31
field_number capability = 32
field_number debug_prop = 33
field_number sdma_fw_version = 34
field_number unique_id = 35
field_number num_xcc = 36
field_number max_engine_clk_ccompute = 37

abbrev pub Properties : Type 0
Properties = Field → ℕ

-- `props.field = value`
abbrev pub set_field : Properties → Field → ℕ → Properties
set_field props f value g = if field_number g == field_number f then value else props g

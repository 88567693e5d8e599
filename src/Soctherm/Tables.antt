-- ===== src/Soctherm/Tables.antt =====
-- hoc-clk/sysmodule/src/soctherm.cpp: the sensors of the two chips. Of a group the fields are kept
-- that say where a register holds what belongs to it; no function reads the others.
use horizon_oc.Prelude.{ℕ, ◌*◌, ◌^◌, ℤ, pos, negsuc, List, [], ◌∷◌, ◌++◌}

pub record TSensorConfig : Type 0 where
  pub tall : ℕ
  pub tiddq_en : ℕ
  pub ten_count : ℕ
  pub pdiv : ℕ
  pub pdiv_ate : ℕ
  pub tsample : ℕ
  pub tsample_ate : ℕ

pub record FuseCorrCoeff : Type 0 where
  pub alpha : ℤ
  pub beta : ℤ

pub record TSensorGroup : Type 0 where
  pub sensor_temp_offset : ℕ
  pub sensor_temp_mask : ℕ
  pub pdiv_mask : ℕ
  pub pllx_hotspot_diff : ℕ
  pub pllx_hotspot_mask : ℕ

pub record TSensor : Type 0 where
  pub base : ℕ
  pub config : TSensorConfig
  pub calib_fuse_offset : ℕ
  pub fuse_corr : FuseCorrCoeff
  pub group : TSensorGroup

pub record TSensorFuse : Type 0 where
  pub fuse_base_cp_mask : ℕ
  pub fuse_base_cp_shift : ℕ
  pub fuse_base_ft_mask : ℕ
  pub fuse_base_ft_shift : ℕ
  pub fuse_shift_ft_mask : ℕ
  pub fuse_shift_ft_shift : ℕ
  pub fuse_spare_realignment : ℕ

abbrev pub tfuse : TSensorFuse
tfuse = record {
  fuse_base_cp_mask = 0x3ff * 2 ^ 11;
  fuse_base_cp_shift = 11;
  fuse_base_ft_mask = 0x7ff * 2 ^ 21;
  fuse_base_ft_shift = 21;
  fuse_shift_ft_mask = 0x1f * 2 ^ 6;
  fuse_shift_ft_shift = 6;
  fuse_spare_realignment = 0;
}

abbrev pub erista_conf : TSensorConfig
erista_conf = record {
  tall = 16300;
  tiddq_en = 1;
  ten_count = 1;
  pdiv = 8;
  pdiv_ate = 8;
  tsample = 120;
  tsample_ate = 480;
}

abbrev pub mariko_conf : TSensorConfig
mariko_conf = record {
  tall = 16300;
  tiddq_en = 1;
  ten_count = 1;
  pdiv = 12;
  pdiv_ate = 6;
  tsample = 240;
  tsample_ate = 480;
}

abbrev pub sensor_temp1 : ℕ
sensor_temp1 = 0x1c8

abbrev pub sensor_temp2 : ℕ
sensor_temp2 = 0x1cc

abbrev pub group_cpu : TSensorGroup
group_cpu = record {
  sensor_temp_offset = sensor_temp1;
  sensor_temp_mask = 0xffff * 2 ^ 16;
  pdiv_mask = 0xf * 2 ^ 12;
  pllx_hotspot_diff = 10;
  pllx_hotspot_mask = 0xff * 2 ^ 16;
}

abbrev pub group_gpu : TSensorGroup
group_gpu = record {
  sensor_temp_offset = sensor_temp1;
  sensor_temp_mask = 0xffff;
  pdiv_mask = 0xf * 2 ^ 8;
  pllx_hotspot_diff = 5;
  pllx_hotspot_mask = 0xff * 2 ^ 8;
}

abbrev pub group_pll : TSensorGroup
group_pll = record {
  sensor_temp_offset = sensor_temp2;
  sensor_temp_mask = 0xffff;
  pdiv_mask = 0xf;
  pllx_hotspot_diff = 0;
  pllx_hotspot_mask = 0;
}

abbrev pub erista_group_mem : TSensorGroup
erista_group_mem = record {
  sensor_temp_offset = sensor_temp2;
  sensor_temp_mask = 0xffff * 2 ^ 16;
  pdiv_mask = 0xf * 2 ^ 4;
  pllx_hotspot_diff = 0;
  pllx_hotspot_mask = 0xff;
}

abbrev pub sensor : ℕ → TSensorConfig → ℕ → ℕ → ℤ → TSensorGroup → TSensor
sensor base config fuse alpha beta group = record {
  base = base;
  config = config;
  calib_fuse_offset = fuse;
  fuse_corr = record { alpha = pos alpha; beta = beta };
  group = group;
}

-- The six sensors that both tables begin with.
abbrev pub common_sensors : TSensorConfig → List TSensor
common_sensors config =
    sensor 0xc0 config 0x198 1085000 (pos 3244200) group_cpu
    ∷ sensor 0xe0 config 0x184 1126200 (negsuc 67499) group_cpu
    ∷ sensor 0x100 config 0x188 1098400 (pos 2251100) group_cpu
    ∷ sensor 0x120 config 0x22c 1108000 (pos 602700) group_cpu
    ∷ sensor 0x180 config 0x254 1074300 (pos 2734900) group_gpu
    ∷ sensor 0x1a0 config 0x260 1039700 (pos 6829100) group_pll
    ∷ []

abbrev pub erista_mem0 : TSensor
erista_mem0 = sensor 0x140 erista_conf 0x258 1069200 (pos 3549900) erista_group_mem

abbrev pub erista_mem1 : TSensor
erista_mem1 = sensor 0x160 erista_conf 0x25c 1173700 (negsuc 6263599) erista_group_mem

abbrev pub erista_t_sensors : List TSensor
erista_t_sensors = common_sensors erista_conf ++ erista_mem0 ∷ erista_mem1 ∷ []

abbrev pub mariko_t_sensors : List TSensor
mariko_t_sensors = common_sensors mariko_conf

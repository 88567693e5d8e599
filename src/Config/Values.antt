-- ===== src/Config/Values.antt =====
-- common/include/hocclk/config.h: the configuration values, in the order of the enumeration, with
-- their defaults and their validity test.
use horizon_oc.Prelude.{ℕ, Bool, true, ◌&&◌, ◌||◌, List, [], ◌∷◌, ltb, leb, ◌==◌, bit_and}

pub data ConfigValue : Type 0 where
  polling_interval_ms temp_log_interval_ms freq_log_interval_ms : ConfigValue
  power_log_interval_ms csv_write_interval_ms uncapped_clocks overwrite_boost_mode : ConfigValue
  erista_max_cpu_clock mariko_max_cpu_clock thermal_throttle : ConfigValue
  thermal_throttle_threshold handheld_tdp handheld_tdp_limit lite_tdp_limit : ConfigValue
  battery_charge_current overwrite_refresh_rate max_display_clock_h dvfs_mode : ConfigValue
  dvfs_offset live_cpu_uv enable_experimental_settings gpu_scheduling : ConfigValue
  gpu_scheduling_method ram_volt_display_mode cpu_governor_minimum_freq : ConfigValue
  display_voltage memory_frequency_measurement_mode cust_rev hp_mode : ConfigValue
  common_emc_mem_volt erista_emc_max_clock erista_emc_max_clock1 : ConfigValue
  erista_emc_max_clock2 mariko_emc_max_clock mariko_emc_vddq_volt emc_dvb_shift : ConfigValue
  t1_trcd t2_trp t3_tras t4_trrd t5_trfc t6_trtw t7_twtr t8_trefi : ConfigValue
  mem_burst_read_latency mem_burst_write_latency erista_cpu_uv erista_cpu_vmin : ConfigValue
  erista_cpu_max_volt erista_cpu_unlock mariko_cpu_uv_low mariko_cpu_uv_high : ConfigValue
  table_conf mariko_cpu_low_vmin mariko_cpu_high_vmin mariko_cpu_max_volt : ConfigValue
  mariko_cpu_max_clock erista_cpu_boost_clock mariko_cpu_boost_clock erista_gpu_uv : ConfigValue
  erista_gpu_vmin mariko_gpu_uv mariko_gpu_vmin mariko_gpu_vmax : ConfigValue
  common_gpu_volt_offset gpu_speedo g_volt_76800 g_volt_153600 g_volt_230400 : ConfigValue
  g_volt_307200 g_volt_384000 g_volt_460800 g_volt_537600 g_volt_614400 : ConfigValue
  g_volt_691200 g_volt_768000 g_volt_844800 g_volt_921600 g_volt_998400 : ConfigValue
  g_volt_1075200 g_volt_1152000 g_volt_1228800 g_volt_1267200 g_volt_1305600 : ConfigValue
  g_volt_1344000 g_volt_1382400 g_volt_1420800 g_volt_1459200 g_volt_1497600 : ConfigValue
  g_volt_1536000 g_volt_e_76800 g_volt_e_115200 g_volt_e_153600 g_volt_e_192000 : ConfigValue
  g_volt_e_230400 g_volt_e_268800 g_volt_e_307200 g_volt_e_345600 g_volt_e_384000 : ConfigValue
  g_volt_e_422400 g_volt_e_460800 g_volt_e_499200 g_volt_e_537600 g_volt_e_576000 : ConfigValue
  g_volt_e_614400 g_volt_e_652800 g_volt_e_691200 g_volt_e_729600 g_volt_e_768000 : ConfigValue
  g_volt_e_806400 g_volt_e_844800 g_volt_e_883200 g_volt_e_921600 g_volt_e_960000 : ConfigValue
  g_volt_e_998400 g_volt_e_1036800 g_volt_e_1075200 t6_trtw_fine_tune : ConfigValue
  t7_twtr_fine_tune kip_crc32 is_first_load : ConfigValue

-- `for (kval = 0; kval < HocClkConfigValue_EnumMax; kval++)` goes through this list.
unfoldable pub all_values : List ConfigValue
all_values =
    polling_interval_ms ∷ temp_log_interval_ms ∷ freq_log_interval_ms ∷ power_log_interval_ms
    ∷ csv_write_interval_ms ∷ uncapped_clocks ∷ overwrite_boost_mode ∷ erista_max_cpu_clock
    ∷ mariko_max_cpu_clock ∷ thermal_throttle ∷ thermal_throttle_threshold ∷ handheld_tdp
    ∷ handheld_tdp_limit ∷ lite_tdp_limit ∷ battery_charge_current ∷ overwrite_refresh_rate
    ∷ max_display_clock_h ∷ dvfs_mode ∷ dvfs_offset ∷ live_cpu_uv ∷ enable_experimental_settings
    ∷ gpu_scheduling ∷ gpu_scheduling_method ∷ ram_volt_display_mode ∷ cpu_governor_minimum_freq
    ∷ display_voltage ∷ memory_frequency_measurement_mode ∷ cust_rev ∷ hp_mode ∷ common_emc_mem_volt
    ∷ erista_emc_max_clock ∷ erista_emc_max_clock1 ∷ erista_emc_max_clock2 ∷ mariko_emc_max_clock
    ∷ mariko_emc_vddq_volt ∷ emc_dvb_shift ∷ t1_trcd ∷ t2_trp ∷ t3_tras ∷ t4_trrd ∷ t5_trfc
    ∷ t6_trtw ∷ t7_twtr ∷ t8_trefi ∷ mem_burst_read_latency ∷ mem_burst_write_latency
    ∷ erista_cpu_uv ∷ erista_cpu_vmin ∷ erista_cpu_max_volt ∷ erista_cpu_unlock ∷ mariko_cpu_uv_low
    ∷ mariko_cpu_uv_high ∷ table_conf ∷ mariko_cpu_low_vmin ∷ mariko_cpu_high_vmin
    ∷ mariko_cpu_max_volt ∷ mariko_cpu_max_clock ∷ erista_cpu_boost_clock ∷ mariko_cpu_boost_clock
    ∷ erista_gpu_uv ∷ erista_gpu_vmin ∷ mariko_gpu_uv ∷ mariko_gpu_vmin ∷ mariko_gpu_vmax
    ∷ common_gpu_volt_offset ∷ gpu_speedo ∷ g_volt_76800 ∷ g_volt_153600 ∷ g_volt_230400
    ∷ g_volt_307200 ∷ g_volt_384000 ∷ g_volt_460800 ∷ g_volt_537600 ∷ g_volt_614400 ∷ g_volt_691200
    ∷ g_volt_768000 ∷ g_volt_844800 ∷ g_volt_921600 ∷ g_volt_998400 ∷ g_volt_1075200
    ∷ g_volt_1152000 ∷ g_volt_1228800 ∷ g_volt_1267200 ∷ g_volt_1305600 ∷ g_volt_1344000
    ∷ g_volt_1382400 ∷ g_volt_1420800 ∷ g_volt_1459200 ∷ g_volt_1497600 ∷ g_volt_1536000
    ∷ g_volt_e_76800 ∷ g_volt_e_115200 ∷ g_volt_e_153600 ∷ g_volt_e_192000 ∷ g_volt_e_230400
    ∷ g_volt_e_268800 ∷ g_volt_e_307200 ∷ g_volt_e_345600 ∷ g_volt_e_384000 ∷ g_volt_e_422400
    ∷ g_volt_e_460800 ∷ g_volt_e_499200 ∷ g_volt_e_537600 ∷ g_volt_e_576000 ∷ g_volt_e_614400
    ∷ g_volt_e_652800 ∷ g_volt_e_691200 ∷ g_volt_e_729600 ∷ g_volt_e_768000 ∷ g_volt_e_806400
    ∷ g_volt_e_844800 ∷ g_volt_e_883200 ∷ g_volt_e_921600 ∷ g_volt_e_960000 ∷ g_volt_e_998400
    ∷ g_volt_e_1036800 ∷ g_volt_e_1075200 ∷ t6_trtw_fine_tune ∷ t7_twtr_fine_tune ∷ kip_crc32
    ∷ is_first_load ∷ []

unfoldable pub default_config_value : ConfigValue → ℕ
default_config_value polling_interval_ms = 300
default_config_value erista_max_cpu_clock = 1785
default_config_value mariko_max_cpu_clock = 1963
default_config_value thermal_throttle = 1
default_config_value handheld_tdp = 1
default_config_value is_first_load = 1
default_config_value dvfs_mode = 1
default_config_value thermal_throttle_threshold = 70
default_config_value handheld_tdp_limit = 9600
default_config_value lite_tdp_limit = 6400
default_config_value cpu_governor_minimum_freq = 612000000
default_config_value max_display_clock_h = 60
default_config_value display_voltage = 1200
default_config_value _ = 0

unfoldable pub is_flag : ℕ → Bool
is_flag input = bit_and input 1 == input

-- The last clause stands for the long list of labels before `return true`; the `default` label of
-- the switch is no value of the enumeration.
unfoldable pub valid_config_value : ConfigValue → ℕ → Bool
unfolding is_flag
valid_config_value erista_max_cpu_clock input = ltb 0 input
valid_config_value mariko_max_cpu_clock input = ltb 0 input
valid_config_value thermal_throttle_threshold input = ltb 0 input
valid_config_value handheld_tdp_limit input = ltb 0 input
valid_config_value lite_tdp_limit input = ltb 0 input
valid_config_value polling_interval_ms input = ltb 0 input
valid_config_value max_display_clock_h input = ltb 0 input
valid_config_value temp_log_interval_ms input = is_flag input
valid_config_value freq_log_interval_ms input = is_flag input
valid_config_value power_log_interval_ms input = is_flag input
valid_config_value csv_write_interval_ms input = is_flag input
valid_config_value uncapped_clocks input = is_flag input
valid_config_value overwrite_boost_mode input = is_flag input
valid_config_value thermal_throttle input = is_flag input
valid_config_value handheld_tdp input = is_flag input
valid_config_value overwrite_refresh_rate input = is_flag input
valid_config_value is_first_load input = is_flag input
valid_config_value enable_experimental_settings input = is_flag input
valid_config_value live_cpu_uv input = is_flag input
valid_config_value gpu_scheduling_method input = is_flag input
valid_config_value battery_charge_current input = (leb 1024 input && leb input 3072) || input == 0
valid_config_value display_voltage input = leb 900 input && leb input 1325
valid_config_value _ input = true

-- The number of each enumerator.
abbrev pub value_rank : ConfigValue → ℕ
value_rank polling_interval_ms = 0
value_rank temp_log_interval_ms = 1
value_rank freq_log_interval_ms = 2
value_rank power_log_interval_ms = 3
value_rank csv_write_interval_ms = 4
value_rank uncapped_clocks = 5
value_rank overwrite_boost_mode = 6
value_rank erista_max_cpu_clock = 7
value_rank mariko_max_cpu_clock = 8
value_rank thermal_throttle = 9
value_rank thermal_throttle_threshold = 10
value_rank handheld_tdp = 11
value_rank handheld_tdp_limit = 12
value_rank lite_tdp_limit = 13
value_rank battery_charge_current = 14
value_rank overwrite_refresh_rate = 15
value_rank max_display_clock_h = 16
value_rank dvfs_mode = 17
value_rank dvfs_offset = 18
value_rank live_cpu_uv = 19
value_rank enable_experimental_settings = 20
value_rank gpu_scheduling = 21
value_rank gpu_scheduling_method = 22
value_rank ram_volt_display_mode = 23
value_rank cpu_governor_minimum_freq = 24
value_rank display_voltage = 25
value_rank memory_frequency_measurement_mode = 26
value_rank cust_rev = 27
value_rank hp_mode = 28
value_rank common_emc_mem_volt = 29
value_rank erista_emc_max_clock = 30
value_rank erista_emc_max_clock1 = 31
value_rank erista_emc_max_clock2 = 32
value_rank mariko_emc_max_clock = 33
value_rank mariko_emc_vddq_volt = 34
value_rank emc_dvb_shift = 35
value_rank t1_trcd = 36
value_rank t2_trp = 37
value_rank t3_tras = 38
value_rank t4_trrd = 39
value_rank t5_trfc = 40
value_rank t6_trtw = 41
value_rank t7_twtr = 42
value_rank t8_trefi = 43
value_rank mem_burst_read_latency = 44
value_rank mem_burst_write_latency = 45
value_rank erista_cpu_uv = 46
value_rank erista_cpu_vmin = 47
value_rank erista_cpu_max_volt = 48
value_rank erista_cpu_unlock = 49
value_rank mariko_cpu_uv_low = 50
value_rank mariko_cpu_uv_high = 51
value_rank table_conf = 52
value_rank mariko_cpu_low_vmin = 53
value_rank mariko_cpu_high_vmin = 54
value_rank mariko_cpu_max_volt = 55
value_rank mariko_cpu_max_clock = 56
value_rank erista_cpu_boost_clock = 57
value_rank mariko_cpu_boost_clock = 58
value_rank erista_gpu_uv = 59
value_rank erista_gpu_vmin = 60
value_rank mariko_gpu_uv = 61
value_rank mariko_gpu_vmin = 62
value_rank mariko_gpu_vmax = 63
value_rank common_gpu_volt_offset = 64
value_rank gpu_speedo = 65
value_rank g_volt_76800 = 66
value_rank g_volt_153600 = 67
value_rank g_volt_230400 = 68
value_rank g_volt_307200 = 69
value_rank g_volt_384000 = 70
value_rank g_volt_460800 = 71
value_rank g_volt_537600 = 72
value_rank g_volt_614400 = 73
value_rank g_volt_691200 = 74
value_rank g_volt_768000 = 75
value_rank g_volt_844800 = 76
value_rank g_volt_921600 = 77
value_rank g_volt_998400 = 78
value_rank g_volt_1075200 = 79
value_rank g_volt_1152000 = 80
value_rank g_volt_1228800 = 81
value_rank g_volt_1267200 = 82
value_rank g_volt_1305600 = 83
value_rank g_volt_1344000 = 84
value_rank g_volt_1382400 = 85
value_rank g_volt_1420800 = 86
value_rank g_volt_1459200 = 87
value_rank g_volt_1497600 = 88
value_rank g_volt_1536000 = 89
value_rank g_volt_e_76800 = 90
value_rank g_volt_e_115200 = 91
value_rank g_volt_e_153600 = 92
value_rank g_volt_e_192000 = 93
value_rank g_volt_e_230400 = 94
value_rank g_volt_e_268800 = 95
value_rank g_volt_e_307200 = 96
value_rank g_volt_e_345600 = 97
value_rank g_volt_e_384000 = 98
value_rank g_volt_e_422400 = 99
value_rank g_volt_e_460800 = 100
value_rank g_volt_e_499200 = 101
value_rank g_volt_e_537600 = 102
value_rank g_volt_e_576000 = 103
value_rank g_volt_e_614400 = 104
value_rank g_volt_e_652800 = 105
value_rank g_volt_e_691200 = 106
value_rank g_volt_e_729600 = 107
value_rank g_volt_e_768000 = 108
value_rank g_volt_e_806400 = 109
value_rank g_volt_e_844800 = 110
value_rank g_volt_e_883200 = 111
value_rank g_volt_e_921600 = 112
value_rank g_volt_e_960000 = 113
value_rank g_volt_e_998400 = 114
value_rank g_volt_e_1036800 = 115
value_rank g_volt_e_1075200 = 116
value_rank t6_trtw_fine_tune = 117
value_rank t7_twtr_fine_tune = 118
value_rank kip_crc32 = 119
value_rank is_first_load = 120

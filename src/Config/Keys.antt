-- ===== src/Config/Keys.antt =====
-- common/include/hocclk/config.h: the key of each configuration value in config.ini, which is
-- `hocclkFormatConfigValue(val, false)`.
use horizon_oc.Prelude.{String}
use horizon_oc.Config.Values.{
  ConfigValue, polling_interval_ms, temp_log_interval_ms, freq_log_interval_ms,
  power_log_interval_ms, csv_write_interval_ms, uncapped_clocks, overwrite_boost_mode,
  erista_max_cpu_clock, mariko_max_cpu_clock, thermal_throttle, thermal_throttle_threshold,
  handheld_tdp, handheld_tdp_limit, lite_tdp_limit, battery_charge_current, overwrite_refresh_rate,
  max_display_clock_h, dvfs_mode, dvfs_offset, live_cpu_uv, enable_experimental_settings,
  gpu_scheduling, gpu_scheduling_method, ram_volt_display_mode, cpu_governor_minimum_freq,
  display_voltage, memory_frequency_measurement_mode, cust_rev, hp_mode, common_emc_mem_volt,
  erista_emc_max_clock, erista_emc_max_clock1, erista_emc_max_clock2, mariko_emc_max_clock,
  mariko_emc_vddq_volt, emc_dvb_shift, t1_trcd, t2_trp, t3_tras, t4_trrd, t5_trfc, t6_trtw, t7_twtr,
  t8_trefi, mem_burst_read_latency, mem_burst_write_latency, erista_cpu_uv, erista_cpu_vmin,
  erista_cpu_max_volt, erista_cpu_unlock, mariko_cpu_uv_low, mariko_cpu_uv_high, table_conf,
  mariko_cpu_low_vmin, mariko_cpu_high_vmin, mariko_cpu_max_volt, mariko_cpu_max_clock,
  erista_cpu_boost_clock, mariko_cpu_boost_clock, erista_gpu_uv, erista_gpu_vmin, mariko_gpu_uv,
  mariko_gpu_vmin, mariko_gpu_vmax, common_gpu_volt_offset, gpu_speedo, g_volt_76800, g_volt_153600,
  g_volt_230400, g_volt_307200, g_volt_384000, g_volt_460800, g_volt_537600, g_volt_614400,
  g_volt_691200, g_volt_768000, g_volt_844800, g_volt_921600, g_volt_998400, g_volt_1075200,
  g_volt_1152000, g_volt_1228800, g_volt_1267200, g_volt_1305600, g_volt_1344000, g_volt_1382400,
  g_volt_1420800, g_volt_1459200, g_volt_1497600, g_volt_1536000, g_volt_e_76800, g_volt_e_115200,
  g_volt_e_153600, g_volt_e_192000, g_volt_e_230400, g_volt_e_268800, g_volt_e_307200,
  g_volt_e_345600, g_volt_e_384000, g_volt_e_422400, g_volt_e_460800, g_volt_e_499200,
  g_volt_e_537600, g_volt_e_576000, g_volt_e_614400, g_volt_e_652800, g_volt_e_691200,
  g_volt_e_729600, g_volt_e_768000, g_volt_e_806400, g_volt_e_844800, g_volt_e_883200,
  g_volt_e_921600, g_volt_e_960000, g_volt_e_998400, g_volt_e_1036800, g_volt_e_1075200,
  t6_trtw_fine_tune, t7_twtr_fine_tune, kip_crc32, is_first_load,
}

unfoldable pub format_config_value : ConfigValue → String
format_config_value polling_interval_ms = "poll_interval_ms"
format_config_value temp_log_interval_ms = "temp_log_interval_ms"
format_config_value freq_log_interval_ms = "freq_log_interval_ms"
format_config_value power_log_interval_ms = "power_log_interval_ms"
format_config_value csv_write_interval_ms = "csv_write_interval_ms"
format_config_value uncapped_clocks = "uncapped_clocks"
format_config_value overwrite_boost_mode = "ow_boost"
format_config_value erista_max_cpu_clock = "cpu_max_e"
format_config_value mariko_max_cpu_clock = "cpu_max_m"
format_config_value thermal_throttle = "thermal_throttle"
format_config_value thermal_throttle_threshold = "thermal_throttle_threshold"
format_config_value handheld_tdp = "handheld_tdp"
format_config_value handheld_tdp_limit = "tdp_limit"
format_config_value lite_tdp_limit = "tdp_limit_l"
format_config_value battery_charge_current = "bat_charge_current"
format_config_value overwrite_refresh_rate = "drr_changing"
format_config_value max_display_clock_h = "drr_max_clock"
format_config_value dvfs_mode = "dvfs_mode"
format_config_value dvfs_offset = "dvfs_offset"
format_config_value live_cpu_uv = "live_cpu_uv"
format_config_value enable_experimental_settings = "enable_experimental_settings"
format_config_value gpu_scheduling = "gpu_scheduling"
format_config_value gpu_scheduling_method = "gpu_sched_method"
format_config_value ram_volt_display_mode = "ram_volt_usage_display_mode"
format_config_value cpu_governor_minimum_freq = "cpu_gov_min_freq"
format_config_value display_voltage = "display_voltage"
format_config_value memory_frequency_measurement_mode = "mem_freq_measurement_mode"
format_config_value cust_rev = "kip_cust_rev"
format_config_value hp_mode = "kip_hp_mode"
format_config_value common_emc_mem_volt = "common_emc_mem_volt"
format_config_value erista_emc_max_clock = "erista_emc_max_clock"
format_config_value erista_emc_max_clock1 = "erista_emc_max_clock1"
format_config_value erista_emc_max_clock2 = "erista_emc_max_clock2"
format_config_value mariko_emc_max_clock = "mariko_emc_max_clock"
format_config_value mariko_emc_vddq_volt = "mariko_emc_vddq_volt"
format_config_value emc_dvb_shift = "emc_dvb_shift"
format_config_value t1_trcd = "t1_trcd"
format_config_value t2_trp = "t2_trp"
format_config_value t3_tras = "t3_tras"
format_config_value t4_trrd = "t4_trrd"
format_config_value t5_trfc = "t5_trfc"
format_config_value t6_trtw = "t6_trtw"
format_config_value t7_twtr = "t7_twtr"
format_config_value t8_trefi = "t8_trefi"
format_config_value mem_burst_read_latency = "mem_burst_read_latency"
format_config_value mem_burst_write_latency = "mem_burst_write_latency"
format_config_value erista_cpu_uv = "erista_cpu_uv"
format_config_value erista_cpu_vmin = "erista_cpu_vmin"
format_config_value erista_cpu_max_volt = "erista_cpu_max_volt"
format_config_value erista_cpu_unlock = "erista_cpu_unlock"
format_config_value mariko_cpu_uv_low = "mariko_cpu_uv_low"
format_config_value mariko_cpu_uv_high = "mariko_cpu_uv_high"
format_config_value table_conf = "kip_table_conf"
format_config_value mariko_cpu_low_vmin = "mariko_cpu_low_vmin"
format_config_value mariko_cpu_high_vmin = "mariko_cpu_high_vmin"
format_config_value mariko_cpu_max_volt = "mariko_cpu_max_volt"
format_config_value mariko_cpu_max_clock = "mariko_cpu_max_clock"
format_config_value erista_cpu_boost_clock = "erista_cpu_boost_clock"
format_config_value mariko_cpu_boost_clock = "mariko_cpu_boost_clock"
format_config_value erista_gpu_uv = "erista_gpu_uv"
format_config_value erista_gpu_vmin = "erista_gpu_vmin"
format_config_value mariko_gpu_uv = "mariko_gpu_uv"
format_config_value mariko_gpu_vmin = "mariko_gpu_vmin"
format_config_value mariko_gpu_vmax = "mariko_gpu_vmax"
format_config_value common_gpu_volt_offset = "common_gpu_volt_offset"
format_config_value gpu_speedo = "gpu_speedo"
format_config_value g_volt_76800 = "g_volt_76800"
format_config_value g_volt_153600 = "g_volt_153600"
format_config_value g_volt_230400 = "g_volt_230400"
format_config_value g_volt_307200 = "g_volt_307200"
format_config_value g_volt_384000 = "g_volt_384000"
format_config_value g_volt_460800 = "g_volt_460800"
format_config_value g_volt_537600 = "g_volt_537600"
format_config_value g_volt_614400 = "g_volt_614400"
format_config_value g_volt_691200 = "g_volt_691200"
format_config_value g_volt_768000 = "g_volt_768000"
format_config_value g_volt_844800 = "g_volt_844800"
format_config_value g_volt_921600 = "g_volt_921600"
format_config_value g_volt_998400 = "g_volt_998400"
format_config_value g_volt_1075200 = "g_volt_1075200"
format_config_value g_volt_1152000 = "g_volt_1152000"
format_config_value g_volt_1228800 = "g_volt_1228800"
format_config_value g_volt_1267200 = "g_volt_1267200"
format_config_value g_volt_1305600 = "g_volt_1305600"
format_config_value g_volt_1344000 = "g_volt_1344000"
format_config_value g_volt_1382400 = "g_volt_1382400"
format_config_value g_volt_1420800 = "g_volt_1420800"
format_config_value g_volt_1459200 = "g_volt_1459200"
format_config_value g_volt_1497600 = "g_volt_1497600"
format_config_value g_volt_1536000 = "g_volt_1536000"
format_config_value g_volt_e_76800 = "g_volt_e_76800"
format_config_value g_volt_e_115200 = "g_volt_e_115200"
format_config_value g_volt_e_153600 = "g_volt_e_153600"
format_config_value g_volt_e_192000 = "g_volt_e_192000"
format_config_value g_volt_e_230400 = "g_volt_e_230400"
format_config_value g_volt_e_268800 = "g_volt_e_268800"
format_config_value g_volt_e_307200 = "g_volt_e_307200"
format_config_value g_volt_e_345600 = "g_volt_e_345600"
format_config_value g_volt_e_384000 = "g_volt_e_384000"
format_config_value g_volt_e_422400 = "g_volt_e_422400"
format_config_value g_volt_e_460800 = "g_volt_e_460800"
format_config_value g_volt_e_499200 = "g_volt_e_499200"
format_config_value g_volt_e_537600 = "g_volt_e_537600"
format_config_value g_volt_e_576000 = "g_volt_e_576000"
format_config_value g_volt_e_614400 = "g_volt_e_614400"
format_config_value g_volt_e_652800 = "g_volt_e_652800"
format_config_value g_volt_e_691200 = "g_volt_e_691200"
format_config_value g_volt_e_729600 = "g_volt_e_729600"
format_config_value g_volt_e_768000 = "g_volt_e_768000"
format_config_value g_volt_e_806400 = "g_volt_e_806400"
format_config_value g_volt_e_844800 = "g_volt_e_844800"
format_config_value g_volt_e_883200 = "g_volt_e_883200"
format_config_value g_volt_e_921600 = "g_volt_e_921600"
format_config_value g_volt_e_960000 = "g_volt_e_960000"
format_config_value g_volt_e_998400 = "g_volt_e_998400"
format_config_value g_volt_e_1036800 = "g_volt_e_1036800"
format_config_value g_volt_e_1075200 = "g_volt_e_1075200"
format_config_value t6_trtw_fine_tune = "t6_tRTW_fine_fune"
format_config_value t7_twtr_fine_tune = "t7_tWTR_fine_tune"
format_config_value kip_crc32 = "crc32"
format_config_value is_first_load = "is_first_load"

-- ===== src/ClockManager/State.antt =====
-- The state of hoc-clk/sysmodule/src/clock_manager.cpp and the board that it drives. The board's
-- functions that change the hardware are commands, kept newest first; what the hardware answers is
-- a parameter, a function of the commands given so far.
use horizon_oc.Prelude.{ℕ, Bool, Option, List, ◌∷◌, ℤ, get_elem?}
use horizon_oc.Board.Types.{
  SocType, ConsoleType, Profile, Module, PerModule, ThermalSensor, PowerSensor, PartLoad, Voltage,
}
use horizon_oc.Config.Values.{ConfigValue}
use horizon_oc.Config.Store.{Config}

-- Calls of `board::` and of the I2C and sleep functions that have an effect outside the process.
pub data Cmd : Type 0 where
  set_hz : Module → ℕ → Cmd
  reset_to_stock reset_to_stock_cpu reset_to_stock_gpu : Cmd
  reset_to_stock_mem reset_to_stock_display : Cmd
  set_dfll_tunings : ℕ → ℕ → ℕ → Cmd
  pcv_hijack_gpu_volts : ℕ → Cmd
  set_gpu_mv_out set_display_mv_out set_fast_charge_current_limit : ℕ → Cmd
  set_display_refresh_docked_state : Bool → Cmd
  write_context_to_csv : Cmd
  sleep_thread : ℕ → Cmd
  write_kip : (ConfigValue → ℕ) → Cmd  -- `cust_write_table`

-- What the hardware and the system services answer.
pub record Hw : Type 0 where
  pub soc_type : SocType
  pub console_type : ConsoleType
  pub gpu_speedo_bracket : ℕ
  pub get_freq_list : Module → List ℕ  -- with the count of entries
  pub get_hz : List Cmd → Module → ℕ
  pub get_real_hz : List Cmd → Module → ℕ
  pub get_power_mw : List Cmd → PowerSensor → ℤ
  pub get_temperature_milli : List Cmd → ThermalSensor → ℕ
  pub tmp451_temp_soc : List Cmd → ℤ
  pub get_part_load : List Cmd → PartLoad → ℕ
  pub get_voltage : List Cmd → Voltage → ℕ
  pub gpu_mv_out : List Cmd → ℕ
  pub performance_configuration : List Cmd → Option ℕ  -- `none`: the service fails
  pub current_application_id : List Cmd → ℕ
  pub get_profile : List Cmd → Profile
  pub system_ns : List Cmd → ℕ
  pub salty_nx_fps : List Cmd → ℕ  -- a u8
  pub salty_nx_resolution_height : List Cmd → ℕ
  pub is_application_out_of_focus : List Cmd → Option Bool

-- `FreqTable`: an array of HOCCLK_FREQ_LIST_MAX words, of which `count` are in use.
pub record FreqTable : Type 0 where
  pub count : ℕ
  pub list : List ℕ

-- `HocClkContext`, without the fields that are written once at start and only reported.
pub record Context : Type 0 where
  pub application_id : ℕ
  pub profile : Profile
  pub freqs : PerModule ℕ
  pub real_freqs : PerModule ℕ
  pub override_freqs : PerModule ℕ
  pub temps : ThermalSensor → ℕ
  pub power : PowerSensor → ℤ
  pub part_load : PartLoad → ℕ
  pub voltages : Voltage → ℕ
  pub is_salty_nx_installed : Bool
  pub fps : ℕ
  pub resolution_height : ℕ

-- The globals of governor.cpp that `SetClocks` and the governor threads share.
pub record GovernorFlags : Type 0 where
  pub is_cpu_governor_enabled : Bool
  pub is_gpu_governor_enabled : Bool
  pub is_vrr_enabled : Bool
  pub last_cpu_governor_state : Bool
  pub last_gpu_governor_state : Bool
  pub last_vrr_governor_state : Bool

-- The globals of the process.
pub record Sys : Type 0 where
  pub config : Config
  pub context : Context
  pub tables : PerModule FreqTable
  pub flags : GovernorFlags
  pub running : Bool
  pub kip_available : Bool
  pub last_temp_log_ns : ℕ
  pub last_freq_log_ns : ℕ
  pub last_power_log_ns : ℕ
  pub last_csv_write_ns : ℕ
  pub misc_tick : ℕ  -- the static of HandleMiscFeatures
  pub log : List Cmd

abbrev pub issue : Sys → Cmd → Sys
issue s c = record s { log = c ∷ s.log }

abbrev pub config_value : Sys → ConfigValue → ℕ
config_value s k = s.config.values k

-- `gFreqTable[module].list[i]`; `none` is a read outside the array.
abbrev pub read : FreqTable → ℕ → Option ℕ
read t i = get_elem? t.list i

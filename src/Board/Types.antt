-- ===== src/Board/Types.antt =====
-- common/include/hocclk/board.h: the enumerations of the board, and arrays indexed by a module.
use horizon_oc.Prelude.{ℕ, Bool, List, [], ◌∷◌, ◌==◌}

pub data SocType : Type 0 where
  erista mariko : SocType

pub data ConsoleType : Type 0 where
  icosa copper hoag iowa calcio aula : ConsoleType

pub data Profile : Type 0 where
  handheld handheld_charging handheld_charging_usb handheld_charging_official docked : Profile

pub data Module : Type 0 where
  cpu gpu mem governor display : Module

-- The numbers of the enumerators, by which the code compares them.
abbrev pub profile_rank : Profile → ℕ
profile_rank handheld = 0
profile_rank handheld_charging = 1
profile_rank handheld_charging_usb = 2
profile_rank handheld_charging_official = 3
profile_rank docked = 4

abbrev pub module_rank : Module → ℕ
module_rank cpu = 0
module_rank gpu = 1
module_rank mem = 2
module_rank governor = 3
module_rank display = 4

abbrev pub profile_eq : Profile → Profile → Bool
profile_eq p q = profile_rank p == profile_rank q

abbrev pub module_eq : Module → Module → Bool
module_eq m n = module_rank m == module_rank n

-- The loops over all enumerators go through these lists.
abbrev pub all_profiles : List Profile
all_profiles =
    handheld ∷ handheld_charging ∷ handheld_charging_usb ∷ handheld_charging_official ∷ docked ∷ []

abbrev pub all_modules : List Module
all_modules = cpu ∷ gpu ∷ mem ∷ governor ∷ display ∷ []

-- An array `T x[HocClkModule_EnumMax]`.
pub record PerModule {ℓ} (A : Type ℓ) : Type ℓ where
  pub on_cpu : A
  pub on_gpu : A
  pub on_mem : A
  pub on_governor : A
  pub on_display : A

module _ {ℓ} {A : Type ℓ} where
  abbrev pub at : PerModule A → Module → A
  at t cpu = t.on_cpu
  at t gpu = t.on_gpu
  at t mem = t.on_mem
  at t governor = t.on_governor
  at t display = t.on_display

  abbrev pub put : PerModule A → Module → A → PerModule A
  put t cpu v = record t { on_cpu = v }
  put t gpu v = record t { on_gpu = v }
  put t mem v = record t { on_mem = v }
  put t governor v = record t { on_governor = v }
  put t display v = record t { on_display = v }

  abbrev pub fill : A → PerModule A
  fill v = record { on_cpu = v; on_gpu = v; on_mem = v; on_governor = v; on_display = v }

pub data ThermalSensor : Type 0 where
  soc_temp pcb_temp skin_temp battery_temp pmic_temp : ThermalSensor
  cpu_temp gpu_temp mem_temp pllx_temp : ThermalSensor

pub data PowerSensor : Type 0 where
  now avg : PowerSensor

pub data PartLoad : Type 0 where
  emc_load emc_cpu_load gpu_load cpu_max_load bat_load fan_load : PartLoad

pub data Voltage : Type 0 where
  soc_volt emc_vdd2_volt cpu_volt gpu_volt emc_vddq_volt display_volt battery_volt : Voltage

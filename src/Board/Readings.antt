-- ===== src/Board/Readings.antt =====
-- What the board reads: the profile (hoc-clk/sysmodule/src/board/board_profile.cpp), temperatures and
-- power (board_sensor.cpp), and voltages (board_volt.cpp). The services are parameters; a result is
-- 0 on success, and `none` is an abort.
pub mod Sensed
use horizon_oc.Prelude.{
  truthy, ◌==◌, if◌then◌else◌, pos_part, ℕ, ℤ, pos, Bool, true, false, Option, none, some,
}
use horizon_oc.Board.Types.{
  SocType, mariko, erista, Profile, docked, handheld, handheld_charging_official,
  handheld_charging_usb, ThermalSensor, soc_temp, pcb_temp, skin_temp, battery_temp, pmic_temp,
  cpu_temp, gpu_temp, mem_temp, pllx_temp, PowerSensor, now, avg, Voltage, soc_volt, emc_vdd2_volt,
  cpu_volt, gpu_volt, emc_vddq_volt, display_volt, battery_volt,
}
use horizon_oc.Soctherm.Sensors.{Soctherm, TSensorTemps, read_sensors}

-- `PsmChargerType_EnoughPower` and `PsmChargerType_LowPower`.
pub record ChargerTypes : Type 0 where
  pub enough_power : ℕ
  pub low_power : ℕ

-- The arguments are the answers of `apmExtGetPerformanceMode` and `psmGetChargerType`.
unfoldable pub board_get_profile : ChargerTypes → ℕ × ℕ → ℕ × ℕ → Option Profile
board_get_profile types (mode_rc, mode) (charger_rc, charger) =
    if truthy mode_rc
    then none
    else if truthy mode
    then some docked
    else if truthy charger_rc
    then none
    else if charger == types.enough_power
    then some handheld_charging_official
    else if charger == types.low_power
    then some handheld_charging_usb
    else some handheld

-- The sensors outside the chip.
pub record Thermometers : Type 0 where
  pub has_tc : Bool
  pub tmp451_temp_soc : ℤ
  pub tmp451_temp_pcb : ℤ
  pub skin_temperature : ℕ × ℤ
  pub battery_temperature : ℤ

abbrev pub is_erista : SocType → Bool
is_erista erista = true
is_erista mariko = false

abbrev mem_temp_of : SocType → TSensorTemps → ℤ
mem_temp_of mariko temps = temps.pllx
mem_temp_of erista temps = temps.mem

-- The `switch`, with the temperatures of the chip.
abbrev pub millis_of : SocType → Thermometers → TSensorTemps → ThermalSensor → Option ℤ
millis_of soc t temps soc_temp = some t.tmp451_temp_soc
millis_of soc t temps pcb_temp = some t.tmp451_temp_pcb
millis_of soc t temps skin_temp =
    if t.has_tc
    then (let (rc, millis) = t.skin_temperature in if truthy rc then none else some millis)
    else some (pos 0)
millis_of soc t temps battery_temp = some t.battery_temperature
millis_of soc t temps pmic_temp = some (pos 50000)
millis_of soc t temps cpu_temp = some temps.cpu
millis_of soc t temps gpu_temp = some temps.gpu
millis_of soc t temps mem_temp = some (mem_temp_of soc temps)
millis_of soc t temps pllx_temp = some temps.pllx

abbrev pub no_temps : TSensorTemps
no_temps = record { cpu = pos 0; gpu = pos 0; mem = pos 0; pllx = pos 0 }

-- The sensors of the chip are read for every sensor.
unfoldable pub board_get_temperature_milli :
    SocType → Thermometers → ThermalSensor → Soctherm → Option (ℕ × Soctherm)
unfolding read_sensors
board_get_temperature_milli soc t sensor s =
    let (read, temps) = read_sensors (is_erista soc) s no_temps in
    elim (millis_of soc t temps sensor) [ none ↦ none | some millis ↦ some (pos_part millis, read) ]

-- The arguments are the answers of the gauge.
abbrev pub board_get_power_mw : ℤ → ℤ → PowerSensor → ℤ
board_get_power_mw power_now power_avg now = power_now
board_get_power_mw power_now power_avg avg = power_avg

-- `PcvPowerDomainId_...`.
pub data PowerDomain : Type 0 where
  max77620_sd0 max77620_sd1 max77620_ldo0 : PowerDomain
  max77621_cpu max77621_gpu max77812_cpu max77812_gpu max77812_dram : PowerDomain

-- `none` is a read that fails, which leaves the output 0.
pub record Regulators : Type 0 where
  pub open_session : PowerDomain → ℕ
  pub voltage_of : PowerDomain → Option ℕ

abbrev read_domain : Regulators → PowerDomain → Option ℕ
read_domain r d =
    if truthy (r.open_session d)
    then none
    else elim (r.voltage_of d) [ none ↦ some 0 | some out ↦ some out ]

unfoldable pub board_get_voltage : Regulators → ℕ → SocType → Voltage → Option ℕ
board_get_voltage r battery soc soc_volt = read_domain r max77620_sd0
board_get_voltage r battery soc emc_vdd2_volt = read_domain r max77620_sd1
board_get_voltage r battery mariko cpu_volt = read_domain r max77621_cpu
board_get_voltage r battery erista cpu_volt = read_domain r max77812_cpu
board_get_voltage r battery mariko gpu_volt = read_domain r max77621_gpu
board_get_voltage r battery erista gpu_volt = read_domain r max77812_gpu
board_get_voltage r battery mariko emc_vddq_volt = read_domain r max77812_dram
board_get_voltage r battery erista emc_vddq_volt = read_domain r max77620_sd1
board_get_voltage r battery soc display_volt = read_domain r max77620_ldo0
board_get_voltage r battery soc battery_volt = some battery

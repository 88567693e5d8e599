-- ===== src/Board/Readings/Sensed.antt =====
-- The temperatures of the chip as the board reports them.
use horizon_oc.Prelude.{◌≡◌, refl, pos_part, true, false, some}
use horizon_oc.Board.Types.{SocType, mariko, erista, cpu_temp, gpu_temp, mem_temp, pllx_temp}
use horizon_oc.Board.Readings.{Thermometers, board_get_temperature_milli, no_temps, is_erista}
use horizon_oc.Soctherm.Sensors.{Soctherm, read_sensors, is_disabled_through_sleep}
use horizon_oc.Soctherm.Sensors.Temps.{Reading, Holds, millis, read_sensors-millis}

-- The sensor that stands for the memory.
abbrev pub memory_reading : SocType → Reading → Reading → Reading
memory_reading erista mem pllx = mem
memory_reading mariko mem pllx = pllx

-- While the clock of the sensors runs, GetTemperatureMilli gives the temperatures of the chip that the
-- registers hold, or 0 for one below zero; for the memory of Mariko it gives that of the PLL.
pub board_get_temperature_milli-reading :
    (soc : SocType) (t : Thermometers) (s : Soctherm) (cpu gpu mem pllx : Reading)
    → is_disabled_through_sleep s.car ≡ false
    → Holds s.soctherm cpu gpu mem pllx
    → let after = (read_sensors (is_erista soc) s no_temps).0 in
      (board_get_temperature_milli soc t cpu_temp s ≡ some (pos_part (millis cpu), after))
      × (board_get_temperature_milli soc t gpu_temp s ≡ some (pos_part (millis gpu), after))
      × (board_get_temperature_milli soc t mem_temp s
          ≡ some (pos_part (millis (memory_reading soc mem pllx)), after))
      × (board_get_temperature_milli soc t pllx_temp s ≡ some (pos_part (millis pllx), after))
unfolding board_get_temperature_milli
board_get_temperature_milli-reading erista t s cpu gpu mem pllx runs holds =
    let read = (read_sensors-millis true s no_temps cpu gpu mem pllx runs holds).0 in
    (rw read refl, rw read refl, rw read refl, rw read refl)
board_get_temperature_milli-reading mariko t s cpu gpu mem pllx runs holds =
    let read = (read_sensors-millis false s no_temps cpu gpu mem pllx runs holds).0 in
    (rw read refl, rw read refl, rw read refl, rw read refl)

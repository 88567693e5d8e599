-- ===== src/Tests/Devices.antt =====
-- Examples for the thermal sensors and the devices on the I2C bus.
use horizon_oc.Prelude.{
  ◌==◌, ◌&&◌, if◌then◌else◌, ℕ, suc, ◌+◌, ◌-◌, ◌≤◌, ◌<◌, ◌≡◌, refl, ◌⊎◌, pos, negsuc, true, false,
  some, List, [], ◌∷◌, arith,
}
use horizon_oc.Config.Values.{valid_config_value}
use horizon_oc.Board.Types.{mariko, cpu_temp, gpu_temp, mem_temp, pllx_temp}
use horizon_oc.Board.Readings.{Thermometers, board_get_temperature_milli, no_temps, is_erista}
use horizon_oc.Board.Readings.Sensed.{board_get_temperature_milli-reading}
use horizon_oc.Common.I2c.{I2cBus}
use horizon_oc.Common.I2c.Convert.{Domain, domain, convert_ma_raw, convert_raw_ma}
use horizon_oc.Common.I2c.Charge.{charge_current-near}
use horizon_oc.Common.I2c.Sessions.{I2cLaws}
use horizon_oc.Soctherm.Tables.{sensor_temp1, sensor_temp2}
use horizon_oc.Soctherm.Calibration.{Registers}
use horizon_oc.Soctherm.Sensors.{
  Soctherm, TSensorTemps, is_disabled_through_sleep, is_sensor_enabled, read_sensors, start_sensors,
}
use horizon_oc.Soctherm.Sensors.Starts.{Started, start_sensors-Started}
use horizon_oc.Soctherm.Sensors.Temps.{Reading, read_sensors-millis}

-- A bus with devices that keep what is written.
record Wires : Type 0 where
  open_count : ℕ
  device : ℕ
  asked : ℕ
  cells : ℕ → ℕ → ℕ

abbrev send : List ℕ → Wires → ℕ × Wires
send (reg ∷ val ∷ rest) w =
    (0, record w { cells = λ d r. if (d == w.device) && (r == reg) then val else w.cells d r })
send (reg ∷ []) w = (0, record w { asked = reg })
send [] w = (0, w)

abbrev wires : I2cBus Wires
wires = record {
  open_session = λ dev w. (0, record w { open_count = suc w.open_count; device = dev });
  send_auto = send;
  receive_auto = λ w. (0, w.cells w.device w.asked, w);
  session_close = λ w. record w { open_count = w.open_count - 1 };
}

send-keeps : (bytes : List ℕ) (w : Wires) → (send bytes w).1.open_count ≡ w.open_count
send-keeps [] w = refl
send-keeps (reg ∷ []) w = refl
send-keeps (reg ∷ val ∷ rest) w = refl

wires-laws : I2cLaws Wires wires
wires-laws = record {
  sessions = λ w. w.open_count;
  device_of = λ w. w.device;
  register = λ w. w.cells;
  opened = λ dev w ok. (refl, refl);
  refused = λ dev w failed. ground (arith, failed);
  sent = send-keeps;
  received = λ w. refl;
  closed = λ w. refl;
  open_keeps = λ dev w. refl;
  ask_keeps = λ reg w. refl;
  receive_keeps = λ w. refl;
  close_keeps = λ w. refl;
  written = λ reg val w ok. ground arith;
  answered = λ reg w ok ok'. refl;
}

abbrev no_sessions : Wires
no_sessions = record { open_count = 0; device = 0; asked = 0; cells = λ d r. 0xC5 }

-- The regulator of the display, as the fourth domain.
abbrev display_domain : Domain
display_domain = domain 2 0x23 0x7F 25000 800000 1325000 0

charge_current-near_example :
    (◌≡◌ {A = ℕ} 2048 0)
    ⊎ ((2048 < convert_raw_ma (convert_ma_raw 2048) + 100)
        × (convert_raw_ma (convert_ma_raw 2048) ≤ 2048 + 64))
unfolding valid_config_value
charge_current-near_example = charge_current-near 2048 refl

start_sensors-Started_example :
    Started true
      (λ i. 100 + i)
      (λ a. 0xFFFFFFFF)
      (start_sensors true (λ i. 100 + i) (λ a. 0xFFFFFFFF))
start_sensors-Started_example = start_sensors-Started true (λ i. 100 + i) (λ a. 0xFFFFFFFF)

-- 45.5 degrees, and 3 below zero.
abbrev warm : Reading
warm = record { halves = 91; below_zero = false; small = omega arith }

abbrev cold : Reading
cold = record { halves = 6; below_zero = true; small = omega arith }

abbrev measured : Registers
measured a = if a == sensor_temp1 then 0x2D800301 else if a == sensor_temp2 then 0x03012D80 else 0

abbrev sensors_off : Soctherm
sensors_off = record {
  soctherm = measured;
  car = λ a. if a == 0x18 then 0x4000 else 0;
  calib = λ i. 0;
  is_mariko = false;
}

abbrev zero_temps : TSensorTemps
zero_temps = record { cpu = pos 0; gpu = pos 0; mem = pos 0; pllx = pos 0 }

clock-runs : is_disabled_through_sleep sensors_off.car ≡ false
unfolding is_disabled_through_sleep
clock-runs = refl

read_sensors-millis_example :
    ((read_sensors true sensors_off zero_temps).1
      ≡ record { cpu = pos 45500; gpu = negsuc 2999; mem = negsuc 2999; pllx = pos 45500 })
    × (is_sensor_enabled (read_sensors true sensors_off zero_temps).0.soctherm ≡ true)
read_sensors-millis_example =
    read_sensors-millis true sensors_off zero_temps warm cold cold warm clock-runs
      (record { temp1 = refl; temp2 = refl })

abbrev thermometers : Thermometers
thermometers = record {
  has_tc = false;
  tmp451_temp_soc = pos 40000;
  tmp451_temp_pcb = pos 38000;
  skin_temperature = (0, pos 30000);
  battery_temperature = pos 31000;
}

board_get_temperature_milli-reading_example :
    let after = (read_sensors (is_erista mariko) sensors_off no_temps).0 in
    (board_get_temperature_milli mariko thermometers cpu_temp sensors_off ≡ some (45500, after))
    × (board_get_temperature_milli mariko thermometers gpu_temp sensors_off ≡ some (0, after))
    × (board_get_temperature_milli mariko thermometers mem_temp sensors_off ≡ some (45500, after))
    × (board_get_temperature_milli mariko thermometers pllx_temp sensors_off ≡ some (45500, after))
board_get_temperature_milli-reading_example =
    board_get_temperature_milli-reading mariko thermometers sensors_off warm cold cold warm
      clock-runs (record { temp1 = refl; temp2 = refl })

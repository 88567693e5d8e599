-- ===== src/Common/I2c.antt =====
-- common/src/i2c.cpp: registers of devices on the I2C bus, the voltages of the regulators and the
-- charge current of the battery. The services of the bus are parameters.
pub mod Convert
pub mod Charge
pub mod Sessions
pub mod Voltage
use horizon_oc.Prelude.{
  truthy, u32_max, ◌==◌, ◌||◌, not, if◌then◌else◌, ℕ, zero, suc, bit_and, List, [], ◌∷◌,
}
use horizon_oc.Common.I2c.Convert.{
  Domain, multiplier_to_mv_out, merged, convert_ma_raw, convert_raw_ma,
}

-- The functions of the service, on the state of the bus; a result is 0 on success. What is received
-- is a single number here, the bytes of the buffer.
pub record I2cBus (S : Type 0) : Type 0 where
  pub open_session : ℕ → S → ℕ × S
  pub send_auto : List ℕ → S → ℕ × S
  pub receive_auto : S → ℕ × ℕ × S
  pub session_close : S → S

module _ {S : Type 0} (bus : I2cBus S) where
  unfoldable pub i2c_set_u8 : ℕ → ℕ → ℕ → S → ℕ × S
  i2c_set_u8 dev reg val s =
      let (res, opened) = bus.open_session dev s in
      let (sent, after) = bus.send_auto (reg ∷ val ∷ []) opened in
      if truthy res then (res, opened) else (sent, bus.session_close after)

  -- The second part of the result is `*out`, which a failure leaves as it is. `I2cRead_OutU16` is
  -- the same with a buffer of two bytes.
  unfoldable pub i2c_read_out : ℕ → ℕ → ℕ → S → ℕ × ℕ × S
  i2c_read_out dev reg out s =
      let (res, opened) = bus.open_session dev s in
      let (sent, asked) = bus.send_auto (reg ∷ []) opened in
      let (received, val, after) = bus.receive_auto asked in
      if truthy res
      then (res, out, opened)
      else if truthy sent
      then (sent, out, bus.session_close asked)
      else if truthy received
      then (received, out, bus.session_close after)
      else (0, val, bus.session_close after)

  -- The loop that reads again while the value is that after a reset, with the rounds that are left.
  unfoldable pub read_rounds : Domain → ℕ → ℕ → S → ℕ × S
  unfolding i2c_read_out
  read_rounds d zero val s = (multiplier_to_mv_out d (bit_and val d.volt_mask), s)
  read_rounds d (suc n) val s =
      let (res, got, after) = i2c_read_out d.device d.reg val s in
      let rest = read_rounds d n got after in
      if truthy res
      then (0, after)
      else if not (truthy d.por_val) || not (got == d.por_val)
      then (multiplier_to_mv_out d (bit_and got d.volt_mask), after)
      else rest

  unfoldable pub get_mv_out : Domain → S → ℕ × S
  unfolding read_rounds
  get_mv_out d s = read_rounds d 5 0 s

  unfoldable pub set_mv_out : Domain → ℕ → S → ℕ × S
  unfolding i2c_set_u8 i2c_read_out
  set_mv_out d mvolt s =
      let (res, val, was_read) = i2c_read_out d.device d.reg 0 s in
      let wanted = merged d val mvolt in
      let (set_res, written) = i2c_set_u8 d.device d.reg wanted was_read in
      let (again, new_val, checked) = i2c_read_out d.device d.reg 0 written in
      if truthy res
      then (res, was_read)
      else if truthy set_res
      then (set_res, written)
      else if truthy again
      then (again, checked)
      else if not (new_val == wanted)
      then (u32_max, checked)
      else (0, checked)

  unfoldable pub get_fast_charge_current_limit : ℕ → ℕ → S → ℕ × ℕ × S
  unfolding i2c_read_out
  get_fast_charge_current_limit dev ma s =
      let (res, raw, after) = i2c_read_out dev 2 0 s in
      if truthy res then (res, ma, after) else (0, convert_raw_ma raw, after)

  unfoldable pub set_fast_charge_current_limit : ℕ → ℕ → S → ℕ × S
  unfolding i2c_set_u8
  set_fast_charge_current_limit dev ma s = i2c_set_u8 dev 2 (convert_ma_raw ma) s

-- ===== src/Config/Flags.antt =====
-- The values that `hocclkValidConfigValue` takes for flags.
use Prim.Native.Nat.{digits, bit_and-bitwise}
use horizon_oc.Prelude.{==_iff, ℕ, zero, suc, ◌/◌, ◌≤◌, bit_and, ◌≡◌, refl, true, arith, min}
use horizon_oc.Config.Values.{
  is_flag, valid_config_value, temp_log_interval_ms, freq_log_interval_ms, power_log_interval_ms,
  csv_write_interval_ms,
}
use horizon_oc.Config.Store.{Config}
use horizon_oc.Config.Valid.{Reachable, Reachable-valid}

and_none : (n a : ℕ) → digits (λ b. 0) min n a 0 ≡ 0
and_none zero a = refl
and_none (suc n) zero = refl
and_none (suc n) (suc a) = omega (arith, and_none n (suc a / 2))

and_one : (a : ℕ) → bit_and a 1 ≤ 1
and_one zero = omega (arith, bit_and-bitwise 0 1)
and_one (suc a) = omega (arith, bit_and-bitwise (suc a) 1, and_none a (suc a / 2))

is_flag-le_one : (n : ℕ) → is_flag n ≡ true → n ≤ 1
unfolding is_flag
is_flag-le_one n h = let same = (==_iff (bit_and n 1) n).0 h in omega (arith, and_one n)

-- In every state that the process reaches, the intervals of the four logs, which are named in
-- milliseconds, are 0 or 1: no longer interval can be configured.
pub log_interval-le_one :
    (c : Config)
    → Reachable c
    → (c.values temp_log_interval_ms ≤ 1)
      × (c.values freq_log_interval_ms ≤ 1)
      × (c.values power_log_interval_ms ≤ 1)
      × (c.values csv_write_interval_ms ≤ 1)
unfolding valid_config_value
log_interval-le_one c r =
    let valid = Reachable-valid c r in
    (
      is_flag-le_one _ (valid temp_log_interval_ms),
      is_flag-le_one _ (valid freq_log_interval_ms),
      is_flag-le_one _ (valid power_log_interval_ms),
      is_flag-le_one _ (valid csv_write_interval_ms),
    )

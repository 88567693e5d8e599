-- ===== src/Config/Load/Keys.antt =====
-- The keys of config.ini: each is found again under the value, or the profile and module, whose
-- key it is.
use horizon_oc.Prelude.{◌≡◌, refl, some, ◌∷◌, ◌++◌}
use horizon_oc.Prelude.Text.{codes, text_eq, strip_prefix}
use horizon_oc.Board.Types.{
  Profile, handheld, handheld_charging, handheld_charging_usb, handheld_charging_official, docked,
  Module, cpu,
}
use horizon_oc.Board.Names.{format_profile, format_module}
use horizon_oc.Config.Values.{ConfigValue, all_values, polling_interval_ms}
use horizon_oc.Config.Keys.{format_config_value}
use horizon_oc.Config.Load.{find_value, parse_key}

-- No two configuration values share a key, and every value is in the list that is searched.
pub find_value-key :
    (k : ConfigValue) → find_value (codes (format_config_value k)) all_values ≡ some k
unfolding find_value format_config_value text_eq all_values
find_value-key polling_interval_ms = refl
find_value-key _ = refl

-- The key that is written for a profile and a module names these two.
pub parse_key-key :
    (p : Profile) (m : Module)
    → parse_key (format_profile p ++ b'_' ∷ format_module m) ≡ some (p, m)
unfolding parse_key format_profile format_module strip_prefix text_eq
parse_key-key handheld cpu = refl
parse_key-key handheld _ = refl
parse_key-key handheld_charging cpu = refl
parse_key-key handheld_charging _ = refl
parse_key-key handheld_charging_usb cpu = refl
parse_key-key handheld_charging_usb _ = refl
parse_key-key handheld_charging_official cpu = refl
parse_key-key handheld_charging_official _ = refl
parse_key-key docked cpu = refl
parse_key-key docked _ = refl

-- ===== src/ClockManager/Tick.antt =====
-- `Tick` of clock_manager.cpp, and the loop of main.cpp. What the configuration file holds when
-- `config::Refresh` looks at it is a parameter.
pub mod Total
use horizon_oc.Prelude.{if◌then◌else◌, ◌>>=◌, Bool, true, Option, some}
use horizon_oc.Config.Ini.{IniFile}
use horizon_oc.Config.Load.{refresh}
use horizon_oc.ClockManager.State.{Sys, Hw}
use horizon_oc.ClockManager.Resets.{handle_safety_features, handle_misc_features}
use horizon_oc.ClockManager.Context.{refresh_context, wait_for_next_tick}
use horizon_oc.ClockManager.SetClocks.{set_clocks}
use horizon_oc.Governor.Boost.{is_boost_mode}

-- `RefreshContext() || config::Refresh()`: the file is looked at only if nothing else changed.
unfoldable pub refresh_all : Hw → IniFile → Sys → Sys × Bool
refresh_all hw file s =
    let (a, changed) = refresh_context hw s in
    let (config, reloaded) = refresh file a.config in
    if changed then (a, true) else (record a { config = config }, reloaded)

-- `none` is an abort of the process, or a read outside a frequency table. `RefreshContext` asks
-- for the performance mode once more, and aborts where that fails.
unfoldable pub tick : Hw → IniFile → Sys → Option Sys
unfolding refresh_all
tick hw file s = do
  conf_id ← hw.performance_configuration s.log
  let handled = handle_misc_features (handle_safety_features hw s)
  mode ← hw.performance_configuration handled.log
  let (b, changed) = refresh_all hw file handled
  let set = set_clocks hw (is_boost_mode conf_id) b
  if changed then set else some b

-- One round of `while (clockManager::Running())`.
unfoldable pub main_round : Hw → IniFile → Sys → Option Sys
main_round hw file s = do t ← tick hw file s; some (wait_for_next_tick hw t)

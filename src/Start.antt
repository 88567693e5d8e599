-- ===== src/Start.antt =====
-- `clockManager::Initialize` of hoc-clk/sysmodule/src/clock_manager.cpp, up to the fields of the
-- context that are only reported and the start of the threads.
pub mod Tables
pub mod Loop
use horizon_oc.Prelude.{
  if◌then◌else◌, true, ◌>>=◌, ℕ, Bool, false, Option, some, List, [], ◌∷◌, pos,
}
use horizon_oc.Board.Types.{Module, handheld, all_modules, fill}
use horizon_oc.Config.Store.{set_enabled}
use horizon_oc.ClockManager.Tick.{main_round}
use horizon_oc.Config.Ini.{IniFile, PutSection}
use horizon_oc.ClockManager.State.{Sys, Hw, Context}
use horizon_oc.ClockManager.FreqList.{refresh_freq_table_row}
use horizon_oc.Kip.{KipFile, get_kip_data}

-- `gContext = {}` and the assignments after it.
abbrev pub start_context : Context
start_context = record {
  application_id = 0;
  profile = handheld;
  freqs = fill 0;
  real_freqs = fill 0;
  override_freqs = fill 0;
  temps = λ t. 0;
  power = λ p. pos 0;
  part_load = λ l. 0;
  voltages = λ v. 0;
  is_salty_nx_installed = false;
  fps = 0;
  resolution_height = 0;
}

-- The loop over the modules.
unfoldable pub refresh_rows : Hw → List Module → Sys → Option Sys
refresh_rows hw [] s = some s
refresh_rows hw (m ∷ ms) s = refresh_freq_table_row hw m s >>= refresh_rows hw ms

-- From the reset of `gRunning` on; `salty` is what `GetSaltyNXState` returns.
unfoldable pub after_rows : PutSection → KipFile → ℕ → Bool → IniFile → Sys → IniFile × Sys
after_rows put_section kip speedo salty f s =
    let reset = record s { running = false; last_temp_log_ns = 0; last_csv_write_ns = 0 } in
    let (f', t) = get_kip_data put_section kip speedo f reset in
    (f', record t { context = record t.context { is_salty_nx_installed = salty } })

-- `Initialize`; `none` is a write outside a frequency table.
unfoldable pub initialize_manager :
    Hw → PutSection → KipFile → ℕ → Bool → IniFile → Sys → Option (IniFile × Sys)
unfolding refresh_rows after_rows
initialize_manager hw put_section kip speedo salty f s =
    refresh_rows hw all_modules (record s { context = start_context }) >>= λ t.
    some (after_rows put_section kip speedo salty f t)

-- `main` from `clockManager::Initialize` to its loop.
unfoldable pub start_up : Hw → PutSection → KipFile → ℕ → Bool → IniFile → Sys → Option Sys
unfolding initialize_manager
start_up hw put_section kip speedo salty f s =
    initialize_manager hw put_section kip speedo salty f s >>= λ r.
    some (record r.1 { running = true; config = set_enabled r.1.config true })

-- The loop of `main`, with the file as `config::Refresh` finds it in each of its rounds; where they
-- are used up, the loop is still running.
unfoldable pub main_loop : Hw → List IniFile → Sys → Option Sys
main_loop hw [] s = some s
main_loop hw (file ∷ files) s =
    let rest = main_round hw file s >>= main_loop hw files in if s.running then rest else some s

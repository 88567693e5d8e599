-- ===== src/Start/Loop.antt =====
-- The main loop runs on, from the start and for any number of rounds.
use horizon_oc.Prelude.{ℕ, ◌≡◌, true, some, List, [], ◌∷◌}
use horizon_oc.Config.Ini.{IniFile}
use horizon_oc.ClockManager.State.{Sys, Hw, Cmd}
use horizon_oc.ClockManager.Tick.{main_round}

-- The service for the performance mode never fails.
abbrev pub Answers : Hw → Type 0
Answers hw = (log : List Cmd) → (mode : ℕ) × (hw.performance_configuration log ≡ some mode)

-- A running process goes through one round for each of the files, and runs afterwards.
pub data Rounds (hw : Hw) : List IniFile → Sys → Sys → Type 0 where
  no_round : {s : Sys} → s.running ≡ true → Rounds hw [] s s
  next_round :
      {file : IniFile} {files : List IniFile} {s t u : Sys}
      → s.running ≡ true
      → main_round hw file s ≡ some t
      → Rounds hw files t u
      → Rounds hw (file ∷ files) s u

-- ===== src/Start/Tables.antt =====
-- `Initialize` brings the frequency tables into use.
use horizon_oc.Prelude.{keep, ℕ, length, ◌≤◌, ◌≡◌, some, List}
use horizon_oc.Board.Types.{Module, at}
use horizon_oc.ClockManager.State.{Sys, Hw}
use horizon_oc.ClockManager.Limits.{is_assignable_hz}
use horizon_oc.ClockManager.FreqList.{refresh_freq_table_row, freq_list_max}
use horizon_oc.ClockManager.FreqList.Row.{IsRefreshed, IsRising}

-- The board lists at most 32 clocks for a module, in rising order.
pub record Lists (hw : Hw) (m : Module) : Type 0 where
  pub few : length (hw.get_freq_list m) ≤ freq_list_max
  pub rising : IsRising 0 (hw.get_freq_list m)

-- The arrays have their full size.
abbrev pub Sized : Sys → Type 0
Sized s = (m : Module) → length (at s.tables m).list ≡ freq_list_max

abbrev Done : Hw → Sys → Module → Type 0
Done hw s m = IsRefreshed m (hw.get_freq_list m) (at s.tables m)

-- What one round of the loop leaves.
record Row (hw : Hw) (m : Module) (s t : Sys) : Type 0 where
  runs : refresh_freq_table_row hw m s ≡ some t
  done : Done hw t m
  sized : Sized t
  keeps : (m' : Module) → Done hw s m' → Done hw t m'

-- The clocks that a module may be given.
abbrev pub assignable : Hw → Module → List ℕ
assignable hw m = keep (is_assignable_hz m) (hw.get_freq_list m)

-- ===== src/ClockManager/FreqList.antt =====
-- `RefreshFreqTableRow` and `GetFreqList` of clock_manager.cpp.
pub mod Row
use horizon_oc.Prelude.{min, ◌>>=◌, length, take, keep, Option, none, some, List, [], ◌∷◌, ℕ}
use horizon_oc.Board.Types.{Module, at, put}
use horizon_oc.ClockManager.State.{Sys, Hw, FreqTable}
use horizon_oc.ClockManager.Limits.{is_assignable_hz}

-- HOCCLK_FREQ_LIST_MAX.
abbrev pub freq_list_max : ℕ
freq_list_max = 32

-- `*hz = ...; hz++` for each entry: the start of the array is overwritten and the rest stays.
-- `none` is a write past the end.
unfoldable pub overwrite : List ℕ → List ℕ → Option (List ℕ)
overwrite [] old = some old
overwrite (x ∷ xs) [] = none
overwrite (x ∷ xs) (o ∷ old) = overwrite xs old >>= λ rest. some (x ∷ rest)

-- The loop skips what is not assignable.
unfoldable pub refresh_row : Module → List ℕ → FreqTable → Option FreqTable
refresh_row m freqs t =
    let kept = keep (is_assignable_hz m) freqs in
    overwrite kept t.list >>= λ list. some (record { count = length kept; list = list })

unfoldable pub refresh_freq_table_row : Hw → Module → Sys → Option Sys
unfolding refresh_row
refresh_freq_table_row hw m s = refresh_row m (hw.get_freq_list m) (at s.tables m) >>= λ t.
    some (record s { tables = put s.tables m t })

-- The count and the copied entries.
unfoldable pub get_freq_list : Sys → Module → ℕ → ℕ × List ℕ
get_freq_list s m max_count =
    let t = at s.tables m in let n = min max_count t.count in (n, take n t.list)

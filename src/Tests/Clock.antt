-- ===== src/Tests/Clock.antt =====
-- Examples for the clock manager and the board.
use horizon_oc.Prelude.{ℕ, ◌≤◌, ◌<◌, ◌≡◌, refl, ◌⊎◌, true, false, some, List, [], ◌∷◌, arith}
use horizon_oc.ClockManager.State.{Hw, Sys, FreqTable}
use horizon_oc.ClockManager.SetClocks.{set_scaled}
use horizon_oc.ClockManager.SetClocks.Sets.{Gives, set_scaled-sets}
use horizon_oc.ClockManager.Limits.{get_max_allowed_hz}
use horizon_oc.Board.Types.{fill, gpu, cpu, all_modules}
use horizon_oc.Tests.World.{
  three_clocks, three_clocks-IsTable, three_clocks-Rises, board, process, process-AllTables,
}
use horizon_oc.Board.Hijack.{GpuVolt, pcv_hijack_gpu_volts}
use horizon_oc.Board.Hijack.Restore.{Call, hijack_run, hijack-restores}
use horizon_oc.ClockManager.Tables.{hz_at, distance}
use horizon_oc.ClockManager.Nearest.{get_nearest_hz}
use horizon_oc.ClockManager.Nearest.Optimal.{get_nearest_hz-nearest}
use horizon_oc.ClockManager.FreqList.{refresh_row}
use horizon_oc.ClockManager.FreqList.Row.{IsRefreshed, refresh_row-IsRefreshed}
use horizon_oc.ClockManager.Context.{refresh_clocks}
use horizon_oc.ClockManager.Context.Agrees.{Agrees, refresh_clocks-Agrees}

get_nearest_hz-nearest_example :
    (j : ℕ) × (j < 3)
    × (get_nearest_hz three_clocks 700000000 921600000 ≡ some (hz_at three_clocks j))
    × ((k : ℕ)
        → k < 3
        → (◌≡◌ {A = ℕ} 921600000 0) ⊎ (hz_at three_clocks k < 921600000)
        → distance 700000000 (hz_at three_clocks j) ≤ distance 700000000 (hz_at three_clocks k))
get_nearest_hz-nearest_example =
    get_nearest_hz-nearest three_clocks 700000000 921600000 three_clocks-IsTable three_clocks-Rises

abbrev zeros : FreqTable
zeros = record {
  count = 0;
  list =
      0 ∷ 0 ∷ 0 ∷ 0 ∷ 0 ∷ 0 ∷ 0 ∷ 0 ∷ 0 ∷ 0 ∷ 0 ∷ 0 ∷ 0 ∷ 0 ∷ 0 ∷ 0 ∷ 0 ∷ 0 ∷ 0 ∷ 0 ∷ 0 ∷ 0 ∷ 0 ∷ 0
      ∷ 0 ∷ 0 ∷ 0 ∷ 0 ∷ 0 ∷ 0 ∷ 0 ∷ 0 ∷ [];
}

refresh_row-IsRefreshed_example :
    (t : FreqTable) × (refresh_row cpu (204000000 ∷ 612000000 ∷ 1020000000 ∷ []) zeros ≡ some t)
    × IsRefreshed cpu (204000000 ∷ 612000000 ∷ 1020000000 ∷ []) t
refresh_row-IsRefreshed_example =
    refresh_row-IsRefreshed cpu (204000000 ∷ 612000000 ∷ 1020000000 ∷ []) zeros refl (omega arith)
      (omega arith, (omega arith, (omega arith, tt)))

refresh_clocks-Agrees_example :
    Agrees board (refresh_clocks board all_modules (process, false)).0 gpu
refresh_clocks-Agrees_example = refresh_clocks-Agrees board (process, false) gpu

abbrev volts : GpuVolt
volts = record { volt_table = 800 ∷ 650 ∷ 0 ∷ []; ram_vmin = 0; in_pcv = 800 ∷ 650 ∷ 0 ∷ [] }

abbrev calls : List Call
calls = (true, true, 700) ∷ (true, false, 750) ∷ (false, true, 0) ∷ []

hijack-restores_example :
    (pcv_hijack_gpu_volts true true 0 (hijack_run calls volts)).in_pcv ≡ 800 ∷ 650 ∷ 0 ∷ []
hijack-restores_example = hijack-restores calls volts refl refl

abbrev listing : Hw
listing = record board { get_freq_list = λ m. 614400000 ∷ 1020000000 ∷ 1600000000 ∷ [] }

abbrev fresh : Sys
fresh = record process { tables = fill zeros }

set_scaled-sets_example :
    (hz : ℕ) × (t : Sys) × (get_nearest_hz three_clocks 1000000000
        (get_max_allowed_hz board.soc_type process.config.values cpu process.context.profile)
      ≡ some hz)
    × (set_scaled board false cpu 1020000000 1000000000 process ≡ some t)
    × Gives cpu hz process t
set_scaled-sets_example =
    set_scaled-sets board false cpu 1020000000 1000000000 process three_clocks-IsTable
      process-AllTables (omega arith)

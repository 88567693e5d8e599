-- ===== src/Tests/Threads.antt =====
-- Examples for the governor threads.
use horizon_oc.Prelude.{ℕ, ◌≤◌, ◌≡◌, refl, true, some, List, [], ◌∷◌, ◌++◌, arith}
use horizon_oc.Tests.World.{three_clocks, three_clocks-IsTable, three_clocks-Rises, board, process}
use horizon_oc.Board.Types.{gpu, cpu}
use horizon_oc.ClockManager.State.{Sys}
use horizon_oc.ClockManager.Limits.{get_max_allowed_hz}
use horizon_oc.Governor.Ramp.{RampState, ramp_start}
use horizon_oc.Governor.Gpu.{gpu_poll}
use horizon_oc.Governor.Gpu.Hold.{gpu_run, holding, idled_for, moved, down_after_hold}
use horizon_oc.Governor.Cpu.{CpuThread, cpu_poll, cpu_thread_start, boosted}
use horizon_oc.Governor.Commands.{Round, UnderCap, gpu_poll-capped, cpu_poll-assignable}

abbrev lower : List ℕ
lower =
    614400000 ∷ 614400000 ∷ 768000000 ∷ 614400000 ∷ 614400000 ∷ 614400000 ∷ 614400000 ∷ 614400000
    ∷ []

down_after_hold_example :
    gpu_run ((614400000 ∷ lower) ++ 768000000 ∷ []) (holding 0 921600000) process
    ≡ (holding 0 768000000, moved 768000000 (idled_for 9 process))
down_after_hold_example =
    down_after_hold 614400000 lower 768000000 921600000 process (ground arith) refl (omega arith)

gpu_poll-capped_example :
    (r : RampState) × (s : Sys) × (gpu_poll board ramp_start process ≡ some (r, s))
    × Round gpu
        (UnderCap three_clocks
          (get_max_allowed_hz board.soc_type process.config.values gpu process.context.profile))
        process.log
        s.log
gpu_poll-capped_example =
    gpu_poll-capped board ramp_start process three_clocks-IsTable three_clocks-Rises

cpu_poll-assignable_example :
    (th : CpuThread) × (s : Sys) × (cpu_poll board cpu_thread_start process ≡ some (th, s))
    × Round cpu (λ hz. 500000000 ≤ hz) process.log s.log
    × (boosted (some 0) ≡ true → Round cpu (λ hz. ⊥) process.log s.log)
cpu_poll-assignable_example =
    cpu_poll-assignable board cpu_thread_start process three_clocks-IsTable

-- ===== src/Tests/Readings.antt =====
-- Examples for the board's clocks and loads, and for the shared memory of SaltyNX.
use horizon_oc.Prelude.{
  ltb, ltb→lt, ◌≤◌, ◌<◌, ◌^◌, Bool-cases, inl, inr, sym, ◌∙◌, ◌+◌, ◌==◌, if◌then◌else◌, ℕ, ◌≡◌,
  refl, true, Option, none, some, List, [], ◌∷◌, arith,
}
use horizon_oc.Board.Freq.{
  PcvModule, cpu_bus, gpu_core, emc, FreqServices, FreqCall, ApmConfiguration, board_reset_to_stock,
}
use horizon_oc.Board.Freq.Sessions.{rate_set, open_sessions}
use horizon_oc.Board.Freq.Stock.{board_reset_to_stock-clocks}
use horizon_oc.Board.Load.{gpu_load_rounds}
use horizon_oc.Board.Load.Average.{gpu_load_rounds-average}
use horizon_oc.Board.Hijack.Handle.{Debugger, get_pcv_handle, pcv_id}
use horizon_oc.Board.Hijack.Handle.Found.{Searched, get_pcv_handle-Searched}
use mathlib.Core.Option.{some-injective, none-ne-some}
use mathlib.Core.Path.{subst}
use horizon_oc.Board.Hijack.Cache.{MemoryInfo, DebugMemory, CacheResult, regions_loop}
use horizon_oc.Board.Hijack.Cache.Ends.{IsRegionFor, Covers, regions_loop-ends}
use horizon_oc.Integrations.{Bytes, SaltyNx, get_salty_nx_fps}
use horizon_oc.Integrations.Block.{FirstBlock, told_of, get_salty_nx_fps-FirstBlock}

abbrev services : FreqServices
services = record {
  has_clkrst = true;
  at_least_9 = true;
  answer = λ log c. 0;
  clock_rate = λ log m. (0, 0);
  performance_configuration = λ log. (0, 0x00020003);
  performance_mode = λ log. (0, 0);
  display_rate = λ log. 60;
}

abbrev stock : ApmConfiguration
stock = record { id = 0x00020003; cpu_hz = 1020000000; gpu_hz = 307200000; mem_hz = 1331200000 }

board_reset_to_stock-clocks_example :
    (after : List FreqCall) × (board_reset_to_stock services [] ≡ some after)
    × (rate_set after cpu_bus ≡ some 1020000000)
    × (rate_set after gpu_core ≡ some 307200000)
    × (rate_set after emc ≡ some 1331200000)
    × ((n : PcvModule) → open_sessions after n ≡ open_sessions [] n)
board_reset_to_stock-clocks_example =
    board_reset_to_stock-clocks services [] 6 stock (λ log c. refl) refl refl refl

-- Nine samples, newest first, with a failure in between.
abbrev answers : List (Option ℕ)
answers =
    some 80
    ∷ some 70
    ∷ none
    ∷ some 60
    ∷ some 50
    ∷ some 40
    ∷ some 30
    ∷ some 20
    ∷ some 10
    ∷ some 999
    ∷ []

gpu_load_rounds-average_example : (gpu_load_rounds answers).gpu_load ≡ 45
gpu_load_rounds-average_example = gpu_load_rounds-average answers (
  ground arith,
  (
    ground arith,
    (
      ground arith,
      (
        ground arith,
        (ground arith, (ground arith, (ground arith, (ground arith, (ground arith, tt))))),
      ),
    ),
  ),
)

-- A block at offset 8, with 30 frames a second.
abbrev shared : Bytes
shared o =
    if o == 8
    then 0x53
    else if o == 9
    then 0x50
    else if o == 10
    then 0x46
    else if o == 12
    then 30
    else 0

abbrev salty_nx : SaltyNx
salty_nx = record { nx_fps = none; shared_memory_used = true; prev_tid = 0 }

get_salty_nx_fps-FirstBlock_example :
    (block : Option ℕ) × FirstBlock shared 1024 0 block
    × (get_salty_nx_fps 7 shared salty_nx ≡ told_of 7 shared salty_nx block)
get_salty_nx_fps-FirstBlock_example =
    get_salty_nx_fps-FirstBlock 7 shared salty_nx refl (λ e. ground arith) (λ e. ground arith)

-- The process 3 cannot be debugged, and 5 is pcv.
abbrev debugger : Debugger
debugger = record {
  debug_active_process = λ pid. if pid == 3 then none else some (100 + pid);
  event_program_id = λ h. some (if h == 105 then pcv_id else h);
}

get_pcv_handle-Searched_example :
    Searched debugger []
      (2 ∷ 3 ∷ 5 ∷ 6 ∷ [])
      []
      (get_pcv_handle debugger (some (2 ∷ 3 ∷ 5 ∷ 6 ∷ [])) [])
get_pcv_handle-Searched_example = get_pcv_handle-Searched debugger (2 ∷ 3 ∷ 5 ∷ 6 ∷ []) []

-- Two regions with half of the addresses each.
abbrev half : ℕ → MemoryInfo
half start = record { addr = start; size = 2 ^ 63; perm = 3; mem_type = 4 }

abbrev halves : DebugMemory
halves = record {
  query = λ a.
      if ltb a (2 ^ 63)
      then some (half 0)
      else if ltb a (2 ^ 64)
      then some (half (2 ^ 63))
      else none;
  read_bytes = λ a size. none;
}

half-IsRegionFor :
    (start a : ℕ) → a < start + 2 ^ 63 → start + 2 ^ 63 ≤ 2 ^ 64 → IsRegionFor a (half start)
half-IsRegionFor start a over within = record {
  above = over;
  within = within;
  whole = refl;
  size = omega arith;
}

halves-Covers : Covers halves
halves-Covers a info found = elim (Bool-cases (ltb a (2 ^ 63))) [
  | inl low ↦
      let e : half 0 ≡ info = some-injective (half 0) info (sym (rw low refl) ∙ found) in
      subst (IsRegionFor a) e
        (half-IsRegionFor 0 a (omega (arith, ltb→lt a (2 ^ 63) low)) (omega arith))
  | inr high ↦ elim (Bool-cases (ltb a (2 ^ 64))) [
    | inl inside ↦
        let e : half (2 ^ 63) ≡ info =
          some-injective (half (2 ^ 63)) info (sym (rw (high, inside) refl) ∙ found) in
        subst (IsRegionFor a) e
          (half-IsRegionFor (2 ^ 63) a (omega (arith, ltb→lt a (2 ^ 64) inside)) (omega arith))
    | inr outside ↦ absurd (none-ne-some info (sym (rw (high, outside) refl) ∙ found))
  ]
]

regions_loop-ends_example :
    (result : CacheResult) × (regions_loop halves (2 ^ 52) (2 ^ 64) 0 [] ≡ some result)
regions_loop-ends_example =
    regions_loop-ends halves (2 ^ 52) (2 ^ 64) 0 [] halves-Covers (omega arith) (omega arith)
      (omega arith)

-- ===== src/Board/Load.antt =====
-- hoc-clk/sysmodule/src/board/board_load.cpp: the average of the last samples of the GPU load, and
-- the scheduling of the GPU. The load of the CPU is computed in floating point and left out.
pub mod Average
pub mod Scheduling
use horizon_oc.Prelude.{
  truthy, ◌==◌, ◌&&◌, if◌then◌else◌, u32, u64, signed32, div_ℤ, word32, ℕ, zero, suc, ◌+◌, ◌%◌,
  Bool, Option, none, some, List, [], ◌∷◌,
}

abbrev pub gpu_samples_average : ℕ
gpu_samples_average = 8

-- The locals of `GpuLoadThread` and the global that it writes.
pub record GpuLoadState : Type 0 where
  pub gpu_load_array : List ℕ
  pub i : ℕ
  pub gpu_load : ℕ

abbrev pub first_gpu_load : GpuLoadState
first_gpu_load = record { gpu_load_array = 0 ∷ 0 ∷ 0 ∷ 0 ∷ 0 ∷ 0 ∷ 0 ∷ 0 ∷ []; i = 0; gpu_load = 0 }

-- `array[k] = v`, for an index within.
abbrev pub set_at : List ℕ → ℕ → ℕ → List ℕ
set_at [] k v = []
set_at (x ∷ xs) zero v = v ∷ xs
set_at (x ∷ xs) (suc k) v = x ∷ set_at xs k v

-- `std::accumulate`, without its wrap-around.
abbrev pub sum : List ℕ → ℕ
sum [] = 0
sum (x ∷ xs) = x + sum xs

-- One round of the thread, with the sample if the driver gives one. The sum is an `int`.
unfoldable pub gpu_load_round : Option ℕ → GpuLoadState → GpuLoadState
gpu_load_round none s = s
gpu_load_round (some temp) s =
    let array = set_at s.gpu_load_array (s.i % gpu_samples_average) temp in
    record {
      gpu_load_array = array;
      i = u64 (s.i + 1);
      gpu_load = word32 (div_ℤ (signed32 (u32 (sum array))) gpu_samples_average);
    }

-- The rounds so far, newest first.
unfoldable pub gpu_load_rounds : List (Option ℕ) → GpuLoadState
unfolding gpu_load_round
gpu_load_rounds [] = first_gpu_load
gpu_load_rounds (o ∷ os) = gpu_load_round o (gpu_load_rounds os)

-- `GpuSchedulingMode` and `GpuSchedulingOverrideMethod`.
abbrev pub scheduling_do_not_override : ℕ
scheduling_do_not_override = 0

abbrev pub scheduling_enabled : ℕ
scheduling_enabled = 1

abbrev pub scheduling_disabled : ℕ
scheduling_disabled = 2

abbrev pub method_ini : ℕ
method_ini = 0

abbrev pub method_nv_service : ℕ
method_nv_service = 1

-- The calls of `SetGpuSchedulingMode`: the driver's, and the one that writes
-- `gpu_scheduling_enabled` of the settings of the system.
pub data SchedulingCall : Type 0 where
  nv_ioctl : ℕ → ℕ → SchedulingCall
  ini_puts : Bool → SchedulingCall

-- `_fd2` and `nvCheckSched`.
pub record Scheduler : Type 0 where
  pub fd2 : ℕ
  pub nv_check_sched : ℕ

-- What the `switch` calls; `none` is an abort.
abbrev pub scheduling_switch : Scheduler → ℕ → ℕ → Option (List SchedulingCall)
scheduling_switch s mode method =
    if mode == scheduling_do_not_override
    then some []
    else if mode == scheduling_disabled
    then some (if method == method_nv_service then nv_ioctl s.fd2 0x602 ∷ [] else [])
    else if mode == scheduling_enabled
    then some (if method == method_nv_service then nv_ioctl s.fd2 0x601 ∷ [] else [])
    else none

-- The calls in their order.
unfoldable pub set_gpu_scheduling_mode : Scheduler → ℕ → ℕ → Option (List SchedulingCall)
set_gpu_scheduling_mode s mode method =
    if truthy s.nv_check_sched && (method == method_nv_service)
    then some []
    else elim (scheduling_switch s mode method) [
      | none ↦ none
      | some calls ↦
          some
            (if method == method_ini then ini_puts (mode == scheduling_enabled) ∷ calls else calls)
    ]

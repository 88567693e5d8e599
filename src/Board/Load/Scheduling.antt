-- ===== src/Board/Load/Scheduling.antt =====
-- What is written for each choice of the GPU scheduling.
use horizon_oc.Prelude.{◌≡◌, refl}
use horizon_oc.Board.Load.{
  Scheduler, set_gpu_scheduling_mode, scheduling_do_not_override, scheduling_disabled, method_ini,
}

-- With the method of the file, the choice to override nothing writes the same as the choice to
-- disable the scheduling.
pub do_not_override-disables :
    (s : Scheduler)
    → set_gpu_scheduling_mode s scheduling_do_not_override method_ini
      ≡ set_gpu_scheduling_mode s scheduling_disabled method_ini
unfolding set_gpu_scheduling_mode
do_not_override-disables s = refl

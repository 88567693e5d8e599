-- ===== src/Loader/Pcv/Erista/Vmin.antt =====
-- The minimum voltage of the CPU on Erista.
use horizon_oc.Prelude.{truthy, ℕ, ◌+◌, ◌-◌, ◌<◌, ◌≤◌, ◌≡◌, true, arith}
use horizon_oc.Loader.Memory.{Memory, matches}
use horizon_oc.Loader.Customize.{CustomizeTable}
use horizon_oc.Loader.Pcv.Erista.{erista_cpu_volt_dvfs, cpu_volt_dvfs_pattern}

-- With an undervolt level and no minimum voltage, `CpuVoltDvfs` writes 0 mV two words before its
-- pointer and leaves the word at the pointer.
pub erista_cpu_volt_dvfs-unset :
    (c : CustomizeTable) (ptr : ℕ) (m : Memory)
    → 2 ≤ ptr
    → matches m (ptr + 5) cpu_volt_dvfs_pattern ≡ true
    → 0 < c.erista_cpu_uv
    → c.erista_cpu_vmin ≡ 0
    → ((erista_cpu_volt_dvfs c ptr m).1 (ptr - 2) ≡ 0)
      × ((erista_cpu_volt_dvfs c ptr m).1 ptr ≡ m ptr)
unfolding erista_cpu_volt_dvfs
erista_cpu_volt_dvfs-unset c ptr m inside found level unset =
    let on : truthy c.erista_cpu_uv ≡ true = ground arith in rw (found, unset, on) (ground arith)

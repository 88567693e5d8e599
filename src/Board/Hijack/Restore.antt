-- ===== src/Board/Hijack/Restore.antt =====
-- What stands in the memory of pcv after any calls of `PcvHijackGpuVolts`.
use horizon_oc.Prelude.{ℕ, ◌≡◌, refl, sym, ◌∙◌, Bool, true, List, [], ◌∷◌, arith}
use horizon_oc.Board.Hijack.{GpuVolt, raise_table, pcv_hijack_gpu_volts}

-- One call, with the answers of the services.
abbrev pub Call : Type 0
Call = Bool × Bool × ℕ

unfoldable pub hijack_run : List Call → GpuVolt → GpuVolt
hijack_run [] d = d
hijack_run ((opens, writes, vmin) ∷ calls) d =
    hijack_run calls (pcv_hijack_gpu_volts opens writes vmin d)

-- The memory of pcv is the cached table, raised to the voltage that is on record.
abbrev pub IsRaised : GpuVolt → Type 0
IsRaised d = d.in_pcv ≡ raise_table d.ram_vmin d.volt_table

raise_zero : (vs : List ℕ) → raise_table 0 vs ≡ vs
unfolding raise_table
raise_zero [] = refl
raise_zero (v ∷ vs) = ground (arith, raise_zero vs)

call-IsRaised :
    (opens writes : Bool) (vmin : ℕ) (d : GpuVolt)
    → IsRaised d
    → IsRaised (pcv_hijack_gpu_volts opens writes vmin d)
unfolding pcv_hijack_gpu_volts
call-IsRaised opens writes vmin d h = ground (arith, h)

pub run-IsRaised : (calls : List Call) (d : GpuVolt) → IsRaised d → IsRaised (hijack_run calls d)
unfolding hijack_run
run-IsRaised [] d h = h
run-IsRaised ((o, w, v) ∷ calls) d h =
    run-IsRaised calls (pcv_hijack_gpu_volts o w v d) (call-IsRaised o w v d h)

call-table :
    (opens writes : Bool) (vmin : ℕ) (d : GpuVolt)
    → (pcv_hijack_gpu_volts opens writes vmin d).volt_table ≡ d.volt_table
unfolding pcv_hijack_gpu_volts
call-table opens writes vmin d = ground arith

run-table : (calls : List Call) (d : GpuVolt) → (hijack_run calls d).volt_table ≡ d.volt_table
unfolding hijack_run
run-table [] d = refl
run-table ((o, w, v) ∷ calls) d =
    run-table calls (pcv_hijack_gpu_volts o w v d) ∙ call-table o w v d

zero_call : (d : GpuVolt) → IsRaised d → (pcv_hijack_gpu_volts true true 0 d).in_pcv ≡ d.volt_table
unfolding pcv_hijack_gpu_volts
zero_call d h = ground (arith, h, raise_zero d.volt_table)

-- After any calls, each of which may fail, a call with 0 that succeeds puts the table back that
-- was in the memory of pcv at first.
pub hijack-restores :
    (calls : List Call) (d : GpuVolt)
    → d.ram_vmin ≡ 0
    → d.in_pcv ≡ d.volt_table
    → (pcv_hijack_gpu_volts true true 0 (hijack_run calls d)).in_pcv ≡ d.in_pcv
hijack-restores calls d none_yet same =
    zero_call (hijack_run calls d)
      (run-IsRaised calls d (rw none_yet (same ∙ sym (raise_zero d.volt_table))))
    ∙ run-table calls d
    ∙ sym same

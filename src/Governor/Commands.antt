-- ===== src/Governor/Commands.antt =====
-- The commands that the CPU and the GPU governor give in one round.
use horizon_oc.Prelude.{
  ◌==◌, true, false, not, ◌||◌, Bool-cases, ℕ, ◌-◌, ◌≤◌, ◌<◌, ◌≡◌, refl, ◌⊎◌, inl, inr, ◌&&◌, some,
  List, ◌∷◌, arith,
}
use horizon_oc.Board.Types.{Module, cpu, gpu, at, gpu_load, cpu_max_load}
use horizon_oc.ClockManager.State.{FreqTable, Sys, Hw, Cmd, set_hz, sleep_thread, issue}
use horizon_oc.ClockManager.Tables.{hz_at, IsTable, Rises, Rises-mono, read-some}
use horizon_oc.ClockManager.Limits.{is_assignable_hz, get_max_allowed_hz}
use horizon_oc.Governor.Ramp.{poll_ns, RampState, ramp_start, table_hz, desired_hz, cap_at, may_set}
use horizon_oc.Governor.Ramp.Index.{table_index_for_hz-IsCeiling}
use horizon_oc.Governor.Gpu.{gpu_poll, gpu_apply}
use horizon_oc.Governor.Cpu.{CpuThread, cpu_poll, cpu_apply, refresh_floor, raise_to, boosted}
use native.Mathlib.Decide.{dec_le}

abbrev cap_of : Hw → Module → Sys → ℕ
cap_of hw m s = get_max_allowed_hz hw.soc_type s.config.values m s.context.profile

desired-le-cap :
    (hw : Hw) (m : Module) (load table_max : ℕ) (s : Sys)
    → 0 < cap_of hw m s
    → desired_hz hw m load table_max s ≤ cap_of hw m s
unfolding desired_hz cap_at
desired-le-cap hw m load table_max s pos = ground arith

-- The clock for a load is an entry of the table, and passes no entry that reaches the cap.
table_hz-entry :
    (hw : Hw) (m : Module) (load : ℕ) (s : Sys)
    → IsTable (at s.tables m)
    → (j : ℕ) × (j < (at s.tables m).count)
      × (table_hz hw m load s ≡ some (hz_at (at s.tables m) j))
      × ((k : ℕ)
          → Rises (at s.tables m)
          → k < (at s.tables m).count
          → 0 < cap_of hw m s
          → cap_of hw m s ≤ hz_at (at s.tables m) k
          → hz_at (at s.tables m) j ≤ hz_at (at s.tables m) k)
unfolding table_hz
table_hz-entry hw m load s h =
    let t = at s.tables m in
    let last = hz_at t (t.count - 1) in
    let want = desired_hz hw m load last s in
    let (j, e, c) = table_index_for_hz-IsCeiling t want h in
    let used = h.used in
    (
      j,
      c.inside,
      rw (read-some t (t.count - 1) h (omega arith), e) (read-some t j h c.inside),
      λ k rises inside pos reach. elim (dec_le j k) [
        | yes le ↦ Rises-mono t j k rises le inside
        | no gt ↦ absurd (
            omega
              (arith, c.first k (omega arith) (omega arith), desired-le-cap hw m load last s pos))
      ],
    )

-- The log after a round: as before, or with a sleep, or with a clock that satisfies `P` and a sleep.
pub Round : Module → (ℕ → Type 0) → List Cmd → List Cmd → Type 0
Round m P old new =
    (new ≡ old)
    ⊎ (new ≡ sleep_thread poll_ns ∷ old)
    ⊎ ((hz : ℕ) × P hz × (new ≡ sleep_thread poll_ns ∷ set_hz m hz ∷ old))

gpu_apply-Round :
    (P : ℕ → Type 0) (hz : ℕ) (r : RampState) (s : Sys)
    → P hz
    → Round gpu P s.log (gpu_apply hz r s).1.log
unfolding gpu_apply Round
gpu_apply-Round P hz r s p = elim (Bool-cases (may_set r hz && is_assignable_hz gpu hz)) [
  | inl e ↦ rw e (inr (inr (hz, p, refl)))
  | inr e ↦ rw e (inr (inl refl))
]

-- An entry of the table that passes no entry which reaches the cap; a cap of 0 is none.
pub record UnderCap (t : FreqTable) (cap hz : ℕ) : Type 0 where
  pub index : ℕ
  pub inside : index < t.count
  pub entry : hz ≡ hz_at t index
  pub capped : (cap ≡ 0) ⊎ ((k : ℕ) → k < t.count → cap ≤ hz_at t k → hz ≤ hz_at t k)

-- Over a table that is in use and rises, a round of the GPU governor reads nothing outside the
-- table and sets at most one clock. That clock is an entry of the table, and where the profile has
-- a cap, it passes no entry that reaches the cap.
pub gpu_poll-capped :
    (hw : Hw) (r : RampState) (s : Sys)
    → IsTable s.tables.on_gpu
    → Rises s.tables.on_gpu
    → (r' : RampState) × (s' : Sys) × (gpu_poll hw r s ≡ some (r', s'))
      × Round gpu
          (UnderCap s.tables.on_gpu
            (get_max_allowed_hz hw.soc_type s.config.values gpu s.context.profile))
          s.log
          s'.log
unfolding gpu_poll Round
gpu_poll-capped hw r s h rises =
    let (j, lt, e, most) = table_hz-entry hw gpu (hw.get_part_load s.log gpu_load) s h in
    let hz = hz_at s.tables.on_gpu j in
    let used = h.used in
    let zero_not : (s.tables.on_gpu.count == 0) ≡ false = ground arith in
    let capped : (cap_of hw gpu s ≡ 0)
        ⊎ ((k : ℕ)
            → k < s.tables.on_gpu.count
            → cap_of hw gpu s ≤ hz_at s.tables.on_gpu k
            → hz ≤ hz_at s.tables.on_gpu k) =
      elim (dec_le (cap_of hw gpu s) 0) [
        | yes zero_cap ↦ inl (omega arith)
        | no some_cap ↦ inr (λ k inside reach. most k rises inside (omega arith) reach)
      ] in
    elim (Bool-cases (not s.running || not s.flags.is_gpu_governor_enabled)) [
      | inl off ↦ (ramp_start, issue s (sleep_thread poll_ns), rw off, inr (inl refl))
      | inr on ↦ (
        (gpu_apply hz r s).0,
        (gpu_apply hz r s).1,
        rw (on, zero_not, e),
        gpu_apply-Round _ hz r s (record { index = j; inside = lt; entry = refl; capped = capped }),
      )
    ]

weaken :
    (P Q : ℕ → Type 0) (old new : List Cmd)
    → ((hz : ℕ) → P hz → Q hz)
    → Round cpu P old new
    → Round cpu Q old new
unfolding Round
weaken P Q old new f (inl e) = inl e
weaken P Q old new f (inr (inl e)) = inr (inl e)
weaken P Q old new f (inr (inr (hz, p, e))) = inr (inr (hz, f hz p, e))

cpu_apply-Round :
    (hz : ℕ) (th : CpuThread) (s : Sys)
    → Round cpu (λ new. (500000000 ≤ new) × (hz ≤ new)) s.log (cpu_apply hz th s).1.log
unfolding cpu_apply Round refresh_floor raise_to is_assignable_hz
cpu_apply-Round hz th s =
    let new = raise_to (refresh_floor s th).min_hz hz in
    elim (Bool-cases (may_set th.ramp hz && is_assignable_hz cpu new)) [
      | inl e ↦ rw e (inr (inr (new, (ground (arith, e), ground arith), refl)))
      | inr e ↦ rw e (inr (inl refl))
    ]

-- Over a table that is in use, a round of the CPU governor reads nothing outside the table and
-- sets at most one clock, of 500 MHz at least. While the performance mode is a boost mode it gives
-- no command but a sleep.
pub cpu_poll-assignable :
    (hw : Hw) (th : CpuThread) (s : Sys)
    → IsTable s.tables.on_cpu
    → (th' : CpuThread) × (s' : Sys) × (cpu_poll hw th s ≡ some (th', s'))
      × Round cpu (λ hz. 500000000 ≤ hz) s.log s'.log
      × (boosted (hw.performance_configuration s.log) ≡ true → Round cpu (λ hz. ⊥) s.log s'.log)
unfolding cpu_poll Round
cpu_poll-assignable hw th s h =
    let (j, lt, e, most) = table_hz-entry hw cpu (hw.get_part_load s.log cpu_max_load) s h in
    let hz = hz_at s.tables.on_cpu j in
    let used = h.used in
    let zero_not : (s.tables.on_cpu.count == 0) ≡ false = ground arith in
    let go = record th { is_in_boost_mode = false } in
    elim (Bool-cases (not s.running || not s.flags.is_cpu_governor_enabled)) [
      | inl off ↦ (
        record th { ramp = ramp_start },
        issue s (sleep_thread poll_ns),
        rw off refl,
        inr (inl refl),
        λ b. inr (inl refl),
      )
      | inr on ↦ elim (Bool-cases (boosted (hw.performance_configuration s.log))) [
        | inl boost ↦ (
          record th { ramp = ramp_start; is_in_boost_mode = true },
          s,
          rw (on, boost) refl,
          inl refl,
          λ b. inl refl,
        )
        | inr calm ↦ (
          (cpu_apply hz go s).0,
          (cpu_apply hz go s).1,
          rw (on, calm, zero_not, e),
          weaken _ _ _ _ (λ new p. p.0) (cpu_apply-Round hz go s),
          λ b. cc,
        )
      ]
    ]

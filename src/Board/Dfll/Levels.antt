-- ===== src/Board/Dfll/Levels.antt =====
-- Which undervolt levels `SetDfllTunings` takes, and which of them wins.
use horizon_oc.Prelude.{
  not, ltb, truthy, Bool-cases, length, get_or, get_elem?-get_or, ℕ, zero, suc, ◌≤◌, ◌≡◌, refl, inl,
  inr, ◌&&◌, ◌||◌, some, List, arith,
}
use horizon_oc.Board.Types.{SocType, erista, mariko}
use horizon_oc.Board.Dfll.{
  Tunes, set_dfll_tunings, apply_level, erista_cpu_uv_table, mariko_cpu_uv_low_table,
  mariko_cpu_uv_high_table, mariko_tunings, erista_tunings,
}

pub apply_level-inside :
    (table : List Tunes) (level : ℕ) (t : Tunes)
    → level ≤ length table
    → (t' : Tunes) × (apply_level table level t ≡ some t')
unfolding apply_level
apply_level-inside table zero t le = (t, refl)
apply_level-inside table (suc n) t le = (get_or table n t, get_elem?-get_or table n t (omega arith))

-- The number of levels: 5 on Erista, 12 on Mariko.
abbrev pub max_level : SocType → ℕ
max_level erista = 5
max_level mariko = 12

mariko_inside :
    (cpu_hz low high tbreak : ℕ) (t : Tunes)
    → low ≤ 12
    → high ≤ 12
    → (t' : Tunes) × (mariko_tunings cpu_hz low high tbreak t ≡ some t')
unfolding mariko_tunings mariko_cpu_uv_low_table mariko_cpu_uv_high_table
mariko_inside cpu_hz low high tbreak t l h =
    let (a, ea) = apply_level-inside mariko_cpu_uv_low_table low t l in
    let (b, eb) = apply_level-inside mariko_cpu_uv_high_table high a h in
    rw ea (elim (Bool-cases (ltb cpu_hz tbreak && (truthy low || truthy high))) [
      | inl e ↦ (a, rw e refl)
      | inr e ↦ (b, rw e eb)
    ])

erista_inside :
    (cached : Tunes) (cpu_hz low tbreak : ℕ) (t : Tunes)
    → low ≤ 5
    → (t' : Tunes) × (erista_tunings cached cpu_hz low tbreak t ≡ some t')
unfolding erista_tunings erista_cpu_uv_table
erista_inside cached cpu_hz low tbreak t l =
    let (a, ea) = apply_level-inside erista_cpu_uv_table low t l in
    elim (Bool-cases (ltb cpu_hz tbreak || not (truthy low))) [
      | inl e ↦ (cached, rw e refl)
      | inr e ↦ (a, rw e ea)
    ]

-- Levels up to 12 on Mariko and up to 5 on Erista read inside the tables, whatever the clock of
-- the CPU, the break point and the contents of the registers.
pub set_dfll_tunings-inside :
    (soc : SocType) (cached : Tunes) (cpu_hz low high tbreak : ℕ) (t : Tunes)
    → low ≤ max_level soc
    → high ≤ max_level soc
    → (t' : Tunes) × (set_dfll_tunings soc cached cpu_hz low high tbreak t ≡ some t')
unfolding set_dfll_tunings
set_dfll_tunings-inside mariko cached cpu_hz low high tbreak t l h =
    mariko_inside cpu_hz low high tbreak t l h
set_dfll_tunings-inside erista cached cpu_hz low high tbreak t l h =
    erista_inside cached cpu_hz low tbreak t l

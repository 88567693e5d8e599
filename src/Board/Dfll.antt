-- ===== src/Board/Dfll.antt =====
-- `SetDfllTunings` of hoc-clk/sysmodule/src/board/board_volt.cpp: the undervolt of the CPU, as the
-- contents of the two tuning registers of the DFLL.
pub mod Levels
use horizon_oc.Prelude.{
  zero, suc, ltb, if◌then◌else◌, truthy, ◌>>=◌, get_elem?, ℕ, not, ◌&&◌, ◌||◌, Option, some, List,
  [], ◌∷◌,
}
use horizon_oc.Board.Types.{SocType, erista, mariko}

-- What the two registers hold.
pub record Tunes : Type 0 where
  pub tune0 : ℕ
  pub tune1 : ℕ

abbrev entry : ℕ → ℕ → Tunes
entry t0 t1 = record { tune0 = t0; tune1 = t1 }

unfoldable pub erista_cpu_uv_table : List Tunes
erista_cpu_uv_table =
    entry 0xffff 0x27007ff
    ∷ entry 0xefff 0x27407ff
    ∷ entry 0xdfff 0x27807ff
    ∷ entry 0xdfdf 0x27a07ff
    ∷ entry 0xcfdf 0x37007ff
    ∷ []

-- `tune0_low` and `tune1_low` of `marikoCpuUvLow`.
unfoldable pub mariko_cpu_uv_low_table : List Tunes
mariko_cpu_uv_low_table =
    entry 0xffa0 0x21107ff
    ∷ entry 0x0 0x21107ff
    ∷ entry 0xffdf 0x21107ff
    ∷ entry 0xffff 0x21107ff
    ∷ entry 0x0 0x21607ff
    ∷ entry 0x0 0x21607ff
    ∷ entry 0x0 0x21607ff
    ∷ entry 0xdfff 0x21707ff
    ∷ entry 0xdfff 0x21707ff
    ∷ entry 0xdfff 0x21707ff
    ∷ entry 0xdfff 0x21707ff
    ∷ entry 0xdfff 0x21707ff
    ∷ []

-- `tune0_high` and `tune1_high` of `marikoCpuUvHigh`.
unfoldable pub mariko_cpu_uv_high_table : List Tunes
mariko_cpu_uv_high_table =
    entry 0xffff 0
    ∷ entry 0xffdf 0x27207ff
    ∷ entry 0xffdf 0x27307ff
    ∷ entry 0xffdf 0x27407ff
    ∷ entry 0xffdf 0x27707ff
    ∷ entry 0xffdf 0x27807ff
    ∷ entry 0xdfff 0x27b07ff
    ∷ entry 0xdfff 0x27c07ff
    ∷ entry 0xdfff 0x27d07ff
    ∷ entry 0xdfff 0x27e07ff
    ∷ entry 0xdfff 0x27f07ff
    ∷ entry 0xdfff 0x27f07ff
    ∷ []

-- `if (level) { *tune0_ptr = table[level - 1]...; }`; `none` is a read outside the table.
unfoldable pub apply_level : List Tunes → ℕ → Tunes → Option Tunes
apply_level table zero t = some t
apply_level table (suc n) t = get_elem? table n

-- On Mariko both branches return, so the lines behind them are never reached.
unfoldable pub mariko_tunings : ℕ → ℕ → ℕ → ℕ → Tunes → Option Tunes
unfolding apply_level mariko_cpu_uv_low_table mariko_cpu_uv_high_table
mariko_tunings cpu_hz low high tbreak t =
    let at_low = apply_level mariko_cpu_uv_low_table low t in
    if ltb cpu_hz tbreak && (truthy low || truthy high)
    then at_low
    else at_low >>= apply_level mariko_cpu_uv_high_table high

-- `cached` is what the registers held at start.
unfoldable pub erista_tunings : Tunes → ℕ → ℕ → ℕ → Tunes → Option Tunes
unfolding apply_level erista_cpu_uv_table
erista_tunings cached cpu_hz low tbreak t =
    let tuned = apply_level erista_cpu_uv_table low t in
    if ltb cpu_hz tbreak || not (truthy low) then some cached else tuned

unfoldable pub set_dfll_tunings : SocType → Tunes → ℕ → ℕ → ℕ → ℕ → Tunes → Option Tunes
unfolding mariko_tunings erista_tunings
set_dfll_tunings mariko cached cpu_hz low high tbreak t = mariko_tunings cpu_hz low high tbreak t
set_dfll_tunings erista cached cpu_hz low high tbreak t = erista_tunings cached cpu_hz low tbreak t

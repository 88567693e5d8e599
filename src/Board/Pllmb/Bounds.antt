-- ===== src/Board/Pllmb/Bounds.antt =====
-- The greatest clock that the registers can give.
use horizon_oc.Prelude.{
  All, ◌≡◌, ◌==◌, ◌||◌, u64, ℕ, ◌+◌, ◌*◌, ◌/◌, ◌≤◌, ◌<◌, refl, Bool, List, [], ◌∷◌, Bool-cases, inl,
  inr, arith,
}
use native.Mathlib.Nat.{div-le_self, div-mul-le_self, mul-le-mul_left}
use horizon_oc.Board.Pllmb.{
  PllDesc, pll_rate_from_desc, rate_in, pll_table, emc_source, EmcSource, pll, clk_m, clock_of,
  get_ram_clock_rate_pllmb, extract, osc_hz, pdiv,
}

half_le : (a b : ℕ) → a / (b + 2) * 2 ≤ a
half_le a b = omega (
  arith,
  mul-le-mul_left {m = 2} {n = b + 2} (a / (b + 2)) (omega arith),
  div-mul-le_self a (b + 2),
)

pll_rate_from_desc-le :
    (registers : ℕ → ℕ) (p : PllDesc) (undivided : Bool)
    → p.divn_width ≡ 8
    → pll_rate_from_desc registers p undivided ≤ osc_hz * 255
unfolding pll_rate_from_desc
pll_rate_from_desc-le registers p undivided width =
    let base = registers p.base_offset in
    let divm = extract base p.divm_shift p.divm_width in
    let divn = extract base p.divn_shift p.divn_width in
    let vco = u64 (osc_hz * divn) / divm in
    let n_small : divn < 256 = rw width (ground arith) in
    let vco_le : vco ≤ osc_hz * 255 =
      omega (arith, div-le_self (u64 (osc_hz * divn)) divm, n_small) in
    elim (Bool-cases ((divm == 0) || (divn == 0))) [
      | inl off ↦ rw off (omega arith)
      | inr on ↦ elim (Bool-cases undivided) [
        | inl direct ↦ rw (on, direct) vco_le
        | inr divided ↦
            rw (on, divided)
              (omega (
                arith,
                div-le_self vco (pdiv p.ptype (extract base p.divp_shift p.divp_width)),
                vco_le,
              ))
      ]
    ]

rate_in-le :
    (registers : ℕ → ℕ) (plls : List PllDesc) (offset : ℕ) (undivided : Bool)
    → All (λ p. p.divn_width ≡ 8) plls
    → rate_in registers plls offset undivided ≤ osc_hz * 255
unfolding rate_in
rate_in-le registers [] offset undivided all = omega arith
rate_in-le registers (p ∷ plls) offset undivided (width, all) =
    elim (Bool-cases (p.base_offset == offset)) [
      | inl here ↦ rw here (pll_rate_from_desc-le registers p undivided width)
      | inr later ↦ rw later (rate_in-le registers plls offset undivided all)
    ]

rows_narrow : All (λ p. p.divn_width ≡ 8) pll_table
rows_narrow = (
  refl,
  (
    refl,
    (
      refl,
      (
        refl,
        (refl, (refl, (refl, (refl, (refl, (refl, (refl, (refl, (refl, (refl, (refl, tt))))))))))),
      ),
    ),
  ),
)

clock_of-le :
    (registers : ℕ → ℕ) (div : ℕ) (source : EmcSource)
    → clock_of registers div source ≤ osc_hz * 255
clock_of-le registers div clk_m = omega arith
clock_of-le registers div (pll offset undivided) =
    let rate = rate_in registers pll_table offset undivided in
    omega (arith, half_le rate div, rate_in-le registers pll_table offset undivided rows_narrow)

-- Whatever the registers hold, the clock is at most 255 times the one of the crystal.
get_ram_clock_rate_pllmb-le :
    (registers : ℕ → ℕ) → get_ram_clock_rate_pllmb registers ≤ osc_hz * 255
unfolding get_ram_clock_rate_pllmb
get_ram_clock_rate_pllmb-le registers =
    clock_of-le registers (extract (registers 0x19c) 0 8)
      (emc_source (extract (registers 0x19c) 29 3))

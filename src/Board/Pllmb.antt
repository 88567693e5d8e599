-- ===== src/Board/Pllmb.antt =====
-- board/pllmb.cpp: the clock of the memory, computed from the registers of the clock controller.
pub mod Bounds
use horizon_oc.Prelude.{
  ◌==◌, ltb, ◌||◌, if◌then◌else◌, get_or, u64, ℕ, ◌+◌, ◌*◌, ◌/◌, ◌%◌, ◌^◌, Bool, true, false, List,
  [], ◌∷◌,
}

abbrev pub qlin_hw_to_pdiv : List ℕ
qlin_hw_to_pdiv = 1 ∷ 2 ∷ 3 ∷ 4 ∷ 5 ∷ 6 ∷ 8 ∷ 9 ∷ 10 ∷ 12 ∷ 15 ∷ 16 ∷ 18 ∷ 20 ∷ 24 ∷ 30 ∷ 32 ∷ []

pub data PdivType : Type 0 where
  pdiv_qlin : PdivType
  pdiv_pow2 : PdivType

pub record PllDesc : Type 0 where
  pub base_offset : ℕ
  pub divm_shift : ℕ
  pub divm_width : ℕ
  pub divn_shift : ℕ
  pub divn_width : ℕ
  pub divp_shift : ℕ
  pub divp_width : ℕ
  pub ptype : PdivType

-- A row of the table: M and its width are the same for all.
abbrev pub desc : ℕ → ℕ → ℕ → ℕ → PdivType → PllDesc
desc offset divn_shift divp_shift divp_width ptype = record {
  base_offset = offset;
  divm_shift = 0;
  divm_width = 8;
  divn_shift = divn_shift;
  divn_width = 8;
  divp_shift = divp_shift;
  divp_width = divp_width;
  ptype = ptype;
}

abbrev pub pll_table : List PllDesc
pll_table =
    desc 0x090 8 20 5 pdiv_qlin
    ∷ desc 0x5e8 8 20 5 pdiv_qlin
    ∷ desc 0x0a0 8 20 5 pdiv_pow2
    ∷ desc 0x0b0 8 20 5 pdiv_pow2
    ∷ desc 0x0c0 8 20 5 pdiv_pow2
    ∷ desc 0x0d0 8 20 5 pdiv_pow2
    ∷ desc 0x0e0 8 20 5 pdiv_qlin
    ∷ desc 0x6a4 8 20 5 pdiv_qlin
    ∷ desc 0x590 8 20 5 pdiv_qlin
    ∷ desc 0x4b8 8 20 5 pdiv_qlin
    ∷ desc 0x5a4 8 20 5 pdiv_qlin
    ∷ desc 0x4c4 8 16 4 pdiv_qlin
    ∷ desc 0x080 10 20 5 pdiv_qlin
    ∷ desc 0x4e8 10 20 5 pdiv_qlin
    ∷ desc 0x4fc 10 20 5 pdiv_qlin
    ∷ []

abbrev pub osc_hz : ℕ
osc_hz = 38400000

-- The field of a register.
abbrev pub extract : ℕ → ℕ → ℕ → ℕ
extract val shift width = val / 2 ^ shift % 2 ^ width

-- What the field of P divides by.
abbrev pub pdiv : PdivType → ℕ → ℕ
pdiv pdiv_qlin hw_p = if ltb hw_p 17 then get_or qlin_hw_to_pdiv hw_p 1 else 1
pdiv pdiv_pow2 hw_p = 2 ^ hw_p

-- The rate of a PLL. The registers are a function of their offsets.
unfoldable pub pll_rate_from_desc : (ℕ → ℕ) → PllDesc → Bool → ℕ
pll_rate_from_desc registers pll undivided =
    let base = registers pll.base_offset in
    let divm = extract base pll.divm_shift pll.divm_width in
    let divn = extract base pll.divn_shift pll.divn_width in
    let vco = u64 (osc_hz * divn) / divm in
    if (divm == 0) || (divn == 0)
    then 0
    else if undivided
    then vco
    else vco / pdiv pll.ptype (extract base pll.divp_shift pll.divp_width)

-- The loop over the table.
unfoldable pub rate_in : (ℕ → ℕ) → List PllDesc → ℕ → Bool → ℕ
unfolding pll_rate_from_desc
rate_in registers [] base_offset undivided = 0
rate_in registers (pll ∷ plls) base_offset undivided =
    let rest = rate_in registers plls base_offset undivided in
    if pll.base_offset == base_offset then pll_rate_from_desc registers pll undivided else rest

abbrev pub pll_rate_by_offset : (ℕ → ℕ) → ℕ → Bool → ℕ
pll_rate_by_offset registers base_offset undivided =
    rate_in registers pll_table base_offset undivided

-- What `src` selects.
pub data EmcSource : Type 0 where
  pll : ℕ → Bool → EmcSource
  clk_m : EmcSource

-- The switch on `src`, whose three bits leave nothing for its default.
unfoldable pub emc_source : ℕ → EmcSource
emc_source src =
    if src == 0
    then pll 0x090 false
    else if src == 4
    then pll 0x090 true
    else if src == 6
    then pll 0x5e8 false
    else if src == 5
    then pll 0x5e8 true
    else if src == 2
    then pll 0x0a0 false
    else if src == 7
    then pll 0x0a0 true
    else if src == 1
    then pll 0x080 false
    else clk_m

-- The clock from what is selected and the divider, in halves above 2.
abbrev pub clock_of : (ℕ → ℕ) → ℕ → EmcSource → ℕ
clock_of registers div (pll offset undivided) =
    pll_rate_by_offset registers offset undivided / (div + 2) * 2
clock_of registers div clk_m = osc_hz

unfoldable pub get_ram_clock_rate_pllmb : (ℕ → ℕ) → ℕ
unfolding rate_in emc_source
get_ram_clock_rate_pllmb registers =
    let clk_src = registers 0x19c in
    clock_of registers (extract clk_src 0 8) (emc_source (extract clk_src 29 3))

-- ===== src/Loader/Pcv/Cvb/Offset.antt =====
-- The voltage that `GpuFreqCvbTable` leaves in a row of the GPU table.
use horizon_oc.Prelude.{
  get_or, Bool-cases, ◌==◌, truthy, if◌then◌else◌, u32, ℕ, zero, suc, ◌+◌, ◌*◌, ◌%◌, ◌^◌, ◌<◌, ◌≤◌,
  ◌≡◌, ◌⊎◌, inl, inr, refl, ap, ◌∙◌, true, false, ◌&&◌, not, List, [], ◌∷◌, arith,
}
use horizon_oc.Loader.Memory.{Memory}
use horizon_oc.Loader.Customize.{CustomizeTable, CvbEntry}
use horizon_oc.Loader.Pcv.Tables.{get_dvfs_table_entry_count}
use horizon_oc.Loader.Pcv.Cvb.{
  lowered, patch_gpu_volt, patch_gpu_volts, lower_gpu_volts, table_head, is_default_table,
  replace_table, gpu_freq_cvb_table,
}

-- `c0` of a row after the first loop: the voltage of the settings, or the stock one less the offset.
abbrev pub row_volt : CustomizeTable → ℕ → ℕ → ℕ
row_volt c volt c0 = if not (volt == 0) then u32 (volt * 1000) else lowered c c0

patch_gpu_volt-here :
    (c : CustomizeTable) (volt entry : ℕ) (m : Memory)
    → patch_gpu_volt c volt entry m (entry + 8) ≡ row_volt c volt (m (entry + 8))
patch_gpu_volt-here c volt entry m = elim (Bool-cases (volt == 0)) [
  | inl stock ↦ rw stock (ground arith)
  | inr set ↦ rw set (ground arith)
]

patch_gpu_volt-there :
    (c : CustomizeTable) (volt entry : ℕ) (m : Memory) (a : ℕ)
    → (a < entry) ⊎ (entry + 14 ≤ a)
    → patch_gpu_volt c volt entry m a ≡ m a
patch_gpu_volt-there c volt entry m a far = elim (Bool-cases (volt == 0)) [
  | inl stock ↦ rw stock (ground arith)
  | inr set ↦ rw set (ground arith)
]

patch_gpu_volts-before :
    (c : CustomizeTable) (n entry : ℕ) (volts : List ℕ) (m : Memory) (a : ℕ)
    → a < entry
    → patch_gpu_volts c n entry volts m a ≡ m a
unfolding patch_gpu_volts
patch_gpu_volts-before c zero entry volts m a h = refl
patch_gpu_volts-before c (suc n) entry [] m a h =
    patch_gpu_volts-before c n (entry + 14) [] (patch_gpu_volt c 0 entry m) a (omega arith)
    ∙ patch_gpu_volt-there c 0 entry m a (inl h)
patch_gpu_volts-before c (suc n) entry (v ∷ volts) m a h =
    patch_gpu_volts-before c n (entry + 14) volts (patch_gpu_volt c v entry m) a (omega arith)
    ∙ patch_gpu_volt-there c v entry m a (inl h)

patch_gpu_volts-row :
    (c : CustomizeTable) (n entry : ℕ) (volts : List ℕ) (m : Memory) (i : ℕ)
    → i < n
    → patch_gpu_volts c n entry volts m (entry + 14 * i + 8)
      ≡ row_volt c (get_or volts i 0) (m (entry + 14 * i + 8))
unfolding patch_gpu_volts
patch_gpu_volts-row c zero entry volts m i h = absurd (omega arith)
patch_gpu_volts-row c (suc n) entry [] m zero h =
    let here : entry + 14 * 0 + 8 ≡ entry + 8 = omega arith in
    rw here (
      patch_gpu_volts-before c n (entry + 14) [] (patch_gpu_volt c 0 entry m) (entry + 8)
        (omega arith)
      ∙ patch_gpu_volt-here c 0 entry m)
patch_gpu_volts-row c (suc n) entry (v ∷ volts) m zero h =
    let here : entry + 14 * 0 + 8 ≡ entry + 8 = omega arith in
    rw here (
      patch_gpu_volts-before c n (entry + 14) volts (patch_gpu_volt c v entry m) (entry + 8)
        (omega arith)
      ∙ patch_gpu_volt-here c v entry m)
patch_gpu_volts-row c (suc n) entry [] m (suc i) h =
    let there : entry + 14 * suc i + 8 ≡ entry + 14 + 14 * i + 8 = omega arith in
    rw there (
      patch_gpu_volts-row c n (entry + 14) [] (patch_gpu_volt c 0 entry m) i (omega arith)
      ∙ ap (row_volt c 0) (patch_gpu_volt-there c 0 entry m _ (inr (omega arith))))
patch_gpu_volts-row c (suc n) entry (v ∷ volts) m (suc i) h =
    let there : entry + 14 * suc i + 8 ≡ entry + 14 + 14 * i + 8 = omega arith in
    rw there (
      patch_gpu_volts-row c n (entry + 14) volts (patch_gpu_volt c v entry m) i (omega arith)
      ∙ ap (row_volt c (get_or volts i 0)) (patch_gpu_volt-there c v entry m _ (inr (omega arith))))

lower_gpu_volts-before :
    (c : CustomizeTable) (n entry : ℕ) (m : Memory) (a : ℕ)
    → a < entry
    → lower_gpu_volts c n entry m a ≡ m a
unfolding lower_gpu_volts
lower_gpu_volts-before c zero entry m a h = refl
lower_gpu_volts-before c (suc n) entry m a h =
    lower_gpu_volts-before c n (entry + 14) _ a (omega arith) ∙ ground arith

lower_gpu_volts-row :
    (c : CustomizeTable) (n entry : ℕ) (m : Memory) (i : ℕ)
    → i < n
    → lower_gpu_volts c n entry m (entry + 14 * i + 8) ≡ lowered c (m (entry + 14 * i + 8))
unfolding lower_gpu_volts
lower_gpu_volts-row c zero entry m i h = absurd (omega arith)
lower_gpu_volts-row c (suc n) entry m zero h =
    let here : entry + 14 * 0 + 8 ≡ entry + 8 = omega arith in
    rw here (lower_gpu_volts-before c n (entry + 14) _ (entry + 8) (omega arith) ∙ ground arith)
lower_gpu_volts-row c (suc n) entry m (suc i) h =
    let there : entry + 14 * suc i + 8 ≡ entry + 14 + 14 * i + 8 = omega arith in
    let other : (entry + 14 + 14 * i + 8 == entry + 8) ≡ false = ground arith in
    rw there (lower_gpu_volts-row c n (entry + 14) _ i (omega arith) ∙ rw other refl)

lowered-less :
    (c : CustomizeTable) (v : ℕ)
    → (lowered c v + 1000 * c.common_gpu_volt_offset) % 2 ^ 32 ≡ v % 2 ^ 32
lowered-less c v = omega arith

lowered-twice :
    (c : CustomizeTable) (v : ℕ)
    → (lowered c (lowered c v) + 2000 * c.common_gpu_volt_offset) % 2 ^ 32 ≡ v % 2 ^ 32
lowered-twice c v =
    let once = lowered-less c v in
    let twice = lowered-less c (lowered c v) in omega (arith, once, twice)

-- How often the offset is taken off: from a voltage of the table once, and with undervolt level 0
-- once more, from a voltage of the settings too.
abbrev pub times_lowered : ℕ → ℕ → ℕ
times_lowered uv volt = (if volt == 0 then 1 else 0) + (if uv == 0 then 1 else 0)

-- The voltage in microvolts to start from: that of the settings, or the one of the table.
abbrev pub first_volt : ℕ → ℕ → ℕ
first_volt volt c0 = if volt == 0 then c0 else 1000 * volt

row_volt-less :
    (c : CustomizeTable) (volt c0 : ℕ)
    → (row_volt c volt c0 + 1000 * c.common_gpu_volt_offset * (if volt == 0 then 1 else 0)) % 2 ^ 32
      ≡ first_volt volt c0 % 2 ^ 32
row_volt-less c volt c0 = elim (Bool-cases (volt == 0)) [
  | inl stock ↦ rw stock (omega (arith, lowered-less c c0))
  | inr set ↦ rw set (omega arith)
]

-- The voltage once more lowered, or not.
again-less :
    (c : CustomizeTable) (uv volt c0 v : ℕ)
    → v ≡ (
        if truthy c.common_gpu_volt_offset && not (truthy uv)
        then lowered c (row_volt c volt c0)
        else row_volt c volt c0)
    → (v + 1000 * c.common_gpu_volt_offset * times_lowered uv volt) % 2 ^ 32
      ≡ first_volt volt c0 % 2 ^ 32
again-less c uv volt c0 v e =
    let o = c.common_gpu_volt_offset in
    let once = row_volt-less c volt c0 in
    let more = lowered-less c (row_volt c volt c0) in
    elim (Bool-cases (truthy o && not (truthy uv))) [
      | inl go ↦
          let level : (uv == 0) ≡ true = ground (arith, go) in
          let here : v ≡ lowered c (row_volt c volt c0) = e ∙ rw go refl in
          elim (Bool-cases (volt == 0)) [
            | inl stock ↦
                rw (level, stock)
                  (omega (arith, here, rw stock at once, more, rw stock at more, rw stock at here))
            | inr set ↦
                rw (level, set) (omega (arith, rw set at once, rw set at more, rw set at here))
          ]
      | inr stay ↦
          let here : v ≡ row_volt c volt c0 = e ∙ rw stay refl in
          elim (Bool-cases (uv == 0)) [
            | inl level ↦
                let nothing : o ≡ 0 = ground (arith, stay, level) in
                elim (Bool-cases (volt == 0)) [
                  | inl stock ↦
                      rw (level, stock) (omega (arith, nothing, rw stock at once, rw stock at here))
                  | inr set ↦
                      rw (level, set) (omega (arith, nothing, rw set at once, rw set at here))
                ]
            | inr other ↦ elim (Bool-cases (volt == 0)) [
              | inl stock ↦ rw (other, stock) (omega (arith, rw stock at once, rw stock at here))
              | inr set ↦ rw (other, set) (omega (arith, rw set at once, rw set at here))
            ]
          ]
    ]

-- What `GpuFreqCvbTable` leaves in each row of the table that it has put in place of the stock one:
-- the voltage of the settings, or the one of the table, in 32-bit arithmetic less the offset as
-- often as it is taken off: from the one of the table once, and with undervolt level 0 once more,
-- also from the one of the settings.
pub gpu_freq_cvb_table-row :
    (default_table table : List CvbEntry) (volts : List ℕ) (uv : ℕ) (c : CustomizeTable) (ptr : ℕ)
    (m : Memory) (i : ℕ)
    → is_default_table default_table ptr m ≡ true
    → i < get_dvfs_table_entry_count table
    → let at_row = table_head default_table ptr + 14 * i + 8 in
      let volt = get_or volts i 0 in
      ((gpu_freq_cvb_table default_table table volts uv c ptr m).1 at_row
          + 1000 * c.common_gpu_volt_offset * times_lowered uv volt)
        % 2 ^ 32
      ≡ first_volt volt (replace_table default_table table ptr m at_row) % 2 ^ 32
unfolding gpu_freq_cvb_table
gpu_freq_cvb_table-row default_table table volts uv c ptr m i found h =
    let head = table_head default_table ptr in
    let count = get_dvfs_table_entry_count table in
    let replaced = replace_table default_table table ptr m in
    let volt = get_or volts i 0 in
    let row = patch_gpu_volts-row c count head volts replaced i h in
    let low = lower_gpu_volts-row c count head (patch_gpu_volts c count head volts replaced) i h in
    again-less c uv volt (replaced (head + 14 * i + 8)) _
      (elim (Bool-cases (truthy c.common_gpu_volt_offset && not (truthy uv))) [
        | inl go ↦ rw (found, go) (low ∙ ap (lowered c) row)
        | inr skip ↦ rw (found, skip) row
      ])

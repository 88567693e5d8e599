-- ===== src/Kip.antt =====
-- hoc-clk/sysmodule/src/kip.cpp: the settings of the patched loader, which stand in the file
-- hoc.kip, against the configuration. The file is a parameter: whether it opens, reads and writes,
-- and its checksum after the commands so far.
pub mod Checksum
use horizon_oc.Prelude.{
  leb, ◌==◌, if◌then◌else◌, truthy, u32, ℕ, Bool, true, false, not, ◌&&◌, List,
}
use horizon_oc.Config.Values.{
  ConfigValue, cust_rev, hp_mode, gpu_speedo, t7_twtr_fine_tune, kip_crc32, is_first_load,
  value_rank,
}
use horizon_oc.Config.Ini.{IniFile, PutSection}
use horizon_oc.Config.Load.{refresh, write_value}
use horizon_oc.Config.Save.{set_config_values}
use horizon_oc.ClockManager.State.{Sys, Cmd, write_kip, issue, config_value}

-- What the file answers. `table` is the field of `CustomizeTable` that is named like the value.
pub record KipFile : Type 0 where
  pub opens : Bool
  pub reads : Bool
  pub writes : Bool
  pub table : ConfigValue → ℕ
  pub checksum : List Cmd → ℕ

-- The enumerators from `KipConfigValue_custRev` to `KipConfigValue_t7_tWTR_fine_tune` name the
-- fields of the table.
abbrev pub is_field : ConfigValue → Bool
is_field k =
    leb (value_rank cust_rev) (value_rank k) && leb (value_rank k) (value_rank t7_twtr_fine_tune)

-- The fields that `SetKipData` writes, each a `u32`; the rest of the table stays.
unfoldable pub written_table : KipFile → (ConfigValue → ℕ) → ConfigValue → ℕ
written_table kip values = λ k. if is_field k then u32 (values k) else kip.table k

-- The process after the write of the table.
unfoldable pub wrote : KipFile → Sys → Sys
unfolding written_table
wrote kip s = if kip.writes then issue s (write_kip (written_table kip s.config.values)) else s

-- The values that are saved, with the checksum of the file as it is then.
unfoldable pub saved_sums : KipFile → Sys → ConfigValue → ℕ
unfolding wrote
saved_sums kip s = write_value s.config.values kip_crc32 (kip.checksum (wrote kip s).log)

-- `SetKipData`; a table that cannot be written does not stop it.
unfoldable pub set_kip_data : PutSection → KipFile → IniFile → Sys → IniFile × Sys
unfolding saved_sums
set_kip_data put_section kip f s =
    let (f', config, ok) = set_config_values put_section (saved_sums kip s) false f s.config in
    if not kip.opens
    then (f, record s { kip_available = false })
    else if not kip.reads
    then (f, record s { kip_available = true })
    else (f', record (wrote kip s) { kip_available = true; config = config })

-- The values that `GetKipData` saves; the speedo comes from the fuses.
unfoldable pub read_values : KipFile → ℕ → List Cmd → (ConfigValue → ℕ) → ConfigValue → ℕ
read_values kip speedo log values = λ k.
    if value_rank k == value_rank gpu_speedo
    then speedo
    else if value_rank k == value_rank kip_crc32
    then kip.checksum log
    else if value_rank k == value_rank is_first_load && values k == 1
    then 0
    else if leb (value_rank hp_mode) (value_rank k) && is_field k
    then kip.table k
    else values k

-- `GetKipData`, after `config::Refresh`: only a change of the configuration file leads on.
unfoldable pub get_kip_data : PutSection → KipFile → ℕ → IniFile → Sys → IniFile × Sys
unfolding read_values set_kip_data
get_kip_data put_section kip speedo f s =
    let (config, changed) = refresh f s.config in
    let a = record s { config = config } in
    let b = record a { kip_available = true } in
    let updated =
      not (kip.checksum a.log == config_value a kip_crc32)
      && not (truthy (config_value a is_first_load)) in
    let (f', saved, ok) =
      set_config_values put_section (read_values kip speedo a.log config.values) false f config in
    if not changed
    then (f, a)
    else if not kip.opens
    then (f, record a { kip_available = false })
    else if not kip.reads
    then (f, b)
    else if updated
    then set_kip_data put_section kip f b
    else (f', record b { config = saved })

-- ===== src/Tests/World.antt =====
-- A board, a state of the process and a file for the examples.
use horizon_oc.Prelude.{
  keep-true, keep-false, ◌∙◌, ◌==◌, keep, negsuc, ℕ, zero, suc, ◌≡◌, refl, ap, Bool, true, false,
  Option, none, some, List, [], ◌∷◌, ◌++◌, arith, pos,
}
use horizon_oc.Prelude.Text.{text_eq, Text}
use horizon_oc.Board.Types.{mariko, iowa, Module, cpu, gpu, mem, handheld, fill}
use horizon_oc.Config.Store.{initialize, Config}
use horizon_oc.Config.Ini.{
  Entry, IniFile, PutSection, WritesSection, in_section, not_in_section, to_entries,
}
use horizon_oc.ClockManager.State.{Hw, Sys, Context, FreqTable, GovernorFlags}
use horizon_oc.ClockManager.Tables.{IsTable, Rises}
use horizon_oc.ClockManager.Tick.Total.{AllTables}
use horizon_oc.Kip.{KipFile}

abbrev pub three_clocks : FreqTable
three_clocks = record { count = 3; list = 614400000 ∷ 768000000 ∷ 921600000 ∷ 0 ∷ [] }

pub three_clocks-IsTable : IsTable three_clocks
three_clocks-IsTable = record { used = omega arith; word = omega arith; fits = omega arith }

pub three_clocks-Rises : Rises three_clocks
three_clocks-Rises zero lt = omega arith
three_clocks-Rises (suc zero) lt = omega arith
three_clocks-Rises (suc (suc i)) lt = absurd (omega arith)

abbrev hz_of : Module → ℕ
hz_of cpu = 1020000000
hz_of gpu = 768000000
hz_of mem = 1600000000
hz_of _ = 60

abbrev pub board : Hw
board = record {
  soc_type = mariko;
  console_type = iowa;
  gpu_speedo_bracket = 1;
  get_freq_list = λ m. [];
  get_hz = λ log m. hz_of m;
  get_real_hz = λ log m. hz_of m;
  get_power_mw = λ log p. negsuc 8999;
  get_temperature_milli = λ log t. 40000;
  tmp451_temp_soc = λ log. pos 40000;
  get_part_load = λ log l. 500;
  get_voltage = λ log v. 800000;
  gpu_mv_out = λ log. 700;
  performance_configuration = λ log. some 0;
  current_application_id = λ log. 42;
  get_profile = λ log. handheld;
  system_ns = λ log. 5000000;
  salty_nx_fps = λ log. 30;
  salty_nx_resolution_height = λ log. 720;
  is_application_out_of_focus = λ log. some false;
}

abbrev pub context : Context
context = record {
  application_id = 42;
  profile = handheld;
  freqs = fill 0;
  real_freqs = fill 0;
  override_freqs = fill 0;
  temps = λ t. 0;
  power = λ p. pos 0;
  part_load = λ l. 0;
  voltages = λ v. 0;
  is_salty_nx_installed = true;
  fps = 254;
  resolution_height = 0;
}

abbrev pub all_on : GovernorFlags
all_on = record {
  is_cpu_governor_enabled = true;
  is_gpu_governor_enabled = true;
  is_vrr_enabled = true;
  last_cpu_governor_state = true;
  last_gpu_governor_state = true;
  last_vrr_governor_state = true;
}

abbrev pub loaded : Config
loaded = record initialize { loaded = true }

abbrev pub process : Sys
process = record {
  config = loaded;
  context = context;
  tables = fill three_clocks;
  flags = all_on;
  running = true;
  kip_available = false;
  last_temp_log_ns = 0;
  last_freq_log_ns = 0;
  last_power_log_ns = 0;
  last_csv_write_ns = 0;
  misc_tick = 0;
  log = [];
}

pub process-AllTables : AllTables process
process-AllTables = record {
  cpu_table = three_clocks-IsTable;
  gpu_table = three_clocks-IsTable;
  mem_table = three_clocks-IsTable;
}

abbrev pub empty_file : IniFile
empty_file = record { mtime = 7; entries = some [] }

-- A writer of sections: the other entries, then those of the section.
abbrev after_put : Text → List (Text × Text) → Option (List Entry) → Option IniFile
after_put section kvs none = none
after_put section kvs (some old) = some (record {
  mtime = 8;
  entries = some (keep (not_in_section section) old ++ to_entries section kvs);
})

abbrev pub put_last : PutSection
put_last section kvs f = after_put section kvs f.entries

text_eq_self : (t : Text) → text_eq t t ≡ true
unfolding text_eq
text_eq_self [] = refl
text_eq_self (c ∷ cs) = let same : (c == c) ≡ true = ground arith in rw same (text_eq_self cs)

keep-append {ℓ} :
    {A : Type ℓ} (p : A → Bool) (xs ys : List A) → keep p (xs ++ ys) ≡ keep p xs ++ keep p ys
keep-append p [] ys = refl
keep-append p (x ∷ xs) ys = ground (arith, keep-append p xs ys)

in_others :
    (section : Text) (es : List Entry)
    → keep (in_section section) (keep (not_in_section section) es) ≡ []
in_others section [] = refl
in_others section (e ∷ es) = ground (arith, in_others section es)

others_twice :
    (section : Text) (es : List Entry)
    → keep (not_in_section section) (keep (not_in_section section) es)
      ≡ keep (not_in_section section) es
others_twice section [] = refl
others_twice section (e ∷ es) = ground (arith, others_twice section es)

in_own :
    (section : Text) (kvs : List (Text × Text))
    → keep (in_section section) (to_entries section kvs) ≡ to_entries section kvs
in_own section [] = refl
in_own section ((k, v) ∷ kvs) =
    keep-true (in_section section) (record { section = section; key = k; value = v })
      (to_entries section kvs) (text_eq_self section)
    ∙ ap (λ es. record { section = section; key = k; value = v } ∷ es) (in_own section kvs)

others_own :
    (section : Text) (kvs : List (Text × Text))
    → keep (not_in_section section) (to_entries section kvs) ≡ []
others_own section [] = refl
others_own section ((k, v) ∷ kvs) =
    keep-false (not_in_section section) (record { section = section; key = k; value = v })
      (to_entries section kvs) (rw (text_eq_self section))
    ∙ others_own section kvs

append_nil {ℓ} : {A : Type ℓ} (xs : List A) → xs ++ [] ≡ xs
append_nil [] = refl
append_nil (x ∷ xs) = ap (λ ys. x ∷ ys) (append_nil xs)

written_by :
    (section : Text) (kvs : List (Text × Text)) (o : Option (List Entry)) (f' : IniFile)
    (old : List Entry)
    → o ≡ some old
    → after_put section kvs o ≡ some f'
    → (new : List Entry) × (f'.entries ≡ some new)
      × (keep (in_section section) new ≡ to_entries section kvs)
      × (keep (not_in_section section) new ≡ keep (not_in_section section) old)
written_by section kvs none f' old e put = cc
written_by section kvs (some es) f' old e put = (
  keep (not_in_section section) old ++ to_entries section kvs,
  cc,
  rw (keep-append, in_others, in_own),
  rw (keep-append, others_twice, others_own) (append_nil _),
)

pub put_last-WritesSection : WritesSection put_last
put_last-WritesSection = record {
  written = λ section kvs f f' old e put. written_by section kvs f.entries f' old e put;
}

abbrev pub kip_file : KipFile
kip_file = record {
  opens = true;
  reads = true;
  writes = true;
  table = λ k. 3;
  checksum = λ log. 305419896;
}

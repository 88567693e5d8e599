-- ===== src/Config/Save/Values.antt =====
-- What is read back after `SetConfigValues`, and what `SetConfigValue` loses.
use horizon_oc.Prelude.{
  sym, ◌∙◌, ◌≢◌, Bool, true, ◌||◌, some, ◌==◌, ==_iff, Bool-cases, keep, keep-true, keep-false, ◌^◌,
  ◌<◌, ◌≡◌, refl, ap, inl, inr, false, List, [], ◌∷◌, map, arith,
}
use horizon_oc.Prelude.Text.{Text, codes, to_string, strtoul}
use horizon_oc.Prelude.Text.RoundTrip.{strtoul-to_string}
use horizon_oc.Config.Values.{ConfigValue, all_values, default_config_value, value_rank}
use horizon_oc.Config.Keys.{format_config_value}
use horizon_oc.Config.Store.{Config}
use horizon_oc.Config.Ini.{Entry, IniFile, PutSection, WritesSection, to_entries}
use horizon_oc.Config.Load.{config_val_section, find_value, write_value, checked_value, load}
use horizon_oc.Config.Load.Keys.{find_value-key}
use horizon_oc.Config.Load.Values.{
  Values, value_step, value_fold, load-values, value_rank_injective,
}
use horizon_oc.Config.Save.{is_saved, value_line}

-- The value that the code keeps of `v k`.
abbrev pub target : Values → Values
target v k = checked_value k (v k)

abbrev pub line_entry : Values → ConfigValue → Entry
line_entry v k = record {
  section = config_val_section;
  key = codes (format_config_value k);
  value = to_string (v k);
}

found_step :
    (v0 : Values) (e : Entry) (k : ConfigValue)
    → find_value e.key all_values ≡ some k
    → value_step v0 e ≡ write_value v0 k (checked_value k (strtoul e.value 0))
unfolding value_step
found_step v0 e k h = rw (h, value_step)

-- The written line of a value writes its target.
pub line_step :
    (v v0 : Values) (k : ConfigValue)
    → v k < 2 ^ 64
    → value_step v0 (line_entry v k) ≡ write_value v0 k (target v k)
line_step v v0 k small =
    found_step v0 (line_entry v k) k (find_value-key k)
    ∙ ap (λ n. write_value v0 k (checked_value k n)) (strtoul-to_string 0 (v k) (inl refl) small)

-- A value that is not saved has its default for a target.
not_saved :
    (v : Values) (k : ConfigValue) → is_saved v k ≡ false → target v k ≡ default_config_value k
unfolding is_saved checked_value
not_saved v k h = ground (arith, h)

write-keeps :
    (v v0 : Values) (j k : ConfigValue)
    → v0 k ≡ target v k
    → write_value v0 j (target v j) k ≡ target v k
write-keeps v v0 j k e = elim (Bool-cases (value_rank j == value_rank k)) [
  | inl same ↦
      let eq : j ≡ k = value_rank_injective j k ((==_iff _ _).0 same) in rw same (ap (target v) eq)
  | inr other ↦ rw other e
]

abbrev lines : Values → List ConfigValue → List Entry
lines v ks = to_entries config_val_section (map (value_line v) (keep (is_saved v) ks))

-- Once a value has its target, the lines keep it.
fold-keeps :
    (v : Values) (ks : List ConfigValue) (v0 : Values) (k : ConfigValue)
    → ((j : ConfigValue) → v j < 2 ^ 64)
    → v0 k ≡ target v k
    → value_fold v0 (lines v ks) k ≡ target v k
unfolding value_fold
fold-keeps v [] v0 k small e = e
fold-keeps v (j ∷ ks) v0 k small e = elim (Bool-cases (is_saved v j)) [
  | inl h ↦
      rw (keep-true (is_saved v) j ks h, value_fold, line_step v v0 j (small j))
        (fold-keeps v ks (write_value v0 j (target v j)) k small (write-keeps v v0 j k e))
  | inr h ↦ rw (keep-false (is_saved v) j ks h) (fold-keeps v ks v0 k small e)
]

has : List ConfigValue → ConfigValue → Bool
has [] k = false
has (j ∷ ks) k = value_rank j == value_rank k || has ks k

has_all : (k : ConfigValue) → has all_values k ≡ true
unfolding has all_values
has_all ConfigValue.polling_interval_ms = refl
has_all _ = refl

-- The line of a saved value gives it its target.
fold-hits :
    (v : Values) (ks : List ConfigValue) (v0 : Values) (k : ConfigValue)
    → ((j : ConfigValue) → v j < 2 ^ 64)
    → has ks k ≡ true
    → is_saved v k ≡ true
    → value_fold v0 (lines v ks) k ≡ target v k
unfolding value_fold has
fold-hits v [] v0 k small h saved = cc
fold-hits v (j ∷ ks) v0 k small h saved = elim (Bool-cases (value_rank j == value_rank k)) [
  | inl same ↦
      let eq : j ≡ k = value_rank_injective j k ((==_iff _ _).0 same) in
      let sj : is_saved v j ≡ true = rw eq saved in
      rw (keep-true (is_saved v) j ks sj, value_fold, line_step v v0 j (small j))
        (fold-keeps v ks (write_value v0 j (target v j)) k small (rw same (ap (target v) eq)))
  | inr other ↦
      let rest : has ks k ≡ true = ground (arith, h, other) in
      elim (Bool-cases (is_saved v j)) [
        | inl s ↦
            rw (keep-true (is_saved v) j ks s, value_fold, line_step v v0 j (small j))
              (fold-hits v ks (write_value v0 j (target v j)) k small rest saved)
        | inr s ↦ rw (keep-false (is_saved v) j ks s) (fold-hits v ks v0 k small rest saved)
      ]
]

pub fold-target :
    (v : Values) (k : ConfigValue)
    → ((j : ConfigValue) → v j < 2 ^ 64)
    → value_fold default_config_value (lines v all_values) k ≡ target v k
fold-target v k small = elim (Bool-cases (is_saved v k)) [
  | inl s ↦ fold-hits v all_values default_config_value k small (has_all k) s
  | inr s ↦ fold-keeps v all_values default_config_value k small (sym (not_saved v k s))
]

-- The values that a load gives after a write of the section by `put_section`.
pub load-written :
    (put_section : PutSection) (w : WritesSection put_section) (kvs : List (Text × Text))
    (f f' : IniFile) (old : List Entry) (c : Config)
    → f.entries ≡ some old
    → put_section config_val_section kvs f ≡ some f'
    → f'.mtime ≢ 0
    → (load f' c).values ≡ value_fold default_config_value (to_entries config_val_section kvs)
load-written put_section w kvs f f' old c e put nz =
    let (new, there, own, others) = w.written config_val_section kvs f f' old e put in
    load-values f' c new nz there ∙ ap (value_fold default_config_value) own

-- ===== src/Config/Load/Values.antt =====
-- The configuration values after `Load`, as a fold over the entries of their section alone.
use horizon_oc.Prelude.{
  ◌==◌, keep-true, keep-false, Bool-cases, get_elem?, keep, ℕ, ◌≡◌, refl, sym, ap, ◌∙◌, ◌≢◌, inl,
  inr, true, false, none, some, List, [], ◌∷◌, arith,
}
use horizon_oc.Prelude.Text.{Text, strtoul}
use horizon_oc.Config.Values.{
  ConfigValue, all_values, default_config_value, value_rank, polling_interval_ms,
}
use horizon_oc.Config.Store.{Config, close}
use horizon_oc.Config.Ini.{Entry, IniFile, in_section}
use horizon_oc.Config.Load.{
  config_val_section, find_value, write_value, checked_value, browse_value, browse_title,
  browse_entry, browse, load,
}

abbrev pub Values : Type 0
Values = ConfigValue → ℕ

-- What an entry of the section of the values does to the values.
unfoldable pub value_step : Values → Entry → Values
value_step v e = elim (find_value e.key all_values) [
  | none ↦ v
  | some k ↦ write_value v k (checked_value k (strtoul e.value 0))
]

unfoldable pub value_fold : Values → List Entry → Values
value_fold v [] = v
value_fold v (e ∷ es) = value_fold (value_step v e) es

browse_value-values :
    (c : Config) (e : Entry) → (browse_value c e.key e.value).values ≡ value_step c.values e
unfolding browse_value value_step
browse_value-values c e = ground arith

browse_title-values :
    (c : Config) (tid : ℕ) (key value : Text) → (browse_title c tid key value).values ≡ c.values
unfolding browse_title
browse_title-values c tid key value = ground arith

browse_entry-in :
    (c : Config) (e : Entry)
    → in_section config_val_section e ≡ true
    → (browse_entry c e).values ≡ value_step c.values e
unfolding browse_entry
browse_entry-in c e h = rw h (browse_value-values c e)

browse_entry-out :
    (c : Config) (e : Entry)
    → in_section config_val_section e ≡ false
    → (browse_entry c e).values ≡ c.values
unfolding browse_entry
browse_entry-out c e h =
    ground (arith, h, browse_title-values c (strtoul e.section 16) e.key e.value)

fold-entry :
    (c : Config) (e : Entry) (es : List Entry)
    → value_fold (browse_entry c e).values (keep (in_section config_val_section) es)
      ≡ value_fold c.values (keep (in_section config_val_section) (e ∷ es))
unfolding value_fold
fold-entry c e es = elim (Bool-cases (in_section config_val_section e)) [
  | inl h ↦ rw (keep-true (in_section config_val_section) e es h, browse_entry-in c e h)
  | inr h ↦ rw (keep-false (in_section config_val_section) e es h, browse_entry-out c e h)
]

pub browse-values :
    (c : Config) (es : List Entry)
    → (browse c es).values ≡ value_fold c.values (keep (in_section config_val_section) es)
unfolding browse value_fold
browse-values c [] = refl
browse-values c (e ∷ es) = browse-values (browse_entry c e) es ∙ fold-entry c e es

-- The loaded values of a file that can be read.
pub load-values :
    (f : IniFile) (c : Config) (es : List Entry)
    → f.mtime ≢ 0
    → f.entries ≡ some es
    → (load f c).values ≡ value_fold default_config_value (keep (in_section config_val_section) es)
unfolding load close
load-values f c es nz e =
    let there : (f.mtime == 0) ≡ false = ground arith in rw (there, e) (browse-values _ es)

-- Enumerators are told apart by their numbers.
rank_lookup : (k : ConfigValue) → get_elem? all_values (value_rank k) ≡ some k
unfolding all_values
rank_lookup polling_interval_ms = refl
rank_lookup _ = refl

some_eq {ℓ} : {A : Type ℓ} (a b : A) → some a ≡ some b → a ≡ b
some_eq a b e = cc

pub value_rank_injective : (j k : ConfigValue) → value_rank j ≡ value_rank k → j ≡ k
value_rank_injective j k e =
    some_eq j k (sym (rank_lookup j) ∙ ap (get_elem? all_values) e ∙ rank_lookup k)

-- ===== src/Config/Ini.antt =====
-- The configuration file as minIni gives it to config.cpp: the time of its last change, and the
-- entries that `ini_browse` passes to its callback, in order. minIni writes it, so a write is a
-- parameter.
use horizon_oc.Prelude.{keep, ℕ, ◌≡◌, Bool, not, Option, some, List, [], ◌∷◌}
use horizon_oc.Prelude.Text.{Text, text_eq}

pub record Entry : Type 0 where
  pub section : Text
  pub key : Text
  pub value : Text

pub record IniFile : Type 0 where
  pub mtime : ℕ  -- what `CheckModificationTime` returns; 0 where `stat` fails
  pub entries : Option (List Entry)  -- `none`: `ini_browse` fails

abbrev pub in_section : Text → Entry → Bool
in_section section e = text_eq e.section section

abbrev pub not_in_section : Text → Entry → Bool
not_in_section section e = not (text_eq e.section section)

abbrev pub to_entries : Text → List (Text × Text) → List Entry
to_entries section [] = []
to_entries section ((k, v) ∷ kvs) =
    record { section = section; key = k; value = v } ∷ to_entries section kvs

-- `ini_putsection(section, keys, values, path)`: the file after it, or a failure.
abbrev pub PutSection : Type 0
PutSection = Text → List (Text × Text) → IniFile → Option IniFile

-- A write that succeeds leaves exactly the given keys in the section, in their order, and the
-- entries of the other sections as they were.
pub record WritesSection (put_section : PutSection) : Type 0 where
  pub written :
      (section : Text) (kvs : List (Text × Text)) (f f' : IniFile) (old : List Entry)
      → f.entries ≡ some old
      → put_section section kvs f ≡ some f'
      → (new : List Entry) × (f'.entries ≡ some new)
        × (keep (in_section section) new ≡ to_entries section kvs)
        × (keep (not_in_section section) new ≡ keep (not_in_section section) old)

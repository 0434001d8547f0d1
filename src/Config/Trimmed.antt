-- ===== src/Config/Trimmed.antt =====
-- Leaves of crates/server/src/config.rs have no whitespace around them.

use v_note.Base.{
  ◌≡◌, refl, ap, ◌∙◌, Bool, true, false, ◌&&◌, String, List, [], ◌∷◌, if◌then◌else◌, All,
}
use v_note.Base.Whitespace.{is_whitespace, is_empty_text, trim_start, trim_end, trim}
use v_note.Config.Leaves.{
  Value, Table, Items, text, table, array, other, no_entries, entry, no_items, item, trim_value,
  trim_values, trim_items, trimmed_collect,
}

-- A text that does not start with whitespace.
starts_dark : String → Bool
starts_dark String.[] = true
starts_dark (String.◌∷◌ c s) = if is_whitespace c then false else true

trim_start-starts_dark : (s : String) → starts_dark (trim_start s) ≡ true
unfolding starts_dark
trim_start-starts_dark String.[] = refl
trim_start-starts_dark (String.◌∷◌ c s) = by_char (is_whitespace c) refl (trim_start-starts_dark s)
  where
    by_char :
        (b : Bool)
        → is_whitespace c ≡ b
        → starts_dark (trim_start s) ≡ true
        → starts_dark (if b then trim_start s else String.◌∷◌ c s) ≡ true
    by_char true e ih = ih
    by_char false e ih = rw e refl

trim_start_id : (s : String) → starts_dark s ≡ true → trim_start s ≡ s
unfolding starts_dark
trim_start_id String.[] h = refl
trim_start_id (String.◌∷◌ c s) h = by_char (is_whitespace c) h
  where
    by_char :
        (b : Bool)
        → (if b then false else true) ≡ true
        → (if b then trim_start s else String.◌∷◌ c s) ≡ String.◌∷◌ c s
    by_char true h = cc
    by_char false h = refl

trim_end-starts_dark : (s : String) → starts_dark s ≡ true → starts_dark (trim_end s) ≡ true
unfolding starts_dark
trim_end-starts_dark String.[] h = refl
trim_end-starts_dark (String.◌∷◌ c s) h = by_test (is_whitespace c && is_empty_text (trim_end s))
  where
    by_test : (b : Bool) → starts_dark (if b then String.[] else String.◌∷◌ c (trim_end s)) ≡ true
    by_test true = refl
    by_test false = h

trim_end_idem : (s : String) → trim_end (trim_end s) ≡ trim_end s
trim_end_idem String.[] = refl
trim_end_idem (String.◌∷◌ c s) =
    by_test (is_whitespace c && is_empty_text (trim_end s)) refl (trim_end_idem s)
  where
    by_test :
        (b : Bool)
        → (is_whitespace c && is_empty_text (trim_end s)) ≡ b
        → trim_end (trim_end s) ≡ trim_end s
        → trim_end (if b then String.[] else String.◌∷◌ c (trim_end s))
          ≡ (if b then String.[] else String.◌∷◌ c (trim_end s))
    by_test true e ih = refl
    by_test false e ih = rw (ih, e) refl

pub trim_idem : (s : String) → trim (trim s) ≡ trim s
trim_idem s =
    ap trim_end
      (trim_start_id (trim s) (trim_end-starts_dark (trim_start s) (trim_start-starts_dark s)))
    ∙ trim_end_idem (trim_start s)

-- Every text below a value is its own trim.
unfoldable mutual
  pub IsTrimmed : Value → Type 0
  IsTrimmed (text s) = trim s ≡ s
  IsTrimmed (table entries) = AreTrimmed entries
  IsTrimmed (array items) = EachTrimmed items
  IsTrimmed (other n) = Unit

  pub AreTrimmed : Table → Type 0
  AreTrimmed no_entries = Unit
  AreTrimmed (entry key value entries) = IsTrimmed value × AreTrimmed entries

  pub EachTrimmed : Items → Type 0
  EachTrimmed no_items = Unit
  EachTrimmed (item value items) = IsTrimmed value × EachTrimmed items

mutual
  unfolding trim_value trim_values trim_items IsTrimmed AreTrimmed EachTrimmed

  trim_value-IsTrimmed : (value : Value) → IsTrimmed (trim_value value)
  trim_value-IsTrimmed (text s) = trim_idem s
  trim_value-IsTrimmed (table entries) = trim_values-AreTrimmed entries
  trim_value-IsTrimmed (array items) = trim_items-EachTrimmed items
  trim_value-IsTrimmed (other n) = tt

  trim_values-AreTrimmed : (entries : Table) → AreTrimmed (trim_values entries)
  trim_values-AreTrimmed no_entries = tt
  trim_values-AreTrimmed (entry key value entries) =
      (trim_value-IsTrimmed value, trim_values-AreTrimmed entries)

  trim_items-EachTrimmed : (items : Items) → EachTrimmed (trim_items items)
  trim_items-EachTrimmed no_items = tt
  trim_items-EachTrimmed (item value items) =
      (trim_value-IsTrimmed value, trim_items-EachTrimmed items)

-- Whatever a source collects, however deep in tables and arrays, no text of it that the layers get
-- has whitespace around it.
pub trimmed_collect-IsTrimmed :
    (collected : List (String × Value))
    → All (λ (key, value). IsTrimmed value) (trimmed_collect collected)
unfolding trimmed_collect
trimmed_collect-IsTrimmed [] = tt
trimmed_collect-IsTrimmed ((key, value) ∷ collected) =
    (trim_value-IsTrimmed value, trimmed_collect-IsTrimmed collected)

-- ===== src/Csp/Scanned.antt =====
-- How far the scanner of crates/server/src/csp.rs goes.
use v_note.Base.{
  ℕ, zero, suc, ◌≤◌, ◌<◌, arith, Bool, true, false, String, Option, none, some, if◌then◌else◌,
}
use v_note.Csp.{chars, find, after, skip, with_first, is_some}

-- What is found is a text that is not empty and no longer than the one that is searched.
abbrev pub Within : ℕ → Option (String × String) → Type 0
Within n none = Unit
Within n (some (before, found)) = (0 < chars found) × (chars found ≤ n)

with_first-Within :
    (c : _) (n : ℕ) (o : Option (String × String)) → Within n o → Within (suc n) (with_first c o)
with_first-Within c n none h = tt
with_first-Within c n (some (before, found)) h = (h.0, omega (arith, h.1))

pub find-Within : (pattern s : String) → Within (chars s) (find pattern s)
find-Within pattern String.[] = tt
find-Within pattern (String.◌∷◌ c s) =
    by_test (is_some (after pattern (String.◌∷◌ c s)))
      (with_first-Within c (chars s) (find pattern s) (find-Within pattern s))
  where
    by_test :
        (b : Bool)
        → Within (suc (chars s)) (with_first c (find pattern s))
        → Within
            (suc (chars s))
            (if b then some ("", String.◌∷◌ c s) else with_first c (find pattern s))
    by_test true h = (omega arith, omega arith)
    by_test false h = h

pub chars-skip : (n : ℕ) (s : String) → chars (skip n s) ≤ chars s
chars-skip zero s = omega arith
chars-skip (suc n) String.[] = omega arith
chars-skip (suc n) (String.◌∷◌ c s) = omega (arith, chars-skip n s)

pub skip-shorter : (n : ℕ) (s : String) → 0 < chars s → chars (skip (suc n) s) < chars s
skip-shorter n String.[] h = omega arith
skip-shorter n (String.◌∷◌ c s) h = omega (arith, chars-skip n s)

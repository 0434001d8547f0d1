-- ===== src/Base/Replace.antt =====
-- `str::replace` of a character.
use Prim.Native.Char.{code}
use Prim.Native.String.{◌++◌ as ◌<>◌}
use v_note.Base.{ℕ, String, if◌then◌else◌, ◌==◌}

abbrev pub replace : ℕ → String → String → String
replace c by String.[] = String.[]
replace c by (String.◌∷◌ d s) =
    let rest = replace c by s in if code d == c then by <> rest else String.◌∷◌ d rest

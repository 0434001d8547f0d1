-- ===== src/Csp.antt =====
-- crates/server/src/csp.rs: the policy of the web client, and the scanner for inline scripts.
-- `sha256_source` is a hash of a library. Lowercasing keeps every position, so the scanner's lowercase
-- copy is the text itself, searched by the lowercase of its characters.
pub mod Scanned
pub mod Rounds
pub mod Sound
mod Tests
use Prim.Native.Char.{Char, code}
use Prim.Native.String.{◌++◌ as ◌<>◌}
use v_note.Base.{
  ℕ, zero, suc, ◌+◌, Bool, true, false, not, ◌&&◌, ◌||◌, String, same, List, [], ◌∷◌, Option, none,
  some, if◌then◌else◌, ◌==◌, any,
}
use v_note.Config.{lower_code}

abbrev pub pushed : String → List String → String
pushed text [] = text
pushed text (source ∷ sources) = pushed (text <> (" " <> source)) sources

abbrev pub join : String → List String → String
join separator [] = ""
join separator (part ∷ []) = part
join separator (part ∷ next ∷ parts) = part <> (separator <> join separator (next ∷ parts))

unfoldable pub spa_policy : List String → List String → String
spa_policy script_hashes connect_origins = join "; " (
    "default-src 'self'"
    ∷ pushed "script-src 'self' 'wasm-unsafe-eval'" script_hashes
    ∷ pushed "connect-src 'self'" connect_origins
    ∷ "img-src 'self' data: blob:"
    ∷ "style-src 'self' 'unsafe-inline'"
    ∷ "frame-ancestors 'self'"
    ∷ "base-uri 'none'"
    ∷ "object-src 'none'"
    ∷ [])

-- Whether a text starts with a pattern in lower case, and what follows the pattern.
abbrev pub after : String → String → Option String
after String.[] s = some s
after (String.◌∷◌ p ps) String.[] = none
after (String.◌∷◌ p ps) (String.◌∷◌ c s) =
    let rest = after ps s in if lower_code (code c) == code p then rest else none

abbrev pub is_some : Option String → Bool
is_some none = false
is_some (some s) = true

abbrev pub with_first : Char → Option (String × String) → Option (String × String)
with_first c none = none
with_first c (some (before, found)) = some (String.◌∷◌ c before, found)

-- `str::find` of a pattern that is not empty: what comes before it, and the text from it on.
abbrev pub find : String → String → Option (String × String)
find pattern String.[] = none
find pattern (String.◌∷◌ c s) =
    let later = with_first c (find pattern s) in
    if is_some (after pattern (String.◌∷◌ c s)) then some ("", String.◌∷◌ c s) else later

abbrev pub skip : ℕ → String → String
skip zero s = s
skip (suc n) String.[] = String.[]
skip (suc n) (String.◌∷◌ c s) = skip n s

abbrev pub chars : String → ℕ
chars String.[] = 0
chars (String.◌∷◌ c s) = suc (chars s)

-- `is_ascii_whitespace`.
abbrev pub is_ascii_whitespace : Char → Bool
is_ascii_whitespace c =
    let n = code c in (n == 32) || ((n == 9) || ((n == 10) || ((n == 12) || (n == 13))))

abbrev pub ends_name : String → Bool
ends_name String.[] = false
ends_name (String.◌∷◌ c s) =
    (lower_code (code c) == b'>') || ((lower_code (code c) == b'/') || is_ascii_whitespace c)

abbrev pub cut : Bool → Char → List String → List String
cut true c words = "" ∷ words
cut false c [] = []
cut false c (word ∷ words) = String.◌∷◌ c word ∷ words

-- `split`, a word between any two separators.
abbrev pub split : String → List String
split String.[] = "" ∷ []
split (String.◌∷◌ c s) = cut (is_ascii_whitespace c) c (split s)

abbrev pub is_empty_rest : Option String → Bool
is_empty_rest (some String.[]) = true
is_empty_rest (some (String.◌∷◌ c s)) = false
is_empty_rest none = false

unfoldable pub has_src_attribute : String → Bool
has_src_attribute attributes =
    any (λ attribute. is_empty_rest (after "src" attribute) || is_some (after "src=" attribute))
      (split attributes)

abbrev pub pushed_if : Bool → String → Option (List String) → Option (List String)
pushed_if b hash none = none
pushed_if true hash (some rest) = some (hash ∷ rest)
pushed_if false hash (some rest) = some rest

-- What the rest of the loop pushes; `none` is a loop that has not come to its end.
abbrev pub Rest : Type 0
Rest = String → Option (List String)

module _ (sha256_source : String → String) where
  abbrev pub hashed : Rest → String → Option (String × String) → Option (List String)
  hashed next attributes none = some []
  hashed next attributes (some (body, close)) =
      pushed_if (not (has_src_attribute attributes)) (sha256_source body) (next close)

  abbrev pub opened : Rest → Option (String × String) → Option (List String)
  opened next none = some []
  opened next (some (attributes, tag_end)) =
      hashed next attributes (find "</script" (skip 1 tag_end))

  abbrev pub named : Rest → Option (String × String) → Option (List String)
  named next none = some []
  named next (some (before, tag)) =
      let after_name = skip 7 tag in
      elim (ends_name after_name) [
        | true ↦ opened next (find ">" after_name)
        | false ↦ next after_name
      ]

  -- The rounds of the loop from the cursor on: `none` where the fuel is spent before the loop ends.
  unfoldable pub scan : ℕ → Rest
  scan zero html = none
  scan (suc fuel) html = named (scan fuel) (find "<script" html)

  -- Fuel for one round more than the page has characters.
  unfoldable pub inline_script_hashes : String → Option (List String)
  inline_script_hashes html = scan (suc (chars html)) html

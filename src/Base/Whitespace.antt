-- ===== src/Base/Whitespace.antt =====
-- `char::is_whitespace` and `str::trim`.
use Prim.Native.Char.{Char, code}
use v_note.Base.{Bool, true, false, ◌&&◌, ◌||◌, String, if◌then◌else◌, leb, ◌==◌}

-- `char::is_whitespace`: the characters of Unicode's White_Space.
abbrev pub is_whitespace : Char → Bool
is_whitespace c =
    let n = code c in
    (leb 9 n && leb n 13)
    || ((n == 32)
        || ((n == 0x85)
            || ((n == 0xA0)
                || ((n == 0x1680)
                    || ((leb 0x2000 n && leb n 0x200A)
                        || ((n == 0x2028)
                            || ((n == 0x2029)
                                || ((n == 0x202F) || ((n == 0x205F) || (n == 0x3000))))))))))

abbrev pub is_empty_text : String → Bool
is_empty_text String.[] = true
is_empty_text (String.◌∷◌ c s) = false

abbrev pub trim_start : String → String
trim_start String.[] = String.[]
trim_start (String.◌∷◌ c s) =
    let rest = trim_start s in if is_whitespace c then rest else String.◌∷◌ c s

abbrev pub trim_end : String → String
trim_end String.[] = String.[]
trim_end (String.◌∷◌ c s) =
    let rest = trim_end s in
    if is_whitespace c && is_empty_text rest then String.[] else String.◌∷◌ c rest

abbrev pub trim : String → String
trim s = trim_end (trim_start s)

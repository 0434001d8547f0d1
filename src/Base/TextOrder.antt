-- ===== src/Base/TextOrder.antt =====
-- Rust's order on strings, with its laws.

use Prim.Native.String.compare
use Prim.Native.String.{compare}
use text.Mathlib.Text.{is_le}
use text.Mathlib.TextEquality.{Char-path}
use v_note.Base.{Bool, true, false, String, ◌≡◌, ap₂, refl, arith}

abbrev pub str_le : String → String → Bool
str_le s t = is_le (compare s t)

pub str_le-total : (s t : String) → str_le s t ≡ false → str_le t s ≡ true
str_le-total String.[] String.[] h = refl
str_le-total String.[] (String.◌∷◌ d t) h = ground (arith, compare.nil-cons d t)
str_le-total (String.◌∷◌ c s) String.[] h = ground (arith, compare.nil-cons c s)
str_le-total (String.◌∷◌ c s) (String.◌∷◌ d t) h =
    ground (arith, compare.cons-cons c d s t, compare.cons-cons d c t s, str_le-total s t)

pub str_le_trans : (s t u : String) → str_le s t ≡ true → str_le t u ≡ true → str_le s u ≡ true
str_le_trans String.[] t String.[] h k = refl
str_le_trans String.[] t (String.◌∷◌ e u) h k = ground (arith, compare.nil-cons e u)
str_le_trans (String.◌∷◌ c s) String.[] u h k = ground (arith, compare.cons-nil c s)
str_le_trans (String.◌∷◌ c s) (String.◌∷◌ d t) String.[] h k = ground (arith, compare.cons-nil d t)
str_le_trans (String.◌∷◌ c s) (String.◌∷◌ d t) (String.◌∷◌ e u) h k = ground (
  arith,
  compare.cons-cons c d s t,
  compare.cons-cons d e t u,
  compare.cons-cons c e s u,
  str_le_trans s t u,
)

pub str_le_antisymm : (s t : String) → str_le s t ≡ true → str_le t s ≡ true → s ≡ t
str_le_antisymm String.[] String.[] h k = refl
str_le_antisymm String.[] (String.◌∷◌ d t) h k = absurd (ground (arith, compare.cons-nil d t))
str_le_antisymm (String.◌∷◌ c s) String.[] h k = absurd (ground (arith, compare.cons-nil c s))
str_le_antisymm (String.◌∷◌ c s) (String.◌∷◌ d t) h k =
    ap₂ String.◌∷◌
      (Char-path c d (ground (arith, compare.cons-cons c d s t, compare.cons-cons d c t s)))
      (str_le_antisymm s t (ground (arith, compare.cons-cons c d s t, compare.cons-cons d c t s))
        (ground (arith, compare.cons-cons c d s t, compare.cons-cons d c t s)))

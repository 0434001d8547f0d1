-- ===== src/Base/Text.antt =====
-- Strings: Rust's `String` and `&str` are native texts, compared by a decision.
use mathlib.Core.Path.{◌≡◌, refl, sym, ◌∙◌}
use mathlib.Core.Logic.{ite, ◌≢◌}
use mathlib.Core.Bool.{Bool, true, false, ◌||◌}
use mathlib.Core.List.{List, [], ◌∷◌, ◌++◌}
use native.Mathlib.Omega.{arith}
use text.Mathlib.Text.{◌==◌ as text_eq}
use text.Mathlib.TextEquality.{eq_iff}
use v_note.Base.Tests.{dec_of, not-false-true}
pub use Prim.Native.String.{String}

unfoldable pub str_dec : (s t : String) → Dec (s ≡ t)
unfolding dec_of
str_dec s t = dec_of (text_eq s t) (eq_iff s t)

abbrev pub same : String → String → Bool
same s t = ite (str_dec s t) true false

-- `HashSet::contains`, `slice::contains`, and SQL's `= ANY($n)`.
abbrev pub contains : List String → String → Bool
contains [] a = false
contains (x ∷ xs) a = ite (str_dec x a) true (contains xs a)

pub contains-append :
    (xs ys : List String) (a : String) → contains (xs ++ ys) a ≡ (contains xs a || contains ys a)
contains-append [] ys a = refl
contains-append (x ∷ xs) ys a = ground (arith, contains-append xs ys a)

pub contains_self : (a : String) (xs : List String) → contains (a ∷ xs) a ≡ true
contains_self a xs = ground arith

-- Two literals that differ: the test computes.
pub ne_of_test : (s t : String) → text_eq s t ≡ false → s ≢ t
ne_of_test s t h e = not-false-true (sym h ∙ (eq_iff s t).1 e)

abbrev pub Distinct : List String → Type 0
Distinct [] = Unit {0}
Distinct (x ∷ xs) = (contains xs x ≡ false) × Distinct xs

-- ===== src/Base/Decimal.antt =====
-- How Rust's formatting prints an unsigned number, which determines the number, and joins it on to
-- a text.
use Prim.Native.Char.{Char, char, code, IsScalar}
use Prim.Native.String.{◌++◌ as ◌<>◌}
use Prim.Native.String.append
use v_note.Base.{
  ℕ, suc, zero, ◌+◌, ◌-◌, ◌*◌, ◌/◌, ◌%◌, ◌<◌, ◌≡◌, refl, sym, ap, ◌∙◌, String, if◌then◌else◌, ltb,
  dec_lt, arith, Bool-cases, inl, inr,
}

pub below_surrogates : (n : ℕ) → n < 55296 → IsScalar n
below_surrogates n h = ground arith

digit_of : (d : ℕ) → Dec (d < 10) → Char
digit_of d (yes h) = char (48 + d) (below_surrogates (48 + d) (omega arith))
digit_of d (no _) = char 57 tt

code-digit_of : (d : ℕ) (below : Dec (d < 10)) → d < 10 → code (digit_of d below) ≡ 48 + d
unfolding digit_of
code-digit_of d (yes _) h = refl
code-digit_of d (no ge) h = absurd (ge h)

digit : ℕ → Char
unfolding digit_of
digit d = digit_of d (dec_lt d 10)

code-digit : (d : ℕ) → d < 10 → code (digit d) ≡ 48 + d
unfolding digit
code-digit d h = code-digit_of d (dec_lt d 10) h

-- The digits of the number before a text, on fuel: a number has fewer digits than its successor.
emit : ℕ → ℕ → String → String
emit zero n out = out
emit (suc fuel) n out =
    let rest = emit fuel (n / 10) (String.◌∷◌ (digit (n % 10)) out) in
    if ltb n 10 then String.◌∷◌ (digit n) out else rest

unfoldable pub show : ℕ → String
unfolding emit digit
show n = emit (suc n) n ""

-- The number that digits spell behind another.
abbrev read : String → ℕ → ℕ
read String.[] n = n
read (String.◌∷◌ c s) n = read s (n * 10 + (code c - 48))

read-emit : (fuel n : ℕ) (out : String) → n < fuel → read (emit fuel n out) 0 ≡ read out n
unfolding emit
read-emit zero n out h = absurd (omega arith)
read-emit (suc fuel) n out h = elim (Bool-cases (ltb n 10)) [
  | inl e ↦ rw e (ap (read out) (last n (ground arith)))
  | inr e ↦ rw e (
      read-emit fuel (n / 10) (String.◌∷◌ (digit (n % 10)) out) (ground arith)
      ∙ ap (read out) (joined n))
]
  where
    last : (m : ℕ) → m < 10 → 0 * 10 + (code (digit m) - 48) ≡ m
    last m lt = omega (arith, code-digit m lt)

    joined : (m : ℕ) → m / 10 * 10 + (code (digit (m % 10)) - 48) ≡ m
    joined m = omega (arith, code-digit (m % 10) (omega arith))

pub show_inj : (m n : ℕ) → show m ≡ show n → m ≡ n
unfolding show emit
show_inj m n h =
    sym (read-emit (suc m) m "" (omega arith))
    ∙ (ap (λ s. read s 0) h ∙ read-emit (suc n) n "" (omega arith))

abbrev tail_of : String → String
tail_of String.[] = String.[]
tail_of (String.◌∷◌ c s) = s

pub append_cancel : (s t u : String) → s <> t ≡ s <> u → t ≡ u
append_cancel String.[] t u h = sym (append.nil t) ∙ (h ∙ append.nil u)
append_cancel (String.◌∷◌ c s) t u h =
    append_cancel s t u (ap tail_of (sym (append.cons c s t) ∙ (h ∙ append.cons c s u)))

show_large : show 18446744073709551615 ≡ "18446744073709551615"
unfolding show digit dec_lt
show_large = refl

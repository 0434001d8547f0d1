-- ===== src/Login/Escaped.antt =====
-- What crates/server/src/routes/auth.rs escapes for the page that a mobile login returns by.
use Prim.Native.Char.{code}
use Prim.Native.String.{◌++◌ as ◌<>◌}
use Prim.Native.String.append
use v_note.Base.{
  ◌≡◌, ◌∙◌, refl, ap, arith, ℕ, Bool, true, false, not, ◌&&◌, String, if◌then◌else◌, ◌==◌,
}
use v_note.Base.Replace.{replace}
use v_note.Login.{escape_html, escape_js_string}

abbrev pub lacks : ℕ → String → Bool
lacks c String.[] = true
lacks c (String.◌∷◌ d s) = not (code d == c) && lacks c s

and_elim : (a b : Bool) → (a && b) ≡ true → (a ≡ true) × (b ≡ true)
and_elim a b h = ground arith

and_intro : (a b : Bool) → a ≡ true → b ≡ true → (a && b) ≡ true
and_intro a b h h' = ground arith

lacks-<> : (c : ℕ) (s t : String) → lacks c s ≡ true → lacks c t ≡ true → lacks c (s <> t) ≡ true
lacks-<> c String.[] t h h' = ap (lacks c) (append.nil t) ∙ h'
lacks-<> c (String.◌∷◌ d s) t h h' =
    let (first, rest) = and_elim (not (code d == c)) (lacks c s) h in
    ap (lacks c) (append.cons d s t)
    ∙ and_intro (not (code d == c)) (lacks c (s <> t)) first (lacks-<> c s t rest h')

lacks-if :
    (x : ℕ) (b : Bool) (s t : String)
    → lacks x s ≡ true
    → (b ≡ false → lacks x t ≡ true)
    → lacks x (if b then s else t) ≡ true
lacks-if x true s t h h' = h
lacks-if x false s t h h' = h' refl

-- A replaced character is gone, where its replacement has none.
lacks-replace : (c : ℕ) (by s : String) → lacks c by ≡ true → lacks c (replace c by s) ≡ true
lacks-replace c by String.[] h = refl
lacks-replace c by (String.◌∷◌ d s) h =
    let rest = lacks-replace c by s h in
    lacks-if c (code d == c) (by <> replace c by s) (String.◌∷◌ d (replace c by s))
      (lacks-<> c by (replace c by s) h rest)
      (λ ne. and_intro (not (code d == c)) (lacks c (replace c by s)) (ap not ne) rest)

-- One that is lacking stays so.
lacks-replace_other :
    (x c : ℕ) (by s : String)
    → lacks x by ≡ true
    → lacks x s ≡ true
    → lacks x (replace c by s) ≡ true
lacks-replace_other x c by String.[] h h' = refl
lacks-replace_other x c by (String.◌∷◌ d s) h h' =
    let (first, h'') = and_elim (not (code d == x)) (lacks x s) h' in
    let rest = lacks-replace_other x c by s h h'' in
    lacks-if x (code d == c) (by <> replace c by s) (String.◌∷◌ d (replace c by s))
      (lacks-<> x by (replace c by s) h rest)
      (λ ne. and_intro (not (code d == x)) (lacks x (replace c by s)) first rest)

-- The text of an element or of a quoted attribute stays what it is: no escaped text has a character
-- that opens or closes a tag, or a quote.
pub escape_html-lacks :
    (value : String)
    → ((lacks b'<' (escape_html value) ≡ true) × (lacks b'>' (escape_html value) ≡ true))
      × ((lacks b'"' (escape_html value) ≡ true) × (lacks b'\'' (escape_html value) ≡ true))
unfolding escape_html
escape_html-lacks value =
    let amp = replace b'&' "&amp;" value in
    let lt = replace b'<' "&lt;" amp in
    let gt = replace b'>' "&gt;" lt in
    let quot = replace b'"' "&quot;" gt in
    (
      (
        lacks-replace_other b'<' b'\'' "&#39;" quot refl (
            lacks-replace_other b'<' b'"' "&quot;" gt refl
              (lacks-replace_other b'<' b'>' "&gt;" lt refl (lacks-replace b'<' "&lt;" amp refl))),
        lacks-replace_other b'>' b'\'' "&#39;" quot refl
            (lacks-replace_other b'>' b'"' "&quot;" gt refl (lacks-replace b'>' "&gt;" lt refl)),
      ),
      (
        lacks-replace_other b'"' b'\'' "&#39;" quot refl (lacks-replace b'"' "&quot;" gt refl),
        lacks-replace b'\'' "&#39;" quot refl,
      ),
    )

-- A script's string is not ended by a line: no escaped text has a character that ends one.
pub escape_js_string-lacks :
    (value : String)
    → ((lacks 10 (escape_js_string value) ≡ true) × (lacks 13 (escape_js_string value) ≡ true))
      × ((lacks 0x2028 (escape_js_string value) ≡ true)
          × (lacks 0x2029 (escape_js_string value) ≡ true))
unfolding escape_js_string
escape_js_string-lacks value =
    let quoted = replace b'\'' "\\'" (replace b'\\' "\\\\" value) in
    let nl = replace 10 "\\n" quoted in
    let cr = replace 13 "\\r" nl in
    let ls = replace 0x2028 "\\u2028" cr in
    (
      (
        lacks-replace_other 10 0x2029 "\\u2029" ls refl (
            lacks-replace_other 10 0x2028 "\\u2028" cr refl
              (lacks-replace_other 10 13 "\\r" nl refl (lacks-replace 10 "\\n" quoted refl))),
        lacks-replace_other 13 0x2029 "\\u2029" ls refl
            (lacks-replace_other 13 0x2028 "\\u2028" cr refl (lacks-replace 13 "\\r" nl refl)),
      ),
      (
        lacks-replace_other 0x2028 0x2029 "\\u2029" ls refl
            (lacks-replace 0x2028 "\\u2028" cr refl),
        lacks-replace 0x2029 "\\u2029" ls refl,
      ),
    )

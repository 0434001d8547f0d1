-- ===== src/Csp/Tests.antt =====
-- The scanner at concrete pages.
use v_note.Base.{All, some, List, ◌≡◌, refl, String, [], ◌∷◌}
use v_note.Csp.Rounds.{Reads}
use v_note.Csp.Sound.{IsHashIn, inline_script_hashes-ends}
use v_note.Csp.{spa_policy, inline_script_hashes, scan, has_src_attribute}

abbrev id : String → String
id text = text

external_and_non_script_tags :
    inline_script_hashes id
      "<script src=\"/a.js\"></script><scripts>x</scripts><SCRIPT type=\"module\" SRC='/b.js'></SCRIPT><script>one()</script><script\n>two()</Script>"
    ≡ some ("one()" ∷ "two()" ∷ [])
unfolding inline_script_hashes scan has_src_attribute
external_and_non_script_tags = refl

unterminated : inline_script_hashes id "<script>unterminated" ≡ some []
unfolding inline_script_hashes scan has_src_attribute
unterminated = refl

policy :
    spa_policy ("'sha256-abc='" ∷ []) ("https://otlp-collector-oidc:4318" ∷ [])
    ≡ "default-src 'self'; script-src 'self' 'wasm-unsafe-eval' 'sha256-abc='; connect-src 'self' https://otlp-collector-oidc:4318; img-src 'self' data: blob:; style-src 'self' 'unsafe-inline'; frame-ancestors 'self'; base-uri 'none'; object-src 'none'"
unfolding spa_policy
policy = refl

inline_script_hashes-ends_example :
    (hashes : List String) × ((inline_script_hashes id "<script>one()</script>" ≡ some hashes)
      × (Reads id "<script>one()</script>" hashes
          × All (IsHashIn id "<script>one()</script>") hashes))
inline_script_hashes-ends_example = inline_script_hashes-ends id "<script>one()</script>"

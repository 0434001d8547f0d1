-- ===== src/Login.antt =====
-- crates/server/src/routes/auth.rs: the login over an identity provider, and the callback pages.
-- What the random generator draws, the hash, the provider's answers and the building of a URL are
-- parameters. A jar is what `CookieJar` holds: a cookie that is added replaces one of its name.
pub mod Flow
pub mod Escaped
pub mod Mobile
mod Tests
use Prim.Native.Char.{Char, code}
use Prim.Native.String.{◌++◌ as ◌<>◌}
use v_note.Base.{
  ℕ, zero, suc, ◌*◌, Bool, true, false, not, String, same, List, [], ◌∷◌, Option, none, some,
  Result, ok, err, if◌then◌else◌, ◌==◌,
}
use v_note.Base.Map.{Map, insert}
use v_note.Base.Replace.{replace}
use v_note.Base.Whitespace.{is_empty_text}
use v_note.Auth.{Jwt, Jwk, AuthConfig, Claims, TokenValidationError, validate_jwt}

abbrev pub auth_cookie : String
auth_cookie = "auth"

abbrev pub state_cookie : String
state_cookie = "auth_state"

abbrev pub pkce_cookie : String
pkce_cookie = "auth_pkce"

abbrev pub state_cookie_max_age_secs : ℕ
state_cookie_max_age_secs = 300

abbrev pub auth_cookie_max_age_secs : ℕ
auth_cookie_max_age_secs = 60 * 60 * 24

-- All of them `SameSite=Lax`.
pub record Cookie : Type 0 where
  pub value : String
  pub path : String
  pub http_only : Bool
  pub secure : Bool
  pub max_age : ℕ

abbrev pub Jar : Type 0
Jar = Map Cookie

unfoldable pub transient_auth_cookie : String → Cookie
transient_auth_cookie value = record {
  value = value;
  path = "/auth";
  http_only = true;
  secure = true;
  max_age = state_cookie_max_age_secs;
}

abbrev pub cleared_transient : Cookie
cleared_transient = record {
  value = "";
  path = "/auth";
  http_only = true;
  secure = true;
  max_age = 0;
}

unfoldable pub clear_flow_cookies : Jar → Jar
clear_flow_cookies jar =
    insert (insert jar state_cookie cleared_transient) pkce_cookie cleared_transient

abbrev pub session_cookie : String → Cookie
session_cookie token = record {
  value = token;
  path = "/";
  http_only = true;
  secure = true;
  max_age = auth_cookie_max_age_secs;
}

-- A status with its text, or a redirect.
pub data Answer : Type 0 where
  responds : ℕ → String → Answer
  redirects : String → Answer

abbrev pub abort_flow : Jar → ℕ → String → Jar × Answer
abort_flow jar status message = (clear_flow_cookies jar, responds status message)

unfoldable pub login_scopes : String → String
login_scopes required_scope = "openid profile email " <> (required_scope <> " telemetry:write")

-- The first characters of a text, and whether any are left.
abbrev pub first_chars : ℕ → String → String × Bool
first_chars n String.[] = (String.[], false)
first_chars zero (String.◌∷◌ c s) = (String.[], true)
first_chars (suc n) (String.◌∷◌ c s) =
    let (taken, cut) = first_chars n s in (String.◌∷◌ c taken, cut)

unfoldable pub truncate_for_log : String → String
truncate_for_log value =
    let (taken, cut) = first_chars 200 value in if cut then taken <> "…" else value

-- The query that the browser is sent to the provider with.
abbrev pub authorize_params : AuthConfig → String → String → List (String × String)
authorize_params config nonce challenge =
    ("response_type", "code")
    ∷ ("client_id", config.client_id)
    ∷ ("redirect_uri", config.redirect_uri)
    ∷ ("scope", login_scopes config.required_scope)
    ∷ ("state", nonce)
    ∷ ("code_challenge", challenge)
    ∷ ("code_challenge_method", "S256")
    ∷ []

abbrev sent_to : Jar → String → String → Option String → Jar × Answer
sent_to jar nonce code_verifier none = (jar, responds 500 "invalid IdP URL")
sent_to jar nonce code_verifier (some authorize) = (
  insert (insert jar state_cookie (transient_auth_cookie nonce)) pkce_cookie
      (transient_auth_cookie code_verifier),
  redirects authorize,
)

-- `nonce` and `code_verifier` are what `random_url_safe_token` drew.
unfoldable pub login :
    (String → String)
    → (String → List (String × String) → Option String)
    → AuthConfig
    → String
    → String
    → Jar
    → Jar × Answer
login code_challenge_s256 parse_with_params config nonce code_verifier jar =
    sent_to jar nonce code_verifier (
      parse_with_params config.authorize_endpoint
        (authorize_params config nonce (code_challenge_s256 code_verifier)))

pub record CallbackQuery : Type 0 where
  pub code : Option String
  pub state : String
  pub error : Option String

abbrev pub value_of : Option Cookie → Option String
value_of none = none
value_of (some cookie) = some cookie.value

abbrev pub unless_empty : Option String → Option String
unless_empty none = none
unless_empty (some verifier) = if not (is_empty_text verifier) then some verifier else none

-- What a posted form comes to: no answer, an answer that is an error, or one with the access token
-- that its body reads as.
pub data Posted : Type 0 where
  unreachable : Posted
  refused : Posted
  answered : Option String → Posted

abbrev pub token_of : Posted → Result String String
token_of unreachable = err "token endpoint unreachable"
token_of refused = err "token exchange failed"
token_of (answered none) = err "token parse failed"
token_of (answered (some token)) = ok token

unfoldable pub exchange_code :
    (String → List (String × String) → Posted) → AuthConfig → String → String → Result String String
exchange_code post config code code_verifier = token_of (
    post config.token_endpoint (
      ("grant_type", "authorization_code")
      ∷ ("code", code)
      ∷ ("redirect_uri", config.redirect_uri)
      ∷ ("client_id", config.client_id)
      ∷ ("code_verifier", code_verifier)
      ∷ []))

module _ (jwt : Jwt) (fetched : Result (List Jwk) String) (config : AuthConfig)
    (post : String → List (String × String) → Posted) where
  abbrev pub started : Jar → String → Result Claims TokenValidationError → Jar × Answer
  started jar token (err error) = abort_flow jar 403 "issued token failed validation"
  started jar token (ok claims) =
      (insert (clear_flow_cookies jar) auth_cookie (session_cookie token), redirects "/")

  abbrev pub exchanged :
      Jar → Map jwt.DecodingKey → Result String String → Map jwt.DecodingKey × (Jar × Answer)
  exchanged jar keys (err message) = (keys, abort_flow jar 502 message)
  exchanged jar keys (ok token) =
      let (keys', validated) = validate_jwt jwt fetched token config keys in
      (keys', started jar token validated)

  abbrev pub with_code :
      Jar → Map jwt.DecodingKey → String → Option String → Map jwt.DecodingKey × (Jar × Answer)
  with_code jar keys verifier none = (keys, abort_flow jar 400 "missing code")
  with_code jar keys verifier (some code) =
      exchanged jar keys (exchange_code post config code verifier)

  abbrev pub with_verifier :
      Jar
      → Map jwt.DecodingKey
      → Option String
      → Option String
      → Map jwt.DecodingKey × (Jar × Answer)
  with_verifier jar keys code none = (keys, abort_flow jar 400 "missing PKCE verifier cookie")
  with_verifier jar keys code (some verifier) = with_code jar keys verifier code

  -- The caller has proven that the flow is its own.
  abbrev pub proven :
      Jar
      → Map jwt.DecodingKey
      → CallbackQuery
      → Option String
      → Map jwt.DecodingKey × (Jar × Answer)
  proven jar keys params (some error) =
      (keys, abort_flow jar 403 ("authentication denied: " <> truncate_for_log error))
  proven jar keys params none =
      with_verifier jar keys params.code (unless_empty (value_of (jar pkce_cookie)))

  abbrev pub with_state :
      Jar
      → Map jwt.DecodingKey
      → CallbackQuery
      → Option String
      → Map jwt.DecodingKey × (Jar × Answer)
  with_state jar keys params none = (keys, (jar, responds 400 "missing state cookie"))
  with_state jar keys params (some cookie_state) =
      let ended = proven jar keys params params.error in
      if not (same cookie_state params.state)
      then (keys, (jar, responds 400 "state mismatch"))
      else ended

  unfoldable pub callback :
      CallbackQuery → Jar → Map jwt.DecodingKey → Map jwt.DecodingKey × (Jar × Answer)
  callback params jar keys = with_state jar keys params (value_of (jar state_cookie))

abbrev pub or_root : Option String → String
or_root none = "/"
or_root (some url) = url

unfoldable pub logout : AuthConfig → Jar → Jar × Answer
logout config jar = (
  insert jar auth_cookie
      (record { value = ""; path = "/"; http_only = true; secure = true; max_age = 0 }),
  redirects (or_root config.end_session_url),
)

unfoldable pub escape_html : String → String
escape_html value =
    replace b'\'' "&#39;" (
      replace b'"' "&quot;"
        (replace b'>' "&gt;" (replace b'<' "&lt;" (replace b'&' "&amp;" value))))

unfoldable pub escape_js_string : String → String
escape_js_string value = replace 0x2029 "\\u2029" (
    replace 0x2028 "\\u2028"
      (replace 13 "\\r" (replace 10 "\\n" (replace b'\'' "\\'" (replace b'\\' "\\\\" value)))))

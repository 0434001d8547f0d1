-- ===== src/Login/Flow.antt =====
-- How crates/server/src/routes/auth.rs ends a login.
use Prim.Native.String.{◌++◌ as ◌<>◌}
use v_note.Base.{
  str_dec, contains, [], ◌∷◌, ◌≤◌, ◌≡◌, ◌∙◌, refl, sym, arith, Bool, true, false, not, String, same,
  List, Option, none, some, Result, ok, err, if◌then◌else◌, ap, ℕ,
}
use v_note.Base.Map.{Map, insert}
use v_note.Base.Whitespace.{is_empty_text}
use v_note.Auth.{Jwt, Jwk, AuthConfig, Claims, TokenValidationError, validate_jwt}
use v_note.Auth.Validated.{IsVouched, validate_jwt-IsVouched}
use v_note.Login.{
  Cookie, answered, unreachable, refused, token_of, Jar, Answer, responds, redirects, Posted,
  CallbackQuery, callback, exchange_code, clear_flow_cookies, session_cookie, value_of,
  unless_empty, state_cookie, pkce_cookie, abort_flow, truncate_for_log, with_state, proven,
  with_verifier, with_code, exchanged, started,
}

is_blank : Option String → Bool
is_blank none = true
is_blank (some value) = is_empty_text value

unless_empty-some :
    (o : Option String) (verifier : String)
    → unless_empty o ≡ some verifier
    → (o ≡ some verifier) × (is_empty_text verifier ≡ false)
unfolding is_blank
unless_empty-some none verifier h = cc
unless_empty-some (some String.[]) verifier h = cc
unless_empty-some (some (String.◌∷◌ c s)) verifier h = (h, ap is_blank (sym h))

eq_of_same : (s t : String) → same s t ≡ true → s ≡ t
eq_of_same s t h = ground arith

ne_of_same : (s t : String) → same s t ≡ false → ¬ (s ≡ t)
ne_of_same s t h = ground arith

-- A cookie of the flow that the browser is told to drop: with no value and no time left, under the
-- path and the flags that it was set with.
abbrev pub dropped : Cookie
dropped = record { value = ""; path = "/auth"; http_only = true; secure = true; max_age = 0 }

-- Both cookies of the flow are dropped.
pub record IsCleared (jar : Jar) : Type 0 where
  pub state : jar "auth_state" ≡ some dropped
  pub verifier : jar "auth_pkce" ≡ some dropped

-- The cookies under all other names are as they were.
abbrev pub Keeps : List String → Jar → Jar → Type 0
Keeps names jar jar' = (name : String) → contains names name ≡ false → jar' name ≡ jar name

clear_flow_cookies-IsCleared : (jar : Jar) → IsCleared (clear_flow_cookies jar)
unfolding clear_flow_cookies str_dec
clear_flow_cookies-IsCleared jar = record { state = refl; verifier = refl }

clear_flow_cookies-Keeps :
    (jar : Jar) → Keeps ("auth_state" ∷ "auth_pkce" ∷ []) jar (clear_flow_cookies jar)
unfolding clear_flow_cookies
clear_flow_cookies-Keeps jar name h = ground arith

-- The session's cookie, for a day.
pub record IsSession (jar : Jar) (token : String) : Type 0 where
  pub set :
      jar "auth"
      ≡ some
          (record { value = token; path = "/"; http_only = true; secure = true; max_age = 86400 })

token_of-ok :
    (posted : Posted) (token : String) → token_of posted ≡ ok token → posted ≡ answered (some token)
token_of-ok unreachable token h = cc
token_of-ok refused token h = cc
token_of-ok (answered none) token h = cc
token_of-ok (answered (some t)) token h = cc

session-Keeps :
    (jar : Jar) (cookie : Cookie)
    → Keeps
        ("auth" ∷ "auth_state" ∷ "auth_pkce" ∷ [])
        jar
        (insert (clear_flow_cookies jar) "auth" cookie)
unfolding clear_flow_cookies
session-Keeps jar cookie name h = ground arith

session-IsCleared :
    (jar : Jar) (cookie : Cookie) → IsCleared (insert (clear_flow_cookies jar) "auth" cookie)
unfolding clear_flow_cookies str_dec
session-IsCleared jar cookie = record { state = refl; verifier = refl }

insert-IsSession :
    (jar : Jar) (token : String) → IsSession (insert jar "auth" (session_cookie token)) token
unfolding str_dec
insert-IsSession jar token = record { set = refl }

module _ (jwt : Jwt) (fetched : Result (List Jwk) String) (config : AuthConfig)
    (post : String → List (String × String) → Posted) where
  -- The flow is the caller's own: its state cookie holds the state that the provider sent back.
  abbrev IsOwn : Jar → CallbackQuery → Type 0
  IsOwn jar params = value_of (jar "auth_state") ≡ some params.state

  -- What a session is started on: the provider sent no error but a code, and for that code and the
  -- jar's verifier, which is not empty, it answered with the token, which the keys vouch for.
  pub record IsExchanged (jar : Jar) (keys : Map jwt.DecodingKey) (params : CallbackQuery)
      (token : String) : Type 0 where
    pub claims : Claims
    pub code : String
    pub verifier : String
    pub accepted : params.error ≡ none
    pub coded : params.code ≡ some code
    pub verified : value_of (jar "auth_pkce") ≡ some verifier
    pub proof_given : is_empty_text verifier ≡ false
    pub issued :
        post config.token_endpoint (
          ("grant_type", "authorization_code")
          ∷ ("code", code)
          ∷ ("redirect_uri", config.redirect_uri)
          ∷ ("client_id", config.client_id)
          ∷ ("code_verifier", verifier)
          ∷ [])
        ≡ answered (some token)
    pub vouched : IsVouched jwt config keys token claims

  -- What becomes of the jar, whichever way the callback answers.
  pub data Ended (jar : Jar) (keys : Map jwt.DecodingKey) (params : CallbackQuery)
      : Map jwt.DecodingKey × (Jar × Answer) → Type 0 where
    unproven :
        (message : String)
        → ¬ IsOwn jar params
        → Ended jar keys params (keys, (jar, responds 400 message))
    aborted :
        (keys' : Map jwt.DecodingKey) (jar' : Jar) (status : ℕ) (message : String)
        → IsOwn jar params
        → IsCleared jar'
        → Keeps ("auth_state" ∷ "auth_pkce" ∷ []) jar jar'
        → 400 ≤ status
        → Ended jar keys params (keys', (jar', responds status message))
    logged_in :
        (keys' : Map jwt.DecodingKey) (jar' : Jar) (token : String)
        → IsOwn jar params
        → IsCleared jar'
        → Keeps ("auth" ∷ "auth_state" ∷ "auth_pkce" ∷ []) jar jar'
        → IsSession jar' token
        → IsExchanged jar keys' params token
        → Ended jar keys params (keys', (jar', redirects "/"))

  module _ (jar : Jar) (keys : Map jwt.DecodingKey) (params : CallbackQuery) where
    -- Every failure of the caller's own flow ends it.
    stop :
        (keys' : Map jwt.DecodingKey) (status : ℕ) (message : String)
        → IsOwn jar params
        → 400 ≤ status
        → Ended jar keys params (keys', abort_flow jar status message)
    stop keys' status message own le =
        aborted keys' (clear_flow_cookies jar) status message own (clear_flow_cookies-IsCleared jar)
          (clear_flow_cookies-Keeps jar) le

    module _ (own : IsOwn jar params) (accepted : params.error ≡ none) (verifier : String)
        (verified : value_of (jar pkce_cookie) ≡ some verifier)
        (proof_given : is_empty_text verifier ≡ false) where
      started-Ended :
          (code : String)
          → params.code ≡ some code
          → (token : String) → exchange_code post config code verifier ≡ ok token
          → (r : Result Claims TokenValidationError)
          → (validate_jwt jwt fetched token config keys).1 ≡ r
          → Ended jar keys params (
            (validate_jwt jwt fetched token config keys).0,
            started jwt fetched config post jar token r,
          )
      unfolding exchange_code
      started-Ended code coded token issued (err error) e =
          stop (validate_jwt jwt fetched token config keys).0 403 "issued token failed validation"
            own (omega arith)
      started-Ended code coded token issued (ok claims) e =
          logged_in (validate_jwt jwt fetched token config keys).0
            (insert (clear_flow_cookies jar) "auth" (session_cookie token)) token own
            (session-IsCleared jar (session_cookie token))
            (session-Keeps jar (session_cookie token))
            (insert-IsSession (clear_flow_cookies jar) token)
            (record {
              claims = claims;
              code = code;
              verifier = verifier;
              accepted = accepted;
              coded = coded;
              verified = verified;
              proof_given = proof_given;
              issued = token_of-ok _ token issued;
              vouched = validate_jwt-IsVouched jwt fetched token config keys claims e;
            })

      exchanged-Ended :
          (code : String)
          → params.code ≡ some code
          → (r : Result String String) → exchange_code post config code verifier ≡ r
          → Ended jar keys params (exchanged jwt fetched config post jar keys r)
      exchanged-Ended code coded (err message) e = stop keys 502 message own (omega arith)
      exchanged-Ended code coded (ok token) e =
          started-Ended code coded token e (validate_jwt jwt fetched token config keys).1 refl

      with_code-Ended :
          (o : Option String)
          → params.code ≡ o
          → Ended jar keys params (with_code jwt fetched config post jar keys verifier o)
      with_code-Ended none e = stop keys 400 "missing code" own (omega arith)
      with_code-Ended (some code) e =
          exchanged-Ended code e (exchange_code post config code verifier) refl

    with_verifier-Ended :
        IsOwn jar params
        → params.error ≡ none
        → (o : Option String) → unless_empty (value_of (jar pkce_cookie)) ≡ o
        → Ended jar keys params (with_verifier jwt fetched config post jar keys params.code o)
    with_verifier-Ended own accepted none e =
        stop keys 400 "missing PKCE verifier cookie" own (omega arith)
    with_verifier-Ended own accepted (some verifier) e =
        let (verified, proof_given) = unless_empty-some _ verifier e in
        with_code-Ended own accepted verifier verified proof_given params.code refl

    proven-Ended :
        IsOwn jar params
        → (o : Option String) → params.error ≡ o
        → Ended jar keys params (proven jwt fetched config post jar keys params o)
    proven-Ended own (some error) e =
        stop keys 403 ("authentication denied: " <> truncate_for_log error) own (omega arith)
    proven-Ended own none e =
        with_verifier-Ended own e (unless_empty (value_of (jar pkce_cookie))) refl

    with_state-Ended :
        (o : Option String)
        → value_of (jar state_cookie) ≡ o
        → Ended jar keys params (with_state jwt fetched config post jar keys params o)
    with_state-Ended none e = unproven "missing state cookie" (λ own. cc)
    with_state-Ended (some value) e = by_match (same value params.state) refl
      where
        by_match :
            (b : Bool)
            → same value params.state ≡ b
            → Ended jar keys params (
                if not b
                then (keys, (jar, responds 400 "state mismatch"))
                else proven jwt fetched config post jar keys params params.error)
        by_match true h =
            proven-Ended (e ∙ ap some (eq_of_same value params.state h)) params.error refl
        by_match false h = unproven "state mismatch" (λ own. ne_of_same value params.state h cc)

    -- A callback whose state cookie does not hold the state that came back answers 400 and leaves the
    -- jar as it was. Every other one drops both cookies of the flow and keeps all others but the
    -- session's, which it sets, HttpOnly and for a day, only if the provider sent no error and, for the
    -- code it sent and the verifier of the jar, which is not empty, answered with the session's token,
    -- which the keys vouch for; where it does not, it answers an error.
    pub callback-Ended : Ended jar keys params (callback jwt fetched config post params jar keys)
    unfolding callback
    callback-Ended = with_state-Ended (value_of (jar state_cookie)) refl

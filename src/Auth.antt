-- ===== src/Auth.antt =====
-- crates/server/src/auth.rs: the bearer header, the key cache, the validation of a token and the
-- middleware. Reading and verifying a JWT is the crate jsonwebtoken's (`Jwt`).
pub mod Validated
pub mod Tests
use Prim.Native.Char.{Char, code}
use v_note.Base.{
  ℕ, ◌+◌, Bool, true, false, not, ◌&&◌, ◌||◌, String, same, List, [], ◌∷◌, Option, none, some,
  Result, ok, err, if◌then◌else◌, leb, ◌==◌, any,
}
use v_note.Base.Whitespace.{is_whitespace, is_empty_text, trim}
use v_note.Base.Map.{Map, insert}
use v_note.Base.Map

pub data Algorithm : Type 0 where
  rs256 rs384 rs512 : Algorithm
  -- any other algorithm of a JWT
  unsupported : String → Algorithm

pub record Header : Type 0 where
  pub kid : Option String
  pub alg : Algorithm

pub record Claims : Type 0 where
  pub sub : String
  pub email : Option String
  pub preferred_username : Option String
  pub scope : Option String
  pub iss : String
  pub exp : ℕ

pub record Validation : Type 0 where
  pub algorithms : List Algorithm
  pub audience : List String
  pub issuer : List String
  pub required_spec_claims : List String

pub record AuthConfig : Type 0 where
  pub issuer_url : String
  pub client_id : String
  pub redirect_uri : String
  pub required_scope : String
  pub end_session_url : Option String
  pub authorize_endpoint : String
  pub token_endpoint : String
  pub jwks_uri : String

pub data TokenValidationError : Type 0 where
  invalid : String → TokenValidationError
  missing_scope : TokenValidationError

pub record Jwk : Type 0 where
  pub kid : Option String
  pub n : Option String
  pub e : Option String

-- The crate jsonwebtoken, at the time of the call.
pub record Jwt : Type 1 where
  pub DecodingKey : Type 0
  pub decode_header : String → Option Header
  pub from_rsa_components : String → String → Option DecodingKey
  pub decode : String → DecodingKey → Validation → Option Claims

abbrev in_front : Char → Option (String × String) → Option (String × String)
in_front c none = none
in_front c (some (a, b)) = some (String.◌∷◌ c a, b)

-- `splitn(2, char::is_whitespace)` where it yields two parts: the text before the first whitespace
-- and all behind it.
abbrev pub split_once_whitespace : String → Option (String × String)
split_once_whitespace String.[] = none
split_once_whitespace (String.◌∷◌ c s) =
    let rest = split_once_whitespace s in
    if is_whitespace c then some (String.[], s) else in_front c rest

abbrev pub to_ascii_lower : ℕ → ℕ
to_ascii_lower n = if leb 65 n && leb n 90 then n + 32 else n

abbrev pub eq_ignore_ascii_case : String → String → Bool
eq_ignore_ascii_case String.[] String.[] = true
eq_ignore_ascii_case String.[] (String.◌∷◌ d t) = false
eq_ignore_ascii_case (String.◌∷◌ c s) String.[] = false
eq_ignore_ascii_case (String.◌∷◌ c s) (String.◌∷◌ d t) =
    (to_ascii_lower (code c) == to_ascii_lower (code d)) && eq_ignore_ascii_case s t

abbrev pub bearer_token : Option (String × String) → Option String
bearer_token none = none
bearer_token (some (scheme, rest)) =
    if eq_ignore_ascii_case scheme "Bearer" && not (is_empty_text (trim rest))
    then some (trim rest)
    else none

-- The value of the `Authorization` header, where there is one and it is text.
unfoldable pub extract_bearer : Option String → Option String
extract_bearer none = none
extract_bearer (some value) = bearer_token (split_once_whitespace value)

-- `split_whitespace`: the longest words without whitespace.
abbrev push_char : Char → List String → List String
push_char c [] = String.◌∷◌ c String.[] ∷ []
push_char c (w ∷ words) = String.◌∷◌ c w ∷ words

abbrev drop_empty : List String → List String
drop_empty [] = []
drop_empty (w ∷ words) = if is_empty_text w then words else w ∷ words

-- The first word may be empty: it is what stands before the first whitespace.
abbrev words_from : String → List String
words_from String.[] = String.[] ∷ []
words_from (String.◌∷◌ c s) =
    let rest = words_from s in
    if is_whitespace c then String.[] ∷ drop_empty rest else push_char c rest

abbrev pub split_whitespace : String → List String
split_whitespace s = drop_empty (words_from s)

abbrev pub scope_of : Option String → String
scope_of none = ""
scope_of (some scope) = scope

abbrev pub is_allowed : Algorithm → Bool
is_allowed rs256 = true
is_allowed rs384 = true
is_allowed rs512 = true
is_allowed (unsupported name) = false

abbrev pub allowed_algs : List Algorithm
allowed_algs = rs256 ∷ rs384 ∷ rs512 ∷ []

abbrev pub validation_of : AuthConfig → Validation
validation_of config = record {
  algorithms = allowed_algs;
  audience = config.client_id ∷ [];
  issuer = config.issuer_url ∷ [];
  required_spec_claims = "exp" ∷ "iss" ∷ "aud" ∷ [];
}

module _ (jwt : Jwt) where
  open jwt use {DecodingKey, decode_header, from_rsa_components, decode}

  abbrev pub insert_key : Jwk → Map DecodingKey → Map DecodingKey
  insert_key jwk keys = elim jwk.kid [
    | none ↦ keys
    | some kid ↦ elim jwk.n [
      | none ↦ keys
      | some n ↦ elim jwk.e [
        | none ↦ keys
        | some e ↦ elim (from_rsa_components n e) [ none ↦ keys | some key ↦ insert keys kid key ]
      ]
    ]
  ]

  abbrev pub insert_keys : List Jwk → Map DecodingKey → Map DecodingKey
  insert_keys [] keys = keys
  insert_keys (jwk ∷ jwks) keys = insert_keys jwks (insert_key jwk keys)

  -- `JwksCache::get`: a key that is not cached is looked up once more after a refresh, which
  -- replaces all keys. `fetched` is what the identity provider answers.
  unfoldable pub get_key :
      Result (List Jwk) String → String → Map DecodingKey → Map DecodingKey × Option DecodingKey
  get_key fetched kid keys = elim (keys kid) [
    | some key ↦ (keys, some key)
    | none ↦ elim fetched [
      | err error ↦ (keys, none)
      | ok jwks ↦ (insert_keys jwks Map.empty, insert_keys jwks Map.empty kid)
    ]
  ]

  abbrev pub check_scope : AuthConfig → Option Claims → Result Claims TokenValidationError
  check_scope config none = err (invalid "JWT validation failed")
  check_scope config (some claims) =
      if any (λ value. same value config.required_scope) (split_whitespace (scope_of claims.scope))
      then ok claims
      else err missing_scope

  abbrev pub check_key :
      String → AuthConfig → Algorithm → Option DecodingKey → Result Claims TokenValidationError
  check_key token config alg none = err (invalid "JWT kid not in JWKS")
  check_key token config alg (some key) =
      if not (is_allowed alg)
      then err (invalid "unsupported JWT algorithm")
      else check_scope config (decode token key (validation_of config))

  abbrev pub validate_kid :
      Result (List Jwk) String
      → String
      → AuthConfig
      → Map DecodingKey
      → Algorithm
      → Option String
      → Map DecodingKey × Result Claims TokenValidationError
  validate_kid fetched token config keys alg none = (keys, err (invalid "JWT missing kid header"))
  validate_kid fetched token config keys alg (some kid) =
      let (keys', key) = get_key fetched kid keys in (keys', check_key token config alg key)

  abbrev pub validate_header :
      Result (List Jwk) String
      → String
      → AuthConfig
      → Map DecodingKey
      → Option Header
      → Map DecodingKey × Result Claims TokenValidationError
  validate_header fetched token config keys none = (keys, err (invalid "invalid JWT header"))
  validate_header fetched token config keys (some header) =
      validate_kid fetched token config keys header.alg header.kid

  unfoldable pub validate_jwt :
      Result (List Jwk) String
      → String
      → AuthConfig
      → Map DecodingKey
      → Map DecodingKey × Result Claims TokenValidationError
  validate_jwt fetched token config keys =
      validate_header fetched token config keys (decode_header token)

abbrev pub or_cookie : Option String → Option String → Option String
or_cookie (some token) cookie = some token
or_cookie none cookie = cookie

-- What the middleware makes of a request: an answer of its own, or the handler with the caller's
-- claims and token.
pub data Admission : Type 0 where
  refuses : ℕ → String → Admission
  admits : Claims → String → Admission

abbrev pub admission_of : String → Result Claims TokenValidationError → Admission
admission_of token (ok claims) = admits claims token
admission_of token (err missing_scope) = refuses 403 "missing required scope"
admission_of token (err (invalid reason)) = refuses 401 reason

abbrev pub admit :
    (jwt : Jwt)
    → Result (List Jwk) String
    → AuthConfig
    → Map jwt.DecodingKey
    → Option String
    → Map jwt.DecodingKey × Admission
admit jwt fetched config keys none = (keys, refuses 401 "missing token")
admit jwt fetched config keys (some token) =
    let (keys', validated) = validate_jwt jwt fetched token config keys in
    (keys', admission_of token validated)

-- The values of the `Authorization` header and of the session cookie, where they are there.
unfoldable pub auth_middleware :
    (jwt : Jwt)
    → Result (List Jwk) String
    → AuthConfig
    → Option String
    → Option String
    → Map jwt.DecodingKey
    → Map jwt.DecodingKey × Admission
auth_middleware jwt fetched config authorization cookie keys =
    admit jwt fetched config keys (or_cookie (extract_bearer authorization) cookie)

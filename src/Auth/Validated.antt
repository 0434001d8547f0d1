-- ===== src/Auth/Validated.antt =====
-- Whom crates/server/src/auth.rs admits.

use v_note.Base.{
  ◌≡◌, refl, Bool, true, false, not, String, same, List, Option, none, some, Result, ok, err, any,
  if◌then◌else◌, ap, subst, ◌∙◌,
}
use v_note.Base.Map.{Map}
use v_note.Auth.{
  Jwt, Jwk, Header, Claims, AuthConfig, TokenValidationError, invalid, missing_scope, validate_jwt,
  get_key, is_allowed, validation_of, split_whitespace, scope_of, check_scope, check_key,
  validate_kid, validate_header, auth_middleware, admit, admission_of, admits, extract_bearer,
  or_cookie,
}

ok-if :
    (b : Bool) (c claims : Claims) (e : TokenValidationError)
    → (if b then ok c else err e) ≡ ok claims
    → (b ≡ true) × (c ≡ claims)
ok-if true c claims e h = (refl, ok_inj h)
  where
    ok_inj : {a b : Claims} → ◌≡◌ {A = Result Claims TokenValidationError} (ok a) (ok b) → a ≡ b
    ok_inj h = cc
ok-if false c claims e h = cc

ok-unless :
    (b : Bool) (r : Result Claims TokenValidationError) (claims : Claims) (e : TokenValidationError)
    → (if not b then err e else r) ≡ ok claims
    → (b ≡ true) × (r ≡ ok claims)
ok-unless true r claims e h = (refl, h)
ok-unless false r claims e h = cc

module _ (jwt : Jwt) where
  open jwt use {DecodingKey, decode_header, decode}

  -- A token is vouched for by a key of the cache, under an allowed algorithm, for the configured
  -- audience and issuer, and its scope names the required one.
  pub record IsVouched (config : AuthConfig) (keys : Map DecodingKey) (token : String)
      (claims : Claims) : Type 0 where
    pub header : Header
    pub kid : String
    pub key : DecodingKey
    pub read : decode_header token ≡ some header
    pub named : header.kid ≡ some kid
    pub cached : keys kid ≡ some key
    pub allowed : is_allowed header.alg ≡ true
    pub decoded : decode token key (validation_of config) ≡ some claims
    pub scoped :
        any (λ value. same value config.required_scope) (split_whitespace (scope_of claims.scope))
        ≡ true

  get_key-cached :
      (fetched : Result (List Jwk) String) (kid : String) (keys : Map DecodingKey)
      → (get_key jwt fetched kid keys).0 kid ≡ (get_key jwt fetched kid keys).1
  unfolding get_key
  get_key-cached fetched kid keys = by_cached (keys kid) refl fetched refl
    where
      by_cached :
          (o : Option DecodingKey)
          → keys kid ≡ o
          → (r : Result (List Jwk) String) → fetched ≡ r
          → (get_key jwt fetched kid keys).0 kid ≡ (get_key jwt fetched kid keys).1
      by_cached (some key) e r e' = rw (get_key, e) e
      by_cached none e (err error) e' = rw (get_key, e, e') e
      by_cached none e (ok jwks) e' = rw (get_key, e, e') refl

  check_scope-ok :
      (config : AuthConfig) (o : Option Claims) (claims : Claims)
      → check_scope jwt config o ≡ ok claims
      → (o ≡ some claims)
        × (any
              (λ value. same value config.required_scope)
              (split_whitespace (scope_of claims.scope))
            ≡ true)
  check_scope-ok config none claims h = cc
  check_scope-ok config (some c) claims h =
      let (scoped, e) = ok-if _ c claims missing_scope h in
      (
        ap some e,
        subst
            (λ (k : Claims).
              any (λ value. same value config.required_scope) (split_whitespace (scope_of k.scope))
              ≡ true)
            e scoped,
      )

  module _ (fetched : Result (List Jwk) String) (token : String) (config : AuthConfig)
      (keys : Map DecodingKey) (claims : Claims) where
    vouched :
        (header : Header) (kid : String)
        → decode_header token ≡ some header
        → header.kid ≡ some kid
        → (o : Option DecodingKey) → (get_key jwt fetched kid keys).1 ≡ o
        → check_key jwt token config header.alg o ≡ ok claims
        → IsVouched config (get_key jwt fetched kid keys).0 token claims
    vouched header kid read named none e h = cc
    vouched header kid read named (some key) e h =
        let (allowed, h') = ok-unless _ _ claims (invalid "unsupported JWT algorithm") h in
        let (decoded, scoped) = check_scope-ok config _ claims h' in
        record {
          header = header;
          kid = kid;
          key = key;
          read = read;
          named = named;
          cached = get_key-cached fetched kid keys ∙ e;
          allowed = allowed;
          decoded = decoded;
          scoped = scoped;
        }

    by_kid :
        (header : Header) (o : Option String)
        → decode_header token ≡ some header
        → header.kid ≡ o
        → (validate_kid jwt fetched token config keys header.alg o).1 ≡ ok claims
        → IsVouched config (validate_kid jwt fetched token config keys header.alg o).0 token claims
    by_kid header none read named h = cc
    by_kid header (some kid) read named h =
        vouched header kid read named (get_key jwt fetched kid keys).1 refl h

    by_header :
        (o : Option Header)
        → decode_header token ≡ o
        → (validate_header jwt fetched token config keys o).1 ≡ ok claims
        → IsVouched config (validate_header jwt fetched token config keys o).0 token claims
    by_header none read h = cc
    by_header (some header) read h = by_kid header header.kid read refl h

    -- Whatever the identity provider answers, a token is validated only if it is vouched for by the
    -- keys that the cache then has.
    pub validate_jwt-IsVouched :
        (validate_jwt jwt fetched token config keys).1 ≡ ok claims
        → IsVouched config (validate_jwt jwt fetched token config keys).0 token claims
    unfolding validate_jwt
    validate_jwt-IsVouched h = by_header (decode_header token) refl h

admits-admission_of :
    (token : String) (r : Result Claims TokenValidationError) (claims : Claims) (token' : String)
    → admission_of token r ≡ admits claims token'
    → (r ≡ ok claims) × (token ≡ token')
admits-admission_of token (ok c) claims token' h = (cc, cc)
admits-admission_of token (err missing_scope) claims token' h = cc
admits-admission_of token (err (invalid reason)) claims token' h = cc

module _ (jwt : Jwt) (fetched : Result (List Jwk) String) (config : AuthConfig)
    (keys : Map jwt.DecodingKey) (claims : Claims) (token : String) where
  admit-admits :
      (o : Option String)
      → (admit jwt fetched config keys o).1 ≡ admits claims token
      → (o ≡ some token) × IsVouched jwt config (admit jwt fetched config keys o).0 token claims
  admit-admits none h = cc
  admit-admits (some t) h =
      let (validated, e) =
        admits-admission_of t (validate_jwt jwt fetched t config keys).1 claims token h in
      (
        ap some e,
        subst
            (λ (u : String).
              IsVouched jwt config (validate_jwt jwt fetched t config keys).0 u claims)
            e (validate_jwt-IsVouched jwt fetched t config keys claims validated),
      )

  -- A request reaches its handler only with the token that it carries, the bearer header before the
  -- cookie, and only if that token is vouched for; the claims are the token's.
  pub auth_middleware-admits :
      (authorization cookie : Option String)
      → (auth_middleware jwt fetched config authorization cookie keys).1 ≡ admits claims token
      → (or_cookie (extract_bearer authorization) cookie ≡ some token)
        × IsVouched jwt config
            (auth_middleware jwt fetched config authorization cookie keys).0
            token
            claims
  unfolding auth_middleware
  auth_middleware-admits authorization cookie h =
      admit-admits (or_cookie (extract_bearer authorization) cookie) h

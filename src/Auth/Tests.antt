-- ===== src/Auth/Tests.antt =====
-- Admission at a concrete token.
use v_note.Base.{◌≡◌, refl, List, [], ◌∷◌, none, some, Result, ok, str_dec, String}
use v_note.Base.Map.{Map}
use v_note.Auth.{
  Jwt, Jwk, AuthConfig, Claims, rs256, auth_middleware, extract_bearer, validate_jwt, get_key,
  admits, or_cookie, split_whitespace,
}
use v_note.Auth.Validated.{IsVouched, auth_middleware-admits}

abbrev pub claims : Claims
claims = record {
  sub = "owner_1";
  email = none;
  preferred_username = none;
  scope = some "openid notes";
  iss = "https://idp";
  exp = 9;
}

-- Every token is one of `owner_1`, by the key of the id `k1`.
abbrev pub jwt : Jwt
jwt = record {
  DecodingKey = String;
  decode_header = λ token. some (record { kid = some "k1"; alg = rs256 });
  from_rsa_components = λ n e. some n;
  decode = λ token key validation. some claims;
}

abbrev pub config : AuthConfig
config = record {
  issuer_url = "https://idp";
  client_id = "v-note";
  redirect_uri = "https://note/auth/callback";
  required_scope = "notes";
  end_session_url = none;
  authorize_endpoint = "https://idp/authorize";
  token_endpoint = "https://idp/token";
  jwks_uri = "https://idp/jwks";
}

-- The identity provider has the key, and the cache has not.
abbrev pub fetched : Result (List Jwk) String
fetched = ok (record { kid = some "k1"; n = some "modulus"; e = some "AQAB" } ∷ [])

abbrev pub no_keys : Map String
no_keys kid = none

words : split_whitespace " openid  notes\t" ≡ "openid" ∷ "notes" ∷ []
words = refl

bearer :
    (extract_bearer (some "bearer  token_1 ") ≡ some "token_1")
    × (extract_bearer (some "Basic token_1") ≡ none)
unfolding extract_bearer
bearer = (refl, refl)

admitted :
    (auth_middleware jwt fetched config (some "Bearer token_1") (some "token_2") no_keys).1
    ≡ admits claims "token_1"
unfolding auth_middleware extract_bearer validate_jwt get_key str_dec
admitted = refl

auth_middleware-admits_example :
    (or_cookie (extract_bearer (some "Bearer token_1")) (some "token_2") ≡ some "token_1")
    × IsVouched jwt config
        (auth_middleware jwt fetched config (some "Bearer token_1") (some "token_2") no_keys).0
        "token_1"
        claims
auth_middleware-admits_example =
    auth_middleware-admits jwt fetched config no_keys claims "token_1" (some "Bearer token_1")
      (some "token_2") admitted

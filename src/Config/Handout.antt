-- ===== src/Config/Handout.antt =====
-- crates/server/src/routes/telemetry_config.rs, behind the middleware of auth.rs.
use v_note.Base.{
  ℕ, ◌≡◌, refl, sym, ap, ◌∙◌, subst, String, List, [], ◌∷◌, Option, none, some, Result,
}
use v_note.Base.Map.{Map}
use v_note.Routing.{trim_end_slashes}
use v_note.Auth.{
  Jwt, Jwk, AuthConfig, Claims, Admission, admits, refuses, auth_middleware, extract_bearer,
  or_cookie,
}
use v_note.Auth.Validated.{IsVouched, auth_middleware-admits}

pub record TelemetryConfigResponse : Type 0 where
  pub endpoint : String
  pub access_token : String
  pub expires_at : ℕ

-- The answer; one with a body has the headers that forbid to store it.
pub data Answer : Type 0 where
  no_content : Answer
  hands_out : TelemetryConfigResponse → List (String × String) → Answer
  refused : ℕ → String → Answer

-- `client_endpoint`, of the URL's text.
unfoldable pub client_endpoint : String → String
client_endpoint endpoint = trim_end_slashes endpoint

abbrev pub never_stored : List (String × String)
never_stored = ("cache-control", "no-store") ∷ ("pragma", "no-cache") ∷ []

unfoldable pub telemetry_config : Option String → Claims → String → Answer
telemetry_config none claims token = no_content
telemetry_config (some endpoint) claims token =
    hands_out (record { endpoint = endpoint; access_token = token; expires_at = claims.exp })
      never_stored

-- The route behind the middleware.
unfoldable pub telemetry_route : Option String → Admission → Answer
telemetry_route endpoint (refuses status message) = refused status message
telemetry_route endpoint (admits claims token) = telemetry_config endpoint claims token

abbrev body_or : TelemetryConfigResponse → Answer → TelemetryConfigResponse
body_or body (hands_out handed headers) = handed
body_or body no_content = body
body_or body (refused status message) = body

abbrev headers_of : Answer → List (String × String)
headers_of (hands_out body headers) = headers
headers_of no_content = []
headers_of (refused status message) = []

module _ (jwt : Jwt) (fetched : Result (List Jwk) String) (config : AuthConfig)
    (keys : Map jwt.DecodingKey) (authorization cookie : Option String) where
  -- A token is handed out only to the caller who sent it, and only if it is vouched for; the expiry is
  -- its own, and the answer is never stored.
  pub telemetry_route-hands_out :
      (endpoint : Option String) (body : TelemetryConfigResponse) (headers : List (String × String))
      → telemetry_route endpoint (auth_middleware jwt fetched config authorization cookie keys).1
        ≡ hands_out body headers
      → (headers ≡ ("cache-control", "no-store") ∷ ("pragma", "no-cache") ∷ [])
        × ((endpoint ≡ some body.endpoint)
            × ((or_cookie (extract_bearer authorization) cookie ≡ some body.access_token)
                × ((claims : Claims) × ((body.expires_at ≡ claims.exp)
                      × IsVouched jwt config
                          (auth_middleware jwt fetched config authorization cookie keys).0
                          body.access_token
                          claims))))
  unfolding telemetry_route telemetry_config
  telemetry_route-hands_out endpoint body headers h =
      by_admission endpoint (auth_middleware jwt fetched config authorization cookie keys).1 refl h
    where
      by_admission :
          (endpoint : Option String) (a : Admission)
          → (auth_middleware jwt fetched config authorization cookie keys).1 ≡ a
          → telemetry_route endpoint a ≡ hands_out body headers
          → (headers ≡ ("cache-control", "no-store") ∷ ("pragma", "no-cache") ∷ [])
            × ((endpoint ≡ some body.endpoint)
                × ((or_cookie (extract_bearer authorization) cookie ≡ some body.access_token)
                    × ((claims : Claims) × ((body.expires_at ≡ claims.exp)
                          × IsVouched jwt config
                              (auth_middleware jwt fetched config authorization cookie keys).0
                              body.access_token
                              claims))))
      by_admission endpoint (refuses status message) e h = cc
      by_admission none (admits claims token) e h = cc
      by_admission (some origin) (admits claims token) e h =
          let same_body = ap (body_or body) h in
          let (sent, vouched) =
            auth_middleware-admits jwt fetched config keys claims token authorization cookie e in
          (
            sym (ap headers_of h),
            (
              ap (λ (b : TelemetryConfigResponse). some b.endpoint) same_body,
              (
                sent ∙ ap (λ (b : TelemetryConfigResponse). some b.access_token) same_body,
                (
                  claims,
                  (
                    ap (λ (b : TelemetryConfigResponse). b.expires_at) (sym same_body),
                    subst
                        (λ (b : TelemetryConfigResponse).
                          IsVouched jwt config
                            (auth_middleware jwt fetched config authorization cookie keys).0
                            b.access_token claims)
                        same_body vouched,
                  ),
                ),
              ),
            ),
          )

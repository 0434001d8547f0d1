-- ===== src/Config/Tests.antt =====
-- Groups and leaves at concrete values.
use v_note.Base.{
  str_dec, Option, ℕ, ◌≡◌, refl, true, false, err, some, none, List, [], ◌∷◌, String, All,
}
use v_note.Config.{validate_server, invalid, metrics_disabled, validate_database, require_non_empty}
use v_note.Auth.{Claims, auth_middleware, extract_bearer, validate_jwt, get_key, or_cookie}
use v_note.Auth.Validated.{IsVouched}
use v_note.Auth.Tests.{jwt, config, fetched, no_keys}
use v_note.Config.Handout.{
  hands_out, never_stored, telemetry_route, telemetry_config, telemetry_route-hands_out,
}
use v_note.Config.Leaves.{
  Value, text, table, entry, no_entries, other, trimmed_collect, kebab_case_collect, trim_value,
}
use v_note.Config.Trimmed.{IsTrimmed, trimmed_collect-IsTrimmed}

abbrev collected : List (String × Value)
collected =
    ("oidc", table (entry "required-scope" (text " notes ") no_entries))
    ∷ ("server.http_port", other 8080)
    ∷ []

trims :
    trimmed_collect collected
    ≡ ("oidc", table (entry "required-scope" (text "notes") no_entries))
      ∷ ("server.http_port", other 8080)
      ∷ []
unfolding trimmed_collect trim_value
trims = refl

folds :
    kebab_case_collect (("server.http_port", other 8080) ∷ [])
    ≡ ("server.http-port", other 8080) ∷ []
unfolding kebab_case_collect
folds = refl

disabled : (metrics_disabled "DisAbled" ≡ true) × (metrics_disabled "0.0.0.0:9090" ≡ false)
unfolding metrics_disabled
disabled = (refl, refl)

half_pair :
    validate_server
      (record { http_port = 8080; tls_cert = some "c.pem"; tls_key = none; static_dir = none })
    ≡ err (invalid "server.tls-key" "required when `server.tls-cert` is set")
unfolding validate_server
half_pair = refl

blank_password :
    validate_database
      (record { host = "db"; port = 5432; name = "notes"; user = "u"; password = " " })
    ≡ err (invalid "database.password" "must not be empty")
unfolding validate_database require_non_empty
blank_password = refl

trimmed_collect-IsTrimmed_example :
    All (λ (key, value). IsTrimmed value) (trimmed_collect collected)
trimmed_collect-IsTrimmed_example = trimmed_collect-IsTrimmed collected

handed :
    telemetry_route
      (some "https://otlp")
      (auth_middleware jwt fetched config (some "Bearer token_1") none no_keys).1
    ≡ hands_out
        (record { endpoint = "https://otlp"; access_token = "token_1"; expires_at = 9 })
        never_stored
unfolding telemetry_route telemetry_config auth_middleware extract_bearer validate_jwt get_key
    str_dec
handed = refl

telemetry_route-hands_out_example :
    (never_stored ≡ never_stored)
    × ((◌≡◌ {A = Option String} (some "https://otlp") (some "https://otlp"))
        × ((or_cookie (extract_bearer (some "Bearer token_1")) none ≡ some "token_1")
            × ((claims : Claims) × ((◌≡◌ {A = ℕ} 9 claims.exp)
                  × IsVouched jwt config
                      (auth_middleware jwt fetched config (some "Bearer token_1") none no_keys).0
                      "token_1"
                      claims))))
telemetry_route-hands_out_example =
    telemetry_route-hands_out jwt fetched config no_keys (some "Bearer token_1") none
      (some "https://otlp")
      (record { endpoint = "https://otlp"; access_token = "token_1"; expires_at = 9 }) never_stored
      handed

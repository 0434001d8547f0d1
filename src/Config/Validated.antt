-- ===== src/Config/Validated.antt =====
-- What a validated group of crates/server/src/config.rs is known to be.
use v_note.Base.{
  str_dec, contains, List, [], ◌∷◌, ◌≡◌, refl, arith, ◌⊎◌, inl, inr, Bool, true, false, not, ◌&&◌,
  String, same, Option, none, some, ok, err, if◌then◌else◌,
}
use v_note.Base.Whitespace.{trim, is_empty_text}
use v_note.Config.{
  Leaf, Checked, ConfigError, invalid, ◌>>◌, is_some, require_non_empty, DatabaseConfig,
  validate_database, ServerConfig, tls_pair, validate_server, all_or_nothing, zip,
  ObservabilityConfig, metrics_disabled, metrics_socket_addr, validate_observability,
}

then-ok : (c d : Checked) → (c >> d) ≡ ok tt → (c ≡ ok tt) × (d ≡ ok tt)
then-ok (ok u) d h = (refl, h)
then-ok (err error) d h = cc

unless_ok :
    (b : Bool) (error : ConfigError)
    → ◌≡◌ {A = Checked} (if b then err error else ok tt) (ok tt)
    → b ≡ false
unless_ok true error h = cc
unless_ok false error h = refl

non_empty :
    (path value : String)
    → require_non_empty path value ≡ ok tt
    → is_empty_text (trim value) ≡ false
unfolding require_non_empty
non_empty path value h = unless_ok (is_empty_text (trim value)) (invalid path "must not be empty") h

-- TLS is configured by both of its files or by none: a validated server that is given either has the
-- pair.
pub validate_server-ok :
    (config : ServerConfig)
    → validate_server config ≡ ok tt
    → ((tls_pair config ≡ none) × ((config.tls_cert ≡ none) × (config.tls_key ≡ none)))
      ⊎ ((pair : String × String) × ((tls_pair config ≡ some pair)
            × ((config.tls_cert ≡ some pair.0) × (config.tls_key ≡ some pair.1))))
unfolding validate_server tls_pair
validate_server-ok config h = by_files config.tls_cert config.tls_key h
  where
    by_files :
        (cert key : Option String)
        → all_or_nothing cert key ≡ ok tt
        → ((zip cert key ≡ none) × ((cert ≡ none) × (key ≡ none)))
          ⊎ ((pair : String × String) × ((zip cert key ≡ some pair)
                × ((cert ≡ some pair.0) × (key ≡ some pair.1))))
    by_files none none h = inl (refl, (refl, refl))
    by_files none (some key) h = cc
    by_files (some cert) none h = cc
    by_files (some cert) (some key) h = inr ((cert, key), (refl, (refl, refl)))

-- The check passes, or names one of the leaves and says no more.
pub data IsRedacted (leaves : List String) : Checked → Type 0 where
  passed : IsRedacted leaves (ok tt)
  blamed :
      (path : String)
      → contains leaves path ≡ true
      → IsRedacted leaves (err (invalid path "must not be empty"))

then-IsRedacted :
    (leaves : List String) (c d : Checked)
    → IsRedacted leaves c
    → IsRedacted leaves d
    → IsRedacted leaves (c >> d)
then-IsRedacted leaves _ d passed r = r
then-IsRedacted leaves _ d (blamed path h) r = blamed path h

require_non_empty-IsRedacted :
    (leaves : List String) (path value : String)
    → contains leaves path ≡ true
    → IsRedacted leaves (require_non_empty path value)
unfolding require_non_empty
require_non_empty-IsRedacted leaves path value h = by_test (is_empty_text (trim value))
  where
    by_test :
        (b : Bool) → IsRedacted leaves (if b then err (invalid path "must not be empty") else ok tt)
    by_test true = blamed path h
    by_test false = passed

abbrev pub database_leaves : List String
database_leaves = "database.host" ∷ "database.name" ∷ "database.user" ∷ "database.password" ∷ []

-- What is wrong with a database group is told by the name of a leaf alone, whatever the leaves hold.
pub validate_database-IsRedacted :
    (config : DatabaseConfig) → IsRedacted database_leaves (validate_database config)
unfolding validate_database str_dec
validate_database-IsRedacted config =
    let required = require_non_empty-IsRedacted database_leaves in
    then-IsRedacted database_leaves _ _ (required "database.host" config.host refl) (
      then-IsRedacted database_leaves _ _ (required "database.name" config.name refl) (
        then-IsRedacted database_leaves _ _ (required "database.user" config.user refl) (
          then-IsRedacted database_leaves _ _ (required "database.password" config.password refl)
            passed)))

eq_of_same : (s t : String) → not (same s t) ≡ false → s ≡ t
eq_of_same s t h = ground arith

module _ (leaf : Leaf) where
  open leaf use {Url, SocketAddr}

  -- A validated server has an address to listen on for metrics, unless they are disabled.
  pub validate_observability-ok :
      (config : ObservabilityConfig leaf)
      → validate_observability leaf config ≡ ok tt
      → (is_empty_text (trim config.environment) ≡ false)
        × ((config.otlp_protocol ≡ "grpc")
            × (is_some (metrics_socket_addr leaf config)
                ≡ not (metrics_disabled config.metrics_addr)))
  unfolding validate_observability metrics_socket_addr
  validate_observability-ok config h =
      let (environment, h1) = then-ok _ _ h in
      let (protocol, h2) = then-ok _ _ h1 in
      let (metrics, _) = then-ok _ _ h2 in
      (
        non_empty "observability.environment" config.environment environment,
        (
          eq_of_same config.otlp_protocol "grpc" (unless_ok _ _ protocol),
          by_addr (metrics_disabled config.metrics_addr)
              (leaf.parse_socket_addr config.metrics_addr) (unless_ok _ _ metrics),
        ),
      )
    where
      by_addr :
          (b : Bool) (o : Option SocketAddr)
          → (not b && not (is_some o)) ≡ false
          → is_some (if b then none else o) ≡ not b
      by_addr true o h = refl
      by_addr false none h = cc
      by_addr false (some addr) h = refl

-- ===== src/Config.antt =====
-- crates/server/src/config.rs: the groups, their validation, and what is done to a leaf before.
-- The types that a leaf is parsed to are a library's, so they are a parameter (Leaf); so is what the
-- layers hold.
pub mod Validated
pub mod Handout
pub mod Leaves
pub mod Trimmed
mod Tests
use Prim.Native.Char.{code}
use Prim.Native.String.{◌++◌ as ◌<>◌}
use v_note.Base.{
  ℕ, Bool, true, false, not, ◌&&◌, ◌||◌, String, same, List, [], ◌∷◌, map, Option, none, some,
  Result, ok, err, if◌then◌else◌, ◌==◌, leb, ◌+◌,
}
use v_note.Base.Whitespace.{trim, is_empty_text}

-- What `url`, `std::net`, `tracing_subscriber` and `serde_json` read.
pub record Leaf : Type 1 where
  pub Url : Type 0
  pub scheme : Url → String
  pub path : Url → String
  pub query : Url → Option String
  pub fragment : Url → Option String
  pub username : Url → String
  pub password : Url → Option String
  pub SocketAddr : Type 0
  pub parse_socket_addr : String → Option SocketAddr
  pub try_new_filter : String → Result (Unit {0}) String
  pub is_json : String → Bool

-- The failure of a validation; the others are the config crate's.
pub data ConfigError : Type 0 where
  invalid : String → String → ConfigError

abbrev pub is_some {ℓ} : {A : Type ℓ} → Option A → Bool
is_some none = false
is_some (some a) = true

abbrev pub Checked : Type 0
Checked = Result (Unit {0}) ConfigError

-- `check?; next`
infixr 20 ◌>>◌
abbrev pub ◌>>◌ : Checked → Checked → Checked
ok u >> next = next
err error >> next = err error

abbrev pub parsed : {T : Type 0} → Result T String → Result (Option T) String
parsed (ok value) = ok (some value)
parsed (err error) = err error

-- The deserialization of an optional leaf by its type's `FromStr`.
unfoldable pub blank_as_none :
    {T : Type 0} → (String → Result T String) → Option String → Result (Option T) String
blank_as_none parse none = ok none
blank_as_none parse (some raw) =
    if not (is_empty_text (trim raw)) then parsed (parse (trim raw)) else ok none

unfoldable pub require_non_empty : String → String → Checked
require_non_empty path value =
    if is_empty_text (trim value) then err (invalid path "must not be empty") else ok tt

pub record DatabaseConfig : Type 0 where
  pub host : String
  pub port : ℕ
  pub name : String
  pub user : String
  pub password : String

unfoldable pub validate_database : DatabaseConfig → Checked
validate_database config =
    require_non_empty "database.host" config.host
    >> (require_non_empty "database.name" config.name
        >> (require_non_empty "database.user" config.user
            >> (require_non_empty "database.password" config.password >> ok tt)))

-- `str::eq_ignore_ascii_case`.
abbrev pub lower_code : ℕ → ℕ
lower_code n = if leb 65 n && leb n 90 then n + 32 else n

abbrev pub eq_ignore_ascii_case : String → String → Bool
eq_ignore_ascii_case String.[] String.[] = true
eq_ignore_ascii_case String.[] (String.◌∷◌ d t) = false
eq_ignore_ascii_case (String.◌∷◌ c s) String.[] = false
eq_ignore_ascii_case (String.◌∷◌ c s) (String.◌∷◌ d t) =
    (lower_code (code c) == lower_code (code d)) && eq_ignore_ascii_case s t

unfoldable pub metrics_disabled : String → Bool
metrics_disabled value = is_empty_text (trim value) || eq_ignore_ascii_case value "disabled"

pub record AndroidConfig : Type 0 where
  pub assetlinks_json : String

unfoldable pub assetlinks_json_of : AndroidConfig → Option String
assetlinks_json_of config =
    if not (is_empty_text (trim config.assetlinks_json)) then some config.assetlinks_json else none

pub record ServerConfig : Type 0 where
  pub http_port : ℕ
  pub tls_cert : Option String
  pub tls_key : Option String
  pub static_dir : Option String

abbrev pub zip : Option String → Option String → Option (String × String)
zip none key = none
zip (some cert) none = none
zip (some cert) (some key) = some (cert, key)

unfoldable pub tls_pair : ServerConfig → Option (String × String)
tls_pair config = zip config.tls_cert config.tls_key

abbrev pub all_or_nothing : Option String → Option String → Checked
all_or_nothing (some cert) none =
    err (invalid "server.tls-key" "required when `server.tls-cert` is set")
all_or_nothing none (some key) =
    err (invalid "server.tls-cert" "required when `server.tls-key` is set")
all_or_nothing (some cert) (some key) = ok tt
all_or_nothing none none = ok tt

unfoldable pub validate_server : ServerConfig → Checked
validate_server config = all_or_nothing config.tls_cert config.tls_key

module _ (leaf : Leaf) where
  open leaf use {Url, SocketAddr}

  pub record OidcConfig : Type 0 where
    pub issuer_url : Url
    pub authorize_url : Option Url
    pub client_id : String
    pub redirect_uri : Url
    pub required_scope : String
    pub end_session_url : Option Url

  unfoldable pub validate_oidc : OidcConfig → Checked
  validate_oidc config =
      require_non_empty "oidc.client-id" config.client_id
      >> (require_non_empty "oidc.required-scope" config.required_scope >> ok tt)

  pub record ObservabilityConfig : Type 0 where
    pub environment : String
    pub otlp_endpoint : Option Url
    pub otlp_protocol : String
    pub otlp_timeout_ms : ℕ
    pub service_name : String
    pub metrics_addr : String
    pub otlp_log_filter : Option String

  unfoldable pub metrics_socket_addr : ObservabilityConfig → Option SocketAddr
  metrics_socket_addr config =
      if metrics_disabled config.metrics_addr
      then none
      else leaf.parse_socket_addr config.metrics_addr

  abbrev pub filter_valid : Result (Unit {0}) String → Checked
  filter_valid (ok u) = ok tt
  filter_valid (err error) =
      err (invalid "observability.otlp-log-filter" ("not a valid log filter: " <> error))

  abbrev pub check_filter : Option String → Checked
  check_filter none = ok tt
  check_filter (some directives) = filter_valid (leaf.try_new_filter directives)

  unfoldable pub validate_observability : ObservabilityConfig → Checked
  validate_observability config =
      require_non_empty "observability.environment" config.environment
      >> ((if not (same config.otlp_protocol "grpc")
            then err (
                invalid "observability.otlp-protocol"
                  ("unsupported protocol `" <> (config.otlp_protocol <> "`; expected `grpc`")))
            else ok tt)
          >> ((if not (metrics_disabled config.metrics_addr)
                  && not (is_some (leaf.parse_socket_addr config.metrics_addr))
                then err (invalid "observability.metrics-addr" "must be `host:port` or `disabled`")
                else ok tt)
              >> check_filter config.otlp_log_filter))

  abbrev pub check_json : Option String → Checked
  check_json none = ok tt
  check_json (some json) =
      if not (leaf.is_json json)
      then err (invalid "android.assetlinks-json" "must be valid JSON")
      else ok tt

  unfoldable pub validate_android : AndroidConfig → Checked
  validate_android config = check_json (assetlinks_json_of config)

  pub record ClientTelemetryConfig : Type 0 where
    pub endpoint : Option Url

  abbrev pub is_bare_origin : Url → Bool
  is_bare_origin url = not (
      not (same (leaf.path url) "/")
      || (is_some (leaf.query url)
          || (is_some (leaf.fragment url)
              || (not (is_empty_text (leaf.username url)) || is_some (leaf.password url)))))

  abbrev pub check_endpoint : Option Url → Checked
  check_endpoint none = ok tt
  check_endpoint (some url) =
      if not (same (leaf.scheme url) "https")
      then err (invalid "client-telemetry.endpoint" "must be an https URL")
      else if not (is_bare_origin url)
      then err (
          invalid "client-telemetry.endpoint"
            "must be a bare origin (`https://host[:port]`) with no path, query or credentials")
      else ok tt

  unfoldable pub validate_client_telemetry : ClientTelemetryConfig → Checked
  validate_client_telemetry config = check_endpoint config.endpoint

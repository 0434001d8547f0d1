-- ===== src/Config/Leaves.antt =====
-- What crates/server/src/config.rs does to the leaves of a source before its layers merge.
use v_note.Base.{String, List, [], ◌∷◌, map, ℕ}
use v_note.Base.Replace.{replace}
use v_note.Base.Whitespace.{trim}

-- `config::Value`: a text, a table, an array, or a leaf of another kind.
mutual
  pub data Value : Type 0 where
    text : String → Value
    table : Table → Value
    array : Items → Value
    other : ℕ → Value

  pub data Table : Type 0 where
    no_entries : Table
    entry : String → Value → Table → Table

  pub data Items : Type 0 where
    no_items : Items
    item : Value → Items → Items

unfoldable mutual
  pub trim_value : Value → Value
  trim_value (text s) = text (trim s)
  trim_value (table entries) = table (trim_values entries)
  trim_value (array items) = array (trim_items items)
  trim_value (other n) = other n

  pub trim_values : Table → Table
  trim_values no_entries = no_entries
  trim_values (entry key value entries) = entry key (trim_value value) (trim_values entries)

  pub trim_items : Items → Items
  trim_items no_items = no_items
  trim_items (item value items) = item (trim_value value) (trim_items items)

-- `Trimmed::collect`, of what its source collected.
unfoldable pub trimmed_collect : List (String × Value) → List (String × Value)
trimmed_collect collected = map (λ (key, value). (key, trim_value value)) collected

-- `KebabCaseEnvironment::collect`.
unfoldable pub kebab_case_collect : List (String × Value) → List (String × Value)
kebab_case_collect collected = map (λ (key, value). (replace b'_' "-" key, value)) collected

abbrev pub defaults : List (String × String)
defaults =
    ("database.port", "5432")
    ∷ ("observability.otlp-protocol", "grpc")
    ∷ ("observability.otlp-timeout-ms", "2000")
    ∷ ("observability.service-name", "v-note")
    ∷ ("observability.metrics-addr", "0.0.0.0:9090")
    ∷ ("server.http-port", "8080")
    ∷ ("android.assetlinks-json", "")
    ∷ ("realtime.coalesce-replay", "true")
    ∷ ("realtime.compression", "false")
    ∷ ("client-telemetry.endpoint", "")
    ∷ []

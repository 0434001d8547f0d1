-- ===== src/Telemetry/Tests.antt =====
-- The theorems on the telemetry rules at concrete values.
use v_note.Base.{ℕ, ◌≡◌, refl, true, false, [], ◌∷◌, none, some, arith}
use v_note.Telemetry.Outbox.{Outbox, push_all, push_all_lem}
use v_note.Telemetry.Policy.{
  ExportPolicy, signed_out, accepted, retryable, should_export, needs_refresh, record_outcome,
}
use v_note.Telemetry.Lifecycle.{awaiting_config, Credentials, ConfigFetch, unavailable}
use v_note.Telemetry.Stopping.{PolicyCall, report, token_refreshed, run, run-stays_stopped}
use v_note.Telemetry.Configured.{answered, run_lifecycle, IsAllowed, run_lifecycle-IsAllowed}
use v_note.Samples.{whole}

-- Two of three places taken.
abbrev outbox : Outbox ℕ
outbox = record { items = 1 ∷ 2 ∷ []; capacity = 3; dropped = 0 }

push_all_lem_example :
    ((push_all (3 ∷ 4 ∷ []) outbox).items ≡ 2 ∷ 3 ∷ 4 ∷ [])
    × ((push_all (3 ∷ 4 ∷ []) outbox).dropped ≡ 1)
push_all_lem_example = push_all_lem (3 ∷ 4 ∷ []) outbox (omega arith)

abbrev policy : ExportPolicy ℕ
policy = record {
  stopped = none;
  failures = 0;
  failing = false;
  refreshed_after_401 = false;
  refresh_pending = false;
  next_attempt_at_ms = 0;
}

abbrev stopped_policy : ExportPolicy ℕ
stopped_policy = record policy { stopped = some signed_out }

abbrev failure : PolicyCall ℕ
failure = report (retryable (some 503) none) 1 1000 0

run-stays_stopped_example :
    ((run whole (report accepted 1 5 0 ∷ token_refreshed ∷ []) stopped_policy).stopped
      ≡ some signed_out)
    × ((should_export whole 9
            (run whole (report accepted 1 5 0 ∷ token_refreshed ∷ []) stopped_policy)
          ≡ false)
        × (needs_refresh (run whole (report accepted 1 5 0 ∷ token_refreshed ∷ []) stopped_policy)
            ≡ false))
run-stays_stopped_example =
    run-stays_stopped whole (report accepted 1 5 0 ∷ token_refreshed ∷ []) stopped_policy signed_out
      9 refl

retries : (record_outcome whole (retryable (some 503) none) 1 1000 0 policy).1.retry_batch ≡ true
unfolding record_outcome
retries = refl

abbrev credential : Credentials ℕ
credential = record { endpoint = "https://otlp"; access_token = "token"; expires_at = 3600 }

run_lifecycle-IsAllowed_example : IsAllowed whole (
    run_lifecycle whole
      (answered (ConfigFetch.configured credential) 5 ∷ answered unavailable 9 ∷ [])
      (awaiting_config 0))
unfolding IsAllowed
run_lifecycle-IsAllowed_example =
    run_lifecycle-IsAllowed whole
      (answered (ConfigFetch.configured credential) 5 ∷ answered unavailable 9 ∷ [])
      (awaiting_config 0) tt

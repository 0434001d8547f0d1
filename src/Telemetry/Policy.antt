-- ===== src/Telemetry/Policy.antt =====
-- `ExportOutcome` and `ExportPolicy` of frontend/src/telemetry/outbox.rs.
use v_note.Base.{
  ℕ, ◌+◌, ◌-◌, ◌^◌, Bool, true, false, not, ◌&&◌, ◌||◌, Option, none, some, min, if◌then◌else◌, ltb,
  leb, ◌==◌,
}
use v_note.Protocol.Float.{Float, clamp}

pub data OffReason : Type 0 where
  not_configured signed_out config_timed_out session_expired unauthorized gave_up : OffReason

pub data Transition : Type 0 where
  started_failing recovered : Transition
  stopped : OffReason → Transition

abbrev pub max_batch_attempts : ℕ
max_batch_attempts = 3

abbrev pub max_consecutive_failures : ℕ
max_consecutive_failures = 6

pub data ExportOutcome (F : Type 0) : Type 0 where
  accepted unauthorized : ExportOutcome F
  rejected : ℕ → ExportOutcome F
  -- the status and the milliseconds of `Retry-After`
  retryable : Option ℕ → Option F → ExportOutcome F

pub record Decision : Type 0 where
  pub retry_batch : Bool
  pub refresh_token : Bool
  pub transition : Option Transition

pub record ExportPolicy (F : Type 0) : Type 0 where
  pub stopped : Option OffReason
  pub failures : ℕ
  pub failing : Bool
  pub refreshed_after_401 : Bool
  pub refresh_pending : Bool
  pub next_attempt_at_ms : F

-- `ExportOutcome::from_response`, given what `parse_retry_after_ms` makes of the header.
unfoldable pub from_response : {F : Type 0} → Option ℕ → Option F → ExportOutcome F
from_response none retry_after_ms = retryable none none
from_response (some status) retry_after_ms =
    if leb 200 status && leb status 299
    then accepted
    else if status == 401
    then unauthorized
    else if (status == 429) || ((status == 502) || ((status == 503) || (status == 504)))
    then retryable (some status) retry_after_ms
    else rejected status

abbrev is_none {ℓ} : {A : Type ℓ} → Option A → Bool
is_none none = true
is_none (some a) = false

module _ {F : Type 0} where
  unfoldable pub needs_refresh : ExportPolicy F → Bool
  needs_refresh p = is_none p.stopped && p.refresh_pending

  unfoldable pub refreshed : ExportPolicy F → ExportPolicy F
  refreshed p = record p { refresh_pending = false }

  unfoldable pub stop : OffReason → ExportPolicy F → ExportPolicy F × Option Transition
  stop reason p = elim p.stopped [
    | some _ ↦ (p, none)
    | none ↦ (record p { stopped = some reason }, some (stopped reason))
  ]

  unfoldable pub start_failing : ExportPolicy F → ExportPolicy F × Option Transition
  start_failing p =
      if p.failing then (p, none) else (record p { failing = true }, some started_failing)

abbrev decide : Bool → Bool → Option Transition → Decision
decide retry_batch refresh_token transition = record {
  retry_batch = retry_batch;
  refresh_token = refresh_token;
  transition = transition;
}

module _ (f : Float) where
  open f use {F64, literal, le, max, min as f_min, add, mul, div, of_u32}

  unfoldable pub new_policy : ExportPolicy F64
  new_policy = record {
    stopped = none;
    failures = 0;
    failing = false;
    refreshed_after_401 = false;
    refresh_pending = false;
    next_attempt_at_ms = literal 0 1;
  }

  unfoldable pub should_export : F64 → ExportPolicy F64 → Bool
  should_export now_ms p =
      is_none p.stopped && (not p.refresh_pending && le p.next_attempt_at_ms now_ms)

  unfoldable pub backoff_ms : ℕ → F64 → F64
  backoff_ms failures jitter =
      let exponent = min (failures - 1) 16 in
      let ceiling = f_min (mul (literal 5000 1) (of_u32 (2 ^ exponent))) (literal 300000 1) in
      let half = div ceiling (literal 2 1) in
      add half (mul half (clamp f jitter (literal 0 1) (literal 1 1)))

  abbrev or_zero : Option F64 → F64
  or_zero none = literal 0 1
  or_zero (some ms) = ms

  abbrev with_decision :
      Bool → Bool → ExportPolicy F64 × Option Transition → ExportPolicy F64 × Decision
  with_decision retry_batch refresh_token (p, transition) =
      (p, decide retry_batch refresh_token transition)

  unfoldable pub record_outcome :
      ExportOutcome F64 → ℕ → F64 → F64 → ExportPolicy F64 → ExportPolicy F64 × Decision
  unfolding stop start_failing
  record_outcome outcome attempts now_ms jitter p = elim p.stopped [
    | some _ ↦ (p, decide false false none)
    | none ↦ elim outcome [
      | accepted ↦ (
        record p {
          failures = 0;
          refreshed_after_401 = false;
          next_attempt_at_ms = now_ms;
          failing = false;
        },
        decide false false (if p.failing then some recovered else none),
      )
      | unauthorized ↦
          if p.refreshed_after_401
          then with_decision false false (stop OffReason.unauthorized p)
          else with_decision false true
              (start_failing (record p { refreshed_after_401 = true; refresh_pending = true }))
      | rejected status ↦ with_decision false false (start_failing p)
      | retryable status retry_after_ms ↦
          let failed = record p { failures = p.failures + 1 } in
          let wait =
            max (backoff_ms failed.failures jitter)
              (f_min (or_zero retry_after_ms) (literal 900000 1)) in
          if leb max_consecutive_failures failed.failures
          then with_decision false false (stop gave_up failed)
          else with_decision (ltb attempts max_batch_attempts) false
              (start_failing (record failed { next_attempt_at_ms = add now_ms wait }))
    ]
  ]

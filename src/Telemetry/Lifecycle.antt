-- ===== src/Telemetry/Lifecycle.antt =====
-- `Credentials` and `Lifecycle` of frontend/src/telemetry/outbox.rs.
use v_note.Base.{
  ℕ, ◌+◌, Bool, true, false, not, ◌&&◌, String, same, Option, none, some, if◌then◌else◌, leb,
}
use v_note.Protocol.Float.{Float}
use v_note.Telemetry.Policy.{
  OffReason, not_configured, config_timed_out, session_expired, gave_up, max_consecutive_failures,
}

pub record Credentials (F : Type 0) : Type 0 where
  pub endpoint : String
  pub access_token : String
  pub expires_at : F

pub data ConfigFetch (F : Type 0) : Type 0 where
  configured : Credentials F → ConfigFetch F
  absent signed_out unavailable : ConfigFetch F

pub data ConfigOutcome : Type 0 where
  configured refreshed wait : ConfigOutcome
  off : OffReason → ConfigOutcome

pub data Lifecycle (F : Type 0) : Type 0 where
  awaiting_config : F → Lifecycle F
  -- with the count of consecutive refreshes that the server did not answer
  configured : Credentials F → ℕ → Lifecycle F
  off : OffReason → Lifecycle F

module _ {F : Type 0} where
  unfoldable pub new_lifecycle : F → Lifecycle F
  new_lifecycle now_ms = awaiting_config now_ms

  unfoldable pub turn_off : OffReason → Lifecycle F → Lifecycle F
  turn_off reason (Lifecycle.off r) = Lifecycle.off r
  turn_off reason _ = Lifecycle.off reason

  unfoldable pub is_off : Lifecycle F → Bool
  is_off (Lifecycle.off r) = true
  is_off _ = false

  unfoldable pub is_awaiting : Lifecycle F → Bool
  is_awaiting (awaiting_config since_ms) = true
  is_awaiting _ = false

  unfoldable pub credentials : Lifecycle F → Option (Credentials F)
  credentials (Lifecycle.configured c failed_refreshes) = some c
  credentials _ = none

module _ (f : Float) where
  open f use {F64, literal, le, lt, add, sub}

  unfoldable pub usable_token : F64 → Credentials F64 → Option String
  usable_token now_s c =
      if lt (add now_s (literal 30 1)) c.expires_at && not (same c.access_token "")
      then some c.access_token
      else none

  abbrev turned_off : OffReason → Lifecycle F64 × ConfigOutcome
  turned_off reason = (Lifecycle.off reason, ConfigOutcome.off reason)

  -- A `200`: `answer` is what it means if the credential is usable.
  abbrev on_credentials :
      Credentials F64 → ConfigOutcome → Option String → Lifecycle F64 × ConfigOutcome
  on_credentials c answer (some token) = (Lifecycle.configured c 0, answer)
  on_credentials c answer none = turned_off session_expired

  unfoldable pub on_config : ConfigFetch F64 → F64 → Lifecycle F64 → Lifecycle F64 × ConfigOutcome
  unfolding usable_token
  on_config fetch now_s (Lifecycle.off reason) = (Lifecycle.off reason, ConfigOutcome.off reason)
  on_config (ConfigFetch.configured c) now_s (awaiting_config since_ms) =
      on_credentials c ConfigOutcome.configured (usable_token now_s c)
  on_config absent now_s (awaiting_config since_ms) = turned_off not_configured
  on_config ConfigFetch.signed_out now_s (awaiting_config since_ms) =
      turned_off OffReason.signed_out
  on_config unavailable now_s (awaiting_config since_ms) = (awaiting_config since_ms, wait)
  on_config (ConfigFetch.configured c) now_s (Lifecycle.configured old failed_refreshes) =
      on_credentials c ConfigOutcome.refreshed (usable_token now_s c)
  on_config absent now_s (Lifecycle.configured old failed_refreshes) = turned_off not_configured
  on_config ConfigFetch.signed_out now_s (Lifecycle.configured old failed_refreshes) =
      turned_off session_expired
  on_config unavailable now_s (Lifecycle.configured old failed_refreshes) =
      if leb max_consecutive_failures (failed_refreshes + 1)
      then turned_off gave_up
      else (Lifecycle.configured old (failed_refreshes + 1), wait)

  abbrev expired_since : F64 → F64 → Bool
  expired_since now_ms since_ms = le (literal 60000 1) (sub now_ms since_ms)

  unfoldable pub expire : F64 → Lifecycle F64 → Lifecycle F64 × Bool
  expire now_ms (awaiting_config since_ms) =
      if expired_since now_ms since_ms
      then (Lifecycle.off config_timed_out, true)
      else (awaiting_config since_ms, false)
  expire now_ms l = (l, false)

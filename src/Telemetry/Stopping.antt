-- ===== src/Telemetry/Stopping.antt =====
-- Sequences of calls on `ExportPolicy` of frontend/src/telemetry/outbox.rs: what
-- stops the exporter, and that nothing starts it again.
use v_note.Base.{
  ℕ, suc, ◌+◌, ◌≤◌, ◌<◌, ◌≡◌, ◌≢◌, ◌⊎◌, inl, inr, true, false, List, [], ◌∷◌, none, some, arith,
  All, length, dec_le,
}
use v_note.Protocol.Float.{Float}
use v_note.Telemetry.Policy.{
  ExportPolicy, ExportOutcome, OffReason, accepted, unauthorized, rejected, retryable, gave_up,
  record_outcome, refreshed, stop, start_failing, should_export, needs_refresh,
}

-- One call of the exporter on its policy.
pub data PolicyCall (F : Type 0) : Type 0 where
  -- the outcome of an attempt, the batch's attempts, the clock and the jitter
  report : ExportOutcome F → ℕ → F → F → PolicyCall F
  token_refreshed : PolicyCall F
  turn_off_for : OffReason → PolicyCall F

module _ (f : Float) where
  open f use {F64}

  unfoldable pub apply : PolicyCall F64 → ExportPolicy F64 → ExportPolicy F64
  unfolding refreshed stop
  apply (report outcome attempts now_ms jitter) p =
      (record_outcome f outcome attempts now_ms jitter p).0
  apply token_refreshed p = refreshed p
  apply (turn_off_for reason) p = (stop reason p).0

  unfoldable pub run : List (PolicyCall F64) → ExportPolicy F64 → ExportPolicy F64
  unfolding apply
  run [] p = p
  run (call ∷ calls) p = run calls (apply call p)

  unfoldable pub IsRetryable : ExportOutcome F64 → Type 0
  IsRetryable (retryable status retry_after_ms) = Unit
  IsRetryable _ = ⊥

  -- A report of a retryable failure.
  unfoldable pub IsFailure : PolicyCall F64 → Type 0
  IsFailure (report outcome attempts now_ms jitter) = IsRetryable outcome
  IsFailure _ = ⊥

  apply-stopped :
      (call : PolicyCall F64) (p : ExportPolicy F64) (reason : OffReason)
      → p.stopped ≡ some reason
      → (apply call p).stopped ≡ some reason
  unfolding apply refreshed stop record_outcome
  apply-stopped (report outcome attempts now_ms jitter) p reason h = ground arith
  apply-stopped token_refreshed p reason h = h
  apply-stopped (turn_off_for r) p reason h = ground arith

  run-stopped :
      (calls : List (PolicyCall F64)) (p : ExportPolicy F64) (reason : OffReason)
      → p.stopped ≡ some reason
      → (run calls p).stopped ≡ some reason
  unfolding run
  run-stopped [] p reason h = h
  run-stopped (call ∷ calls) p reason h =
      run-stopped calls (apply call p) reason (apply-stopped call p reason h)

  -- Once the exporter has stopped, whatever is reported to it afterwards, the reason stays, and
  -- it neither exports nor asks for a token.
  pub run-stays_stopped :
      (calls : List (PolicyCall F64)) (p : ExportPolicy F64) (reason : OffReason) (now_ms : F64)
      → p.stopped ≡ some reason
      → ((run calls p).stopped ≡ some reason)
        × ((should_export f now_ms (run calls p) ≡ false) × (needs_refresh (run calls p) ≡ false))
  unfolding should_export needs_refresh
  run-stays_stopped calls p reason now_ms h =
      let e = run-stopped calls p reason h in (e, (ground (arith, e), ground (arith, e)))

  failure_lem :
      (call : PolicyCall F64) (p : ExportPolicy F64)
      → IsFailure call
      → p.stopped ≡ none
      → ((suc p.failures < 6)
          × (((apply call p).stopped ≡ none) × ((apply call p).failures ≡ suc p.failures)))
        ⊎ ((6 ≤ suc p.failures) × ((apply call p).stopped ≡ some gave_up))
  unfolding apply record_outcome IsFailure IsRetryable stop start_failing
  failure_lem (report (retryable s r) attempts now_ms jitter) p i h =
      elim (dec_le 6 (suc p.failures)) [
        | yes le ↦ inr (le, ground arith)
        | no lt ↦ inl (omega arith, (ground arith, ground arith))
      ]
  failure_lem (report accepted attempts now_ms jitter) p i h = absurd i
  failure_lem (report unauthorized attempts now_ms jitter) p i h = absurd i
  failure_lem (report (rejected s) attempts now_ms jitter) p i h = absurd i
  failure_lem token_refreshed p i h = absurd i
  failure_lem (turn_off_for r) p i h = absurd i

  -- Retryable failures one after another: while fewer than six in a row have been counted the
  -- exporter goes on, and at six it has given up.
  pub run-gives_up :
      (calls : List (PolicyCall F64)) (p : ExportPolicy F64)
      → All IsFailure calls
      → p.stopped ≡ none
      → p.failures < 6
      → ((p.failures + length calls < 6) × ((run calls p).stopped ≡ none))
        ⊎ ((6 ≤ p.failures + length calls) × ((run calls p).stopped ≡ some gave_up))
  unfolding run
  run-gives_up [] p i h lt = inl (omega arith, h)
  run-gives_up (call ∷ calls) p i h lt = elim (failure_lem call p i.0 h) [
    | inl (lt', (h', e)) ↦ elim (run-gives_up calls (apply call p) i.1 h' (omega (arith, e))) [
      | inl (fewer, r) ↦ inl (omega (arith, e), r)
      | inr (more, r) ↦ inr (omega (arith, e), r)
    ]
    | inr (le, h') ↦ inr (omega arith, run-stopped calls (apply call p) gave_up h')
  ]

  -- A batch is tried again only after a retryable failure, before its third attempt, and while the
  -- exporter has not stopped; the next attempt is then at the time that the policy names.
  pub record_outcome-retry_batch :
      (outcome : ExportOutcome F64) (attempts : ℕ) (now_ms jitter : F64) (p : ExportPolicy F64)
      → (record_outcome f outcome attempts now_ms jitter p).1.retry_batch ≡ true
      → IsRetryable outcome
        × ((attempts < 3) × ((record_outcome f outcome attempts now_ms jitter p).0.stopped ≡ none))
  unfolding record_outcome IsRetryable stop start_failing
  record_outcome-retry_batch accepted attempts now_ms jitter p h = absurd (ground arith)
  record_outcome-retry_batch unauthorized attempts now_ms jitter p h = absurd (ground arith)
  record_outcome-retry_batch (rejected s) attempts now_ms jitter p h = absurd (ground arith)
  record_outcome-retry_batch (retryable s r) attempts now_ms jitter p h =
      (tt, (ground arith, ground arith))

  -- A call that reports no success.
  unfoldable pub IsUnaccepted : PolicyCall F64 → Type 0
  IsUnaccepted (report accepted attempts now_ms jitter) = ⊥
  IsUnaccepted _ = Unit

  run-refreshed_after_401 :
      (calls : List (PolicyCall F64)) (p : ExportPolicy F64)
      → All IsUnaccepted calls
      → p.refreshed_after_401 ≡ true
      → (run calls p).refreshed_after_401 ≡ true
  unfolding run apply record_outcome stop start_failing refreshed IsUnaccepted
  run-refreshed_after_401 [] p i h = h
  run-refreshed_after_401 (report accepted a n j ∷ calls) p i h = absurd i.0
  run-refreshed_after_401 (report unauthorized a n j ∷ calls) p i h =
      run-refreshed_after_401 calls (apply (report unauthorized a n j) p) i.1 (ground arith)
  run-refreshed_after_401 (report (rejected s) a n j ∷ calls) p i h =
      run-refreshed_after_401 calls (apply (report (rejected s) a n j) p) i.1 (ground arith)
  run-refreshed_after_401 (report (retryable s r) a n j ∷ calls) p i h =
      run-refreshed_after_401 calls (apply (report (retryable s r) a n j) p) i.1 (ground arith)
  run-refreshed_after_401 (token_refreshed ∷ calls) p i h =
      run-refreshed_after_401 calls (refreshed p) i.1 h
  run-refreshed_after_401 (turn_off_for r ∷ calls) p i h =
      run-refreshed_after_401 calls (apply (turn_off_for r) p) i.1 (ground arith)

  -- After a 401, with no success reported in between, the next 401 leaves the exporter stopped,
  -- and asks for no further token.
  pub run-second_unauthorized :
      (calls : List (PolicyCall F64)) (p : ExportPolicy F64) (attempts attempts' : ℕ)
      (now_ms now_ms' jitter jitter' : F64)
      → p.stopped ≡ none
      → All IsUnaccepted calls
      → let q = run calls (apply (report unauthorized attempts now_ms jitter) p) in
        let answer = record_outcome f unauthorized attempts' now_ms' jitter' q in
        (answer.0.stopped ≢ none) × (answer.1.refresh_token ≡ false)
  unfolding apply record_outcome stop start_failing
  run-second_unauthorized calls p attempts attempts' now_ms now_ms' jitter jitter' h i =
      let q = run calls (apply (report unauthorized attempts now_ms jitter) p) in
      let e =
        run-refreshed_after_401 calls (apply (report unauthorized attempts now_ms jitter) p) i
          (ground arith) in
      (ground (arith, e), ground (arith, e))

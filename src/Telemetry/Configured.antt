-- ===== src/Telemetry/Configured.antt =====
-- Sequences of calls on `Lifecycle` of frontend/src/telemetry/outbox.rs: what a configured exporter
-- holds, and that nothing configures it again once it is off.
use v_note.Base.{same, ◌<◌, ◌≡◌, refl, false, List, [], ◌∷◌, arith}
use v_note.Protocol.Float.{Float}
use v_note.Telemetry.Policy.{OffReason}
use v_note.Telemetry.Lifecycle.{
  Lifecycle, off, ConfigFetch, awaiting_config, absent, unavailable, usable_token, turn_off,
  on_config, expire,
}

module _ (f : Float) where
  open f use {F64}

  pub data LifecycleCall : Type 0 where
    answered : ConfigFetch F64 → F64 → LifecycleCall
    tick : F64 → LifecycleCall
    turned_off : OffReason → LifecycleCall

  unfoldable pub apply_lifecycle : LifecycleCall → Lifecycle F64 → Lifecycle F64
  apply_lifecycle (answered fetch now_s) l = (on_config f fetch now_s l).0
  apply_lifecycle (tick now_ms) l = (expire f now_ms l).0
  apply_lifecycle (turned_off reason) l = turn_off reason l

  unfoldable pub run_lifecycle : List LifecycleCall → Lifecycle F64 → Lifecycle F64
  run_lifecycle [] l = l
  run_lifecycle (call ∷ calls) l = run_lifecycle calls (apply_lifecycle call l)

  -- Off is final: no answer of the server, no tick and no other reason changes it.
  pub run_lifecycle-off :
      (calls : List LifecycleCall) (reason : OffReason)
      → run_lifecycle calls (off reason) ≡ off reason
  unfolding run_lifecycle apply_lifecycle on_config expire turn_off
  run_lifecycle-off [] reason = refl
  run_lifecycle-off (answered fetch now_s ∷ calls) reason = run_lifecycle-off calls reason
  run_lifecycle-off (tick now_ms ∷ calls) reason = run_lifecycle-off calls reason
  run_lifecycle-off (turned_off r ∷ calls) reason = run_lifecycle-off calls reason

  -- A configured exporter's token is not empty, and fewer than six refreshes in a row have gone
  -- unanswered.
  unfoldable pub IsAllowed : Lifecycle F64 → Type 0
  IsAllowed (Lifecycle.configured c failed_refreshes) =
      (same c.access_token "" ≡ false) × (failed_refreshes < 6)
  IsAllowed _ = Unit

  on_config-IsAllowed :
      (fetch : ConfigFetch F64) (now_s : F64) (l : Lifecycle F64)
      → IsAllowed l
      → IsAllowed (on_config f fetch now_s l).0
  unfolding on_config IsAllowed usable_token
  on_config-IsAllowed fetch now_s (off reason) h = tt
  on_config-IsAllowed (ConfigFetch.configured c) now_s (awaiting_config since_ms) h = ground arith
  on_config-IsAllowed absent now_s (awaiting_config since_ms) h = tt
  on_config-IsAllowed ConfigFetch.signed_out now_s (awaiting_config since_ms) h = tt
  on_config-IsAllowed unavailable now_s (awaiting_config since_ms) h = tt
  on_config-IsAllowed (ConfigFetch.configured c) now_s (Lifecycle.configured old n) h = ground arith
  on_config-IsAllowed absent now_s (Lifecycle.configured old n) h = tt
  on_config-IsAllowed ConfigFetch.signed_out now_s (Lifecycle.configured old n) h = tt
  on_config-IsAllowed unavailable now_s (Lifecycle.configured old n) h = ground arith

  apply_lifecycle-IsAllowed :
      (call : LifecycleCall) (l : Lifecycle F64) → IsAllowed l → IsAllowed (apply_lifecycle call l)
  unfolding apply_lifecycle expire turn_off IsAllowed
  apply_lifecycle-IsAllowed (answered fetch now_s) l h = on_config-IsAllowed fetch now_s l h
  apply_lifecycle-IsAllowed (tick now_ms) (awaiting_config since_ms) h = ground arith
  apply_lifecycle-IsAllowed (tick now_ms) (Lifecycle.configured c n) h = h
  apply_lifecycle-IsAllowed (tick now_ms) (off r) h = tt
  apply_lifecycle-IsAllowed (turned_off reason) (awaiting_config since_ms) h = tt
  apply_lifecycle-IsAllowed (turned_off reason) (Lifecycle.configured c n) h = tt
  apply_lifecycle-IsAllowed (turned_off reason) (off r) h = tt

  -- Whatever the server answers and whenever the ticks come, a configured exporter holds a token
  -- that is not empty, and has fewer than six refreshes in a row unanswered.
  pub run_lifecycle-IsAllowed :
      (calls : List LifecycleCall) (l : Lifecycle F64)
      → IsAllowed l
      → IsAllowed (run_lifecycle calls l)
  unfolding run_lifecycle
  run_lifecycle-IsAllowed [] l h = h
  run_lifecycle-IsAllowed (call ∷ calls) l h =
      run_lifecycle-IsAllowed calls (apply_lifecycle call l) (apply_lifecycle-IsAllowed call l h)

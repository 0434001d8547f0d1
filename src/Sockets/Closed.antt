-- ===== src/Sockets/Closed.antt =====
-- How a page's connection starts and ends in crates/server/src/realtime/socket.rs.
use v_note.Base.{
  ℕ, ◌≡◌, ◌≢◌, refl, sym, ap, ◌∙◌, subst, Bool, true, false, String, List, [], ◌∷◌, ◌++◌, Option,
  none, some, Result, ok, err, arith, Option-cases, inl, inr,
}
use v_note.Protocol.Float.{Float}
use v_note.Protocol.Paper.{Paper}
use v_note.Protocol.Messages.{PageClientMessage, PageServerMessage, welcome}
use v_note.Hub
use v_note.Hub.{Lease, RealtimeHub}
use v_note.Dispatch.Context.{PageStore, PageContext, World, Socket, send_page, send_page_frame}
use v_note.Sockets.{
  Connection, ConnectionEvent, fanned_out, lagged, round, loop, unless_ended, after_loop,
  release_on_close, handle_page_socket, send_welcome, ended_unless, forward_page_fanout, welcomed,
  or_zero,
}

-- The session does not hold the lease.
abbrev pub NotHolder : String → Option Lease → Type 0
NotHolder session_id lease = (l : Lease) → lease ≡ some l → l.holder ≢ session_id

module _ (f : Float) (store : PageStore f.F64) (socket : Socket f.F64) (ctx : PageContext)
    (parse : String → Option (PageClientMessage f.F64)) where
  open f use {F64}

  unless_ended_congr :
      (g h : World F64 store.State → Connection F64 store.State)
      → ((w : World F64 store.State) → g w ≡ h w)
      → (c : Connection F64 store.State)
      → unless_ended f store socket ctx parse g c ≡ unless_ended f store socket ctx parse h c
  unless_ended_congr g h e c = elim (Option-cases c.reason) [
    | inl n ↦ rw n (e c.world)
    | inr (r, s) ↦ rw s refl
  ]

  -- A connection that lags behind its channel handles nothing more: it is closed with the code that
  -- asks the client to come back, at the first message that it missed.
  pub loop-lagged :
      (before after : List (ConnectionEvent F64 store.State)) (skipped : ℕ)
      (w : World F64 store.State)
      → loop f store socket ctx parse (before ++ fanned_out (err (lagged skipped)) ∷ after) w
        ≡ loop f store socket ctx parse (before ++ fanned_out (err (lagged skipped)) ∷ []) w
  unfolding loop forward_page_fanout
  loop-lagged [] after skipped w = refl
  loop-lagged (e ∷ before) after skipped w =
      unless_ended_congr _ _ (loop-lagged before after skipped) (round f store socket ctx parse e w)

  release_on_close-NotHolder :
      (w : World F64 store.State)
      → NotHolder ctx.session_id
          ((release_on_close f store socket ctx parse w).hub.leases ctx.page_id)
  unfolding release_on_close Hub.release_lease Hub.publish_page
  release_on_close-NotHolder w l h = ground arith

  after_loop-NotHolder :
      (c : Connection F64 store.State) {reason : String}
      → (after_loop f store socket ctx parse c).reason ≡ some reason
      → NotHolder ctx.session_id
          ((after_loop f store socket ctx parse c).world.hub.leases ctx.page_id)
  after_loop-NotHolder c {reason} h = elim (Option-cases c.reason) [
    | inl n ↦ absurd (ground arith)
    | inr (r, s) ↦ rw s (release_on_close-NotHolder c.world)
  ]

  ended_unless-goes_on :
      (reason : String) (r : World F64 store.State × Bool)
      → (ended_unless f store socket ctx parse reason r).reason ≡ none
      → (r.1 ≡ true) × ((ended_unless f store socket ctx parse reason r).world ≡ r.0)
  ended_unless-goes_on reason (w, true) h = (refl, refl)
  ended_unless-goes_on reason (w, false) h = cc

  sent-send_page :
      (message : PageServerMessage F64) (w : World F64 store.State)
      → (send_page socket message w).1 ≡ true
      → (send_page socket message w).0.sent ≡ w.sent ++ message ∷ []
  unfolding send_page send_page_frame
  sent-send_page message w h = ground arith

  welcomed-goes_on :
      (last_seq : ℕ) (holder : Option String) (r : Result Paper store.Error)
      (w : World F64 store.State)
      → (welcomed f store socket ctx parse last_seq holder r w).reason ≡ none
      → (paper : Paper) × (r ≡ ok paper)
        × ((welcomed f store socket ctx parse last_seq holder r w).world.sent
            ≡ w.sent ++ welcome ctx.session_id last_seq holder paper ∷ [])
  welcomed-goes_on last_seq holder (err e) w h = cc
  welcomed-goes_on last_seq holder (ok paper) w h =
      let message = welcome ctx.session_id last_seq holder paper in
      let (sent, e) = ended_unless-goes_on _ (send_page socket message w) h in
      (paper, refl, ap (λ (v : World F64 store.State). v.sent) e ∙ sent-send_page message w sent)

  -- A connection goes on only after it has sent its welcome, ahead of every other frame, with the
  -- paper that the store has and the session that holds the lease.
  pub send_welcome-goes_on :
      (now : ℕ) (w : World F64 store.State)
      → (send_welcome f store socket ctx parse now w).reason ≡ none
      → (last_seq : ℕ) × (paper : Paper) × (store.current_paper ctx.page_id w.store ≡ ok paper)
        × ((send_welcome f store socket ctx parse now w).world.sent
            ≡ w.sent
              ++ welcome ctx.session_id last_seq
                  (Hub.current_lease_holder now ctx.page_id w.hub).1
                  paper
                ∷ [])
  unfolding send_welcome
  send_welcome-goes_on now w h =
      let last_seq = or_zero (store.max_seq ctx.page_id w.store) in
      let (hub, holder) = Hub.current_lease_holder now ctx.page_id w.hub in
      let (paper, read, sent) =
        welcomed-goes_on last_seq holder (store.current_paper ctx.page_id w.store)
          (record w { hub = hub }) h in
      (last_seq, paper, read, sent)

  hub-send_page :
      (message : PageServerMessage F64) (w : World F64 store.State)
      → (send_page socket message w).0.hub ≡ w.hub
  unfolding send_page send_page_frame
  hub-send_page message w = ground arith

  world-ended_unless :
      (reason : String) (r : World F64 store.State × Bool)
      → (ended_unless f store socket ctx parse reason r).world ≡ r.0
  world-ended_unless reason (w, true) = refl
  world-ended_unless reason (w, false) = refl

  hub-welcomed :
      (last_seq : ℕ) (holder : Option String) (r : Result Paper store.Error)
      (w : World F64 store.State)
      → (welcomed f store socket ctx parse last_seq holder r w).world.hub ≡ w.hub
  hub-welcomed last_seq holder (err e) w = hub-send_page _ w
  hub-welcomed last_seq holder (ok paper) w =
      ap (λ (v : World F64 store.State). v.hub)
        (world-ended_unless "welcome send failed"
          (send_page socket (welcome ctx.session_id last_seq holder paper) w))
      ∙ hub-send_page _ w

  current_lease_holder-NotHolder :
      (now : ℕ) (hub : RealtimeHub F64)
      → NotHolder ctx.session_id (hub.leases ctx.page_id)
      → NotHolder ctx.session_id
          ((Hub.current_lease_holder now ctx.page_id hub).0.leases ctx.page_id)
  unfolding Hub.current_lease_holder
  current_lease_holder-NotHolder now hub fresh l h = fresh l (ground arith)

  send_welcome-NotHolder :
      (now : ℕ) (w : World F64 store.State)
      → NotHolder ctx.session_id (w.hub.leases ctx.page_id)
      → NotHolder ctx.session_id
          ((send_welcome f store socket ctx parse now w).world.hub.leases ctx.page_id)
  unfolding send_welcome
  send_welcome-NotHolder now w fresh =
      subst (λ (hub : RealtimeHub F64). NotHolder ctx.session_id (hub.leases ctx.page_id))
        (sym (hub-welcomed _ _ (store.current_paper ctx.page_id w.store) _))
        (current_lease_holder-NotHolder now w.hub fresh)

  -- A connection whose session is new holds no lease on its page when it has ended, however it
  -- ended and whatever it and others did meanwhile.
  pub handle_page_socket-NotHolder :
      (now : ℕ) (events : List (ConnectionEvent F64 store.State)) (w : World F64 store.State)
      {reason : String}
      → NotHolder ctx.session_id (w.hub.leases ctx.page_id)
      → (handle_page_socket f store socket ctx parse now events w).reason ≡ some reason
      → NotHolder ctx.session_id
          ((handle_page_socket f store socket ctx parse now events w).world.hub.leases ctx.page_id)
  unfolding handle_page_socket Hub.subscribe_page
  handle_page_socket-NotHolder now events w {reason} fresh h =
      by_welcome (send_welcome f store socket ctx parse now _) (send_welcome-NotHolder now _ fresh)
        h
    where
      by_welcome :
          (c : Connection F64 store.State)
          → NotHolder ctx.session_id (c.world.hub.leases ctx.page_id)
          → (unless_ended f store socket ctx parse
              (λ w'. after_loop f store socket ctx parse (loop f store socket ctx parse events w'))
              c).reason
            ≡ some reason
          → NotHolder ctx.session_id (
              (unless_ended f store socket ctx parse
                  (λ w'.
                    after_loop f store socket ctx parse (loop f store socket ctx parse events w'))
                  c).world.hub.leases
                ctx.page_id)
      by_welcome c fresh = elim (Option-cases c.reason) [
        | inl n ↦ rw n (λ h. after_loop-NotHolder (loop f store socket ctx parse events c.world) h)
        | inr (r, s) ↦ rw s (λ h. fresh)
      ]

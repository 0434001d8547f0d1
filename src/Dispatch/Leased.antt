-- ===== src/Dispatch/Leased.antt =====
-- The edit lease guards the handlers of crates/server/src/realtime/dispatch.rs.
use v_note.Base.{ℕ, ◌≡◌, ◌≢◌, subst, sym, some, arith}
use v_note.Protocol.Float.{Float}
use v_note.Protocol.Messages.{
  PageClientMessage, PageServerMessage, lease_denied, subscribe, renew_lease, commit_batch,
  commit_tombstones, set_paper,
}
use v_note.Hub.{Lease, live_lease}
use v_note.Hub.Leases.{acquire_lease-denied}
use v_note.Dispatch.Context.{PageStore, PageContext, World, Socket, send_page, send_page_frame}
use v_note.Dispatch.Handlers.{
  dispatch_page_client_message, with_lease, Handler, handle_acquire_lease, handle_renew_lease,
  handle_commit_batch, handle_commit_tombstones, handle_set_paper,
}

-- The messages whose handlers take the lease.
unfoldable pub NeedsLease : {F : Type 0} → PageClientMessage F → Type 0
NeedsLease (subscribe from_seq) = ⊥
NeedsLease PageClientMessage.release_lease = ⊥
NeedsLease _ = Unit

-- What the other connections, the store and the thumbnail worker see.
pub record SeenAlike {F S : Type 0} (w w' : World F S) : Type 0 where
  pub hub : w'.hub ≡ w.hub
  pub store : w'.store ≡ w.store
  pub queued : w'.queued ≡ w.queued

module _ (f : Float) (store : PageStore f.F64) (socket : Socket f.F64) (ctx : PageContext)
    (now : ℕ) where
  open f use {F64}

  with_lease-denied :
      (handler : Handler f store socket ctx now) (w : World F64 store.State) (l : Lease)
      → live_lease now (w.hub.leases ctx.page_id) ≡ some l
      → l.holder ≢ ctx.session_id
      → with_lease f store socket ctx now handler w ≡ send_page socket (lease_denied l.holder) w
  unfolding with_lease
  with_lease-denied handler w l h e =
      rw (acquire_lease-denied now ctx.page_id ctx.session_id w.hub l h e)

  send_page-SeenAlike :
      (message : PageServerMessage F64) (w : World F64 store.State)
      → SeenAlike w (send_page socket message w).0
  unfolding send_page send_page_frame
  send_page-SeenAlike message w = record {
    hub = ground arith;
    store = ground arith;
    queued = ground arith;
  }

  dispatch_denied :
      (message : PageClientMessage F64) (w : World F64 store.State) (l : Lease)
      → NeedsLease message
      → live_lease now (w.hub.leases ctx.page_id) ≡ some l
      → l.holder ≢ ctx.session_id
      → dispatch_page_client_message f store socket ctx now message w
        ≡ send_page socket (lease_denied l.holder) w
  unfolding dispatch_page_client_message handle_acquire_lease handle_renew_lease handle_commit_batch
      handle_commit_tombstones handle_set_paper NeedsLease
  dispatch_denied (subscribe from_seq) w l needs h e = absurd needs
  dispatch_denied PageClientMessage.release_lease w l needs h e = absurd needs
  dispatch_denied PageClientMessage.acquire_lease w l needs h e = with_lease-denied _ w l h e
  dispatch_denied renew_lease w l needs h e = with_lease-denied _ w l h e
  dispatch_denied (commit_batch id strokes) w l needs h e = with_lease-denied _ w l h e
  dispatch_denied (commit_tombstones id ids) w l needs h e = with_lease-denied _ w l h e
  dispatch_denied (set_paper id paper) w l needs h e = with_lease-denied _ w l h e

  -- While another session holds the page's lease, a message that takes the lease is answered by
  -- the holder's name alone: the hub, the store and the thumbnail queue stay as they are.
  pub dispatch_page_client_message-denied :
      (message : PageClientMessage F64) (w : World F64 store.State) (l : Lease)
      → NeedsLease message
      → live_lease now (w.hub.leases ctx.page_id) ≡ some l
      → l.holder ≢ ctx.session_id
      → (dispatch_page_client_message f store socket ctx now message w
          ≡ send_page socket (lease_denied l.holder) w)
        × SeenAlike w (dispatch_page_client_message f store socket ctx now message w).0
  dispatch_page_client_message-denied message w l needs h e =
      let told = dispatch_denied message w l needs h e in
      (
        told,
        subst (λ r. SeenAlike w r.0) (sym told) (send_page-SeenAlike (lease_denied l.holder) w),
      )

-- ===== src/Dispatch/Stored.antt =====
-- What the handlers of crates/server/src/realtime/dispatch.rs make of the store's state.
use v_note.Base.{ℕ, ◌≡◌, ◌⊎◌, inl, inr, refl, String, List, Result, ok, err, arith}
use v_note.Protocol.Float.{Float}
use v_note.Protocol.Paper.{Paper}
use v_note.Protocol.Messages.{
  StrokeBatch, TombstoneBatch, PageClientMessage, PageServerMessage, subscribe, renew_lease,
  commit_batch, commit_tombstones, set_paper, paper_changed,
}
use v_note.Hub
use v_note.Hub.{LeaseOutcome, granted, denied, RealtimeHub}
use v_note.Store.Erasures.{PersistedTombstones}
use v_note.Store.PaperChange.{PersistedPaper}
use v_note.Dispatch.Context.{
  PageStore, PageContext, World, Socket, send_page, send_page_frame, publish_page_updated,
  queue_thumbnail,
}
use v_note.Dispatch.Replay.{replay_page}
use v_note.Dispatch.Handlers.{
  dispatch_page_client_message, with_lease, Handler, handle_acquire_lease, handle_renew_lease,
  handle_release_lease, handle_commit_tombstones, handle_set_paper, finish_tombstones, finish_paper,
  announce,
}
use v_note.Dispatch.Replayed.{send_frames-SentAsFarAs}
use v_note.Dispatch.Commits.{store-commit_batch}

module _ (f : Float) (store : PageStore f.F64) (socket : Socket f.F64) (ctx : PageContext)
    (now : ℕ) where
  open f use {F64}

  store-send_page :
      (message : PageServerMessage F64) (w : World F64 store.State)
      → (send_page socket message w).0.store ≡ w.store
  unfolding send_page send_page_frame
  store-send_page message w = ground arith

  -- The state of the store that a message leads to, if its handler gets as far.
  abbrev pub stored : PageClientMessage F64 → store.State → store.State
  stored (commit_batch id strokes) s = (store.persist_batch ctx.page_id id strokes s).0
  stored (commit_tombstones id ids) s = (store.persist_tombstones ctx.page_id id ids s).0
  stored (set_paper id paper) s = (store.persist_paper ctx.page_id paper s).0
  stored _ s = s

  store-with_lease :
      (handler : Handler f store socket ctx now) (w : World F64 store.State) (s : store.State)
      → ((hub : RealtimeHub F64)
          → ((handler (record w { hub = hub })).0.store ≡ w.store)
            ⊎ ((handler (record w { hub = hub })).0.store ≡ s))
      → ((with_lease f store socket ctx now handler w).0.store ≡ w.store)
        ⊎ ((with_lease f store socket ctx now handler w).0.store ≡ s)
  unfolding with_lease
  store-with_lease handler w s h =
      by_outcome (Hub.acquire_lease now ctx.page_id ctx.session_id w.hub).1 refl
    where
      by_outcome :
          (outcome : LeaseOutcome)
          → (Hub.acquire_lease now ctx.page_id ctx.session_id w.hub).1 ≡ outcome
          → ((with_lease f store socket ctx now handler w).0.store ≡ w.store)
            ⊎ ((with_lease f store socket ctx now handler w).0.store ≡ s)
      by_outcome granted e = rw e (h (Hub.acquire_lease now ctx.page_id ctx.session_id w.hub).0)
      by_outcome (denied holder) e = inl (rw e (store-send_page _ _))

  store-finish_tombstones :
      (id : String) (w : World F64 store.State) (r : Result PersistedTombstones store.Error)
      → (finish_tombstones f store socket ctx now id (w, r)).0.store ≡ w.store
  unfolding finish_tombstones announce publish_page_updated queue_thumbnail
      Hub.publish_library_event Hub.publish_page
  store-finish_tombstones id w (err e) = store-send_page _ w
  store-finish_tombstones id w (ok persisted) = ground arith

  store-finish_paper :
      (id : String) (paper : Paper) (w : World F64 store.State)
      (r : Result PersistedPaper store.Error)
      → (finish_paper f store socket ctx now id paper (w, r)).0.store ≡ w.store
  unfolding finish_paper announce publish_page_updated queue_thumbnail Hub.publish_library_event
      Hub.publish_page
  store-finish_paper id paper w (err e) = store-send_page _ w
  store-finish_paper id paper w (ok persisted) =
      ground (arith, store-send_page (paper_changed paper persisted.revision) w)

  store-replay_page :
      (from_seq : ℕ) (w : World F64 store.State)
      → (replay_page store socket ctx from_seq w).0.store ≡ w.store
  unfolding replay_page
  store-replay_page from_seq w =
      by_loaded (store.load_page_replay ctx.page_id from_seq w.store) refl
    where
      by_loaded :
          (r : Result (List (StrokeBatch F64) × List TombstoneBatch) store.Error)
          → store.load_page_replay ctx.page_id from_seq w.store ≡ r
          → (replay_page store socket ctx from_seq w).0.store ≡ w.store
      by_loaded (err e) h = rw (replay_page, h) (store-send_page _ w)
      by_loaded (ok (batches, tombstones)) h =
          rw (replay_page, h) (send_frames-SentAsFarAs socket _ _ w).store

  store-handle_release_lease :
      (w : World F64 store.State) → (handle_release_lease f store socket ctx now w).store ≡ w.store
  unfolding handle_release_lease Hub.release_lease Hub.publish_page
  store-handle_release_lease w = ground arith

  -- Whatever the message, whoever holds the lease and whatever the store answers, the store stays
  -- as it is or takes the one step that the message asks of it.
  pub store-dispatch_page_client_message :
      (message : PageClientMessage F64) (w : World F64 store.State)
      → let w' = (dispatch_page_client_message f store socket ctx now message w).0 in
        (w'.store ≡ w.store) ⊎ (w'.store ≡ stored message w.store)
  unfolding dispatch_page_client_message handle_acquire_lease handle_renew_lease
      handle_commit_tombstones handle_set_paper
  store-dispatch_page_client_message (subscribe from_seq) w = inl (store-replay_page from_seq w)
  store-dispatch_page_client_message PageClientMessage.acquire_lease w =
      store-with_lease _ w w.store (λ hub. inl (store-send_page _ _))
  store-dispatch_page_client_message renew_lease w =
      store-with_lease _ w w.store (λ hub. inl (store-send_page _ _))
  store-dispatch_page_client_message PageClientMessage.release_lease w =
      inl (store-handle_release_lease w)
  store-dispatch_page_client_message (commit_batch id strokes) w =
      elim (store-commit_batch f store socket ctx now id strokes w) [
        | inl e ↦ inl e
        | inr (valid, e) ↦ inr e
      ]
  store-dispatch_page_client_message (commit_tombstones id ids) w =
      store-with_lease _ w (store.persist_tombstones ctx.page_id id ids w.store).0
        (λ hub. inr (store-finish_tombstones id _ _))
  store-dispatch_page_client_message (set_paper id paper) w =
      store-with_lease _ w (store.persist_paper ctx.page_id paper w.store).0
        (λ hub. inr (store-finish_paper id paper _ _))

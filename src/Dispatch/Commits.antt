-- ===== src/Dispatch/Commits.antt =====
-- What the mutations of crates/server/src/realtime/dispatch.rs publish, on every answer of the store.
use v_note.Base.{
  ℕ, ◌≡◌, ◌⊎◌, inl, inr, refl, true, false, List, none, some, arith, any, is_empty, if◌then◌else◌,
  Bool-cases, String, Result, ok, err,
}
use v_note.Protocol.Float.{Float}
use v_note.Protocol.Ink.{Stroke}
use v_note.Protocol.Paper.{Paper}
use v_note.Protocol.Messages.{
  PageServerMessage, commit_batch, commit_tombstones, set_paper, stroke_batch, tombstone_batch,
  paper_changed,
}
use v_note.Hub.{Lease, live_lease, denied, granted, LeaseOutcome, RealtimeHub, or_new}
use v_note.Hub
use v_note.Hub.Leases.{MayEdit}
use v_note.Store.Batches.{PersistedBatch}
use v_note.Store.Erasures.{PersistedTombstones}
use v_note.Store.PaperChange.{PersistedPaper}
use v_note.Dispatch.Context.{
  PageStore, PageContext, World, Socket, send_page, send_page_frame, publish_page_updated,
  queue_thumbnail,
}
use v_note.Dispatch.Handlers.{
  dispatch_page_client_message, with_lease, handle_commit_batch, handle_commit_tombstones,
  handle_set_paper, is_rejected, finish_batch, finish_tombstones, finish_paper, announce,
}
use v_note.Dispatch.Announced.{Announced, announce-Announced, leased, with_lease-granted}

module _ (f : Float) (store : PageStore f.F64) (socket : Socket f.F64) (ctx : PageContext)
    (now : ℕ) where
  open f use {F64}

  -- An accepted batch of valid strokes: where the session may edit, the page's channel gets exactly
  -- the strokes that the store says are visible, with the seq it gave them, or no message if there
  -- are none; the sender's socket gets none. The owner's library hears of the page's new time and of
  -- the thumbnail to come, and a thumbnail is queued where a job was created.
  pub commit_batch-accepted :
      (client_batch_id : String) (strokes : List (Stroke F64)) (w : World F64 store.State)
      (s : store.State) (persisted : PersistedBatch F64)
      → MayEdit now ctx.session_id (w.hub.leases ctx.page_id)
      → any (is_rejected f store socket ctx now) strokes ≡ false
      → store.persist_batch ctx.page_id client_batch_id strokes w.store ≡ (s, ok persisted)
      → Announced f store socket ctx now w s
          (if is_empty persisted.visible_strokes
            then none
            else some (
                stroke_batch (record {
                  seq = persisted.seq;
                  client_batch_id = client_batch_id;
                  strokes = persisted.visible_strokes;
                })))
          persisted.thumbnail_job_created
          persisted.updated_at
          persisted.owner_id
          persisted.revision
          (dispatch_page_client_message f store socket ctx now
            (commit_batch client_batch_id strokes)
            w)
  unfolding dispatch_page_client_message handle_commit_batch finish_batch leased Hub.acquire_lease
      Hub.publish_page
  commit_batch-accepted client_batch_id strokes w s persisted may valid stored =
      elim (Bool-cases (is_empty persisted.visible_strokes)) [
        | inl e ↦
            rw (with_lease-granted f store socket ctx now _ w may, valid, stored, e)
              (announce-Announced f store socket ctx now w _ s none persisted.thumbnail_job_created
                persisted.updated_at persisted.owner_id persisted.revision refl refl refl refl refl)
        | inr e ↦
            rw (with_lease-granted f store socket ctx now _ w may, valid, stored, e)
              (announce-Announced f store socket ctx now w _ s (some _)
                persisted.thumbnail_job_created persisted.updated_at persisted.owner_id
                persisted.revision refl refl refl (ground arith) refl)
      ]

  -- An accepted erasure: where the session may edit, the page's channel gets the ids that the store
  -- says it erased, even where they are none; the sender's socket gets none. The owner's library
  -- hears of the page's new time and of the thumbnail to come, and a thumbnail is queued where a job
  -- was created.
  pub commit_tombstones-accepted :
      (client_mutation_id : String) (stroke_ids : List String) (w : World F64 store.State)
      (s : store.State) (persisted : PersistedTombstones)
      → MayEdit now ctx.session_id (w.hub.leases ctx.page_id)
      → store.persist_tombstones ctx.page_id client_mutation_id stroke_ids w.store
        ≡ (s, ok persisted)
      → Announced f store socket ctx now w s
          (some (
            tombstone_batch (record {
              revision = persisted.revision;
              client_mutation_id = client_mutation_id;
              stroke_ids = persisted.stroke_ids;
            })))
          persisted.thumbnail_job_created
          persisted.updated_at
          persisted.owner_id
          persisted.revision
          (dispatch_page_client_message f store socket ctx now
            (commit_tombstones client_mutation_id stroke_ids)
            w)
  unfolding dispatch_page_client_message handle_commit_tombstones finish_tombstones leased
      Hub.acquire_lease Hub.publish_page
  commit_tombstones-accepted client_mutation_id stroke_ids w s persisted may stored =
      rw (with_lease-granted f store socket ctx now _ w may, stored)
        (announce-Announced f store socket ctx now w _ s (some _) persisted.thumbnail_job_created
          persisted.updated_at persisted.owner_id persisted.revision refl refl refl (ground arith)
          refl)

  -- Where the session may edit, an accepted change of paper is announced on the page's channel and to
  -- the owner's library, with a thumbnail queued where a job was created; a change to the paper that
  -- the page has is answered to its sender alone.
  pub set_paper-accepted :
      (client_mutation_id : String) (paper : Paper) (w : World F64 store.State) (s : store.State)
      (persisted : PersistedPaper)
      → MayEdit now ctx.session_id (w.hub.leases ctx.page_id)
      → store.persist_paper ctx.page_id paper w.store ≡ (s, ok persisted)
      → let r =
          dispatch_page_client_message f store socket ctx now
            (set_paper client_mutation_id paper)
            w in
        ((persisted.changed ≡ true)
          × Announced f store socket ctx now w s
              (some (paper_changed paper persisted.revision))
              persisted.thumbnail_job_created
              persisted.updated_at
              persisted.owner_id
              persisted.revision
              r)
        ⊎ ((persisted.changed ≡ false)
            × (r
                ≡ send_page socket
                    (paper_changed paper persisted.revision)
                    (record (leased f store socket ctx now w) { store = s })))
  unfolding dispatch_page_client_message handle_set_paper finish_paper leased Hub.acquire_lease
      Hub.publish_page
  set_paper-accepted client_mutation_id paper w s persisted may stored =
      elim (Bool-cases persisted.changed) [
        | inl e ↦ inl (
          e,
          rw (with_lease-granted f store socket ctx now _ w may, stored, e)
              (announce-Announced f store socket ctx now w _ s (some _)
                persisted.thumbnail_job_created persisted.updated_at persisted.owner_id
                persisted.revision refl refl refl (ground arith) refl),
        )
        | inr e ↦ inr (e, rw (with_lease-granted f store socket ctx now _ w may, stored, e))
      ]

  pub store-send_page :
      (message : PageServerMessage F64) (w : World F64 store.State)
      → (send_page socket message w).0.store ≡ w.store
  unfolding send_page send_page_frame
  store-send_page message w = ground arith

  pub store-finish_batch :
      (client_batch_id : String) (w : World F64 store.State)
      (r : Result (PersistedBatch F64) store.Error)
      → (finish_batch f store socket ctx now client_batch_id (w, r)).0.store ≡ w.store
  unfolding finish_batch announce publish_page_updated queue_thumbnail Hub.publish_library_event
      Hub.publish_page
  store-finish_batch client_batch_id w (err e) = store-send_page _ w
  store-finish_batch client_batch_id w (ok persisted) = ground arith

  -- Whoever holds the lease and whatever the store answers, a batch reaches the store only if every
  -- stroke of it has an id and passes the validation; otherwise the store stays as it is.
  pub store-commit_batch :
      (client_batch_id : String) (strokes : List (Stroke F64)) (w : World F64 store.State)
      → let w' =
          (dispatch_page_client_message f store socket ctx now
            (commit_batch client_batch_id strokes)
            w).0 in
        (w'.store ≡ w.store)
        ⊎ ((any (is_rejected f store socket ctx now) strokes ≡ false)
            × (w'.store ≡ (store.persist_batch ctx.page_id client_batch_id strokes w.store).0))
  unfolding dispatch_page_client_message handle_commit_batch with_lease
  store-commit_batch client_batch_id strokes w =
      let (hub, outcome) = Hub.acquire_lease now ctx.page_id ctx.session_id w.hub in
      let stored = store.persist_batch ctx.page_id client_batch_id strokes w.store in
      by_outcome outcome hub refl stored.0 stored.1 refl
    where
      by_outcome :
          (outcome : LeaseOutcome) (hub : RealtimeHub F64)
          → Hub.acquire_lease now ctx.page_id ctx.session_id w.hub ≡ (hub, outcome)
          → (s : store.State) (r : Result (PersistedBatch F64) store.Error)
          → store.persist_batch ctx.page_id client_batch_id strokes w.store ≡ (s, r)
          → ((dispatch_page_client_message f store socket ctx now
                (commit_batch client_batch_id strokes)
                w).0.store
              ≡ w.store)
            ⊎ ((any (is_rejected f store socket ctx now) strokes ≡ false)
                × ((dispatch_page_client_message f store socket ctx now
                      (commit_batch client_batch_id strokes)
                      w).0.store
                    ≡ (store.persist_batch ctx.page_id client_batch_id strokes w.store).0))
      by_outcome (denied holder) hub e s r stored = inl (rw (e, store-send_page) refl)
      by_outcome granted hub e s r stored =
          elim (Bool-cases (any (is_rejected f store socket ctx now) strokes)) [
            | inl bad ↦ inl (rw (e, bad, store-send_page) refl)
            | inr good ↦ inr (
              good,
              rw
                  (
                    e,
                    good,
                    stored,
                    store-finish_batch client_batch_id (record w { hub = hub; store = s }) r,
                  )
                  refl,
            )
          ]

-- ===== src/Dispatch/Handlers.antt =====
-- The handlers of crates/server/src/realtime/dispatch.rs that take the edit lease, and the
-- dispatch itself. `now` is what `Utc::now()` answers within the call.
use v_note.Base.{
  ℕ, Bool, true, not, ◌||◌, String, same, List, Option, none, some, Result, ok, err, is_err, any,
  is_empty, if◌then◌else◌,
}
use v_note.Protocol.Float.{Float}
use v_note.Protocol.Ink.{Stroke, validate}
use v_note.Protocol.Paper.{Paper}
use v_note.Protocol.Messages.{
  PageClientMessage, stroke_batch, tombstone_batch, lease_granted, lease_denied, paper_changed,
  lease_changed, error, subscribe, renew_lease, commit_batch, commit_tombstones, set_paper,
}
use v_note.Hub
use v_note.Hub.{LeaseOutcome, granted, denied}
use v_note.Store.Batches.{PersistedBatch}
use v_note.Store.Erasures.{PersistedTombstones}
use v_note.Store.PaperChange.{PersistedPaper}
use v_note.Dispatch.Context.{
  PageStore, PageContext, World, Socket, send_page, publish_page, publish_page_updated,
  queue_thumbnail,
}
use v_note.Dispatch.Replay.{replay_page}

module _ (f : Float) (store : PageStore f.F64) (socket : Socket f.F64) (ctx : PageContext)
    (now : ℕ) where
  open f use {F64}

  abbrev pub Handler : Type 0
  Handler = World F64 store.State → World F64 store.State × Bool

  abbrev pub after_acquire :
      LeaseOutcome → Handler → World F64 store.State → World F64 store.State × Bool
  after_acquire granted handler w = handler w
  after_acquire (denied holder) handler w = send_page socket (lease_denied holder) w

  -- Acquires or renews the lease, and answers `LeaseDenied` where another session holds it.
  unfoldable pub with_lease : Handler → Handler
  with_lease handler w =
      let (hub, outcome) = Hub.acquire_lease now ctx.page_id ctx.session_id w.hub in
      after_acquire outcome handler (record w { hub = hub })

  unfoldable pub handle_acquire_lease : Handler
  unfolding with_lease
  handle_acquire_lease =
      with_lease λ w.
        send_page socket lease_granted (publish_page ctx (lease_changed (some ctx.session_id)) w)

  unfoldable pub handle_renew_lease : Handler
  unfolding with_lease
  handle_renew_lease = with_lease (send_page socket lease_granted)

  unfoldable pub handle_release_lease : World F64 store.State → World F64 store.State
  handle_release_lease w =
      let (hub, released) = Hub.release_lease ctx.page_id ctx.session_id w.hub in
      let w' = record w { hub = hub } in
      if released then publish_page ctx (lease_changed none) w' else w'

  abbrev maybe_updated : String → Option String → World F64 store.State → World F64 store.State
  maybe_updated owner_id none w = w
  maybe_updated owner_id (some updated_at) w = publish_page_updated ctx owner_id updated_at w

  -- The two announcements that end each of the three mutations.
  unfoldable pub announce :
      String → Option String → Bool → ℕ → World F64 store.State → World F64 store.State
  announce owner_id updated_at thumbnail_job_created revision w =
      let w' = maybe_updated owner_id updated_at w in
      if thumbnail_job_created then queue_thumbnail ctx owner_id revision w' else w'

  abbrev pub is_rejected : Stroke F64 → Bool
  is_rejected stroke = same stroke.id "" || is_err (validate f stroke)

  unfoldable pub finish_batch :
      String
      → World F64 store.State × Result (PersistedBatch F64) store.Error
      → World F64 store.State × Bool
  unfolding announce
  finish_batch client_batch_id (w, err e) =
      send_page socket (error "commit_failed" "could not persist strokes" none) w
  finish_batch client_batch_id (w, ok persisted) =
      let w' =
        if is_empty persisted.visible_strokes
        then w
        else publish_page ctx
            (stroke_batch (record {
              seq = persisted.seq;
              client_batch_id = client_batch_id;
              strokes = persisted.visible_strokes;
            }))
            w in
      (
        announce persisted.owner_id persisted.updated_at persisted.thumbnail_job_created
            persisted.revision w',
        true,
      )

  abbrev pub store_batch :
      String
      → List (Stroke F64)
      → World F64 store.State
      → World F64 store.State × Result (PersistedBatch F64) store.Error
  store_batch client_batch_id strokes w =
      let (s, r) = store.persist_batch ctx.page_id client_batch_id strokes w.store in
      (record w { store = s }, r)

  unfoldable pub handle_commit_batch : String → List (Stroke F64) → Handler
  unfolding with_lease finish_batch
  handle_commit_batch client_batch_id strokes = with_lease λ w.
      if any is_rejected strokes
      then send_page socket
          (error "invalid_stroke_style"
            "strokes require a supported immutable solid_round style with in-range pressure" none)
          w
      else finish_batch client_batch_id (store_batch client_batch_id strokes w)

  unfoldable pub finish_tombstones :
      String
      → World F64 store.State × Result PersistedTombstones store.Error
      → World F64 store.State × Bool
  unfolding announce
  finish_tombstones client_mutation_id (w, err e) =
      send_page socket
        (error "tombstone_failed" "could not persist deleted strokes" (some client_mutation_id)) w
  finish_tombstones client_mutation_id (w, ok persisted) = (
    announce persisted.owner_id persisted.updated_at persisted.thumbnail_job_created
        persisted.revision
        (publish_page ctx
          (tombstone_batch (record {
            revision = persisted.revision;
            client_mutation_id = client_mutation_id;
            stroke_ids = persisted.stroke_ids;
          }))
          w),
    true,
  )

  abbrev pub store_tombstones :
      String
      → List String
      → World F64 store.State
      → World F64 store.State × Result PersistedTombstones store.Error
  store_tombstones client_mutation_id stroke_ids w =
      let (s, r) = store.persist_tombstones ctx.page_id client_mutation_id stroke_ids w.store in
      (record w { store = s }, r)

  unfoldable pub handle_commit_tombstones : String → List String → Handler
  unfolding with_lease finish_tombstones
  handle_commit_tombstones client_mutation_id stroke_ids =
      with_lease
        λ w. finish_tombstones client_mutation_id (store_tombstones client_mutation_id stroke_ids w)

  unfoldable pub finish_paper :
      String
      → Paper
      → World F64 store.State × Result PersistedPaper store.Error
      → World F64 store.State × Bool
  unfolding announce
  finish_paper client_mutation_id paper (w, err e) =
      send_page socket
        (error "paper_failed" "could not persist the page paper" (some client_mutation_id)) w
  finish_paper client_mutation_id paper (w, ok persisted) =
      if not persisted.changed
      then send_page socket (paper_changed paper persisted.revision) w
      else (
        announce persisted.owner_id persisted.updated_at persisted.thumbnail_job_created
            persisted.revision (publish_page ctx (paper_changed paper persisted.revision) w),
        true,
      )

  abbrev pub store_paper :
      Paper → World F64 store.State → World F64 store.State × Result PersistedPaper store.Error
  store_paper paper w =
      let (s, r) = store.persist_paper ctx.page_id paper w.store in (record w { store = s }, r)

  unfoldable pub handle_set_paper : String → Paper → Handler
  unfolding with_lease finish_paper
  handle_set_paper client_mutation_id paper =
      with_lease λ w. finish_paper client_mutation_id paper (store_paper paper w)

  unfoldable pub dispatch_page_client_message : PageClientMessage F64 → Handler
  unfolding handle_acquire_lease handle_renew_lease handle_release_lease handle_commit_batch
      handle_commit_tombstones handle_set_paper
  dispatch_page_client_message (subscribe from_seq) w = replay_page store socket ctx from_seq w
  dispatch_page_client_message PageClientMessage.acquire_lease w = handle_acquire_lease w
  dispatch_page_client_message renew_lease w = handle_renew_lease w
  dispatch_page_client_message PageClientMessage.release_lease w = (handle_release_lease w, true)
  dispatch_page_client_message (commit_batch client_batch_id strokes) w =
      handle_commit_batch client_batch_id strokes w
  dispatch_page_client_message (commit_tombstones client_mutation_id stroke_ids) w =
      handle_commit_tombstones client_mutation_id stroke_ids w
  dispatch_page_client_message (set_paper client_mutation_id paper) w =
      handle_set_paper client_mutation_id paper w

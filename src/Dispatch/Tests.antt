-- ===== src/Dispatch/Tests.antt =====
-- The theorems on the handlers at a concrete page.
use v_note.Base.{
  ℕ, ap, ◌≡◌, ◌≢◌, ◌⊎◌, refl, false, String, [], ◌∷◌, none, some, ok, inl, ne_of_test, str_dec, any,
  is_empty, if◌then◌else◌,
}
use v_note.Protocol.Messages.{
  PageClientMessage, commit_batch, commit_tombstones, set_paper, lease_denied, stroke_batch, error,
}
use v_note.Protocol.Paper.{ruled_narrow, wire_value}
use v_note.Protocol.Ink.{
  default_solid_round_pressure, validate, validate_style, validate_points, is_color, is_width,
}
use v_note.Hub.{seconds}
use v_note.Hub.Leases.{lease_until}
use v_note.Store.Tables.{Db}
use v_note.Store.PaperChange.{PersistedPaper, persist_paper, has_visible_ink}
use v_note.Store.Erasures.{persist_tombstones}
use v_note.Store.Runs.{IsSoundBetween}
use v_note.Store.Tests.{value_or, committed, committed-ok, db-IsSound, db-page}
use v_note.Dispatch.Context.{World, send_page, PageStore, PageContext}
use v_note.Dispatch.Handlers.{
  handle_commit_tombstones, finish_tombstones, with_lease, dispatch_page_client_message,
  is_rejected,
}
use v_note.Dispatch.Leased.{NeedsLease, dispatch_page_client_message-denied, SeenAlike}
use v_note.Dispatch.Announced.{Announced, leased}
use v_note.Dispatch.Commits.{commit_batch-accepted, store-commit_batch}
use v_note.Dispatch.Served.{transact, pg_page_store, dispatch_page_client_message-sound}
use v_note.Samples.{db, page, pg, stroke, whole, ctx, world, open_socket}

abbrev store : PageStore ℕ
store = pg_page_store pg 5

-- Session_b has every page.
abbrev held : World ℕ (Db ℕ)
held = record world {
  hub = record world.hub { leases = λ page_id. some (lease_until "session_b" (seconds 30)) };
}

b-ne-a : ◌≢◌ {A = String} "session_b" "session_a"
b-ne-a = ne_of_test "session_b" "session_a" refl

dispatch_page_client_message-denied_example :
    (dispatch_page_client_message whole store open_socket ctx 5
        (set_paper "paper_1" ruled_narrow)
        held
      ≡ send_page open_socket (lease_denied "session_b") held)
    × SeenAlike held
        (dispatch_page_client_message whole store open_socket ctx 5
          (set_paper "paper_1" ruled_narrow)
          held).0
unfolding NeedsLease
dispatch_page_client_message-denied_example =
    dispatch_page_client_message-denied whole store open_socket ctx 5
      (set_paper "paper_1" ruled_narrow) held (lease_until "session_b" (seconds 30)) tt refl b-ne-a

store-commit_batch_example :
    ((dispatch_page_client_message whole store open_socket ctx 5
        (commit_batch "batch_2" (stroke "stroke_b" ∷ []))
        world).0.store
      ≡ db)
    ⊎ ((any (is_rejected whole store open_socket ctx 5) (stroke "stroke_b" ∷ []) ≡ false)
        × ((dispatch_page_client_message whole store open_socket ctx 5
              (commit_batch "batch_2" (stroke "stroke_b" ∷ []))
              world).0.store
            ≡ (store.persist_batch "page_1" "batch_2" (stroke "stroke_b" ∷ []) db).0))
store-commit_batch_example =
    store-commit_batch whole store open_socket ctx 5 "batch_2" (stroke "stroke_b" ∷ []) world

dispatch_page_client_message-sound_example :
    IsSoundBetween pg "page_1" 1 2 db
      (dispatch_page_client_message whole store open_socket ctx 5
        (commit_batch "batch_2" (stroke "stroke_b" ∷ []))
        world).0.store
dispatch_page_client_message-sound_example =
    dispatch_page_client_message-sound whole pg open_socket ctx 5
      (commit_batch "batch_2" (stroke "stroke_b" ∷ [])) world page db-page db-IsSound

abbrev batch_message : PageClientMessage ℕ
batch_message = commit_batch "batch_2" (stroke "stroke_b" ∷ stroke "stroke_c" ∷ [])

batch-IsValid :
    any
      (is_rejected whole (pg_page_store pg 3) open_socket ctx 3)
      (stroke "stroke_b" ∷ stroke "stroke_c" ∷ [])
    ≡ false
unfolding default_solid_round_pressure validate validate_style validate_points is_color is_width
    str_dec
batch-IsValid = refl

commit_batch-accepted_example :
    Announced whole
      (pg_page_store pg 3)
      open_socket
      ctx
      3
      world
      committed.0
      (if is_empty committed.1.visible_strokes
        then none
        else some (
            stroke_batch (record {
              seq = committed.1.seq;
              client_batch_id = "batch_2";
              strokes = committed.1.visible_strokes;
            })))
      committed.1.thumbnail_job_created
      committed.1.updated_at
      committed.1.owner_id
      committed.1.revision
      (dispatch_page_client_message whole
        (pg_page_store pg 3)
        open_socket
        ctx
        3
        batch_message
        world)
commit_batch-accepted_example =
    commit_batch-accepted whole (pg_page_store pg 3) open_socket ctx 3 "batch_2"
      (stroke "stroke_b" ∷ stroke "stroke_c" ∷ []) world committed.0 committed.1 (inl refl)
      batch-IsValid (ap (transact db) committed-ok)

abbrev repapered : Db ℕ × PersistedPaper
repapered = value_or (persist_paper pg 5 "page_1" ruled_narrow db) (
  db,
  record {
    changed = false;
    revision = 0;
    owner_id = "";
    thumbnail_job_created = false;
    updated_at = none;
  },
)

repapered-ok : persist_paper pg 5 "page_1" ruled_narrow db ≡ ok repapered
unfolding persist_paper has_visible_ink wire_value str_dec
repapered-ok = refl

-- A page that the database does not have.
abbrev lost : PageContext
lost = record ctx { page_id = "page_9" }

-- An erasure there, which the store refuses.
abbrev refused : World ℕ (Db ℕ)
refused =
    (dispatch_page_client_message whole store open_socket lost 5
      (commit_tombstones "erase_1" ("stroke_c" ∷ [])) world).0

told_of_refusal :
    refused
    ≡ (send_page open_socket
        (error "tombstone_failed" "could not persist deleted strokes" (some "erase_1"))
        (leased whole store open_socket lost 5 world)).0
unfolding dispatch_page_client_message handle_commit_tombstones finish_tombstones with_lease leased
    persist_tombstones str_dec send_page v_note.Hub.acquire_lease
told_of_refusal = refl

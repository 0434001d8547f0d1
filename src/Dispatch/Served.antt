-- ===== src/Dispatch/Served.antt =====
-- The handlers of crates/server/src/realtime/dispatch.rs on the database of
-- crates/server/src/realtime/store.rs: `PgPageStore` as the `PageStore` that they take.
use v_note.Base.{ℕ, suc, ◌≡◌, inl, inr, refl, some, Result, ok, err, arith, sym, subst}
use v_note.Protocol.Float.{Float}
use v_note.Protocol.Messages.{
  PageClientMessage, subscribe, renew_lease, commit_batch, commit_tombstones, set_paper,
}
use v_note.Store.Tables
use v_note.Store.Tables.{Db, DbError, PageRow, Postgres, page_row}
use v_note.Store.Batches
use v_note.Store.Batches.{PersistedBatch}
use v_note.Store.Erasures
use v_note.Store.Erasures.{PersistedTombstones}
use v_note.Store.PaperChange
use v_note.Store.PaperChange.{PersistedPaper}
use v_note.Store.Replay
use v_note.Store.Sound.{IsSound}
use v_note.Store.Runs.{
  IsSoundBetween, apply-IsSoundBetween, Mutation, commits, erases, repapers, apply, or_rolled_back,
}
use v_note.Store.Snapshots.{IsKept-refl}
use v_note.Dispatch.Context.{PageStore, PageContext, World, Socket}
use v_note.Dispatch.Handlers.{dispatch_page_client_message}
use v_note.Dispatch.Stored.{stored, store-dispatch_page_client_message}

-- A transaction that fails leaves the database as it was.
abbrev pub transact : {F A : Type 0} → Db F → Result (Db F × A) DbError → Db F × Result A DbError
transact db (ok (db', answer)) = (db', ok answer)
transact db (err e) = (db, err e)

abbrev pub pg_page_store : {F : Type 0} → Postgres → ℕ → PageStore F
pg_page_store {F} pg now = record {
  State = Db F;
  Error = DbError;
  page_belongs_to_owner =
      λ page_id owner_id db. ok (Tables.page_belongs_to_owner page_id owner_id db);
  current_paper = Tables.current_paper;
  max_seq = λ page_id db. ok (Tables.max_seq page_id db);
  load_page_replay = λ page_id from_seq db. ok (Replay.load_page_replay pg page_id from_seq db);
  persist_batch =
      λ page_id id strokes db. transact db (Batches.persist_batch pg now page_id id strokes db);
  persist_tombstones =
      λ page_id id ids db. transact db (Erasures.persist_tombstones pg now page_id id ids db);
  persist_paper =
      λ page_id paper db. transact db (PaperChange.persist_paper pg now page_id paper db);
}

module _ (f : Float) (pg : Postgres) (socket : Socket f.F64) (ctx : PageContext) (now : ℕ) where
  open f use {F64}

  stays :
      (page : PageRow) (db : Db F64)
      → page_row ctx.page_id db.pages ≡ some page
      → IsSound ctx.page_id page.ink_revision db
      → IsSoundBetween pg ctx.page_id page.ink_revision (suc page.ink_revision) db db
  stays page db found sound = record {
    page = page;
    found = found;
    sound = sound;
    low_le = omega arith;
    le_high = omega arith;
    kept = λ revision le. IsKept-refl ctx.page_id revision db;
  }

  applied :
      (m : Mutation F64) (page : PageRow) (db : Db F64) {s : Db F64}
      → page_row ctx.page_id db.pages ≡ some page
      → IsSound ctx.page_id page.ink_revision db
      → s ≡ apply pg ctx.page_id m db
      → IsSoundBetween pg ctx.page_id page.ink_revision (suc page.ink_revision) db s
  applied m page db found sound e =
      subst (IsSoundBetween pg ctx.page_id page.ink_revision (suc page.ink_revision) db) (sym e)
        (apply-IsSoundBetween pg ctx.page_id m db page found sound)

  store-transact :
      {A : Type 0} (db : Db F64) (r : Result (Db F64 × A) DbError)
      → (transact db r).0 ≡ or_rolled_back db r
  store-transact db (ok (db', answer)) = refl
  store-transact db (err e) = refl

  stored-sound :
      (message : PageClientMessage F64) (page : PageRow) (db : Db F64)
      → page_row ctx.page_id db.pages ≡ some page
      → IsSound ctx.page_id page.ink_revision db
      → IsSoundBetween pg ctx.page_id page.ink_revision
          (suc page.ink_revision)
          db
          (stored f (pg_page_store pg now) socket ctx now message db)
  unfolding apply
  stored-sound (commit_batch id strokes) page db found sound =
      applied (commits now id strokes) page db found sound
        (store-transact db (Batches.persist_batch pg now ctx.page_id id strokes db))
  stored-sound (commit_tombstones id ids) page db found sound =
      applied (erases now id ids) page db found sound
        (store-transact db (Erasures.persist_tombstones pg now ctx.page_id id ids db))
  stored-sound (set_paper id paper) page db found sound =
      applied (repapers now paper) page db found sound
        (store-transact db (PaperChange.persist_paper pg now ctx.page_id paper db))
  stored-sound (subscribe from_seq) page db found sound = stays page db found sound
  stored-sound PageClientMessage.acquire_lease page db found sound = stays page db found sound
  stored-sound PageClientMessage.release_lease page db found sound = stays page db found sound
  stored-sound renew_lease page db found sound = stays page db found sound

  -- Whatever message arrives on a sound page, and whatever becomes of its answer, the page stays
  -- sound, its revision goes up by one at most, and what the revisions up to the old one show stays
  -- as it was.
  pub dispatch_page_client_message-sound :
      (message : PageClientMessage F64) (w : World F64 (Db F64)) (page : PageRow)
      → page_row ctx.page_id w.store.pages ≡ some page
      → IsSound ctx.page_id page.ink_revision w.store
      → IsSoundBetween pg ctx.page_id page.ink_revision
          (suc page.ink_revision)
          w.store
          (dispatch_page_client_message f (pg_page_store pg now) socket ctx now message w).0.store
  dispatch_page_client_message-sound message w page found sound =
      elim (store-dispatch_page_client_message f (pg_page_store pg now) socket ctx now message w) [
        | inl e ↦
            subst (IsSoundBetween pg ctx.page_id page.ink_revision (suc page.ink_revision) w.store)
              (sym e) (stays page w.store found sound)
        | inr e ↦
            subst (IsSoundBetween pg ctx.page_id page.ink_revision (suc page.ink_revision) w.store)
              (sym e) (stored-sound message page w.store found sound)
      ]

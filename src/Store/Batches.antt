-- ===== src/Store/Batches.antt =====
-- `persist_batch` of crates/server/src/realtime/store.rs.
use v_note.Base.{
  ℕ, ◌+◌, Bool, false, not, ◌&&◌, ◌||◌, String, same, contains, List, [], ◌∷◌, ◌++◌, map, Option,
  none, some, Result, ok, err, retain, find, any, is_empty, if◌then◌else◌, ◌==◌,
}
use v_note.Protocol.Ink.{Stroke}
use v_note.Store.Writes.{update_page, insert_thumbnail_job, tombstoned_among}
use v_note.Store.Tables.{
  Db, DbError, StrokeBatchRow, StrokeTombstoneRow, Postgres, page_row, batches_of, head_seq,
  row_not_found, unique_violation,
}

pub record PersistedBatch (F : Type 0) : Type 0 where
  pub seq : ℕ
  pub revision : ℕ
  pub owner_id : String
  pub visible_strokes : List (Stroke F)
  pub thumbnail_job_created : Bool
  pub updated_at : Option String

pub record InsertedBatch : Type 0 where
  pub seq : ℕ
  pub revision : ℕ
  pub updated_at : String
  pub thumbnail_job_created : Bool

module _ {F : Type 0} where
  abbrev pub stroke_ids_of : List (Stroke F) → List String
  stroke_ids_of = map (λ s. s.id)

  abbrev pub visible_among : String → List StrokeTombstoneRow → List (Stroke F) → List (Stroke F)
  visible_among page_id rows strokes =
      let tombstoned = tombstoned_among page_id (stroke_ids_of strokes) rows in
      retain (λ s. not (contains tombstoned s.id)) strokes

  abbrev pub existing_batch : String → String → List (StrokeBatchRow F) → Option (StrokeBatchRow F)
  existing_batch page_id client_batch_id =
      find (λ r. same r.page_id page_id && same r.client_batch_id client_batch_id)

  -- The primary key and the two unique indexes of `stroke_batches`.
  abbrev pub batch_conflicts : String → ℕ → ℕ → String → List (StrokeBatchRow F) → Bool
  batch_conflicts page_id seq revision client_batch_id = any (λ r.
      same r.page_id page_id
      && ((r.seq == seq) || ((r.revision == revision) || same r.client_batch_id client_batch_id)))

  unfoldable pub insert_visible_batch :
      Postgres
      → ℕ
      → String
      → String
      → List (Stroke F)
      → ℕ
      → String
      → Db F
      → Result (Db F × InsertedBatch) DbError
  insert_visible_batch pg now page_id client_batch_id visible_strokes current_revision paper db =
      let next = head_seq (batches_of page_id db.stroke_batches) + 1 in
      let revision = current_revision + 1 in
      let (thumbnails, created) =
        insert_thumbnail_job now page_id revision paper db.page_thumbnails in
      if batch_conflicts page_id next revision client_batch_id db.stroke_batches
      then err unique_violation
      else ok (
        record db {
          stroke_batches =
              db.stroke_batches
              ++ record {
                page_id = page_id;
                seq = next;
                revision = revision;
                client_batch_id = client_batch_id;
                strokes = visible_strokes;
              }
                ∷ [];
          pages =
              update_page page_id (λ p. record p { updated_at = now; ink_revision = revision })
                db.pages;
          page_thumbnails = thumbnails;
        },
        record {
          seq = next;
          revision = revision;
          updated_at = pg.to_rfc3339 now;
          thumbnail_job_created = created;
        },
      )

  -- What `persist_batch` answers where it writes nothing.
  abbrev unchanged_batch :
      Db F → ℕ → ℕ → String → List (Stroke F) → Result (Db F × PersistedBatch F) DbError
  unchanged_batch db seq revision owner_id visible_strokes = ok (
    db,
    record {
      seq = seq;
      revision = revision;
      owner_id = owner_id;
      visible_strokes = visible_strokes;
      thumbnail_job_created = false;
      updated_at = none;
    },
  )

  abbrev persisted_batch :
      String
      → List (Stroke F)
      → Result (Db F × InsertedBatch) DbError
      → Result (Db F × PersistedBatch F) DbError
  persisted_batch owner_id visible_strokes (err e) = err e
  persisted_batch owner_id visible_strokes (ok (db, inserted)) = ok (
    db,
    record {
      seq = inserted.seq;
      revision = inserted.revision;
      owner_id = owner_id;
      visible_strokes = visible_strokes;
      thumbnail_job_created = inserted.thumbnail_job_created;
      updated_at = some inserted.updated_at;
    },
  )

  unfoldable pub persist_batch :
      Postgres
      → ℕ
      → String
      → String
      → List (Stroke F)
      → Db F
      → Result (Db F × PersistedBatch F) DbError
  persist_batch pg now page_id client_batch_id strokes db = elim (page_row page_id db.pages) [
    | none ↦ err row_not_found
    | some page ↦
        let visible = visible_among page_id db.stroke_tombstones strokes in
        elim (existing_batch page_id client_batch_id db.stroke_batches) [
          | some row ↦ unchanged_batch db row.seq row.revision page.owner_id visible
          | none ↦
              if is_empty visible
              then unchanged_batch db (head_seq (batches_of page_id db.stroke_batches))
                  page.ink_revision page.owner_id visible
              else persisted_batch page.owner_id visible (
                  insert_visible_batch pg now page_id client_batch_id visible page.ink_revision
                    page.paper db)
        ]
  ]

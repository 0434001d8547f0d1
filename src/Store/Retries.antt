-- ===== src/Store/Retries.antt =====
-- A client that lost the answer sends its mutation again: what crates/server/src/realtime/store.rs
-- answers then.
use v_note.Base.{
  ℕ, ◌+◌, ◌&&◌, ◌≡◌, refl, false, String, List, [], ◌∷◌, none, some, ok, inl, inr, arith,
  find-append, same, is_empty, if◌then◌else◌, Option-cases,
}
use v_note.Protocol.Ink.{Stroke}
use v_note.Store.Tables.{
  Db, StrokeBatchRow, TombstoneBatchRow, PageRow, Postgres, page_row, batches_of, head_seq,
}
use v_note.Store.Batches.{
  persist_batch, PersistedBatch, visible_among, insert_visible_batch, existing_batch,
}
use v_note.Store.Erasures.{persist_tombstones, PersistedTombstones, find_erasure, fresh_ids}
use v_note.Store.Sound.{page_row-update_page}
use v_note.Store.FreshIds.{insert_tombstones-fresh_ids}

module _ {F : Type 0} (pg : Postgres) (page_id : String) where
  -- A batch that was accepted with visible strokes leaves the page, and a row that the same
  -- `client_batch_id` finds again.
  record Kept (id : String) (answer : PersistedBatch F) (db : Db F) : Type 0 where
    pub page : PageRow
    pub row : StrokeBatchRow F
    pub found : page_row page_id db.pages ≡ some page
    pub found_row : existing_batch page_id id db.stroke_batches ≡ some row
    pub seq : row.seq ≡ answer.seq
    pub revision : row.revision ≡ answer.revision
    pub owner_id : page.owner_id ≡ answer.owner_id

  persist_batch-Kept :
      (now : ℕ) (id : String) (strokes : List (Stroke F)) (db db' : Db F)
      (answer : PersistedBatch F)
      → persist_batch pg now page_id id strokes db ≡ ok (db', answer)
      → is_empty answer.visible_strokes ≡ false
      → Kept id answer db'
  unfolding persist_batch insert_visible_batch
  persist_batch-Kept now id strokes db db' answer h shown =
      elim (Option-cases (page_row page_id db.pages)) [
        | inl e ↦ absurd (ground arith)
        | inr (page, e) ↦ elim (Option-cases (existing_batch page_id id db.stroke_batches)) [
          | inr (row, f) ↦ record {
            page = page;
            row = row;
            found = ground arith;
            found_row = ground arith;
            seq = ground arith;
            revision = ground arith;
            owner_id = ground arith;
          }
          | inl f ↦
              let revision = page.ink_revision + 1 in
              let row : StrokeBatchRow F = record {
                page_id = page_id;
                seq = head_seq (batches_of page_id db.stroke_batches) + 1;
                revision = revision;
                client_batch_id = id;
                strokes = visible_among page_id db.stroke_tombstones strokes;
              } in
              let change : PageRow → PageRow =
                λ p. record p { updated_at = now; ink_revision = revision } in
              let kept = page_row-update_page page_id change db.pages page refl e in
              let again =
                find-append (λ r. same r.page_id page_id && same r.client_batch_id id)
                  db.stroke_batches (row ∷ []) in
              record {
                page = change page;
                row = row;
                found = ground (arith, kept);
                found_row = ground (arith, again);
                seq = ground arith;
                revision = ground arith;
                owner_id = ground arith;
              }
        ]
      ]

  -- A batch that was accepted with visible strokes is not stored twice: sent again with its
  -- `client_batch_id`, at once and with whatever strokes, it changes nothing and is answered by the
  -- same `seq` and revision, without a new thumbnail job.
  pub persist_batch-retry :
      (now later : ℕ) (id : String) (strokes strokes' : List (Stroke F)) (db db' : Db F)
      (answer : PersistedBatch F)
      → persist_batch pg now page_id id strokes db ≡ ok (db', answer)
      → is_empty answer.visible_strokes ≡ false
      → persist_batch pg later page_id id strokes' db'
        ≡ ok (
          db',
          record {
            seq = answer.seq;
            revision = answer.revision;
            owner_id = answer.owner_id;
            visible_strokes = visible_among page_id db'.stroke_tombstones strokes';
            thumbnail_job_created = false;
            updated_at = none;
          },
        )
  unfolding persist_batch
  persist_batch-retry now later id strokes strokes' db db' answer h shown =
      let k = persist_batch-Kept now id strokes db db' answer h shown in
      rw (persist_batch, k.found, k.found_row, k.seq, k.revision, k.owner_id)

  record Remembered (id : String) (answer : PersistedTombstones) (db : Db F) : Type 0 where
    pub page : PageRow
    pub row : TombstoneBatchRow
    pub found : page_row page_id db.pages ≡ some page
    pub found_row : find_erasure page_id id db.tombstone_batches ≡ some row
    pub stroke_ids : row.stroke_ids ≡ answer.stroke_ids
    pub revision : row.revision ≡ answer.revision
    pub owner_id : page.owner_id ≡ answer.owner_id

  persist_tombstones-Remembered :
      (now : ℕ) (id : String) (requested : List String) (db db' : Db F)
      (answer : PersistedTombstones)
      → persist_tombstones pg now page_id id requested db ≡ ok (db', answer)
      → Remembered id answer db'
  unfolding persist_tombstones
  persist_tombstones-Remembered now id requested db db' answer h =
      elim (Option-cases (page_row page_id db.pages)) [
        | inl e ↦ absurd (ground arith)
        | inr (page, e) ↦ elim (Option-cases (find_erasure page_id id db.tombstone_batches)) [
          | inr (row, f) ↦ record {
            page = page;
            row = row;
            found = ground arith;
            found_row = ground arith;
            stroke_ids = ground arith;
            revision = ground arith;
            owner_id = ground arith;
          }
          | inl f ↦
              let ids = fresh_ids page_id requested db.stroke_tombstones in
              let revision = if is_empty ids then page.ink_revision else page.ink_revision + 1 in
              let inserted =
                insert_tombstones-fresh_ids page_id revision requested db.stroke_tombstones in
              let row : TombstoneBatchRow = record {
                page_id = page_id;
                client_mutation_id = id;
                revision = revision;
                stroke_ids = ids;
              } in
              let change : PageRow → PageRow =
                λ p. record p { updated_at = now; ink_revision = p.ink_revision + 1 } in
              let kept = page_row-update_page page_id change db.pages page refl e in
              let again =
                find-append (λ r. same r.page_id page_id && same r.client_mutation_id id)
                  db.tombstone_batches (row ∷ []) in
              let page' = if is_empty ids then page else change page in
              record {
                page = page';
                row = row;
                found = ground (arith, kept, inserted);
                found_row = ground (arith, again, inserted);
                stroke_ids = ground (arith, inserted);
                revision = ground (arith, inserted);
                owner_id = ground (arith, inserted);
              }
        ]
      ]

  -- An erasure is not made twice: sent again with its mutation id, with whatever ids, it changes
  -- nothing and is answered by the ids that it erased and their revision.
  pub persist_tombstones-retry :
      (now later : ℕ) (id : String) (requested requested' : List String) (db db' : Db F)
      (answer : PersistedTombstones)
      → persist_tombstones pg now page_id id requested db ≡ ok (db', answer)
      → persist_tombstones pg later page_id id requested' db'
        ≡ ok (
          db',
          record {
            revision = answer.revision;
            owner_id = answer.owner_id;
            stroke_ids = answer.stroke_ids;
            thumbnail_job_created = false;
            updated_at = none;
          },
        )
  unfolding persist_tombstones
  persist_tombstones-retry now later id requested requested' db db' answer h =
      let k = persist_tombstones-Remembered now id requested db db' answer h in
      rw (persist_tombstones, k.found, k.found_row, k.stroke_ids, k.revision, k.owner_id)

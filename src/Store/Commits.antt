-- ===== src/Store/Commits.antt =====
-- Every mutation of crates/server/src/realtime/store.rs succeeds on a sound page and keeps it
-- sound.
use native.Mathlib.Numerals.{add-one}
use v_note.Base.{
  ℕ, suc, ◌≤◌, ◌≡◌, inl, inr, refl, Bool, true, false, String, List, [], ◌∷◌, ◌++◌, Option, none,
  some, ok, arith, retain-append, All-append, All-map, Bool-cases, Option-cases, is_empty,
  if◌then◌else◌,
}
use v_note.Protocol.Ink.{Stroke}
use v_note.Store.Tables.{Db, PageRow, StrokeBatchRow, Postgres, page_row, batches_of, head_seq}
use v_note.Store.Writes.{update_page, insert_thumbnail_job}
use v_note.Store.Batches.{
  PersistedBatch, persist_batch, insert_visible_batch, existing_batch, visible_among,
}
use v_note.Store.Snapshots.{IsKept, IsKept-refl, batches_up_to-append, job_row-insert_thumbnail_job}
use v_note.Store.Sound.{
  IsSound, page_row-update_page, has_thumbnail-insert_thumbnail_job, bound-insert_thumbnail_job,
  insert_thumbnail_job-created, head_seq-bounds, no_batch_conflicts, IsSorted-append,
}

-- What a mutation of a sound page leaves: the page is still there and sound, at the revision that
-- it had, or at the next one if a thumbnail job was created, and every revision that it had shows
-- the same as before.
pub record Committed {F : Type 0} (page_id : String) (page : PageRow) (created : Bool)
    (before db : Db F) : Type 0 where
  pub page' : PageRow
  pub found : page_row page_id db.pages ≡ some page'
  pub sound : IsSound page_id page'.ink_revision db
  pub revision : page'.ink_revision ≡ (if created then suc page.ink_revision else page.ink_revision)
  pub kept : (revision : ℕ) → revision ≤ page.ink_revision → IsKept page_id revision before db

module _ {F : Type 0} (pg : Postgres) (now : ℕ) (page_id client_batch_id : String) (db : Db F)
    (page : PageRow) (found : page_row page_id db.pages ≡ some page)
    (sound : IsSound page_id page.ink_revision db) where
  next_row : List (Stroke F) → StrokeBatchRow F
  next_row strokes = record {
    page_id = page_id;
    seq = suc (head_seq (batches_of page_id db.stroke_batches));
    revision = suc page.ink_revision;
    client_batch_id = client_batch_id;
    strokes = strokes;
  }

  inserted_db : List (Stroke F) → Db F
  inserted_db strokes = record db {
    stroke_batches = db.stroke_batches ++ next_row strokes ∷ [];
    pages =
        update_page page_id
          (λ p. record p { updated_at = now; ink_revision = suc page.ink_revision }) db.pages;
    page_thumbnails =
        (insert_thumbnail_job now page_id (suc page.ink_revision) page.paper db.page_thumbnails).0;
  }

  batches_of-next :
      (strokes : List (Stroke F))
      → batches_of page_id (db.stroke_batches ++ next_row strokes ∷ [])
        ≡ batches_of page_id db.stroke_batches ++ next_row strokes ∷ []
  unfolding next_row
  batches_of-next strokes = rw (retain-append _ db.stroke_batches) (ground arith)

  inserted_db-IsSound :
      (strokes : List (Stroke F)) → IsSound page_id (suc page.ink_revision) (inserted_db strokes)
  unfolding inserted_db next_row
  inserted_db-IsSound strokes = record {
    batch_revisions = rw (batches_of-next strokes) (
        All-append _ _ (next_row strokes ∷ [])
          (All-map _ _ _ (λ r h. omega arith) sound.batch_revisions) (ground arith));
    serials = rw (batches_of-next strokes) (
        IsSorted-append page_id _ (next_row strokes) sound.serials (
          All-map _ _ _ (λ r h. omega arith)
            (head_seq-bounds page_id (batches_of page_id db.stroke_batches))));
    tombstone_revisions = All-map _ _ _ (λ t h. omega arith) sound.tombstone_revisions;
    thumbnail_revisions =
        bound-insert_thumbnail_job page_id now page.ink_revision page.paper db.page_thumbnails
          sound.thumbnail_revisions;
    head_thumbnail = inr (
        has_thumbnail-insert_thumbnail_job page_id now (suc page.ink_revision) page.paper
          db.page_thumbnails);
  }

  insert_visible_batch-ok :
      (strokes : List (Stroke F))
      → existing_batch page_id client_batch_id db.stroke_batches ≡ none
      → insert_visible_batch pg now page_id client_batch_id strokes page.ink_revision page.paper db
        ≡ ok (
          inserted_db strokes,
          record {
            seq = suc (head_seq (batches_of page_id db.stroke_batches));
            revision = suc page.ink_revision;
            updated_at = pg.to_rfc3339 now;
            thumbnail_job_created = true;
          },
        )
  unfolding insert_visible_batch inserted_db next_row
  insert_visible_batch-ok strokes e = rw (
    add-one (head_seq (batches_of page_id db.stroke_batches)),
    add-one page.ink_revision,
    no_batch_conflicts page_id (head_seq (batches_of page_id db.stroke_batches)) page.ink_revision
        client_batch_id db.stroke_batches e
        (head_seq-bounds page_id (batches_of page_id db.stroke_batches)) sound.batch_revisions,
    insert_thumbnail_job-created page_id now page.ink_revision page.paper db.page_thumbnails
        sound.thumbnail_revisions,
  )

  stays : Committed page_id page false db db
  stays = record {
    page' = page;
    found = found;
    sound = sound;
    revision = refl;
    kept = λ revision le. IsKept-refl page_id revision db;
  }

  inserted_db-IsKept :
      (strokes : List (Stroke F)) (revision : ℕ)
      → revision ≤ page.ink_revision
      → IsKept page_id revision db (inserted_db strokes)
  unfolding inserted_db next_row
  inserted_db-IsKept strokes revision le = record {
    batches =
        batches_up_to-append page_id revision db.stroke_batches (next_row strokes) (omega arith);
    tombstones = refl;
    job =
        job_row-insert_thumbnail_job page_id revision now (suc page.ink_revision) page.paper
          db.page_thumbnails (omega arith);
  }

  inserted_db-Committed :
      (strokes : List (Stroke F)) → Committed page_id page true db (inserted_db strokes)
  unfolding inserted_db
  inserted_db-Committed strokes = record {
    page' = record page { updated_at = now; ink_revision = suc page.ink_revision };
    found = page_row-update_page page_id _ db.pages page refl found;
    sound = inserted_db-IsSound strokes;
    revision = refl;
    kept = inserted_db-IsKept strokes;
  }

  abbrev answer : ℕ → ℕ → List (Stroke F) → Bool → Option String → PersistedBatch F
  answer seq revision visible created updated_at = record {
    seq = seq;
    revision = revision;
    owner_id = page.owner_id;
    visible_strokes = visible;
    thumbnail_job_created = created;
    updated_at = updated_at;
  }

  -- On a sound page `persist_batch` succeeds, and leaves the page sound; the revision goes up by
  -- one where a thumbnail job is created, and stays otherwise, and what the revisions up to the old
  -- one show stays as it was.
  pub persist_batch-commits :
      (strokes : List (Stroke F))
      → (r : Db F × PersistedBatch F) × (persist_batch pg now page_id client_batch_id strokes db
          ≡ ok r)
        × Committed page_id page r.1.thumbnail_job_created db r.0
  unfolding persist_batch
  persist_batch-commits strokes =
      let visible = visible_among page_id db.stroke_tombstones strokes in
      let head = head_seq (batches_of page_id db.stroke_batches) in
      elim (Option-cases (existing_batch page_id client_batch_id db.stroke_batches)) [
        | inr (row, e) ↦ ((db, answer row.seq row.revision visible false none), ground arith, stays)
        | inl e ↦ elim (Bool-cases (is_empty visible)) [
          | inl none_visible ↦
              ((db, answer head page.ink_revision visible false none), ground arith, stays)
          | inr some_visible ↦ (
            (
              inserted_db visible,
              answer (suc head) (suc page.ink_revision) visible true (some (pg.to_rfc3339 now)),
            ),
            ground (arith, insert_visible_batch-ok visible e),
            inserted_db-Committed visible,
          )
        ]
      ]

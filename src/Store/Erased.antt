-- ===== src/Store/Erased.antt =====
-- `persist_tombstones` on a sound page.
use native.Mathlib.Numerals.{add-one}
use v_note.Base.{
  ℕ, suc, ◌+◌, ◌≤◌, ◌<◌, ◌≡◌, inl, inr, refl, Bool, true, false, String, List, [], ◌∷◌, ◌++◌, map,
  Option, none, some, ok, arith, retain-append, All, All-append, All-map, Option-cases,
}
use v_note.Store.Tables.{Db, PageRow, Postgres, page_row, tombstones_of}
use v_note.Store.Writes.{update_page, insert_thumbnail_job}
use v_note.Store.Erasures.{PersistedTombstones, persist_tombstones, find_erasure, fresh_ids}
use v_note.Store.FreshIds.{tombstone_row, insert_tombstones-fresh_ids}
use v_note.Store.Snapshots.{
  IsKept-refl, tombstones_up_to, tombstones_up_to-append, job_row-insert_thumbnail_job,
}
use v_note.Store.Sound.{
  IsSound, page_row-update_page, has_thumbnail-insert_thumbnail_job, bound-insert_thumbnail_job,
  insert_thumbnail_job-created,
}
use v_note.Store.Commits.{Committed}

tombstones_of-rows :
    (page_id : String) (revision : ℕ) (ids : List String)
    → tombstones_of page_id (map (tombstone_row page_id revision) ids)
      ≡ map (tombstone_row page_id revision) ids
tombstones_of-rows page_id revision [] = refl
tombstones_of-rows page_id revision (id ∷ ids) =
    ground (arith, tombstones_of-rows page_id revision ids)

rows-bound :
    (page_id : String) (revision : ℕ) (ids : List String)
    → All (λ t. t.deleted_revision ≤ revision) (map (tombstone_row page_id revision) ids)
rows-bound page_id revision [] = tt
rows-bound page_id revision (id ∷ ids) = (omega arith, rows-bound page_id revision ids)

rows-later :
    (page_id : String) (low revision : ℕ) (ids : List String)
    → low < revision
    → tombstones_up_to page_id low (map (tombstone_row page_id revision) ids) ≡ []
rows-later page_id low revision [] lt = refl
rows-later page_id low revision (id ∷ ids) lt = ground (arith, rows-later page_id low revision ids)

module _ {F : Type 0} (pg : Postgres) (now : ℕ) (page_id client_mutation_id : String) (db : Db F)
    (page : PageRow) (found : page_row page_id db.pages ≡ some page)
    (sound : IsSound page_id page.ink_revision db) where
  abbrev with_erasure : ℕ → List String → Db F
  with_erasure revision ids = record db {
    stroke_tombstones = db.stroke_tombstones ++ map (tombstone_row page_id revision) ids;
    tombstone_batches =
        db.tombstone_batches
        ++ record {
          page_id = page_id;
          client_mutation_id = client_mutation_id;
          revision = revision;
          stroke_ids = ids;
        }
          ∷ [];
  }

  erased_db : List String → Db F
  erased_db ids = record (with_erasure (suc page.ink_revision) ids) {
    pages =
        update_page page_id (λ p. record p { updated_at = now; ink_revision = p.ink_revision + 1 })
          db.pages;
    page_thumbnails =
        (insert_thumbnail_job now page_id (suc page.ink_revision) page.paper db.page_thumbnails).0;
  }

  tombstone_revisions-append :
      (revision : ℕ) (ids : List String)
      → page.ink_revision ≤ revision
      → All
          (λ t. t.deleted_revision ≤ revision)
          (tombstones_of page_id (with_erasure revision ids).stroke_tombstones)
  tombstone_revisions-append revision ids le =
      rw (retain-append _ db.stroke_tombstones, tombstones_of-rows page_id revision ids)
        (All-append _ _ (map (tombstone_row page_id revision) ids)
          (All-map _ _ _ (λ t h. omega arith) sound.tombstone_revisions)
          (rows-bound page_id revision ids))

  erased_db-Committed : (ids : List String) → Committed page_id page true db (erased_db ids)
  unfolding erased_db
  erased_db-Committed ids = record {
    page' = record page { updated_at = now; ink_revision = page.ink_revision + 1 };
    found = page_row-update_page page_id _ db.pages page refl found;
    sound = rw add-one (record {
      batch_revisions = All-map _ _ _ (λ r h. omega arith) sound.batch_revisions;
      serials = sound.serials;
      tombstone_revisions = tombstone_revisions-append (suc page.ink_revision) ids (omega arith);
      thumbnail_revisions =
          bound-insert_thumbnail_job page_id now page.ink_revision page.paper db.page_thumbnails
            sound.thumbnail_revisions;
      head_thumbnail = inr (
          has_thumbnail-insert_thumbnail_job page_id now (suc page.ink_revision) page.paper
            db.page_thumbnails);
    });
    revision = omega arith;
    kept = λ revision le. record {
      batches = refl;
      tombstones =
          tombstones_up_to-append page_id revision db.stroke_tombstones _
            (rows-later page_id revision (suc page.ink_revision) ids (omega arith));
      job =
          job_row-insert_thumbnail_job page_id revision now (suc page.ink_revision) page.paper
            db.page_thumbnails (omega arith);
    };
  }

  with_erasure-Committed : Committed page_id page false db (with_erasure page.ink_revision [])
  with_erasure-Committed = record {
    page' = page;
    found = found;
    sound = record {
      batch_revisions = sound.batch_revisions;
      serials = sound.serials;
      tombstone_revisions = tombstone_revisions-append page.ink_revision [] (omega arith);
      thumbnail_revisions = sound.thumbnail_revisions;
      head_thumbnail = sound.head_thumbnail;
    };
    revision = refl;
    kept = λ revision le. record {
      batches = refl;
      tombstones = tombstones_up_to-append page_id revision db.stroke_tombstones [] refl;
      job = refl;
    };
  }

  abbrev answer : ℕ → List String → Bool → Option String → PersistedTombstones
  answer revision ids created updated_at = record {
    revision = revision;
    owner_id = page.owner_id;
    stroke_ids = ids;
    thumbnail_job_created = created;
    updated_at = updated_at;
  }

  -- On a sound page `persist_tombstones` succeeds, and leaves the page sound; the revision goes up
  -- by one where a thumbnail job is created, and stays otherwise, and what the revisions up to the
  -- old one show stays as it was.
  pub persist_tombstones-commits :
      (requested_ids : List String)
      → (r : Db F × PersistedTombstones) × (persist_tombstones pg now page_id client_mutation_id
            requested_ids db
          ≡ ok r)
        × Committed page_id page r.1.thumbnail_job_created db r.0
  unfolding persist_tombstones erased_db
  persist_tombstones-commits requested_ids =
      elim (Option-cases (find_erasure page_id client_mutation_id db.tombstone_batches)) [
        | inr (row, e) ↦ (
          (db, answer row.revision row.stroke_ids false none),
          ground arith,
          record {
            page' = page;
            found = found;
            sound = sound;
            revision = refl;
            kept = λ revision le. IsKept-refl page_id revision db;
          },
        )
        | inl e ↦ by_ids (fresh_ids page_id requested_ids db.stroke_tombstones) refl e
      ]
    where
      by_ids :
          (ids : List String)
          → fresh_ids page_id requested_ids db.stroke_tombstones ≡ ids
          → find_erasure page_id client_mutation_id db.tombstone_batches ≡ none
          → (r : Db F × PersistedTombstones) × (persist_tombstones pg now page_id client_mutation_id
                requested_ids db
              ≡ ok r)
            × Committed page_id page r.1.thumbnail_job_created db r.0
      by_ids [] fresh e = (
        (with_erasure page.ink_revision [], answer page.ink_revision [] false none),
        ground (
          arith,
          insert_tombstones-fresh_ids page_id page.ink_revision requested_ids db.stroke_tombstones,
        ),
        with_erasure-Committed,
      )
      by_ids (id ∷ ids) fresh e = (
        (
          erased_db (id ∷ ids),
          answer (suc page.ink_revision) (id ∷ ids) true (some (pg.to_rfc3339 now)),
        ),
        ground (
          arith,
          add-one page.ink_revision,
          insert_tombstones-fresh_ids page_id (suc page.ink_revision) requested_ids
              db.stroke_tombstones,
          insert_thumbnail_job-created page_id now page.ink_revision page.paper db.page_thumbnails
              sound.thumbnail_revisions,
        ),
        erased_db-Committed (id ∷ ids),
      )

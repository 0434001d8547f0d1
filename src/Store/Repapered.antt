-- ===== src/Store/Repapered.antt =====
-- `persist_paper` on a sound page.
use native.Mathlib.Numerals.{add-one}
use v_note.Base.{
  ℕ, suc, ◌≡◌, inl, inr, refl, Bool, true, false, String, same, Option, none, some, ok, arith,
  All-map, Bool-cases, if◌then◌else◌,
}
use v_note.Protocol.Paper.{Paper, wire_value}
use v_note.Store.Tables.{Db, PageRow, Postgres, page_row}
use v_note.Store.Writes.{update_page, insert_thumbnail_job}
use v_note.Store.PaperChange.{PersistedPaper, persist_paper, has_visible_ink}
use v_note.Store.Snapshots.{IsKept-refl, job_row-insert_thumbnail_job}
use v_note.Store.Sound.{
  IsSound, page_row-update_page, has_thumbnail-insert_thumbnail_job, bound-insert_thumbnail_job,
  insert_thumbnail_job-created,
}
use v_note.Store.Commits.{Committed}

module _ {F : Type 0} (pg : Postgres) (now : ℕ) (page_id : String) (paper : Paper) (db : Db F)
    (page : PageRow) (found : page_row page_id db.pages ≡ some page)
    (sound : IsSound page_id page.ink_revision db) where
  abbrev with_paper : ℕ → Db F
  with_paper revision = record db {
    pages =
        update_page page_id
          (λ p. record p { paper = wire_value paper; updated_at = now; ink_revision = revision })
          db.pages;
  }

  repapered_db : Db F
  repapered_db = record (with_paper (suc page.ink_revision)) {
    page_thumbnails =
        (insert_thumbnail_job now page_id (suc page.ink_revision) (wire_value paper)
          db.page_thumbnails).0;
  }

  abbrev new_page : ℕ → PageRow
  new_page revision = record page {
    paper = wire_value paper;
    updated_at = now;
    ink_revision = revision;
  }

  repapered_db-Committed : Committed page_id page true db repapered_db
  unfolding repapered_db
  repapered_db-Committed = record {
    page' = new_page (suc page.ink_revision);
    found = page_row-update_page page_id _ db.pages page refl found;
    sound = record {
      batch_revisions = All-map _ _ _ (λ r h. omega arith) sound.batch_revisions;
      serials = sound.serials;
      tombstone_revisions = All-map _ _ _ (λ r h. omega arith) sound.tombstone_revisions;
      thumbnail_revisions =
          bound-insert_thumbnail_job page_id now page.ink_revision (wire_value paper)
            db.page_thumbnails sound.thumbnail_revisions;
      head_thumbnail = inr (
          has_thumbnail-insert_thumbnail_job page_id now (suc page.ink_revision) (wire_value paper)
            db.page_thumbnails);
    };
    revision = refl;
    kept = λ revision le. record {
      batches = refl;
      tombstones = refl;
      job =
          job_row-insert_thumbnail_job page_id revision now (suc page.ink_revision)
            (wire_value paper) db.page_thumbnails (omega arith);
    };
  }

  with_paper-Committed : Committed page_id page false db (with_paper page.ink_revision)
  with_paper-Committed = record {
    page' = new_page page.ink_revision;
    found = page_row-update_page page_id _ db.pages page refl found;
    sound = record {
      batch_revisions = sound.batch_revisions;
      serials = sound.serials;
      tombstone_revisions = sound.tombstone_revisions;
      thumbnail_revisions = sound.thumbnail_revisions;
      head_thumbnail = sound.head_thumbnail;
    };
    revision = refl;
    kept = λ revision le. record { batches = refl; tombstones = refl; job = refl };
  }

  abbrev answer : Bool → ℕ → Bool → Option String → PersistedPaper
  answer changed revision created updated_at = record {
    changed = changed;
    revision = revision;
    owner_id = page.owner_id;
    thumbnail_job_created = created;
    updated_at = updated_at;
  }

  -- On a sound page `persist_paper` succeeds, and leaves the page sound; the revision goes up by
  -- one where a thumbnail job is created, which is where the paper is new and the page has visible
  -- ink, and stays otherwise, and what the revisions up to the old one show stays as it was.
  pub persist_paper-commits :
      (r : Db F × PersistedPaper) × (persist_paper pg now page_id paper db ≡ ok r)
      × Committed page_id page r.1.thumbnail_job_created db r.0
      × (r.1.thumbnail_job_created ≡ (
          if same page.paper (wire_value paper)
          then false
          else has_visible_ink page_id page.ink_revision db))
  unfolding persist_paper repapered_db
  persist_paper-commits = elim (Bool-cases (same page.paper (wire_value paper))) [
    | inl e ↦ (
      (db, answer false page.ink_revision false none),
      ground arith,
      record {
        page' = page;
        found = found;
        sound = sound;
        revision = refl;
        kept = λ revision le. IsKept-refl page_id revision db;
      },
      ground arith,
    )
    | inr e ↦ elim (Bool-cases (has_visible_ink page_id page.ink_revision db)) [
      | inl inked ↦ (
        (repapered_db, answer true (suc page.ink_revision) true (some (pg.to_rfc3339 now))),
        ground (
          arith,
          add-one page.ink_revision,
          insert_thumbnail_job-created page_id now page.ink_revision (wire_value paper)
              db.page_thumbnails sound.thumbnail_revisions,
        ),
        repapered_db-Committed,
        ground arith,
      )
      | inr bare ↦ (
        (
          with_paper page.ink_revision,
          answer true page.ink_revision false (some (pg.to_rfc3339 now)),
        ),
        ground arith,
        with_paper-Committed,
        ground arith,
      )
    ]
  ]

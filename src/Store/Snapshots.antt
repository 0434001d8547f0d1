-- ===== src/Store/Snapshots.antt =====
-- What a thumbnail job of crates/server/src/thumbnails.rs reads of a page at one revision, and the
-- lemmas that the tables keep it when rows of a later revision are added.
use v_note.Base.{
  ℕ, ◌<◌, ◌≡◌, refl, ◌&&◌, String, same, List, [], ◌∷◌, ◌++◌, Option, arith, retain, retain-append,
  find, Bool-cases, inl, inr, leb, ◌==◌, append-nil, ap, ◌∙◌,
}
use v_note.Store.Tables.{Db, StrokeBatchRow, StrokeTombstoneRow, ThumbnailRow}
use v_note.Store.Writes.{insert_thumbnail_job, has_thumbnail}

abbrev pub job_row : String → ℕ → List ThumbnailRow → Option ThumbnailRow
job_row page_id source_seq = find (λ t. same t.page_id page_id && (t.source_seq == source_seq))

abbrev pub tombstones_up_to : String → ℕ → List StrokeTombstoneRow → List StrokeTombstoneRow
tombstones_up_to page_id revision =
    retain (λ t. same t.page_id page_id && leb t.deleted_revision revision)

module _ {F : Type 0} where
  abbrev pub batches_up_to : String → ℕ → List (StrokeBatchRow F) → List (StrokeBatchRow F)
  batches_up_to page_id revision = retain (λ b. same b.page_id page_id && leb b.revision revision)

-- Both databases show the same of the page at the revision.
pub record IsKept {F : Type 0} (page_id : String) (revision : ℕ) (before after : Db F)
    : Type 0 where
  pub batches :
      batches_up_to page_id revision after.stroke_batches
      ≡ batches_up_to page_id revision before.stroke_batches
  pub tombstones :
      tombstones_up_to page_id revision after.stroke_tombstones
      ≡ tombstones_up_to page_id revision before.stroke_tombstones
  pub job :
      job_row page_id revision after.page_thumbnails
      ≡ job_row page_id revision before.page_thumbnails

module _ (page_id : String) (revision : ℕ) where
  module _ {F : Type 0} where
    pub IsKept-refl : (db : Db F) → IsKept page_id revision db db
    IsKept-refl db = record { batches = refl; tombstones = refl; job = refl }

    pub IsKept-trans :
        (a b c : Db F)
        → IsKept page_id revision a b
        → IsKept page_id revision b c
        → IsKept page_id revision a c
    IsKept-trans a b c h k = record {
      batches = k.batches ∙ h.batches;
      tombstones = k.tombstones ∙ h.tombstones;
      job = k.job ∙ h.job;
    }

    pub batches_up_to-append :
        (rows : List (StrokeBatchRow F)) (row : StrokeBatchRow F)
        → revision < row.revision
        → batches_up_to page_id revision (rows ++ row ∷ []) ≡ batches_up_to page_id revision rows
    batches_up_to-append rows row lt = rw (retain-append _ rows) (
        ap (◌++◌ (batches_up_to page_id revision rows)) no_row
        ∙ append-nil (batches_up_to page_id revision rows))
      where
        no_row : batches_up_to page_id revision (row ∷ []) ≡ []
        no_row = ground arith

  job_row-append :
      (rows : List ThumbnailRow) (row : ThumbnailRow)
      → revision < row.source_seq
      → job_row page_id revision (rows ++ row ∷ []) ≡ job_row page_id revision rows
  job_row-append [] row lt = ground arith
  job_row-append (t ∷ rows) row lt = ground (arith, job_row-append rows row lt)

  pub job_row-insert_thumbnail_job :
      (now source_seq : ℕ) (paper : String) (rows : List ThumbnailRow)
      → revision < source_seq
      → job_row page_id revision (insert_thumbnail_job now page_id source_seq paper rows).0
        ≡ job_row page_id revision rows
  job_row-insert_thumbnail_job now source_seq paper rows lt =
      elim (Bool-cases (has_thumbnail page_id source_seq rows)) [
        | inl e ↦ rw e refl
        | inr e ↦ rw e (job_row-append rows _ lt)
      ]

  pub tombstones_up_to-append :
      (rows later : List StrokeTombstoneRow)
      → tombstones_up_to page_id revision later ≡ []
      → tombstones_up_to page_id revision (rows ++ later) ≡ tombstones_up_to page_id revision rows
  tombstones_up_to-append rows later e = rw (retain-append _ rows) (
      ap (◌++◌ (tombstones_up_to page_id revision rows)) e
      ∙ append-nil (tombstones_up_to page_id revision rows))

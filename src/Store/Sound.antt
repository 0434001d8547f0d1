-- ===== src/Store/Sound.antt =====
-- When the rows of a page fit together, and the lemmas on the tables that keep them so.
use v_note.Base.{
  ℕ, suc, ◌≤◌, ◌<◌, ◌≡◌, ◌⊎◌, inl, inr, refl, true, false, String, same, List, [], ◌∷◌, ◌++◌, none,
  some, arith, retain, retain-append, any-append, Bool-cases, All, All-append, All-map, ltb,
}
use v_note.Base.Sort.{IsSorted}
use v_note.Store.Tables.{
  Db, PageRow, StrokeBatchRow, ThumbnailRow, page_row, batches_of, tombstones_of, head_seq,
}
use v_note.Store.Writes.{update_page, insert_thumbnail_job, has_thumbnail}
use v_note.Store.Batches.{existing_batch, batch_conflicts}

abbrev pub thumbnails_of : String → List ThumbnailRow → List ThumbnailRow
thumbnails_of page_id = retain (λ r. same r.page_id page_id)

-- No row of the page is ahead of the page's revision, its serials rise, and the revision names a
-- thumbnail row (unless the page was never changed).
pub record IsSound {F : Type 0} (page_id : String) (revision : ℕ) (db : Db F) : Type 0 where
  pub batch_revisions : All (λ r. r.revision ≤ revision) (batches_of page_id db.stroke_batches)
  pub serials : IsSorted (λ a b. ltb a.seq b.seq) (batches_of page_id db.stroke_batches)
  pub tombstone_revisions :
      All (λ t. t.deleted_revision ≤ revision) (tombstones_of page_id db.stroke_tombstones)
  pub thumbnail_revisions :
      All (λ t. t.source_seq ≤ revision) (thumbnails_of page_id db.page_thumbnails)
  pub head_thumbnail : (revision ≡ 0) ⊎ (has_thumbnail page_id revision db.page_thumbnails ≡ true)

module _ (page_id : String) where
  pub page_row-update_page :
      (change : PageRow → PageRow) (pages : List PageRow) (page : PageRow)
      → (change page).id ≡ page.id
      → page_row page_id pages ≡ some page
      → page_row page_id (update_page page_id change pages) ≡ some (change page)
  page_row-update_page change [] page keep h = ground arith
  page_row-update_page change (p ∷ ps) page keep h =
      ground (arith, page_row-update_page change ps page keep)

  pub has_thumbnail-insert_thumbnail_job :
      (now source_seq : ℕ) (paper : String) (rows : List ThumbnailRow)
      → has_thumbnail page_id source_seq (insert_thumbnail_job now page_id source_seq paper rows).0
        ≡ true
  has_thumbnail-insert_thumbnail_job now source_seq paper rows =
      elim (Bool-cases (has_thumbnail page_id source_seq rows)) [
        | inl e ↦ rw e e
        | inr e ↦ rw e (rw (any-append _ rows, e) (ground arith))
      ]

  has_thumbnail-above :
      (revision : ℕ) (rows : List ThumbnailRow)
      → All (λ t. t.source_seq ≤ revision) (thumbnails_of page_id rows)
      → has_thumbnail page_id (suc revision) rows ≡ false
  has_thumbnail-above revision [] h = refl
  has_thumbnail-above revision (t ∷ rows) h = ground (arith, has_thumbnail-above revision rows)

  pub bound-insert_thumbnail_job :
      (now revision : ℕ) (paper : String) (rows : List ThumbnailRow)
      → All (λ t. t.source_seq ≤ revision) (thumbnails_of page_id rows)
      → All
          (λ t. t.source_seq ≤ suc revision)
          (thumbnails_of page_id (insert_thumbnail_job now page_id (suc revision) paper rows).0)
  bound-insert_thumbnail_job now revision paper rows h =
      rw (has_thumbnail-above revision rows h, retain-append _ rows)
        (All-append _ (thumbnails_of page_id rows) _ (All-map _ _ _ (λ t b. omega arith) h)
          (ground arith))

  pub insert_thumbnail_job-created :
      (now revision : ℕ) (paper : String) (rows : List ThumbnailRow)
      → All (λ t. t.source_seq ≤ revision) (thumbnails_of page_id rows)
      → (insert_thumbnail_job now page_id (suc revision) paper rows).1 ≡ true
  insert_thumbnail_job-created now revision paper rows h = rw (has_thumbnail-above revision rows h)

  module _ {F : Type 0} where
    pub head_seq-bounds : (rows : List (StrokeBatchRow F)) → All (λ r. r.seq ≤ head_seq rows) rows
    head_seq-bounds [] = tt
    head_seq-bounds (r ∷ rows) =
        (omega arith, All-map _ _ rows (λ q h. omega arith) (head_seq-bounds rows))

    pub no_batch_conflicts :
        (seq revision : ℕ) (client_batch_id : String) (rows : List (StrokeBatchRow F))
        → existing_batch page_id client_batch_id rows ≡ none
        → All (λ r. r.seq ≤ seq) (batches_of page_id rows)
        → All (λ r. r.revision ≤ revision) (batches_of page_id rows)
        → batch_conflicts page_id (suc seq) (suc revision) client_batch_id rows ≡ false
    no_batch_conflicts seq revision client_batch_id [] e hs hr = refl
    no_batch_conflicts seq revision client_batch_id (r ∷ rows) e hs hr =
        ground (arith, no_batch_conflicts seq revision client_batch_id rows)

    pub IsSorted-append :
        (rows : List (StrokeBatchRow F)) (row : StrokeBatchRow F)
        → IsSorted (λ a b. ltb a.seq b.seq) rows
        → All (λ r. r.seq < row.seq) rows
        → IsSorted (λ a b. ltb a.seq b.seq) (rows ++ row ∷ [])
    IsSorted-append [] row s h = (tt, tt)
    IsSorted-append (r ∷ rows) row s h =
        (All-append _ rows (row ∷ []) s.0 (ground arith, tt), IsSorted-append rows row s.1 h.1)

-- ===== src/Pages/Owned.antt =====
-- A page is its owner's alone in crates/server/src/routes/pages.rs.
use v_note.Base.{
  Result, ℕ, ◌≡◌, refl, ap, ◌∙◌, Bool, true, false, not, ◌&&◌, String, same, List, [], ◌∷◌, map,
  Option, none, some, ok, err, retain, find, any, arith, if◌then◌else◌,
}
use v_note.Base.Sort.{IsSorted, sort-IsSorted, any-sort}
use v_note.Store.Tables.{
  Db, PageRow, ThumbnailRow, ThumbnailStatus, generating, failed, Postgres, page_belongs_to_owner,
  available,
}
use v_note.Store.Snapshots.{job_row}
use v_note.Dispatch.Context.{World}
use v_note.Pages.{
  ApiError, status, is_referenced, page_not_found, thumbnail_gone, db_operation_failed, get_page,
  get_thumbnail, delete_page, list_pages, owned_pages, more_recent, summary_in, png_of,
  found_or_forbidden,
}

png_of-ok :
    (o : Option ThumbnailRow) (png : List ℕ)
    → png_of o ≡ ok png
    → (row : ThumbnailRow) × (o ≡ some row) × (row.status ≡ available png)
png_of-ok none png h = cc
png_of-ok (some t) png h = (t, refl, by_status t.status h)
  where
    by_status :
        (status : ThumbnailStatus)
        → (elim status [
          | generating ↦ err thumbnail_gone
          | failed ↦ err thumbnail_gone
          | available image ↦ ok image
        ])
          ≡ ok png
        → status ≡ available png
    by_status generating h = cc
    by_status failed h = cc
    by_status (available image) h = cc

retain_all : {A : Type 0} (xs : List A) → retain (λ x. true) xs ≡ xs
retain_all [] = refl
retain_all (x ∷ xs) = ap (◌∷◌ x) (retain_all xs)

-- The answer is an error of the status.
abbrev pub Answers : {A : Type 0} → Result A ApiError → ℕ → Type 0
Answers r code = (e : ApiError) × ((r ≡ err e) × (status e ≡ code))

module _ {F : Type 0} (pg : Postgres) (owner_id page_id : String) (db : Db F) where
  not_found :
      (rows : List PageRow)
      → elim (find (λ p. same p.id page_id && same p.owner_id owner_id) rows) [
        | none ↦ false
        | some _ ↦ true
      ]
        ≡ false
      → find (λ p. same p.id page_id && same p.owner_id owner_id) rows ≡ none
  not_found [] h = refl
  not_found (p ∷ rows) h = ground (arith, not_found rows)

  none_matched :
      (rows : List PageRow)
      → elim (find (λ p. same p.id page_id && same p.owner_id owner_id) rows) [
        | none ↦ false
        | some _ ↦ true
      ]
        ≡ false
      → (retain (λ p. same p.id page_id && same p.owner_id owner_id) rows ≡ [])
        × (retain (λ p. not (same p.id page_id && same p.owner_id owner_id)) rows ≡ rows)
  none_matched [] h = (refl, refl)
  none_matched (p ∷ rows) h = ground (arith, none_matched rows)

  -- What the cascade leaves of a database, given the page rows that are gone and those that are left.
  abbrev left_by : List PageRow → List PageRow → Db F
  left_by gone left = record {
    pages = left;
    stroke_batches = retain (λ r. not (is_referenced r.page_id gone)) db.stroke_batches;
    stroke_tombstones = retain (λ r. not (is_referenced r.page_id gone)) db.stroke_tombstones;
    tombstone_batches = retain (λ r. not (is_referenced r.page_id gone)) db.tombstone_batches;
    page_thumbnails = retain (λ t. not (is_referenced t.page_id gone)) db.page_thumbnails;
  }

  left_by-none : (left : List PageRow) → left ≡ db.pages → left_by [] left ≡ db
  left_by-none left e =
      rw
        (
          e,
          retain_all db.stroke_batches,
          retain_all db.stroke_tombstones,
          retain_all db.tombstone_batches,
          retain_all db.page_thumbnails,
        )
        refl

  -- A caller who does not own a page, whether the page is there or not, is answered 403 by each
  -- route of the page, or 500 where its query fails, and a deletion changes nothing.
  pub routes-forbidden :
      (outage outage' : Bool) (source_seq : ℕ) (w : World F (Db F))
      → w.store ≡ db
      → page_belongs_to_owner page_id owner_id db ≡ false
      → let code : ℕ = if outage then 500 else 403 in
        Answers (get_page pg outage owner_id page_id db) code
        × (Answers (get_thumbnail outage outage' owner_id page_id source_seq db) code
            × (Answers (delete_page outage owner_id page_id w).1 code
                × ((delete_page outage owner_id page_id w).0 ≡ w)))
  unfolding page_belongs_to_owner get_page get_thumbnail delete_page status
  routes-forbidden true outage' source_seq w e h = (
    (db_operation_failed, (refl, refl)),
    ((db_operation_failed, (refl, refl)), ((db_operation_failed, (refl, refl)), refl)),
  )
  routes-forbidden false outage' source_seq w e h =
      let (gone, left) = none_matched db.pages h in
      (
        (page_not_found, (ap (found_or_forbidden pg db) (not_found db.pages h), refl)),
        (
          (page_not_found, (rw (get_thumbnail, page_belongs_to_owner, h) refl, refl)),
          (
            (page_not_found, (rw (delete_page, e, gone) refl, refl)),
            rw (delete_page, e, gone)
                (ap (λ (s : Db F). record w { store = s }) (left_by-none _ left)),
          ),
        ),
      )

  -- An image is served only to the page's owner, and is the one stored as available for the
  -- revision.
  pub get_thumbnail-ok :
      (outage outage' : Bool) (source_seq : ℕ) (png : List ℕ)
      → get_thumbnail outage outage' owner_id page_id source_seq db ≡ ok png
      → (page_belongs_to_owner page_id owner_id db ≡ true)
        × (row : ThumbnailRow) × (job_row page_id source_seq db.page_thumbnails ≡ some row)
        × (row.status ≡ available png)
  unfolding get_thumbnail
  get_thumbnail-ok true outage' source_seq png h = cc
  get_thumbnail-ok false outage' source_seq png h =
      by_owner (page_belongs_to_owner page_id owner_id db) outage' refl h
    where
      by_owner :
          (owned outage' : Bool)
          → page_belongs_to_owner page_id owner_id db ≡ owned
          → (if not owned
              then err page_not_found
              else if outage'
              then err db_operation_failed
              else png_of (job_row page_id source_seq db.page_thumbnails))
            ≡ ok png
          → (page_belongs_to_owner page_id owner_id db ≡ true)
            × (row : ThumbnailRow) × (job_row page_id source_seq db.page_thumbnails ≡ some row)
            × (row.status ≡ available png)
      by_owner false outage' e h = cc
      by_owner true true e h = cc
      by_owner true false e h =
          let (row, stored, status) =
            png_of-ok (job_row page_id source_seq db.page_thumbnails) png h in
          (e, row, stored, status)

recent_total : (x y : PageRow) → more_recent x y ≡ false → more_recent y x ≡ true
recent_total x y h = ground arith

recent_trans :
    (x y z : PageRow) → more_recent x y ≡ true → more_recent y z ≡ true → more_recent x z ≡ true
recent_trans x y z h k = ground arith

any-retain :
    (p q : PageRow → Bool) (rows : List PageRow)
    → any q (retain p rows) ≡ any (λ r. p r && q r) rows
any-retain p q [] = refl
any-retain p q (r ∷ rows) = ground (arith, any-retain p q rows)

-- The library lists the caller's own pages, all of them and no others, the most recently changed
-- first.
pub list_pages-ok :
    {F : Type 0} (pg : Postgres) (owner_id : String) (db : Db F) (q : PageRow → Bool)
    → (rows : List PageRow) × (list_pages pg false owner_id db ≡ ok (map (summary_in pg db) rows))
      × IsSorted more_recent rows
      × (any q rows ≡ any (λ p. same p.owner_id owner_id && q p) db.pages)
unfolding list_pages
list_pages-ok pg owner_id db q = (
  owned_pages owner_id db.pages,
  refl,
  sort-IsSorted more_recent recent_total recent_trans
      (retain (λ p. same p.owner_id owner_id) db.pages),
  any-sort more_recent q (retain (λ p. same p.owner_id owner_id) db.pages)
      ∙ any-retain (λ p. same p.owner_id owner_id) q db.pages,
)

-- ===== src/Pages/Created.antt =====
-- What the routes of crates/server/src/routes/pages.rs show of a page after its creation and after
-- its deletion.
use Prim.Native.String.{◌++◌ as ◌<>◌}
use v_note.Base.{
  str_dec, length, ◌==◌, ℕ, ◌≡◌, refl, sym, ap, ◌∙◌, subst, true, false, not, ◌&&◌, String, same,
  List, [], ◌∷◌, ◌++◌, none, some, Result, ok, retain, find, any, arith, inl,
}
use v_note.Base.Sort.{sort}
use v_note.Hub
use v_note.Protocol.Messages.{PageSummary, page_created}
use v_note.Protocol.Paper.{paper_or_default, from_wire-wire_value, wire_value}
use v_note.Store.Tables.{
  Db, PageRow, ThumbnailRow, StrokeBatchRow, StrokeTombstoneRow, TombstoneBatchRow, Postgres,
  page_row, page_belongs_to_owner, batches_of, tombstones_of, erasures_of,
}
use v_note.Store.Sound.{IsSound, thumbnails_of}
use v_note.Dispatch.Context.{World}
use v_note.Pages.{
  or_empty, ApiError, CreatePageRequest, create_page, get_page, delete_page, new_row, to_summary,
  latest_thumbnail, found_or_forbidden, is_referenced, matched_rows, first, newer_thumbnail,
}

-- No row of any table names the page.
pub record IsAbsent {F : Type 0} (page_id : String) (db : Db F) : Type 0 where
  pub pages : any (λ p. same p.id page_id) db.pages ≡ false
  pub batches : batches_of page_id db.stroke_batches ≡ []
  pub tombstones : tombstones_of page_id db.stroke_tombstones ≡ []
  pub erasures : erasures_of page_id db.tombstone_batches ≡ []
  pub thumbnails : thumbnails_of page_id db.page_thumbnails ≡ []

find-appended :
    (row : PageRow) (rows : List PageRow)
    → any (λ p. same p.id row.id) rows ≡ false
    → (find (λ p. same p.id row.id && same p.owner_id row.owner_id) (rows ++ row ∷ []) ≡ some row)
      × (page_row row.id (rows ++ row ∷ []) ≡ some row)
find-appended row [] h = (ground arith, ground arith)
find-appended row (p ∷ rows) h = ground (arith, find-appended row rows)

-- The thumbnail rows of a page without any.
no_thumbnail :
    (page_id : String) (rows : List ThumbnailRow)
    → thumbnails_of page_id rows ≡ []
    → latest_thumbnail page_id rows ≡ none
no_thumbnail page_id rows h = ap (λ ts. first (sort newer_thumbnail ts)) h

module _ {F : Type 0} (pg : Postgres) (now : ℕ) (hex owner_id : String)
    (payload : CreatePageRequest) (w : World F (Db F))
    (absent : IsAbsent ("page_" <> hex) w.store) where
  row : PageRow
  row = new_row now hex owner_id payload

  page : PageSummary
  unfolding row
  page = to_summary pg row none

  world_after : World F (Db F)
  unfolding row page
  world_after = record w {
    store = record (w.store) { pages = w.store.pages ++ row ∷ [] };
    hub = Hub.publish_library_event owner_id (page_created page) w.hub;
  }

  created : create_page pg false now hex owner_id payload w ≡ (world_after, ok page)
  unfolding create_page row page world_after
  created = rw (create_page, absent.pages) refl

  shown : get_page pg false owner_id ("page_" <> hex) world_after.store ≡ ok page
  unfolding get_page row page world_after
  shown =
      ap (found_or_forbidden pg world_after.store) (find-appended row w.store.pages absent.pages).0
      ∙ ap (λ t. ok (to_summary pg row t))
          (no_thumbnail ("page_" <> hex) w.store.page_thumbnails absent.thumbnails)

  sound : IsSound ("page_" <> hex) 0 world_after.store
  unfolding world_after
  sound = record {
    batch_revisions = rw (absent.batches) tt;
    serials = rw (absent.batches) tt;
    tombstone_revisions = rw (absent.tombstones) tt;
    thumbnail_revisions = rw (absent.thumbnails) tt;
    head_thumbnail = inl refl;
  }

  -- What a creation answers, and what its owner sees next.
  pub record IsCreated (r : World F (Db F) × Result PageSummary ApiError) : Type 0 where
    pub summary : PageSummary
    pub answer : r.1 ≡ ok summary
    pub shows : get_page pg false owner_id ("page_" <> hex) r.0.store ≡ ok summary
    pub paper : summary.paper ≡ payload.paper
    pub found :
        page_row ("page_" <> hex) r.0.store.pages
        ≡ some (record {
          id = "page_" <> hex;
          owner_id = owner_id;
          title = or_empty payload.title;
          created_at = now;
          updated_at = now;
          ink_revision = 0;
          paper = wire_value payload.paper;
        })
    pub is_sound : IsSound ("page_" <> hex) 0 r.0.store

  -- A page that is created under a new id is there for its owner at once, as the answer shows it,
  -- with the paper of the request, and sound at revision 0.
  pub create_page-get_page : IsCreated (create_page pg false now hex owner_id payload w)
  unfolding page row world_after to_summary
  create_page-get_page = subst IsCreated (sym created) (record {
    summary = page;
    answer = refl;
    shows = shown;
    paper = ap paper_or_default (from_wire-wire_value payload.paper);
    found = (find-appended row w.store.pages absent.pages).1;
    is_sound = sound;
  })

module _ {F : Type 0} (owner_id page_id : String) (w : World F (Db F)) where
  none_left :
      {A : Type 0} (id_of : A → String) (gone : List PageRow) (rows : List A)
      → is_referenced page_id gone ≡ true
      → retain (λ r. same (id_of r) page_id) (retain (λ r. not (is_referenced (id_of r) gone)) rows)
        ≡ []
  none_left id_of gone [] h = refl
  none_left id_of gone (r ∷ rows) h = elim (str_dec (id_of r) page_id) [
    | yes e ↦
        let found : is_referenced (id_of r) gone ≡ true =
          ap (λ (id : String). is_referenced id gone) e ∙ h in
        rw found (none_left id_of gone rows h)
    | no ne ↦ ground (arith, none_left id_of gone rows h)
  ]

  no_page :
      (rows : List PageRow)
      → any (λ p. same p.id page_id && not (same p.owner_id owner_id)) rows ≡ false
      → any
          (λ p. same p.id page_id)
          (retain (λ p. not (same p.id page_id && same p.owner_id owner_id)) rows)
        ≡ false
  no_page [] h = refl
  no_page (p ∷ rows) h = ground (arith, no_page rows)

  -- A page that is the caller's is among the rows that the deletion matches.
  matched :
      (rows : List PageRow)
      → elim (find (λ p. same p.id page_id && same p.owner_id owner_id) rows) [
        | none ↦ false
        | some _ ↦ true
      ]
        ≡ true
      → let gone = retain (λ p. same p.id page_id && same p.owner_id owner_id) rows in
        (is_referenced page_id gone ≡ true) × ((length gone == 0) ≡ false)
  matched [] h = cc
  matched (p ∷ rows) h = ground (arith, matched rows)

  -- A page that its owner deletes is gone with all its rows, where its id is no other owner's.
  pub delete_page-IsAbsent :
      page_belongs_to_owner page_id owner_id w.store ≡ true
      → any (λ p. same p.id page_id && not (same p.owner_id owner_id)) w.store.pages ≡ false
      → ((delete_page false owner_id page_id w).1 ≡ ok tt)
        × IsAbsent page_id (delete_page false owner_id page_id w).0.store
  unfolding page_belongs_to_owner delete_page
  delete_page-IsAbsent h unique =
      let (there, affected) = matched w.store.pages h in
      let gone = matched_rows page_id owner_id w.store in
      rw (delete_page, affected)
        (
          refl,
          record {
            pages = no_page w.store.pages unique;
            batches =
                none_left (λ (r : StrokeBatchRow F). r.page_id) gone w.store.stroke_batches there;
            tombstones =
                none_left (λ (r : StrokeTombstoneRow). r.page_id) gone w.store.stroke_tombstones
                  there;
            erasures =
                none_left (λ (r : TombstoneBatchRow). r.page_id) gone w.store.tombstone_batches
                  there;
            thumbnails =
                none_left (λ (t : ThumbnailRow). t.page_id) gone w.store.page_thumbnails there;
          },
        )

-- ===== src/Pages.antt =====
-- crates/server/src/routes/pages.rs: the routes of the page library, for a caller whose token the
-- middleware has validated (`owner_id` is `claims.sub`). `outage` says whether a query fails.
pub mod Owned
pub mod Created
mod Tests
use Prim.Native.String.{◌++◌ as ◌<>◌}
use v_note.Base.{
  ℕ, Bool, true, false, not, ◌&&◌, String, same, List, [], ◌∷◌, ◌++◌, map, Option, none, some,
  Result, ok, err, retain, find, any, length, if◌then◌else◌, ltb, leb, ◌==◌,
}
use v_note.Base.Sort.{sort}
use v_note.Base.Whitespace.{trim}
use v_note.Protocol.Paper.{Paper, wire_value, from_wire, paper_or_default}
use v_note.Protocol.Messages.{ThumbnailMetadata, PageSummary, page_created, page_deleted}
use v_note.Protocol.Messages
use v_note.Store.Tables.{
  Db, PageRow, ThumbnailRow, Postgres, page_row, page_belongs_to_owner, generating, available,
  failed,
}
use v_note.Store.Snapshots.{job_row}
use v_note.Hub
use v_note.Dispatch.Context.{World}
use v_note.Thumbnails.{thumbnail_url}

pub data ApiError : Type 0 where
  page_not_found thumbnail_gone db_operation_failed : ApiError

unfoldable pub status : ApiError → ℕ
status page_not_found = 403
status thumbnail_gone = 410
status db_operation_failed = 500

unfoldable pub message : ApiError → String
message page_not_found = "page not found"
message thumbnail_gone = "thumbnail revision no longer available"
message db_operation_failed = "database operation failed"

pub record CreatePageRequest : Type 0 where
  pub title : Option String
  pub paper : Paper

abbrev pub newer_thumbnail : ThumbnailRow → ThumbnailRow → Bool
newer_thumbnail a b = leb b.source_seq a.source_seq

abbrev pub first : {A : Type 0} → List A → Option A
first [] = none
first (x ∷ xs) = some x

-- `WHERE page_id = p.id ORDER BY source_seq DESC LIMIT 1`.
abbrev pub latest_thumbnail : String → List ThumbnailRow → Option ThumbnailRow
latest_thumbnail page_id rows =
    first (sort newer_thumbnail (retain (λ t. same t.page_id page_id) rows))

abbrev pub thumbnail_metadata : String → Option ThumbnailRow → ThumbnailMetadata
thumbnail_metadata id none = Messages.empty
thumbnail_metadata id (some t) = elim t.status [
  | generating ↦ Messages.generating t.source_seq
  | failed ↦ Messages.failed t.source_seq
  | available png ↦ Messages.available t.source_seq (thumbnail_url id t.source_seq)
]

-- The conversion of a row that a query returned to the summary that a client sees.
unfoldable pub to_summary : Postgres → PageRow → Option ThumbnailRow → PageSummary
to_summary pg row thumbnail = record {
  id = row.id;
  title = row.title;
  created_at = pg.to_rfc3339 row.created_at;
  updated_at = pg.to_rfc3339 row.updated_at;
  thumbnail = thumbnail_metadata row.id thumbnail;
  paper = paper_or_default (from_wire row.paper);
}

-- `ORDER BY p.updated_at DESC, p.created_at DESC`.
abbrev pub more_recent : PageRow → PageRow → Bool
more_recent a b =
    if ltb b.updated_at a.updated_at
    then true
    else if ltb a.updated_at b.updated_at
    then false
    else leb b.created_at a.created_at

abbrev pub or_empty : Option String → String
or_empty none = ""
or_empty (some title) = trim title

abbrev pub owned_pages : String → List PageRow → List PageRow
owned_pages owner_id rows = sort more_recent (retain (λ p. same p.owner_id owner_id) rows)

abbrev pub new_row : ℕ → String → String → CreatePageRequest → PageRow
new_row now hex owner_id payload = record {
  id = "page_" <> hex;
  owner_id = owner_id;
  title = or_empty payload.title;
  created_at = now;
  updated_at = now;
  ink_revision = 0;
  paper = wire_value payload.paper;
}

module _ {F : Type 0} (pg : Postgres) where
  abbrev pub summary_in : Db F → PageRow → PageSummary
  summary_in db row = to_summary pg row (latest_thumbnail row.id db.page_thumbnails)

  unfoldable pub list_pages : Bool → String → Db F → Result (List PageSummary) ApiError
  list_pages outage owner_id db =
      if outage
      then err db_operation_failed
      else ok (map (summary_in db) (owned_pages owner_id db.pages))

  -- `hex` is what `Uuid::new_v4` drew. An id that is taken violates the primary key.
  unfoldable pub create_page :
      Bool
      → ℕ
      → String
      → String
      → CreatePageRequest
      → World F (Db F)
      → World F (Db F) × Result PageSummary ApiError
  create_page outage now hex owner_id payload w =
      let row = new_row now hex owner_id payload in
      let page = to_summary pg row none in
      if outage
      then (w, err db_operation_failed)
      else if any (λ p. same p.id row.id) w.store.pages
      then (w, err db_operation_failed)
      else (
        record w {
          store = record (w.store) { pages = w.store.pages ++ row ∷ [] };
          hub = Hub.publish_library_event owner_id (page_created page) w.hub;
        },
        ok page,
      )

  abbrev pub found_or_forbidden : Db F → Option PageRow → Result PageSummary ApiError
  found_or_forbidden db none = err page_not_found
  found_or_forbidden db (some row) = ok (summary_in db row)

  unfoldable pub get_page : Bool → String → String → Db F → Result PageSummary ApiError
  get_page outage owner_id page_id db =
      if outage
      then err db_operation_failed
      else found_or_forbidden db
          (find (λ p. same p.id page_id && same p.owner_id owner_id) db.pages)

abbrev pub is_referenced : String → List PageRow → Bool
is_referenced page_id rows = any (λ p. same p.id page_id) rows

abbrev pub png_of : Option ThumbnailRow → Result (List ℕ) ApiError
png_of none = err thumbnail_gone
png_of (some t) = elim t.status [
  | generating ↦ err thumbnail_gone
  | failed ↦ err thumbnail_gone
  | available png ↦ ok png
]

module _ {F : Type 0} where
  -- The two queries may fail each.
  unfoldable pub get_thumbnail : Bool → Bool → String → String → ℕ → Db F → Result (List ℕ) ApiError
  get_thumbnail outage outage' owner_id page_id source_seq db =
      if outage
      then err db_operation_failed
      else if not (page_belongs_to_owner page_id owner_id db)
      then err page_not_found
      else if outage'
      then err db_operation_failed
      else png_of (job_row page_id source_seq db.page_thumbnails)

  -- The rows that `WHERE id = $1 AND owner_id = $2` finds.
  abbrev pub matched_rows : String → String → Db F → List PageRow
  matched_rows page_id owner_id db =
      retain (λ p. same p.id page_id && same p.owner_id owner_id) db.pages

  -- `DELETE FROM pages` of those rows, whose references cascade.
  abbrev pub delete_rows : String → String → Db F → Db F
  delete_rows page_id owner_id db =
      let gone = matched_rows page_id owner_id db in
      record {
        pages = retain (λ p. not (same p.id page_id && same p.owner_id owner_id)) db.pages;
        stroke_batches = retain (λ r. not (is_referenced r.page_id gone)) db.stroke_batches;
        stroke_tombstones = retain (λ r. not (is_referenced r.page_id gone)) db.stroke_tombstones;
        tombstone_batches = retain (λ r. not (is_referenced r.page_id gone)) db.tombstone_batches;
        page_thumbnails = retain (λ t. not (is_referenced t.page_id gone)) db.page_thumbnails;
      }

  unfoldable pub delete_page :
      Bool → String → String → World F (Db F) → World F (Db F) × Result (Unit {0}) ApiError
  delete_page outage owner_id page_id w =
      let rows_affected = length (matched_rows page_id owner_id w.store) in
      let w' = record w { store = delete_rows page_id owner_id w.store } in
      if outage
      then (w, err db_operation_failed)
      else if rows_affected == 0
      then (w', err page_not_found)
      else (
        record w' { hub = Hub.publish_library_event owner_id (page_deleted page_id) w'.hub },
        ok tt,
      )

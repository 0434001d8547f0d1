-- ===== src/Thumbnails.antt =====
-- crates/server/src/thumbnails.rs: the job that renders the preview of one revision of a page, one
-- query a step so that others can change the tables in between, the retention of old previews, and
-- the recovery of the jobs that a restart finds. Drawing is tiny_skia's (`Raster`).
pub mod Pixels
pub mod Downsampled
pub mod Snapshot
pub mod Outcome
pub mod Retention
pub mod Recovery
mod Tests
use Prim.Native.String.{◌++◌ as ◌<>◌}
use v_note.Base.{
  ℕ, ◌+◌, ◌*◌, Bool, true, false, not, ◌&&◌, ◌||◌, String, same, contains, List, [], ◌∷◌, ◌++◌, map,
  Option, none, some, Result, ok, err, retain, any, take, is_empty, is_err, if◌then◌else◌, ◌==◌,
  ltb, leb,
}
use v_note.Base.Sort.{sort}
use v_note.Base.Decimal.{show}
use v_note.Protocol.Float.{Float}
use v_note.Protocol.Ink.{Stroke, validate}
use v_note.Protocol.Paper.{Paper, from_wire}
use v_note.Protocol.Messages.{ThumbnailMetadata, LibraryEvent, page_thumbnail_updated}
use v_note.Protocol.Messages
use v_note.Store.Tables.{
  Db, PageRow, StrokeBatchRow, ThumbnailRow, ThumbnailStatus, page_row, stroke_id_of,
}
use v_note.Store.Tables
use v_note.Store.Snapshots.{job_row, batches_up_to, tombstones_up_to}
use v_note.Hub
use v_note.Hub.{seconds}
use v_note.Dispatch.Context.{World, ThumbnailJob}

-- The errors of `generate`, whose texts are only logged.
pub data JobError : Type 0 where
  row_missing : JobError
  unknown_paper : String → JobError
  not_rendered : String → JobError
  -- a query, the permit or the blocking task failed
  outage : String → JobError

-- tiny_skia: the empty white image, and strokes drawn over a paper, as PNG bytes.
pub record Raster (F : Type 0) : Type 0 where
  pub blank_png : Result (List ℕ) String
  pub draw : Paper → List (Stroke F) → Result (List ℕ) String

unfoldable pub thumbnail_url : String → ℕ → String
thumbnail_url page_id source_seq = "/api/pages/" <> (page_id <> ("/thumbnails/" <> show source_seq))

abbrev pub or_missing : Option ThumbnailRow → Result Paper JobError
or_missing none = err row_missing
or_missing (some row) = elim (from_wire row.paper) [
  | none ↦ err (unknown_paper row.paper)
  | some paper ↦ ok paper
]

abbrev pub update_job : String → ℕ → ThumbnailStatus → List ThumbnailRow → List ThumbnailRow
update_job page_id source_seq status [] = []
update_job page_id source_seq status (t ∷ rows) =
    (if same t.page_id page_id && (t.source_seq == source_seq)
      then record t { status = status }
      else t)
    ∷ update_job page_id source_seq status rows

abbrev pub retention_limit : ℕ
retention_limit = 10

abbrev pub retention : ℕ
retention = seconds 604_800

abbrev pub is_recent : ℕ → ThumbnailRow → Bool
is_recent now t = leb now (t.created_at + retention)

abbrev pub newest_first : ℕ → ℕ → Bool
newest_first a b = leb b a

abbrev pub source_seq_of : ThumbnailRow → ℕ
source_seq_of t = t.source_seq

abbrev pub contains_seq : List ℕ → ℕ → Bool
contains_seq seqs seq = any (λ s. s == seq) seqs

-- The inner `SELECT` of `cleanup`.
abbrev pub recent_seqs : ℕ → String → ℕ → List ThumbnailRow → List ℕ
recent_seqs now page_id head rows = take retention_limit (
    sort newest_first (
      map source_seq_of (
        retain (λ t. same t.page_id page_id && (not (t.source_seq == head) && is_recent now t))
          rows)))

abbrev pub is_superseded : ℕ → String → ℕ → List ℕ → ThumbnailRow → Bool
is_superseded now page_id head recent t =
    same t.page_id page_id
    && (not (t.source_seq == head)
        && (not (is_recent now t) || not (contains_seq recent t.source_seq)))

module _ {F : Type 0} where
  -- Where the page is gone, `source_seq <> NULL` holds of no row.
  unfoldable pub cleanup : ℕ → String → Db F → Db F
  cleanup now page_id db = elim (page_row page_id db.pages) [
    | none ↦ db
    | some page ↦
        let recent = recent_seqs now page_id page.ink_revision db.page_thumbnails in
        record db {
          page_thumbnails =
              retain (λ t. not (is_superseded now page_id page.ink_revision recent t))
                db.page_thumbnails;
        }
  ]

  abbrev pub revision_le : StrokeBatchRow F → StrokeBatchRow F → Bool
  revision_le a b = leb a.revision b.revision

  abbrev pub strokes_of : List (StrokeBatchRow F) → List (Stroke F)
  strokes_of [] = []
  strokes_of (b ∷ rows) = b.strokes ++ strokes_of rows

  -- The query of `generate` for the batches, flattened.
  abbrev pub strokes_up_to : String → ℕ → Db F → List (Stroke F)
  strokes_up_to page_id source_seq db =
      strokes_of (sort revision_le (batches_up_to page_id source_seq db.stroke_batches))

  abbrev pub not_erased : String → ℕ → Db F → List (Stroke F) → List (Stroke F)
  not_erased page_id source_seq db =
      let tombstones =
        map stroke_id_of (tombstones_up_to page_id source_seq db.stroke_tombstones) in
      retain (λ s. not (contains tombstones s.id))

-- Where a job stands: each step but the render is one statement of the database.
pub data JobState (F : Type 0) : Type 0 where
  queued : JobState F
  with_paper : Paper → JobState F
  with_batches : Paper → List (Stroke F) → JobState F
  with_strokes : Paper → List (Stroke F) → JobState F
  rendered : List ℕ → JobState F
  stored : JobState F
  broken : JobError → JobState F
  finished : ThumbnailMetadata → JobState F

module _ (f : Float) (raster : Raster f.F64) where
  abbrev pub is_drawn : Stroke f.F64 → Bool
  is_drawn stroke = not (is_empty stroke.points) && not (is_err (validate f stroke))

  -- The points that bound the image are those of the strokes that are drawn.
  unfoldable pub render : Paper → List (Stroke f.F64) → Result (List ℕ) String
  render paper strokes =
      let drawn = retain is_drawn strokes in
      if is_empty drawn then raster.blank_png else raster.draw paper drawn

  abbrev pub paper_read : Result Paper JobError → JobState f.F64
  paper_read (ok paper) = with_paper paper
  paper_read (err e) = broken e

  abbrev pub png_made : Result (List ℕ) String → JobState f.F64
  png_made (ok png) = rendered png
  png_made (err e) = broken (not_rendered e)

  module _ (page_id : String) (source_seq : ℕ) where
    abbrev with_status : ThumbnailStatus → Db f.F64 → Db f.F64
    with_status status db = record db {
      page_thumbnails = update_job page_id source_seq status db.page_thumbnails;
    }

    -- `generate`, then what `enqueue` does with its result, where nothing fails.
    unfoldable pub step : ℕ → JobState f.F64 → Db f.F64 → JobState f.F64 × Db f.F64
    unfolding render
    step now queued db =
        (paper_read (or_missing (job_row page_id source_seq db.page_thumbnails)), db)
    step now (with_paper paper) db = (with_batches paper (strokes_up_to page_id source_seq db), db)
    step now (with_batches paper strokes) db =
        (with_strokes paper (not_erased page_id source_seq db strokes), db)
    step now (with_strokes paper strokes) db = (png_made (render paper strokes), db)
    step now (rendered png) db = (stored, with_status (Tables.available png) db)
    step now stored db = (
      finished (Messages.available source_seq (thumbnail_url page_id source_seq)),
      cleanup now page_id db,
    )
    step now (broken e) db = (finished (Messages.failed source_seq), with_status Tables.failed db)
    step now (finished thumbnail) db = (finished thumbnail, db)

    -- The same where the statement fails: the clean-up is best effort, and so is the mark of a
    -- failed job.
    unfoldable pub step_failing : String → JobState f.F64 → JobState f.F64
    step_failing error stored =
        finished (Messages.available source_seq (thumbnail_url page_id source_seq))
    step_failing error (broken e) = finished (Messages.failed source_seq)
    step_failing error (finished thumbnail) = finished thumbnail
    step_failing error queued = broken (outage error)
    step_failing error (with_paper paper) = broken (outage error)
    step_failing error (with_batches paper strokes) = broken (outage error)
    step_failing error (with_strokes paper strokes) = broken (outage error)
    step_failing error (rendered png) = broken (outage error)

-- The event that `enqueue` publishes when the job has finished.
unfoldable pub publish_outcome : {F S : Type 0} → ThumbnailJob → JobState F → World F S → World F S
publish_outcome job (finished thumbnail) w = record w {
  hub = Hub.publish_library_event job.owner_id (page_thumbnail_updated job.page_id thumbnail) w.hub;
}
publish_outcome job _ w = w

-- ===== src/Thumbnails/Tests.antt =====
-- The theorems on thumbnails at concrete jobs, and the renderer's own cases.
use v_note.Base.{
  All, some, none, ℕ, zero, suc, ◌≡◌, ◌≤◌, ◌*◌, ◌⊎◌, refl, List, [], ◌∷◌, ◌++◌, map, none, some, ok,
  str_dec, arith, length, any, inr, true, Option, Result,
}
use v_note.Protocol.Ink.{
  Stroke, validate, validate_style, validate_points, default_solid_round_pressure, is_color,
  is_width, is_pressure,
}
use v_note.Protocol.Paper.{from_wire, wire_value}
use v_note.Protocol.Messages.{available, failed}
use v_note.Store.Tables.{Db}
use v_note.Store.Sound.{IsSound, thumbnails_of}
use v_note.Store.Batches.{persist_batch, insert_visible_batch}
use v_note.Store.Runs.{commits, erases, apply}
use v_note.Store.Erasures.{persist_tombstones, fresh_ids, insert_tombstones}
use v_note.Store.Tests.{db-page}
use v_note.Thumbnails.{
  Raster, queued, rendered, finished, step, step_failing, render, thumbnail_url, cleanup,
  source_seq_of,
}
use v_note.Thumbnails.Outcome.{JobEvent, steps, fails, mutates, after, run_job, run_job-finishes}
use v_note.Thumbnails.Snapshot.{IsPictureOf, run_job-renders}
use v_note.Thumbnails.Retention.{length-cleanup}
use v_note.Thumbnails.Recovery.{recover_pending, recover_pending-queues, is_job, IsDue}
use v_note.Thumbnails.Pixels.{Pixels, Pixmap, downsample}
use v_note.Thumbnails.Downsampled.{IsPremultiplied, downsample-ok}
use v_note.Dispatch.Context.{ThumbnailJob}
use v_note.Samples.{whole, stroke, pg, page, db, world}

-- It draws the number of strokes.
abbrev counting : Raster ℕ
counting = record { blank_png = ok (0 ∷ []); draw = λ paper strokes. ok (length strokes ∷ []) }

abbrev inked : Stroke ℕ
inked = record (stroke "stroke_a") {
  points = record { x = 1; y = 2; t = v_note.Base.pos 0; pressure = none } ∷ [];
}

abbrev inked_db : Db ℕ
inked_db = record db {
  stroke_batches =
      record {
        page_id = "page_1";
        seq = 1;
        revision = 1;
        client_batch_id = "batch_1";
        strokes = inked ∷ [];
      }
      ∷ [];
}

inked_db-IsSound : IsSound "page_1" 1 inked_db
unfolding str_dec
inked_db-IsSound = record {
  batch_revisions = (omega arith, tt);
  serials = (tt, tt);
  tombstone_revisions = tt;
  thumbnail_revisions = (omega arith, tt);
  head_thumbnail = inr refl;
}

-- The stroke is erased, and another one committed, while the job is under way.
abbrev late : List (JobEvent ℕ)
late =
    mutates (erases 3 "erase_1" ("stroke_a" ∷ []))
    ∷ steps 4
    ∷ steps 5
    ∷ mutates (commits 6 "batch_2" (inked ∷ []))
    ∷ steps 7
    ∷ steps 8
    ∷ []

late-rendered : (run_job whole counting pg "page_1" 1 late (queued, inked_db)).0 ≡ rendered (1 ∷ [])
unfolding run_job after step render apply persist_tombstones fresh_ids insert_tombstones
    persist_batch insert_visible_batch str_dec from_wire wire_value validate validate_style
    validate_points default_solid_round_pressure is_color is_width is_pressure
late-rendered = refl

run_job-renders_example : IsPictureOf whole counting "page_1" 1 inked_db (1 ∷ [])
run_job-renders_example =
    run_job-renders whole counting "page_1" 1 pg inked_db late page (1 ∷ []) db-page
      inked_db-IsSound (omega arith) late-rendered

abbrev failing : List (JobEvent ℕ)
failing =
    steps 3
    ∷ fails "connection lost"
    ∷ steps 4
    ∷ mutates (erases 5 "erase_1" ("stroke_a" ∷ []))
    ∷ steps 6
    ∷ steps 7
    ∷ steps 8
    ∷ []

run_job-finishes_example :
    ((run_job whole counting pg "page_1" 1 failing (queued, inked_db)).0
      ≡ finished (available 1 (thumbnail_url "page_1" 1)))
    ⊎ ((run_job whole counting pg "page_1" 1 failing (queued, inked_db)).0 ≡ finished (failed 1))
run_job-finishes_example =
    run_job-finishes whole counting pg "page_1" 1 failing inked_db (omega arith)

length-cleanup_example :
    length (thumbnails_of "page_1" (cleanup 100 "page_1" db).page_thumbnails) ≤ 11
unfolding str_dec
length-cleanup_example = length-cleanup 100 "page_1" db page db-page (refl, tt)

unfinished :
    any (v_note.Thumbnails.Recovery.is_unfinished "page_1" 1) world.store.page_thumbnails ≡ true
unfolding str_dec
unfinished = refl

recover_pending-queues_example :
    (recover_pending (some "timeout") world ≡ world)
    × ((jobs : List ThumbnailJob) × (((recover_pending none world).queued ≡ world.queued ++ jobs)
          × ((any (is_job "page_1" "owner_1" 1) jobs ≡ true) × All (IsDue world.store) jobs)))
recover_pending-queues_example =
    recover_pending-queues "timeout" "page_1" 1 page world unfinished db-page

-- Opaque greys.
abbrev greys : Pixels
greys = record {
  Pixel = ℕ;
  red = λ p. 200;
  green = λ p. 200;
  blue = λ p. 200;
  alpha = λ p. 255;
  from_rgba = λ r g b a. some r;
  allocates = λ w h. true;
}

greys-IsPremultiplied : IsPremultiplied greys
greys-IsPremultiplied = record {
  red_le = λ p. omega arith;
  green_le = λ p. omega arith;
  blue_le = λ p. omega arith;
  alpha_le = λ p. omega arith;
  accepts = λ r g b a hr hg hb ha. (r, refl);
  allocated = refl;
}

replicate : ℕ → List ℕ
replicate zero = []
replicate (suc n) = 200 ∷ replicate n

length-replicate : (n : ℕ) → length (replicate n) ≡ n
unfolding replicate
length-replicate zero = refl
length-replicate (suc n) = omega (arith, length-replicate n)

abbrev grey_image : Pixmap ℕ
grey_image = record { width = 480; height = 320; pixels = replicate (480 * 320) }

downsample-ok_example :
    (ps : List ℕ) × (downsample greys grey_image
      ≡ some (ok (record { width = 240; height = 160; pixels = ps })))
    × (length ps ≡ 240 * 160)
downsample-ok_example =
    downsample-ok greys greys-IsPremultiplied grey_image refl refl (length-replicate (480 * 320))

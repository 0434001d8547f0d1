-- ===== src/Thumbnails/Snapshot.antt =====
-- A thumbnail shows its revision, however late it is rendered.
use v_note.Base.{
  ℕ, ◌≤◌, ◌≡◌, refl, String, List, [], ◌∷◌, arith, some, Result, ok, err, ap, ap₂, sym, ◌∙◌, subst,
  map, retain, contains, not,
}
use v_note.Base.Sort.{sort}
use v_note.Protocol.Float.{Float}
use v_note.Protocol.Paper.{Paper}
use v_note.Protocol.Ink.{Stroke}
use v_note.Protocol.Messages.{available, generating, empty, failed}
use v_note.Store.Tables.{Db, StrokeTombstoneRow, stroke_id_of, PageRow, Postgres, page_row}
use v_note.Store.Sound.{IsSound}
use v_note.Store.Snapshots.{IsKept, IsKept-refl, IsKept-trans, job_row}
use v_note.Store.Runs.{Mutation, apply, apply-IsSoundBetween}
use v_note.Thumbnails.{
  Raster, JobState, JobError, queued, with_paper, with_batches, with_strokes, rendered, stored,
  broken, finished, step, step_failing, or_missing, render, strokes_up_to, not_erased, paper_read,
  png_made, strokes_of, revision_le,
}
use v_note.Thumbnails.Outcome.{JobEvent, steps, fails, mutates, after, run_job}

module _ (f : Float) (raster : Raster f.F64) (page_id : String) (source_seq : ℕ) where
  -- The paper of the job and the strokes of its revision, read at once.
  abbrev pub paper_at : Db f.F64 → Result Paper JobError
  paper_at db = or_missing (job_row page_id source_seq db.page_thumbnails)

  abbrev pub strokes_at : Db f.F64 → List (Stroke f.F64)
  strokes_at db = not_erased page_id source_seq db (strokes_up_to page_id source_seq db)

  -- `generate` on a database that nobody else changes.
  unfoldable pub IsPictureOf : Db f.F64 → List ℕ → Type 0
  IsPictureOf db png =
      (paper : Paper) × (paper_at db ≡ ok paper) × (render f raster paper (strokes_at db) ≡ ok png)

  module _ (pg : Postgres) (origin : Db f.F64) where
    -- The page goes on from `origin`, whose revision is at least that of the job.
    record IsLater (db : Db f.F64) : Type 0 where
      page : PageRow
      found : page_row page_id db.pages ≡ some page
      sound : IsSound page_id page.ink_revision db
      reached : source_seq ≤ page.ink_revision
      kept : IsKept page_id source_seq origin db

    IsAsOf : JobState f.F64 → Db f.F64 → Type 0
    IsAsOf queued db = IsLater db
    IsAsOf (with_paper paper) db = IsLater db × (paper_at origin ≡ ok paper)
    IsAsOf (with_batches paper strokes) db =
        IsLater db
        × (paper_at origin ≡ ok paper)
        × (strokes ≡ strokes_up_to page_id source_seq origin)
    IsAsOf (with_strokes paper strokes) db =
        (paper_at origin ≡ ok paper) × (strokes ≡ strokes_at origin)
    IsAsOf (rendered png) db = IsPictureOf origin png
    IsAsOf stored db = (png : List ℕ) × IsPictureOf origin png
    IsAsOf (broken e) db = Unit
    IsAsOf (finished (available seq url)) db = (png : List ℕ) × IsPictureOf origin png
    IsAsOf (finished (failed seq)) db = Unit
    IsAsOf (finished (generating seq)) db = Unit
    IsAsOf (finished empty) db = Unit

    apply-IsLater :
        (m : Mutation f.F64) (db : Db f.F64) → IsLater db → IsLater (apply pg page_id m db)
    apply-IsLater m db later =
        let next = apply-IsSoundBetween pg page_id m db later.page later.found later.sound in
        record {
          page = next.page;
          found = next.found;
          sound = next.sound;
          reached = omega (arith, later.reached, next.low_le);
          kept =
              IsKept-trans page_id source_seq origin db (apply pg page_id m db) later.kept
                (next.kept source_seq later.reached);
        }

    paper_kept : (db : Db f.F64) → IsLater db → paper_at db ≡ paper_at origin
    paper_kept db later = ap or_missing later.kept.job

    paper_read-IsAsOf :
        (db : Db f.F64) (r : Result Paper JobError)
        → IsLater db
        → paper_at db ≡ r
        → IsAsOf (paper_read f raster r) db
    unfolding IsAsOf
    paper_read-IsAsOf db (ok paper) later e = (later, sym (paper_kept db later) ∙ e)
    paper_read-IsAsOf db (err e) later _ = tt

    png_made-IsAsOf :
        (db : Db f.F64) (paper : Paper) (r : Result (List ℕ) String)
        → paper_at origin ≡ ok paper
        → render f raster paper (strokes_at origin) ≡ r
        → IsAsOf (png_made f raster r) db
    unfolding IsAsOf IsPictureOf
    png_made-IsAsOf db paper (ok png) h e = (paper, h, e)
    png_made-IsAsOf db paper (err e) h _ = tt

    after-IsAsOf :
        (e : JobEvent f.F64) (job : JobState f.F64) (db : Db f.F64)
        → IsAsOf job db
        → IsAsOf
            (after f raster pg page_id source_seq e (job, db)).0
            (after f raster pg page_id source_seq e (job, db)).1
    unfolding IsAsOf after step step_failing
    after-IsAsOf (steps now) queued db later = paper_read-IsAsOf db _ later refl
    after-IsAsOf (steps now) (with_paper paper) db (later, h) =
        (later, h, ap (λ rows. strokes_of (sort revision_le rows)) later.kept.batches)
    after-IsAsOf (steps now) (with_batches paper strokes) db (later, h, e) =
        (h, ap₂ without later.kept.tombstones e)
      where
        without : List StrokeTombstoneRow → List (Stroke f.F64) → List (Stroke f.F64)
        without rows = retain (λ s. not (contains (map stroke_id_of rows) s.id))
    after-IsAsOf (steps now) (with_strokes paper strokes) db (h, e) =
        png_made-IsAsOf db paper _ h (ap (render f raster paper) (sym e))
    after-IsAsOf (steps now) (rendered png) db h = (png, h)
    after-IsAsOf (steps now) stored db h = h
    after-IsAsOf (steps now) (broken e) db h = tt
    after-IsAsOf (steps now) (finished (available seq url)) db h = h
    after-IsAsOf (steps now) (finished (failed seq)) db h = tt
    after-IsAsOf (steps now) (finished (generating seq)) db h = tt
    after-IsAsOf (steps now) (finished empty) db h = tt
    after-IsAsOf (fails error) queued db h = tt
    after-IsAsOf (fails error) (with_paper paper) db h = tt
    after-IsAsOf (fails error) (with_batches paper strokes) db h = tt
    after-IsAsOf (fails error) (with_strokes paper strokes) db h = tt
    after-IsAsOf (fails error) (rendered png) db h = tt
    after-IsAsOf (fails error) stored db h = h
    after-IsAsOf (fails error) (broken e) db h = tt
    after-IsAsOf (fails error) (finished (available seq url)) db h = h
    after-IsAsOf (fails error) (finished (failed seq)) db h = tt
    after-IsAsOf (fails error) (finished (generating seq)) db h = tt
    after-IsAsOf (fails error) (finished empty) db h = tt
    after-IsAsOf (mutates m) queued db later = apply-IsLater m db later
    after-IsAsOf (mutates m) (with_paper paper) db (later, h) = (apply-IsLater m db later, h)
    after-IsAsOf (mutates m) (with_batches paper strokes) db (later, h, e) =
        (apply-IsLater m db later, h, e)
    after-IsAsOf (mutates m) (with_strokes paper strokes) db h = h
    after-IsAsOf (mutates m) (rendered png) db h = h
    after-IsAsOf (mutates m) stored db h = h
    after-IsAsOf (mutates m) (broken e) db h = tt
    after-IsAsOf (mutates m) (finished (available seq url)) db h = h
    after-IsAsOf (mutates m) (finished (failed seq)) db h = tt
    after-IsAsOf (mutates m) (finished (generating seq)) db h = tt
    after-IsAsOf (mutates m) (finished empty) db h = tt

    run_job-IsAsOf :
        (events : List (JobEvent f.F64)) (job : JobState f.F64) (db : Db f.F64)
        → IsAsOf job db
        → IsAsOf
            (run_job f raster pg page_id source_seq events (job, db)).0
            (run_job f raster pg page_id source_seq events (job, db)).1
    unfolding run_job
    run_job-IsAsOf [] job db h = h
    run_job-IsAsOf (e ∷ events) job db h =
        let (job', db') = after f raster pg page_id source_seq e (job, db) in
        run_job-IsAsOf events job' db' (after-IsAsOf e job db h)

    -- A job for a revision that a sound page has reached renders that revision: whenever it gets as
    -- far as an image, the paper and the strokes of the image are those that the revision had when
    -- the job was queued, whatever mutations are made between the queries of the job.
    pub run_job-renders :
        (events : List (JobEvent f.F64)) (page : PageRow) (png : List ℕ)
        → page_row page_id origin.pages ≡ some page
        → IsSound page_id page.ink_revision origin
        → source_seq ≤ page.ink_revision
        → (run_job f raster pg page_id source_seq events (queued, origin)).0 ≡ rendered png
        → IsPictureOf origin png
    unfolding IsAsOf
    run_job-renders events page png found sound reached e =
        subst (λ job. IsAsOf job (run_job f raster pg page_id source_seq events (queued, origin)).1)
          e
          (run_job-IsAsOf events queued origin (record {
            page = page;
            found = found;
            sound = sound;
            reached = reached;
            kept = IsKept-refl page_id source_seq origin;
          }))

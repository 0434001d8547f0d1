-- ===== src/Thumbnails/Outcome.antt =====
-- Every thumbnail job ends, whatever fails and whatever others do to the tables meanwhile.
use v_note.Base.{
  ℕ, suc, ◌+◌, ◌-◌, ◌≤◌, ◌≡◌, ◌⊎◌, inl, inr, refl, String, List, [], ◌∷◌, arith, Result, ok, err,
  ap,
}
use v_note.Protocol.Float.{Float}
use v_note.Protocol.Paper.{Paper}
use v_note.Protocol.Messages.{available, failed}
use v_note.Store.Tables.{Db, Postgres}
use v_note.Store.Runs.{Mutation, apply}
use v_note.Thumbnails.{
  Raster, JobState, JobError, queued, with_paper, with_batches, with_strokes, rendered, stored,
  broken, finished, step, step_failing, thumbnail_url, paper_read, png_made,
}

-- A statement of the job that succeeds or fails, at its time, and a mutation of the page between
-- two of them.
pub data JobEvent (F : Type 0) : Type 0 where
  steps : ℕ → JobEvent F
  fails : String → JobEvent F
  mutates : Mutation F → JobEvent F

abbrev pub steps_among : {F : Type 0} → List (JobEvent F) → ℕ
steps_among [] = 0
steps_among (steps now ∷ events) = suc (steps_among events)
steps_among (fails error ∷ events) = suc (steps_among events)
steps_among (mutates m ∷ events) = steps_among events

-- How many statements a job has left at most.
abbrev statements_left : {F : Type 0} → JobState F → ℕ
statements_left queued = 6
statements_left (with_paper paper) = 5
statements_left (with_batches paper strokes) = 4
statements_left (with_strokes paper strokes) = 3
statements_left (rendered png) = 2
statements_left stored = 1
statements_left (broken e) = 1
statements_left (finished thumbnail) = 0

module _ (f : Float) (raster : Raster f.F64) (pg : Postgres) (page_id : String)
    (source_seq : ℕ) where
  unfoldable pub after : JobEvent f.F64 → JobState f.F64 × Db f.F64 → JobState f.F64 × Db f.F64
  after (steps now) (job, db) = step f raster page_id source_seq now job db
  after (fails error) (job, db) = (step_failing f raster page_id source_seq error job, db)
  after (mutates m) (job, db) = (job, apply pg page_id m db)

  unfoldable pub run_job :
      List (JobEvent f.F64) → JobState f.F64 × Db f.F64 → JobState f.F64 × Db f.F64
  run_job [] at = at
  run_job (e ∷ events) at = run_job events (after e at)

  -- A finished job is available under its own address, or failed.
  IsReported : JobState f.F64 → Type 0
  IsReported (finished thumbnail) =
      (thumbnail ≡ available source_seq (thumbnail_url page_id source_seq))
      ⊎ (thumbnail ≡ failed source_seq)
  IsReported _ = Unit

  statements_left-paper_read :
      (r : Result Paper JobError)
      → (statements_left (paper_read f raster r) ≤ 5) × IsReported (paper_read f raster r)
  unfolding IsReported
  statements_left-paper_read (ok paper) = (omega arith, tt)
  statements_left-paper_read (err e) = (omega arith, tt)

  statements_left-png_made :
      (r : Result (List ℕ) String)
      → (statements_left (png_made f raster r) ≤ 2) × IsReported (png_made f raster r)
  unfolding IsReported
  statements_left-png_made (ok png) = (omega arith, tt)
  statements_left-png_made (err e) = (omega arith, tt)

  -- A statement that succeeds or fails leaves fewer to make.
  after-reports :
      (e : JobEvent f.F64) (job : JobState f.F64) (db : Db f.F64)
      → IsReported job
      → (statements_left (after e (job, db)).0 ≤ statements_left job - steps_among (e ∷ []))
        × IsReported (after e (job, db)).0
  unfolding after step step_failing IsReported
  after-reports (steps now) queued db h = statements_left-paper_read _
  after-reports (steps now) (with_paper paper) db h = (omega arith, tt)
  after-reports (steps now) (with_batches paper strokes) db h = (omega arith, tt)
  after-reports (steps now) (with_strokes paper strokes) db h = statements_left-png_made _
  after-reports (steps now) (rendered png) db h = (omega arith, tt)
  after-reports (steps now) stored db h = (omega arith, inl refl)
  after-reports (steps now) (broken e) db h = (omega arith, inr refl)
  after-reports (steps now) (finished thumbnail) db h = (omega arith, h)
  after-reports (fails error) queued db h = (omega arith, tt)
  after-reports (fails error) (with_paper paper) db h = (omega arith, tt)
  after-reports (fails error) (with_batches paper strokes) db h = (omega arith, tt)
  after-reports (fails error) (with_strokes paper strokes) db h = (omega arith, tt)
  after-reports (fails error) (rendered png) db h = (omega arith, tt)
  after-reports (fails error) stored db h = (omega arith, inl refl)
  after-reports (fails error) (broken e) db h = (omega arith, inr refl)
  after-reports (fails error) (finished thumbnail) db h = (omega arith, h)
  after-reports (mutates m) job db h = (omega arith, h)

  run_job-reports :
      (events : List (JobEvent f.F64)) (job : JobState f.F64) (db : Db f.F64)
      → IsReported job
      → (statements_left (run_job events (job, db)).0 ≤ statements_left job - steps_among events)
        × IsReported (run_job events (job, db)).0
  unfolding run_job
  run_job-reports [] job db h = (omega arith, h)
  run_job-reports (e ∷ events) job db h =
      let next = after-reports e job db h in
      let (job', db') = after e (job, db) in
      let last = run_job-reports events job' db' next.1 in
      (omega (arith, next.0, last.0, steps_among-cons e events), last.1)
    where
      steps_among-cons :
          (e : JobEvent f.F64) (events : List (JobEvent f.F64))
          → steps_among (e ∷ events) ≡ steps_among (e ∷ []) + steps_among events
      steps_among-cons (steps now) events = omega arith
      steps_among-cons (fails error) events = omega arith
      steps_among-cons (mutates m) events = omega arith

  reported :
      (job : JobState f.F64)
      → statements_left job ≡ 0
      → IsReported job
      → (job ≡ finished (available source_seq (thumbnail_url page_id source_seq)))
        ⊎ (job ≡ finished (failed source_seq))
  unfolding IsReported
  reported (finished thumbnail) none_left (inl e) = inl (ap finished e)
  reported (finished thumbnail) none_left (inr e) = inr (ap finished e)
  reported queued none_left h = absurd (omega arith)
  reported (with_paper paper) none_left h = absurd (omega arith)
  reported (with_batches paper strokes) none_left h = absurd (omega arith)
  reported (with_strokes paper strokes) none_left h = absurd (omega arith)
  reported (rendered png) none_left h = absurd (omega arith)
  reported stored none_left h = absurd (omega arith)
  reported (broken e) none_left h = absurd (omega arith)

  -- A queued job ends within six statements, whichever of them fail and whatever mutations are made
  -- between them: it then reports the revision available under its own address, or failed.
  pub run_job-finishes :
      (events : List (JobEvent f.F64)) (db : Db f.F64)
      → 6 ≤ steps_among events
      → ((run_job events (queued, db)).0
          ≡ finished (available source_seq (thumbnail_url page_id source_seq)))
        ⊎ ((run_job events (queued, db)).0 ≡ finished (failed source_seq))
  unfolding IsReported
  run_job-finishes events db enough =
      let (left, known) = run_job-reports events queued db tt in
      reported _ (omega (arith, left)) known

-- ===== src/Thumbnails/Recovery.antt =====
-- `recover_pending` of crates/server/src/thumbnails.rs: a restart queues again every job that it
-- finds unfinished.
use v_note.Base.{
  All, All-map, All-append, refl, ℕ, Bool, true, false, ◌&&◌, ◌≡◌, sym, ◌∙◌, append-nil,
  append_assoc, String, same, List, [], ◌∷◌, ◌++◌, Option, none, some, any, any-append, arith,
  if◌then◌else◌, Bool-cases, inl, inr, ◌==◌,
}
use v_note.Base.Decimal.{show_inj, append_cancel}
use v_note.Protocol.Messages.{page_thumbnail_updated}
use v_note.Protocol.Messages
use v_note.Store.Tables.{
  Db, PageRow, ThumbnailRow, ThumbnailStatus, generating, available, failed, page_row,
}
use v_note.Hub
use v_note.Dispatch.Context.{World, ThumbnailJob}
use v_note.Thumbnails.{thumbnail_url}

abbrev pub is_generating : ThumbnailStatus → Bool
is_generating generating = true
is_generating failed = false
is_generating (available png) = false

abbrev job_of : ThumbnailRow → PageRow → ThumbnailJob
job_of t p = record { page_id = t.page_id; owner_id = p.owner_id; source_seq = t.source_seq }

-- The join of one thumbnail with the pages.
abbrev pub jobs_of : ThumbnailRow → List PageRow → List ThumbnailJob
jobs_of t [] = []
jobs_of t (p ∷ pages) =
    let rest = jobs_of t pages in if same p.id t.page_id then job_of t p ∷ rest else rest

abbrev pub pending_jobs : List ThumbnailRow → List PageRow → List ThumbnailJob
pending_jobs [] pages = []
pending_jobs (t ∷ rows) pages =
    let rest = pending_jobs rows pages in
    if is_generating t.status then jobs_of t pages ++ rest else rest

module _ {F S : Type 0} where
  abbrev pub queue_all : List ThumbnailJob → World F S → World F S
  queue_all [] w = w
  queue_all (job ∷ jobs) w = queue_all jobs (record w {
    hub =
        Hub.publish_library_event job.owner_id
          (page_thumbnail_updated job.page_id (Messages.generating job.source_seq)) w.hub;
    queued = w.queued ++ job ∷ [];
  })

-- A query that fails is logged, and nothing is recovered.
unfoldable pub recover_pending : {F : Type 0} → Option String → World F (Db F) → World F (Db F)
recover_pending (some error) w = w
recover_pending none w = queue_all (pending_jobs w.store.page_thumbnails w.store.pages) w

abbrev pub is_job : String → String → ℕ → ThumbnailJob → Bool
is_job page_id owner_id source_seq job =
    same job.page_id page_id && (same job.owner_id owner_id && (job.source_seq == source_seq))

queued-queue_all :
    {F S : Type 0} (jobs : List ThumbnailJob) (w : World F S)
    → (queue_all jobs w).queued ≡ w.queued ++ jobs
queued-queue_all [] w = sym (append-nil w.queued)
queued-queue_all {F} {S} (job ∷ jobs) w =
    queued-queue_all jobs (queue_all (job ∷ []) w) ∙ append_assoc w.queued (job ∷ []) jobs

abbrev pub is_unfinished : String → ℕ → ThumbnailRow → Bool
is_unfinished page_id source_seq t =
    same t.page_id page_id && ((t.source_seq == source_seq) && is_generating t.status)

module _ (page_id : String) (source_seq : ℕ) where
  jobs_of-found :
      (t : ThumbnailRow) (pages : List PageRow) (page : PageRow)
      → is_unfinished page_id source_seq t ≡ true
      → page_row page_id pages ≡ some page
      → any (is_job page_id page.owner_id source_seq) (jobs_of t pages) ≡ true
  jobs_of-found t [] page h found = ground arith
  jobs_of-found t (p ∷ pages) page h found = ground (arith, jobs_of-found t pages page)

  pending_jobs-found :
      (rows : List ThumbnailRow) (pages : List PageRow) (page : PageRow)
      → any (is_unfinished page_id source_seq) rows ≡ true
      → page_row page_id pages ≡ some page
      → any (is_job page_id page.owner_id source_seq) (pending_jobs rows pages) ≡ true
  pending_jobs-found [] pages page h found = ground arith
  pending_jobs-found (t ∷ rows) pages page h found =
      elim (Bool-cases (is_unfinished page_id source_seq t)) [
        | inl e ↦ ground (
          arith,
          jobs_of-found t pages page e found,
          any-append (is_job page_id page.owner_id source_seq) (jobs_of t pages)
              (pending_jobs rows pages),
        )
        | inr e ↦ ground (
          arith,
          pending_jobs-found rows pages page,
          any-append (is_job page_id page.owner_id source_seq) (jobs_of t pages)
              (pending_jobs rows pages),
        )
      ]

-- The job is of a page that is there, for its owner, and of a thumbnail that is still generating.
abbrev pub IsDue : {F : Type 0} → Db F → ThumbnailJob → Type 0
IsDue db job =
    (any (λ p. same p.id job.page_id && same p.owner_id job.owner_id) db.pages ≡ true)
    × (any (is_unfinished job.page_id job.source_seq) db.page_thumbnails ≡ true)

abbrev is_owned : ThumbnailJob → List PageRow → Bool
is_owned job pages = any (λ p. same p.id job.page_id && same p.owner_id job.owner_id) pages

abbrev IsJobOf : ThumbnailRow → List PageRow → ThumbnailJob → Type 0
IsJobOf t pages job =
    (is_owned job pages ≡ true) × ((job.page_id ≡ t.page_id) × (job.source_seq ≡ t.source_seq))

owned_by_more :
    (p : PageRow) (pages : List PageRow) (job : ThumbnailJob)
    → is_owned job pages ≡ true
    → is_owned job (p ∷ pages) ≡ true
owned_by_more p pages job h = ground arith

jobs_of-IsJobOf :
    (t : ThumbnailRow) (pages : List PageRow) → All (IsJobOf t pages) (jobs_of t pages)
jobs_of-IsJobOf t [] = tt
jobs_of-IsJobOf t (p ∷ pages) =
    let rest : All (IsJobOf t (p ∷ pages)) (jobs_of t pages) =
      All-map (IsJobOf t pages) (IsJobOf t (p ∷ pages)) (jobs_of t pages)
        (λ job h. (owned_by_more p pages job h.0, h.1)) (jobs_of-IsJobOf t pages) in
    by_id (same p.id t.page_id) refl rest
  where
    by_id :
        (b : Bool)
        → same p.id t.page_id ≡ b
        → All (IsJobOf t (p ∷ pages)) (jobs_of t pages)
        → All (IsJobOf t (p ∷ pages)) (if b then job_of t p ∷ jobs_of t pages else jobs_of t pages)
    by_id true e rest = ((ground arith, (refl, refl)), rest)
    by_id false e rest = rest

abbrev IsDueIn : List PageRow → List ThumbnailRow → ThumbnailJob → Type 0
IsDueIn pages rows job =
    (is_owned job pages ≡ true) × (any (is_unfinished job.page_id job.source_seq) rows ≡ true)

unfinished_of_more :
    (t : ThumbnailRow) (rows : List ThumbnailRow) (job : ThumbnailJob)
    → any (is_unfinished job.page_id job.source_seq) rows ≡ true
    → any (is_unfinished job.page_id job.source_seq) (t ∷ rows) ≡ true
unfinished_of_more t rows job h = ground arith

unfinished_of_own :
    (t : ThumbnailRow) (rows : List ThumbnailRow) (job : ThumbnailJob)
    → is_generating t.status ≡ true
    → job.page_id ≡ t.page_id
    → job.source_seq ≡ t.source_seq
    → any (is_unfinished job.page_id job.source_seq) (t ∷ rows) ≡ true
unfinished_of_own t rows job h e e' = ground arith

pending_jobs-IsDueIn :
    (rows : List ThumbnailRow) (pages : List PageRow)
    → All (IsDueIn pages rows) (pending_jobs rows pages)
pending_jobs-IsDueIn [] pages = tt
pending_jobs-IsDueIn (t ∷ rows) pages =
    let rest : All (IsDueIn pages (t ∷ rows)) (pending_jobs rows pages) =
      All-map (IsDueIn pages rows) (IsDueIn pages (t ∷ rows)) (pending_jobs rows pages)
        (λ job h. (h.0, unfinished_of_more t rows job h.1)) (pending_jobs-IsDueIn rows pages) in
    by_status (is_generating t.status) refl rest
  where
    by_status :
        (b : Bool)
        → is_generating t.status ≡ b
        → All (IsDueIn pages (t ∷ rows)) (pending_jobs rows pages)
        → All
            (IsDueIn pages (t ∷ rows))
            (if b then jobs_of t pages ++ pending_jobs rows pages else pending_jobs rows pages)
    by_status true e rest =
        All-append (IsDueIn pages (t ∷ rows)) (jobs_of t pages) (pending_jobs rows pages)
          (All-map (IsJobOf t pages) (IsDueIn pages (t ∷ rows)) (jobs_of t pages)
            (λ job h. (h.0, unfinished_of_own t rows job e h.1.0 h.1.1)) (jobs_of-IsJobOf t pages))
          rest
    by_status false e rest = rest

-- A thumbnail that is still generating and whose page is there: a restart whose query succeeds puts its
-- job, for the page's owner, behind those that are queued, among jobs that are all of a thumbnail that
-- is still generating and of its page's owner. A restart whose query fails leaves all as it is.
pub recover_pending-queues :
    {F : Type 0} (error page_id : String) (source_seq : ℕ) (page : PageRow) (w : World F (Db F))
    → any (is_unfinished page_id source_seq) w.store.page_thumbnails ≡ true
    → page_row page_id w.store.pages ≡ some page
    → (recover_pending (some error) w ≡ w)
      × ((jobs : List ThumbnailJob) × (((recover_pending none w).queued ≡ w.queued ++ jobs)
            × ((any (is_job page_id page.owner_id source_seq) jobs ≡ true)
                × All (IsDue w.store) jobs)))
unfolding recover_pending
recover_pending-queues error page_id source_seq page w h found = (
  refl,
  (
    pending_jobs w.store.page_thumbnails w.store.pages,
    (
      queued-queue_all (pending_jobs w.store.page_thumbnails w.store.pages) w,
      (
        pending_jobs-found page_id source_seq w.store.page_thumbnails w.store.pages page h found,
        pending_jobs-IsDueIn w.store.page_thumbnails w.store.pages,
      ),
    ),
  ),
)

-- Two revisions of a page never have the same address.
pub thumbnail_url_inj :
    (page_id : String) (m n : ℕ) → thumbnail_url page_id m ≡ thumbnail_url page_id n → m ≡ n
unfolding thumbnail_url
thumbnail_url_inj page_id m n h = show_inj m n (
    append_cancel "/thumbnails/" _ _
      (append_cancel page_id _ _ (append_cancel "/api/pages/" _ _ h)))

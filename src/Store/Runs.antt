-- ===== src/Store/Runs.antt =====
-- Sequences of the mutations of crates/server/src/realtime/store.rs on one page: the page stays
-- sound, and what is erased stays erased.
use v_note.Base.{
  ℕ, suc, ◌+◌, ◌≤◌, ◌≡◌, Bool, true, false, String, List, [], ◌∷◌, some, ok, err, Result, arith,
  length, ap,
}
use v_note.Protocol.Ink.{Stroke}
use v_note.Protocol.Paper.{Paper}
use v_note.Store.Tables.{Db, DbError, PageRow, Postgres, page_row}
use v_note.Store.Batches.{persist_batch}
use v_note.Store.Erasures.{persist_tombstones}
use v_note.Store.PaperChange.{persist_paper}
use v_note.Store.Snapshots.{IsKept, IsKept-refl, IsKept-trans}
use v_note.Store.Sound.{IsSound}
use v_note.Store.Commits.{Committed, persist_batch-commits}
use v_note.Store.Erased.{persist_tombstones-commits}
use v_note.Store.Repapered.{persist_paper-commits}

-- A mutation, at the time that it is made.
pub data Mutation (F : Type 0) : Type 0 where
  commits : ℕ → String → List (Stroke F) → Mutation F
  erases : ℕ → String → List String → Mutation F
  repapers : ℕ → Paper → Mutation F

-- A transaction that fails is rolled back.
abbrev pub or_rolled_back {ℓ} : {F : Type 0} {A : Type ℓ} → Db F → Result (Db F × A) DbError → Db F
or_rolled_back db (ok (db', answer)) = db'
or_rolled_back db (err e) = db

module _ {F : Type 0} (pg : Postgres) (page_id : String) where
  unfoldable pub apply : Mutation F → Db F → Db F
  apply (commits now id strokes) db = or_rolled_back db (persist_batch pg now page_id id strokes db)
  apply (erases now id stroke_ids) db =
      or_rolled_back db (persist_tombstones pg now page_id id stroke_ids db)
  apply (repapers now paper) db = or_rolled_back db (persist_paper pg now page_id paper db)

  unfoldable pub run : List (Mutation F) → Db F → Db F
  run [] db = db
  run (m ∷ ms) db = run ms (apply m db)

  -- The page is there and sound, at a revision from `low` to `high`, and every revision up to `low`
  -- shows the same as before.
  pub record IsSoundBetween (low high : ℕ) (before db : Db F) : Type 0 where
    pub page : PageRow
    pub found : page_row page_id db.pages ≡ some page
    pub sound : IsSound page_id page.ink_revision db
    pub low_le : low ≤ page.ink_revision
    pub le_high : page.ink_revision ≤ high
    pub kept : (revision : ℕ) → revision ≤ low → IsKept page_id revision before db

  committed :
      {created : Bool} (page : PageRow) (before db db' : Db F)
      → Committed page_id page created before db'
      → db ≡ db'
      → IsSoundBetween page.ink_revision (suc page.ink_revision) before db
  committed {created = true} page before db db' c e = record {
    page = c.page';
    found = rw e c.found;
    sound = rw e c.sound;
    low_le = omega (arith, c.revision);
    le_high = omega (arith, c.revision);
    kept = λ revision le. rw e (c.kept revision le);
  }
  committed {created = false} page before db db' c e = record {
    page = c.page';
    found = rw e c.found;
    sound = rw e c.sound;
    low_le = omega (arith, c.revision);
    le_high = omega (arith, c.revision);
    kept = λ revision le. rw e (c.kept revision le);
  }

  pub apply-IsSoundBetween :
      (m : Mutation F) (db : Db F) (page : PageRow)
      → page_row page_id db.pages ≡ some page
      → IsSound page_id page.ink_revision db
      → IsSoundBetween page.ink_revision (suc page.ink_revision) db (apply m db)
  unfolding apply
  apply-IsSoundBetween (commits now id strokes) db page found sound =
      let (r, e, c) = persist_batch-commits pg now page_id id db page found sound strokes in
      committed page db _ r.0 c (ap (or_rolled_back db) e)
  apply-IsSoundBetween (erases now id ids) db page found sound =
      let (r, e, c) = persist_tombstones-commits pg now page_id id db page found sound ids in
      committed page db _ r.0 c (ap (or_rolled_back db) e)
  apply-IsSoundBetween (repapers now paper) db page found sound =
      let (r, e, c, v) = persist_paper-commits pg now page_id paper db page found sound in
      committed page db _ r.0 c (ap (or_rolled_back db) e)

  -- Whatever mutations are made on a sound page, in whatever order, the page stays sound, and its
  -- revision never falls and rises by at most one for each, and what the revisions up to the old one
  -- show stays as it was.
  pub run-IsSoundBetween :
      (ms : List (Mutation F)) (db : Db F) (page : PageRow)
      → page_row page_id db.pages ≡ some page
      → IsSound page_id page.ink_revision db
      → IsSoundBetween page.ink_revision (page.ink_revision + length ms) db (run ms db)
  unfolding run
  run-IsSoundBetween [] db page found sound = record {
    page = page;
    found = found;
    sound = sound;
    low_le = omega arith;
    le_high = omega arith;
    kept = λ revision le. IsKept-refl page_id revision db;
  }
  run-IsSoundBetween (m ∷ ms) db page found sound =
      let next = apply-IsSoundBetween m db page found sound in
      let last = run-IsSoundBetween ms (apply m db) next.page next.found next.sound in
      let ends : (page.ink_revision ≤ last.page.ink_revision)
          × (last.page.ink_revision ≤ page.ink_revision + suc (length ms)) =
        (omega (arith, next.low_le, last.low_le), omega (arith, next.le_high, last.le_high)) in
      record {
        page = last.page;
        found = last.found;
        sound = last.sound;
        low_le = ends.0;
        le_high = ends.1;
        kept = λ revision le.
            IsKept-trans page_id revision db (apply m db) (run ms (apply m db))
              (next.kept revision le) (last.kept revision (omega (arith, next.low_le)));
      }

-- ===== src/Store/Tests.antt =====
-- The theorems on the store at a concrete database.
use v_note.Base.{
  ℕ, ◌≡◌, refl, true, false, str_dec, Result, err, contains, [], ◌∷◌, none, some, ok, arith, inr,
  is_empty, same, if◌then◌else◌,
}
use v_note.Protocol.Paper.{ruled_narrow, wire_value}
use v_note.Store.Tables.{Db, page_row}
use v_note.Store.Batches.{
  PersistedBatch, persist_batch, stroke_ids_of, visible_among, insert_visible_batch,
}
use v_note.Store.Erasures.{
  PersistedTombstones, persist_tombstones, fresh_ids, insert_tombstones, find_erasure,
}
use v_note.Store.PaperChange.{PersistedPaper, persist_paper, has_visible_ink}
use v_note.Store.Sound.{IsSound}
use v_note.Store.Commits.{Committed, persist_batch-commits}
use v_note.Store.Erased.{persist_tombstones-commits}
use v_note.Store.Repapered.{persist_paper-commits}
use v_note.Store.Runs.{IsSoundBetween, run, run-IsSoundBetween, commits, erases, repapers, apply}
use v_note.Store.DeleteWins.{persist_batch-erased}
use v_note.Store.Retries.{persist_batch-retry, persist_tombstones-retry}
use v_note.Samples.{db, page, pg, stroke}

pub db-IsSound : IsSound "page_1" 1 db
unfolding str_dec
db-IsSound = record {
  batch_revisions = (omega arith, tt);
  serials = (tt, tt);
  tombstone_revisions = tt;
  thumbnail_revisions = (omega arith, tt);
  head_thumbnail = inr refl;
}

pub db-page : page_row "page_1" db.pages ≡ some page
unfolding str_dec
db-page = refl

persist_batch-commits_example :
    (r : Db ℕ × PersistedBatch ℕ) × (persist_batch pg 3 "page_1" "batch_2"
        (stroke "stroke_b" ∷ [])
        db
      ≡ ok r)
    × Committed "page_1" page r.1.thumbnail_job_created db r.0
persist_batch-commits_example =
    persist_batch-commits pg 3 "page_1" "batch_2" db page db-page db-IsSound
      (stroke "stroke_b" ∷ [])

persist_tombstones-commits_example :
    (r : Db ℕ × PersistedTombstones) × (persist_tombstones pg 3 "page_1" "erase_1"
        ("stroke_a" ∷ [])
        db
      ≡ ok r)
    × Committed "page_1" page r.1.thumbnail_job_created db r.0
persist_tombstones-commits_example =
    persist_tombstones-commits pg 3 "page_1" "erase_1" db page db-page db-IsSound ("stroke_a" ∷ [])

persist_paper-commits_example :
    (r : Db ℕ × PersistedPaper) × (persist_paper pg 3 "page_1" ruled_narrow db ≡ ok r)
    × Committed "page_1" page r.1.thumbnail_job_created db r.0
    × (r.1.thumbnail_job_created ≡ (
        if same page.paper (wire_value ruled_narrow) then false else has_visible_ink "page_1" 1 db))
persist_paper-commits_example =
    persist_paper-commits pg 3 "page_1" ruled_narrow db page db-page db-IsSound

run-IsSoundBetween_example : IsSoundBetween pg "page_1" 1 4 db (
    run pg "page_1"
      (commits 3 "batch_2" (stroke "stroke_b" ∷ [])
        ∷ erases 4 "erase_1" ("stroke_a" ∷ [])
        ∷ repapers 5 ruled_narrow
        ∷ [])
      db)
run-IsSoundBetween_example =
    run-IsSoundBetween pg "page_1"
      (commits 3 "batch_2" (stroke "stroke_b" ∷ [])
        ∷ erases 4 "erase_1" ("stroke_a" ∷ [])
        ∷ repapers 5 ruled_narrow
        ∷ [])
      db page db-page db-IsSound

abbrev pub value_or : {A E : Type 0} → Result A E → A → A
value_or (ok a) default = a
value_or (err e) default = default

abbrev nothing_persisted : Db ℕ × PersistedBatch ℕ
nothing_persisted = (
  db,
  record {
    seq = 0;
    revision = 0;
    owner_id = "";
    visible_strokes = [];
    thumbnail_job_created = false;
    updated_at = none;
  },
)

abbrev nothing_erased : Db ℕ × PersistedTombstones
nothing_erased = (
  db,
  record {
    revision = 0;
    owner_id = "";
    stroke_ids = [];
    thumbnail_job_created = false;
    updated_at = none;
  },
)

-- A second batch, of two strokes.
abbrev pub committed : Db ℕ × PersistedBatch ℕ
committed =
    value_or (persist_batch pg 3 "page_1" "batch_2" (stroke "stroke_b" ∷ stroke "stroke_c" ∷ []) db)
      nothing_persisted

pub committed-ok :
    persist_batch pg 3 "page_1" "batch_2" (stroke "stroke_b" ∷ stroke "stroke_c" ∷ []) db
    ≡ ok committed
unfolding persist_batch insert_visible_batch str_dec
committed-ok = refl

committed-shown : is_empty committed.1.visible_strokes ≡ false
unfolding persist_batch insert_visible_batch str_dec
committed-shown = refl

-- One of the two is erased.
abbrev pub erased : Db ℕ × PersistedTombstones
erased = value_or (persist_tombstones pg 4 "page_1" "erase_1" ("stroke_c" ∷ []) db) nothing_erased

pub erased-ok : persist_tombstones pg 4 "page_1" "erase_1" ("stroke_c" ∷ []) db ≡ ok erased
unfolding persist_tombstones fresh_ids insert_tombstones str_dec
erased-ok = refl

-- And sent again in a later batch.
abbrev sent_again : Db ℕ × PersistedBatch ℕ
sent_again =
    value_or
      (persist_batch pg 6 "page_1" "batch_3" (stroke "stroke_c" ∷ stroke "stroke_d" ∷ [])
        (run pg "page_1" (repapers 5 ruled_narrow ∷ []) erased.0))
      nothing_persisted

sent_again-ok :
    persist_batch pg 6 "page_1" "batch_3"
      (stroke "stroke_c" ∷ stroke "stroke_d" ∷ [])
      (run pg "page_1" (repapers 5 ruled_narrow ∷ []) erased.0)
    ≡ ok sent_again
unfolding persist_batch insert_visible_batch persist_tombstones fresh_ids insert_tombstones run
    apply persist_paper str_dec wire_value has_visible_ink
sent_again-ok = refl

erasure-is-new : find_erasure "page_1" "erase_1" db.tombstone_batches ≡ none
erasure-is-new = refl

erasure-names : contains ("stroke_c" ∷ []) "stroke_c" ≡ true
unfolding str_dec
erasure-names = refl

persist_batch-erased_example :
    contains (stroke_ids_of sent_again.1.visible_strokes) "stroke_c" ≡ false
persist_batch-erased_example =
    persist_batch-erased pg "page_1" 4 6 "erase_1" "batch_3" ("stroke_c" ∷ [])
      (stroke "stroke_c" ∷ stroke "stroke_d" ∷ []) (repapers 5 ruled_narrow ∷ []) db erased.0
      sent_again.0 erased.1 sent_again.1 "stroke_c" erasure-is-new erased-ok erasure-names
      sent_again-ok

persist_batch-retry_example :
    persist_batch pg 9 "page_1" "batch_2" (stroke "stroke_b" ∷ []) committed.0
    ≡ ok (
      committed.0,
      record {
        seq = committed.1.seq;
        revision = committed.1.revision;
        owner_id = committed.1.owner_id;
        visible_strokes =
            visible_among "page_1" committed.0.stroke_tombstones (stroke "stroke_b" ∷ []);
        thumbnail_job_created = false;
        updated_at = none;
      },
    )
persist_batch-retry_example =
    persist_batch-retry pg "page_1" 3 9 "batch_2" (stroke "stroke_b" ∷ stroke "stroke_c" ∷ [])
      (stroke "stroke_b" ∷ []) db committed.0 committed.1 committed-ok committed-shown

persist_tombstones-retry_example :
    persist_tombstones pg 9 "page_1" "erase_1" ("stroke_d" ∷ []) erased.0
    ≡ ok (
      erased.0,
      record {
        revision = erased.1.revision;
        owner_id = erased.1.owner_id;
        stroke_ids = erased.1.stroke_ids;
        thumbnail_job_created = false;
        updated_at = none;
      },
    )
persist_tombstones-retry_example =
    persist_tombstones-retry pg "page_1" 4 9 "erase_1" ("stroke_c" ∷ []) ("stroke_d" ∷ []) db
      erased.0 erased.1 erased-ok

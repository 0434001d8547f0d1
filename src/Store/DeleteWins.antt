-- ===== src/Store/DeleteWins.antt =====
-- Delete wins in crates/server/src/realtime/store.rs: a stroke that was erased once is in no batch
-- that is accepted later.
use v_note.Base.{
  ℕ, ◌+◌, ◌≡◌, refl, Bool, true, false, String, List, [], ◌∷◌, ◌++◌, map, none, ok, err, Result,
  inl, inr, ◌≢◌, ◌⊎◌, arith, contains, any-append, not, ◌&&◌, same, ◌∙◌, ap, is_empty,
  if◌then◌else◌, Bool-cases, Option-cases, retain, str_dec,
}
use v_note.Protocol.Ink.{Stroke}
use v_note.Store.Tables.{Db, DbError, StrokeTombstoneRow, Postgres, page_row}
use v_note.Store.Batches.{
  persist_batch, PersistedBatch, visible_among, stroke_ids_of, insert_visible_batch,
}
use v_note.Store.Writes.{tombstoned_among}
use v_note.Store.Erasures.{
  persist_tombstones, PersistedTombstones, is_tombstoned, fresh_ids, find_erasure,
}
use v_note.Store.PaperChange.{persist_paper}
use v_note.Store.Runs.{Mutation, commits, erases, repapers, apply, run}
use v_note.Store.FreshIds.{
  insert_tombstones-fresh_ids, contains-fresh_ids, tombstone_row, contains-tombstoned_among,
}

is_tombstoned-rows :
    (page_id : String) (revision : ℕ) (a : String) (ids : List String)
    → is_tombstoned page_id a (map (tombstone_row page_id revision) ids) ≡ contains ids a
is_tombstoned-rows page_id revision a [] = refl
is_tombstoned-rows page_id revision a (id ∷ ids) =
    ground (arith, is_tombstoned-rows page_id revision a ids)

module _ {F : Type 0} where
  contains-retain_listed :
      (listed : List String) (a : String) (strokes : List (Stroke F))
      → contains listed a ≡ true
      → contains (stroke_ids_of (retain (λ s. not (contains listed s.id)) strokes)) a ≡ false
  contains-retain_listed listed a [] h = refl
  contains-retain_listed listed a (s ∷ strokes) h = elim (str_dec s.id a) [
    | yes e ↦ ground (arith, contains-retain_listed listed a strokes h)
    | no ne ↦ ground (arith, contains-retain_listed listed a strokes h)
  ]

  contains-retain_ids :
      (p : Stroke F → Bool) (a : String) (strokes : List (Stroke F))
      → contains (stroke_ids_of strokes) a ≡ false
      → contains (stroke_ids_of (retain p strokes)) a ≡ false
  contains-retain_ids p a [] h = refl
  contains-retain_ids p a (s ∷ strokes) h = ground (arith, contains-retain_ids p a strokes)

  visible_among-erased :
      (page_id : String) (rows : List StrokeTombstoneRow) (strokes : List (Stroke F)) (a : String)
      → is_tombstoned page_id a rows ≡ true
      → contains (stroke_ids_of (visible_among page_id rows strokes)) a ≡ false
  visible_among-erased page_id rows strokes a h =
      let listed = tombstoned_among page_id (stroke_ids_of strokes) rows in
      let e = contains-tombstoned_among page_id (stroke_ids_of strokes) rows a in
      elim (Bool-cases (contains (stroke_ids_of strokes) a)) [
        | inl among ↦ contains-retain_listed listed a strokes (ground (arith, e))
        | inr absent ↦ contains-retain_ids (λ s. not (contains listed s.id)) a strokes absent
      ]

module _ {F : Type 0} (pg : Postgres) (page_id : String) where
  tombstones-persist_batch :
      (now : ℕ) (id : String) (strokes : List (Stroke F)) (db db' : Db F)
      (answer : PersistedBatch F)
      → persist_batch pg now page_id id strokes db ≡ ok (db', answer)
      → (db'.stroke_tombstones ≡ db.stroke_tombstones)
        × (answer.visible_strokes ≡ visible_among page_id db.stroke_tombstones strokes)
  unfolding persist_batch insert_visible_batch
  tombstones-persist_batch now id strokes db db' answer h = (ground arith, ground arith)

  -- The tombstones that `persist_tombstones` leaves.
  tombstones-persist_tombstones :
      (now : ℕ) (id : String) (requested : List String) (db : Db F) (db' : Db F)
      (answer : PersistedTombstones)
      → persist_tombstones pg now page_id id requested db ≡ ok (db', answer)
      → ((find_erasure page_id id db.tombstone_batches ≢ none)
          × (db'.stroke_tombstones ≡ db.stroke_tombstones))
        ⊎ ((revision : ℕ) × (db'.stroke_tombstones
              ≡ db.stroke_tombstones
                ++ map
                    (tombstone_row page_id revision)
                    (fresh_ids page_id requested db.stroke_tombstones)))
  unfolding persist_tombstones
  tombstones-persist_tombstones now id requested db db' answer h =
      elim (Option-cases (page_row page_id db.pages)) [
        | inl e ↦ absurd (ground arith)
        | inr (page, e) ↦ elim (Option-cases (find_erasure page_id id db.tombstone_batches)) [
          | inr (row, f) ↦ inl (ground arith, ground arith)
          | inl f ↦
              let ids = fresh_ids page_id requested db.stroke_tombstones in
              let revision = if is_empty ids then page.ink_revision else page.ink_revision + 1 in
              inr (
                revision,
                ground (
                  arith,
                  insert_tombstones-fresh_ids page_id revision requested db.stroke_tombstones,
                ),
              )
        ]
      ]

  is_tombstoned-persist_tombstones :
      (now : ℕ) (id : String) (requested : List String) (db : Db F) (db' : Db F)
      (answer : PersistedTombstones)
      → persist_tombstones pg now page_id id requested db ≡ ok (db', answer)
      → (a : String)
      → ((is_tombstoned page_id a db.stroke_tombstones ≡ true)
          → is_tombstoned page_id a db'.stroke_tombstones ≡ true)
        × ((find_erasure page_id id db.tombstone_batches ≡ none)
            → (contains requested a ≡ true)
            → is_tombstoned page_id a db'.stroke_tombstones ≡ true)
  is_tombstoned-persist_tombstones now id requested db db' answer h a =
      elim (tombstones-persist_tombstones now id requested db db' answer h) [
        | inl (seen, e) ↦ (λ t. rw (e) t, λ new. absurd (seen new))
        | inr (revision, e) ↦
            let ids = fresh_ids page_id requested db.stroke_tombstones in
            let rows = is_tombstoned-rows page_id revision a ids in
            let fresh = contains-fresh_ids page_id requested db.stroke_tombstones a in
            let split =
              any-append (λ r. same r.page_id page_id && same r.stroke_id a) db.stroke_tombstones
                (map (tombstone_row page_id revision) ids) in
            (λ t. rw e (split ∙ ground arith), λ new r. rw e (split ∙ ground (arith, rows, fresh)))
      ]

  is_tombstoned-apply :
      (m : Mutation F) (db : Db F) (a : String)
      → is_tombstoned page_id a db.stroke_tombstones ≡ true
      → is_tombstoned page_id a (apply pg page_id m db).stroke_tombstones ≡ true
  unfolding apply persist_paper
  is_tombstoned-apply (commits now id strokes) db a h =
      by_result (persist_batch pg now page_id id strokes db) refl
    where
      by_result :
          (r : Result (Db F × PersistedBatch F) DbError)
          → persist_batch pg now page_id id strokes db ≡ r
          → is_tombstoned page_id a (apply pg page_id (commits now id strokes) db).stroke_tombstones
            ≡ true
      by_result (err e) q = rw q h
      by_result (ok (db', answer)) q =
          rw (q, (tombstones-persist_batch now id strokes db db' answer q).0) h
  is_tombstoned-apply (erases now id ids) db a h =
      by_result (persist_tombstones pg now page_id id ids db) refl
    where
      by_result :
          (r : Result (Db F × PersistedTombstones) DbError)
          → persist_tombstones pg now page_id id ids db ≡ r
          → is_tombstoned page_id a (apply pg page_id (erases now id ids) db).stroke_tombstones
            ≡ true
      by_result (err e) q = rw q h
      by_result (ok (db', answer)) q =
          rw q ((is_tombstoned-persist_tombstones now id ids db db' answer q a).0 h)
  is_tombstoned-apply (repapers now paper) db a h = ground arith

  is_tombstoned-run :
      (ms : List (Mutation F)) (db : Db F) (a : String)
      → is_tombstoned page_id a db.stroke_tombstones ≡ true
      → is_tombstoned page_id a (run pg page_id ms db).stroke_tombstones ≡ true
  unfolding run
  is_tombstoned-run [] db a h = h
  is_tombstoned-run (m ∷ ms) db a h =
      is_tombstoned-run ms (apply pg page_id m db) a (is_tombstoned-apply m db a h)

  -- Delete wins: once an erasure with a mutation id that is new to the page names a stroke, then
  -- after whatever mutations of the page, an accepted batch that holds the stroke does not show it.
  pub persist_batch-erased :
      (now later : ℕ) (id batch_id : String) (requested : List String) (strokes : List (Stroke F))
      (ms : List (Mutation F)) (db erased committed : Db F) (answer : PersistedTombstones)
      (persisted : PersistedBatch F) (a : String)
      → find_erasure page_id id db.tombstone_batches ≡ none
      → persist_tombstones pg now page_id id requested db ≡ ok (erased, answer)
      → contains requested a ≡ true
      → persist_batch pg later page_id batch_id strokes (run pg page_id ms erased)
        ≡ ok (committed, persisted)
      → contains (stroke_ids_of persisted.visible_strokes) a ≡ false
  persist_batch-erased now later id batch_id requested strokes ms db erased committed answer
        persisted a new erases' asked commits' =
      let gone =
        (is_tombstoned-persist_tombstones now id requested db erased answer erases' a).1 new
          asked in
      let still = is_tombstoned-run ms erased a gone in
      let shown =
        (tombstones-persist_batch later batch_id strokes (run pg page_id ms erased) committed
          persisted commits').1 in
      ap (λ visible. contains (stroke_ids_of visible) a) shown
      ∙ visible_among-erased page_id _ strokes a still

-- ===== src/Store/Replay.antt =====
-- `load_page_replay` of crates/server/src/realtime/store.rs.
use v_note.Base.{
  ℕ, Bool, true, false, ◌&&◌, String, same, List, map, retain, leb, ltb, if◌then◌else◌,
}
use v_note.Base.Sort.{sort}
use v_note.Protocol.Messages.{StrokeBatch, TombstoneBatch}
use v_note.Store.Tables.{Db, StrokeBatchRow, TombstoneBatchRow, Postgres, erasures_of, after_seq}

abbrev pub erasure_le : Postgres → TombstoneBatchRow → TombstoneBatchRow → Bool
erasure_le pg a b =
    if ltb a.revision b.revision
    then true
    else if ltb b.revision a.revision
    then false
    else pg.text_le a.client_mutation_id b.client_mutation_id

abbrev pub to_tombstone_batch : TombstoneBatchRow → TombstoneBatch
to_tombstone_batch row = record {
  revision = row.revision;
  client_mutation_id = row.client_mutation_id;
  stroke_ids = row.stroke_ids;
}

module _ {F : Type 0} where
  abbrev pub seq_le : StrokeBatchRow F → StrokeBatchRow F → Bool
  seq_le a b = leb a.seq b.seq

  abbrev pub to_stroke_batch : StrokeBatchRow F → StrokeBatch F
  to_stroke_batch row = record {
    seq = row.seq;
    client_batch_id = row.client_batch_id;
    strokes = row.strokes;
  }

  unfoldable pub load_batches_after : String → ℕ → Db F → List (StrokeBatch F)
  load_batches_after page_id from_seq db = map to_stroke_batch (
      sort seq_le
        (retain (λ r. same r.page_id page_id && after_seq from_seq r.seq) db.stroke_batches))

  unfoldable pub load_page_replay :
      Postgres → String → ℕ → Db F → List (StrokeBatch F) × List TombstoneBatch
  unfolding load_batches_after
  load_page_replay pg page_id from_seq db = (
    load_batches_after page_id from_seq db,
    map to_tombstone_batch (sort (erasure_le pg) (erasures_of page_id db.tombstone_batches)),
  )

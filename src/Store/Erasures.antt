-- ===== src/Store/Erasures.antt =====
-- `persist_tombstones` of crates/server/src/realtime/store.rs.
use v_note.Base.{
  ℕ, ◌+◌, Bool, false, not, ◌&&◌, String, same, contains, List, [], ◌∷◌, ◌++◌, Option, none, some,
  Result, ok, err, retain, find, any, is_empty, if◌then◌else◌,
}
use v_note.Base.Sort.{sort}
use v_note.Base.TextOrder.{str_le}
use v_note.Store.Tables.{
  Db, DbError, StrokeTombstoneRow, TombstoneBatchRow, Postgres, page_row, row_not_found,
  unique_violation,
}
use v_note.Store.Writes.{update_page, insert_thumbnail_job, tombstoned_among}

pub record PersistedTombstones : Type 0 where
  pub revision : ℕ
  pub owner_id : String
  pub stroke_ids : List String
  pub thumbnail_job_created : Bool
  pub updated_at : Option String

-- `Vec::dedup` drops an entry that equals the one kept before it.
abbrev pub dedup_after : String → List String → List String
dedup_after x [] = []
dedup_after x (y ∷ ys) = let rest = dedup_after y ys in if same y x then rest else y ∷ rest

abbrev pub dedup : List String → List String
dedup [] = []
dedup (x ∷ xs) = x ∷ dedup_after x xs

abbrev pub find_erasure : String → String → List TombstoneBatchRow → Option TombstoneBatchRow
find_erasure page_id client_mutation_id =
    find (λ r. same r.page_id page_id && same r.client_mutation_id client_mutation_id)

abbrev pub is_tombstoned : String → String → List StrokeTombstoneRow → Bool
is_tombstoned page_id stroke_id = any (λ r. same r.page_id page_id && same r.stroke_id stroke_id)

-- One insert for each id; the primary key is the page and the stroke.
unfoldable pub insert_tombstones :
    String → ℕ → List String → List StrokeTombstoneRow → Result (List StrokeTombstoneRow) DbError
insert_tombstones page_id revision [] rows = ok rows
insert_tombstones page_id revision (id ∷ ids) rows =
    let rest =
      insert_tombstones page_id revision ids
        (rows ++ record { page_id = page_id; stroke_id = id; deleted_revision = revision } ∷ []) in
    if is_tombstoned page_id id rows then err unique_violation else rest

-- The ids that a request erases: sorted, each once, less those erased before.
unfoldable pub fresh_ids : String → List String → List StrokeTombstoneRow → List String
fresh_ids page_id requested_ids rows =
    let ids = dedup (sort str_le requested_ids) in
    let existing = tombstoned_among page_id ids rows in
    retain (λ id. not (contains existing id)) ids

module _ {F : Type 0} where
  abbrev with_tombstones :
      Postgres
      → ℕ
      → String
      → String
      → List String
      → ℕ
      → String
      → String
      → Db F
      → Result (List StrokeTombstoneRow) DbError
      → Result (Db F × PersistedTombstones) DbError
  with_tombstones pg now page_id client_mutation_id ids revision owner_id paper db (err e) = err e
  with_tombstones pg now page_id client_mutation_id ids revision owner_id paper db (ok rows) =
      let erased = record db {
        stroke_tombstones = rows;
        tombstone_batches =
            db.tombstone_batches
            ++ record {
              page_id = page_id;
              client_mutation_id = client_mutation_id;
              revision = revision;
              stroke_ids = ids;
            }
              ∷ [];
      } in
      let (thumbnails, created) =
        insert_thumbnail_job now page_id revision paper db.page_thumbnails in
      if is_empty ids
      then ok (
        erased,
        record {
          revision = revision;
          owner_id = owner_id;
          stroke_ids = ids;
          thumbnail_job_created = false;
          updated_at = none;
        },
      )
      else ok (
        record erased {
          pages =
              update_page page_id
                (λ p. record p { updated_at = now; ink_revision = p.ink_revision + 1 }) db.pages;
          page_thumbnails = thumbnails;
        },
        record {
          revision = revision;
          owner_id = owner_id;
          stroke_ids = ids;
          thumbnail_job_created = created;
          updated_at = some (pg.to_rfc3339 now);
        },
      )

  -- The primary key of `tombstone_batches` is what the first query looks up, so that its insert
  -- cannot fail.
  unfoldable pub persist_tombstones :
      Postgres
      → ℕ
      → String
      → String
      → List String
      → Db F
      → Result (Db F × PersistedTombstones) DbError
  unfolding insert_tombstones fresh_ids
  persist_tombstones pg now page_id client_mutation_id requested_ids db =
      elim (page_row page_id db.pages) [
        | none ↦ err row_not_found
        | some page ↦ elim (find_erasure page_id client_mutation_id db.tombstone_batches) [
          | some row ↦ ok (
            db,
            record {
              revision = row.revision;
              owner_id = page.owner_id;
              stroke_ids = row.stroke_ids;
              thumbnail_job_created = false;
              updated_at = none;
            },
          )
          | none ↦
              let ids = fresh_ids page_id requested_ids db.stroke_tombstones in
              let revision = if is_empty ids then page.ink_revision else page.ink_revision + 1 in
              with_tombstones pg now page_id client_mutation_id ids revision page.owner_id
                page.paper db (insert_tombstones page_id revision ids db.stroke_tombstones)
        ]
      ]

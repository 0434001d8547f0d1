-- ===== src/Store/Tables.antt =====
-- The tables of crates/server/migrations that the page channel reads and writes, and the read-only
-- queries of crates/server/src/realtime/store.rs. A serial, a revision and a time are unbounded
-- numbers where the columns are BIGINT: none can pass 2^63 before that many commits.
use v_note.Base.{
  ℕ, ◌^◌, Bool, true, ◌&&◌, String, same, List, [], ◌∷◌, map, Option, none, some, Result, ok, err,
  retain, find, max, if◌then◌else◌, ltb,
}
use v_note.Protocol.Ink.{Stroke}
use v_note.Protocol.Paper.{Paper, from_wire, paper_or_default}

pub record PageRow : Type 0 where
  pub id : String
  pub owner_id : String
  pub title : String
  pub created_at : ℕ
  pub updated_at : ℕ
  pub ink_revision : ℕ
  pub paper : String

pub record StrokeBatchRow (F : Type 0) : Type 0 where
  pub page_id : String
  pub seq : ℕ
  pub revision : ℕ
  pub client_batch_id : String
  pub strokes : List (Stroke F)

pub record StrokeTombstoneRow : Type 0 where
  pub page_id : String
  pub stroke_id : String
  pub deleted_revision : ℕ

pub record TombstoneBatchRow : Type 0 where
  pub page_id : String
  pub client_mutation_id : String
  pub revision : ℕ
  pub stroke_ids : List String

pub data ThumbnailStatus : Type 0 where
  generating failed : ThumbnailStatus
  -- with the PNG's bytes, as the table's CHECK demands
  available : List ℕ → ThumbnailStatus

pub record ThumbnailRow : Type 0 where
  pub page_id : String
  pub source_seq : ℕ
  pub status : ThumbnailStatus
  pub created_at : ℕ
  pub paper : String

pub record Db (F : Type 0) : Type 0 where
  pub pages : List PageRow
  pub stroke_batches : List (StrokeBatchRow F)
  pub stroke_tombstones : List StrokeTombstoneRow
  pub tombstone_batches : List TombstoneBatchRow
  pub page_thumbnails : List ThumbnailRow

pub data DbError : Type 0 where
  row_not_found unique_violation : DbError

-- What the database brings along: the text collation of `ORDER BY`, and how a time is printed.
pub record Postgres : Type 0 where
  pub text_le : String → String → Bool
  pub to_rfc3339 : ℕ → String

abbrev pub page_row : String → List PageRow → Option PageRow
page_row page_id = find (λ p. same p.id page_id)

module _ {F : Type 0} where
  abbrev pub batches_of : String → List (StrokeBatchRow F) → List (StrokeBatchRow F)
  batches_of page_id = retain (λ r. same r.page_id page_id)

  -- `COALESCE(MAX(seq), 0)`.
  abbrev pub head_seq : List (StrokeBatchRow F) → ℕ
  head_seq [] = 0
  head_seq (r ∷ rs) = max r.seq (head_seq rs)

abbrev pub tombstones_of : String → List StrokeTombstoneRow → List StrokeTombstoneRow
tombstones_of page_id = retain (λ r. same r.page_id page_id)

abbrev pub stroke_id_of : StrokeTombstoneRow → String
stroke_id_of r = r.stroke_id

-- Every stroke id that is tombstoned on the page.
abbrev pub tombstoned_on : String → List StrokeTombstoneRow → List String
tombstoned_on page_id rows = map stroke_id_of (tombstones_of page_id rows)

abbrev pub erasures_of : String → List TombstoneBatchRow → List TombstoneBatchRow
erasures_of page_id = retain (λ r. same r.page_id page_id)

module _ {F : Type 0} where
  unfoldable pub page_belongs_to_owner : String → String → Db F → Bool
  page_belongs_to_owner page_id owner_id db =
      elim (find (λ p. same p.id page_id && same p.owner_id owner_id) db.pages) [
        | none ↦ Bool.false
        | some _ ↦ true
      ]

  unfoldable pub current_paper : String → Db F → Result Paper DbError
  current_paper page_id db = elim (page_row page_id db.pages) [
    | none ↦ err row_not_found
    | some page ↦ ok (paper_or_default (from_wire page.paper))
  ]

  unfoldable pub max_seq : String → Db F → ℕ
  max_seq page_id db = head_seq (batches_of page_id db.stroke_batches)

-- `from_seq as i64` is negative from 2^63 on, and every serial is above a negative number.
abbrev pub after_seq : ℕ → ℕ → Bool
after_seq from_seq seq = if ltb from_seq (2 ^ 63) then ltb from_seq seq else true

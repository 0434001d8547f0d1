-- ===== src/Store/PaperChange.antt =====
-- `persist_paper` of crates/server/src/realtime/store.rs.
use v_note.Base.{
  ℕ, ◌+◌, Bool, true, false, not, ◌&&◌, String, same, List, Option, none, some, Result, ok, err,
  any, if◌then◌else◌, leb,
}
use v_note.Protocol.Paper.{Paper, wire_value}
use v_note.Store.Tables.{Db, DbError, StrokeTombstoneRow, Postgres, page_row, row_not_found}
use v_note.Store.Writes.{update_page, insert_thumbnail_job}

pub record PersistedPaper : Type 0 where
  pub changed : Bool
  pub revision : ℕ
  pub owner_id : String
  pub thumbnail_job_created : Bool
  pub updated_at : Option String

abbrev pub erased_by : String → ℕ → String → List StrokeTombstoneRow → Bool
erased_by page_id revision stroke_id =
    any (λ t.
      same t.page_id page_id && (same t.stroke_id stroke_id && leb t.deleted_revision revision))

module _ {F : Type 0} where
  -- The `SELECT EXISTS` over the strokes of the page's batches.
  unfoldable pub has_visible_ink : String → ℕ → Db F → Bool
  has_visible_ink page_id revision db =
      any
        (λ b.
          same b.page_id page_id
          && (leb b.revision revision
              && any (λ s. not (erased_by page_id revision s.id db.stroke_tombstones)) b.strokes))
        db.stroke_batches

  unfoldable pub persist_paper :
      Postgres → ℕ → String → Paper → Db F → Result (Db F × PersistedPaper) DbError
  persist_paper pg now page_id paper db = elim (page_row page_id db.pages) [
    | none ↦ err row_not_found
    | some page ↦
        let visible = has_visible_ink page_id page.ink_revision db in
        let revision = if visible then page.ink_revision + 1 else page.ink_revision in
        let (thumbnails, created) =
          insert_thumbnail_job now page_id revision (wire_value paper) db.page_thumbnails in
        if same page.paper (wire_value paper)
        then ok (
          db,
          record {
            changed = false;
            revision = page.ink_revision;
            owner_id = page.owner_id;
            thumbnail_job_created = false;
            updated_at = none;
          },
        )
        else ok (
          record db {
            pages =
                update_page page_id
                  (λ p. record p {
                    paper = wire_value paper;
                    updated_at = now;
                    ink_revision = revision;
                  })
                  db.pages;
            page_thumbnails = if visible then thumbnails else db.page_thumbnails;
          },
          record {
            changed = true;
            revision = revision;
            owner_id = page.owner_id;
            thumbnail_job_created = if visible then created else false;
            updated_at = some (pg.to_rfc3339 now);
          },
        )
  ]

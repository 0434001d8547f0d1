-- ===== src/Store/Writes.antt =====
-- The statements that more than one transaction of crates/server/src/realtime/store.rs makes.
use v_note.Base.{
  ℕ, Bool, true, false, ◌&&◌, String, same, contains, List, [], ◌∷◌, ◌++◌, map, retain, any,
  if◌then◌else◌, ◌==◌,
}
use v_note.Store.Tables.{PageRow, StrokeTombstoneRow, ThumbnailRow, stroke_id_of, generating}

-- `UPDATE pages SET … WHERE id = $1`.
abbrev pub update_page : String → (PageRow → PageRow) → List PageRow → List PageRow
update_page page_id change [] = []
update_page page_id change (p ∷ ps) =
    (if same p.id page_id then change p else p) ∷ update_page page_id change ps

abbrev pub has_thumbnail : String → ℕ → List ThumbnailRow → Bool
has_thumbnail page_id source_seq = any (λ t. same t.page_id page_id && (t.source_seq == source_seq))

-- `INSERT INTO page_thumbnails … ON CONFLICT (page_id, source_seq) DO NOTHING`, and whether a row
-- was written.
abbrev pub insert_thumbnail_job :
    ℕ → String → ℕ → String → List ThumbnailRow → List ThumbnailRow × Bool
insert_thumbnail_job now page_id source_seq paper rows =
    if has_thumbnail page_id source_seq rows then (rows, false) else (
      rows
          ++ record {
            page_id = page_id;
            source_seq = source_seq;
            status = generating;
            created_at = now;
            paper = paper;
          }
            ∷ [],
      true,
    )

-- `WHERE page_id = $1 AND stroke_id = ANY($2)`.
abbrev pub tombstoned_among : String → List String → List StrokeTombstoneRow → List String
tombstoned_among page_id ids rows =
    map stroke_id_of (retain (λ r. same r.page_id page_id && contains ids r.stroke_id) rows)

-- ===== src/Library.antt =====
-- frontend/src/library.rs: the page list of the SPA, and the reducer that applies library events to
-- it. Closing the viewer of a deleted page is left out; a title and a time to show are too.
pub mod Ordered
pub mod Unique
mod Tests
use v_note.Base.{
  ℕ, Bool, true, false, not, String, same, List, [], ◌∷◌, ◌++◌, Option, none, some, retain, find,
  leb, if◌then◌else◌,
}
use v_note.Base.Sort.{sort}
use v_note.Base.TextOrder.{str_le}
use v_note.Protocol.Messages.{
  PageSummary, ThumbnailMetadata, LibraryEvent, empty, generating, available, failed, page_created,
  page_deleted, page_thumbnail_updated, page_updated,
}

unfoldable pub thumbnail_seq : ThumbnailMetadata → ℕ
thumbnail_seq empty = 0
thumbnail_seq (generating source_seq) = source_seq
thumbnail_seq (available source_seq url) = source_seq
thumbnail_seq (failed source_seq) = source_seq

-- `right.updated_at.cmp(&left.updated_at)` is not greater.
abbrev pub recent_first : PageSummary → PageSummary → Bool
recent_first left right = str_le right.updated_at left.updated_at

unfoldable pub sort_pages_recent_first : List PageSummary → List PageSummary
sort_pages_recent_first = sort recent_first

-- The first page of the id, changed.
abbrev change_page : String → (PageSummary → PageSummary) → List PageSummary → List PageSummary
change_page page_id change [] = []
change_page page_id change (page ∷ pages) =
    let rest = change_page page_id change pages in
    if same page.id page_id then change page ∷ pages else page ∷ rest

abbrev with_thumbnail : ThumbnailMetadata → PageSummary → PageSummary
with_thumbnail thumbnail page =
    if leb (thumbnail_seq page.thumbnail) (thumbnail_seq thumbnail)
    then record page { thumbnail = thumbnail }
    else page

unfoldable pub apply_library_event_to_pages : LibraryEvent → List PageSummary → List PageSummary
unfolding sort_pages_recent_first thumbnail_seq
apply_library_event_to_pages (page_created page) items =
    sort_pages_recent_first (retain (λ existing. not (same existing.id page.id)) items ++ page ∷ [])
apply_library_event_to_pages (page_deleted page_id) items =
    retain (λ page. not (same page.id page_id)) items
apply_library_event_to_pages (page_thumbnail_updated page_id thumbnail) items =
    change_page page_id (with_thumbnail thumbnail) items
apply_library_event_to_pages (page_updated page_id updated_at) items =
    elim (find (λ page. same page.id page_id) items) [
      | none ↦ items
      | some page ↦
          if str_le updated_at page.updated_at
          then items
          else sort_pages_recent_first
              (change_page page_id (λ p. record p { updated_at = updated_at }) items)
    ]

unfoldable pub apply_library_events : List LibraryEvent → List PageSummary → List PageSummary
apply_library_events [] items = items
apply_library_events (event ∷ events) items =
    apply_library_events events (apply_library_event_to_pages event items)

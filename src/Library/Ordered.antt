-- ===== src/Library/Ordered.antt =====
-- The page list stays in recent-first order and holds no page twice.
use v_note.Base.{
  ◌≡◌, Bool, true, not, String, same, List, [], ◌∷◌, ◌++◌, arith, retain, find, All, All-map,
  All-retain, Bool-cases, inl, inr, Option-cases,
}
use v_note.Base.Sort.{IsSorted, sort-IsSorted}
use v_note.Base.TextOrder.{str_le, str_le-total, str_le_trans}
use v_note.Protocol.Messages.{
  PageSummary, ThumbnailMetadata, LibraryEvent, page_created, page_deleted, page_thumbnail_updated,
  page_updated,
}
use v_note.Library.{
  recent_first, sort_pages_recent_first, apply_library_event_to_pages, apply_library_events,
  change_page, with_thumbnail,
}

abbrev pub IsRecentFirst : List PageSummary → Type 0
IsRecentFirst = IsSorted recent_first

sort_pages_recent_first-IsRecentFirst :
    (items : List PageSummary) → IsRecentFirst (sort_pages_recent_first items)
unfolding sort_pages_recent_first
sort_pages_recent_first-IsRecentFirst items =
    sort-IsSorted recent_first (λ x y. str_le-total y.updated_at x.updated_at)
      (λ x y z h k. str_le_trans z.updated_at y.updated_at x.updated_at k h) items

retain-IsRecentFirst :
    (p : PageSummary → Bool) (items : List PageSummary)
    → IsRecentFirst items
    → IsRecentFirst (retain p items)
retain-IsRecentFirst p [] h = tt
retain-IsRecentFirst p (page ∷ items) h = elim (Bool-cases (p page)) [
  | inl e ↦ rw e (All-retain _ p items h.0, retain-IsRecentFirst p items h.1)
  | inr e ↦ rw e (retain-IsRecentFirst p items h.1)
]

updated_at-with_thumbnail :
    (thumbnail : ThumbnailMetadata) (page : PageSummary)
    → (with_thumbnail thumbnail page).updated_at ≡ page.updated_at
updated_at-with_thumbnail thumbnail page = ground arith

All-change_page :
    (after : PageSummary) (page_id : String) (thumbnail : ThumbnailMetadata)
    (items : List PageSummary)
    → All (λ y. recent_first after y ≡ true) items
    → All (λ y. recent_first after y ≡ true) (change_page page_id (with_thumbnail thumbnail) items)
All-change_page after page_id thumbnail [] h = tt
All-change_page after page_id thumbnail (page ∷ items) h =
    elim (Bool-cases (same page.id page_id)) [
      | inl e ↦ rw e (rw (updated_at-with_thumbnail thumbnail page) h.0, h.1)
      | inr e ↦ rw e (h.0, All-change_page after page_id thumbnail items h.1)
    ]

change_page-IsRecentFirst :
    (page_id : String) (thumbnail : ThumbnailMetadata) (items : List PageSummary)
    → IsRecentFirst items
    → IsRecentFirst (change_page page_id (with_thumbnail thumbnail) items)
change_page-IsRecentFirst page_id thumbnail [] h = tt
change_page-IsRecentFirst page_id thumbnail (page ∷ items) h =
    elim (Bool-cases (same page.id page_id)) [
      | inl e ↦
          rw e (All-map _ _ items (λ y k. rw (updated_at-with_thumbnail thumbnail page) k) h.0, h.1)
      | inr e ↦ rw e (
        All-change_page page page_id thumbnail items h.0,
        change_page-IsRecentFirst page_id thumbnail items h.1,
      )
    ]

apply_library_event_to_pages-IsRecentFirst :
    (event : LibraryEvent) (items : List PageSummary)
    → IsRecentFirst items
    → IsRecentFirst (apply_library_event_to_pages event items)
unfolding apply_library_event_to_pages
apply_library_event_to_pages-IsRecentFirst (page_created page) items h =
    sort_pages_recent_first-IsRecentFirst
      (retain (λ existing. not (same existing.id page.id)) items ++ page ∷ [])
apply_library_event_to_pages-IsRecentFirst (page_deleted page_id) items h =
    retain-IsRecentFirst _ items h
apply_library_event_to_pages-IsRecentFirst (page_thumbnail_updated page_id thumbnail) items h =
    change_page-IsRecentFirst page_id thumbnail items h
apply_library_event_to_pages-IsRecentFirst (page_updated page_id updated_at) items h =
    elim (Option-cases (find (λ page. same page.id page_id) items)) [
      | inl e ↦ rw (apply_library_event_to_pages, e) h
      | inr (page, e) ↦ elim (Bool-cases (str_le updated_at page.updated_at)) [
        | inl stale ↦ rw (apply_library_event_to_pages, e, stale) h
        | inr newer ↦
            rw (apply_library_event_to_pages, e, newer)
              (sort_pages_recent_first-IsRecentFirst
                (change_page page_id (λ p. record p { updated_at = updated_at }) items))
      ]
    ]

-- Whatever events arrive, the page list stays in recent-first order.
pub apply_library_events-IsRecentFirst :
    (events : List LibraryEvent) (items : List PageSummary)
    → IsRecentFirst items
    → IsRecentFirst (apply_library_events events items)
unfolding apply_library_events
apply_library_events-IsRecentFirst [] items h = h
apply_library_events-IsRecentFirst (event ∷ events) items h =
    apply_library_events-IsRecentFirst events (apply_library_event_to_pages event items)
      (apply_library_event_to_pages-IsRecentFirst event items h)

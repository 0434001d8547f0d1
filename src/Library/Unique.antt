-- ===== src/Library/Unique.antt =====
-- No page is twice in the page list.
use v_note.Base.{
  ◌≡◌, refl, Bool, false, not, String, same, Distinct, List, [], ◌∷◌, ◌++◌, arith, retain, find,
  Bool-cases, inl, inr, Option-cases, contains, contains-append, map, map-append, subst, sym, ap,
  ◌∙◌,
}
use v_note.Base.TextOrder.{str_le}
use v_note.Base.Sort.{sort, insert}
use v_note.Protocol.Messages.{
  PageSummary, LibraryEvent, page_created, page_deleted, page_thumbnail_updated, page_updated,
}
use v_note.Library.Ordered.{IsRecentFirst, apply_library_events-IsRecentFirst}
use v_note.Library.{
  recent_first, sort_pages_recent_first, apply_library_event_to_pages, apply_library_events,
  change_page, with_thumbnail,
}

abbrev pub page_ids : List PageSummary → List String
page_ids = map (λ page. page.id)

contains-insert :
    (page : PageSummary) (items : List PageSummary) (a : String)
    → contains (page_ids (insert recent_first page items)) a ≡ contains (page.id ∷ page_ids items) a
contains-insert page [] a = refl
contains-insert page (item ∷ items) a = ground (arith, contains-insert page items a)

insert-Distinct :
    (page : PageSummary) (items : List PageSummary)
    → contains (page_ids items) page.id ≡ false
    → Distinct (page_ids items)
    → Distinct (page_ids (insert recent_first page items))
insert-Distinct page [] n d = (refl, tt)
insert-Distinct page (item ∷ items) n d = elim (Bool-cases (recent_first page item)) [
  | inl e ↦ rw e (n, d)
  | inr e ↦ rw e (
    ground (arith, contains-insert page items item.id),
    insert-Distinct page items (ground arith) d.1,
  )
]

contains-sort :
    (items : List PageSummary) (a : String)
    → contains (page_ids (sort recent_first items)) a ≡ contains (page_ids items) a
contains-sort [] a = refl
contains-sort (item ∷ items) a =
    ground (arith, contains-insert item (sort recent_first items) a, contains-sort items a)

sort-Distinct :
    (items : List PageSummary)
    → Distinct (page_ids items)
    → Distinct (page_ids (sort_pages_recent_first items))
unfolding sort_pages_recent_first
sort-Distinct [] d = tt
sort-Distinct (item ∷ items) d =
    insert-Distinct item (sort recent_first items) (contains-sort items item.id ∙ d.0)
      (sort-Distinct items d.1)

contains-retain :
    (p : PageSummary → Bool) (items : List PageSummary) (a : String)
    → contains (page_ids items) a ≡ false
    → contains (page_ids (retain p items)) a ≡ false
contains-retain p [] a h = refl
contains-retain p (item ∷ items) a h = ground (arith, contains-retain p items a)

retain-Distinct :
    (p : PageSummary → Bool) (items : List PageSummary)
    → Distinct (page_ids items)
    → Distinct (page_ids (retain p items))
retain-Distinct p [] d = tt
retain-Distinct p (item ∷ items) d = elim (Bool-cases (p item)) [
  | inl e ↦ rw e (contains-retain p items item.id d.0, retain-Distinct p items d.1)
  | inr e ↦ rw e (retain-Distinct p items d.1)
]

contains-retain_others :
    (a : String) (items : List PageSummary)
    → contains (page_ids (retain (λ existing. not (same existing.id a)) items)) a ≡ false
contains-retain_others a [] = refl
contains-retain_others a (item ∷ items) = ground (arith, contains-retain_others a items)

append-Distinct :
    (items : List PageSummary) (page : PageSummary)
    → contains (page_ids items) page.id ≡ false
    → Distinct (page_ids items)
    → Distinct (page_ids (items ++ page ∷ []))
append-Distinct [] page n d = (refl, tt)
append-Distinct (item ∷ items) page n d = (
  rw (map-append (λ (p : PageSummary). p.id) items (page ∷ []))
      (ground (arith, contains-append (page_ids items) (page.id ∷ []) item.id)),
  append-Distinct items page (ground arith) d.1,
)

page_ids-change_page :
    (page_id : String) (change : PageSummary → PageSummary) (items : List PageSummary)
    → ((page : PageSummary) → (change page).id ≡ page.id)
    → page_ids (change_page page_id change items) ≡ page_ids items
page_ids-change_page page_id change [] keep = refl
page_ids-change_page page_id change (item ∷ items) keep = elim (Bool-cases (same item.id page_id)) [
  | inl e ↦ rw e (ap (λ (id : String). id ∷ page_ids items) (keep item))
  | inr e ↦ rw e (ap (◌∷◌ item.id) (page_ids-change_page page_id change items keep))
]

apply_library_event_to_pages-Distinct :
    (event : LibraryEvent) (items : List PageSummary)
    → Distinct (page_ids items)
    → Distinct (page_ids (apply_library_event_to_pages event items))
unfolding apply_library_event_to_pages
apply_library_event_to_pages-Distinct (page_created page) items d =
    let others = retain (λ existing. not (same existing.id page.id)) items in
    sort-Distinct (others ++ page ∷ []) (
      append-Distinct others page (contains-retain_others page.id items)
        (retain-Distinct _ items d))
apply_library_event_to_pages-Distinct (page_deleted page_id) items d = retain-Distinct _ items d
apply_library_event_to_pages-Distinct (page_thumbnail_updated page_id thumbnail) items d =
    subst Distinct
      (sym (page_ids-change_page page_id (with_thumbnail thumbnail) items (λ page. ground arith))) d
apply_library_event_to_pages-Distinct (page_updated page_id updated_at) items d =
    elim (Option-cases (find (λ page. same page.id page_id) items)) [
      | inl e ↦ rw (apply_library_event_to_pages, e) d
      | inr (page, e) ↦ elim (Bool-cases (str_le updated_at page.updated_at)) [
        | inl stale ↦ rw (apply_library_event_to_pages, e, stale) d
        | inr newer ↦
            let change : PageSummary → PageSummary = λ p. record p { updated_at = updated_at } in
            rw (apply_library_event_to_pages, e, newer)
              (sort-Distinct (change_page page_id change items)
                (subst Distinct (sym (page_ids-change_page page_id change items (λ p. refl))) d))
      ]
    ]

apply_library_events-Distinct :
    (events : List LibraryEvent) (items : List PageSummary)
    → Distinct (page_ids items)
    → Distinct (page_ids (apply_library_events events items))
unfolding apply_library_events
apply_library_events-Distinct [] items d = d
apply_library_events-Distinct (event ∷ events) items d =
    apply_library_events-Distinct events (apply_library_event_to_pages event items)
      (apply_library_event_to_pages-Distinct event items d)

-- Whatever events arrive, a page list in recent-first order that holds no page twice stays in
-- recent-first order and holds no page twice.
pub apply_library_events-IsListed :
    (events : List LibraryEvent) (items : List PageSummary)
    → IsRecentFirst items
    → Distinct (page_ids items)
    → IsRecentFirst (apply_library_events events items)
      × Distinct (page_ids (apply_library_events events items))
apply_library_events-IsListed events items h d = (
  apply_library_events-IsRecentFirst events items h,
  apply_library_events-Distinct events items d,
)

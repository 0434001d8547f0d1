-- ===== src/Library/Tests.antt =====
-- The page list at concrete events.
use v_note.Base.{Distinct, refl, str_dec, ◌≡◌, String, [], ◌∷◌, map}
use v_note.Protocol.Messages.{PageSummary, empty, page_created, page_updated}
use v_note.Protocol.Paper.{blank}
use v_note.Library.{apply_library_events, apply_library_event_to_pages, sort_pages_recent_first}
use v_note.Library.Ordered.{IsRecentFirst}
use v_note.Library.Unique.{page_ids, apply_library_events-IsListed}

abbrev summary : String → String → PageSummary
summary id updated_at = record {
  id = id;
  title = "";
  created_at = "2026-07-22T00:00:00+00:00";
  updated_at = updated_at;
  thumbnail = empty;
  paper = blank;
}

abbrev id_of : PageSummary → String
id_of page = page.id

-- An edited page moves to the front.
edited :
    map id_of (
      apply_library_event_to_pages
        (page_updated "older" "11")
        (summary "newer" "10" ∷ summary "older" "09" ∷ []))
    ≡ "older" ∷ "newer" ∷ []
unfolding apply_library_event_to_pages sort_pages_recent_first str_dec
edited = refl

distinct : Distinct (page_ids (summary "newer" "10" ∷ summary "older" "09" ∷ []))
unfolding str_dec
distinct = (refl, (refl, tt))

apply_library_events-IsListed_example :
    IsRecentFirst (
      apply_library_events
        (page_created (summary "b" "12") ∷ page_updated "older" "11" ∷ [])
        (summary "newer" "10" ∷ summary "older" "09" ∷ []))
    × Distinct (
        page_ids (
          apply_library_events
            (page_created (summary "b" "12") ∷ page_updated "older" "11" ∷ [])
            (summary "newer" "10" ∷ summary "older" "09" ∷ [])))
apply_library_events-IsListed_example =
    apply_library_events-IsListed (page_created (summary "b" "12") ∷ page_updated "older" "11" ∷ [])
      (summary "newer" "10" ∷ summary "older" "09" ∷ []) ((refl, tt), (tt, tt)) distinct

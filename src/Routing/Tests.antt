-- ===== src/Routing/Tests.antt =====
-- The routes at concrete paths.
use v_note.Base.{◌≡◌, refl, true, none, some}
use v_note.Routing.{page, library, Browser, current_route, route_from_path, path_for_route}
use v_note.Routing.RoundTrip.{is_page_id, path_for_route-route_from_path}

falls_back :
    (route_from_path "/p" ≡ library)
    × (route_from_path "/p/" ≡ library)
    × (route_from_path "/p/a/b" ≡ library)
    × (route_from_path "/pages/page_a" ≡ library)
unfolding route_from_path
falls_back = (refl, refl, refl, refl)

linked : route_from_path "/p/page_a/?from=mail" ≡ page "page_a"
unfolding route_from_path
linked = refl

path_for_route-route_from_path_example :
    (is_page_id "page_a" ≡ true)
    × (route_from_path (path_for_route (page "page_a")) ≡ page "page_a")
path_for_route-route_from_path_example =
    path_for_route-route_from_path "/p/page_a/?from=mail" "page_a" linked

abbrev browser : Browser
browser = record { pathname = "/p/page_a/"; storage = some none }

on_page : current_route browser ≡ page "page_a"
unfolding route_from_path
on_page = refl

-- ===== src/Routing/ReturnRoute.antt =====
-- The deep link of a signed-out visitor in frontend/src/route.rs.
use v_note.Base.{◌≡◌, refl, ap, ap₂, sym, subst, ◌∙◌, String, Option, none, some}
use v_note.Routing.{
  Route, library, page, Browser, current_route, route_from_path, path_for_route,
  remember_return_route, initial_route, take_return_route, replace, stash, only_page, resumed,
  start_on,
}
use v_note.Routing.RoundTrip.{path_for_route-route_from_path}

-- The browser when the identity provider returns it.
abbrev pub signed_in : Browser → Browser
signed_in b = record b { pathname = "/" }

on_library : route_from_path "/" ≡ library
unfolding route_from_path
on_library = refl

-- Where nothing is owed, the library stays.
nothing_owed :
    initial_route (record { pathname = "/"; storage = some none })
    ≡ (record { pathname = "/"; storage = some none }, library)
unfolding initial_route take_return_route
nothing_owed = ap (start_on (record { pathname = "/"; storage = some none })) on_library

parked :
    (path id : String)
    → route_from_path path ≡ page id
    → initial_route (record { pathname = "/"; storage = some (some path) })
      ≡ (record { pathname = path_for_route (page id); storage = some none }, page id)
unfolding initial_route take_return_route replace
parked path id e =
    ap (λ r. start_on (record { pathname = "/"; storage = some (some path) }) r) on_library
    ∙ ap (λ r. resumed (record { pathname = "/"; storage = some none }, only_page r)) e

module _ (b : Browser) (item : Option String) (stored : b.storage ≡ some item) (id : String) where
  -- Where a start on the library leads after a sign-in.
  pub record IsPaid (r : Browser × Route) : Type 0 where
    pub lands : r.1 ≡ page id
    pub address : r.0.pathname ≡ path_for_route (page id)
    pub once : (initial_route (signed_in r.0)).1 ≡ library

  -- A sign-in that starts on a page ends on that page, under the page's own path, and owes nothing
  -- afterwards: the next start on the library stays there.
  pub initial_route-remember_return_route :
      current_route b ≡ page id → IsPaid (initial_route (signed_in (remember_return_route b)))
  unfolding remember_return_route
  initial_route-remember_return_route at =
      let kept : stash (current_route b) b.storage ≡ some (some (path_for_route (page id))) =
        ap₂ stash at stored in
      let back : route_from_path (path_for_route (page id)) ≡ page id =
        (path_for_route-route_from_path b.pathname id at).1 in
      subst (λ r. IsPaid (initial_route (record { pathname = "/"; storage = r }))) (sym kept)
        (subst IsPaid (sym (parked (path_for_route (page id)) id back)) (record {
          lands = refl;
          address = refl;
          once = ap (λ (q : Browser × Route). q.1) nothing_owed;
        }))

-- ===== src/Routing.antt =====
-- frontend/src/route.rs: the routes that paths name, and the deep link that a sign-in parks. The
-- browser is its address bar and the one item of its session storage.
pub mod RoundTrip
pub mod ReturnRoute
mod Tests
use Prim.Native.Char.{Char, code}
use Prim.Native.String.{◌++◌ as ◌<>◌}
use v_note.Base.{
  Bool, true, false, not, ◌&&◌, ◌||◌, String, Option, none, some, if◌then◌else◌, ◌==◌,
}
use v_note.Base.Whitespace.{is_empty_text}

pub data Route : Type 0 where
  library : Route
  page : String → Route

abbrev pub is_slash : Char → Bool
is_slash c = code c == b'/'

-- The first part of `split(['?', '#'])`.
abbrev pub before_query : String → String
before_query String.[] = String.[]
before_query (String.◌∷◌ c s) =
    let rest = before_query s in
    if (code c == b'?') || (code c == b'#') then String.[] else String.◌∷◌ c rest

-- `trim_end_matches('/')`.
abbrev pub trim_end_slashes : String → String
trim_end_slashes String.[] = String.[]
trim_end_slashes (String.◌∷◌ c s) =
    let rest = trim_end_slashes s in
    if is_slash c && is_empty_text rest then String.[] else String.◌∷◌ c rest

abbrev pub strip_prefix : String → String → Option String
strip_prefix String.[] s = some s
strip_prefix (String.◌∷◌ c p) String.[] = none
strip_prefix (String.◌∷◌ c p) (String.◌∷◌ d s) =
    let rest = strip_prefix p s in if code c == code d then rest else none

abbrev pub contains_slash : String → Bool
contains_slash String.[] = false
contains_slash (String.◌∷◌ c s) = is_slash c || contains_slash s

abbrev pub page_named : Option String → Route
page_named none = library
page_named (some page_id) =
    if not (is_empty_text page_id) && not (contains_slash page_id) then page page_id else library

abbrev pub after_prefix : Option String → Route
after_prefix none = library
after_prefix (some rest) = page_named (strip_prefix "/" rest)

unfoldable pub route_from_path : String → Route
route_from_path path = after_prefix (strip_prefix "/p" (trim_end_slashes (before_query path)))

unfoldable pub path_for_route : Route → String
path_for_route library = "/"
path_for_route (page page_id) = "/p/" <> page_id

-- `storage` is `none` where there is no session storage, and else its item for the return route.
pub record Browser : Type 0 where
  pub pathname : String
  pub storage : Option (Option String)

abbrev pub current_route : Browser → Route
current_route b = route_from_path b.pathname

-- `history.replace_state_with_url`.
unfoldable pub replace : Route → Browser → Browser
replace route b = record b { pathname = path_for_route route }

abbrev pub stash : Route → Option (Option String) → Option (Option String)
stash library storage = storage
stash (page page_id) none = none
stash (page page_id) (some item) = some (some (path_for_route (page page_id)))

unfoldable pub remember_return_route : Browser → Browser
remember_return_route b = record b { storage = stash (current_route b) b.storage }

abbrev pub only_page : Route → Option Route
only_page library = none
only_page (page page_id) = some (page page_id)

abbrev pub taken : Option (Option String) → Option (Option String) × Option Route
taken none = (none, none)
taken (some none) = (some none, none)
taken (some (some path)) = (some none, only_page (route_from_path path))

unfoldable pub take_return_route : Browser → Browser × Option Route
take_return_route b =
    let (storage, route) = taken b.storage in (record b { storage = storage }, route)

abbrev pub resumed : Browser × Option Route → Browser × Route
resumed (b, none) = (b, library)
resumed (b, some route) = (replace route b, route)

abbrev pub start_on : Browser → Route → Browser × Route
start_on b library = resumed (take_return_route b)
start_on b (page page_id) = (b, page page_id)

unfoldable pub initial_route : Browser → Browser × Route
unfolding take_return_route replace
initial_route b = start_on b (current_route b)

-- ===== src/Routing/RoundTrip.antt =====
-- Paths and routes of frontend/src/route.rs.
use Prim.Native.Char.{char, code}
use Prim.Native.String.append
use v_note.Base.{
  ◌≡◌, refl, ap, ◌∙◌, subst, Bool, true, false, not, ◌&&◌, ◌||◌, String, Option, none, some, arith,
  if◌then◌else◌, ◌==◌, Bool-cases, inl, inr,
}
use v_note.Base.Whitespace.{is_empty_text}
use v_note.Routing.{
  library, page, route_from_path, path_for_route, before_query, trim_end_slashes, strip_prefix,
  contains_slash, is_slash, page_named, after_prefix,
}

-- No character of a query or a fragment.
abbrev pub is_plain : String → Bool
is_plain String.[] = true
is_plain (String.◌∷◌ c s) = not ((code c == b'?') || (code c == b'#')) && is_plain s

-- The ids that a path can name.
abbrev pub is_page_id : String → Bool
is_page_id s = not (is_empty_text s) && (not (contains_slash s) && is_plain s)

before_query_of_plain : (s : String) → is_plain s ≡ true → before_query s ≡ s
before_query_of_plain String.[] h = refl
before_query_of_plain (String.◌∷◌ c s) h = ground (arith, before_query_of_plain s)

trim_of_slashless : (s : String) → contains_slash s ≡ false → trim_end_slashes s ≡ s
trim_of_slashless String.[] h = refl
trim_of_slashless (String.◌∷◌ c s) h = ground (arith, trim_of_slashless s)

plain-before_query : (s : String) → is_plain (before_query s) ≡ true
plain-before_query String.[] = refl
plain-before_query (String.◌∷◌ c s) = elim (Bool-cases ((code c == b'?') || (code c == b'#'))) [
  | inl e ↦ rw e refl
  | inr e ↦ rw e (rw e (plain-before_query s))
]

plain-trim_end_slashes : (s : String) → is_plain s ≡ true → is_plain (trim_end_slashes s) ≡ true
plain-trim_end_slashes String.[] h = refl
plain-trim_end_slashes (String.◌∷◌ c s) h =
    elim (Bool-cases (is_slash c && is_empty_text (trim_end_slashes s))) [
      | inl e ↦ rw e refl
      | inr e ↦ rw e (ground (arith, plain-trim_end_slashes s))
    ]

plain-strip_prefix :
    (p s : String) {rest : String}
    → is_plain s ≡ true
    → strip_prefix p s ≡ some rest
    → is_plain rest ≡ true
plain-strip_prefix String.[] s h e = ground arith
plain-strip_prefix (String.◌∷◌ c p) String.[] h e = cc
plain-strip_prefix (String.◌∷◌ c p) (String.◌∷◌ d s) {rest} h e =
    ground (arith, plain-strip_prefix p s {rest = rest})

abbrev in_page_path : String → String
in_page_path id = String.◌∷◌ (char 47 tt) (String.◌∷◌ (char 112 tt) (String.◌∷◌ (char 47 tt) id))

page_path : (id : String) → path_for_route (page id) ≡ in_page_path id
unfolding path_for_route
page_path id =
    append.cons (char 47 tt) "p/" id
    ∙ ap (String.◌∷◌ (char 47 tt)) (
        append.cons (char 112 tt) "/" id
        ∙ ap (String.◌∷◌ (char 112 tt))
            (append.cons (char 47 tt) "" id ∙ ap (String.◌∷◌ (char 47 tt)) (append.nil id)))

read_back : (id : String) → is_page_id id ≡ true → route_from_path (in_page_path id) ≡ page id
unfolding route_from_path
read_back id h =
    ap (λ s. after_prefix (strip_prefix "/p" (trim_end_slashes s)))
      (before_query_of_plain (in_page_path id) (ground arith))
    ∙ (ap (λ s. after_prefix (strip_prefix "/p" s)) (untrimmed id h) ∙ named id h)
  where
    untrimmed :
        (id : String) → is_page_id id ≡ true → trim_end_slashes (in_page_path id) ≡ in_page_path id
    untrimmed id h = ground (arith, trim_of_slashless id)

    named : (id : String) → is_page_id id ≡ true → page_named (some id) ≡ page id
    named id h = ground arith

page_if :
    (b : Bool) (s id : String) → (if b then page s else library) ≡ page id → (b ≡ true) × (s ≡ id)
page_if true s id h = (refl, cc)
page_if false s id h = cc

page_named-page :
    (o : Option String) (id : String)
    → page_named o ≡ page id
    → (o ≡ some id) × (is_empty_text id ≡ false) × (contains_slash id ≡ false)
page_named-page none id h = cc
page_named-page (some s) id h =
    let (fits, e) = page_if (not (is_empty_text s) && not (contains_slash s)) s id h in
    subst
      (λ (k : String). (some s ≡ some k) × (is_empty_text k ≡ false) × (contains_slash k ≡ false)) e
      (refl, ground arith, ground arith)

-- The path of a route leads back to it: of the library, and of every page whose id has no slash, no
-- question mark and no hash.
pub route_from_path-path_for_route :
    (id : String)
    → is_page_id id ≡ true
    → (route_from_path (path_for_route (page id)) ≡ page id)
      × (route_from_path (path_for_route library) ≡ library)
unfolding route_from_path path_for_route
route_from_path-path_for_route id h = (ap route_from_path (page_path id) ∙ read_back id h, refl)

-- A path that names a page names one with an id of that form, so that the route's own path leads
-- to the same page.
pub path_for_route-route_from_path :
    (path id : String)
    → route_from_path path ≡ page id
    → (is_page_id id ≡ true) × (route_from_path (path_for_route (page id)) ≡ page id)
unfolding route_from_path
path_for_route-route_from_path path id h =
    by_prefix (strip_prefix "/p" (trim_end_slashes (before_query path))) refl h
  where
    by_prefix :
        (o : Option String)
        → strip_prefix "/p" (trim_end_slashes (before_query path)) ≡ o
        → after_prefix o ≡ page id
        → (is_page_id id ≡ true) × (route_from_path (path_for_route (page id)) ≡ page id)
    by_prefix none e h = cc
    by_prefix (some rest) e h =
        let (stripped, filled, single) = page_named-page (strip_prefix "/" rest) id h in
        let plain : is_plain rest ≡ true =
          plain-strip_prefix "/p" (trim_end_slashes (before_query path))
            (plain-trim_end_slashes (before_query path) (plain-before_query path)) e in
        let plain_id : is_plain id ≡ true = plain-strip_prefix "/" rest plain stripped in
        let is_id : is_page_id id ≡ true = rw (filled, single, plain_id) refl in
        (is_id, (route_from_path-path_for_route id is_id).0)

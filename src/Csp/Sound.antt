-- ===== src/Csp/Sound.antt =====
-- What the scanner of crates/server/src/csp.rs hashes.
use Prim.Native.String.{◌++◌ as ◌<>◌}
use Prim.Native.String.append
use v_note.Base.{
  ℕ, zero, suc, ◌<◌, arith, ◌≡◌, refl, sym, ap, ◌∙◌, Bool, true, false, not, String, List, Option,
  none, some, All, All-map, if◌then◌else◌,
}
use v_note.Csp.Rounds.{Read, Reads, scan-Read}
use v_note.Csp.Scanned.{Within, find-Within, chars-skip, skip-shorter}
use v_note.Csp.{
  chars, find, after, skip, with_first, is_some, ends_name, has_src_attribute, Rest, pushed_if,
  hashed, opened, named, scan, inline_script_hashes,
}

<>-assoc : (s t u : String) → s <> (t <> u) ≡ (s <> t) <> u
<>-assoc String.[] t u = append.nil (t <> u) ∙ sym (ap (λ (x : String). x <> u) (append.nil t))
<>-assoc (String.◌∷◌ c s) t u =
    append.cons c s (t <> u)
    ∙ (ap (String.◌∷◌ c) (<>-assoc s t u)
        ∙ (sym (append.cons c (s <> t) u) ∙ sym (ap (λ (x : String). x <> u) (append.cons c s t))))

abbrev Splits : String → String → Option (String × String) → Type 0
Splits pattern s none = Unit
Splits pattern s (some (before, found)) =
    (s ≡ before <> found) × (is_some (after pattern found) ≡ true)

with_first-Splits :
    (pattern : String) (c : _) (s : String) (o : Option (String × String))
    → Splits pattern s o
    → Splits pattern (String.◌∷◌ c s) (with_first c o)
with_first-Splits pattern c s none h = tt
with_first-Splits pattern c s (some (before, found)) h =
    (ap (String.◌∷◌ c) h.0 ∙ sym (append.cons c before found), h.1)

find-Splits : (pattern s : String) → Splits pattern s (find pattern s)
find-Splits pattern String.[] = tt
find-Splits pattern (String.◌∷◌ c s) =
    by_test (is_some (after pattern (String.◌∷◌ c s))) refl
      (with_first-Splits pattern c s (find pattern s) (find-Splits pattern s))
  where
    by_test :
        (b : Bool)
        → is_some (after pattern (String.◌∷◌ c s)) ≡ b
        → Splits pattern (String.◌∷◌ c s) (with_first c (find pattern s))
        → Splits pattern
            (String.◌∷◌ c s)
            (if b then some ("", String.◌∷◌ c s) else with_first c (find pattern s))
    by_test true e h = (sym (append.nil (String.◌∷◌ c s)), e)
    by_test false e h = h

skip-splits : (n : ℕ) (s : String) → (t : String) × (s ≡ t <> skip n s)
skip-splits zero s = ("", sym (append.nil s))
skip-splits (suc n) String.[] = ("", sym (append.nil ""))
skip-splits (suc n) (String.◌∷◌ c s) =
    let (t, e) = skip-splits n s in
    (String.◌∷◌ c t, ap (String.◌∷◌ c) e ∙ sym (append.cons c t (skip n s)))

-- The hash of a part of the page that a `</script` in any case ends.
abbrev pub IsHashIn : (String → String) → String → String → Type 0
IsHashIn sha256_source html hash =
    (body : String) × ((hash ≡ sha256_source body)
      × ((before : String) × ((later : String) × ((html ≡ before <> (body <> later))
              × (is_some (after "</script" later) ≡ true)))))

-- The loop has come to its end, and all that it pushed are such hashes.
abbrev pub Ends : (String → String) → String → Option (List String) → Type 0
Ends sha256_source html none = ⊥
Ends sha256_source html (some hashes) = All (IsHashIn sha256_source html) hashes

module _ (sha256_source : String → String) where
  -- What is hashed in the rest of a text is hashed in the text.
  IsHashIn-rest :
      (s t u : String) (hashes : List String)
      → s ≡ t <> u
      → All (IsHashIn sha256_source u) hashes
      → All (IsHashIn sha256_source s) hashes
  IsHashIn-rest s t u hashes e =
      All-map (IsHashIn sha256_source u) (IsHashIn sha256_source s) hashes
        (λ hash (body, (hash_of, (before, (later, (e', closed))))). (
          body,
          (
            hash_of,
            (
              t <> before,
              (
                later,
                (e ∙ (ap (λ (x : String). t <> x) e' ∙ <>-assoc t before (body <> later)), closed),
              ),
            ),
          ),
        ))

  Ends-rest :
      (s t u : String) (o : Option (List String))
      → s ≡ t <> u
      → Ends sha256_source u o
      → Ends sha256_source s o
  Ends-rest s t u none e h = h
  Ends-rest s t u (some hashes) e h = IsHashIn-rest s t u hashes e h

  pushed_if-Ends :
      (b : Bool) (s body : String) (o : Option (List String))
      → IsHashIn sha256_source s (sha256_source body)
      → Ends sha256_source s o
      → Ends sha256_source s (pushed_if b (sha256_source body) o)
  pushed_if-Ends b s body none hash h = h
  pushed_if-Ends true s body (some rest) hash h = (hash, h)
  pushed_if-Ends false s body (some rest) hash h = h

  -- The rest of the loop ends wherever the cursor has moved.
  module _ (next : Rest) (n : ℕ)
      (ends : (s : String) → chars s < n → Ends sha256_source s (next s)) where
    hashed-Ends :
        (attributes s : String) (o : Option (String × String))
        → chars s < n
        → Within (chars s) o
        → Splits "</script" s o
        → Ends sha256_source s (hashed sha256_source next attributes o)
    hashed-Ends attributes s none lt w h = tt
    hashed-Ends attributes s (some (body, close)) lt w h =
        pushed_if-Ends (not (has_src_attribute attributes)) s body (next close)
          (body, (refl, ("", (close, (h.0 ∙ sym (append.nil (body <> close)), h.1)))))
          (Ends-rest s body close (next close) h.0 (ends close (omega (arith, w.1))))

    opened-Ends :
        (s : String) (o : Option (String × String))
        → chars s < n
        → Within (chars s) o
        → Splits ">" s o
        → Ends sha256_source s (opened sha256_source next o)
    opened-Ends s none lt w h = tt
    opened-Ends s (some (attributes, tag_end)) lt w h =
        let (t, e) = skip-splits 1 tag_end in
        let hashes = hashed sha256_source next attributes (find "</script" (skip 1 tag_end)) in
        Ends-rest s attributes tag_end hashes h.0 (
          Ends-rest tag_end t (skip 1 tag_end) hashes e (
            hashed-Ends attributes (skip 1 tag_end) (find "</script" (skip 1 tag_end))
              (omega (arith, w.1, chars-skip 1 tag_end)) (find-Within "</script" (skip 1 tag_end))
              (find-Splits "</script" (skip 1 tag_end))))

    named-Ends :
        (s : String) (o : Option (String × String))
        → Within n o
        → Splits "<script" s o
        → Ends sha256_source s (named sha256_source next o)
    named-Ends s none w h = tt
    named-Ends s (some (before, tag)) w h =
        let (t, e) = skip-splits 7 tag in
        let hashes = named sha256_source next (some (before, tag)) in
        Ends-rest s before tag hashes h.0
          (Ends-rest tag t (skip 7 tag) hashes e (by_name (ends_name (skip 7 tag))))
      where
        moved : chars (skip 7 tag) < n
        moved = omega (arith, w.1, skip-shorter 6 tag w.0)

        by_name :
            (b : Bool)
            → Ends sha256_source (skip 7 tag) (elim b [
              | true ↦ opened sha256_source next (find ">" (skip 7 tag))
              | false ↦ next (skip 7 tag)
            ])
        by_name true =
            opened-Ends (skip 7 tag) (find ">" (skip 7 tag)) moved (find-Within ">" (skip 7 tag))
              (find-Splits ">" (skip 7 tag))
        by_name false = ends (skip 7 tag) moved

  scan-Ends :
      (fuel : ℕ) (html : String)
      → chars html < fuel
      → Ends sha256_source html (scan sha256_source fuel html)
  unfolding scan
  scan-Ends zero html h = ground arith
  scan-Ends (suc fuel) html h =
      named-Ends (scan sha256_source fuel) (chars html) (λ s lt. scan-Ends fuel s (omega arith))
        html (find "<script" html) (find-Within "<script" html) (find-Splits "<script" html)

hashes_of_end :
    (sha256_source : String → String) (html : String) (o : Option (List String))
    → Ends sha256_source html o
    → Read sha256_source html o
    → (hashes : List String) × ((o ≡ some hashes)
        × (Reads sha256_source html hashes × All (IsHashIn sha256_source html) hashes))
hashes_of_end sha256_source html none h read = absurd h
hashes_of_end sha256_source html (some hashes) h read = (hashes, (refl, (read, h)))

-- The scanner comes to its end on every page, before its fuel is spent. It gives the policy one hash
-- for each script element that is whole and has no `src`, in the order of the page, as far as the
-- first tag or element that is not whole, and each is the hash of a part of the page that ends where a
-- `</script` starts.
pub inline_script_hashes-ends :
    (sha256_source : String → String) (html : String)
    → (hashes : List String) × ((inline_script_hashes sha256_source html ≡ some hashes)
        × (Reads sha256_source html hashes × All (IsHashIn sha256_source html) hashes))
unfolding inline_script_hashes
inline_script_hashes-ends sha256_source html =
    hashes_of_end sha256_source html (inline_script_hashes sha256_source html)
      (scan-Ends sha256_source (suc (chars html)) html (omega arith))
      (scan-Read sha256_source (suc (chars html)) html)

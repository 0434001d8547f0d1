-- ===== src/Csp/Rounds.antt =====
-- The rounds of the loop of crates/server/src/csp.rs, as a relation between a page and its hashes.
use v_note.Base.{
  ℕ, zero, suc, ◌≡◌, refl, Bool, true, false, not, String, List, [], ◌∷◌, Option, none, some,
}
use v_note.Csp.{
  find, skip, ends_name, has_src_attribute, Rest, pushed_if, hashed, opened, named, scan,
}

module _ (sha256_source : String → String) where
  -- The tag of a script element, after its name.
  pub data Opens (s after_name : String) : Type 0 where
    opens :
        (before tag : String)
        → find "<script" s ≡ some (before, tag)
        → after_name ≡ skip 7 tag
        → Opens s after_name

  -- A script element, whole: its attributes, its body, and the page from its end tag on.
  pub data IsScript (s attributes body close : String) : Type 0 where
    script :
        (after_name tag_end : String)
        → Opens s after_name
        → ends_name after_name ≡ true
        → find ">" after_name ≡ some (attributes, tag_end)
        → find "</script" (skip 1 tag_end) ≡ some (body, close)
        → IsScript s attributes body close

  -- The hashes of a page. It has one more for each script element that is whole and has no `src`, in
  -- the order of the page, as far as the first tag or element that is not whole.
  pub data Reads : String → List String → Type 0 where
    no_script : (s : String) → find "<script" s ≡ none → Reads s []
    other_name :
        (s after_name : String) (hashes : List String)
        → Opens s after_name
        → ends_name after_name ≡ false
        → Reads after_name hashes
        → Reads s hashes
    open_tag :
        (s after_name : String)
        → Opens s after_name
        → ends_name after_name ≡ true
        → find ">" after_name ≡ none
        → Reads s []
    open_element :
        (s after_name attributes tag_end : String)
        → Opens s after_name
        → ends_name after_name ≡ true
        → find ">" after_name ≡ some (attributes, tag_end)
        → find "</script" (skip 1 tag_end) ≡ none
        → Reads s []
    by_url :
        (s attributes body close : String) (hashes : List String)
        → IsScript s attributes body close
        → has_src_attribute attributes ≡ true
        → Reads close hashes
        → Reads s hashes
    inline :
        (s attributes body close : String) (hashes : List String)
        → IsScript s attributes body close
        → has_src_attribute attributes ≡ false
        → Reads close hashes
        → Reads s (sha256_source body ∷ hashes)

  -- If the loop ends it has read the page.
  abbrev pub Read : String → Option (List String) → Type 0
  Read s none = Unit
  Read s (some hashes) = Reads s hashes

  module _ (next : Rest) (read : (s : String) → Read s (next s)) where
    pushed_if-Read :
        (s attributes body close : String)
        → IsScript s attributes body close
        → (b : Bool) → has_src_attribute attributes ≡ b
        → (o : Option (List String)) → Read close o
        → Read s (pushed_if (not b) (sha256_source body) o)
    pushed_if-Read s attributes body close whole b e none h = tt
    pushed_if-Read s attributes body close whole true e (some hashes) h =
        by_url s attributes body close hashes whole e h
    pushed_if-Read s attributes body close whole false e (some hashes) h =
        inline s attributes body close hashes whole e h

    module _ (s after_name : String) (at : Opens s after_name)
        (is_named : ends_name after_name ≡ true) where
      hashed-Read :
          (attributes tag_end : String)
          → find ">" after_name ≡ some (attributes, tag_end)
          → (o : Option (String × String)) → find "</script" (skip 1 tag_end) ≡ o
          → Read s (hashed sha256_source next attributes o)
      hashed-Read attributes tag_end e none e' =
          open_element s after_name attributes tag_end at is_named e e'
      hashed-Read attributes tag_end e (some (body, close)) e' =
          pushed_if-Read s attributes body close (script after_name tag_end at is_named e e')
            (has_src_attribute attributes) refl (next close) (read close)

      opened-Read :
          (o : Option (String × String))
          → find ">" after_name ≡ o
          → Read s (opened sha256_source next o)
      opened-Read none e = open_tag s after_name at is_named e
      opened-Read (some (attributes, tag_end)) e =
          hashed-Read attributes tag_end e (find "</script" (skip 1 tag_end)) refl

    skipped-Read :
        (s after_name : String)
        → Opens s after_name
        → ends_name after_name ≡ false
        → (o : Option (List String)) → Read after_name o
        → Read s o
    skipped-Read s after_name at e none h = tt
    skipped-Read s after_name at e (some hashes) h = other_name s after_name hashes at e h

    named-Read :
        (s : String) (o : Option (String × String))
        → find "<script" s ≡ o
        → Read s (named sha256_source next o)
    named-Read s none e = no_script s e
    named-Read s (some (before, tag)) e =
        by_name (opens before tag e refl) (ends_name (skip 7 tag)) refl
      where
        by_name :
            Opens s (skip 7 tag)
            → (b : Bool) → ends_name (skip 7 tag) ≡ b
            → Read s (elim b [
              | true ↦ opened sha256_source next (find ">" (skip 7 tag))
              | false ↦ next (skip 7 tag)
            ])
        by_name at true e' = opened-Read s (skip 7 tag) at e' (find ">" (skip 7 tag)) refl
        by_name at false e' =
            skipped-Read s (skip 7 tag) at e' (next (skip 7 tag)) (read (skip 7 tag))

  pub scan-Read : (fuel : ℕ) (html : String) → Read html (scan sha256_source fuel html)
  unfolding scan
  scan-Read zero html = tt
  scan-Read (suc fuel) html =
      named-Read (scan sha256_source fuel) (scan-Read fuel) html (find "<script" html) refl

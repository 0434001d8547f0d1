-- ===== src/Thumbnails/Retention.antt =====
-- What `cleanup` of crates/server/src/thumbnails.rs keeps.
use v_note.Base.{
  ℕ, suc, zero, ◌≤◌, ◌≡◌, ◌⊎◌, inl, inr, refl, String, same, List, [], ◌∷◌, map, arith, Bool, true,
  false, not, some, retain, length, take, All, All-retain, Bool-cases, ◌==◌, if◌then◌else◌, ◌∙◌,
  sym, subst,
}
use v_note.Store.Tables.{Db, PageRow, ThumbnailRow, page_row}
use v_note.Store.Writes.{has_thumbnail}
use v_note.Store.Sound.{IsSound, thumbnails_of}
use v_note.Thumbnails.{
  cleanup, contains_seq, is_superseded, recent_seqs, source_seq_of, retention_limit,
}

abbrev pub IsDistinct : List ℕ → Type 0
IsDistinct [] = Unit {0}
IsDistinct (x ∷ xs) = (contains_seq xs x ≡ false) × IsDistinct xs

without : ℕ → List ℕ → List ℕ
without x [] = []
without x (y ∷ ys) = let rest = without x ys in if y == x then ys else y ∷ rest

length-without :
    (x : ℕ) (ys : List ℕ) → contains_seq ys x ≡ true → length ys ≡ suc (length (without x ys))
unfolding without
length-without x [] h = ground arith
length-without x (y ∷ ys) h = ground (arith, length-without x ys)

contains-without :
    (x z : ℕ) (ys : List ℕ)
    → contains_seq ys z ≡ true
    → (x == z) ≡ false
    → contains_seq (without x ys) z ≡ true
unfolding without
contains-without x z [] h ne = h
contains-without x z (y ∷ ys) h ne = ground (arith, contains-without x z ys)

differs : (x : ℕ) (xs : List ℕ) → contains_seq xs x ≡ false → All (λ z. (x == z) ≡ false) xs
differs x [] h = tt
differs x (z ∷ xs) h = (ground arith, differs x xs (ground arith))

All-without :
    (x : ℕ) (xs ys : List ℕ)
    → All (λ z. (x == z) ≡ false) xs
    → All (λ z. contains_seq ys z ≡ true) xs
    → All (λ z. contains_seq (without x ys) z ≡ true) xs
All-without x [] ys ne h = tt
All-without x (z ∷ xs) ys ne h = (contains-without x z ys h.0 ne.0, All-without x xs ys ne.1 h.1)

-- Distinct numbers that all stand in a list are no more than it has.
pigeonhole :
    (xs ys : List ℕ)
    → IsDistinct xs
    → All (λ z. contains_seq ys z ≡ true) xs
    → length xs ≤ length ys
pigeonhole [] ys d h = omega arith
pigeonhole (x ∷ xs) ys d h = omega (
  arith,
  length-without x ys h.0,
  pigeonhole xs (without x ys) d.1 (All-without x xs ys (differs x xs d.0) h.1),
)

contains-retain :
    (p : ThumbnailRow → Bool) (rows : List ThumbnailRow) (x : ℕ)
    → contains_seq (map source_seq_of rows) x ≡ false
    → contains_seq (map source_seq_of (retain p rows)) x ≡ false
contains-retain p [] x h = refl
contains-retain p (t ∷ rows) x h = ground (arith, contains-retain p rows x)

IsDistinct-retain :
    (p : ThumbnailRow → Bool) (rows : List ThumbnailRow)
    → IsDistinct (map source_seq_of rows)
    → IsDistinct (map source_seq_of (retain p rows))
IsDistinct-retain p [] d = tt
IsDistinct-retain p (t ∷ rows) d = elim (Bool-cases (p t)) [
  | inl e ↦ rw e (contains-retain p rows t.source_seq d.0, IsDistinct-retain p rows d.1)
  | inr e ↦ rw e (IsDistinct-retain p rows d.1)
]

length-take : {A : Type 0} (n : ℕ) (xs : List A) → length (take n xs) ≤ n
length-take zero xs = omega arith
length-take (suc n) [] = omega arith
length-take (suc n) (x ∷ xs) = omega (arith, length-take n xs)

length-map : (rows : List ThumbnailRow) → length (map source_seq_of rows) ≡ length rows
length-map [] = refl
length-map (t ∷ rows) = omega (arith, length-map rows)

module _ (now : ℕ) (page_id : String) where
  retained :
      (head : ℕ) (recent : List ℕ) (rows : List ThumbnailRow)
      → All
          (λ z. contains_seq (head ∷ recent) z ≡ true)
          (map source_seq_of (
            thumbnails_of page_id
              (retain (λ t. not (is_superseded now page_id head recent t)) rows)))
  retained head recent [] = tt
  retained head recent (t ∷ rows) = ground (arith, retained head recent rows)

  has_thumbnail-retained :
      (head : ℕ) (recent : List ℕ) (rows : List ThumbnailRow)
      → has_thumbnail page_id head
          (retain (λ t. not (is_superseded now page_id head recent t)) rows)
        ≡ has_thumbnail page_id head rows
  has_thumbnail-retained head recent [] = refl
  has_thumbnail-retained head recent (t ∷ rows) =
      ground (arith, has_thumbnail-retained head recent rows)

  retain_comm :
      (p q : ThumbnailRow → Bool) (rows : List ThumbnailRow)
      → retain p (retain q rows) ≡ retain q (retain p rows)
  retain_comm p q [] = refl
  retain_comm p q (t ∷ rows) = ground (arith, retain_comm p q rows)

  retained_bound :
      (head : ℕ) (recent : List ℕ) (rows : List ThumbnailRow)
      → length recent ≤ retention_limit
      → IsDistinct (map source_seq_of (thumbnails_of page_id rows))
      → length
          (thumbnails_of page_id (retain (λ t. not (is_superseded now page_id head recent t)) rows))
        ≤ 11
  retained_bound head recent rows few d =
      let kept =
        thumbnails_of page_id (retain (λ t. not (is_superseded now page_id head recent t)) rows) in
      let kept_distinct : IsDistinct (map source_seq_of kept) =
        subst (λ ts. IsDistinct (map source_seq_of ts))
          (retain_comm (λ t. not (is_superseded now page_id head recent t))
            (λ t. same t.page_id page_id) rows)
          (IsDistinct-retain (λ t. not (is_superseded now page_id head recent t))
            (thumbnails_of page_id rows) d) in
      omega (
        arith,
        few,
        length-map kept,
        pigeonhole (map source_seq_of kept) (head ∷ recent) kept_distinct
            (retained head recent rows),
      )

  module _ {F : Type 0} (db : Db F) (page : PageRow)
      (found : page_row page_id db.pages ≡ some page) where
    recent : List ℕ
    recent = recent_seqs now page_id page.ink_revision db.page_thumbnails

    cleaned : Db F
    unfolding recent
    cleaned = record db {
      page_thumbnails =
          retain (λ t. not (is_superseded now page_id page.ink_revision recent t))
            db.page_thumbnails;
    }

    cleanup_of_found : cleanup now page_id db ≡ cleaned
    unfolding cleanup cleaned
    cleanup_of_found = rw (cleanup, found) refl

    -- After a clean-up a page has at most eleven thumbnails: its current one, and the ten newest of
    -- the others.
    pub length-cleanup :
        IsDistinct (map source_seq_of (thumbnails_of page_id db.page_thumbnails))
        → length (thumbnails_of page_id (cleanup now page_id db).page_thumbnails) ≤ 11
    unfolding cleaned
    length-cleanup d =
        subst (λ (after : Db F). length (thumbnails_of page_id after.page_thumbnails) ≤ 11)
          (sym cleanup_of_found)
          (retained_bound page.ink_revision recent db.page_thumbnails
            (length-take retention_limit _) d)

    cleaned_head :
        (page.ink_revision ≡ 0)
          ⊎ (has_thumbnail page_id page.ink_revision db.page_thumbnails ≡ true)
        → (page.ink_revision ≡ 0)
          ⊎ (has_thumbnail page_id page.ink_revision cleaned.page_thumbnails ≡ true)
    unfolding cleaned
    cleaned_head (inl e) = inl e
    cleaned_head (inr e) =
        inr (has_thumbnail-retained page.ink_revision recent db.page_thumbnails ∙ e)

    -- A clean-up keeps a sound page sound; so the thumbnail of its current revision stays.
    pub cleanup-IsSound :
        IsSound page_id page.ink_revision db
        → IsSound page_id page.ink_revision (cleanup now page_id db)
    unfolding cleaned
    cleanup-IsSound sound =
        subst (IsSound page_id page.ink_revision) (sym cleanup_of_found) (record {
          batch_revisions = sound.batch_revisions;
          serials = sound.serials;
          tombstone_revisions = sound.tombstone_revisions;
          thumbnail_revisions =
              subst (All (λ (t : ThumbnailRow). t.source_seq ≤ page.ink_revision))
                (retain_comm (λ t. not (is_superseded now page_id page.ink_revision recent t))
                  (λ t. same t.page_id page_id) db.page_thumbnails)
                (All-retain _ _ (thumbnails_of page_id db.page_thumbnails)
                  sound.thumbnail_revisions);
          head_thumbnail = cleaned_head sound.head_thumbnail;
        })

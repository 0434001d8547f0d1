-- ===== src/Store/FreshIds.antt =====
-- The ids that `persist_tombstones` inserts: those that are asked for and not erased yet, each once.
use v_note.Base.{
  Distinct, ℕ, ◌≡◌, ◌≢◌, refl, Bool, true, false, not, ◌&&◌, String, contains, contains_self,
  str_dec, List, [], ◌∷◌, ◌++◌, map, ok, arith, retain, any-append, All, append_assoc, append-nil,
  ◌∙◌, sym,
}
use v_note.Base.Sort.{sort, insert, IsSorted, sort-IsSorted}
use v_note.Base.TextOrder.{str_le, str_le-total, str_le_trans, str_le_antisymm}
use v_note.Store.Tables.{StrokeTombstoneRow}
use v_note.Store.Writes.{tombstoned_among}
use v_note.Store.Erasures.{dedup, dedup_after, is_tombstoned, insert_tombstones, fresh_ids}

contains-retain :
    (p : String → Bool) (xs : List String) (a : String)
    → contains (retain p xs) a ≡ (contains xs a && p a)
contains-retain p [] a = refl
contains-retain p (x ∷ xs) a = ground (arith, contains-retain p xs a)

retain-Distinct : (p : String → Bool) (xs : List String) → Distinct xs → Distinct (retain p xs)
retain-Distinct p [] d = tt
retain-Distinct p (x ∷ xs) d = ground (arith, contains-retain p xs x, retain-Distinct p xs d.1)

contains-insert :
    (x : String) (xs : List String) (a : String)
    → contains (insert str_le x xs) a ≡ contains (x ∷ xs) a
contains-insert x [] a = refl
contains-insert x (y ∷ ys) a = ground (arith, contains-insert x ys a)

contains-sort : (xs : List String) (a : String) → contains (sort str_le xs) a ≡ contains xs a
contains-sort [] a = refl
contains-sort (x ∷ xs) a = ground (arith, contains-insert x (sort str_le xs) a, contains-sort xs a)

contains-dedup_after :
    (x : String) (xs : List String) (a : String)
    → contains (x ∷ dedup_after x xs) a ≡ contains (x ∷ xs) a
contains-dedup_after x [] a = refl
contains-dedup_after x (y ∷ ys) a = ground (arith, contains-dedup_after y ys a)

All-dedup_after {ℓ} :
    (P : String → Type ℓ) (x : String) (xs : List String) → All P xs → All P (dedup_after x xs)
All-dedup_after P x [] h = tt
All-dedup_after P x (y ∷ ys) h = ground (arith, All-dedup_after P y ys h.1)

not-contains-above :
    (x y : String) (zs : List String)
    → str_le x y ≡ true
    → x ≢ y
    → All (λ z. str_le y z ≡ true) zs
    → contains zs x ≡ false
not-contains-above x y [] le ne h = refl
not-contains-above x y (z ∷ zs) le ne h = elim (str_dec z x) [
  | yes e ↦ absurd (ne (str_le_antisymm x y le (ground arith)))
  | no e ↦ ground (arith, not-contains-above x y zs le ne h.1)
]

dedup_after-Distinct :
    (x : String) (xs : List String) → IsSorted str_le (x ∷ xs) → Distinct (x ∷ dedup_after x xs)
dedup_after-Distinct x [] s = (refl, tt)
dedup_after-Distinct x (y ∷ ys) s = elim (str_dec y x) [
  | yes e ↦ ground (arith, dedup_after-Distinct y ys s.1)
  | no e ↦ ground (
    arith,
    dedup_after-Distinct y ys s.1,
    not-contains-above x y (dedup_after y ys) s.0.0 (λ p. e (sym p)) (All-dedup_after _ y ys s.1.0),
  )
]

dedup-Distinct : (xs : List String) → IsSorted str_le xs → Distinct (dedup xs)
dedup-Distinct [] s = tt
dedup-Distinct (x ∷ xs) s = dedup_after-Distinct x xs s

contains-dedup : (xs : List String) (a : String) → contains (dedup xs) a ≡ contains xs a
contains-dedup [] a = refl
contains-dedup (x ∷ xs) a = contains-dedup_after x xs a

pub contains-tombstoned_among :
    (page_id : String) (ids : List String) (rows : List StrokeTombstoneRow) (a : String)
    → contains (tombstoned_among page_id ids rows) a
      ≡ (is_tombstoned page_id a rows && contains ids a)
contains-tombstoned_among page_id ids [] a = refl
contains-tombstoned_among page_id ids (r ∷ rows) a =
    ground (arith, contains-tombstoned_among page_id ids rows a)

module _ (page_id : String) where
  pub fresh_ids-Distinct :
      (requested : List String) (rows : List StrokeTombstoneRow)
      → Distinct (fresh_ids page_id requested rows)
  unfolding fresh_ids
  fresh_ids-Distinct requested rows = retain-Distinct _ (dedup (sort str_le requested)) (
      dedup-Distinct (sort str_le requested)
        (sort-IsSorted str_le str_le-total str_le_trans requested))

  -- An id is inserted exactly where it is requested and not yet tombstoned.
  pub contains-fresh_ids :
      (requested : List String) (rows : List StrokeTombstoneRow) (a : String)
      → contains (fresh_ids page_id requested rows) a
        ≡ (contains requested a && not (is_tombstoned page_id a rows))
  unfolding fresh_ids
  contains-fresh_ids requested rows a =
      let ids = dedup (sort str_le requested) in
      ground (
        arith,
        contains-retain (λ id. not (contains (tombstoned_among page_id ids rows) id)) ids a,
        contains-dedup (sort str_le requested) a,
        contains-sort requested a,
        contains-tombstoned_among page_id ids rows a,
      )

  abbrev pub tombstone_row : ℕ → String → StrokeTombstoneRow
  tombstone_row revision id = record {
    page_id = page_id;
    stroke_id = id;
    deleted_revision = revision;
  }

  abbrev NoneTombstoned : List String → List StrokeTombstoneRow → Type 0
  NoneTombstoned ids rows = All (λ id. is_tombstoned page_id id rows ≡ false) ids

  NoneTombstoned-append :
      (revision : ℕ) (id : String) (ids : List String) (rows : List StrokeTombstoneRow)
      → contains ids id ≡ false
      → NoneTombstoned ids rows
      → NoneTombstoned ids (rows ++ tombstone_row revision id ∷ [])
  NoneTombstoned-append revision id [] rows d h = tt
  NoneTombstoned-append revision id (x ∷ ids) rows d h =
      (rw any-append (ground arith), NoneTombstoned-append revision id ids rows (ground arith) h.1)

  -- The inserts do not fail, and add one row for each id.
  pub insert_tombstones-ok :
      (revision : ℕ) (ids : List String) (rows : List StrokeTombstoneRow)
      → Distinct ids
      → NoneTombstoned ids rows
      → insert_tombstones page_id revision ids rows ≡ ok (rows ++ map (tombstone_row revision) ids)
  unfolding insert_tombstones
  insert_tombstones-ok revision [] rows d h = simp append-nil
  insert_tombstones-ok revision (id ∷ ids) rows d h = rw h.0 (
      insert_tombstones-ok revision ids (rows ++ tombstone_row revision id ∷ []) d.1
        (NoneTombstoned-append revision id ids rows d.0 h.1)
      ∙ simp append_assoc)

  All-of_contains {κ} :
      (P : String → Type κ) (ids : List String)
      → ((a : String) → contains ids a ≡ true → P a)
      → All P ids
  All-of_contains P [] h = tt
  All-of_contains P (id ∷ ids) h =
      (h id (contains_self id ids), All-of_contains P ids (λ a m. h a (ground (arith, m))))

  pub insert_tombstones-fresh_ids :
      (revision : ℕ) (requested : List String) (rows : List StrokeTombstoneRow)
      → let ids = fresh_ids page_id requested rows in
        insert_tombstones page_id revision ids rows ≡ ok (rows ++ map (tombstone_row revision) ids)
  insert_tombstones-fresh_ids revision requested rows =
      let ids = fresh_ids page_id requested rows in
      insert_tombstones-ok revision ids rows (fresh_ids-Distinct requested rows)
        (All-of_contains _ ids (λ a m. ground (arith, m, contains-fresh_ids requested rows a)))

-- ===== src/Viewer/Resumes.antt =====
-- What a replay that starts where the viewer of frontend/src/viewer.rs stopped adds to it.
use v_note.Base.{
  ℕ, ◌≡◌, refl, true, List, [], ◌∷◌, ◌++◌, arith, All, ltb, String, contains, contains-append, ◌∙◌,
  ap, ap₂, sym, append_assoc, append-nil, map-append, Bool-cases, inl, inr, subst,
}
use v_note.Protocol.Messages.{StrokeBatch, TombstoneBatch, page_replay}
use v_note.Dispatch.Replay.{build_page_replay, deleted_ids}
use v_note.Viewer.{
  Viewer, insert_batch, insert_batches, retain_surviving, apply_page_event, tombstoned_ids,
}
use v_note.Viewer.Ordered.{Rises, insert_batch-cases}
use v_note.Viewer.Replays.{retain_surviving-retain_surviving, retain_surviving_congr}

deleted_ids-tombstoned_ids : (ts : List TombstoneBatch) → tombstoned_ids ts ≡ deleted_ids ts
unfolding tombstoned_ids
deleted_ids-tombstoned_ids [] = refl
deleted_ids-tombstoned_ids (t ∷ ts) = ap (◌++◌ t.stroke_ids) (deleted_ids-tombstoned_ids ts)

contains-append_absorbed :
    (xs ys : List String)
    → ((a : String) → contains xs a ≡ true → contains ys a ≡ true)
    → (a : String) → contains (xs ++ ys) a ≡ contains ys a
contains-append_absorbed xs ys h a = elim (Bool-cases (contains xs a)) [
  | inl e ↦ ground (arith, contains-append xs ys a, h a e)
  | inr e ↦ ground (arith, contains-append xs ys a)
]

module _ {F : Type 0} where
  insert_batch-above :
      (batch : StrokeBatch F) (items : List (StrokeBatch F))
      → All (λ x. ltb x.seq batch.seq ≡ true) items
      → insert_batch batch items ≡ items ++ batch ∷ []
  unfolding insert_batch
  insert_batch-above batch [] h = refl
  insert_batch-above batch (item ∷ items) h = elim (insert_batch-cases batch item items) [
    | inl (e, at) ↦ absurd (ground arith)
    | inr (inl (lt, at)) ↦ absurd (ground arith)
    | inr (inr (gt, at)) ↦ at ∙ ap (◌∷◌ item) (insert_batch-above batch items h.1)
  ]

  below-Rises :
      (batch : StrokeBatch F) (items later : List (StrokeBatch F))
      → Rises (items ++ batch ∷ later)
      → All (λ x. ltb x.seq batch.seq ≡ true) items
  below-Rises batch [] later h = tt
  below-Rises batch (item ∷ items) later h = (All-head items h.0, below-Rises batch items later h.1)
    where
      All-head :
          (xs : List (StrokeBatch F))
          → All (λ x. ltb item.seq x.seq ≡ true) (xs ++ batch ∷ later)
          → ltb item.seq batch.seq ≡ true
      All-head [] k = k.0
      All-head (x ∷ xs) k = All-head xs k.1

  -- Batches that continue those on screen are appended.
  insert_batches-Rises :
      (bs items : List (StrokeBatch F))
      → Rises (items ++ bs)
      → insert_batches bs items ≡ items ++ bs
  unfolding insert_batches
  insert_batches-Rises [] items h = sym (append-nil items)
  insert_batches-Rises (b ∷ bs) items h =
      let e = append_assoc items (b ∷ []) bs in
      ap (insert_batches bs) (insert_batch-above b items (below-Rises b items bs h))
      ∙ (insert_batches-Rises bs (items ++ b ∷ []) (subst Rises (sym e) h) ∙ e)

  Above-retain_surviving :
      (n : ℕ) (xs ys : List String) (items later : List (StrokeBatch F))
      → All (λ b. ltb n b.seq ≡ true) (items ++ later)
      → All (λ b. ltb n b.seq ≡ true) (retain_surviving xs items ++ retain_surviving ys later)
  unfolding retain_surviving
  Above-retain_surviving n xs ys [] [] h = tt
  Above-retain_surviving n xs ys [] (b ∷ later) h =
      (h.0, Above-retain_surviving n xs ys [] later h.1)
  Above-retain_surviving n xs ys (b ∷ items) later h =
      (h.0, Above-retain_surviving n xs ys items later h.1)

  Rises-retain_surviving :
      (xs ys : List String) (items later : List (StrokeBatch F))
      → Rises (items ++ later)
      → Rises (retain_surviving xs items ++ retain_surviving ys later)
  unfolding retain_surviving
  Rises-retain_surviving xs ys [] [] h = tt
  Rises-retain_surviving xs ys [] (b ∷ later) h =
      (Above-retain_surviving b.seq xs ys [] later h.0, Rises-retain_surviving xs ys [] later h.1)
  Rises-retain_surviving xs ys (b ∷ items) later h = (
    Above-retain_surviving b.seq xs ys items later h.0,
    Rises-retain_surviving xs ys items later h.1,
  )

  retain_surviving-append :
      (xs : List String) (items later : List (StrokeBatch F))
      → retain_surviving xs (items ++ later)
        ≡ retain_surviving xs items ++ retain_surviving xs later
  unfolding retain_surviving
  retain_surviving-append xs items later = map-append _ items later

  -- Reconnecting loses nothing and brings nothing back: a viewer that shows the first batches of a
  -- page, less strokes that are erased by now, shows after the replay of the others every batch of
  -- the page, less every erased stroke.
  pub apply_page_event-resumes :
      (page_id : String) (head : ℕ) (seen : List String) (shown missed : List (StrokeBatch F))
      (ts : List TombstoneBatch) (v : Viewer F)
      → v.batches ≡ retain_surviving seen shown
      → ((a : String) → contains seen a ≡ true → contains (deleted_ids ts) a ≡ true)
      → Rises (shown ++ missed)
      → (apply_page_event (page_replay (build_page_replay page_id head missed ts)) v).batches
        ≡ retain_surviving (deleted_ids ts) (shown ++ missed)
  unfolding apply_page_event build_page_replay retain_surviving
  apply_page_event-resumes page_id head seen shown missed ts v screen erased rises =
      let d = deleted_ids ts in
      let old = retain_surviving seen shown in
      let new = retain_surviving d missed in
      let rises' = Rises-retain_surviving seen d shown missed rises in
      ap₂ (λ ids items. retain_surviving ids (insert_batches new items))
        (deleted_ids-tombstoned_ids ts) screen
      ∙ (ap (retain_surviving d) (insert_batches-Rises new old rises')
          ∙ (retain_surviving-append d old new
              ∙ (ap₂ (◌++◌)
                    (retain_surviving-retain_surviving seen d shown
                      ∙ retain_surviving_congr (seen ++ d) d shown
                          (contains-append_absorbed seen d erased))
                    (retain_surviving-retain_surviving d d missed
                      ∙ retain_surviving_congr (d ++ d) d missed
                          (contains-append_absorbed d d (λ a e. e)))
                  ∙ sym (retain_surviving-append d shown missed))))

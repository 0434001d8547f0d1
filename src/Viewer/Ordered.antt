-- ===== src/Viewer/Ordered.antt =====
-- The viewer's batches rise by `seq`, whatever arrives, as the binary search of frontend/src/viewer.rs
-- needs.
use v_note.Base.{
  ℕ, ◌≡◌, refl, true, List, [], ◌∷◌, some, arith, All, All-map, ltb, ◌==◌, find, if◌then◌else◌,
  String, ℕ_discrete, dec_lt, ◌⊎◌, inl, inr, ◌<◌,
}
use v_note.Base.Sort.{IsSorted}
use v_note.Protocol.Messages.{
  PageServerMessage, StrokeBatch, welcome, stroke_batch, page_replay, tombstone_batch, synced,
  paper_changed, lease_granted, lease_denied, lease_changed,
}
use v_note.Viewer.{
  Viewer, insert_batch, insert_batches, retain_surviving, apply_page_event, apply_page_events,
}

module _ {F : Type 0} where
  abbrev pub Rises : List (StrokeBatch F) → Type 0
  Rises = IsSorted (λ a b. ltb a.seq b.seq)

  -- Where a batch goes: it takes its serial's place, or stands before the first larger one.
  pub insert_batch-cases :
      (batch item : StrokeBatch F) (items : List (StrokeBatch F))
      → ((item.seq ≡ batch.seq) × (insert_batch batch (item ∷ items) ≡ batch ∷ items))
        ⊎ ((batch.seq < item.seq) × (insert_batch batch (item ∷ items) ≡ batch ∷ item ∷ items))
        ⊎ ((item.seq < batch.seq)
            × (insert_batch batch (item ∷ items) ≡ item ∷ insert_batch batch items))
  unfolding insert_batch
  insert_batch-cases batch item items = elim (ℕ_discrete item.seq batch.seq) [
    | yes e ↦ inl (e, ground arith)
    | no ne ↦ elim (dec_lt batch.seq item.seq) [
      | yes lt ↦ inr (inl (lt, ground arith))
      | no ge ↦ inr (inr (omega arith, ground arith))
    ]
  ]

  pub insert_batch-All {κ} :
      (P : StrokeBatch F → Type κ) (batch : StrokeBatch F) (items : List (StrokeBatch F))
      → P batch
      → All P items
      → All P (insert_batch batch items)
  unfolding insert_batch
  insert_batch-All P batch [] p h = (p, tt)
  insert_batch-All P batch (item ∷ items) p h = elim (insert_batch-cases batch item items) [
    | inl (e, at) ↦ rw at (p, h.1)
    | inr (inl (lt, at)) ↦ rw at (p, h)
    | inr (inr (gt, at)) ↦ rw at (h.0, insert_batch-All P batch items p h.1)
  ]

  pub insert_batch-Rises :
      (batch : StrokeBatch F) (items : List (StrokeBatch F))
      → Rises items
      → Rises (insert_batch batch items)
  unfolding insert_batch
  insert_batch-Rises batch [] h = (tt, tt)
  insert_batch-Rises batch (item ∷ items) h = elim (insert_batch-cases batch item items) [
    | inl (e, at) ↦ rw at (All-map _ _ items (λ x lt. ground arith) h.0, h.1)
    | inr (inl (lt, at)) ↦
        rw at ((ground arith, All-map _ _ items (λ x above. ground arith) h.0), h)
    | inr (inr (gt, at)) ↦ rw at (
      insert_batch-All (λ x. ltb item.seq x.seq ≡ true) batch items (ground arith) h.0,
      insert_batch-Rises batch items h.1,
    )
  ]

  insert_batches-Rises :
      (batches items : List (StrokeBatch F)) → Rises items → Rises (insert_batches batches items)
  unfolding insert_batches
  insert_batches-Rises [] items h = h
  insert_batches-Rises (batch ∷ batches) items h =
      insert_batches-Rises batches (insert_batch batch items) (insert_batch-Rises batch items h)

  All-retain_surviving :
      (n : ℕ) (removed : List String) (items : List (StrokeBatch F))
      → All (λ b. ltb n b.seq ≡ true) items
      → All (λ b. ltb n b.seq ≡ true) (retain_surviving removed items)
  unfolding retain_surviving
  All-retain_surviving n removed [] h = tt
  All-retain_surviving n removed (item ∷ items) h = (h.0, All-retain_surviving n removed items h.1)

  retain_surviving-Rises :
      (removed : List String) (items : List (StrokeBatch F))
      → Rises items
      → Rises (retain_surviving removed items)
  unfolding retain_surviving
  retain_surviving-Rises removed [] h = tt
  retain_surviving-Rises removed (item ∷ items) h =
      (All-retain_surviving item.seq removed items h.0, retain_surviving-Rises removed items h.1)

  pub apply_page_event-Rises :
      (event : PageServerMessage F) (v : Viewer F)
      → Rises v.batches
      → Rises (apply_page_event event v).batches
  unfolding apply_page_event
  apply_page_event-Rises (stroke_batch batch) v h = insert_batch-Rises batch v.batches h
  apply_page_event-Rises (page_replay replay) v h =
      retain_surviving-Rises _ _ (insert_batches-Rises replay.batches v.batches h)
  apply_page_event-Rises (tombstone_batch tombstones) v h = retain_surviving-Rises _ v.batches h
  apply_page_event-Rises (welcome session_id seq holder paper) v h = h
  apply_page_event-Rises (synced seq) v h = h
  apply_page_event-Rises lease_granted v h = h
  apply_page_event-Rises (lease_denied holder) v h = h
  apply_page_event-Rises (paper_changed paper revision) v h = h
  apply_page_event-Rises (lease_changed holder) v h = h
  apply_page_event-Rises (PageServerMessage.error code message mutation_id) v h = h

  -- Whatever messages arrive and in whatever order, the viewer's batches rise by `seq`, so that no
  -- seq is there twice and the binary search finds its place.
  apply_page_events-Rises :
      (events : List (PageServerMessage F)) (v : Viewer F)
      → Rises v.batches
      → Rises (apply_page_events events v).batches
  unfolding apply_page_events
  apply_page_events-Rises [] v h = h
  apply_page_events-Rises (event ∷ events) v h =
      apply_page_events-Rises events (apply_page_event event v) (apply_page_event-Rises event v h)

  -- A batch that arrives is the one found at its seq, and every other seq shows what it did.
  pub find-insert_batch :
      (seq : ℕ) (batch : StrokeBatch F) (items : List (StrokeBatch F))
      → Rises items
      → find (λ b. b.seq == seq) (insert_batch batch items)
        ≡ (if batch.seq == seq then some batch else find (λ b. b.seq == seq) items)
  unfolding insert_batch
  find-insert_batch seq batch [] h = refl
  find-insert_batch seq batch (item ∷ items) h = elim (insert_batch-cases batch item items) [
    | inl (e, at) ↦ rw at (ground arith)
    | inr (inl (lt, at)) ↦ rw at (ground arith)
    | inr (inr (gt, at)) ↦ rw at (ground (arith, find-insert_batch seq batch items h.1))
  ]

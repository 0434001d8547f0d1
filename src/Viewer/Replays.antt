-- ===== src/Viewer/Replays.antt =====
-- What the replays of crates/server/src/realtime/dispatch.rs, coalesced or not, leave in the viewer of
-- frontend/src/viewer.rs.
use v_note.Base.{
  ℕ, ◌≤◌, ◌≡◌, refl, not, ◌&&◌, List, [], ◌∷◌, ◌++◌, none, arith, All, map, String, contains,
  contains-append, retain, retain-retain, retain_congr, max, ◌∙◌, ap, ap₂, sym, append-nil,
}
use v_note.Protocol.Ink.{Stroke}
use v_note.Protocol.Messages.{
  PageServerMessage, StrokeBatch, TombstoneBatch, stroke_batch, page_replay, tombstone_batch,
  synced,
}
use v_note.Dispatch.Replay.{build_page_replay, replay_frames, deleted_ids, surviving}
use v_note.Viewer.{
  Viewer, insert_batches, retain_surviving, apply_page_event, apply_page_events, tombstoned_ids,
}

module _ {F : Type 0} where
  apply_page_events-append :
      (xs ys : List (PageServerMessage F)) (v : Viewer F)
      → apply_page_events (xs ++ ys) v ≡ apply_page_events ys (apply_page_events xs v)
  unfolding apply_page_events
  apply_page_events-append [] ys v = refl
  apply_page_events-append (x ∷ xs) ys v = apply_page_events-append xs ys (apply_page_event x v)

  -- A batch with other strokes, before other batches.
  abbrev with_strokes :
      StrokeBatch F → List (Stroke F) → List (StrokeBatch F) → List (StrokeBatch F)
  with_strokes item strokes items = record item { strokes = strokes } ∷ items

  retain-none : (strokes : List (Stroke F)) → retain (λ s. not (contains [] s.id)) strokes ≡ strokes
  retain-none [] = refl
  retain-none (s ∷ strokes) = ap (◌∷◌ s) (retain-none strokes)

  retain_surviving-[] : (items : List (StrokeBatch F)) → retain_surviving [] items ≡ items
  unfolding retain_surviving
  retain_surviving-[] [] = refl
  retain_surviving-[] (item ∷ items) =
      ap₂ (with_strokes item) (retain-none item.strokes) (retain_surviving-[] items)

  pub retain_surviving-retain_surviving :
      (xs ys : List String) (items : List (StrokeBatch F))
      → retain_surviving ys (retain_surviving xs items) ≡ retain_surviving (xs ++ ys) items
  unfolding retain_surviving
  retain_surviving-retain_surviving xs ys [] = refl
  retain_surviving-retain_surviving xs ys (item ∷ items) =
      ap₂ (with_strokes item)
        (retain-retain _ _ item.strokes
          ∙ retain_congr (λ s. not (contains xs s.id) && not (contains ys s.id))
              (λ s. not (contains (xs ++ ys) s.id)) item.strokes
              (λ s. ground (arith, contains-append xs ys s.id)))
        (retain_surviving-retain_surviving xs ys items)

  pub retain_surviving_congr :
      (xs ys : List String) (items : List (StrokeBatch F))
      → ((a : String) → contains xs a ≡ contains ys a)
      → retain_surviving xs items ≡ retain_surviving ys items
  unfolding retain_surviving
  retain_surviving_congr xs ys [] h = refl
  retain_surviving_congr xs ys (item ∷ items) h =
      ap₂ (with_strokes item) (retain_congr _ _ item.strokes (λ s. ap not (h s.id)))
        (retain_surviving_congr xs ys items h)

  -- What stroke batches leave, and what erasures leave.
  after_strokes :
      (deleted : List String) (head : ℕ) (bs : List (StrokeBatch F)) (v : Viewer F)
      → All (λ b. b.seq ≤ head) bs
      → let w = apply_page_events (map (λ b. stroke_batch (surviving deleted b)) bs) v in
        (w.batches ≡ insert_batches (map (surviving deleted) bs) v.batches)
        × (max w.last_seq head ≡ max v.last_seq head)
        × (w.paper ≡ v.paper)
  unfolding apply_page_events apply_page_event insert_batches
  after_strokes deleted head [] v h = (refl, refl, refl)
  after_strokes deleted head (b ∷ bs) v h =
      let (batches, last, paper) =
        after_strokes deleted head bs (apply_page_event (stroke_batch (surviving deleted b)) v)
          h.1 in
      (batches, omega (arith, last, h.0), paper)

  after_erasures :
      (ts : List TombstoneBatch) (v : Viewer F)
      → let w = apply_page_events (map tombstone_batch ts) v in
        (w.batches ≡ retain_surviving (tombstoned_ids ts) v.batches)
        × (w.last_seq ≡ v.last_seq)
        × (w.paper ≡ v.paper)
  unfolding apply_page_events apply_page_event tombstoned_ids
  after_erasures [] v = (sym (retain_surviving-[] v.batches), refl, refl)
  after_erasures (t ∷ ts) v =
      let (batches, last, paper) = after_erasures ts (apply_page_event (tombstone_batch t) v) in
      (
        batches
            ∙ (retain_surviving-retain_surviving (t.stroke_ids ++ []) (tombstoned_ids ts) v.batches
                ∙ ap (λ (ids : List String). retain_surviving (ids ++ tombstoned_ids ts) v.batches)
                    (append-nil t.stroke_ids)),
        last,
        paper,
      )

  -- The two ways to send a replay come to the same: whatever is on screen, the single `page_replay`
  -- frame leaves the viewer that the stroke batches, the erasures and the final `synced` leave one
  -- by one, where no batch is beyond the head `seq`.
  pub apply_page_event-page_replay :
      (page_id : String) (head : ℕ) (bs : List (StrokeBatch F)) (ts : List TombstoneBatch)
      (v : Viewer F)
      → All (λ b. b.seq ≤ head) bs
      → apply_page_events (replay_frames bs ts ++ synced head ∷ []) v
        ≡ apply_page_event (page_replay (build_page_replay page_id head bs ts)) v
  unfolding apply_page_events apply_page_event build_page_replay
  apply_page_event-page_replay page_id head bs ts v h =
      let strokes = map (λ b. stroke_batch (surviving (deleted_ids ts) b)) bs in
      let erasures = map tombstone_batch ts in
      let w = apply_page_events strokes v in
      let (b1, l1, p1) = after_strokes (deleted_ids ts) head bs v h in
      let (b2, l2, p2) = after_erasures ts w in
      let batches = b2 ∙ ap (retain_surviving (tombstoned_ids ts)) b1 in
      let last = ap (λ (n : ℕ). max n head) l2 ∙ l1 in
      let paper = p2 ∙ p1 in
      apply_page_events-append (strokes ++ erasures) (synced head ∷ []) v
      ∙ (ap (apply_page_event (synced head)) (apply_page_events-append strokes erasures v) ∙ λ i.
          record {
            batches = batches i;
            status = "Synced";
            error = none;
            last_seq = last i;
            paper = paper i;
          })

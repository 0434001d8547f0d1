-- ===== src/Viewer.antt =====
-- The SPA's read-only viewer of a page, frontend/src/viewer.rs: the reducer that applies a message
-- of the page channel to what is on screen. Marks for the browser tests and logs are left out.
pub mod Ordered
pub mod Realtime
pub mod Replays
pub mod Resumes
pub mod Converges
mod Tests
use v_note.Base.{
  ℕ, zero, suc, ◌+◌, Bool, true, false, not, String, contains, List, [], ◌∷◌, ◌++◌, map, Option,
  none, some, Result, ok, err, retain, min, max, ltb, ◌==◌, if◌then◌else◌,
}
use v_note.Protocol.Paper.{Paper}
use v_note.Protocol.Messages.{
  PageServerMessage, StrokeBatch, TombstoneBatch, welcome, stroke_batch, page_replay,
  tombstone_batch, synced, paper_changed, error,
}

-- The signals that a page event changes.
pub record Viewer (F : Type 0) : Type 0 where
  pub batches : List (StrokeBatch F)
  pub status : String
  pub error : Option String
  pub last_seq : ℕ
  pub paper : Paper

abbrev shifted : Result ℕ ℕ → Result ℕ ℕ
shifted (ok i) = ok (suc i)
shifted (err i) = err (suc i)

abbrev set_at {ℓ} : {A : Type ℓ} → ℕ → A → List A → List A
set_at i a [] = []
set_at zero a (x ∷ xs) = a ∷ xs
set_at (suc i) a (x ∷ xs) = x ∷ set_at i a xs

abbrev insert_at {ℓ} : {A : Type ℓ} → ℕ → A → List A → List A
insert_at zero a xs = a ∷ xs
insert_at (suc i) a [] = a ∷ []
insert_at (suc i) a (x ∷ xs) = x ∷ insert_at i a xs

unfoldable pub next_viewer_paper : {F : Type 0} → Paper → PageServerMessage F → Paper
next_viewer_paper current (welcome session_id last_seq holder paper) = paper
next_viewer_paper current (paper_changed paper revision) = paper
next_viewer_paper current _ = current

unfoldable pub tombstoned_ids : List TombstoneBatch → List String
tombstoned_ids [] = []
tombstoned_ids (batch ∷ batches) = batch.stroke_ids ++ tombstoned_ids batches

module _ {F : Type 0} where
  -- What `binary_search_by_key` answers on a list that rises by `seq`: where the seq is, or where
  -- it belongs.
  abbrev pub search_by_seq : ℕ → List (StrokeBatch F) → Result ℕ ℕ
  search_by_seq seq [] = err 0
  search_by_seq seq (item ∷ items) =
      let rest = shifted (search_by_seq seq items) in
      if item.seq == seq then ok 0 else if ltb seq item.seq then err 0 else rest

  unfoldable pub insert_batch : StrokeBatch F → List (StrokeBatch F) → List (StrokeBatch F)
  insert_batch batch items = elim (search_by_seq batch.seq items) [
    | ok index ↦ set_at index batch items
    | err index ↦ insert_at index batch items
  ]

  abbrev retain_strokes : List String → StrokeBatch F → StrokeBatch F
  retain_strokes removed batch = record batch {
    strokes = retain (λ stroke. not (contains removed stroke.id)) batch.strokes;
  }

  unfoldable pub retain_surviving : List String → List (StrokeBatch F) → List (StrokeBatch F)
  retain_surviving removed items = map (retain_strokes removed) items

  unfoldable pub insert_batches : List (StrokeBatch F) → List (StrokeBatch F) → List (StrokeBatch F)
  insert_batches [] items = items
  insert_batches (batch ∷ batches) items = insert_batches batches (insert_batch batch items)

  abbrev apply_message : PageServerMessage F → Viewer F → Viewer F
  apply_message (welcome session_id seq holder paper) v = record v {
    status = "Connected";
    last_seq = min seq v.last_seq;
  }
  apply_message (stroke_batch batch) v = record v {
    batches = insert_batch batch v.batches;
    last_seq = max v.last_seq batch.seq;
    status = "Live";
    error = none;
  }
  apply_message (page_replay replay) v = record v {
    batches =
        retain_surviving (tombstoned_ids replay.tombstones)
          (insert_batches replay.batches v.batches);
    last_seq = max v.last_seq replay.last_seq;
    status = "Synced";
    error = none;
  }
  apply_message (synced seq) v = record v {
    last_seq = max v.last_seq seq;
    status = "Synced";
    error = none;
  }
  apply_message (tombstone_batch tombstones) v = record v {
    batches = retain_surviving (tombstoned_ids (tombstones ∷ [])) v.batches;
    status = "Live";
  }
  apply_message (PageServerMessage.error code message mutation_id) v = record v {
    error = some message;
  }
  apply_message _ v = v

  unfoldable pub apply_page_event : PageServerMessage F → Viewer F → Viewer F
  unfolding insert_batch insert_batches retain_surviving tombstoned_ids next_viewer_paper
  apply_page_event event v =
      let paper = next_viewer_paper v.paper event in
      apply_message event (record v { paper = paper })

  unfoldable pub apply_page_events : List (PageServerMessage F) → Viewer F → Viewer F
  unfolding apply_page_event
  apply_page_events [] v = v
  apply_page_events (event ∷ events) v = apply_page_events events (apply_page_event event v)

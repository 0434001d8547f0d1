-- ===== src/Dispatch/Replay.antt =====
-- `replay_page` of crates/server/src/realtime/dispatch.rs. Each handler returns the state it leaves and
-- whether the socket stays open. Logs and metrics are left out, but for what a replay cost.
use v_note.Base.{
  ℕ, Bool, true, false, not, String, contains, List, [], ◌∷◌, ◌++◌, map, Option, none, some, Result,
  ok, err, retain, if◌then◌else◌,
}
use v_note.Protocol.Messages.{
  PageServerMessage, PageReplay, StrokeBatch, TombstoneBatch, stroke_batch, page_replay,
  tombstone_batch, synced, error,
}
use v_note.Dispatch.Context.{
  PageStore, PageContext, ReplayCost, add_frame, World, Socket, send_page, send_page_frame,
}

abbrev pub deleted_ids : List TombstoneBatch → List String
deleted_ids [] = []
deleted_ids (batch ∷ batches) = batch.stroke_ids ++ deleted_ids batches

module _ {F : Type 0} where
  abbrev pub surviving : List String → StrokeBatch F → StrokeBatch F
  surviving deleted batch = record batch {
    strokes = retain (λ s. not (contains deleted s.id)) batch.strokes;
  }

  unfoldable pub build_page_replay :
      String → ℕ → List (StrokeBatch F) → List TombstoneBatch → PageReplay F
  build_page_replay page_id last_seq batches tombstones = record {
    page_id = page_id;
    last_seq = last_seq;
    batches = map (surviving (deleted_ids tombstones)) batches;
    tombstones = tombstones;
  }

  -- The frames of the uncoalesced replay, before the `synced` that ends it.
  abbrev pub replay_frames : List (StrokeBatch F) → List TombstoneBatch → List (PageServerMessage F)
  replay_frames batches tombstones =
      map (λ b. stroke_batch (surviving (deleted_ids tombstones) b)) batches
      ++ map tombstone_batch tombstones

module _ {F S : Type 0} (socket : Socket F) where
  -- A run of sends that ends at the first that fails, and what it cost.
  unfoldable pub send_frames :
      List (PageServerMessage F) → ReplayCost → World F S → World F S × Option ReplayCost
  unfolding send_page_frame
  send_frames [] cost w = (w, some cost)
  send_frames (frame ∷ frames) cost w = elim (socket w.sent frame) [
    | none ↦ (w, none)
    | some bytes ↦
        send_frames frames (add_frame cost bytes) (record w { sent = w.sent ++ frame ∷ [] })
  ]

  abbrev pub record_replay : World F S × Option ReplayCost → World F S × Bool
  record_replay (w, none) = (w, false)
  record_replay (w, some cost) = (record w { replays = w.replays ++ cost ∷ [] }, true)

module _ {F : Type 0} (store : PageStore F) (socket : Socket F) (ctx : PageContext) where
  abbrev or_from {ℓ} : {E : Type ℓ} → Result ℕ E → ℕ → ℕ
  or_from (ok seq) from_seq = seq
  or_from (err e) from_seq = from_seq

  abbrev pub replay_messages :
      ℕ → List (StrokeBatch F) → List TombstoneBatch → List (PageServerMessage F)
  replay_messages last_seq batches tombstones =
      if ctx.coalesce_replay
      then page_replay (build_page_replay ctx.page_id last_seq batches tombstones) ∷ []
      else replay_frames batches tombstones ++ synced last_seq ∷ []

  unfoldable pub replay_page : ℕ → World F store.State → World F store.State × Bool
  unfolding send_frames build_page_replay
  replay_page from_seq w = elim (store.load_page_replay ctx.page_id from_seq w.store) [
    | err e ↦ send_page socket (error "replay_failed" "could not load page ink" none) w
    | ok (batches, tombstones) ↦
        let last_seq = or_from (store.max_seq ctx.page_id w.store) from_seq in
        record_replay socket (
          send_frames socket (replay_messages last_seq batches tombstones)
            (record { frames = 0; bytes = 0 }) w)
  ]

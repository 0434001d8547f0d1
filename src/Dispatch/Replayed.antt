-- ===== src/Dispatch/Replayed.antt =====
-- What `replay_page` of crates/server/src/realtime/dispatch.rs puts on the socket.
use v_note.Base.{
  any, contains, retain, map, not, String, true, false, ℕ, ◌≡◌, refl, Bool, ◌∙◌, ap, List, Option,
  none, some, is_empty, [], ◌∷◌, ◌++◌, sym, subst, append_assoc, append-nil,
}
use v_note.Protocol.Messages.{
  PageServerMessage, StrokeBatch, TombstoneBatch, stroke_batch, tombstone_batch, synced,
  page_replay,
}
use v_note.Dispatch.Context.{World, Socket, ReplayCost, add_frame}
use v_note.Dispatch.Replay.{send_frames, record_replay}

-- How far a run of frames got: those on the socket are the first of them, in order.
pub record SentAsFarAs {F S : Type 0} (w : World F S) (frames : List (PageServerMessage F))
    (w' : World F S) (complete : Bool) : Type 0 where
  pub delivered : List (PageServerMessage F)
  pub missed : List (PageServerMessage F)
  pub split : frames ≡ delivered ++ missed
  pub sent : w'.sent ≡ w.sent ++ delivered
  pub complete' : complete ≡ is_empty missed
  pub hub : w'.hub ≡ w.hub
  pub store : w'.store ≡ w.store
  pub queued : w'.queued ≡ w.queued

module _ {F S : Type 0} (socket : Socket F) where
  send_frames-none :
      (frame : PageServerMessage F) (frames : List (PageServerMessage F)) (cost : ReplayCost)
      (w : World F S)
      → socket w.sent frame ≡ none
      → send_frames socket (frame ∷ frames) cost w ≡ (w, none)
  unfolding send_frames
  send_frames-none frame frames cost w e = rw (send_frames, e)

  send_frames-some :
      (frame : PageServerMessage F) (frames : List (PageServerMessage F)) (cost : ReplayCost)
      (w : World F S) {bytes : ℕ}
      → socket w.sent frame ≡ some bytes
      → send_frames socket (frame ∷ frames) cost w
        ≡ send_frames socket frames
            (add_frame cost bytes)
            (record w { sent = w.sent ++ frame ∷ [] })
  unfolding send_frames
  send_frames-some frame frames cost w e = rw (send_frames, e)

  pub send_frames-SentAsFarAs :
      (frames : List (PageServerMessage F)) (cost : ReplayCost) (w : World F S)
      → let (w', complete) = record_replay socket (send_frames socket frames cost w) in
        SentAsFarAs w frames w' complete
  unfolding send_frames
  send_frames-SentAsFarAs [] cost w = record {
    delivered = [];
    missed = [];
    split = refl;
    sent = sym (append-nil w.sent);
    complete' = refl;
    hub = refl;
    store = refl;
    queued = refl;
  }
  send_frames-SentAsFarAs (frame ∷ frames) cost w = by_size (socket w.sent frame) refl (λ bytes.
      send_frames-SentAsFarAs frames (add_frame cost bytes)
        (record w { sent = w.sent ++ frame ∷ [] }))
    where
      by_size :
          (size : Option ℕ)
          → socket w.sent frame ≡ size
          → ((bytes : ℕ)
              → let (w', complete) = record_replay socket (
                  send_frames socket frames
                    (add_frame cost bytes)
                    (record w { sent = w.sent ++ frame ∷ [] })) in
                SentAsFarAs (record w { sent = w.sent ++ frame ∷ [] }) frames w' complete)
          → let (w', complete) =
              record_replay socket (send_frames socket (frame ∷ frames) cost w) in
            SentAsFarAs w (frame ∷ frames) w' complete
      by_size none e next =
          subst
            (λ r.
              SentAsFarAs w (frame ∷ frames) (record_replay socket r).0 (record_replay socket r).1)
            (sym (send_frames-none frame frames cost w e))
            (record {
              delivered = [];
              missed = frame ∷ frames;
              split = refl;
              sent = sym (append-nil w.sent);
              complete' = refl;
              hub = refl;
              store = refl;
              queued = refl;
            })
      by_size (some bytes) e next =
          let rest = next bytes in
          subst
            (λ r.
              SentAsFarAs w (frame ∷ frames) (record_replay socket r).0 (record_replay socket r).1)
            (sym (send_frames-some frame frames cost w e))
            (record {
              delivered = frame ∷ rest.delivered;
              missed = rest.missed;
              split = ap (◌∷◌ frame) rest.split;
              sent = rest.sent ∙ append_assoc w.sent (frame ∷ []) rest.delivered;
              complete' = rest.complete';
              hub = rest.hub;
              store = rest.store;
              queued = rest.queued;
            })

-- Some erasure names the stroke.
abbrev pub is_erased : List TombstoneBatch → String → Bool
is_erased tombstones id = any (λ t. contains t.stroke_ids id) tombstones

-- A batch as a client is to see it: under the same seq and id, less the strokes that are erased.
abbrev pub left_of : {F : Type 0} → List TombstoneBatch → StrokeBatch F → StrokeBatch F
left_of tombstones batch = record {
  seq = batch.seq;
  client_batch_id = batch.client_batch_id;
  strokes = retain (λ s. not (is_erased tombstones s.id)) batch.strokes;
}

-- The frames that tell a client of a page's ink, up to its head.
pub data Tells {F : Type 0} (page_id : String) (head : ℕ) (batches : List (StrokeBatch F))
    (tombstones : List TombstoneBatch) : Bool → List (PageServerMessage F) → Type 0 where
  at_once : Tells page_id head batches tombstones true (
      page_replay (record {
        page_id = page_id;
        last_seq = head;
        batches = map (left_of tombstones) batches;
        tombstones = tombstones;
      })
      ∷ [])
  one_by_one : Tells page_id head batches tombstones false (
      (map (λ b. stroke_batch (left_of tombstones b)) batches ++ map tombstone_batch tombstones)
      ++ synced head ∷ [])

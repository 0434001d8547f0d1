-- ===== src/Viewer/Tests.antt =====
-- The theorems on the viewer at concrete batches.
use v_note.Base.{
  ℕ, ◌≡◌, ok, List, ◌+◌, length, refl, true, String, contains, [], ◌∷◌, ◌++◌, arith, str_dec,
}
use v_note.Protocol.Messages.{StrokeBatch, TombstoneBatch, stroke_batch, synced, page_replay}
use v_note.Dispatch.Replay.{build_page_replay, replay_frames, deleted_ids}
use v_note.Viewer.{Viewer, apply_page_event, apply_page_events, retain_surviving}
use v_note.Viewer.Ordered.{Rises}
use v_note.Viewer.Realtime.{
  text, other, broken, Attempt, fails, subscribes, Loop, page_realtime_loop,
  page_realtime_loop-Rises,
}
use v_note.Viewer.Replays.{apply_page_event-page_replay}
use v_note.Samples.{stroke, viewer}

abbrev batch_1 : StrokeBatch ℕ
batch_1 = record {
  seq = 1;
  client_batch_id = "batch_1";
  strokes = stroke "stroke_a" ∷ stroke "stroke_b" ∷ [];
}

abbrev batch_3 : StrokeBatch ℕ
batch_3 = record { seq = 3; client_batch_id = "batch_3"; strokes = stroke "stroke_c" ∷ [] }

abbrev erasure : TombstoneBatch
erasure = record {
  revision = 4;
  client_mutation_id = "erase_1";
  stroke_ids = "stroke_a" ∷ "stroke_c" ∷ [];
}

-- The viewer that has seen stroke_a erased already.
abbrev behind : Viewer ℕ
behind = record viewer { batches = record batch_1 { strokes = stroke "stroke_b" ∷ [] } ∷ [] }

apply_page_event-page_replay_example :
    apply_page_events
      (replay_frames (batch_1 ∷ batch_3 ∷ []) (erasure ∷ []) ++ synced 3 ∷ [])
      viewer
    ≡ apply_page_event
        (page_replay (build_page_replay "page_1" 3 (batch_1 ∷ batch_3 ∷ []) (erasure ∷ [])))
        viewer
apply_page_event-page_replay_example =
    apply_page_event-page_replay "page_1" 3 (batch_1 ∷ batch_3 ∷ []) (erasure ∷ []) viewer
      (omega arith, (omega arith, tt))

seen-erased :
    (a : String)
    → contains ("stroke_a" ∷ []) a ≡ true
    → contains (deleted_ids (erasure ∷ [])) a ≡ true
seen-erased a h = ground arith

behind-shows : behind.batches ≡ retain_surviving ("stroke_a" ∷ []) (batch_1 ∷ [])
unfolding retain_surviving str_dec
behind-shows = refl

abbrev attempts : List (Attempt ℕ)
attempts =
    fails "no ticket"
    ∷ subscribes (
        text (ok (stroke_batch batch_3))
        ∷ other
        ∷ text (ok (stroke_batch batch_1))
        ∷ broken "reset"
        ∷ [])
    ∷ []

abbrev idle : Loop ℕ
idle = record { viewer = viewer; attempts = 0 }

page_realtime_loop-Rises_example :
    Rises (page_realtime_loop attempts idle).viewer.batches
    × ((page_realtime_loop attempts idle).attempts ≡ 0 + length attempts)
page_realtime_loop-Rises_example = page_realtime_loop-Rises attempts idle tt

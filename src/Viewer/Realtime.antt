-- ===== src/Viewer/Realtime.antt =====
-- frontend/src/realtime.rs: the page channel of the viewer, which reconnects forever. What becomes of a
-- connection is an argument: the ticket, the URL, the socket and the frames are the browser's.
use v_note.Base.{ℕ, ◌+◌, ◌≡◌, refl, arith, String, List, [], ◌∷◌, Result, ok, err, some, length}
use v_note.Protocol.Messages.{PageServerMessage}
use v_note.Viewer.{Viewer, apply_page_event}
use v_note.Viewer.Ordered.{Rises, apply_page_event-Rises}

-- A text frame with what it parses to, another frame, or a failure of the socket.
pub data Frame (F : Type 0) : Type 0 where
  text : Result (PageServerMessage F) String → Frame F
  other : Frame F
  broken : String → Frame F

-- How far an attempt gets: to an error on the way to the subscription, or to the frames after it.
pub data Attempt (F : Type 0) : Type 0 where
  fails : String → Attempt F
  subscribes : List (Frame F) → Attempt F

pub record Loop (F : Type 0) : Type 0 where
  pub viewer : Viewer F
  pub attempts : ℕ

module _ {F : Type 0} where
  -- Until the socket ends.
  unfoldable pub read_frames : List (Frame F) → Viewer F → Viewer F × Result (Unit {0}) String
  read_frames [] v = (v, err "page realtime socket closed")
  read_frames (text (ok event) ∷ frames) v = read_frames frames (apply_page_event event v)
  read_frames (text (err error) ∷ frames) v = (v, err error)
  read_frames (other ∷ frames) v = read_frames frames v
  read_frames (broken error ∷ frames) v = (v, err error)

  unfoldable pub page_realtime_once : Attempt F → Viewer F → Viewer F × Result (Unit {0}) String
  page_realtime_once (fails error) v = (v, err error)
  page_realtime_once (subscribes frames) v =
      read_frames frames (record v { status = "Subscribing" })

  abbrev pub after_attempt : ℕ → Viewer F × Result (Unit {0}) String → Loop F
  after_attempt attempts (v, ok u) = record { viewer = v; attempts = 0 }
  after_attempt attempts (v, err error) = record {
    viewer = record v { error = some error; status = "Reconnecting" };
    attempts = attempts + 1;
  }

  -- The rounds of the loop, one for each attempt.
  unfoldable pub page_realtime_loop : List (Attempt F) → Loop F → Loop F
  page_realtime_loop [] l = l
  page_realtime_loop (attempt ∷ later) l =
      page_realtime_loop later (after_attempt l.attempts (page_realtime_once attempt l.viewer))

  -- Whatever an attempt comes to, it keeps the order of the batches, and is counted as one that failed.
  Attempted : ℕ → Loop F → Type 0
  Attempted n l = Rises l.viewer.batches × (l.attempts ≡ n)

  read_frames-Attempted :
      (frames : List (Frame F)) (v : Viewer F) (n : ℕ)
      → Rises v.batches
      → Attempted (n + 1) (after_attempt n (read_frames frames v))
  unfolding read_frames Attempted
  read_frames-Attempted [] v n h = (h, refl)
  read_frames-Attempted (text (ok event) ∷ frames) v n h =
      read_frames-Attempted frames (apply_page_event event v) n (apply_page_event-Rises event v h)
  read_frames-Attempted (text (err error) ∷ frames) v n h = (h, refl)
  read_frames-Attempted (other ∷ frames) v n h = read_frames-Attempted frames v n h
  read_frames-Attempted (broken error ∷ frames) v n h = (h, refl)

  page_realtime_once-Attempted :
      (attempt : Attempt F) (v : Viewer F) (n : ℕ)
      → Rises v.batches
      → Attempted (n + 1) (after_attempt n (page_realtime_once attempt v))
  unfolding page_realtime_once Attempted
  page_realtime_once-Attempted (fails error) v n h = (h, refl)
  page_realtime_once-Attempted (subscribes frames) v n h =
      read_frames-Attempted frames (record v { status = "Subscribing" }) n h

  -- Whatever frames arrive over whatever connections, the viewer's batches rise by seq, and no
  -- connection resets the count of attempts: each one raises it by one.
  pub page_realtime_loop-Rises :
      (later : List (Attempt F)) (l : Loop F)
      → Rises l.viewer.batches
      → Rises (page_realtime_loop later l).viewer.batches
        × ((page_realtime_loop later l).attempts ≡ l.attempts + length later)
  unfolding page_realtime_loop Attempted
  page_realtime_loop-Rises [] l h = (h, omega arith)
  page_realtime_loop-Rises (attempt ∷ later) l h =
      let (rises, counted) = page_realtime_once-Attempted attempt l.viewer l.attempts h in
      let next = after_attempt l.attempts (page_realtime_once attempt l.viewer) in
      let (rises', counted') = page_realtime_loop-Rises later next rises in
      (rises', omega (arith, counted, counted'))

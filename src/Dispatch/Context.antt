-- ===== src/Dispatch/Context.antt =====
-- The connection a message arrives on: the store's interface (`PageStore` of
-- crates/server/src/realtime/store.rs), the shared state that the handlers change, and sending.
use v_note.Base.{ℕ, ◌+◌, Bool, true, false, String, List, [], ◌∷◌, ◌++◌, Option, none, some, Result}
use v_note.Protocol.Ink.{Stroke}
use v_note.Protocol.Paper.{Paper}
use v_note.Protocol.Messages.{
  PageServerMessage, LibraryEvent, StrokeBatch, TombstoneBatch, page_updated,
  page_thumbnail_updated, generating,
}
use v_note.Hub
use v_note.Hub.{RealtimeHub}
use v_note.Store.Batches.{PersistedBatch}
use v_note.Store.Erasures.{PersistedTombstones}
use v_note.Store.PaperChange.{PersistedPaper}

-- The trait `PageStore`. A mutation gives the store back beside its error too.
pub record PageStore (F : Type 0) : Type 1 where
  pub State : Type 0
  pub Error : Type 0
  pub page_belongs_to_owner : String → String → State → Result Bool Error
  pub current_paper : String → State → Result Paper Error
  pub max_seq : String → State → Result ℕ Error
  pub load_page_replay :
      String → ℕ → State → Result (List (StrokeBatch F) × List TombstoneBatch) Error
  pub persist_batch :
      String → String → List (Stroke F) → State → State × Result (PersistedBatch F) Error
  pub persist_tombstones :
      String → String → List String → State → State × Result PersistedTombstones Error
  pub persist_paper : String → Paper → State → State × Result PersistedPaper Error

pub record PageContext : Type 0 where
  pub page_id : String
  pub session_id : String
  pub coalesce_replay : Bool

pub record ReplayCost : Type 0 where
  pub frames : ℕ
  pub bytes : ℕ

abbrev pub add_frame : ReplayCost → ℕ → ReplayCost
add_frame cost bytes = record { frames = cost.frames + 1; bytes = cost.bytes + bytes }

-- A call of `thumbnails::enqueue`.
pub record ThumbnailJob : Type 0 where
  pub page_id : String
  pub owner_id : String
  pub source_seq : ℕ

pub record World (F S : Type 0) : Type 0 where
  pub hub : RealtimeHub F
  pub store : S
  -- what went out on the sender's socket, in order
  pub sent : List (PageServerMessage F)
  pub queued : List ThumbnailJob
  -- the calls of `observe_realtime_replay`
  pub replays : List ReplayCost

-- The socket, which is no code of the repository: whether a frame gets through after those that
-- did, and then its size in bytes.
abbrev pub Socket : Type 0 → Type 0
Socket F = List (PageServerMessage F) → PageServerMessage F → Option ℕ

abbrev pub is_sent : Option ℕ → Bool
is_sent none = false
is_sent (some bytes) = true

module _ {F S : Type 0} (socket : Socket F) where
  unfoldable pub send_page_frame : PageServerMessage F → World F S → World F S × Option ℕ
  send_page_frame message w = elim (socket w.sent message) [
    | none ↦ (w, none)
    | some bytes ↦ (record w { sent = w.sent ++ message ∷ [] }, some bytes)
  ]

  unfoldable pub send_page : PageServerMessage F → World F S → World F S × Bool
  unfolding send_page_frame
  send_page message w = let (w', bytes) = send_page_frame message w in (w', is_sent bytes)

module _ {F S : Type 0} (ctx : PageContext) where
  abbrev pub publish_page : PageServerMessage F → World F S → World F S
  publish_page message w = record w { hub = Hub.publish_page ctx.page_id message w.hub }

  abbrev pub publish_library_event : String → LibraryEvent → World F S → World F S
  publish_library_event owner_id event w = record w {
    hub = Hub.publish_library_event owner_id event w.hub;
  }

  unfoldable pub publish_page_updated : String → String → World F S → World F S
  publish_page_updated owner_id updated_at =
      publish_library_event owner_id (page_updated ctx.page_id updated_at)

  unfoldable pub queue_thumbnail : String → ℕ → World F S → World F S
  queue_thumbnail owner_id revision w =
      let w' =
        publish_library_event owner_id (page_thumbnail_updated ctx.page_id (generating revision))
          w in
      record w' {
        queued =
            w'.queued
            ++ record { page_id = ctx.page_id; owner_id = owner_id; source_seq = revision } ∷ [];
      }

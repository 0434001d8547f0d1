-- ===== src/Protocol/Messages.antt =====
-- crates/protocol/src/lib.rs: pages, library events and the page channel's messages.
use v_note.Base.{ℕ, String, List, Option}
use v_note.Protocol.Paper.{Paper}
use v_note.Protocol.Ink.{Stroke}

pub data ThumbnailMetadata : Type 0 where
  empty : ThumbnailMetadata
  generating : ℕ → ThumbnailMetadata
  available : ℕ → String → ThumbnailMetadata
  failed : ℕ → ThumbnailMetadata

pub record PageSummary : Type 0 where
  pub id : String
  pub title : String
  pub created_at : String
  pub updated_at : String
  pub thumbnail : ThumbnailMetadata
  pub paper : Paper

pub data LibraryEvent : Type 0 where
  page_created : PageSummary → LibraryEvent
  page_deleted : String → LibraryEvent
  page_thumbnail_updated : String → ThumbnailMetadata → LibraryEvent
  page_updated : String → String → LibraryEvent

pub record RealtimeTicketResponse : Type 0 where
  pub ticket : String
  pub expires_at : String

pub record StrokeBatch (F : Type 0) : Type 0 where
  pub seq : ℕ
  pub client_batch_id : String
  pub strokes : List (Stroke F)

pub record TombstoneBatch : Type 0 where
  pub revision : ℕ
  pub client_mutation_id : String
  pub stroke_ids : List String

pub record PageReplay (F : Type 0) : Type 0 where
  pub page_id : String
  pub last_seq : ℕ
  pub batches : List (StrokeBatch F)
  pub tombstones : List TombstoneBatch

pub data PageClientMessage (F : Type 0) : Type 0 where
  subscribe : ℕ → PageClientMessage F
  acquire_lease renew_lease release_lease : PageClientMessage F
  commit_batch : String → List (Stroke F) → PageClientMessage F
  commit_tombstones : String → List String → PageClientMessage F
  set_paper : String → Paper → PageClientMessage F

pub data PageServerMessage (F : Type 0) : Type 0 where
  -- the session, the head `seq`, the lease holder and the paper
  welcome : String → ℕ → Option String → Paper → PageServerMessage F
  stroke_batch : StrokeBatch F → PageServerMessage F
  page_replay : PageReplay F → PageServerMessage F
  tombstone_batch : TombstoneBatch → PageServerMessage F
  synced : ℕ → PageServerMessage F
  lease_granted : PageServerMessage F
  lease_denied : String → PageServerMessage F
  paper_changed : Paper → ℕ → PageServerMessage F
  lease_changed : Option String → PageServerMessage F
  -- the code, the message and the client's mutation id
  error : String → String → Option String → PageServerMessage F

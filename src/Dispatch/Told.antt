-- ===== src/Dispatch/Told.antt =====
-- What the handlers of crates/server/src/realtime/dispatch.rs tell others without the store.
use v_note.Base.{ok, Bool, true, ℕ, ◌≡◌, false}
use v_note.Protocol.Float.{Float}
use v_note.Protocol.Messages.{PageClientMessage, commit_batch, commit_tombstones, set_paper}
use v_note.Hub
use v_note.Store.Batches.{PersistedBatch}
use v_note.Store.Erasures.{PersistedTombstones}
use v_note.Store.PaperChange.{PersistedPaper}
use v_note.Dispatch.Context.{PageStore, PageContext, World, Socket}
use v_note.Protocol.Paper.{Paper}

module _ (f : Float) (store : PageStore f.F64) (socket : Socket f.F64) (ctx : PageContext)
    (now : ℕ) where
  open f use {F64}

  -- What the other connections and the thumbnail worker see of one world they see of the other.
  pub record Unpublished (w w' : World F64 store.State) : Type 0 where
    pub page_channels : w'.hub.page_channels ≡ w.hub.page_channels
    pub library_channels : w'.hub.library_channels ≡ w.hub.library_channels
    pub queued : w'.queued ≡ w.queued

  -- The store has accepted the message's mutation, and has left the state.
  unfoldable pub IsStored : PageClientMessage F64 → store.State → store.State → Type 0
  IsStored (commit_batch id strokes) before after =
      (persisted : PersistedBatch F64) × (store.persist_batch ctx.page_id id strokes before
        ≡ (after, ok persisted))
  IsStored (commit_tombstones id stroke_ids) before after =
      (persisted : PersistedTombstones) × (store.persist_tombstones ctx.page_id id stroke_ids before
        ≡ (after, ok persisted))
  IsStored (set_paper id paper) before after =
      (persisted : PersistedPaper) × (store.persist_paper ctx.page_id paper before
        ≡ (after, ok persisted))
  IsStored _ before after = ⊥

  unfoldable pub is_lease_change : PageClientMessage F64 → Bool
  is_lease_change PageClientMessage.acquire_lease = true
  is_lease_change PageClientMessage.release_lease = true
  is_lease_change _ = false

  -- Others are told nothing; or what the store has accepted; or that the lease has changed hands, and
  -- then the library and the thumbnail worker hear nothing and the store is as it was.
  pub data IsTold (message : PageClientMessage F64) (w w' : World F64 store.State) : Type 0 where
    nothing : Unpublished w w' → IsTold message w w'
    accepted : IsStored message w.store w'.store → IsTold message w w'
    lease :
        is_lease_change message ≡ true
        → w'.hub.library_channels ≡ w.hub.library_channels
        → w'.queued ≡ w.queued
        → w'.store ≡ w.store
        → IsTold message w w'

-- ===== src/Dispatch/Announced.antt =====
-- What the mutations of crates/server/src/realtime/dispatch.rs have in common: the lease before, and
-- the announcements after.
use v_note.Base.{
  ℕ, ◌≡◌, refl, Bool, true, false, ap, List, Option, none, some, arith, if◌then◌else◌, String, [],
  ◌∷◌, ◌++◌,
}
use v_note.Protocol.Float.{Float}
use v_note.Protocol.Messages.{
  LibraryEvent, page_updated, page_thumbnail_updated, generating, PageServerMessage,
}
use v_note.Hub.{Lease, live_lease, denied, granted, LeaseOutcome, RealtimeHub, or_new}
use v_note.Hub
use v_note.Hub.Leases.{acquire_lease-granted, MayEdit}
use v_note.Dispatch.Context.{
  PageStore, PageContext, World, Socket, ThumbnailJob, publish_page_updated, queue_thumbnail,
}
use v_note.Dispatch.Handlers.{with_lease, Handler, announce}

-- What a mutation puts on the page's channel: nothing, or one message after those before.
abbrev pub extended :
    {F : Type 0}
    → Option (List (PageServerMessage F))
    → Option (PageServerMessage F)
    → Option (List (PageServerMessage F))
extended channel none = channel
extended channel (some message) = some (or_new channel ++ message ∷ [])

-- What the owner's library channel hears: an edited page's new time, and that a thumbnail is on
-- its way.
abbrev pub library_events : String → Bool → Option String → ℕ → List LibraryEvent
library_events page_id true (some updated_at) revision =
    page_updated page_id updated_at ∷ page_thumbnail_updated page_id (generating revision) ∷ []
library_events page_id false (some updated_at) revision = page_updated page_id updated_at ∷ []
library_events page_id true none revision =
    page_thumbnail_updated page_id (generating revision) ∷ []
library_events page_id false none revision = []

abbrev pub heard : Option (List LibraryEvent) → List LibraryEvent → Option (List LibraryEvent)
heard channel [] = channel
heard channel (event ∷ events) = heard (some (or_new channel ++ event ∷ [])) events

module _ (f : Float) (store : PageStore f.F64) (socket : Socket f.F64) (ctx : PageContext)
    (now : ℕ) where
  open f use {F64}

  -- What a mutation that the store accepted leaves: its new state is kept, the sender hears of it
  -- on the page's channel alone, the owner's library hears of the new time and of the thumbnail to
  -- come, and a thumbnail is queued where a job was created.
  pub record Announced (w : World F64 store.State) (s : store.State)
      (message : Option (PageServerMessage F64)) (created : Bool) (updated_at : Option String)
      (owner_id : String) (revision : ℕ) (r : World F64 store.State × Bool) : Type 0 where
    pub stays_open : r.1 ≡ true
    pub store' : r.0.store ≡ s
    pub sent : r.0.sent ≡ w.sent
    pub page_channel :
        r.0.hub.page_channels ctx.page_id ≡ extended (w.hub.page_channels ctx.page_id) message
    pub library_channel :
        r.0.hub.library_channels owner_id
        ≡ heard
            (w.hub.library_channels owner_id)
            (library_events ctx.page_id created updated_at revision)
    pub queued : r.0.queued ≡ (
        if created
        then w.queued
          ++ record { page_id = ctx.page_id; owner_id = owner_id; source_seq = revision } ∷ []
        else w.queued)

  pub announce-Announced :
      (w w' : World F64 store.State) (s : store.State) (message : Option (PageServerMessage F64))
      (created : Bool) (updated_at : Option String) (owner_id : String) (revision : ℕ)
      → w'.store ≡ s
      → w'.sent ≡ w.sent
      → w'.queued ≡ w.queued
      → w'.hub.page_channels ctx.page_id ≡ extended (w.hub.page_channels ctx.page_id) message
      → w'.hub.library_channels owner_id ≡ w.hub.library_channels owner_id
      → Announced w s message created updated_at owner_id revision
          (announce f store socket ctx now owner_id updated_at created revision w', true)
  unfolding announce publish_page_updated queue_thumbnail Hub.publish_library_event
  announce-Announced w w' s message false none owner_id revision hs hsent hq hp hl = record {
    stays_open = refl;
    store' = hs;
    sent = hsent;
    page_channel = hp;
    library_channel = hl;
    queued = hq;
  }
  announce-Announced w w' s message false (some t) owner_id revision hs hsent hq hp hl = record {
    stays_open = refl;
    store' = hs;
    sent = hsent;
    page_channel = hp;
    library_channel = ground arith;
    queued = hq;
  }
  announce-Announced w w' s message true none owner_id revision hs hsent hq hp hl = record {
    stays_open = refl;
    store' = hs;
    sent = hsent;
    page_channel = hp;
    library_channel = ground arith;
    queued =
        ap
          (λ (jobs : List ThumbnailJob).
            jobs
            ++ record { page_id = ctx.page_id; owner_id = owner_id; source_seq = revision } ∷ [])
          hq;
  }
  announce-Announced w w' s message true (some t) owner_id revision hs hsent hq hp hl = record {
    stays_open = refl;
    store' = hs;
    sent = hsent;
    page_channel = hp;
    library_channel = ground arith;
    queued =
        ap
          (λ (jobs : List ThumbnailJob).
            jobs
            ++ record { page_id = ctx.page_id; owner_id = owner_id; source_seq = revision } ∷ [])
          hq;
  }

  unfoldable pub leased : World F64 store.State → World F64 store.State
  leased w = record w { hub = (Hub.acquire_lease now ctx.page_id ctx.session_id w.hub).0 }

  pub with_lease-granted :
      (handler : Handler f store socket ctx now) (w : World F64 store.State)
      → MayEdit now ctx.session_id (w.hub.leases ctx.page_id)
      → with_lease f store socket ctx now handler w ≡ handler (leased w)
  unfolding with_lease leased
  with_lease-granted handler w may =
      ground (arith, (acquire_lease-granted now ctx.page_id ctx.session_id w.hub may).0)

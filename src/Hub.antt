-- ===== src/Hub.antt =====
-- crates/server/src/realtime/hub.rs: tickets, broadcast channels and the single-editor edit lease.
-- Times are nanoseconds; `Utc::now()` is an argument of each call, and so is what the random
-- generator drew. A channel is the list of the messages sent on it, oldest first.
pub mod Leases
pub mod Tickets
mod Tests
use Prim.Native.String.{◌++◌ as ◌<>◌}
use v_note.Base.{
  ℕ, ◌+◌, ◌*◌, Bool, true, false, String, List, [], ◌∷◌, ◌++◌, Option, none, some, ite, str_dec,
  if◌then◌else◌, ltb, leb,
}
use v_note.Base.Map.{Map, insert, remove, retain_values}
use v_note.Base.Map
use v_note.Protocol.Messages.{LibraryEvent, PageServerMessage, RealtimeTicketResponse}

abbrev pub seconds : ℕ → ℕ
seconds n = n * 1_000_000_000

abbrev pub ticket_ttl_seconds : ℕ
ticket_ttl_seconds = 60

abbrev pub lease_ttl_seconds : ℕ
lease_ttl_seconds = 30

pub record Ticket : Type 0 where
  pub owner_id : String
  pub expires_at : ℕ

pub record Lease : Type 0 where
  pub holder : String
  pub expires_at : ℕ

pub data LeaseOutcome : Type 0 where
  granted : LeaseOutcome
  denied : String → LeaseOutcome

pub record RealtimeHub (F : Type 0) : Type 0 where
  pub tickets : Map Ticket
  pub library_channels : Map (List LibraryEvent)
  pub page_channels : Map (List (PageServerMessage F))
  pub leases : Map Lease

-- A channel is created the first time that it is used.
abbrev pub or_new {ℓ} : {A : Type ℓ} → Option (List A) → List A
or_new none = []
or_new (some sent) = sent

abbrev redeem : ℕ → Option Ticket → Option String
redeem now none = none
redeem now (some ticket) = if ltb now ticket.expires_at then some ticket.owner_id else none

module _ {F : Type 0} where
  abbrev pub new_hub : RealtimeHub F
  new_hub = record {
    tickets = Map.empty;
    library_channels = Map.empty;
    page_channels = Map.empty;
    leases = Map.empty;
  }

  unfoldable pub issue_ticket :
      (ℕ → String) → ℕ → String → String → RealtimeHub F → RealtimeHub F × RealtimeTicketResponse
  issue_ticket to_rfc3339 now hex owner_id hub =
      let ticket = "ticket_" <> hex in
      let expires_at = now + seconds ticket_ttl_seconds in
      (
        record hub {
          tickets =
              insert hub.tickets ticket (record { owner_id = owner_id; expires_at = expires_at });
        },
        record { ticket = ticket; expires_at = to_rfc3339 expires_at },
      )

  unfoldable pub consume_ticket : ℕ → String → RealtimeHub F → RealtimeHub F × Option String
  consume_ticket now ticket hub =
      let tickets = retain_values hub.tickets (λ value. ltb now value.expires_at) in
      (record hub { tickets = remove tickets ticket }, redeem now (tickets ticket))

  -- Returns the hub and how much had been sent on the channel before.
  unfoldable pub subscribe_library : String → RealtimeHub F → RealtimeHub F × List LibraryEvent
  subscribe_library owner_id hub =
      let sent = or_new (hub.library_channels owner_id) in
      (record hub { library_channels = insert hub.library_channels owner_id sent }, sent)

  unfoldable pub publish_library_event : String → LibraryEvent → RealtimeHub F → RealtimeHub F
  publish_library_event owner_id event hub = record hub {
    library_channels =
        insert hub.library_channels owner_id (or_new (hub.library_channels owner_id) ++ event ∷ []);
  }

  unfoldable pub subscribe_page :
      String → RealtimeHub F → RealtimeHub F × List (PageServerMessage F)
  subscribe_page page_id hub =
      let sent = or_new (hub.page_channels page_id) in
      (record hub { page_channels = insert hub.page_channels page_id sent }, sent)

  unfoldable pub publish_page : String → PageServerMessage F → RealtimeHub F → RealtimeHub F
  publish_page page_id message hub = record hub {
    page_channels =
        insert hub.page_channels page_id (or_new (hub.page_channels page_id) ++ message ∷ []);
  }

-- A lease whose time is up is dropped where it is met.
abbrev pub live_lease : ℕ → Option Lease → Option Lease
live_lease now none = none
live_lease now (some lease) = if leb lease.expires_at now then none else some lease

abbrev drop_expired_lease : ℕ → String → Map Lease → Map Lease
drop_expired_lease now page_id leases = elim (leases page_id) [
  | none ↦ leases
  | some existing ↦ if leb existing.expires_at now then remove leases page_id else leases
]

unfoldable pub acquire_in : ℕ → String → String → Map Lease → Map Lease × LeaseOutcome
acquire_in now page_id session_id leases = elim (leases page_id) [
  | none ↦ (
    insert leases page_id
        (record { holder = session_id; expires_at = now + seconds lease_ttl_seconds }),
    granted,
  )
  | some existing ↦
      ite (str_dec existing.holder session_id)
        (
          insert leases page_id (record existing { expires_at = now + seconds lease_ttl_seconds }),
          granted,
        )
        (leases, denied existing.holder)
]

abbrev with_leases {ℓ} :
    {F : Type 0} {A : Type ℓ} → RealtimeHub F → Map Lease × A → RealtimeHub F × A
with_leases hub (leases, a) = (record hub { leases = leases }, a)

abbrev release_in : String → String → Map Lease → Map Lease × Bool
release_in page_id session_id leases = elim (leases page_id) [
  | none ↦ (leases, false)
  | some existing ↦
      ite (str_dec existing.holder session_id) (remove leases page_id, true) (leases, false)
]

abbrev holder_in : ℕ → String → Map Lease → Map Lease × Option String
holder_in now page_id leases = elim (leases page_id) [
  | none ↦ (leases, none)
  | some existing ↦
      if ltb now existing.expires_at
      then (leases, some existing.holder)
      else (remove leases page_id, none)
]

module _ {F : Type 0} where
  unfoldable pub acquire_lease : ℕ → String → String → RealtimeHub F → RealtimeHub F × LeaseOutcome
  unfolding acquire_in
  acquire_lease now page_id session_id hub =
      with_leases hub
        (acquire_in now page_id session_id (drop_expired_lease now page_id hub.leases))

  unfoldable pub release_lease : String → String → RealtimeHub F → RealtimeHub F × Bool
  release_lease page_id session_id hub = with_leases hub (release_in page_id session_id hub.leases)

  unfoldable pub current_lease_holder : ℕ → String → RealtimeHub F → RealtimeHub F × Option String
  current_lease_holder now page_id hub = with_leases hub (holder_in now page_id hub.leases)

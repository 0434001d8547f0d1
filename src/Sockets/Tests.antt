-- ===== src/Sockets/Tests.antt =====
-- Connections at concrete events.
use v_note.Base.{ℕ, ◌≡◌, refl, List, [], ◌∷◌, Option, none, some, ok, err, true, String, str_dec}
use v_note.Auth.Tests.{jwt, fetched, config, no_keys}
use v_note.Hub
use v_note.Hub.{RealtimeHub, new_hub, seconds}
use v_note.Protocol.Messages.{PageClientMessage, LibraryEvent, page_deleted, acquire_lease}
use v_note.Store.Tables.{Db, page_belongs_to_owner, current_paper, max_seq}
use v_note.Protocol.Paper.{from_wire, wire_value}
use v_note.Dispatch.Context.{PageStore, send_page, send_page_frame}
use v_note.Dispatch.Handlers.{dispatch_page_client_message, handle_acquire_lease, with_lease}
use v_note.Dispatch.Served.{pg_page_store}
use v_note.Sockets.{
  AuthState, page_socket, authenticate_realtime, ConnectionEvent, text_frame, close_frame, lagged,
  loop, round, handle_page_socket, send_welcome, handle_page_client_message, release_on_close,
}
use v_note.Sockets.Admitted.{IsCaller, page_socket-ok}
use v_note.Sockets.Closed.{NotHolder, handle_page_socket-NotHolder}
use v_note.Sockets.LibrarySocket
use v_note.Sockets.LibrarySocket.{
  LibrarySocketEvent, SentPrefix, handle_library_socket, carried, handle_library_socket-SentPrefix,
}
use v_note.Samples.{whole, pg, db, ctx, world, open_socket}

abbrev store : PageStore ℕ
store = pg_page_store pg 5

-- A ticket for `owner_1`, issued at time 1.
abbrev ticketed : AuthState ℕ String
ticketed = record { hub = (Hub.issue_ticket (λ t. "") 1 "ff" "owner_1" new_hub).0; keys = no_keys }

opens :
    (page_socket store jwt fetched config 2 "page_1" none (some "ticket_ff") db ticketed).1 ≡ ok tt
unfolding page_socket authenticate_realtime Hub.issue_ticket Hub.consume_ticket
    page_belongs_to_owner str_dec
opens = refl

page_socket-ok_example :
    (owner_id : String) × IsCaller jwt fetched config 2 none (some "ticket_ff") ticketed owner_id
    × (store.page_belongs_to_owner "page_1" owner_id db ≡ ok true)
page_socket-ok_example =
    page_socket-ok jwt fetched config 2 store "page_1" db none (some "ticket_ff") ticketed opens

-- The one text that parses asks for the lease.
abbrev parse : String → Option (PageClientMessage ℕ)
parse text = some acquire_lease

-- The session takes the lease, and the client closes.
abbrev events : List (ConnectionEvent ℕ (Db ℕ))
events = text_frame 2 (some "{}") ∷ close_frame ∷ []

new_session : NotHolder ctx.session_id (world.hub.leases ctx.page_id)
new_session l h = cc

closes :
    (handle_page_socket whole store open_socket ctx parse 1 events world).reason
    ≡ some "client closed"
unfolding handle_page_socket send_welcome loop round handle_page_client_message
    dispatch_page_client_message handle_acquire_lease with_lease send_page send_page_frame
    current_paper max_seq Hub.subscribe_page Hub.current_lease_holder Hub.acquire_lease
    release_on_close Hub.release_lease Hub.publish_page str_dec from_wire wire_value
closes = refl

handle_page_socket-NotHolder_example : NotHolder ctx.session_id (
    (handle_page_socket whole store open_socket ctx parse 1 events world).world.hub.leases
      ctx.page_id)
handle_page_socket-NotHolder_example =
    handle_page_socket-NotHolder whole store open_socket ctx parse 1 events world new_session closes

abbrev encode : LibraryEvent → Option String
encode event = some "{}"

abbrev library_events : List LibrarySocketEvent
library_events =
    LibrarySocket.fanned_out (ok (page_deleted "page_1"))
    ∷ LibrarySocket.fanned_out (err (lagged 3))
    ∷ LibrarySocket.fanned_out (ok (page_deleted "page_2"))
    ∷ []

handle_library_socket-SentPrefix_example :
    SentPrefix encode
      (λ sent payload. true)
      (λ event. ("{}", refl))
      []
      (carried encode (λ sent payload. true) library_events)
      (handle_library_socket encode (λ sent payload. true) library_events [])
handle_library_socket-SentPrefix_example =
    handle_library_socket-SentPrefix encode (λ sent payload. true) (λ event. ("{}", refl))
      library_events []

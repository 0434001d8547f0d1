-- ===== src/Sockets.antt =====
-- crates/server/src/realtime/socket.rs: who may open a realtime connection, and the life of a page's
-- connection from its welcome to the release of its lease. The handshake, the frames and their
-- JSON are parameters: `parse` reads a client message.
pub mod Admitted
pub mod Closed
pub mod LibrarySocket
mod Tests
use v_note.Base.{
  ℕ, Bool, true, false, not, ◌&&◌, String, List, [], ◌∷◌, ◌++◌, Option, none, some, Result, ok, err,
  if◌then◌else◌,
}
use v_note.Base.Map.{Map}
use v_note.Auth.{
  Jwt, Jwk, AuthConfig, Claims, TokenValidationError, invalid, missing_scope, validate_jwt,
  extract_bearer,
}
use v_note.Protocol.Float.{Float}
use v_note.Protocol.Paper.{Paper}
use v_note.Protocol.Messages.{
  PageClientMessage, PageServerMessage, LibraryEvent, welcome, error, lease_changed,
}
use v_note.Hub
use v_note.Hub.{RealtimeHub}
use v_note.Dispatch.Context.{
  PageStore, PageContext, World, Socket, send_page, send_page_frame, publish_page,
}
use v_note.Dispatch.Handlers.{dispatch_page_client_message}

abbrev status_of : TokenValidationError → ℕ
status_of missing_scope = 403
status_of (invalid reason) = 401

abbrev subject_of : Result Claims TokenValidationError → Result String ℕ
subject_of (ok claims) = ok claims.sub
subject_of (err e) = err (status_of e)

abbrev redeemed : Option String → Result String ℕ
redeemed none = err 401
redeemed (some owner_id) = ok owner_id

-- The state that authentication changes.
pub record AuthState (F K : Type 0) : Type 0 where
  pub hub : RealtimeHub F
  pub keys : Map K

module _ {F : Type 0} (jwt : Jwt) (fetched : Result (List Jwk) String) (config : AuthConfig)
    (now : ℕ) where
  abbrev pub authenticate_bearer :
      Option String → AuthState F jwt.DecodingKey → AuthState F jwt.DecodingKey × Result String ℕ
  authenticate_bearer none a = (a, err 401)
  authenticate_bearer (some token) a =
      let (keys, validated) = validate_jwt jwt fetched token config a.keys in
      (record a { keys = keys }, subject_of validated)

  -- A ticket is redeemed, and only without one the bearer header is read; the result is the owner
  -- or a status.
  unfoldable pub authenticate_realtime :
      Option String
      → Option String
      → AuthState F jwt.DecodingKey
      → AuthState F jwt.DecodingKey × Result String ℕ
  authenticate_realtime authorization none a = authenticate_bearer (extract_bearer authorization) a
  authenticate_realtime authorization (some ticket) a =
      let (hub, owner) = Hub.consume_ticket now ticket a.hub in
      (record a { hub = hub }, redeemed owner)

abbrev pub owned : {E : Type 0} → Result Bool E → Result (Unit {0}) (ℕ × String)
owned (ok true) = ok tt
owned (ok false) = err (403, "page not found")
owned (err e) = err (500, "ownership check failed")

abbrev pub checked_page :
    {F : Type 0} (store : PageStore F)
    → String
    → store.State
    → Result String ℕ
    → Result (Unit {0}) (ℕ × String)
checked_page store page_id s (err status) = err (status, "realtime authentication failed")
checked_page store page_id s (ok owner_id) = owned (store.page_belongs_to_owner page_id owner_id s)

-- What stands before the upgrade of a page's socket: `ok` lets it go ahead.
unfoldable pub page_socket :
    {F : Type 0} (store : PageStore F) (jwt : Jwt)
    → Result (List Jwk) String
    → AuthConfig
    → ℕ
    → String
    → Option String
    → Option String
    → store.State
    → AuthState F jwt.DecodingKey
    → AuthState F jwt.DecodingKey × Result (Unit {0}) (ℕ × String)
unfolding authenticate_realtime
page_socket store jwt fetched config now page_id authorization ticket s a =
    let (a', caller) = authenticate_realtime jwt fetched config now authorization ticket a in
    (a', checked_page store page_id s caller)

pub data RecvError : Type 0 where
  lagged : ℕ → RecvError
  closed : RecvError

-- What the loop of a connection waits for, and what others do to the shared state meanwhile.
pub data ConnectionEvent (F S : Type 0) : Type 0 where
  fanned_out : Result (PageServerMessage F) RecvError → ConnectionEvent F S
  -- a text frame, whose payload may not be UTF-8
  text_frame : ℕ → Option String → ConnectionEvent F S
  close_frame other_frame stream_end : ConnectionEvent F S
  elsewhere : RealtimeHub F → S → ConnectionEvent F S

pub record Connection (F S : Type 0) : Type 0 where
  pub world : World F S
  -- the close frame that the server sent
  pub close : Option (ℕ × String)
  -- why the loop ended
  pub reason : Option String

abbrev pub lagged_close_code : ℕ
lagged_close_code = 1013

abbrev pub or_zero : {E : Type 0} → Result ℕ E → ℕ
or_zero (ok seq) = seq
or_zero (err e) = 0

module _ (f : Float) (store : PageStore f.F64) (socket : Socket f.F64) (ctx : PageContext)
    (parse : String → Option (PageClientMessage f.F64)) where
  open f use {F64}

  abbrev pub ended : String → World F64 store.State → Connection F64 store.State
  ended reason w = record { world = w; close = none; reason = some reason }

  abbrev pub goes_on : World F64 store.State → Connection F64 store.State
  goes_on w = record { world = w; close = none; reason = none }

  abbrev pub ended_unless : String → World F64 store.State × Bool → Connection F64 store.State
  ended_unless reason (w, true) = goes_on w
  ended_unless reason (w, false) = ended reason w

  abbrev pub welcomed :
      ℕ
      → Option String
      → Result Paper store.Error
      → World F64 store.State
      → Connection F64 store.State
  welcomed last_seq holder (err e) w =
      ended "page paper could not be read"
        (send_page socket (error "welcome_failed" "could not load the page" none) w).0
  welcomed last_seq holder (ok paper) w =
      ended_unless "welcome send failed"
        (send_page socket (welcome ctx.session_id last_seq holder paper) w)

  unfoldable pub send_welcome : ℕ → World F64 store.State → Connection F64 store.State
  send_welcome now w =
      let last_seq = or_zero (store.max_seq ctx.page_id w.store) in
      let (hub, holder) = Hub.current_lease_holder now ctx.page_id w.hub in
      welcomed last_seq holder (store.current_paper ctx.page_id w.store) (record w { hub = hub })

  unfoldable pub forward_page_fanout :
      Result (PageServerMessage F64) RecvError → World F64 store.State → Connection F64 store.State
  forward_page_fanout (ok message) w = ended_unless "send failed" (send_page socket message w)
  forward_page_fanout (err (lagged skipped)) w = record {
    world = w;
    close = some (lagged_close_code, "lagged");
    reason = some "lagged: the subscriber fell behind the page channel";
  }
  forward_page_fanout (err closed) w = ended "page channel closed" w

  abbrev dispatch_parsed :
      ℕ → Option (PageClientMessage F64) → World F64 store.State → World F64 store.State × Bool
  dispatch_parsed now none w =
      send_page socket (error "bad_message" "could not parse client message" none) w
  dispatch_parsed now (some message) w =
      dispatch_page_client_message f store socket ctx now message w

  unfoldable pub handle_page_client_message :
      ℕ → String → World F64 store.State → World F64 store.State × Bool
  handle_page_client_message now text w = dispatch_parsed now (parse text) w

  -- One round of the loop.
  unfoldable pub round :
      ConnectionEvent F64 store.State → World F64 store.State → Connection F64 store.State
  unfolding forward_page_fanout handle_page_client_message
  round (fanned_out event) w = forward_page_fanout event w
  round (text_frame now none) w = ended "text frame was not UTF-8" w
  round (text_frame now (some text)) w =
      ended_unless "send failed" (handle_page_client_message now text w)
  round close_frame w = ended "client closed" w
  round other_frame w = goes_on w
  round stream_end w = ended "stream ended without a close frame" w
  round (elsewhere hub s) w = goes_on (record w { hub = hub; store = s })

  abbrev pub unless_ended :
      (World F64 store.State → Connection F64 store.State)
      → Connection F64 store.State
      → Connection F64 store.State
  unless_ended next c = elim c.reason [ none ↦ next c.world | some reason ↦ c ]

  -- The loop over the events, which the first reason to end breaks.
  unfoldable pub loop :
      List (ConnectionEvent F64 store.State) → World F64 store.State → Connection F64 store.State
  unfolding round
  loop [] w = goes_on w
  loop (e ∷ events) w = unless_ended (loop events) (round e w)

  -- A sibling session can take over.
  unfoldable pub release_on_close : World F64 store.State → World F64 store.State
  release_on_close w =
      let (hub, released) = Hub.release_lease ctx.page_id ctx.session_id w.hub in
      let w' = record w { hub = hub } in
      if released then publish_page ctx (lease_changed none) w' else w'

  abbrev pub after_loop : Connection F64 store.State → Connection F64 store.State
  after_loop c = elim c.reason [
    | none ↦ c
    | some reason ↦ record c { world = release_on_close c.world }
  ]

  unfoldable pub handle_page_socket :
      ℕ
      → List (ConnectionEvent F64 store.State)
      → World F64 store.State
      → Connection F64 store.State
  unfolding send_welcome loop release_on_close
  handle_page_socket now events w =
      let (hub, before) = Hub.subscribe_page ctx.page_id w.hub in
      unless_ended (λ w'. after_loop (loop events w')) (send_welcome now (record w { hub = hub }))

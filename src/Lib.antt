-- ===== src/Lib.antt =====
-- A model of v-note's ink server and of the parts of its web client that hold state, and what
-- is proved of it.
--
-- The program. A page's ink is a log of stroke batches and of erasures in Postgres. Clients
-- speak to the server over one WebSocket per page: an editor takes the page's lease, commits
-- batches, erases strokes and changes the paper; every client is sent what was committed, and
-- on (re)connecting a replay of what it missed. The web client is a read-only viewer that
-- merges what arrives, and it exports its telemetry through a bounded outbox.
--
-- Base: lists, options, texts, sorting and maps that the other files share.
-- Protocol (crates/protocol/src): Paper is the paper enum of paper.rs, PaperMarks its lines in
-- a viewport, PaperTexture its grain and the ink classifier, MarksDrawn what is proved of the
-- lines; Ink is the stroke and its validation, Messages the messages of lib.rs. Float is a
-- record of the operations on f64 that the program uses, a parameter of the model.
-- Hub (crates/server/src/realtime/hub.rs): the four mutex-guarded maps as one record, each
-- method as a function of the time that Utc::now() answers, in nanoseconds. A broadcast channel
-- is the list of the messages sent on it; a receiver that lags is an event of Sockets. The
-- drawn random text is an argument.
-- Store (crates/server/src/realtime/store.rs): the tables as lists of rows, in the order of
-- insertion; each SQL statement is read as it says, each transaction is a function whose error
-- leaves the database as it was, since it holds the page's row lock throughout; its errors are
-- violated constraints and missing rows, and a query that the server of the database fails is
-- left out. What Postgres brings along, its text order and the printing of times, is a
-- parameter.
-- Dispatch (crates/server/src/realtime/dispatch.rs): the handlers over any PageStore, with what
-- was sent on the socket, the calls of thumbnails::enqueue and the hub as state; Served takes
-- the functions of Store as that PageStore. The socket is a parameter, which says of each frame
-- whether it gets through.
-- Auth (crates/server/src/auth.rs): the bearer header, the key cache with its one refresh,
-- validate_jwt and auth_middleware. The crate that reads and verifies a JWT is a parameter
-- (Jwt), and so is what the identity provider answers.
-- Login (crates/server/src/routes/auth.rs): login, callback with the exchange of the code,
-- logout and the page for the mobile client (Mobile), over a jar that maps a cookie's name to
-- its cookie; what the random generator draws, the hash and what a posted form comes to are
-- parameters.
-- Sockets (crates/server/src/realtime/socket.rs): authentication by ticket or bearer token, the
-- gate before the upgrade, the welcome, and the loops of a page's and of the library's
-- connection over a list of events; others may set the hub and the store to anything between
-- two events. LibrarySocket is the library's.
-- Config (crates/server/src/config.rs): the groups and their validation over what the crates of
-- their leaves read (Leaf), and in Leaves what is done to the leaves of a source before the
-- layers merge. Handout is routes/telemetry_config.rs behind the middleware.
-- Csp (crates/server/src/csp.rs): the policy of the web client and the scanner for inline
-- scripts (scan, on fuel that exceeds the page's characters).
-- Thumbnails (crates/server/src/thumbnails.rs): a job as a state that each statement takes a
-- step further, or breaks; Outcome runs it among mutations of the page, Snapshot shows what it
-- renders, Retention is about cleanup, Recovery is recover_pending, Pixels is downsample and
-- the blend of the grain with the theorems in Downsampled. tiny_skia is a parameter (Raster,
-- Pixels).
-- Pages (crates/server/src/routes/pages.rs): the five routes, over the tables of Store.
-- Routing (frontend/src/route.rs): route_from_path, path_for_route, and the deep link that a
-- sign-in parks.
-- Viewer (frontend/src/viewer.rs): the signals of the viewer as a record and apply_page_event
-- as a function on it. Realtime is the page channel's loop of connections (page_realtime_loop
-- of frontend/src/realtime.rs), whose count of attempts is below 2^32.
-- Telemetry (frontend/src/telemetry/outbox.rs): the outbox, the export policy and the
-- configuration lifecycle.
-- Library (frontend/src/library.rs): the reducer of the page list.
-- Samples: the concrete values that the Tests modules use.
--
-- Bounds. Serials, revisions and times are natural numbers: the BIGINT columns hold them below
-- 2^63, which no run of commits reaches; from_seq, which a client chooses, is read as the code
-- casts it. Every loop is a structural recursion on a list, so only two functions run on fuel:
-- the printing of a number, on the number's successor, which is more than its digits, and the
-- scanner of Csp, on more than the page's characters. A thumbnail job has at most six
-- statements.
--
-- Not modelled: logs, metrics and trace contexts; the concurrency within a handler (the lease
-- check and the store call are two steps of one handler, run one after the other); the
-- encodings of serde; thumbnails' rasterising, the layering of the configuration, observability
-- and drawing.
pub mod Base
pub mod Protocol
pub mod Hub
pub mod Store
pub mod Dispatch
pub mod Auth
pub mod Config
pub mod Csp
pub mod Login
pub mod Sockets
pub mod Thumbnails
pub mod Pages
pub mod Telemetry
pub mod Viewer
pub mod Routing
pub mod Library
pub mod Samples

-- ===== src/Samples.antt =====
-- Concrete values that the tests run the model on: whole numbers for `f64`, a database with one page
-- of one batch, and a socket that every frame gets through.
use v_note.Base.{
  ℕ, ◌+◌, ◌-◌, ◌*◌, ◌/◌, min, max, true, false, String, [], ◌∷◌, none, some, leb, ltb,
}
use v_note.Protocol.Float.{Float}
use v_note.Protocol.Ink.{Stroke, default_solid_round_pressure}
use v_note.Store.Tables.{Db, PageRow, Postgres, generating}
use v_note.Base.TextOrder.{str_le}
use v_note.Dispatch.Context.{PageContext, World, Socket}
use v_note.Hub.{new_hub}
use v_note.Viewer.{Viewer}
use v_note.Protocol.Paper.{blank}

abbrev pub whole : Float
whole = record {
  F64 = ℕ;
  literal = λ n d. n / d;
  epsilon = 0;
  is_finite = λ x. true;
  le = leb;
  lt = ltb;
  min = min;
  max = max;
  add = λ x y. x + y;
  sub = λ x y. x - y;
  mul = λ x y. x * y;
  div = λ x y. x / y;
  of_u32 = λ n. n;
  round = λ x. x;
  abs = λ x. x;
  neg = λ x. 0;
  ceil = λ x. x;
  floor = λ x. x;
  to_usize = λ x. x;
}

abbrev pub stroke : String → Stroke ℕ
stroke id = record { id = id; style = default_solid_round_pressure whole; points = [] }

abbrev pub pg : Postgres
pg = record { text_le = str_le; to_rfc3339 = λ t. "2026-09-15T00:00:00+00:00" }

abbrev pub page : PageRow
page = record {
  id = "page_1";
  owner_id = "owner_1";
  title = "Untitled";
  created_at = 1;
  updated_at = 2;
  ink_revision = 1;
  paper = "none";
}

abbrev pub db : Db ℕ
db = record {
  pages = page ∷ [];
  stroke_batches =
      record {
        page_id = "page_1";
        seq = 1;
        revision = 1;
        client_batch_id = "batch_1";
        strokes = stroke "stroke_a" ∷ [];
      }
      ∷ [];
  stroke_tombstones = [];
  tombstone_batches = [];
  page_thumbnails =
      record {
        page_id = "page_1";
        source_seq = 1;
        status = generating;
        created_at = 2;
        paper = "none";
      }
      ∷ [];
}

abbrev pub ctx : PageContext
ctx = record { page_id = "page_1"; session_id = "session_a"; coalesce_replay = false }

abbrev pub world : World ℕ (Db ℕ)
world = record { hub = new_hub; store = db; sent = []; queued = []; replays = [] }

abbrev pub open_socket : Socket ℕ
open_socket sent message = some 1

abbrev pub viewer : Viewer ℕ
viewer = record { batches = []; status = "Connecting"; error = none; last_seq = 0; paper = blank }

-- ===== src/Router/Http/Connection/Turns.antt =====
-- crates/buran-router/src/http1.rs, serve_connection: what a request yields, and what it means for the
-- connection.
use buran.Prelude.{
  ℕ, Bool, true, false, not, ◌&&◌, ◌||◌, Option, none, some, List, [], if◌then◌else◌, Bytes,
}
use buran.Router.Routes.{RequestMeta}
use buran.Router.Http.Body.{Socket, BodyResult, Feed, whole, refused, out_of_fuel, too_slow, broken}
use buran.Router.Http.Response.{Extra, reason_phrase, write_simple, write_101}
use buran.Router.Http.Exchange
use buran.Router.Http.Exchange.{
  Answers, BodyPlan, Exchange, AppRes, Client, Happening, dispatch_to_app, buffered, streamed, http,
  upgraded, io_error,
}

-- A pool as a request sees it.
pub record PoolView : Type 0 where
  pub answers : Answers
  pub streams_body : Bool
  pub supports_websocket : Bool

pub data ListenerKind : Type 0 where
  route : Bytes → ListenerKind
  status : ListenerKind

-- What the worker or the static server gets of a request.
pub record Handed : Type 0 where
  pub path : Bytes
  pub query : Bytes
  pub host : Bytes

-- `unfinished` is none of the code's outcomes: a given list ended.
pub data TurnEnd : Type 0 where
  next_request : Bytes → Socket → TurnEnd
  closes fails unfinished : TurnEnd
  tunnels : List Happening → TurnEnd

pub record Turn : Type 0 where
  pub wire : Bytes
  pub handed : Option Handed
  pub ends : TurnEnd

pub data Admission : Type 0 where
  refuse : ℕ → Admission
  admit : RequestMeta → Admission

-- `write_simple` without keep-alive, and the end of the connection.
abbrev pub refuses : Bytes → ℕ → Turn
refuses server code = record {
  wire = write_simple server code (reason_phrase code) false;
  handed = none;
  ends = closes;
}

abbrev pub failing : Turn
failing = record { wire = []; handed = none; ends = fails }

abbrev pub pending : Turn
pending = record { wire = []; handed = none; ends = unfinished }

abbrev pub continues : Bool → Bytes → Socket → TurnEnd
continues keep buf socket = if keep then next_request buf socket else closes

abbrev pub answers_with : Bytes → Option Handed → Bool → Bytes → Socket → Turn
answers_with wire handed keep buf socket = record {
  wire = wire;
  handed = handed;
  ends = continues keep buf socket;
}

-- The body before the application is called: how it travels, and what is left of the buffer and
-- the socket.
pub data BodyPhase : Type 0 where
  ready : BodyPlan → Bytes → Socket → BodyPhase
  ends_with : Turn → BodyPhase

abbrev pub after_take : Bytes → Bytes → BodyResult → BodyPhase
after_take server buf (whole body socket) = ready (buffered body) buf socket
after_take server buf (refused too_slow) = ends_with (refuses server 408)
after_take server buf (refused broken) = ends_with failing
after_take server buf out_of_fuel = ends_with pending

abbrev pub after_feed : Option Feed → BodyPhase
after_feed (some f) = ready (streamed f.ok) [] f.socket
after_feed none = ends_with pending

abbrev pub is_streamed : BodyPlan → Bool
is_streamed (streamed ok) = true
is_streamed (buffered body) = false

abbrev pub exchange_end : Bool → BodyPlan → Bytes → Socket → AppRes → TurnEnd
exchange_end keep plan buf socket (http code reclaimed) =
    continues (keep && (not (is_streamed plan) || reclaimed)) buf socket
exchange_end keep plan buf socket (upgraded block later) = tunnels later
exchange_end keep plan buf socket io_error = fails
exchange_end keep plan buf socket Exchange.unfinished = unfinished

abbrev pub exchange_wire : Bytes → Bytes → Extra → AppRes → Bytes
exchange_wire server accept extra (upgraded block later) = write_101 server accept block extra
exchange_wire server accept extra _ = []

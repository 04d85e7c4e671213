-- ===== src/Router/Http/Connection.antt =====
-- crates/buran-router/src/http1.rs, serve_connection: what happens to one request, from its parsed
-- head to the state in which the next one is awaited. The file system, the pools' answers and the
-- handshake key are given.
pub mod Awaiting
pub mod Leaving
pub mod Turns
pub use Turns.*
pub mod Reclaiming
pub mod Aligned
pub mod Clean
pub mod Requests
pub mod Cutting
mod Tests
use buran.Prelude.{
  is_some, ℕ, zero, suc, ◌+◌, ◌-◌, Bool, true, false, not, ◌&&◌, ◌||◌, Option, none, some, List, [],
  ◌∷◌, ◌++◌, ltb, if◌then◌else◌, Bytes, bytes_eq, length, codes, is_empty,
}
use buran.Router.Uri.{normalize_path}
use buran.Router.Matching.{RegexEngine, IpAddr}
use buran.Router.Routes
use buran.Router.Routes.{
  RequestMeta, Routes, RouteOutcome, Decision, Fallback, PatternSet, ServeSources, decide, or_empty,
  to_application, to_share, to_return, not_found, no_fallback, fall_back,
}
use buran.Router.Http.Request.{
  Parsed, find_header, split_target, has_control_byte, websocket_upgrade, named,
}
use buran.Router.Http.Body.{
  Socket, Pace, BodyResult, Feed, Taken, take_body, feed_body, whole, refused, out_of_fuel,
  too_slow, broken,
}
use buran.Router.Http.Response.{
  Extra, reason_phrase, write_simple, write_response, write_return, write_101,
}
use buran.Router.Static.Serve.{File, Reply, Context, serve}
use buran.Router.Ws.{Digests, accept_key}
use buran.Router.Http.Exchange
use buran.Router.Http.Exchange.{
  Answers, BodyPlan, Exchange, AppRes, Client, Happening, dispatch_to_app, buffered, streamed, http,
  upgraded, io_error,
}

module _ (E : RegexEngine) where
  -- What a connection is served with. `accepts` is how many chunks of a streamed body the dispatcher
  -- takes before it drops the channel; `open_file` is the file system; `applications` is the text of the status page.
  pub record Site : Type 0 where
    pub routes : Routes E
    pub max_body : ℕ
    pub pace : Pace
    pub server : Bytes
    pub remote : IpAddr
    pub remote_text : Bytes
    pub pools : Bytes → Option PoolView
    pub accepts : ℕ
    pub digests : Digests
    pub open_file : Bytes → Bytes → Bool → Option File
    pub mime_overrides : List (Bytes × Bytes)
    pub source_exts : List Bytes
    pub applications : Bytes

  unfoldable pub meta_of : Site → Parsed → RequestMeta
  unfolding split_target normalize_path find_header
  meta_of site p =
      let (path, query) = split_target p.target in
      record {
        method = p.method;
        host = or_empty (find_header (codes "host") p.headers);
        path = normalize_path path;
        query = query;
        headers = p.headers;
        remote = site.remote;
        remote_text = site.remote_text;
      }

  abbrev pub check_meta : RequestMeta → Admission
  check_meta meta =
      if has_control_byte meta.path || (has_control_byte meta.query || has_control_byte meta.host)
      then refuse 400
      else admit meta

  abbrev pub check_size : Site → Parsed → Option ℕ → Admission
  check_size site p (some code) = refuse code
  check_size site p none =
      if ltb site.max_body p.content_length then refuse 413 else check_meta (meta_of site p)

  unfoldable pub admission : Site → Parsed → Admission
  unfolding meta_of has_control_byte
  admission site p = check_size site p p.bad

  abbrev pub pool_streams : Option PoolView → Bool
  pool_streams (some pool) = pool.streams_body
  pool_streams none = false

  abbrev pub pool_upgrades : Option PoolView → Bool
  pool_upgrades (some pool) = pool.supports_websocket
  pool_upgrades none = false

  abbrev pub answers_of : Option PoolView → Option Answers
  answers_of (some pool) = some pool.answers
  answers_of none = none

  abbrev pub decides_stream : Site → Decision E → Bool
  decides_stream site (to_application name) = pool_streams (site.pools name)
  decides_stream site _ = false

  unfoldable pub streams : Site → Parsed → Bytes → Decision E → Bool
  streams site p buf decision =
      ltb 0 p.content_length && (ltb (length buf) p.content_length && decides_stream site decision)

  unfoldable pub body_phase : Site → Parsed → Bytes → Socket → Bool → BodyPhase
  unfolding feed_body take_body
  body_phase site p buf socket true =
      after_feed (feed_body site.pace buf (p.content_length - length buf) site.accepts socket)
  body_phase site p buf socket false =
      let taken = take_body site.pace p.content_length buf socket in
      after_take site.server taken.buf taken.body

  -- The exchange with an application, and what it means for the connection.
  unfoldable pub call_application :
      Site → Parsed → Bytes → Bool → Extra → Handed → BodyPlan → Bytes → Socket → Turn
  unfolding dispatch_to_app websocket_upgrade write_101
  call_application site p name offered extra handed plan buf socket =
      let client : Client = record {
        server = site.server;
        extra = extra;
        keep_alive = p.keep_alive;
      } in
      let x = dispatch_to_app client plan offered (answers_of (site.pools name)) in
      record {
        wire =
            x.wire
            ++ exchange_wire site.server (accept_key site.digests (or_empty (websocket_upgrade p)))
                extra x.result;
        handed = some handed;
        ends = exchange_end p.keep_alive plan buf socket x.result;
      }

  abbrev simple_turn : Site → Parsed → ℕ → Option Handed → Bytes → Socket → Turn
  simple_turn site p code handed buf socket =
      answers_with (write_simple site.server code (reason_phrase code) p.keep_alive) handed
        p.keep_alive buf socket

  abbrev return_turn : Site → Parsed → ℕ → Option Bytes → Option Handed → Bytes → Socket → Turn
  return_turn site p code location handed buf socket =
      answers_with (write_return site.server code location p.keep_alive) handed p.keep_alive buf
        socket

  -- What follows when the static server finds nothing.
  unfoldable pub on_fallback :
      Site → Parsed → Extra → Handed → BodyPlan → Bytes → Socket → Fallback E → Turn
  unfolding call_application write_return write_simple
  on_fallback site p extra handed plan buf socket (fall_back (Routes.return code location)) =
      return_turn site p code location (some handed) buf socket
  on_fallback site p extra handed plan buf socket (fall_back (Routes.application name)) =
      call_application site p name false extra handed plan buf socket
  on_fallback site p extra handed plan buf socket _ =
      simple_turn site p 404 (some handed) buf socket

  abbrev pub on_share :
      Site → Parsed → Extra → Handed → BodyPlan → Bytes → Socket → Fallback E → Option Bytes → Turn
  on_share site p extra handed plan buf socket after (some wire) =
      answers_with wire (some handed) p.keep_alive buf socket
  on_share site p extra handed plan buf socket after none =
      on_fallback site p extra handed plan buf socket after

  abbrev pub static_context :
      Site → Parsed → Extra → Option (PatternSet E) → Bool → ServeSources → Context E
  static_context site p extra types follow_symlinks serve_sources = record {
    server = site.server;
    types = types;
    mime_overrides = site.mime_overrides;
    source_exts = site.source_exts;
    follow_symlinks = follow_symlinks;
    serve_sources = serve_sources;
    req_headers = p.headers;
    head_only = bytes_eq p.method (codes "HEAD");
    extra_headers = extra;
    keep_alive = p.keep_alive;
  }

  abbrev pub reply_wire : Option Reply → Option Bytes
  reply_wire (some reply) = some (reply.head ++ reply.body)
  reply_wire none = none

  unfoldable pub on_decision :
      Site → Parsed → Extra → Handed → BodyPlan → Bytes → Socket → Decision E → Turn
  unfolding call_application on_fallback serve websocket_upgrade write_return write_simple
  on_decision site p extra handed plan buf socket (to_return code location) =
      return_turn site p code location none buf socket
  on_decision site p extra handed plan buf socket not_found = simple_turn site p 404 none buf socket
  on_decision site p extra handed plan buf socket (to_application name) =
      call_application site p name
        (is_some (websocket_upgrade p) && pool_upgrades (site.pools name)) extra handed plan buf
        socket
  on_decision site p extra handed plan buf socket
        (to_share template index types follow_symlinks serve_sources after) =
      on_share site p extra handed plan buf socket after (
        reply_wire (
          serve E site.open_file (static_context site p extra types follow_symlinks serve_sources)
            template index handed.path))

  abbrev pub effective : RequestMeta → Option (Bytes × Bytes) → Handed
  effective meta (some (path, query)) = record { path = path; query = query; host = meta.host }
  effective meta none = record { path = meta.path; query = meta.query; host = meta.host }

  unfoldable pub respond :
      Site → Parsed → RequestMeta → RouteOutcome E → BodyPlan → Bytes → Socket → Turn
  unfolding on_decision has_control_byte
  respond site p meta o plan buf socket =
      let handed = effective meta o.rewritten in
      if has_control_byte handed.path || has_control_byte handed.query
      then refuses site.server 400
      else on_decision site p o.response_headers handed plan buf socket o.decision

  abbrev pub health : Bytes
  health = codes "{\"status\":\"ok\"}\n"

  abbrev pub page : Site → Parsed → ℕ → Bytes → Bytes → Socket → Turn
  page site p code body buf socket =
      answers_with (write_response site.server code (codes "application/json") body [] p.keep_alive)
        none p.keep_alive buf socket

  unfoldable pub status_page : Site → Parsed → Bytes → Bytes → Socket → Turn
  unfolding write_response
  status_page site p path buf socket =
      if named "/health" path
      then page site p 200 health buf socket
      else if named "/health/applications" path
      then page site p 200 site.applications buf socket
      else page site p 404 (codes "{\"error\":\"not found\"}\n") buf socket

  abbrev pub after_body : BodyPhase → (BodyPlan → Bytes → Socket → Turn) → Turn
  after_body (ends_with turn) answer = turn
  after_body (ready plan buf socket) answer = answer plan buf socket

  unfoldable pub serve_admitted : Site → ListenerKind → Parsed → Bytes → Socket → RequestMeta → Turn
  unfolding body_phase streams respond status_page decide
  serve_admitted site (route name) p buf socket meta =
      let o = decide E site.routes name meta in
      after_body (body_phase site p buf socket (streams site p buf o.decision))
        (respond site p meta o)
  serve_admitted site status p buf socket meta =
      after_body (body_phase site p buf socket false) (λ plan. status_page site p meta.path)

  abbrev pub serve_admission : Site → ListenerKind → Parsed → Bytes → Socket → Admission → Turn
  serve_admission site kind p buf socket (refuse code) = refuses site.server code
  serve_admission site kind p buf socket (admit meta) = serve_admitted site kind p buf socket meta

  -- `buf` is what stands behind the head. A head that does not parse is refused.
  unfoldable pub serve_request : Site → ListenerKind → Option Parsed → Bytes → Socket → Turn
  unfolding admission serve_admitted
  serve_request site kind none buf socket = refuses site.server 400
  serve_request site kind (some p) buf socket =
      serve_admission site kind p buf socket (admission site p)

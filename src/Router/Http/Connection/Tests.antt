-- ===== src/Router/Http/Connection/Tests.antt =====
-- A request that a pool streams, one with an encoded line break, and the theorems at these inputs.
use buran.Prelude.{
  ℕ, length, Option, List, ◌≡◌, refl, true, false, none, some, [], ◌∷◌, ◌++◌, Bytes, bytes_eq,
  codes,
}
use buran.Router.Dispatch.{headers, chunk, «end»}
use buran.Router.Matching
use buran.Router.Matching.{RegexEngine}
use buran.Router.Routes
use buran.Router.Http.Request
use buran.Router.Http.Request.{Parsed, RawRequest}
use buran.Router.Http.Body
use buran.Router.Http.Body.{Socket}
use buran.Router.Http.Body.Exact.{stream}
use buran.Router.Http.Exchange
use buran.Router.Http.Connection
use buran.Router.Http.Connection.{Site, PoolView, Handed, Turn, serve_request}
use buran.Router.Http.Connection.Aligned
use buran.Router.Http.Connection.Leaving.{IsAligned}
use buran.Router.Http.Connection.Requests.{Served, serve_connection}
use buran.Router.Http.Connection.Cutting
use buran.Router.Http.Connection.Cutting.{IsPrefix, heads_of, requests_of}
use buran.Router.Http.Connection.Clean
use buran.Router.Http.Connection.Clean.{HandsClean}

abbrev plain_engine : RegexEngine
plain_engine = record {
  Regex = Bytes;
  build = some;
  is_match = λ re v. bytes_eq re v;
  escape = λ s. s;
}

-- The worker answers in one chunk.
abbrev php_pool : PoolView
php_pool = record {
  answers = record {
    reserved = true;
    spill_written = true;
    submitted = Exchange.accepted (
        Exchange.event (headers 200 [])
        ∷ Exchange.event (chunk (codes "ok"))
        ∷ Exchange.event «end»
        ∷ []);
  };
  streams_body = true;
  supports_websocket = false;
}

abbrev step_to_php : Routes.Step plain_engine
step_to_php = record {
  matcher = none;
  rewrite = none;
  response_headers = [];
  action = Routes.application (codes "php");
}

abbrev site : Site plain_engine
site = record {
  routes = (codes "main", step_to_php ∷ []) ∷ [];
  max_body = 100;
  pace = record { read_timeout = 30; min_rate = 0 };
  server = codes "buran";
  remote = Matching.v4 (127 ∷ 0 ∷ 0 ∷ 1 ∷ []);
  remote_text = codes "127.0.0.1";
  pools = λ name. some php_pool;
  accepts = 4;
  digests = record { sha1 = λ k. k; base64 = λ k. k };
  open_file = λ base rel no_symlinks. none;
  mime_overrides = [];
  source_exts = codes "php" ∷ [];
  applications = [];
}

abbrev post : Parsed
post = record {
  method = codes "POST";
  target = codes "/a/../form?x=1";
  headers = (codes "host", codes "a.example") ∷ [];
  keep_alive = true;
  content_length = 5;
  bad = none;
}

-- The body comes in two parts, and the second has the start of the next request.
abbrev part : Bytes
part = codes "he"

abbrev rest : Socket
rest = Body.bytes 1 (codes "lloGET") ∷ []

abbrev turn : Turn
turn = serve_request plain_engine site (Connection.route (codes "main")) (some post) part rest

next_after_post : turn.ends ≡ Connection.next_request [] (Body.bytes 1 (codes "GET") ∷ [])
unfolding serve_request Connection.admission Connection.meta_of Connection.serve_admitted
    Connection.body_phase Connection.streams Connection.respond Connection.on_decision
    Connection.call_application Request.split_target buran.Router.Uri.normalize_path
    Request.find_header Request.has_control_byte Request.websocket_upgrade Routes.decide Routes.walk
    Routes.hop Routes.get_route Routes.find Routes.matches Routes.take_step Routes.apply_rewrite
    Routes.split_at_first Body.feed_body Body.feed_loop Body.feed_read Body.read Body.body_rate_ok
    Exchange.dispatch_to_app Exchange.on_events Exchange.buffer_loop Exchange.send_buffered bytes_eq
    buran.Router.Uri.resolve buran.Router.Uri.join buran.Router.Uri.split
    buran.Router.Uri.percent_decode buran.Router.Uri.push_segment buran.Router.Uri.ends_with_slash
next_after_post = refl

serve_request-IsAligned_example : IsAligned 5 (part ++ stream rest) turn.ends
serve_request-IsAligned_example =
    Aligned.serve_request-IsAligned plain_engine site (Connection.route (codes "main")) post part
      rest

serve_request-HandsClean_example : HandsClean turn.handed
serve_request-HandsClean_example =
    Clean.serve_request-HandsClean plain_engine site (Connection.route (codes "main")) (some post)
      part rest

-- An encoded line break in the path is refused.
abbrev split_attempt : Parsed
split_attempt = record post { target = codes "/a%0d%0ab" }

refuses_break :
    serve_request plain_engine site (Connection.route (codes "main")) (some split_attempt) part rest
    ≡ Connection.refuses (codes "buran") 400
unfolding serve_request Connection.admission Connection.meta_of Request.split_target
    buran.Router.Uri.normalize_path Request.has_control_byte Routes.split_at_first
    buran.Router.Uri.resolve buran.Router.Uri.join buran.Router.Uri.split
    buran.Router.Uri.percent_decode buran.Router.Uri.push_segment buran.Router.Uri.ends_with_slash
    buran.Router.Uri.escape buran.Router.Uri.hex
refuses_break = refl

-- Two requests in a row, cut in the middle of the second one.
abbrev get_head : Bytes
get_head = codes "GET / HTTP/1.1" ++ (13 ∷ 10 ∷ 13 ∷ 10 ∷ [])

abbrev raw_get : RawRequest
raw_get = record {
  method = some (codes "GET");
  path = some (codes "/");
  version = some 1;
  headers = (codes "Host", codes "a.example") ∷ [];
}

abbrev httparse : Bytes → Option RawRequest
httparse head = some raw_get

abbrev two_requests : Socket
two_requests =
    Body.bytes 1 (get_head ++ codes "GET / H")
    ∷ Body.bytes 2 (codes "TTP/1.1")
    ∷ Body.bytes 3 (13 ∷ 10 ∷ 13 ∷ 10 ∷ [])
    ∷ []

serve_connection-IsPrefix_example :
    (served : List Served) × ((serve_connection plain_engine httparse site
          (Connection.route (codes "main"))
          two_requests
        ≡ some served)
      × IsPrefix
          (heads_of plain_engine httparse served)
          (requests_of plain_engine httparse (stream two_requests)))
serve_connection-IsPrefix_example =
    Cutting.serve_connection-IsPrefix plain_engine httparse site (Connection.route (codes "main"))
      two_requests

abbrev count_served : Option (List Served) → ℕ
count_served none = 0
count_served (some served) = length served

both_served :
    count_served
      (serve_connection plain_engine httparse site (Connection.route (codes "main")) two_requests)
    ≡ 2
unfolding serve_connection stream Routes.get_route Routes.find Routes.matches Routes.take_step
both_served = refl

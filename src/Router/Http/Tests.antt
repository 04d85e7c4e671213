-- ===== src/Router/Http/Tests.antt =====
-- Runs of the HTTP/1 side, and the theorems at concrete inputs.
use buran.Prelude.{
  ◌≡◌, ◌+◌, refl, true, false, Option, none, some, List, [], ◌∷◌, ◌++◌, Bytes, bytes_eq, codes,
  arith, length, map, All,
}
use buran.Router.Dispatch.{headers, chunk, flush, «end»}
use buran.Router.Http.Request
use buran.Router.Http.Request.{
  RawRequest, Parsed, Header, parse_request, find_headers_end, split_target, websocket_upgrade,
}
use buran.Router.Http.Accepted
use buran.Router.Http.Framing.{is_none, is_acceptable}
use buran.Router.Http.Exchange.Chunks
use buran.Router.Http.Exchange.Buffering.{says}
use buran.Ipc.Error.{ok}
use buran.Router.Http.Payload
use buran.Router.Http.Payload.{Addresses, BodyPart}
use buran.Router.Http.Payload.Shown
use buran.Router.Http.Body
use buran.Router.Http.Body.{Socket, Pace, Feed, Wake, take_body, feed_body, read_head}
use buran.Router.Http.Body.Exact
use buran.Router.Http.Body.Exact.{Cuts, stream}
use buran.Router.Http.Body.Arrives
use buran.Router.Dispatch.Pump.{pump_body}
use buran.Router.Dispatch.Pump.Received.{receive}
use buran.Router.Http.Body.Streaming
use buran.Router.Http.Body.Heads
use buran.Router.Http.Body.Heads.{IsHead, sent}
use buran.Router.Http.Response
use buran.Router.Http.Response.{Extra, forwarded, lossy_lines, write_simple}
use buran.Router.Http.Response.Lines
use buran.Router.Http.Response.Lines.{IsClean, with_return}
use buran.Router.Http.Response.Chunked.{read_chunks}
use buran.Router.Http.Exchange
use buran.Router.Http.Exchange.{
  Client, BodyPlan, Answers, Happening, dispatch_to_app, stream_loop, event, accepted,
}
use buran.Router.Http.Exchange.Delivered
use buran.Router.Http.Exchange.Delivered.{Answered, worker_head}
use buran.Router.Uri.{split}

abbrev post_headers : List Header
post_headers =
    (codes "Host", codes "a.example")
    ∷ (codes "Content-Length", codes "5")
    ∷ (codes "CONTENT-LENGTH", codes "+5")
    ∷ []

abbrev post : RawRequest
post = record {
  method = some (codes "POST");
  path = some (codes "/form?a=1");
  version = some 1;
  headers = post_headers;
}

abbrev parser : Bytes → Option RawRequest
parser head = some post

abbrev parsed_post : Parsed
parsed_post = record {
  method = codes "POST";
  target = codes "/form?a=1";
  headers =
      (codes "host", codes "a.example")
      ∷ (codes "content-length", codes "5")
      ∷ (codes "content-length", codes "+5")
      ∷ [];
  keep_alive = true;
  content_length = 5;
  bad = none;
}

parse_post : parse_request parser [] ≡ some parsed_post
unfolding parse_request Request.scan Request.on_name Request.parse_length Request.parse_unsigned
    Request.parse_digits bytes_eq buran.Router.Ws.Utf8.is_utf8 buran.Router.Matching.to_lower
parse_post = refl

abbrev hello_body : BodyPart
hello_body = Payload.inlined (codes "a=%20")

abbrev ends : Addresses
ends = record { remote = codes "10.0.0.7"; port = 8080 }

parse_request-acceptable_example :
    is_none parsed_post.bad ≡ is_acceptable (some 1) 5 parsed_post.headers
parse_request-acceptable_example =
    Accepted.parse_request-acceptable parser [] post parsed_post refl parse_post

abbrev pace : Pace
pace = record { read_timeout = 30; min_rate = 256 }

-- A body of five bytes in two reads, with the start of the next request behind it.
abbrev two_reads : Socket
two_reads = Body.bytes 1 (codes "lo") ∷ Body.bytes 2 (codes "w GET") ∷ []

take_body-exact_example :
    Cuts 5
      (codes "hel" ++ stream two_reads)
      (take_body pace 5 (codes "hel") two_reads).buf
      (take_body pace 5 (codes "hel") two_reads).body
take_body-exact_example = Exact.take_body-exact pace 5 (codes "hel") two_reads

take_body-arrives_example :
    (body : Bytes) × ((rest : Socket) × ((take_body pace 6 (codes "hel") two_reads).body
        ≡ Body.whole body rest))
take_body-arrives_example =
    Arrives.take_body-arrives pace 6 (codes "hel") two_reads
      ((omega arith, omega arith), ((omega arith, omega arith), tt)) (unfold stream in omega arith)

abbrev fed_well : Feed
fed_well = record {
  ok = true;
  sent = codes "hel" ∷ codes "lo" ∷ codes "w" ∷ [];
  socket = Body.bytes 2 (codes " GET") ∷ [];
}

feed_two_reads : feed_body pace (codes "hel") 3 4 two_reads ≡ some fed_well
unfolding feed_body Body.feed_loop Body.feed_read Body.read Body.body_rate_ok
feed_two_reads = refl

receive-feed_body_example :
    (body : Bytes) × ((receive 7 4 (pump_body 7 4 fed_well.sent) ≡ some (body, []))
      × ((body ++ stream fed_well.socket ≡ codes "hel" ++ stream two_reads)
          × (length body ≡ 3 + 3)))
receive-feed_body_example =
    Streaming.receive-feed_body pace (codes "hel") 3 4 two_reads fed_well 7 4 (omega arith)
      feed_two_reads refl (omega arith) (omega arith) (omega arith)

-- A head whose blank line falls between two reads.
abbrev two_wakes : List Wake
two_wakes = Body.data_read (71 ∷ 13 ∷ 10 ∷ 13 ∷ []) ∷ Body.data_read (10 ∷ 66 ∷ []) ∷ []

read_head-IsHead_example : IsHead ([] ++ sent two_wakes) (read_head [] two_wakes)
read_head-IsHead_example =
    Heads.read_head-IsHead [] two_wakes (omega arith) (omega arith, (omega arith, tt))

read_two_wakes : read_head [] two_wakes ≡ Body.head 5 (71 ∷ 13 ∷ 10 ∷ 13 ∷ 10 ∷ 66 ∷ [])
unfolding read_head find_headers_end Request.find_bytes buran.Router.Matching.starts_with
read_two_wakes = refl

-- A block with a header that the router owns, one that an operation removes, and a bare control byte.
abbrev extra_headers : Extra
extra_headers = (codes "X-Debug", none) ∷ (codes "X-Frame-Options", some (codes "DENY")) ∷ []

abbrev block : Bytes
block =
    codes "Content-Length: 9"
    ++ (13 ∷ 10 ∷ (codes "x-debug: 1" ++ (10 ∷ (codes "a: b" ++ (10 ∷ 7 ∷ [])))))

forwarded-block : forwarded extra_headers block ≡ codes "a: b" ∷ []
unfolding forwarded Response.filter_lines split Response.strip_return Response.framing_header
    Response.line_name buran.Router.Routes.split_at_first bytes_eq buran.Router.Matching.to_lower
    Response.removed
forwarded-block = refl

forwarded-IsClean_example :
    (split 10 (lossy_lines (forwarded extra_headers block))
      ≡ map with_return (forwarded extra_headers block) ++ ([] ∷ []))
    × All (IsClean extra_headers) (forwarded extra_headers block)
forwarded-IsClean_example = Lines.forwarded-IsClean extra_headers block

abbrev client : Client
client = record { server = codes "buran"; extra = extra_headers; keep_alive = true }

abbrev later : List Happening
later = event (chunk (codes "ab")) ∷ event flush ∷ event (chunk (codes "c")) ∷ event «end» ∷ []

abbrev flushed : List Happening
flushed = event (chunk (codes "ab")) ∷ event flush ∷ []

abbrev answers : Answers
answers = record {
  reserved = true;
  spill_written = false;
  submitted = accepted (event (headers 200 block) ∷ later);
}

abbrev no_body : BodyPlan
no_body = Exchange.buffered []

dispatch_to_app-delivers_example :
    Answered
      (worker_head client 200 block)
      (codes "abc")
      200
      no_body
      (dispatch_to_app client no_body false (some answers))
dispatch_to_app-delivers_example =
    Delivered.dispatch_to_app-delivers client no_body false answers 200 block (codes "abc") later
      refl refl refl refl (unfold says in refl)

stream_loop-truncated_example :
    ((stream_loop false (flushed ++ (Exchange.hung_up ∷ []))).stream_end ≡ Exchange.truncated)
    × (read_chunks 9 (stream_loop false (flushed ++ (Exchange.hung_up ∷ []))).out ≡ none)
stream_loop-truncated_example =
    Chunks.stream_loop-truncated false flushed Exchange.hung_up [] 9 (tt, (tt, tt)) tt

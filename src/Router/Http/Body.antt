-- ===== src/Router/Http/Body.antt =====
-- crates/buran-router/src/http1.rs: how bytes are read from the client, the head with its limit
-- (serve_connection) and the body with its rate (take_body, read_exact_body, feed_body).
pub mod Exact
pub mod Arrives
pub mod Feeding
pub mod Heads
pub mod Streaming
use buran.Prelude.{
  ℕ, zero, suc, ◌+◌, ◌-◌, ◌*◌, ◌/◌, ◌^◌, min, Bool, true, false, not, ◌&&◌, ◌||◌, Option, none,
  some, List, [], ◌∷◌, ◌++◌, ltb, leb, ◌==◌, if◌then◌else◌, Bytes, length, take, drop, is_empty,
}
use buran.Router.Http.Request.{max_header_bytes, find_headers_end}

-- What the client's side of the socket still has in store: bytes, the time that has passed when
-- they can be read, in nanoseconds; a pause past the timeout; an error. The end of the list is the
-- end of the stream.
pub data Arrival : Type 0 where
  bytes : ℕ → Bytes → Arrival
  stall failure : Arrival

abbrev pub Socket : Type 0
Socket = List Arrival

pub data ReadResult : Type 0 where
  got : ℕ → Bytes → ReadResult
  timed_out io_error : ReadResult

abbrev pub unread : ℕ → ℕ → Bytes → Socket → Socket
unread want t bs socket = if leb (length bs) want then socket else bytes t (drop want bs) ∷ socket

-- `timeout(read_timeout, rd.read(&mut chunk[..want]))`: at most `want` bytes, none at the end.
unfoldable pub read : ℕ → Socket → ReadResult × Socket
read want [] = (got 0 [], [])
read want (bytes t bs ∷ socket) = (got t (take want bs), unread want t bs socket)
read want (stall ∷ socket) = (timed_out, socket)
read want (failure ∷ socket) = (io_error, socket)

abbrev pub seconds : ℕ → ℕ
seconds nanos = nanos / 10 ^ 9

abbrev pub saturating_mul : ℕ → ℕ → ℕ
saturating_mul a b = min (a * b) (2 ^ 64 - 1)

unfoldable pub body_rate_ok : ℕ → ℕ → ℕ → ℕ → Bool
body_rate_ok received elapsed grace min_rate =
    if min_rate == 0
    then true
    else leb elapsed grace || leb (saturating_mul min_rate (seconds elapsed)) received

-- The settings of `http` that a body is read by: nanoseconds, and bytes in a second.
pub record Pace : Type 0 where
  pub read_timeout : ℕ
  pub min_rate : ℕ

pub data BodyError : Type 0 where
  too_slow broken : BodyError

-- `out_of_fuel` is none of the code's outcomes.
pub data BodyResult : Type 0 where
  whole : Bytes → Socket → BodyResult
  refused : BodyError → BodyResult
  out_of_fuel : BodyResult

abbrev pub chunk_size : ℕ
chunk_size = 16 * 1024

-- What one round of the loop does with its read.
pub data Read : Type 0 where
  more : Bytes → Socket → Read
  stop : BodyError → Read

unfoldable pub keep : Pace → Bytes → ReadResult × Socket → Read
unfolding body_rate_ok
keep pace body (got t [], socket) = stop broken
keep pace body (got t (b ∷ bs), socket) =
    if body_rate_ok (length (body ++ (b ∷ bs))) t pace.read_timeout pace.min_rate
    then more (body ++ (b ∷ bs)) socket
    else stop too_slow
keep pace body (timed_out, socket) = stop too_slow
keep pace body (io_error, socket) = stop broken

unfoldable pub read_exact_body : ℕ → Pace → ℕ → Bytes → Socket → BodyResult
unfolding keep read
read_exact_body zero pace total body socket =
    if ltb (length body) total then out_of_fuel else whole body socket
read_exact_body (suc left) pace total body socket = elim (ltb (length body) total) [
  | false ↦ whole body socket
  | true ↦ elim (keep pace body (read (min (total - length body) chunk_size) socket)) [
    | more longer rest ↦ read_exact_body left pace total longer rest
    | stop error ↦ refused error
  ]
]

-- The body, or why there is none, and what stays in the buffer.
pub record Taken : Type 0 where
  pub body : BodyResult
  pub buf : Bytes

-- Every read gives a byte, so the length is fuel enough.
unfoldable pub take_body : Pace → ℕ → Bytes → Socket → Taken
unfolding read_exact_body
take_body pace total buf socket =
    if ltb total (length buf)
    then record { body = whole (take total buf) socket; buf = drop total buf }
    else record { body = read_exact_body total pace total buf socket; buf = [] }

-- The feeding task: `accepts` sends succeed, then the dispatcher has dropped the channel.
pub record Feed : Type 0 where
  pub ok : Bool
  pub sent : List Bytes
  pub socket : Socket

abbrev pub fed : Bool → List Bytes → Socket → Option Feed
fed ok sent socket = some (record { ok = ok; sent = sent; socket = socket })

pub data FeedRead : Type 0 where
  forward : Bytes → Socket → FeedRead
  give_up : Socket → FeedRead

unfoldable pub feed_read : Pace → ℕ → ℕ → ReadResult × Socket → FeedRead
unfolding body_rate_ok
feed_read pace total remaining (got t [], socket) = give_up socket
feed_read pace total remaining (got t (b ∷ bs), socket) =
    if body_rate_ok (total - (remaining - length (b ∷ bs))) t pace.read_timeout pace.min_rate
    then forward (b ∷ bs) socket
    else give_up socket
feed_read pace total remaining (timed_out, socket) = give_up socket
feed_read pace total remaining (io_error, socket) = give_up socket

-- None when the fuel runs out.
unfoldable pub feed_loop : ℕ → Pace → ℕ → ℕ → ℕ → List Bytes → Socket → Option Feed
unfolding feed_read read
feed_loop zero pace total remaining accepts sent socket =
    if ltb 0 remaining then none else fed true sent socket
feed_loop (suc left) pace total remaining accepts sent socket = elim (ltb 0 remaining) [
  | false ↦ fed true sent socket
  | true ↦ elim (feed_read pace total remaining (read (min remaining chunk_size) socket)) [
    | give_up rest ↦ fed false sent rest
    | forward bs rest ↦ elim accepts [
      | zero ↦ fed false sent rest
      | suc a ↦ feed_loop left pace total (remaining - length bs) a (sent ++ (bs ∷ [])) rest
    ]
  ]
]

abbrev first_send : Pace → Bytes → ℕ → ℕ → Socket → Option Feed
first_send pace initial remaining zero socket = fed (remaining == 0) [] socket
first_send pace initial remaining (suc a) socket =
    feed_loop remaining pace (remaining + length initial) remaining a (initial ∷ []) socket

unfoldable pub feed_body : Pace → Bytes → ℕ → ℕ → Socket → Option Feed
unfolding feed_loop
feed_body pace initial remaining accepts socket =
    if is_empty initial
    then feed_loop remaining pace remaining remaining accepts [] socket
    else first_send pace initial remaining accepts socket

-- What the select of serve_connection gives while a head is awaited; `spent` is the end of the
-- budget, or of the idle time.
pub data Wake : Type 0 where
  data_read : Bytes → Wake
  spent read_error shutdown : Wake

pub data HeadResult : Type 0 where
  -- The length of the head, and the buffer.
  head : ℕ → Bytes → HeadResult
  too_large closed failed : HeadResult
  -- Nothing more has happened yet.
  awaits : Bytes → HeadResult

abbrev pub awaiting : Bytes → HeadResult
awaiting buf = if ltb max_header_bytes (length buf) then too_large else awaits buf

unfoldable pub read_head : Bytes → List Wake → HeadResult
unfolding find_headers_end
read_head buf [] = elim (find_headers_end buf) [ some pos ↦ head pos buf | none ↦ awaiting buf ]
read_head buf (wake ∷ later) = elim (find_headers_end buf) [
  | some pos ↦ head pos buf
  | none ↦ elim (ltb max_header_bytes (length buf)) [
    | true ↦ too_large
    | false ↦ elim wake [
      | data_read chunk ↦ elim chunk [ [] ↦ closed | b ∷ bs ↦ read_head (buf ++ (b ∷ bs)) later ]
      | spent ↦ closed
      | read_error ↦ failed
      | shutdown ↦ elim (is_empty buf) [ true ↦ closed | false ↦ read_head buf later ]
    ]
  ]
]

-- ===== src/Router/Http/Exchange.antt =====
-- crates/buran-router/src/http1.rs, dispatch_to_app: the exchange with a worker for one request.
-- What the pool answers is given; what happens on the worker's channel is a list.
pub mod Chunks
pub mod Buffering
pub mod Delivered
use buran.Prelude.{
  ℕ, zero, suc, ◌+◌, ◌*◌, Bool, true, false, ◌&&◌, ◌||◌, Option, none, some, List, [], ◌∷◌, ◌++◌,
  not, ltb, leb, ◌==◌, if◌then◌else◌, Bytes, length, codes,
}
use buran.Router.Dispatch.{
  WorkerEvent, DispatchError, SubmitBody, headers, chunk, flush, ws, «end», failed, queue_full,
  queue_timeout, worker_failed, inline, file, upgrade, stream,
}
use buran.Router.Http.Response.{
  Extra, reason_phrase, to_decimal, write_simple, write_chunk, last_chunk, response_head, line,
  crlf,
}

abbrev pub stream_threshold : ℕ
stream_threshold = 256 * 1024

abbrev pub inline_body_limit : ℕ
inline_body_limit = 96 * 1024

-- What a wait for the next event ends with: an event, the end of the channel, or the timeout.
pub data Happening : Type 0 where
  event : WorkerEvent → Happening
  hung_up expired : Happening

-- A body in memory, or fed from the socket: whether the feeding succeeds.
pub data BodyPlan : Type 0 where
  buffered : Bytes → BodyPlan
  streamed : Bool → BodyPlan

pub data Submitted : Type 0 where
  accepted : List Happening → Submitted
  rejected : DispatchError → Submitted

-- What the pool answers to this request.
pub record Answers : Type 0 where
  pub reserved : Bool
  pub spill_written : Bool
  pub submitted : Submitted

-- `http` has the status, and whether the read half came back from a streamed body; `unfinished` is
-- none of the code's outcomes: the list of happenings ended.
pub data AppRes : Type 0 where
  http : ℕ → Bool → AppRes
  upgraded : Bytes → List Happening → AppRes
  io_error : AppRes
  unfinished : AppRes

-- The bytes on the wire, the result, the number of Abort frames for the worker, and whether the
-- feeding task was aborted.
pub record Exchange : Type 0 where
  pub wire : Bytes
  pub result : AppRes
  pub aborts : ℕ
  pub feed_aborted : Bool

-- The settings of the connection that a response depends on.
pub record Client : Type 0 where
  pub server : Bytes
  pub extra : Extra
  pub keep_alive : Bool

abbrev pub has_feed : BodyPlan → Bool
has_feed (buffered body) = false
has_feed (streamed ok) = true

-- `reclaim_rd`: the read half, if there is a feeding task and it succeeds.
abbrev pub reclaim : BodyPlan → Bool
reclaim (buffered body) = false
reclaim (streamed ok) = ok

abbrev pub is_spilled : BodyPlan → Bool
is_spilled (buffered body) = ltb inline_body_limit (length body)
is_spilled (streamed ok) = false

-- How the body travels; the channel of a streamed one has the number zero here.
unfoldable pub submit_body : Bool → BodyPlan → SubmitBody
submit_body true plan = upgrade
submit_body false (buffered body) = if ltb inline_body_limit (length body) then file else inline
submit_body false (streamed ok) = stream 0

abbrev pub fails : Client → BodyPlan → ℕ → Bool → ℕ → Exchange
fails client plan status keep aborts = record {
  wire = write_simple client.server status (reason_phrase status) keep;
  result = http status false;
  aborts = aborts;
  feed_aborted = has_feed plan;
}

-- Why buffering ended.
pub data Ending : Type 0 where
  complete broken stalled gone flushed full waiting : Ending

pub record Buffered : Type 0 where
  pub bytes : Bytes
  pub ending : Ending
  pub later : List Happening

abbrev pub buffer_ends : Bytes → Ending → List Happening → Buffered
buffer_ends bytes ending later = record { bytes = bytes; ending = ending; later = later }

-- The loop that buffers until the threshold is passed.
unfoldable pub buffer_loop : Bytes → List Happening → Buffered
buffer_loop buf [] =
    buffer_ends buf (if ltb stream_threshold (length buf) then full else waiting) []
buffer_loop buf (h ∷ later) = elim (ltb stream_threshold (length buf)) [
  | true ↦ buffer_ends buf full (h ∷ later)
  | false ↦ elim h [
    | event e ↦ elim e [
      | headers status block ↦ buffer_loop buf later
      | chunk bytes ↦ buffer_loop (buf ++ bytes) later
      | flush ↦ buffer_ends buf flushed later
      | ws opcode payload ↦ buffer_loop buf later
      | «end» ↦ buffer_ends buf complete later
      | failed error ↦ buffer_ends buf broken later
    ]
    | hung_up ↦ buffer_ends buf gone later
    | expired ↦ buffer_ends buf stalled later
  ]
]

-- How a chunked body ended.
pub data StreamEnd : Type 0 where
  finished truncated open_ended : StreamEnd

pub record Streamed : Type 0 where
  pub out : Bytes
  pub stream_end : StreamEnd
  pub aborts : ℕ

abbrev pub stream_ends : Bytes → StreamEnd → ℕ → Streamed
stream_ends out stream_end aborts = record { out = out; stream_end = stream_end; aborts = aborts }

abbrev pub written_before : Bytes → Streamed → Streamed
written_before bytes s = record s { out = bytes ++ s.out }

-- The loop that streams; the flag says that the worker has flushed.
unfoldable pub stream_loop : Bool → List Happening → Streamed
unfolding write_chunk
stream_loop streaming [] = stream_ends [] open_ended 0
stream_loop streaming (event e ∷ later) = elim e [
  | headers status block ↦ stream_loop streaming later
  | chunk bytes ↦ written_before (write_chunk bytes) (stream_loop streaming later)
  | flush ↦ stream_loop true later
  | ws opcode payload ↦ stream_loop streaming later
  | «end» ↦ stream_ends last_chunk finished 0
  | failed error ↦ stream_ends [] truncated 0
]
stream_loop streaming (hung_up ∷ later) = stream_ends [] truncated 0
stream_loop streaming (expired ∷ later) =
    if streaming then stream_ends last_chunk finished 1 else stream_ends [] truncated 1

abbrev pub length_line : Bytes → Bytes
length_line body = line (codes "content-length") (to_decimal (length body)) ++ crlf

abbrev pub chunked_line : Bytes
chunked_line = line (codes "transfer-encoding") (codes "chunked") ++ crlf

abbrev pub stream_result : BodyPlan → ℕ → StreamEnd → AppRes
stream_result plan status finished = http status (reclaim plan)
stream_result plan status truncated = io_error
stream_result plan status open_ended = unfinished

abbrev pub is_truncated : StreamEnd → Bool
is_truncated truncated = true
is_truncated _ = false

unfoldable pub stream_body : BodyPlan → Bytes → ℕ → Bytes → Streamed → Exchange
unfolding write_chunk
stream_body plan head status bytes s = record {
  wire = head ++ (chunked_line ++ (write_chunk bytes ++ s.out));
  result = stream_result plan status s.stream_end;
  aborts = s.aborts;
  feed_aborted = is_truncated s.stream_end && has_feed plan;
}

abbrev pub whole_body : Bytes → Bytes → AppRes → Bool → Exchange
whole_body head bytes result feed_aborted = record {
  wire = head ++ (length_line bytes ++ bytes);
  result = result;
  aborts = 0;
  feed_aborted = feed_aborted;
}

unfoldable pub send_buffered : Client → BodyPlan → ℕ → Bytes → Buffered → Exchange
unfolding response_head stream_loop stream_body
send_buffered client plan status block b =
    let head = response_head client.server status block client.extra client.keep_alive in
    elim b.ending [
      | complete ↦ whole_body head b.bytes (http status (reclaim plan)) false
      | broken ↦ whole_body head b.bytes io_error (has_feed plan)
      | stalled ↦ fails client plan 504 client.keep_alive 1
      | gone ↦ fails client plan 504 client.keep_alive 0
      | flushed ↦ stream_body plan head status b.bytes (stream_loop true b.later)
      | full ↦ stream_body plan head status b.bytes (stream_loop false b.later)
      | waiting ↦ record { wire = []; result = unfinished; aborts = 0; feed_aborted = false }
    ]

-- The events of an accepted request.
unfoldable pub on_events : Client → BodyPlan → Bool → List Happening → Exchange
unfolding send_buffered buffer_loop
on_events client plan offered [] = record {
  wire = [];
  result = unfinished;
  aborts = 0;
  feed_aborted = false;
}
on_events client plan offered (hung_up ∷ later) = fails client plan 504 client.keep_alive 0
on_events client plan offered (expired ∷ later) = fails client plan 504 client.keep_alive 1
on_events client plan offered (event e ∷ later) = elim e [
  | headers status block ↦ elim (status == 101) [
    | true ↦
        if offered
        then record { wire = []; result = upgraded block later; aborts = 0; feed_aborted = false }
        else fails client plan 502 client.keep_alive 0
    | false ↦ send_buffered client plan status block (buffer_loop [] later)
  ]
  | _ ↦ fails client plan 502 client.keep_alive 0
]

abbrev pub on_submitted : Client → BodyPlan → Bool → Submitted → Exchange
on_submitted client plan offered (accepted happenings) = on_events client plan offered happenings
on_submitted client plan offered (rejected worker_failed) =
    fails client plan 502 client.keep_alive 0
on_submitted client plan offered (rejected queue_full) = fails client plan 503 client.keep_alive 0
on_submitted client plan offered (rejected queue_timeout) =
    fails client plan 503 client.keep_alive 0

-- A failure before there is a feeding task.
abbrev pub refuses : Client → ℕ → Bool → Exchange
refuses client status keep = fails client (buffered []) status keep 0

-- `offered` says that the request offers an upgrade that the pool supports; `pool` is none if there
-- is no application of that name.
unfoldable pub dispatch_to_app : Client → BodyPlan → Bool → Option Answers → Exchange
unfolding on_events
dispatch_to_app client plan offered none = refuses client 500 false
dispatch_to_app client plan offered (some a) =
    if a.reserved
    then (if is_spilled plan && not a.spill_written
        then refuses client 500 client.keep_alive
        else on_submitted client plan offered a.submitted)
    else refuses client 503 client.keep_alive

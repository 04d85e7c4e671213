-- ===== src/Router/Dispatch/Handshake.antt =====
-- The start of a worker's stream in crates/buran-router/src/dispatch.rs: `read_frame`, `handshake`,
-- and the delay before a crashed worker is spawned again.
pub mod Welcome
pub mod Backoff
pub mod Grants
use buran.Prelude.{
  is_some, ℕ, zero, suc, ◌+◌, ◌-◌, ◌*◌, ◌^◌, ◌⊎◌, inl, inr, Bool, true, false, not, Option, none,
  some, List, [], ◌∷◌, ◌++◌, ltb, ◌==◌, if◌then◌else◌, Bytes, length, take, drop, min,
}
use buran.Ipc.Error.{BwpError, Result, ok, err, panic, bwp_version}
use buran.Ipc.Frame
use buran.Ipc.Frame.{FrameHeader, FrameKind, frame_header_len}
use buran.Ipc.Hello
use buran.Ipc.Hello.{Hello, HelloAck, concurrency_unbounded}
use buran.Router.Dispatch
use buran.Router.Dispatch.{Pool, WorkerState, Effect}

abbrev pub max_frame_payload : ℕ
max_frame_payload = 64 * 1024 * 1024

abbrev pub default_concurrency_cap : ℕ
default_concurrency_cap = 1024

pub data ReadError : Type 0 where
  eof too_long panicked : ReadError
  bad_header : BwpError → ReadError

pub data Read : Type 0 where
  got : FrameHeader → Bytes → Bytes → Read
  failed : ReadError → Read

abbrev payload_of : FrameHeader → Bytes → Read
payload_of h rest =
    if ltb max_frame_payload h.payload_len
    then failed too_long
    else if ltb (length rest) h.payload_len
    then failed eof
    else got h (take h.payload_len rest) (drop h.payload_len rest)

abbrev header_of : Result FrameHeader → Bytes → Read
header_of (ok h) rest = payload_of h rest
header_of (err e) rest = failed (bad_header e)
header_of panic rest = failed panicked

-- One frame from all the bytes that the stream will ever have: the frame, its payload, and what
-- follows.
unfoldable pub read_frame : Bytes → Read
read_frame stream =
    if ltb (length stream) frame_header_len
    then failed eof
    else header_of (Frame.decode (take frame_header_len stream)) (drop frame_header_len stream)

pub data HandshakeError : Type 0 where
  no_hello_in_time expected_hello ack_failed : HandshakeError
  unreadable : ReadError → HandshakeError
  bad_hello : BwpError → HandshakeError
  unsupported : ℕ → HandshakeError
  panicked_hello : HandshakeError

-- What a worker may use at once: what it declares, under the configured cap, and always finite.
unfoldable pub effective_concurrency : ℕ → ℕ → ℕ
effective_concurrency concurrency cap =
    let declared = if concurrency == concurrency_unbounded then 2 ^ 32 - 1 else concurrency in
    let granted = min declared cap in
    if granted == 2 ^ 32 - 1 then default_concurrency_cap else granted

-- The first handshake sets the pool's numbers; later ones take them as they are.
unfoldable pub seed : Hello → Pool → Pool × ℕ
unfolding effective_concurrency
seed hello p =
    let granted = effective_concurrency hello.concurrency p.concurrency_cap in
    if p.granted == 0
    then (record p { granted = granted; caps = hello.capabilities }, granted)
    else (p, p.granted)

-- What a handshake leaves: the pool, a worker or an error, and what is sent.
pub record Handshake : Type 0 where
  pub pool : Pool
  pub outcome : HandshakeError ⊎ WorkerState
  pub effects : List Effect

abbrev pub refuse : Pool → HandshakeError → Handshake
refuse p e = record { pool = p; outcome = inl e; effects = [] }

abbrev ack_frame : ℕ → ℕ → Effect
ack_frame w granted =
    let ack = Hello.encode_ack (record { version = bwp_version; concurrency = granted }) in
    Dispatch.send_frame w (Frame.new Frame.hello_ack 0 (length ack)) ack

abbrev pub greet : ℕ → ℕ → Bool → Pool × ℕ → Handshake
greet w token ack_sent (p, granted) = record {
  pool = p;
  outcome =
      if ack_sent
      then inr (record { token = token; granted = granted; kill_requested = false })
      else inl ack_failed;
  effects = ack_frame w granted ∷ [];
}

unfoldable pub on_hello : ℕ → ℕ → Bool → Pool → Result Hello → Handshake
unfolding seed
on_hello w token ack_sent p (ok hello) =
    if not (hello.version == bwp_version)
    then refuse p (unsupported hello.version)
    else greet w token ack_sent (seed hello p)
on_hello w token ack_sent p (err e) = refuse p (bad_hello e)
on_hello w token ack_sent p panic = refuse p panicked_hello

abbrev is_hello : FrameKind → Bool
is_hello Frame.hello = true
is_hello _ = false

-- `none` is the elapse of `HANDSHAKE_TIMEOUT`. `ack_sent` says whether the write of the answer
-- succeeds.
unfoldable pub handshake : ℕ → ℕ → Bool → Option Read → Pool → Handshake
unfolding on_hello
handshake w token ack_sent none p = record {
  pool = p;
  outcome = inl no_hello_in_time;
  effects = Dispatch.kill token ∷ [];
}
handshake w token ack_sent (some (failed e)) p = refuse p (unreadable e)
handshake w token ack_sent (some (got h payload rest)) p =
    if not (is_hello h.kind)
    then refuse p expected_hello
    else on_hello w token ack_sent p (Hello.decode payload)

abbrev pub crash_backoff_base : ℕ
crash_backoff_base = 100

abbrev pub crash_backoff_max : ℕ
crash_backoff_max = 30000

-- In milliseconds. `saturating_sub` is the subtraction of ℕ, and the product is far from
-- saturation.
unfoldable pub crash_backoff : ℕ → ℕ
crash_backoff streak =
    let shift = min (streak - 1) 9 in min (crash_backoff_base * 2 ^ shift) crash_backoff_max

-- `retire_and_refill`: a lost worker, and a new one if the pool falls below its floor.
unfoldable pub retire_and_refill : Pool → Pool × List Effect
unfolding Dispatch.spawn_worker
retire_and_refill p =
    let floor = if is_some p.idle_exit then p.spare else p.max in
    let left = record p { active = Dispatch.decr p.active } in
    if ltb (p.active - 1) floor then Dispatch.spawn_worker left else (left, [])

-- ===== src/Router/Dispatch.antt =====
-- crates/buran-router/src/dispatch.rs: the state of a worker pool, and what the connections do
-- with it: reserving a queue slot, submitting a request, dropping its response. A channel is its
-- number; what the code sends over channels and sockets is a list of effects in the order of
-- sending. A `u32` counter wraps at 2 ^ 32.
pub mod State
pub use State.*
pub mod Ids
pub mod Counting
pub mod Reader
pub mod Handshake
pub mod Sweep
pub mod Stats
pub mod System
pub mod Pump
mod Tests
use buran.Prelude.{
  is_some, ℕ, zero, suc, ◌+◌, ◌-◌, ◌*◌, ◌%◌, ◌^◌, ◌⊎◌, inl, inr, Bool, true, false, not, ◌&&◌, ◌||◌,
  Option, none, some, List, [], ◌∷◌, ◌++◌, ltb, leb, ◌==◌, if◌then◌else◌, Bytes, length, bit_and,
  Map, get, insert, remove, max as at_least,
}
use buran.Ipc.Error.{flag_body_file, flag_body_stream, flag_upgrade, cap_body_stream, cap_websocket}
use buran.Ipc.Frame
use buran.Ipc.Frame.{FrameHeader}

unfoldable pub streams_body : Pool → Bool
streams_body p = not (bit_and p.caps cap_body_stream == 0)

unfoldable pub supports_websocket : Pool → Bool
supports_websocket p = not (bit_and p.caps cap_websocket == 0)

unfoldable pub worker_concurrency : Pool → ℕ
worker_concurrency p = if p.granted == 0 then 1 else p.granted

unfoldable pub capacity : Pool → ℕ
capacity p = p.active * worker_concurrency p

unfoldable pub live_workers : Pool → ℕ
live_workers p = length p.workers

unfoldable pub count_claimed : Map Pending → ℕ
count_claimed [] = 0
count_claimed ((_, p) ∷ m) = (if is_some p.claimed_by then 1 else 0) + count_claimed m

pub record PoolStats : Type 0 where
  pub workers : ℕ
  pub idle : ℕ
  pub queued : ℕ

-- `saturating_sub` is the subtraction of ℕ.
unfoldable pub stats : Pool → PoolStats
unfolding live_workers worker_concurrency count_claimed
stats p =
    let claimed = count_claimed p.pending in
    record {
      workers = live_workers p % 2 ^ 32;
      idle = live_workers p * worker_concurrency p - claimed;
      queued = p.in_flight - claimed;
    }

-- `try_reserve`: a permit of the semaphore, or `queue_full`.
unfoldable pub try_reserve : Pool → Option Pool
try_reserve p = if p.queue == 0 then none else some (record p { queue = p.queue - 1 })

-- The loop over `next_id`, on fuel: the first candidate that is not in flight, and the counter
-- behind it.
unfoldable pub allocate_id : ℕ → ℕ → Map Pending → Option (ℕ × ℕ)
allocate_id zero candidate pending = none
allocate_id (suc fuel) candidate pending =
    let later = allocate_id fuel (incr candidate) pending in
    if is_some (get candidate pending) then later else some (candidate, incr candidate)

abbrev pub flags_of : SubmitBody → ℕ
flags_of inline = 0
flags_of file = flag_body_file
flags_of upgrade = flag_upgrade
flags_of (stream _) = flag_body_stream

abbrev pub receiver_of : SubmitBody → Option ℕ
receiver_of (stream rx) = some rx
receiver_of _ = none

abbrev pub new_pending : ℕ → SubmitBody → Pending
new_pending events body = record {
  events = events;
  claimed_by = none;
  claimed_at = none;
  abort_sent = false;
  aborted_at = none;
  body = receiver_of body;
}

-- A new request takes its place in `pending`.
unfoldable pub enlist : ℕ → ℕ → Pending → Pool → Pool
enlist id next entry p = record p {
  pending = insert id entry p.pending;
  next_id = next;
  in_flight = incr p.in_flight;
}

unfoldable pub spawn_worker : Pool → Pool × List Effect
spawn_worker p =
    (record p { active = incr p.active; worker_seq = incr p.worker_seq }, spawn p.worker_seq ∷ [])

pub data Processes : Type 0 where
  fixed : ℕ → Processes
  auto : Processes
  dynamic : ℕ → ℕ → ℕ → Processes

-- What a pool reads of its `Application`: `processes`, `queue.max`, `limits.task_timeout` and
-- `concurrency`.
pub record Application : Type 0 where
  pub processes : Processes
  pub queue_max : ℕ
  pub task_timeout : ℕ
  pub concurrency : Option ℕ

-- The numbers of workers: at the start, at most, and spare; and the time of the idle exit.
unfoldable pub sizes : ℕ → Processes → ℕ × ℕ × ℕ × Option ℕ
sizes auto_worker_count (fixed n) = (n, n, n, none)
sizes auto_worker_count auto = (auto_worker_count, auto_worker_count, auto_worker_count, none)
sizes auto_worker_count (dynamic limit spare idle_timeout) =
    let floor = at_least 1 spare in (floor, limit, floor, some idle_timeout)

unfoldable pub spawn_workers : ℕ → Pool → Pool × List Effect
unfolding spawn_worker
spawn_workers zero p = (p, [])
spawn_workers (suc n) p =
    let (q, effects) = spawn_worker p in let (r, later) = spawn_workers n q in (r, effects ++ later)

abbrev pub cap_of : Option ℕ → ℕ
cap_of none = 2 ^ 32 - 1
cap_of (some n) = n

abbrev pub fresh_pool : Application → ℕ × ℕ × ℕ × Option ℕ → Pool
fresh_pool app (initial, limit, floor, idle) = record {
  pending = [];
  next_id = 1;
  queue = app.queue_max;
  task_timeout = app.task_timeout;
  max = limit;
  spare = floor;
  idle_exit = idle;
  active = 0;
  in_flight = 0;
  worker_seq = 0;
  crash_streak = 0;
  concurrency_cap = cap_of app.concurrency;
  granted = 0;
  caps = 0;
  workers = [];
  pings = [];
}

-- `Pool::start`, for the number of CPUs that `auto_worker_count` finds.
unfoldable pub start : ℕ → Application → Pool × List Effect
unfolding sizes spawn_workers
start auto_worker_count app =
    let numbers = sizes auto_worker_count app.processes in
    spawn_workers numbers.0 (fresh_pool app numbers)

-- Growth on demand.
unfoldable pub grow : Pool → Pool × List Effect
unfolding capacity spawn_worker worker_concurrency
grow p =
    if is_some p.idle_exit && (leb (capacity p) p.in_flight && ltb p.active p.max)
    then spawn_worker p
    else (p, [])

unfoldable pub remove_pending : ℕ → Pool → Pool
remove_pending id p =
    if is_some (get id p.pending)
    then record p { pending = remove id p.pending; in_flight = decr p.in_flight }
    else p

abbrev pub unclaimed : Option Pending → Bool
unclaimed none = false
unclaimed (some p) = not (is_some p.claimed_by)

unfoldable pub remove_if_unclaimed : ℕ → Pool → Pool
remove_if_unclaimed id p =
    if unclaimed (get id p.pending)
    then record p { pending = remove id p.pending; in_flight = decr p.in_flight }
    else p

-- A permit goes back when its owner is dropped.
abbrev pub release : Pool → Pool
release p = record p { queue = p.queue + 1 }

-- How the send on the work socket ends.
pub data SendOutcome : Type 0 where
  sent send_failed timed_out : SendOutcome

unfoldable pub finish_submit : SendOutcome → ℕ → Pool → Pool × (DispatchError ⊎ ℕ)
unfolding remove_pending
finish_submit sent id p = (p, inr id)
finish_submit send_failed id p = (release (remove_pending id p), inl worker_failed)
finish_submit timed_out id p = (release (remove_pending id p), inl queue_timeout)

pub record Submitted : Type 0 where
  pub pool : Pool
  pub effects : List Effect
  pub datagram : Bytes
  pub result : DispatchError ⊎ ℕ

abbrev submit_as : Pool → ℕ → Bytes → SubmitBody → SendOutcome → Option (ℕ × ℕ) → Option Submitted
submit_as p events payload body outcome none = none
submit_as p events payload body outcome (some (id, next)) =
    let header = record (Frame.new Frame.request id (length payload)) { flags = flags_of body } in
    let (grown, effects) = grow (enlist id next (new_pending events body) p) in
    let (pool, result) = finish_submit outcome id grown in
    some (record {
      pool = pool;
      effects = effects;
      datagram = Frame.encode header ++ payload;
      result = result;
    })

-- The whole of `submit` under a permit taken before; one candidate more than requests in flight
-- is fuel enough. `none` means that the fuel ran out.
unfoldable pub submit : Pool → ℕ → Bytes → SubmitBody → SendOutcome → Option Submitted
unfolding allocate_id enlist grow finish_submit
submit p events payload body outcome =
    submit_as p events payload body outcome
      (allocate_id (suc (length p.pending)) p.next_id p.pending)

-- `drop` of a `ResponseStream`: its request, and then its permit.
unfoldable pub drop_response : ℕ → Pool → Pool
unfolding remove_if_unclaimed
drop_response id p = release (remove_if_unclaimed id p)

-- ===== src/Router/Dispatch/State.antt =====
-- crates/buran-router/src/dispatch.rs: the state of a worker pool, and the effects that the code has on
-- channels and sockets. A channel is its number.
use buran.Prelude.{ℕ, ◌+◌, ◌-◌, ◌%◌, ◌^◌, Bool, Option, List, Bytes, Map}
use buran.Ipc.Frame.{FrameHeader}

abbrev pub incr : ℕ → ℕ
incr n = (n + 1) % 2 ^ 32

abbrev pub decr : ℕ → ℕ
decr n = (n + (2 ^ 32 - 1)) % 2 ^ 32

pub data DispatchError : Type 0 where
  queue_full queue_timeout worker_failed : DispatchError

pub data WorkerEvent : Type 0 where
  headers : ℕ → Bytes → WorkerEvent
  chunk : Bytes → WorkerEvent
  flush : WorkerEvent
  ws : ℕ → Bytes → WorkerEvent
  «end» : WorkerEvent
  failed : DispatchError → WorkerEvent

-- `stream` has the channel of the chunks.
pub data SubmitBody : Type 0 where
  inline file upgrade : SubmitBody
  stream : ℕ → SubmitBody

pub record Pending : Type 0 where
  pub events : ℕ
  pub claimed_by : Option ℕ
  pub claimed_at : Option ℕ
  pub abort_sent : Bool
  pub aborted_at : Option ℕ
  pub body : Option ℕ

pub record WorkerState : Type 0 where
  pub token : ℕ
  pub granted : ℕ
  pub kill_requested : Bool

-- A probe in flight: the worker and the task that it asks about, and the channel for the answer.
pub record Probe : Type 0 where
  pub worker_id : ℕ
  pub task_id : ℕ
  pub answer : ℕ

-- `queue` counts the free permits of the semaphore. Times are seconds.
pub record Pool : Type 0 where
  pub pending : Map Pending
  pub next_id : ℕ
  pub queue : ℕ
  pub task_timeout : ℕ
  pub max : ℕ
  pub spare : ℕ
  pub idle_exit : Option ℕ
  pub active : ℕ
  pub in_flight : ℕ
  pub worker_seq : ℕ
  pub crash_streak : ℕ
  pub concurrency_cap : ℕ
  pub granted : ℕ
  pub caps : ℕ
  pub workers : Map WorkerState
  pub pings : List Probe

pub data Effect : Type 0 where
  -- An event for a client's channel; `try_send_event` drops it if the channel is full.
  send_event : ℕ → WorkerEvent → Effect
  try_send_event : ℕ → WorkerEvent → Effect
  -- The answer to a probe.
  send_status : ℕ → ℕ → Effect
  -- A frame with its payload for a worker's stream.
  send_frame : ℕ → FrameHeader → Bytes → Effect
  -- Chunks of a request's body for the worker that claimed it.
  pump_body : ℕ → ℕ → ℕ → Effect
  kill : ℕ → Effect
  spawn : ℕ → Effect

-- ===== src/Router/Dispatch/Pump.antt =====
-- crates/buran-router/src/dispatch.rs: what goes to the worker of a request, `pump_body`, `send_ws`
-- and `probe`, and the decision of the janitor.
pub mod Received
use buran.Prelude.{
  div_ceil, ℕ, zero, suc, ◌+◌, ◌%◌, ◌^◌, ◌/◌, Bool, true, false, not, Option, none, some, List, [],
  ◌∷◌, ◌++◌, ltb, ◌==◌, if◌then◌else◌, Bytes, length, Map, get,
}
use buran.Ipc.Frame
use buran.Ipc.Frame.{FrameHeader}
use buran.Router.Dispatch
use buran.Router.Dispatch.{Pool, Pending, WorkerState, Effect, Probe, worker_concurrency}
use buran.Router.Dispatch.Reader.{drop_probe}

-- `send_frame`: a frame is written in one piece.
unfoldable pub frame_bytes : FrameHeader → Bytes → Bytes
unfolding Frame.encode
frame_bytes h payload = Frame.encode h ++ payload

abbrev pub body_frame : ℕ → Bytes → Bytes
body_frame id chunk = frame_bytes (Frame.new Frame.request_body id (length chunk % 2 ^ 32)) chunk

abbrev pub terminator : ℕ → ℕ → Bytes
terminator id zero = []
terminator id (suc writes) = frame_bytes (Frame.new Frame.request_body id 0) []

-- `writes` frames go out before the worker dies.
unfoldable pub pump_body : ℕ → ℕ → List Bytes → Bytes
unfolding frame_bytes
pump_body id writes [] = terminator id writes
pump_body id writes ([] ∷ chunks) = pump_body id writes chunks
pump_body id zero ((b ∷ bs) ∷ chunks) = []
pump_body id (suc writes) ((b ∷ bs) ∷ chunks) = body_frame id (b ∷ bs) ++ pump_body id writes chunks

-- The worker that claimed a request, if it is still there.
abbrev pub worker_in : Pool → Option ℕ → Option (ℕ × WorkerState)
worker_in p none = none
worker_in p (some w) = elim (get w p.workers) [ none ↦ none | some worker ↦ some (w, worker) ]

abbrev pub claimant : Pool → Option Pending → Option (ℕ × WorkerState)
claimant p none = none
claimant p (some entry) = worker_in p entry.claimed_by

abbrev pub ws_header : ℕ → ℕ → Bytes → FrameHeader
ws_header id opcode payload = record (Frame.new Frame.ws_message id (length payload % 2 ^ 32)) {
  aux = opcode;
}

abbrev pub send_to : ℕ → ℕ → Bytes → Option (ℕ × WorkerState) → Option (List Effect)
send_to id opcode payload none = none
send_to id opcode payload (some (w, worker)) =
    some (Dispatch.send_frame w (ws_header id opcode payload) payload ∷ [])

-- `none` is an error: no worker has the request.
unfoldable pub send_ws : ℕ → ℕ → Bytes → Pool → Option (List Effect)
send_ws id opcode payload p = send_to id opcode payload (claimant p (get id p.pending))

-- `HashMap::insert` of a probe, which takes the place of one with the same key.
abbrev pub put_probe : ℕ → ℕ → ℕ → Pool → Pool
put_probe w id channel p = record p {
  pings = record { worker_id = w; task_id = id; answer = channel } ∷ drop_probe w id p.pings;
}

abbrev pub forget_probe : ℕ → ℕ → Pool → Pool
forget_probe w id p = record p { pings = drop_probe w id p.pings }

-- `probe` up to its wait, over whether the `Ping` can be written.
abbrev pub ask : ℕ → ℕ → ℕ → Bool → Pool → Option WorkerState → Pool × List Effect
ask w id channel written p none = (p, [])
ask w id channel true p (some worker) =
    (put_probe w id channel p, Dispatch.send_frame w (Frame.new Frame.ping id 0) [] ∷ [])
ask w id channel false p (some worker) = (forget_probe w id p, [])

unfoldable pub probe : ℕ → ℕ → ℕ → Bool → Pool → Pool × List Effect
unfolding drop_probe
probe w id channel written p = ask w id channel written p (get w p.workers)

-- The end of the wait without an answer.
unfoldable pub give_up_probe : ℕ → ℕ → Pool → Pool
unfolding drop_probe
give_up_probe w id p = forget_probe w id p

-- One tick of the janitor: is a `Retire` sent?
unfoldable pub retires_one : Pool → Bool
unfolding worker_concurrency
retires_one p = ltb (div_ceil p.in_flight (worker_concurrency p) + p.spare) p.active

-- ===== src/Router/Dispatch/Reader.antt =====
-- `reader_task` of crates/buran-router/src/dispatch.rs: what the router does with a frame from a
-- worker, and when the worker's stream ends. `claimed` holds the requests of this worker; a set is
-- a list without repetitions.
pub mod Claiming
pub mod Ownership
pub mod Tracking
pub mod Fairness
pub mod Exit
use buran.Prelude.{
  is_some, ℕ, zero, suc, ◌+◌, Bool, true, false, not, ◌&&◌, ◌||◌, Option, none, some, List, [], ◌∷◌,
  ◌++◌, ltb, leb, ◌==◌, if◌then◌else◌, Bytes, length, Map, get, insert, remove, any, min, max,
}
use buran.Ipc.Frame
use buran.Ipc.Frame.{FrameHeader, FrameKind}
use buran.Router.Dispatch.{
  Pool, Pending, WorkerState, Probe, WorkerEvent, Effect, unclaimed, decr, remove_pending,
  worker_failed,
}
use buran.Router.Dispatch

unfoldable pub member : ℕ → List ℕ → Bool
member id [] = false
member id (x ∷ xs) = id == x || member id xs

unfoldable pub delete : ℕ → List ℕ → List ℕ
delete id [] = []
delete id (x ∷ xs) = let rest = delete id xs in if id == x then rest else x ∷ rest

abbrev pub set_insert : ℕ → List ℕ → List ℕ
set_insert id xs = if member id xs then xs else id ∷ xs

-- What one frame leaves; `goes_on` is false after the `break`.
pub record Turn : Type 0 where
  pub pool : Pool
  pub claimed : List ℕ
  pub effects : List Effect
  pub goes_on : Bool

abbrev pub skip : Pool → List ℕ → Turn
skip p claimed = record { pool = p; claimed = claimed; effects = []; goes_on = true }

-- `claim`, `log` and `pong` pass the gate for every id.
abbrev pub is_open : FrameKind → Bool
is_open Frame.claim = true
is_open Frame.log = true
is_open Frame.pong = true
is_open _ = false

-- `kill_requested.swap(true)`, and the kill if it was not requested.
unfoldable pub request_kill : ℕ → WorkerState → Pool → Pool × List Effect
request_kill w worker p = if worker.kill_requested then (p, []) else (
  record p { workers = insert w (record worker { kill_requested = true }) p.workers },
  Dispatch.kill worker.token ∷ [],
)

abbrev pub pump : ℕ → ℕ → Option ℕ → List Effect
pump w id none = []
pump w id (some rx) = Dispatch.pump_body w id rx ∷ []

abbrev pub claimed_entry : ℕ → ℕ → Pending → Pending
claimed_entry now w entry = record entry { claimed_by = some w; claimed_at = some now; body = none }

-- Only a request that is pending and unclaimed is claimed.
unfoldable pub claim_entry : ℕ → ℕ → ℕ → List ℕ → Pool → Option Pending → Turn
claim_entry now w id claimed p none = skip p claimed
claim_entry now w id claimed p (some entry) =
    if is_some entry.claimed_by then skip p claimed else record {
      pool = record p { pending = insert id (claimed_entry now w entry) p.pending };
      claimed = set_insert id claimed;
      effects = pump w id entry.body;
      goes_on = true;
    }

unfoldable pub on_claim : ℕ → ℕ → WorkerState → ℕ → List ℕ → Pool → Turn
unfolding request_kill claim_entry
on_claim now w worker id claimed p =
    if leb worker.granted (length claimed)
    then (let (q, effects) = request_kill w worker p in
        record { pool = q; claimed = claimed; effects = effects; goes_on = false })
    else claim_entry now w id claimed p (get id p.pending)

abbrev pub deliver : Option Pending → WorkerEvent → List Effect
deliver none event = []
deliver (some entry) event = Dispatch.send_event entry.events event ∷ []

-- An event that leaves the request in its slot.
unfoldable pub forward : ℕ → WorkerEvent → List ℕ → Pool → Turn
forward id event claimed p = record {
  pool = p;
  claimed = claimed;
  effects = deliver (get id p.pending) event;
  goes_on = true;
}

-- `Error` and `Done`: the request leaves its slot, and the client gets the last event.
unfoldable pub finish_request : ℕ → WorkerEvent → List ℕ → Pool → Turn
finish_request id event claimed p = record {
  pool = remove_pending id p;
  claimed = delete id claimed;
  effects = deliver (get id p.pending) event;
  goes_on = true;
}

abbrev pub is_probe : ℕ → ℕ → Probe → Bool
is_probe w id probe = w == probe.worker_id && id == probe.task_id

unfoldable pub take_probe : ℕ → ℕ → List Probe → Option ℕ
take_probe w id [] = none
take_probe w id (probe ∷ probes) =
    if is_probe w id probe then some probe.answer else take_probe w id probes

unfoldable pub drop_probe : ℕ → ℕ → List Probe → List Probe
drop_probe w id [] = []
drop_probe w id (probe ∷ probes) =
    let rest = drop_probe w id probes in if is_probe w id probe then rest else probe ∷ rest

abbrev pub answer : Option ℕ → ℕ → List Effect
answer none status = []
answer (some channel) status = Dispatch.send_status channel status ∷ []

unfoldable pub on_pong : ℕ → ℕ → ℕ → List ℕ → Pool → Turn
on_pong w id status claimed p = record {
  pool = record p { pings = drop_probe w id p.pings };
  claimed = claimed;
  effects = answer (take_probe w id p.pings) status;
  goes_on = true;
}

-- `clamp(100, 599)`.
abbrev pub clamp_status : ℕ → ℕ
clamp_status aux = min (max aux 100) 599

unfoldable pub on_kind :
    FrameKind → ℕ → ℕ → WorkerState → FrameHeader → Bytes → List ℕ → Pool → Turn
unfolding on_claim forward finish_request on_pong
on_kind Frame.claim now w worker h payload claimed p = on_claim now w worker h.request_id claimed p
on_kind Frame.response_headers now w worker h payload claimed p =
    forward h.request_id (Dispatch.headers (clamp_status h.aux) payload) claimed p
on_kind Frame.response_body now w worker h payload claimed p =
    forward h.request_id (Dispatch.chunk payload) claimed p
on_kind Frame.flush now w worker h payload claimed p = forward h.request_id Dispatch.flush claimed p
on_kind Frame.ws_message now w worker h payload claimed p =
    forward h.request_id (Dispatch.ws h.aux payload) claimed p
on_kind Frame.«end» now w worker h payload claimed p = forward h.request_id Dispatch.«end» claimed p
on_kind Frame.error now w worker h payload claimed p =
    finish_request h.request_id (Dispatch.failed worker_failed) claimed p
on_kind Frame.done now w worker h payload claimed p =
    finish_request h.request_id Dispatch.«end» claimed p
on_kind Frame.pong now w worker h payload claimed p = on_pong w h.request_id h.aux claimed p
on_kind _ now w worker h payload claimed p = skip p claimed

-- One round of the loop, on a frame that `read_frame` returned.
unfoldable pub on_frame : ℕ → ℕ → WorkerState → FrameHeader → Bytes → List ℕ → Pool → Turn
unfolding on_kind member
on_frame now w worker h payload claimed p =
    if not (is_open h.kind) && not (member h.request_id claimed)
    then skip p claimed
    else on_kind h.kind now w worker h payload claimed p

abbrev pub fail : Option Pending → List Effect
fail none = []
fail (some entry) = Dispatch.try_send_event entry.events (Dispatch.failed worker_failed) ∷ []

-- The end of the reader: what the worker claimed and did not finish fails.
unfoldable pub fail_claimed : List ℕ → Pool → Pool × List Effect
unfolding remove_pending
fail_claimed [] p = (p, [])
fail_claimed (id ∷ ids) p =
    let (q, effects) = fail_claimed ids (remove_pending id p) in
    (q, fail (get id p.pending) ++ effects)

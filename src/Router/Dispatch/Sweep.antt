-- ===== src/Router/Dispatch/Sweep.antt =====
-- The enforcement of `task_timeout` in crates/buran-router/src/dispatch.rs: `sweep_decide`,
-- `abort_task` and `confirm_and_kill`. The code walks a hash map in its own order; here the order is
-- that of the list.
pub mod Candidates
use buran.Prelude.{
  ℕ, zero, suc, ◌+◌, ◌-◌, ◌/◌, Bool, true, false, not, ◌&&◌, Option, none, some, List, [], ◌∷◌,
  ◌++◌, leb, ◌==◌, if◌then◌else◌, max, Map, get, insert,
}
use buran.Ipc.Error.{pong_idle}
use buran.Ipc.Frame
use buran.Router.Dispatch
use buran.Router.Dispatch.{Pool, Pending, WorkerState, Effect}

-- What the sweep does with one request.
pub data Verdict : Type 0 where
  leave send_abort : Verdict
  defiant : ℕ → Verdict

abbrev pub defies : ℕ → ℕ → Option ℕ → Option ℕ → Verdict
defies now grace (some aborted_at) (some w) =
    if leb grace (now - aborted_at) then defiant w else leave
defies now grace _ _ = leave

abbrev pub judge_claimed : ℕ → ℕ → ℕ → Pending → Option ℕ → Verdict
judge_claimed now grace task_timeout p none = leave
judge_claimed now grace task_timeout p (some claimed_at) =
    if not p.abort_sent
    then (if leb task_timeout (now - claimed_at) then send_abort else leave)
    else defies now grace p.aborted_at p.claimed_by

unfoldable pub judge : ℕ → ℕ → ℕ → Pending → Verdict
judge now grace task_timeout p = judge_claimed now grace task_timeout p p.claimed_at

abbrev pub apply : ℕ → Verdict → Pending → Pending
apply now send_abort p = record p { abort_sent = true; aborted_at = some now }
apply now _ p = p

-- The counts of defiant tasks, each with a task to probe.
abbrev pub tally : ℕ → Option (ℕ × ℕ) → ℕ × ℕ
tally id none = (1, id)
tally id (some (count, sample)) = (count + 1, sample)

pub record Swept : Type 0 where
  pub pending : Map Pending
  pub to_abort : List ℕ
  pub defiant_slots : Map (ℕ × ℕ)

abbrev pub record_verdict : ℕ → Pending → Verdict → Swept → Swept
record_verdict id p leave s = record s { pending = (id, p) ∷ s.pending }
record_verdict id p send_abort s = record s {
  pending = (id, p) ∷ s.pending;
  to_abort = id ∷ s.to_abort;
}
record_verdict id p (defiant w) s = record s {
  pending = (id, p) ∷ s.pending;
  defiant_slots = insert w (tally id (get w s.defiant_slots)) s.defiant_slots;
}

unfoldable pub sweep_pending : ℕ → ℕ → ℕ → Map Pending → Swept
unfolding judge
sweep_pending now grace task_timeout [] = record { pending = []; to_abort = []; defiant_slots = [] }
sweep_pending now grace task_timeout ((id, p) ∷ m) =
    let verdict = judge now grace task_timeout p in
    record_verdict id (apply now verdict p) verdict (sweep_pending now grace task_timeout m)

pub record KillCandidate : Type 0 where
  pub worker_id : ℕ
  pub token : ℕ
  pub probe_task : ℕ

abbrev pub threshold : ℕ → ℕ
threshold granted = max (granted / 2) 1

unfoldable pub candidate : ℕ → ℕ → ℕ → Option WorkerState → List KillCandidate
candidate w count sample none = []
candidate w count sample (some worker) =
    if leb (threshold worker.granted) count && not worker.kill_requested
    then record { worker_id = w; token = worker.token; probe_task = sample } ∷ []
    else []

unfoldable pub candidates : Map WorkerState → Map (ℕ × ℕ) → List KillCandidate
unfolding candidate
candidates workers [] = []
candidates workers ((w, (count, sample)) ∷ slots) =
    candidate w count sample (get w workers) ++ candidates workers slots

-- The pool, the ids to abort, and the workers to kill if a probe does not spare them.
unfoldable pub sweep_decide : ℕ → ℕ → Pool → Pool × List ℕ × List KillCandidate
unfolding sweep_pending candidates
sweep_decide now grace p =
    let swept = sweep_pending now grace p.task_timeout p.pending in
    (record p { pending = swept.pending }, swept.to_abort, candidates p.workers swept.defiant_slots)

abbrev abort_frame : ℕ → Option ℕ → Map WorkerState → List Effect
abort_frame id none workers = []
abort_frame id (some w) workers = elim (get w workers) [
  | none ↦ []
  | some worker ↦ Dispatch.send_frame w (Frame.new Frame.abort id 0) [] ∷ []
]

abbrev owner : Option Pending → Option ℕ
owner none = none
owner (some p) = p.claimed_by

unfoldable pub abort_task : ℕ → Pool → List Effect
abort_task id p = abort_frame id (owner (get id p.pending)) p.workers

-- `confirm_and_kill` for one candidate. `status` is the outcome of `probe`: what the worker's `Pong`
-- says, or `none` for a worker that is gone or silent.
abbrev pub is_idle : Option ℕ → Bool
is_idle none = false
is_idle (some status) = status == pong_idle

abbrev pub kill_worker : KillCandidate → Option WorkerState → Pool → Pool × List Effect
kill_worker c none p = (p, [])
kill_worker c (some worker) p = if worker.kill_requested then (p, []) else (
  record p { workers = insert c.worker_id (record worker { kill_requested = true }) p.workers },
  Dispatch.kill c.token ∷ [],
)

unfoldable pub confirm_and_kill : KillCandidate → Option ℕ → Pool → Pool × List Effect
confirm_and_kill c status p =
    if is_idle status then (p, []) else kill_worker c (get c.worker_id p.workers) p

-- ===== src/Router/Dispatch/Tests.antt =====
-- Runs of a worker pool, and the theorems at concrete inputs.
use buran.Prelude.{
  ℕ, suc, ◌^◌, ◌%◌, ◌+◌, ◌<◌, ◌≡◌, refl, ap, ◌∙◌, true, false, some, none, [], ◌∷◌, ◌++◌, arith,
  length, Map, get, insert, remove, All, codes,
}
use buran.Ipc.Frame
use buran.Ipc.Frame.{FrameHeader}
use buran.Ipc.Hello.{Hello}
use buran.Router.Dispatch
use buran.Router.Dispatch.{
  Application, Pool, Pending, WorkerState, PoolStats, start, enlist, new_pending, allocate_id, sent,
  timed_out, finish_submit, stats, count_claimed, live_workers, worker_concurrency,
}
use buran.Router.Dispatch.Ids
use buran.Router.Dispatch.Counting.{IsCounted}
use buran.Router.Dispatch.Reader.{Turn, member, on_frame, fail_claimed}
use buran.Router.Dispatch.Reader.Ownership.{IsFair, Owns, Holds, Keeps}
use buran.Router.Dispatch.Reader.Exit
use buran.Router.Dispatch.Reader.Fairness
use buran.Router.Dispatch.Handshake.{handshake, read_frame}
use buran.Router.Dispatch.Handshake.Grants
use buran.Router.Dispatch.Handshake.Welcome
use buran.Router.Dispatch.Sweep.{sweep_decide}
use buran.Router.Dispatch.Sweep.Candidates
use buran.Router.Dispatch.System.{
  System, Steps, started, join, enter, settle, frame, stay, then_step,
}
use buran.Router.Dispatch.System.Reached
use buran.Router.Dispatch.System.Counter.{Running, Moves, running, halt, then_move, act, add}
use buran.Router.Dispatch.System.Honest.{AreHonest}
use buran.Router.Dispatch.System.Sound.{IsSound}

abbrev app : Application
app = record { processes = Dispatch.fixed 2; queue_max = 4; task_timeout = 60; concurrency = none }

abbrev worker : WorkerState
worker = record { token = 77; granted = 2; kill_requested = false }

abbrev fresh : System
fresh = started 2 app

abbrev joined : System
joined = record {
  pool = record fresh.pool { workers = insert 0 worker fresh.pool.workers };
  readers = insert 0 [] fresh.readers;
}

abbrev entered : System
entered = record joined { pool = enlist 1 2 (new_pending 9 Dispatch.inline) joined.pool }

abbrev claim_frame : FrameHeader
claim_frame = Frame.new Frame.claim 1 0

abbrev claimed : System
claimed = record {
  pool = Turn.pool (on_frame 100 0 worker claim_frame [] [] entered.pool);
  readers =
      insert 0 (Turn.claimed (on_frame 100 0 worker claim_frame [] [] entered.pool))
        entered.readers;
}

steps : Steps fresh claimed
unfolding started start Dispatch.spawn_workers Dispatch.sizes Dispatch.spawn_worker get allocate_id
    enlist finish_submit
steps =
    then_step
      (then_step
        (then_step (then_step stay (join 0 worker refl))
          (enter {id = 1} {next = 2} 9 Dispatch.inline refl))
        (settle sent 1))
      (frame 100 0 worker [] claim_frame [] refl refl)

steps-AreHonest : AreHonest steps
unfolding steps
steps-AreHonest = ((((tt, tt), tt), λ e. absurd (e refl)), tt)

-- A worker guesses the id of a request whose send then times out: its reader keeps the id.
abbrev stale : System
stale = record claimed { pool = (finish_submit timed_out 1 claimed.pool).0 }

-- The same run, with the addition of `submit` made after the claim, and the subtraction of the
-- request that is taken out still to come.
abbrev counted_late : Running
counted_late = record { system = stale; counter = 1; adds = 0; subs = 1 }

moves : Moves (running 2 app) counted_late
unfolding started start Dispatch.spawn_workers Dispatch.sizes Dispatch.spawn_worker get remove
    allocate_id enlist on_frame finish_submit Dispatch.remove_pending
moves =
    then_move
      (then_move
        (then_move
          (then_move
            (then_move (then_move halt (act (join 0 worker refl)))
              (act (enter {id = 1} {next = 2} 9 Dispatch.inline refl)))
            (act (settle sent 1)))
          (act (frame 100 0 worker [] claim_frame [] refl refl)))
        (add {n = 0} refl))
      (act (settle timed_out 1))

reached-IsSound_example :
    IsSound stale × ((1 + 0) % 2 ^ 32 ≡ (length stale.pool.pending + 1) % 2 ^ 32)
reached-IsSound_example = Reached.reached-IsSound 2 app counted_late moves

gone_from_stale : (get 0 stale.readers ≡ some (1 ∷ [])) × (get 1 stale.pool.pending ≡ none)
unfolding started start Dispatch.spawn_workers Dispatch.sizes Dispatch.spawn_worker get remove
    enlist on_frame finish_submit Dispatch.remove_pending
gone_from_stale = (refl, refl)

readers_of_claimed : get 0 claimed.readers ≡ some (1 ∷ [])
unfolding started start Dispatch.spawn_workers Dispatch.sizes Dispatch.spawn_worker get remove
    enlist on_frame
readers_of_claimed = refl

worker_of_claimed : get 0 claimed.pool.workers ≡ some worker
unfolding started start Dispatch.spawn_workers Dispatch.sizes Dispatch.spawn_worker get remove
    enlist on_frame
worker_of_claimed = refl

member_one : member 1 (1 ∷ []) ≡ true
unfolding member
member_one = refl

reached-one_owner_example : (0 ≡ (let n : ℕ = 0 in n)) × (Owns 0 (1 ∷ []) claimed.pool.pending)
reached-one_owner_example =
    Reached.reached-one_owner 2 app claimed 0 0 1 (1 ∷ []) (1 ∷ []) steps steps-AreHonest
      readers_of_claimed readers_of_claimed member_one member_one

claimed-IsSound : IsSound claimed
claimed-IsSound = Reached.started-IsSound 2 app claimed steps

Owns-one : Owns 0 (1 ∷ []) claimed.pool.pending
Owns-one =
    (Reached.reached-one_owner 2 app claimed 0 0 1 (1 ∷ []) (1 ∷ []) steps steps-AreHonest
      readers_of_claimed readers_of_claimed member_one member_one).1

Holds-one : Holds 0 (1 ∷ []) claimed.pool.pending
Holds-one id entry e m =
    let (ids, r, mem) = claimed-IsSound.held 0 id entry e m in
    let same : 1 ∷ [] ≡ ids = cc (readers_of_claimed, r) in ap (member id) same ∙ mem

abbrev body_frame : FrameHeader
body_frame = Frame.new Frame.response_body 1 2

on_frame-IsFair_example :
    IsFair 0 2 claimed.pool (on_frame 101 0 worker body_frame (codes "hi") (1 ∷ []) claimed.pool)
on_frame-IsFair_example =
    Fairness.on_frame-IsFair 0 worker (1 ∷ []) claimed.pool claimed-IsSound.counted (Owns-one)
      Holds-one (omega arith) worker_of_claimed 101 body_frame (codes "hi")

sent_body :
    Turn.effects (on_frame 101 0 worker body_frame (codes "hi") (1 ∷ []) claimed.pool)
    ≡ Dispatch.send_event 9 (Dispatch.chunk (codes "hi")) ∷ []
unfolding started start Dispatch.spawn_workers Dispatch.sizes Dispatch.spawn_worker get remove
    enlist on_frame
sent_body = refl

fail_claimed-outcome_example :
    IsCounted (fail_claimed (1 ∷ []) claimed.pool).0
    × Keeps 0 claimed.pool.pending (Pool.pending (fail_claimed (1 ∷ []) claimed.pool).0)
    × ((id : ℕ)
        → member id (1 ∷ []) ≡ true
        → (get id (Pool.pending (fail_claimed (1 ∷ []) claimed.pool).0) ≡ none)
          × (entry : Pending) × (get id claimed.pool.pending ≡ some entry)
          × Exit.Sends
              (Dispatch.try_send_event entry.events (Dispatch.failed Dispatch.worker_failed))
              (fail_claimed (1 ∷ []) claimed.pool).1)
fail_claimed-outcome_example =
    Exit.fail_claimed-outcome 0 (1 ∷ []) claimed.pool claimed-IsSound.counted (Owns-one)

abbrev busy : Map Pending
busy = (4294967295, new_pending 3 Dispatch.inline) ∷ ((0, new_pending 4 Dispatch.file) ∷ [])

allocate_id-fresh_example :
    (id : ℕ) × (next : ℕ) × (allocate_id (suc (length busy)) 4294967295 busy ≡ some (id, next))
    × (get id busy ≡ none)
allocate_id-fresh_example =
    Ids.allocate_id-fresh 4294967295 busy (omega arith) (unfold get in (refl, (refl, tt)))
      (omega arith)

wrapped_id : allocate_id 3 4294967295 busy ≡ some (1, 2)
unfolding allocate_id get
wrapped_id = refl

length-claimed : length claimed.pool.pending < 2 ^ 32
unfolding started start Dispatch.spawn_workers Dispatch.sizes Dispatch.spawn_worker get remove
    enlist on_frame
length-claimed = omega arith

abbrev event_loop : Hello
event_loop = record { version = 1; pid = 4242; concurrency = 0; capabilities = 3 }

handshake-hello_bytes_example :
    handshake 0 77 true (some (read_frame (Welcome.hello_bytes event_loop ++ (7 ∷ [])))) fresh.pool
    ≡ Welcome.welcomed 0 77 event_loop fresh.pool
handshake-hello_bytes_example =
    Welcome.handshake-hello_bytes 0 77 event_loop (7 ∷ []) fresh.pool
      (record {
        version = omega arith;
        pid = omega arith;
        concurrency = omega arith;
        capabilities = omega arith;
      })
      refl
      (unfold started start Dispatch.spawn_workers Dispatch.sizes Dispatch.spawn_worker in refl)

handshake-IsUniform_example : Grants.IsUniform joined.pool (handshake 1 78 true none joined.pool)
handshake-IsUniform_example =
    Grants.handshake-IsUniform 1 78 joined.pool
      (unfold started start Dispatch.spawn_workers Dispatch.sizes Dispatch.spawn_worker in
        omega arith)
      true none

-- A request that a worker of concurrency 1 has held past its budget and past the grace.
abbrev stuck : Pool
stuck = record claimed.pool {
  pending =
      (
        1,
        record {
          events = 9;
          claimed_by = some 0;
          claimed_at = some 100;
          abort_sent = true;
          aborted_at = some 160;
          body = none;
        },
      )
      ∷ [];
}

sweep_decide-AreCandidates_example :
    All
      (Candidates.IsCandidate stuck.workers
        (λ w. Candidates.count_defiant 166 5 stuck.task_timeout w stuck.pending))
      (sweep_decide 166 5 stuck).2
sweep_decide-AreCandidates_example = Candidates.sweep_decide-AreCandidates 166 5 stuck

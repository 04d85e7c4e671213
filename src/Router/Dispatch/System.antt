-- ===== src/Router/Dispatch/System.antt =====
-- A pool of crates/buran-router/src/dispatch.rs with the readers of its workers: the steps that
-- its tasks take, each under its locks, in any order.
pub mod Reached
pub mod Untouched
pub mod Sweeps
pub mod Sound
pub mod Counter
pub mod Honest
use buran.Prelude.{
  ℕ, suc, ◌≡◌, ◌≢◌, true, Option, none, some, List, [], ◌∷◌, Bytes, length, Map, get, insert,
  remove,
}
use buran.Ipc.Frame.{FrameHeader}
use buran.Router.Dispatch.{
  Application, start, Pool, WorkerState, SendOutcome, SubmitBody, sent, allocate_id, enlist,
  new_pending, spawn_worker, finish_submit, drop_response, try_reserve,
}
use buran.Router.Dispatch.Sweep.{KillCandidate, sweep_decide, confirm_and_kill}
use buran.Router.Dispatch.Reader.{Turn, on_frame, fail_claimed}

-- `readers` has the claimed requests of each worker whose reader runs. The counter `in_flight` of the
-- pool is the value that its updates come to. The code makes them outside the lock of `pending`;
-- Counter has them as steps of their own. Besides the statistics, the growth and the shrinking of a
-- pool read it: growth is a step at any value, and shrinking is left out.
pub record System : Type 0 where
  pub pool : Pool
  pub readers : Map (List ℕ)

-- A pool that has just started: its workers are still being spawned.
unfoldable pub started : ℕ → Application → System
started auto_worker_count app = record { pool = (start auto_worker_count app).0; readers = [] }

abbrev with_pool : System → Pool → System
with_pool s p = record s { pool = p }

pub data Step (s : System) : System → Type 0 where
  reserve : {p : Pool} → try_reserve s.pool ≡ some p → Step s (with_pool s p)
  -- `submit` takes an id and puts the request into `pending`.
  enter :
      {id next : ℕ} (events : ℕ) (body : SubmitBody)
      → allocate_id (suc (length s.pool.pending)) s.pool.next_id s.pool.pending ≡ some (id, next)
      → Step s (with_pool s (enlist id next (new_pending events body) s.pool))
  -- The growth of the pool, whatever the counter is when `submit` reads it.
  spawn : Step s (with_pool s (spawn_worker s.pool).0)
  -- The end of the send. One that failed takes the request out, though a worker claimed it.
  settle :
      (outcome : SendOutcome) (id : ℕ) → Step s (with_pool s (finish_submit outcome id s.pool).0)
  drop : (id : ℕ) → Step s (with_pool s (drop_response id s.pool))
  -- A worker is ready; its number is new.
  join :
      (w : ℕ) (worker : WorkerState)
      → get w s.readers ≡ none
      → Step s (record {
        pool = record s.pool { workers = insert w worker s.pool.workers };
        readers = insert w [] s.readers;
      })
  frame :
      (now w : ℕ) (worker : WorkerState) (claimed : List ℕ) (h : FrameHeader) (payload : Bytes)
      → get w s.readers ≡ some claimed
      → get w s.pool.workers ≡ some worker
      → Step s (record {
        pool = Turn.pool (on_frame now w worker h payload claimed s.pool);
        readers =
            insert w (Turn.claimed (on_frame now w worker h payload claimed s.pool)) s.readers;
      })
  exit :
      (w : ℕ) (claimed : List ℕ)
      → get w s.readers ≡ some claimed
      → Step s (record {
        pool = (fail_claimed claimed (record s.pool { workers = remove w s.pool.workers })).0;
        readers = remove w s.readers;
      })
  sweep : (now grace : ℕ) → Step s (with_pool s (sweep_decide now grace s.pool).0)
  confirm :
      (c : KillCandidate) (status : Option ℕ)
      → Step s (with_pool s (confirm_and_kill c status s.pool).0)

pub data Steps (s : System) : System → Type 0 where
  stay : Steps s s
  then_step : {t u : System} → Steps s t → Step t u → Steps s u

-- ===== src/Router/Dispatch/Stats.antt =====
-- The occupancy that `stats` of crates/buran-router/src/dispatch.rs reports.
use buran.Prelude.{
  is_some, ℕ, ◌+◌, ◌*◌, ◌^◌, ◌≤◌, ◌<◌, ◌≡◌, [], ◌∷◌, arith, length, Map, if◌then◌else◌,
}
use buran.Router.Dispatch.{
  Pool, Pending, PoolStats, stats, count_claimed, live_workers, worker_concurrency,
}
use buran.Router.Dispatch.Counting.{IsCounted}

-- The requests that no worker claimed.
pub count_waiting : Map Pending → ℕ
count_waiting [] = 0
count_waiting ((_, p) ∷ m) = (if is_some p.claimed_by then 0 else 1) + count_waiting m

claimed_and_waiting : (m : Map Pending) → count_claimed m + count_waiting m ≡ length m
unfolding count_claimed count_waiting
claimed_and_waiting [] = omega arith
claimed_and_waiting ((id, p) ∷ m) = ground (arith, claimed_and_waiting m)

-- With the counter right and fewer than 2 ^ 32 requests, `queued` is the number of requests that no
-- worker claimed, and the free slots with the claimed requests fill what the live workers can
-- hold, unless more are claimed than that.
pub stats-counts :
    (p : Pool)
    → IsCounted p
    → length p.pending < 2 ^ 32
    → (PoolStats.queued (stats p) ≡ count_waiting p.pending)
      × (count_claimed p.pending ≤ live_workers p * worker_concurrency p
          → PoolStats.idle (stats p) + count_claimed p.pending
            ≡ live_workers p * worker_concurrency p)
unfolding stats
stats-counts p c h =
    (omega (arith, c.counted, h, claimed_and_waiting p.pending), λ le. omega (arith, le))

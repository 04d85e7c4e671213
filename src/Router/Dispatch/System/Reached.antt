-- ===== src/Router/Dispatch/System/Reached.antt =====
-- The states that a pool reaches from its start, over all interleavings.
use buran.Prelude.{
  ℕ, zero, suc, ◌+◌, arith, ◌%◌, ◌^◌, Distinct, ◌≡◌, ◌≢◌, refl, sym, ap, ◌∙◌, subst, true, some,
  List, [], length, get,
}
use buran.Router.Dispatch.{Pool, Application, start, sizes, fresh_pool, spawn_workers, spawn_worker}
use buran.Router.Dispatch.Reader.{member}
use buran.Router.Dispatch.Reader.Ownership.{Owns, others_differ}
use buran.Router.Dispatch.System.Counter.{Running, Moves, running, Fits, Moves-Fits}
use buran.Router.Dispatch.System.Honest.{AreHonest, AllOwn, Steps-AllOwn}
use buran.Router.Dispatch.System.{System, started, Steps}
use buran.Router.Dispatch.System.Sound.{IsSound, Steps-IsSound}

abbrev IsIdle : Pool → Type 0
IsIdle p = (p.pending ≡ []) × (p.in_flight ≡ 0) × (p.workers ≡ [])

spawn_workers-IsIdle : (n : ℕ) (p : Pool) → IsIdle p → IsIdle (spawn_workers n p).0
unfolding spawn_workers spawn_worker
spawn_workers-IsIdle zero p h = h
spawn_workers-IsIdle (suc n) p h = spawn_workers-IsIdle n (spawn_worker p).0 h

get-empty : {A : Type 0} (k : ℕ) {a : A} → get k [] ≢ some a
unfolding get
get-empty k h = cc h

idle-IsSound : (p : Pool) → IsIdle p → IsSound (record { pool = p; readers = [] })
idle-IsSound p (e, f, g) = record {
  counted = record {
    distinct = subst Distinct (sym e) tt;
    counted = f ∙ ap (λ m. length m % 2 ^ 32) (sym e);
  };
  held = λ w id entry h m. absurd (get-empty id {a = entry} (ap (get id) (sym e) ∙ h));
  within = λ w c x r k. absurd (get-empty w {a = c} r);
}

-- Whatever the configuration, a pool that has just started is sound.
start-IsSound : (auto : ℕ) (c : Application) → IsSound (started auto c)
unfolding started start
start-IsSound auto c = idle-IsSound (start auto c).0 (
    spawn_workers-IsIdle (sizes auto c.processes).0 (fresh_pool c (sizes auto c.processes))
      (refl, refl, refl))

start-AllOwn : (auto : ℕ) (c : Application) → AllOwn (started auto c)
unfolding started
start-AllOwn auto c w claimed r = absurd (get-empty w {a = claimed} r)

pub started-IsSound :
    (auto : ℕ) (c : Application) (s : System) → Steps (started auto c) s → IsSound s
started-IsSound auto c s steps = Steps-IsSound (start-IsSound auto c) steps

counter-length : (x f n k : ℕ) → x ≡ (f + k) % 2 ^ 32 → f ≡ n % 2 ^ 32 → x ≡ (n + k) % 2 ^ 32
counter-length x f n k e g = omega (arith, e, g)

running-Fits : (auto : ℕ) (c : Application) → Fits (running auto c)
unfolding started start
running-Fits auto c =
    let (e, f, g) =
      spawn_workers-IsIdle (sizes auto c.processes).0 (fresh_pool c (sizes auto c.processes))
        (refl, refl, refl) in
    omega (arith, f)

-- However the steps of clients, workers and sweeps and the updates of the counter interleave after
-- the start of a pool, whatever frames the workers send and whatever sends fail, no id is twice in
-- `pending`, the counter of requests in flight and the additions still to come are, modulo 2 ^ 32,
-- the number of pending requests and the subtractions still to come, every mark is that of a worker
-- whose reader runs and holds the request, and no worker holds more requests than its grant.
pub reached-IsSound :
    (auto : ℕ) (c : Application) (r : Running)
    → Moves (running auto c) r
    → IsSound r.system
      × ((r.counter + r.adds) % 2 ^ 32 ≡ (length r.system.pool.pending + r.subs) % 2 ^ 32)
reached-IsSound auto c r moves =
    let (i, fits) = Moves-Fits (start-IsSound auto c) (running-Fits auto c) moves in
    (
      i,
      counter-length ((r.counter + r.adds) % 2 ^ 32) r.system.pool.in_flight
          (length r.system.pool.pending) r.subs fits i.counted.counted,
    )

-- However the steps interleave after the start of a pool, if no worker has claimed a request whose
-- send ends in a failure or a timeout, every request that a running reader holds is pending with
-- the mark of its worker, and no two workers hold the same request.
pub reached-one_owner :
    (auto : ℕ) (c : Application) (s : System) (v w id : ℕ) (xs ys : List ℕ)
    → (steps : Steps (started auto c) s) → AreHonest steps
    → get v s.readers ≡ some xs
    → get w s.readers ≡ some ys
    → member id xs ≡ true
    → member id ys ≡ true
    → (v ≡ w) × (Owns v xs s.pool.pending)
reached-one_owner auto c s v w id xs ys steps honest r r' m m' =
    let own : AllOwn s = Steps-AllOwn (start-IsSound auto c) (start-AllOwn auto c) steps honest in
    let (a, e, ca) = own v xs r id m in
    let (b, f, cb) = own w ys r' id m' in (others_differ e f ca cb, own v xs r)

-- ===== src/Router/Dispatch/System/Counter.antt =====
-- The counter of requests in flight as the tasks of a pool see it. A step of the system says what it
-- comes to; the code adds and subtracts outside of the lock of `pending`, so each such update is a
-- step of its own here, which comes later and in any order.
use buran.Prelude.{ℕ, suc, ◌+◌, ◌-◌, ◌%◌, ◌^◌, ◌<◌, ◌≡◌, sym, ap, ◌∙◌, arith}
use buran.Router.Dispatch.{Application, incr, decr, enlist}
use buran.Router.Dispatch.System.{
  System, Step, started, reserve, enter, spawn, settle, drop, join, frame, exit, sweep, confirm,
}
use buran.Router.Dispatch.System.Sound.{IsSound, Step-IsSound}

-- `adds` and `subs` are the updates that steps of the system have still to make.
pub record Running : Type 0 where
  pub system : System
  pub counter : ℕ
  pub adds : ℕ
  pub subs : ℕ

abbrev pub running : ℕ → Application → Running
running auto_worker_count app = record {
  system = started auto_worker_count app;
  counter = 0;
  adds = 0;
  subs = 0;
}

-- `submit` makes one addition; every other step the subtractions by which the count goes down.
abbrev pub adds_of : {s t : System} → Step s t → ℕ
adds_of (enter events body e) = 1
adds_of _ = 0

abbrev pub subs_of : {s t : System} → Step s t → ℕ
subs_of (enter events body e) = 0
subs_of {s} {t} _ = (s.pool.in_flight + (2 ^ 32 - t.pool.in_flight)) % 2 ^ 32

pub data Move (r : Running) : Running → Type 0 where
  act :
      {t : System} (step : Step r.system t)
      → Move r (record {
        system = t;
        counter = r.counter;
        adds = r.adds + adds_of step;
        subs = r.subs + subs_of step;
      })
  add : {n : ℕ} → r.adds ≡ suc n → Move r (record r { counter = incr r.counter; adds = n })
  subtract : {n : ℕ} → r.subs ≡ suc n → Move r (record r { counter = decr r.counter; subs = n })

pub data Moves (r : Running) : Running → Type 0 where
  halt : Moves r r
  then_move : {s t : Running} → Moves r s → Move s t → Moves r t

-- The counter is right up to the updates that are still to come.
abbrev pub Fits : Running → Type 0
Fits r = (r.counter + r.adds) % 2 ^ 32 ≡ (r.system.pool.in_flight + r.subs) % 2 ^ 32

below : (s : System) → IsSound s → s.pool.in_flight < 2 ^ 32
below s i = omega (arith, i.counted.counted)

goes_down :
    (c a f f' k : ℕ)
    → f' < 2 ^ 32
    → (c + a) % 2 ^ 32 ≡ (f + k) % 2 ^ 32
    → (c + (a + 0)) % 2 ^ 32 ≡ (f' + (k + (f + (2 ^ 32 - f')) % 2 ^ 32)) % 2 ^ 32
goes_down c a f f' k small e = omega arith

goes_up :
    (c a f k : ℕ)
    → (c + a) % 2 ^ 32 ≡ (f + k) % 2 ^ 32
    → (c + (a + 1)) % 2 ^ 32 ≡ (incr f + (k + 0)) % 2 ^ 32
goes_up c a f k e = omega (arith, e)

added : (c n x : ℕ) → (c + suc n) % 2 ^ 32 ≡ x → (incr c + n) % 2 ^ 32 ≡ x
added c n x e = omega (arith, e)

subtracted :
    (c x f n : ℕ)
    → (c + x) % 2 ^ 32 ≡ (f + suc n) % 2 ^ 32
    → (decr c + x) % 2 ^ 32 ≡ (f + n) % 2 ^ 32
subtracted c x f n e = omega (arith, e)

act-Fits :
    (r : Running) {t : System}
    → IsSound t
    → Fits r
    → (step : Step r.system t)
    → (r.counter + (r.adds + adds_of step)) % 2 ^ 32
      ≡ (t.pool.in_flight + (r.subs + subs_of step)) % 2 ^ 32
act-Fits r {t} i e (enter events body a) =
    unfold enlist in goes_up r.counter r.adds r.system.pool.in_flight r.subs e
act-Fits r {t} i e (reserve {p} a) =
    goes_down r.counter r.adds r.system.pool.in_flight t.pool.in_flight r.subs (below t i) e
act-Fits r {t} i e spawn =
    goes_down r.counter r.adds r.system.pool.in_flight t.pool.in_flight r.subs (below t i) e
act-Fits r {t} i e (settle outcome id) =
    goes_down r.counter r.adds r.system.pool.in_flight t.pool.in_flight r.subs (below t i) e
act-Fits r {t} i e (drop id) =
    goes_down r.counter r.adds r.system.pool.in_flight t.pool.in_flight r.subs (below t i) e
act-Fits r {t} i e (join w worker new) =
    goes_down r.counter r.adds r.system.pool.in_flight t.pool.in_flight r.subs (below t i) e
act-Fits r {t} i e (frame now w worker claimed h payload a k) =
    goes_down r.counter r.adds r.system.pool.in_flight t.pool.in_flight r.subs (below t i) e
act-Fits r {t} i e (exit w claimed a) =
    goes_down r.counter r.adds r.system.pool.in_flight t.pool.in_flight r.subs (below t i) e
act-Fits r {t} i e (sweep now grace) =
    goes_down r.counter r.adds r.system.pool.in_flight t.pool.in_flight r.subs (below t i) e
act-Fits r {t} i e (confirm c status) =
    goes_down r.counter r.adds r.system.pool.in_flight t.pool.in_flight r.subs (below t i) e

Move-IsSound : {r s : Running} → IsSound r.system → Move r s → IsSound s.system
Move-IsSound i (act step) = Step-IsSound i step
Move-IsSound i (add e) = i
Move-IsSound i (subtract e) = i

Move-Fits : {r s : Running} → IsSound r.system → Fits r → Move r s → Fits s
Move-Fits {r} i e (act step) = act-Fits r (Step-IsSound i step) e step
Move-Fits {r} i e (add {n} a) =
    added r.counter n ((r.system.pool.in_flight + r.subs) % 2 ^ 32)
      (ap (λ k. (r.counter + k) % 2 ^ 32) (sym a) ∙ e)
Move-Fits {r} i e (subtract {n} a) =
    subtracted r.counter r.adds r.system.pool.in_flight n
      (e ∙ ap (λ k. (r.system.pool.in_flight + k) % 2 ^ 32) a)

pub Moves-Fits : {r s : Running} → IsSound r.system → Fits r → Moves r s → IsSound s.system × Fits s
Moves-Fits i e halt = (i, e)
Moves-Fits i e (then_move before last) =
    let (i', e') = Moves-Fits i e before in (Move-IsSound i' last, Move-Fits i' e' last)

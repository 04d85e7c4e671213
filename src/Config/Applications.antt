-- ===== src/Config/Applications.antt =====
-- crates/buran-config/src: applications (validate_application) and the number of workers (cpu.rs).
use buran.Prelude.{
  div_ceil, ℕ, zero, suc, ◌+◌, ◌-◌, ◌*◌, ◌/◌, ◌^◌, ◌≤◌, ◌<◌, min, max, Bool, true, false, not, ◌&&◌,
  ◌||◌, Option, none, some, [], ◌∷◌, leb, if◌then◌else◌, Bytes, all, is_empty, ◌≡◌, refl, arith,
  Bool-cases, inl, inr, leb→le, subst, ◌%◌, ◌==◌,
}
use native.Mathlib.Nat.{div-add-mod', mod-lt, suc-mul}
use buran.Config.{
  Application, Processes, Checked, passed, invalid, require, ◌>>=◌, require-true, bind-passed,
  fixed, dynamic, auto, bad_module, zero_processes, too_many_spare, zero_concurrency, zero_queue,
  short_task_timeout, bad_extension, zero_processes,
}

unfoldable pub cores_from_quota : ℕ → ℕ → Option ℕ
cores_from_quota quota period =
    if quota == 0 || period == 0 then none else some (max (div_ceil quota period) 1)

-- `auto_worker_count`: what the system reports, and the quota of the control group.
unfoldable pub auto_worker_count : ℕ → Option ℕ → ℕ
auto_worker_count parallelism (some quota) = min (max (min parallelism quota) 1) (2 ^ 32 - 1)
auto_worker_count parallelism none = min (max parallelism 1) (2 ^ 32 - 1)

above : (d c p q : ℕ) → c ≡ suc d → d * p < q → (c - 1) * p < q
above d c p q e h = let same : d ≡ c - 1 = omega (arith, e) in subst (λ x. x * p < q) same h

ceiling :
    (d r p q : ℕ)
    → d * p + r ≡ q
    → r < p
    → 1 ≤ q
    → (q ≤ max (if r == 0 then d else d + 1) 1 * p)
      × ((max (if r == 0 then d else d + 1) 1 - 1) * p < q)
ceiling zero r p q e small some_quota =
    let one : max (if r == 0 then zero else zero + 1) 1 ≡ 1 = ground arith in
    rw one (omega (arith, e, small), omega (arith, some_quota))
ceiling (suc d) zero p q e small some_quota =
    let cores : max (suc d) 1 ≡ suc d = omega arith in
    rw cores (omega (arith, e), above d (suc d) p q refl (omega (arith, e, suc-mul d p, small)))
ceiling (suc d) (suc r) p q e small some_quota =
    let cores : max (if suc r == 0 then suc d else suc d + 1) 1 ≡ suc (suc d) = ground arith in
    rw cores (
      omega (arith, e, small, suc-mul (suc d) p),
      above (suc d) (suc (suc d)) p q refl (omega (arith, e)),
    )

-- The cores are enough for the quota, and less than one is to spare.
pub cores_from_quota-ceiling :
    (quota period cores : ℕ)
    → cores_from_quota quota period ≡ some cores
    → (quota ≤ cores * period) × ((cores - 1) * period < quota)
unfolding cores_from_quota
cores_from_quota-ceiling quota period cores e = elim (Bool-cases (quota == 0 || period == 0)) [
  | inl unlimited ↦ cc (rw unlimited at e)
  | inr limited ↦
      let same : max (div_ceil quota period) 1 ≡ cores = cc (rw limited at e) in
      subst (λ c. (quota ≤ c * period) × ((c - 1) * period < quota)) same
        (ceiling (quota / period) (quota % period) period quota (div-add-mod' quota period)
          (mod-lt quota (ground (arith, limited))) (ground (arith, limited)))
]

pub auto_worker_count-bounds :
    (parallelism : ℕ) (quota : Option ℕ)
    → (1 ≤ auto_worker_count parallelism quota) × (auto_worker_count parallelism quota < 2 ^ 32)
unfolding auto_worker_count
auto_worker_count-bounds parallelism none = (omega arith, omega arith)
auto_worker_count-bounds parallelism (some quota) = (omega arith, omega arith)

abbrev is_module_byte : ℕ → Bool
is_module_byte b =
    (leb b'a' b && leb b b'z') || ((leb b'0' b && leb b b'9') || (b == b'-' || b == b'_'))

abbrev pub is_module_name : Bytes → Bool
is_module_name name = not (is_empty name) && all is_module_byte name

unfoldable pub check_processes : Processes → Checked Unit
check_processes (fixed n) = require (not (n == 0)) zero_processes
check_processes (dynamic max spare idle) =
    if max == 0 then invalid zero_processes else require (leb spare max) too_many_spare
check_processes auto = passed tt

abbrev pub is_extension : Bytes → Bool
is_extension [] = false
is_extension (b ∷ []) = false
is_extension (b ∷ (c ∷ bs)) = b == b'.'

abbrev pub is_zero : Option ℕ → Bool
is_zero (some n) = n == 0
is_zero none = false

unfoldable pub validate_application : Application → Checked Unit
unfolding check_processes
validate_application app = do
  name ← require (is_module_name app.module_name) bad_module
  processes ← check_processes app.processes
  concurrency ← require (not (is_zero app.concurrency)) zero_concurrency
  queue ← require (not (app.queue.max == 0)) zero_queue
  limits ← require (leb app.limits.response_timeout app.limits.task_timeout) short_task_timeout
  require (all is_extension app.execute) bad_extension

-- `Processes::max`, given the count for `auto`.
unfoldable pub max_processes : ℕ → Processes → ℕ
max_processes count (fixed n) = n
max_processes count (dynamic max spare idle) = max
max_processes count auto = count

abbrev spare_fits : Processes → Bool
spare_fits (dynamic max spare idle) = leb spare max
spare_fits _ = true

-- What a pool relies on: workers, no `auto` being left, slots, room in the queue, and time.
pub record IsRunnable (app : Application) : Type 0 where
  pub workers : 1 ≤ max_processes 0 app.processes
  pub spare : spare_fits app.processes ≡ true
  pub slots : is_zero app.concurrency ≡ false
  pub room : 1 ≤ app.queue.max
  pub time : app.limits.response_timeout ≤ app.limits.task_timeout
  pub name : is_module_name app.module_name ≡ true

abbrev pub is_auto : Processes → Bool
is_auto auto = true
is_auto _ = false

check_processes-max :
    (p : Processes) (u : Unit)
    → is_auto p ≡ false
    → check_processes p ≡ passed u
    → (1 ≤ max_processes 0 p) × (spare_fits p ≡ true)
unfolding check_processes max_processes
check_processes-max (fixed n) u a e = (ground (arith, require-true _ _ u e), refl)
check_processes-max auto u a e = cc a
check_processes-max (dynamic max spare idle) u a e = elim (Bool-cases (max == 0)) [
  | inl zero_max ↦ cc (rw zero_max at e)
  | inr some_max ↦ (ground (arith, some_max), require-true _ _ u (rw some_max at e))
]

pub validate_application-IsRunnable :
    (app : Application) (u : Unit)
    → is_auto app.processes ≡ false
    → validate_application app ≡ passed u
    → IsRunnable app
unfolding validate_application
validate_application-IsRunnable app u a e =
    let (u₁, (name, e₁)) = bind-passed _ _ u e in
    let (u₂, (processes, e₂)) = bind-passed _ _ u e₁ in
    let (u₃, (concurrency, e₃)) = bind-passed _ _ u e₂ in
    let (u₄, (queue, e₄)) = bind-passed _ _ u e₃ in
    let (u₅, (limits, e₅)) = bind-passed _ _ u e₄ in
    let (workers, spare) = check_processes-max app.processes u₂ a processes in
    let some_slots : not (is_zero app.concurrency) ≡ true = require-true _ _ u₃ concurrency in
    let some_room : not (app.queue.max == 0) ≡ true = require-true _ _ u₄ queue in
    record {
      workers = workers;
      spare = spare;
      slots = ground (arith, some_slots);
      room = ground (arith, some_room);
      time = leb→le _ _ (require-true _ _ u₅ limits);
      name = require-true _ _ u₁ name;
    }

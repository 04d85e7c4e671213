-- ===== src/Router/Dispatch/System/Sweeps.antt =====
-- A sweep and a kill change no request's owner and no worker's grant.
use buran.Prelude.{
  ℕ, suc, ◌%◌, ◌^◌, ◌≡◌, refl, sym, ap, ◌∙◌, subst, inl, inr, true, Option, none, some, [], ◌∷◌,
  Bool-cases, length, Map, get, get-insert-cases, Distinct,
}
use mathlib.Core.Option.{map as map_option}
use buran.Router.Dispatch.{Pool, Pending, WorkerState}
use buran.Router.Dispatch.Counting.{IsCounted}
use buran.Router.Dispatch.Reader.Ownership.{SameGrants}
use buran.Router.Dispatch.Sweep.{
  Verdict, leave, send_abort, defiant, apply, Swept, sweep_pending, sweep_decide, KillCandidate,
  kill_worker, confirm_and_kill, is_idle,
}
use buran.Router.Dispatch.Sweep.Candidates.{
  get-sweep_pending, pending-record_verdict, after_sweep, verdict_of,
}

-- A pool after a step that keeps each request, but for the marks of the abort.
pub record IsSwept (p q : Pool) : Type 0 where
  pub counted : IsCounted q
  pub forth :
      (id : ℕ) (entry : Pending)
      → get id p.pending ≡ some entry
      → (after : Pending) × (get id q.pending ≡ some after) × (after.claimed_by ≡ entry.claimed_by)
  pub back :
      (id : ℕ) (after : Pending)
      → get id q.pending ≡ some after
      → (entry : Pending) × (get id p.pending ≡ some entry) × (after.claimed_by ≡ entry.claimed_by)
  pub grants : SameGrants p.workers q.workers

claimed_by-apply :
    (now : ℕ) (v : Verdict) (p : Pending) → Pending.claimed_by (apply now v p) ≡ p.claimed_by
claimed_by-apply now leave p = refl
claimed_by-apply now send_abort p = refl
claimed_by-apply now (defiant w) p = refl

module _ (now grace timeout : ℕ) where
  length-sweep_pending :
      (m : Map Pending) → length (Swept.pending (sweep_pending now grace timeout m)) ≡ length m
  unfolding sweep_pending
  length-sweep_pending [] = refl
  length-sweep_pending ((j, p) ∷ m) =
      ap length (
        pending-record_verdict j (after_sweep now grace timeout p) (verdict_of now grace timeout p)
          (sweep_pending now grace timeout m))
      ∙ ap suc (length-sweep_pending m)

  Distinct-sweep_pending :
      (m : Map Pending) → Distinct m → Distinct (Swept.pending (sweep_pending now grace timeout m))
  unfolding sweep_pending
  Distinct-sweep_pending [] d = tt
  Distinct-sweep_pending ((j, p) ∷ m) (a, d) =
      subst Distinct
        (sym (
          pending-record_verdict j (after_sweep now grace timeout p)
            (verdict_of now grace timeout p) (sweep_pending now grace timeout m)))
        (
          get-sweep_pending now grace timeout j m
              ∙ ap (map_option (after_sweep now grace timeout)) a,
          Distinct-sweep_pending m d,
        )

map-some→ :
    {A B : Type 0} (f : A → B) (o : Option A) {b : B}
    → map_option f o ≡ some b
    → (a : A) × (o ≡ some a) × (f a ≡ b)
map-some→ f none h = absurd (cc h)
map-some→ f (some a) h = (a, refl, cc h)

pub sweep_decide-IsSwept :
    (now grace : ℕ) (p : Pool) → IsCounted p → IsSwept p (sweep_decide now grace p).0
unfolding sweep_decide
sweep_decide-IsSwept now grace p c = record {
  counted = record {
    distinct = Distinct-sweep_pending now grace p.task_timeout p.pending c.distinct;
    counted =
        c.counted
        ∙ ap (λ n. n % 2 ^ 32) (sym (length-sweep_pending now grace p.task_timeout p.pending));
  };
  forth = λ id entry e. (
    after_sweep now grace p.task_timeout entry,
    get-sweep_pending now grace p.task_timeout id p.pending
        ∙ ap (map_option (after_sweep now grace p.task_timeout)) e,
    claimed_by-apply now (verdict_of now grace p.task_timeout entry) entry,
  );
  back = λ id after e.
      let (entry, e', f) =
        map-some→ (after_sweep now grace p.task_timeout) (get id p.pending) {b = after}
          (sym (get-sweep_pending now grace p.task_timeout id p.pending) ∙ e) in
      (
        entry,
        e',
        ap Pending.claimed_by (sym f)
            ∙ claimed_by-apply now (verdict_of now grace p.task_timeout entry) entry,
      );
  grants = λ v x e. (x, e, refl);
}

same-IsSwept : (p : Pool) → IsCounted p → IsSwept p p
same-IsSwept p c = record {
  counted = c;
  forth = λ id entry e. (entry, e, refl);
  back = λ id entry e. (entry, e, refl);
  grants = λ v x e. (x, e, refl);
}

kill_worker-IsSwept :
    (c : KillCandidate) (o : Option WorkerState) (p : Pool)
    → IsCounted p
    → get c.worker_id p.workers ≡ o
    → IsSwept p (kill_worker c o p).0
kill_worker-IsSwept c none p i e = same-IsSwept p i
kill_worker-IsSwept c (some worker) p i e = elim (Bool-cases worker.kill_requested) [
  | inl asked ↦ rw asked (same-IsSwept p i)
  | inr fresh ↦ rw fresh (record {
    counted = record { distinct = i.distinct; counted = i.counted };
    forth = λ id entry h. (entry, h, refl);
    back = λ id entry h. (entry, h, refl);
    grants = λ v x h. elim (get-insert-cases v c.worker_id killed p.workers {b = x} h) [
      | inl (same, q) ↦ (worker, ap (λ u. get u p.workers) same ∙ e, ap WorkerState.granted (sym q))
      | inr (ne, h') ↦ (x, h', refl)
    ];
  })
]
  where
    killed : WorkerState
    killed = record worker { kill_requested = true }

pub confirm_and_kill-IsSwept :
    (c : KillCandidate) (status : Option ℕ) (p : Pool)
    → IsCounted p
    → IsSwept p (confirm_and_kill c status p).0
unfolding confirm_and_kill
confirm_and_kill-IsSwept c status p i = elim (Bool-cases (is_idle status)) [
  | inl idle ↦ rw idle (same-IsSwept p i)
  | inr busy ↦ rw busy (kill_worker-IsSwept c (get c.worker_id p.workers) p i refl)
]

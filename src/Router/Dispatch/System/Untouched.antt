-- ===== src/Router/Dispatch/System/Untouched.antt =====
-- The steps of the connections: but for a send that fails, they change no request that a worker
-- claimed.
use buran.Prelude.{
  ℕ, ◌-◌, ◌≡◌, ◌≢◌, refl, sym, ap, ◌∙◌, subst, inl, inr, true, ◌==◌, Option, none, some, arith,
  Option-cases, Bool-cases, length, Distinct, ◌%◌, ◌^◌, get, insert, remove, get-remove,
  get-remove_other, get-insert, get-insert_other, ==_iff,
}
use buran.Router.Dispatch.{
  Pool, Pending, SubmitBody, SendOutcome, sent, send_failed, timed_out, enlist, spawn_worker,
  finish_submit, drop_response, try_reserve, unclaimed, remove_pending, remove_if_unclaimed,
  release, new_pending,
}
use buran.Router.Dispatch.Counting.{
  IsCounted, pending-remove_pending, workers-remove_pending, remove_pending-IsCounted,
  enlist-IsCounted, remove_if_unclaimed-cases, remove_if_unclaimed-IsCounted,
}

pub record Untouched (p q : Pool) : Type 0 where
  pub counted : IsCounted q
  pub forth :
      (w id : ℕ) (entry : Pending)
      → get id p.pending ≡ some entry
      → entry.claimed_by ≡ some w
      → get id q.pending ≡ some entry
  pub back :
      (w id : ℕ) (entry : Pending)
      → get id q.pending ≡ some entry
      → entry.claimed_by ≡ some w
      → get id p.pending ≡ some entry
  pub workers : q.workers ≡ p.workers

-- A pool after a step that marks no request, but may take claimed ones out.
pub record TakesOut (p q : Pool) : Type 0 where
  pub counted : IsCounted q
  pub back :
      (w id : ℕ) (entry : Pending)
      → get id q.pending ≡ some entry
      → entry.claimed_by ≡ some w
      → get id p.pending ≡ some entry
  pub workers : q.workers ≡ p.workers

pub Untouched-TakesOut : (p q : Pool) → Untouched p q → TakesOut p q
Untouched-TakesOut p q u = record { counted = u.counted; back = u.back; workers = u.workers }

released-TakesOut : (id : ℕ) (p : Pool) → IsCounted p → TakesOut p (release (remove_pending id p))
released-TakesOut id p c =
    let left = remove_pending-IsCounted id p c in
    record {
      counted = record { distinct = left.distinct; counted = left.counted };
      back = λ w i entry h m.
          let gone : get id (Pool.pending (remove_pending id p)) ≡ none =
            ap (get id) (pending-remove_pending id p) ∙ get-remove id p.pending in
          let ne : i ≢ id = λ same.
            cc (sym (ap (λ j. get j (Pool.pending (remove_pending id p))) same) ∙ h, gone) in
          sym (ap (get i) (pending-remove_pending id p) ∙ get-remove_other i id p.pending ne) ∙ h;
      workers = workers-remove_pending id p;
    }

-- Pools that differ in neither the requests nor the workers nor the counter.
same-Untouched :
    (p q : Pool)
    → IsCounted p
    → q.pending ≡ p.pending
    → q.in_flight ≡ p.in_flight
    → q.workers ≡ p.workers
    → Untouched p q
same-Untouched p q c e f g = record {
  counted = record {
    distinct = subst Distinct (sym e) c.distinct;
    counted = f ∙ c.counted ∙ ap (λ m. length m % 2 ^ 32) (sym e);
  };
  forth = λ w id entry h m. ap (get id) e ∙ h;
  back = λ w id entry h m. ap (get id) (sym e) ∙ h;
  workers = g;
}

pub try_reserve-Untouched : (p q : Pool) → IsCounted p → try_reserve p ≡ some q → Untouched p q
unfolding try_reserve
try_reserve-Untouched p q c e = elim (Bool-cases (p.queue == 0)) [
  | inl empty ↦ absurd (cc (rw empty at e))
  | inr free ↦
      let same : record p { queue = p.queue - 1 } ≡ q = cc (rw free at e) in
      subst (Untouched p) same
        (same-Untouched p (record p { queue = p.queue - 1 }) c refl refl refl)
]

-- A request that no worker claimed comes out.
removed-Untouched :
    (id : ℕ) (p q : Pool) {old : Pending}
    → IsCounted q
    → get id p.pending ≡ some old
    → old.claimed_by ≡ none
    → q.pending ≡ remove id p.pending
    → q.workers ≡ p.workers
    → Untouched p q
removed-Untouched id p q {old} c here free e g = record {
  counted = c;
  forth = λ w i entry h m.
      let ne : i ≢ id = λ same. cc (sym (ap (λ j. get j p.pending) same) ∙ h, here, m, free) in
      ap (get i) e ∙ get-remove_other i id p.pending ne ∙ h;
  back = λ w i entry h m.
      let gone : get id q.pending ≡ none = ap (get id) e ∙ get-remove id p.pending in
      let ne : i ≢ id = λ same. cc (sym (ap (λ j. get j q.pending) same) ∙ h, gone) in
      sym (ap (get i) e ∙ get-remove_other i id p.pending ne) ∙ h;
  workers = g;
}

release-Untouched : (p q : Pool) → Untouched p q → Untouched p (release q)
release-Untouched p q u = record {
  counted = record { distinct = u.counted.distinct; counted = u.counted.counted };
  forth = u.forth;
  back = u.back;
  workers = u.workers;
}

remove_if_unclaimed-Untouched :
    (id : ℕ) (p : Pool) → IsCounted p → Untouched p (remove_if_unclaimed id p)
remove_if_unclaimed-Untouched id p c = elim (remove_if_unclaimed-cases id p) [
  | inl e ↦
      same-Untouched p (remove_if_unclaimed id p) c (ap Pool.pending e) (ap Pool.in_flight e)
        (ap Pool.workers e)
  | inr (entry, here, free, e) ↦
      removed-Untouched id p (remove_if_unclaimed id p) {old = entry}
        (remove_if_unclaimed-IsCounted id p c) here free (ap Pool.pending e) (ap Pool.workers e)
]

pub drop_response-Untouched : (id : ℕ) (p : Pool) → IsCounted p → Untouched p (drop_response id p)
unfolding drop_response
drop_response-Untouched id p c =
    release-Untouched p (remove_if_unclaimed id p) (remove_if_unclaimed-Untouched id p c)

remove_pending-Untouched :
    (id : ℕ) (p : Pool)
    → IsCounted p
    → unclaimed (get id p.pending) ≡ true
    → Untouched p (remove_pending id p)
remove_pending-Untouched id p c h = go (get id p.pending) refl h
  where
    go :
        (o : Option Pending)
        → get id p.pending ≡ o
        → unclaimed o ≡ true
        → Untouched p (remove_pending id p)
    go none e h = absurd (cc h)
    go (some entry) e h = elim (Option-cases entry.claimed_by) [
      | inl free ↦
          removed-Untouched id p (remove_pending id p) {old = entry}
            (remove_pending-IsCounted id p c) e free (pending-remove_pending id p)
            (workers-remove_pending id p)
      | inr (w, taken) ↦ absurd (cc (rw taken at h))
    ]

-- A send that failed takes the request out, claimed or not, and adds none.
pub finish_submit-TakesOut :
    (outcome : SendOutcome) (id : ℕ) (p : Pool)
    → IsCounted p
    → TakesOut p (finish_submit outcome id p).0
unfolding finish_submit
finish_submit-TakesOut sent id p c = Untouched-TakesOut p p (same-Untouched p p c refl refl refl)
finish_submit-TakesOut send_failed id p c = released-TakesOut id p c
finish_submit-TakesOut timed_out id p c = released-TakesOut id p c

pub finish_submit-Untouched :
    (outcome : SendOutcome) (id : ℕ) (p : Pool)
    → IsCounted p
    → (outcome ≢ sent → unclaimed (get id p.pending) ≡ true)
    → Untouched p (finish_submit outcome id p).0
unfolding finish_submit
finish_submit-Untouched sent id p c h = same-Untouched p p c refl refl refl
finish_submit-Untouched send_failed id p c h =
    release-Untouched p (remove_pending id p) (remove_pending-Untouched id p c (h (λ e. cc e)))
finish_submit-Untouched timed_out id p c h =
    release-Untouched p (remove_pending id p) (remove_pending-Untouched id p c (h (λ e. cc e)))

pub spawn_worker-Untouched : (p : Pool) → IsCounted p → Untouched p (spawn_worker p).0
unfolding spawn_worker
spawn_worker-Untouched p c = record {
  counted = record { distinct = c.distinct; counted = c.counted };
  forth = λ w id entry h m. h;
  back = λ w id entry h m. h;
  workers = refl;
}

pub enlist-Untouched :
    (id next events : ℕ) (body : SubmitBody) (p : Pool)
    → IsCounted p
    → get id p.pending ≡ none
    → Untouched p (enlist id next (new_pending events body) p)
unfolding enlist
enlist-Untouched id next events body p c h = record {
  counted = enlist-IsCounted id next (new_pending events body) p c h;
  forth = λ w i entry e m.
      let ne : i ≢ id = λ same. cc (sym (ap (λ j. get j p.pending) same) ∙ e, h) in
      get-insert_other i id (new_pending events body) p.pending ne ∙ e;
  back = λ w i entry e m. elim (Bool-cases (i == id)) [
    | inl same ↦
        let e' : get i (insert id (new_pending events body) p.pending)
            ≡ some (new_pending events body) =
          ap (λ j. get j (insert id (new_pending events body) p.pending)) ((==_iff i id).0 same)
          ∙ get-insert id (new_pending events body) p.pending in
        let q : entry ≡ new_pending events body = cc (e, e') in absurd (cc (m, q))
    | inr differs ↦
        sym (get-insert_other i id (new_pending events body) p.pending (ground (arith, differs)))
        ∙ e
  ];
  workers = refl;
}

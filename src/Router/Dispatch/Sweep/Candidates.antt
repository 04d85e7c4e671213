-- ===== src/Router/Dispatch/Sweep/Candidates.antt =====
-- What a sweep decides: whom it aborts, and which workers it would kill.
use buran.Prelude.{
  ℕ, ◌+◌, ◌-◌, ◌/◌, max, is_some, ◌&&◌, ◌≤◌, ◌≡◌, ◌≢◌, refl, sym, ap, ◌∙◌, subst, inl, inr, ◌⊎◌,
  Bool, true, false, Option, none, some, List, [], ◌∷◌, arith, leb, leb→le, ◌==◌, ==_iff, ==_refl,
  if◌then◌else◌, Bool-cases, Map, get, insert, get-insert, get-insert_other, Distinct,
  Distinct-insert, All, All-append,
}
use mathlib.Core.Option.{map as map_option}
use buran.Router.Dispatch.{Pool, Pending, WorkerState}
use buran.Router.Dispatch.Sweep.{
  Verdict, leave, send_abort, defiant, judge, judge_claimed, defies, apply, tally, Swept,
  record_verdict, sweep_pending, KillCandidate, threshold, candidate, candidates, sweep_decide,
}

abbrev pub Has : ℕ → List ℕ → Type 0
Has i [] = ⊥
Has i (x ∷ xs) = (i ≡ x) ⊎ Has i xs

-- A request that `w` claimed and that was told to abort at least the time of grace ago.
abbrev abort_is_old : ℕ → ℕ → Option ℕ → Bool
abort_is_old now grace none = false
abort_is_old now grace (some aborted_at) = leb grace (now - aborted_at)

abbrev is_mark : ℕ → Option ℕ → Bool
is_mark w none = false
is_mark w (some v) = v == w

abbrev pub is_defiant : ℕ → ℕ → ℕ → Pending → Bool
is_defiant now grace w p =
    is_some p.claimed_at
    && (p.abort_sent && (abort_is_old now grace p.aborted_at && is_mark w p.claimed_by))

abbrev slots_of : ℕ → Verdict → ℕ
slots_of w (defiant v) = if v == w then 1 else 0
slots_of w _ = 0

abbrev slot_count : Option (ℕ × ℕ) → ℕ
slot_count none = 0
slot_count (some (n, s)) = n

get-nothing : (w : ℕ) → slot_count (get w []) ≡ 0
unfolding get
get-nothing w = refl

get-head : {A : Type 0} (w : ℕ) (a : A) (m : Map A) → get w ((w, a) ∷ m) ≡ some a
unfolding get
get-head w a m = rw (==_refl w) refl

get-tail :
    {A : Type 0} (w v : ℕ) (a : A) (m : Map A) {b : A}
    → get w m ≡ none
    → get v m ≡ some b
    → get v ((w, a) ∷ m) ≡ some b
unfolding get
get-tail w v a m {b} h e = elim (Bool-cases (v == w)) [
  | inl same ↦ absurd (cc (ap (λ k. get k m) ((==_iff v w).0 same), h, e))
  | inr differs ↦ rw differs e
]

slot_count-tally : (id : ℕ) (o : Option (ℕ × ℕ)) → slot_count (some (tally id o)) ≡ 1 + slot_count o
slot_count-tally id none = refl
slot_count-tally id (some (n, s)) = omega arith

pub pending-record_verdict :
    (j : ℕ) (q : Pending) (v : Verdict) (s : Swept)
    → Swept.pending (record_verdict j q v s) ≡ (j, q) ∷ s.pending
pending-record_verdict j q leave s = refl
pending-record_verdict j q send_abort s = refl
pending-record_verdict j q (defiant u) s = refl

slots-record_verdict :
    (w j : ℕ) (q : Pending) (v : Verdict) (s : Swept)
    → slot_count (get w (Swept.defiant_slots (record_verdict j q v s)))
      ≡ slots_of w v + slot_count (get w s.defiant_slots)
slots-record_verdict w j q leave s = omega arith
slots-record_verdict w j q send_abort s = omega arith
slots-record_verdict w j q (defiant u) s = elim (Bool-cases (u == w)) [
  | inl same ↦
      let e : u ≡ w = (==_iff u w).0 same in
      let t = tally j (get u s.defiant_slots) in
      ap (λ k. slot_count (get k (insert u t s.defiant_slots))) (sym e)
      ∙ ap slot_count (get-insert u t s.defiant_slots)
      ∙ slot_count-tally j (get u s.defiant_slots)
      ∙ ap (λ k. 1 + slot_count (get k s.defiant_slots)) e
      ∙ rw same refl
  | inr differs ↦
      let ne : w ≢ u = λ e. ground (arith, differs, e) in
      ap slot_count (get-insert_other w u (tally j (get u s.defiant_slots)) s.defiant_slots ne)
      ∙ rw differs (omega arith)
]

Distinct-record_verdict :
    (j : ℕ) (q : Pending) (v : Verdict) (s : Swept)
    → Distinct s.defiant_slots
    → Distinct (Swept.defiant_slots (record_verdict j q v s))
Distinct-record_verdict j q leave s d = d
Distinct-record_verdict j q send_abort s d = d
Distinct-record_verdict j q (defiant u) s d =
    Distinct-insert u (tally j (get u s.defiant_slots)) s.defiant_slots d

-- `w` is a worker of the pool, with nothing against killing it but the probe.
pub record IsCandidate (workers : Map WorkerState) (count : ℕ → ℕ) (c : KillCandidate)
    : Type 0 where
  pub worker : WorkerState
  pub found : get c.worker_id workers ≡ some worker
  pub token : c.token ≡ worker.token
  pub fresh : worker.kill_requested ≡ false
  pub enough : max (worker.granted / 2) 1 ≤ count c.worker_id

candidate-IsCandidate :
    (workers : Map WorkerState) (count : ℕ → ℕ) (w n sample : ℕ) (o : Option WorkerState)
    → get w workers ≡ o
    → n ≡ count w
    → All (IsCandidate workers count) (candidate w n sample o)
unfolding candidate
candidate-IsCandidate workers count w n sample none e c = tt
candidate-IsCandidate workers count w n sample (some x) e c =
    elim (Bool-cases (leb (threshold x.granted) n)) [
      | inr few ↦ rw few tt
      | inl enough ↦ elim (Bool-cases x.kill_requested) [
        | inl asked ↦ rw (enough, asked) tt
        | inr fresh ↦
            rw (enough, fresh)
              (
                record {
                  worker = x;
                  found = e;
                  token = refl;
                  fresh = fresh;
                  enough =
                      subst (λ k. threshold x.granted ≤ k) c
                        (leb→le (threshold x.granted) n enough);
                },
                tt,
              )
      ]
    ]

candidates-AreCandidates :
    (workers : Map WorkerState) (count : ℕ → ℕ) (slots : Map (ℕ × ℕ))
    → Distinct slots
    → ((w n s : ℕ) → get w slots ≡ some (n, s) → n ≡ count w)
    → All (IsCandidate workers count) (candidates workers slots)
unfolding candidates
candidates-AreCandidates workers count [] d h = tt
candidates-AreCandidates workers count ((w, (n, s)) ∷ slots) (a, d) h =
    All-append (IsCandidate workers count) (candidate w n s (get w workers))
      (candidates workers slots)
      (candidate-IsCandidate workers count w n s (get w workers) refl
        (h w n s (get-head w (n, s) slots)))
      (candidates-AreCandidates workers count slots d
        (λ v k t e. h v k t (get-tail w v (n, s) slots a e)))

module _ (now grace timeout : ℕ) where
  abbrev pub verdict_of : Pending → Verdict
  verdict_of p = judge now grace timeout p

  abbrev pub after_sweep : Pending → Pending
  after_sweep p = apply now (verdict_of p) p

  -- How many requests of a worker are defiant.
  pub count_defiant : ℕ → Map Pending → ℕ
  count_defiant w [] = 0
  count_defiant w ((id, p) ∷ m) =
      let rest = count_defiant w m in if is_defiant now grace w p then 1 + rest else rest

  slots_of-defies :
      (w : ℕ) (aborted_at claimed_by : Option ℕ)
      → slots_of w (defies now grace aborted_at claimed_by)
        ≡ (if abort_is_old now grace aborted_at && is_mark w claimed_by then 1 else 0)
  slots_of-defies w none claimed_by = refl
  slots_of-defies w (some t) none = ground arith
  slots_of-defies w (some t) (some v) = elim (Bool-cases (leb grace (now - t))) [
    | inl old ↦ rw old refl
    | inr recent ↦ rw recent refl
  ]

  slots_of-early : (w : ℕ) (b : Bool) → slots_of w (if b then send_abort else leave) ≡ 0
  slots_of-early w true = refl
  slots_of-early w false = refl

  slots_of-claim :
      (w : ℕ) (p : Pending) (claim : Option ℕ)
      → slots_of w (judge_claimed now grace timeout p claim) ≡ (
          if is_some claim
            && (p.abort_sent && (abort_is_old now grace p.aborted_at && is_mark w p.claimed_by))
          then 1
          else 0)
  slots_of-claim w p none = refl
  slots_of-claim w p (some claimed_at) = elim (Bool-cases p.abort_sent) [
    | inl told ↦ rw told (slots_of-defies w p.aborted_at p.claimed_by)
    | inr untold ↦ rw untold (slots_of-early w (leb timeout (now - claimed_at)))
  ]

  -- The verdict of the sweep is `defiant` exactly for the defiant requests.
  slots_of-verdict :
      (w n : ℕ) (p : Pending)
      → slots_of w (verdict_of p) + n ≡ (if is_defiant now grace w p then 1 + n else n)
  unfolding judge
  slots_of-verdict w n p = ap (λ k. k + n) (slots_of-claim w p p.claimed_at) ∙ ground arith

  -- A sweep keeps every request, and changes nothing but the marks of the abort.
  pub get-sweep_pending :
      (id : ℕ) (m : Map Pending)
      → get id (Swept.pending (sweep_pending now grace timeout m))
        ≡ map_option after_sweep (get id m)
  unfolding sweep_pending get
  get-sweep_pending id [] = refl
  get-sweep_pending id ((j, p) ∷ m) =
      ap (get id) (
        pending-record_verdict j (after_sweep p) (verdict_of p) (sweep_pending now grace timeout m))
      ∙ step (id == j) (get-sweep_pending id m)
    where
      step :
          (b : Bool)
          → get id (Swept.pending (sweep_pending now grace timeout m))
            ≡ map_option after_sweep (get id m)
          → (if b
              then some (after_sweep p)
              else get id (Swept.pending (sweep_pending now grace timeout m)))
            ≡ map_option after_sweep (if b then some p else get id m)
      step true ih = refl
      step false ih = ih

  slot_count-sweep :
      (w : ℕ) (m : Map Pending)
      → slot_count (get w (Swept.defiant_slots (sweep_pending now grace timeout m)))
        ≡ count_defiant w m
  unfolding sweep_pending count_defiant
  slot_count-sweep w [] = get-nothing w
  slot_count-sweep w ((j, p) ∷ m) =
      slots-record_verdict w j (after_sweep p) (verdict_of p) (sweep_pending now grace timeout m)
      ∙ ap (λ k. slots_of w (verdict_of p) + k) (slot_count-sweep w m)
      ∙ slots_of-verdict w (count_defiant w m) p

  Distinct-defiant_slots :
      (m : Map Pending) → Distinct (Swept.defiant_slots (sweep_pending now grace timeout m))
  unfolding sweep_pending
  Distinct-defiant_slots [] = tt
  Distinct-defiant_slots ((j, p) ∷ m) =
      Distinct-record_verdict j (after_sweep p) (verdict_of p) (sweep_pending now grace timeout m)
        (Distinct-defiant_slots m)

-- Every worker that a sweep would kill serves the pool, no kill of it was requested, and it holds at
-- least as many defiant requests as half of its grant, rounded down, and at least one. A request is
-- defiant if it was told to abort at least the time of grace ago.
pub sweep_decide-AreCandidates :
    (now grace : ℕ) (p : Pool)
    → All
        (IsCandidate p.workers (λ w. count_defiant now grace p.task_timeout w p.pending))
        (sweep_decide now grace p).2
unfolding sweep_decide
sweep_decide-AreCandidates now grace p =
    candidates-AreCandidates p.workers (λ w. count_defiant now grace p.task_timeout w p.pending)
      (Swept.defiant_slots (sweep_pending now grace p.task_timeout p.pending))
      (Distinct-defiant_slots now grace p.task_timeout p.pending)
      (λ w n s e. ap slot_count (sym e) ∙ slot_count-sweep now grace p.task_timeout w p.pending)

-- ===== src/Router/Dispatch/Reader/Claiming.antt =====
-- crates/buran-router/src/dispatch.rs, reader_task: the Claim frame of a worker.
use buran.Prelude.{
  Bool, [], ℕ, ◌≤◌, ◌<◌, ◌≡◌, ◌≢◌, refl, sym, ap, ◌∙◌, inl, inr, true, false, ◌==◌, Option, none,
  some, List, arith, Option-cases, Bool-cases, length, get, insert, get-insert, get-insert_other,
  leb, ==_iff, All,
}
use buran.Router.Dispatch.{Pool, Pending, WorkerState, Effect}
use buran.Router.Dispatch.Counting.{IsCounted}
use buran.Router.Dispatch.Reader.{
  member, set_insert, claimed_entry, claim_entry, on_claim, request_kill, pump,
}
use buran.Router.Dispatch.Reader.Tracking.{claimed_turn-IsTracking, request_kill-IsTracking}
use buran.Router.Dispatch.Reader.Ownership.{
  Owns, Holds, GoesTo, IsFair, member-set_insert→, pump-GoesTo,
}

module _ (w : ℕ) (worker : WorkerState) (claimed : List ℕ) (p : Pool) (counted : IsCounted p)
    (owns : Owns w claimed p.pending) (holds : Holds w claimed p.pending)
    (within : length claimed ≤ worker.granted) (here : get w p.workers ≡ some worker) where
  -- A turn that changes neither the pool nor what is claimed.
  pub stays-IsFair :
      (effects : List Effect) (goes_on : Bool)
      → All (GoesTo w p.pending) effects
      → IsFair w worker.granted p
          (record { pool = p; claimed = claimed; effects = effects; goes_on = goes_on })
  stays-IsFair effects goes_on delivers = record {
    counted = counted;
    owns = owns;
    keeps = λ v i entry ne e m. e;
    holds = holds;
    adds_none = λ v i entry ne e m. e;
    grants = λ v x e. (x, e, refl);
    within = within;
    delivers = delivers;
  }

  claimed_turn-IsFair :
      (now id : ℕ)
      → length claimed < worker.granted
      → (entry : Pending) → get id p.pending ≡ some entry
      → entry.claimed_by ≡ none
      → IsFair w worker.granted p (record {
        pool = record p { pending = insert id (claimed_entry now w entry) p.pending };
        claimed = set_insert id claimed;
        effects = pump w id entry.body;
        goes_on = true;
      })
  claimed_turn-IsFair now id room entry e free =
      let t =
        claimed_turn-IsTracking w worker claimed p counted holds within here now id room entry e in
      record {
        counted = t.counted;
        owns = λ x m. elim (Bool-cases (x == id)) [
          | inl same ↦ (
            claimed_entry now w entry,
            ap (λ i. get i (insert id (claimed_entry now w entry) p.pending)) ((==_iff x id).0 same)
                ∙ get-insert id (claimed_entry now w entry) p.pending,
            refl,
          )
          | inr other ↦
              let ne : x ≢ id = ground (arith, other) in
              let (mine, e', c) = owns x (still x ne m) in
              (mine, get-insert_other x id (claimed_entry now w entry) p.pending ne ∙ e', c)
        ];
        holds = t.holds;
        adds_none = t.adds_none;
        grants = t.grants;
        keeps = λ v i other ne e' m.
            let apart : i ≢ id =
              λ same. cc (sym (ap (λ j. get j p.pending) same) ∙ e', e, m, free) in
            get-insert_other i id (claimed_entry now w entry) p.pending apart ∙ e';
        within = t.within;
        delivers = pump-GoesTo w id p.pending entry.body;
      }
    where
      still : (x : ℕ) → x ≢ id → member x (set_insert id claimed) ≡ true → member x claimed ≡ true
      still x ne m = elim (member-set_insert→ id x claimed m) [
        | inl same ↦ absurd (ne same)
        | inr h ↦ h
      ]

  claim_entry-IsFair :
      (now id : ℕ)
      → length claimed < worker.granted
      → (o : Option Pending) → get id p.pending ≡ o
      → IsFair w worker.granted p (claim_entry now w id claimed p o)
  unfolding claim_entry
  claim_entry-IsFair now id room none e = stays-IsFair [] true tt
  claim_entry-IsFair now id room (some entry) e = elim (Option-cases entry.claimed_by) [
    | inr (v, taken) ↦ rw taken (stays-IsFair [] true tt)
    | inl free ↦ rw free (claimed_turn-IsFair now id room entry e free)
  ]

  request_kill-IsFair : IsFair w worker.granted p (record {
    pool = (request_kill w worker p).0;
    claimed = claimed;
    effects = (request_kill w worker p).1;
    goes_on = false;
  })
  unfolding request_kill
  request_kill-IsFair =
      let t = request_kill-IsTracking w worker claimed p counted holds within here in
      elim (Bool-cases worker.kill_requested) [
        | inl done ↦ rw done (stays-IsFair [] false tt)
        | inr fresh ↦ rw fresh (record {
          counted = record { distinct = counted.distinct; counted = counted.counted };
          owns = owns;
          holds = holds;
          keeps = λ v i entry ne e m. e;
          adds_none = λ v i entry ne e m. e;
          grants = rw fresh at t.grants;
          within = within;
          delivers = (tt, tt);
        })
      ]

  pub on_claim-IsFair :
      (now id : ℕ) → IsFair w worker.granted p (on_claim now w worker id claimed p)
  unfolding on_claim
  on_claim-IsFair now id = elim (Bool-cases (leb worker.granted (length claimed))) [
    | inl full ↦ rw full request_kill-IsFair
    | inr room ↦ rw room (claim_entry-IsFair now id (ground (arith, room)) (get id p.pending) refl)
  ]

-- ===== src/Router/Dispatch/Reader/Tracking.antt =====
-- crates/buran-router/src/dispatch.rs, reader_task: what holds for any frame even of a worker whose
-- claims are stale, since a send that failed took their requests out.
use buran.Prelude.{
  Bool, [], ℕ, ◌≤◌, ◌<◌, ◌≡◌, ◌≢◌, refl, sym, ap, ◌∙◌, inl, inr, true, false, ◌==◌, Option, none,
  some, List, arith, Option-cases, Bool-cases, Bytes, length, get, insert, get-insert,
  get-insert_other, get-remove, get-remove_other, leb, ==_iff,
}
use buran.Ipc.Frame
use buran.Ipc.Frame.{FrameHeader, FrameKind}
use buran.Router.Dispatch
use buran.Router.Dispatch.{Pool, Pending, WorkerState, WorkerEvent, Effect, remove_pending}
use buran.Router.Dispatch.Counting.{
  IsCounted, update-IsCounted, pending-remove_pending, workers-remove_pending,
  remove_pending-IsCounted,
}
use buran.Router.Dispatch.Reader.{
  Turn, member, set_insert, claimed_entry, claim_entry, on_claim, request_kill, pump, is_open,
  forward, finish_request, on_pong, on_kind, on_frame, clamp_status,
}
use buran.Router.Dispatch.Reader.Ownership.{
  Holds, Keeps, SameGrants, member-set_insert, length-set_insert, length-delete, member-delete,
  others_differ,
}

-- A turn of the worker `w`: the counter is right, the worker holds each request with its mark, no
-- other worker gets a mark, no grant changes, and the worker's own is kept.
pub record IsTracking (w granted : ℕ) (p : Pool) (t : Turn) : Type 0 where
  pub counted : IsCounted t.pool
  pub holds : Holds w t.claimed t.pool.pending
  pub adds_none : Keeps w t.pool.pending p.pending
  pub grants : SameGrants p.workers t.pool.workers
  pub within : length t.claimed ≤ granted

module _ (w : ℕ) (worker : WorkerState) (claimed : List ℕ) (p : Pool) (counted : IsCounted p)
    (holds : Holds w claimed p.pending) (within : length claimed ≤ worker.granted)
    (here : get w p.workers ≡ some worker) where
  pub stays-IsTracking :
      (effects : List Effect) (goes_on : Bool)
      → IsTracking w worker.granted p
          (record { pool = p; claimed = claimed; effects = effects; goes_on = goes_on })
  stays-IsTracking effects goes_on = record {
    counted = counted;
    holds = holds;
    adds_none = λ v i entry ne e m. e;
    grants = λ v x e. (x, e, refl);
    within = within;
  }

  pub claimed_turn-IsTracking :
      (now id : ℕ)
      → length claimed < worker.granted
      → (entry : Pending) → get id p.pending ≡ some entry
      → IsTracking w worker.granted p (record {
        pool = record p { pending = insert id (claimed_entry now w entry) p.pending };
        claimed = set_insert id claimed;
        effects = pump w id entry.body;
        goes_on = true;
      })
  claimed_turn-IsTracking now id room entry e = record {
    counted = update-IsCounted id (claimed_entry now w entry) p {old = entry} counted e;
    holds = λ i other e' m. elim (Bool-cases (i == id)) [
      | inl same ↦ member-set_insert id i claimed (inl ((==_iff i id).0 same))
      | inr differs ↦
          let ne : i ≢ id = ground (arith, differs) in
          member-set_insert id i claimed (
            inr (
              holds i other
                (sym (get-insert_other i id (claimed_entry now w entry) p.pending ne) ∙ e') m))
    ];
    adds_none = λ v i other ne e' m. elim (Bool-cases (i == id)) [
      | inl same ↦
          let e'' : get i (insert id (claimed_entry now w entry) p.pending)
              ≡ some (claimed_entry now w entry) =
            ap (λ j. get j (insert id (claimed_entry now w entry) p.pending)) ((==_iff i id).0 same)
            ∙ get-insert id (claimed_entry now w entry) p.pending in
          absurd (ne (others_differ e' e'' m refl))
      | inr differs ↦
          sym
            (get-insert_other i id (claimed_entry now w entry) p.pending (ground (arith, differs)))
          ∙ e'
    ];
    grants = λ v x e'. (x, e', refl);
    within = omega (arith, room, length-set_insert id claimed);
  }

  claim_entry-IsTracking :
      (now id : ℕ)
      → length claimed < worker.granted
      → (o : Option Pending) → get id p.pending ≡ o
      → IsTracking w worker.granted p (claim_entry now w id claimed p o)
  unfolding claim_entry
  claim_entry-IsTracking now id room none e = stays-IsTracking [] true
  claim_entry-IsTracking now id room (some entry) e = elim (Option-cases entry.claimed_by) [
    | inr (v, taken) ↦ rw taken (stays-IsTracking [] true)
    | inl free ↦ rw free (claimed_turn-IsTracking now id room entry e)
  ]

  pub request_kill-IsTracking : IsTracking w worker.granted p (record {
    pool = (request_kill w worker p).0;
    claimed = claimed;
    effects = (request_kill w worker p).1;
    goes_on = false;
  })
  unfolding request_kill
  request_kill-IsTracking = elim (Bool-cases worker.kill_requested) [
    | inl done ↦ rw done (stays-IsTracking [] false)
    | inr fresh ↦ rw fresh (record {
      counted = record { distinct = counted.distinct; counted = counted.counted };
      holds = holds;
      adds_none = λ v i entry ne e m. e;
      grants = λ v x e. elim (Bool-cases (v == w)) [
        | inl same ↦
            let e' : get v (insert w killed p.workers) ≡ some killed =
              ap (λ u. get u (insert w killed p.workers)) ((==_iff v w).0 same)
              ∙ get-insert w killed p.workers in
            (
              worker,
              ap (λ u. get u p.workers) ((==_iff v w).0 same) ∙ here,
              ap WorkerState.granted (let q : x ≡ killed = cc (e, e') in q),
            )
        | inr differs ↦
            (x, sym (get-insert_other v w killed p.workers (ground (arith, differs))) ∙ e, refl)
      ];
      within = within;
    })
  ]
    where
      killed : WorkerState
      killed = record worker { kill_requested = true }

  on_claim-IsTracking :
      (now id : ℕ) → IsTracking w worker.granted p (on_claim now w worker id claimed p)
  unfolding on_claim
  on_claim-IsTracking now id = elim (Bool-cases (leb worker.granted (length claimed))) [
    | inl full ↦ rw full request_kill-IsTracking
    | inr room ↦
        rw room (claim_entry-IsTracking now id (ground (arith, room)) (get id p.pending) refl)
  ]

  forward-IsTracking :
      (id : ℕ) (event : WorkerEvent) → IsTracking w worker.granted p (forward id event claimed p)
  unfolding forward
  forward-IsTracking id event = stays-IsTracking _ true

  pub finish_request-IsTracking :
      (id : ℕ) (event : WorkerEvent)
      → IsTracking w worker.granted p (finish_request id event claimed p)
  unfolding finish_request
  finish_request-IsTracking id event =
      let gone : (i : ℕ) → i ≢ id → get i (Pool.pending (remove_pending id p)) ≡ get i p.pending =
        λ i ne. ap (get i) (pending-remove_pending id p) ∙ get-remove_other i id p.pending ne in
      let gone_id : get id (Pool.pending (remove_pending id p)) ≡ none =
        ap (get id) (pending-remove_pending id p) ∙ get-remove id p.pending in
      let other : (i : ℕ) (entry : Pending)
          → get i (Pool.pending (remove_pending id p)) ≡ some entry
          → i ≢ id =
        λ i entry e same.
          cc (sym (ap (λ j. get j (Pool.pending (remove_pending id p))) same) ∙ e, gone_id) in
      record {
        counted = remove_pending-IsCounted id p counted;
        holds = λ i entry e m.
            let ne = other i entry e in
            member-delete id i claimed ne (holds i entry (sym (gone i ne) ∙ e) m);
        adds_none = λ v i entry ne e m. sym (gone i (other i entry e)) ∙ e;
        grants = λ v x e. (x, sym (ap (get v) (workers-remove_pending id p)) ∙ e, refl);
        within = omega (arith, within, length-delete id claimed);
      }

  on_pong-IsTracking :
      (id status : ℕ) → IsTracking w worker.granted p (on_pong w id status claimed p)
  unfolding on_pong
  on_pong-IsTracking id status = record {
    counted = record { distinct = counted.distinct; counted = counted.counted };
    holds = holds;
    adds_none = λ v i entry ne e m. e;
    grants = λ v x e. (x, e, refl);
    within = within;
  }

  on_kind-IsTracking :
      (kind : FrameKind) (now : ℕ) (h : FrameHeader) (payload : Bytes)
      → IsTracking w worker.granted p (on_kind kind now w worker h payload claimed p)
  unfolding on_kind
  on_kind-IsTracking Frame.claim now h payload = on_claim-IsTracking now h.request_id
  on_kind-IsTracking Frame.response_headers now h payload =
      forward-IsTracking h.request_id (Dispatch.headers (clamp_status h.aux) payload)
  on_kind-IsTracking Frame.response_body now h payload =
      forward-IsTracking h.request_id (Dispatch.chunk payload)
  on_kind-IsTracking Frame.flush now h payload = forward-IsTracking h.request_id Dispatch.flush
  on_kind-IsTracking Frame.ws_message now h payload =
      forward-IsTracking h.request_id (Dispatch.ws h.aux payload)
  on_kind-IsTracking Frame.«end» now h payload = forward-IsTracking h.request_id Dispatch.«end»
  on_kind-IsTracking Frame.error now h payload =
      finish_request-IsTracking h.request_id (Dispatch.failed Dispatch.worker_failed)
  on_kind-IsTracking Frame.done now h payload =
      finish_request-IsTracking h.request_id Dispatch.«end»
  on_kind-IsTracking Frame.pong now h payload = on_pong-IsTracking h.request_id h.aux
  on_kind-IsTracking _ now h payload = stays-IsTracking [] true

  pub on_frame-IsTracking :
      (now : ℕ) (h : FrameHeader) (payload : Bytes)
      → IsTracking w worker.granted p (on_frame now w worker h payload claimed p)
  unfolding on_frame
  on_frame-IsTracking now h payload = elim (Bool-cases (is_open h.kind)) [
    | inl free ↦ rw free (on_kind-IsTracking h.kind now h payload)
    | inr closed ↦ elim (Bool-cases (member h.request_id claimed)) [
      | inl mine ↦ rw (closed, mine) (on_kind-IsTracking h.kind now h payload)
      | inr foreign ↦ rw (closed, foreign) (stays-IsTracking [] true)
    ]
  ]

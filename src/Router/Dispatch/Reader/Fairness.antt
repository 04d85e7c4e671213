-- ===== src/Router/Dispatch/Reader/Fairness.antt =====
-- A frame from a worker acts on the requests that this worker claimed: the cases of `reader_task`.
use buran.Prelude.{
  [], ℕ, ◌≤◌, ◌≡◌, ◌≢◌, refl, sym, ap, ◌∙◌, inl, inr, true, false, some, List, Bool-cases, Bytes,
  length, get, get-remove_other, All,
}
use buran.Ipc.Frame
use buran.Ipc.Frame.{FrameHeader, FrameKind}
use buran.Router.Dispatch
use buran.Router.Dispatch.{Pool, Pending, WorkerState, WorkerEvent, Effect, remove_pending}
use buran.Router.Dispatch.Counting.{IsCounted, pending-remove_pending}
use buran.Router.Dispatch.Reader.{
  member, is_open, forward, finish_request, on_pong, on_kind, on_frame, deliver, take_probe,
  clamp_status,
}
use buran.Router.Dispatch.Reader.Ownership.{
  Owns, Holds, GoesTo, IsFair, member-delete→, answer-GoesTo, others_differ,
}
use buran.Router.Dispatch.Reader.Tracking.{finish_request-IsTracking}
use buran.Router.Dispatch.Reader.Claiming.{stays-IsFair, on_claim-IsFair}

module _ (w : ℕ) (worker : WorkerState) (claimed : List ℕ) (p : Pool) (counted : IsCounted p)
    (owns : Owns w claimed p.pending) (holds : Holds w claimed p.pending)
    (within : length claimed ≤ worker.granted) (here : get w p.workers ≡ some worker) where
  deliver-GoesTo :
      (id : ℕ) (event : WorkerEvent)
      → member id claimed ≡ true
      → All (GoesTo w p.pending) (deliver (get id p.pending) event)
  deliver-GoesTo id event h = let (entry, e, c) = owns id h in rw e ((id, entry, e, c, refl), tt)

  forward-IsFair :
      (id : ℕ) (event : WorkerEvent)
      → member id claimed ≡ true
      → IsFair w worker.granted p (forward id event claimed p)
  unfolding forward
  forward-IsFair id event h =
      stays-IsFair w worker claimed p counted owns holds within here _ true
        (deliver-GoesTo id event h)

  finish_request-IsFair :
      (id : ℕ) (event : WorkerEvent)
      → member id claimed ≡ true
      → IsFair w worker.granted p (finish_request id event claimed p)
  unfolding finish_request
  finish_request-IsFair id event h =
      let gone : (i : ℕ) → i ≢ id → get i (Pool.pending (remove_pending id p)) ≡ get i p.pending =
        λ i ne. ap (get i) (pending-remove_pending id p) ∙ get-remove_other i id p.pending ne in
      let t = finish_request-IsTracking w worker claimed p counted holds within here id event in
      record {
        counted = t.counted;
        owns = λ x m.
            let (ne, mem) = member-delete→ id x claimed m in
            let (entry, e, c) = owns x mem in (entry, gone x ne ∙ e, c);
        holds = t.holds;
        adds_none = t.adds_none;
        grants = t.grants;
        keeps = λ v i entry ne e m.
            let (mine, e', c) = owns id h in
            let other : i ≢ id =
              λ same. ne (others_differ (sym (ap (λ j. get j p.pending) same) ∙ e) e' m c) in
            gone i other ∙ e;
        within = t.within;
        delivers = deliver-GoesTo id event h;
      }

  on_pong-IsFair : (id status : ℕ) → IsFair w worker.granted p (on_pong w id status claimed p)
  unfolding on_pong
  on_pong-IsFair id status = record {
    counted = record { distinct = counted.distinct; counted = counted.counted };
    owns = owns;
    keeps = λ v i entry ne e m. e;
    holds = holds;
    adds_none = λ v i entry ne e m. e;
    grants = λ v x e. (x, e, refl);
    within = within;
    delivers = answer-GoesTo w p.pending (take_probe w id p.pings) status;
  }

  on_kind-IsFair :
      (kind : FrameKind) (now : ℕ) (h : FrameHeader) (payload : Bytes)
      → (is_open kind ≡ false → member h.request_id claimed ≡ true)
      → IsFair w worker.granted p (on_kind kind now w worker h payload claimed p)
  unfolding on_kind
  on_kind-IsFair Frame.claim now h payload own =
      on_claim-IsFair w worker claimed p counted owns holds within here now h.request_id
  on_kind-IsFair Frame.response_headers now h payload own =
      forward-IsFair h.request_id (Dispatch.headers (clamp_status h.aux) payload) (own refl)
  on_kind-IsFair Frame.response_body now h payload own =
      forward-IsFair h.request_id (Dispatch.chunk payload) (own refl)
  on_kind-IsFair Frame.flush now h payload own =
      forward-IsFair h.request_id Dispatch.flush (own refl)
  on_kind-IsFair Frame.ws_message now h payload own =
      forward-IsFair h.request_id (Dispatch.ws h.aux payload) (own refl)
  on_kind-IsFair Frame.«end» now h payload own =
      forward-IsFair h.request_id Dispatch.«end» (own refl)
  on_kind-IsFair Frame.error now h payload own =
      finish_request-IsFair h.request_id (Dispatch.failed Dispatch.worker_failed) (own refl)
  on_kind-IsFair Frame.done now h payload own =
      finish_request-IsFair h.request_id Dispatch.«end» (own refl)
  on_kind-IsFair Frame.pong now h payload own = on_pong-IsFair h.request_id h.aux
  on_kind-IsFair _ now h payload own =
      stays-IsFair w worker claimed p counted owns holds within here [] true tt

  -- Let a worker of the pool own exactly the requests with its mark, within its grant, and let the
  -- counter be right. Whatever frame it sends, all this still holds after it, what other workers
  -- claimed is as it was, no grant changes, and every event goes to the client of a request that
  -- this worker claimed.
  pub on_frame-IsFair :
      (now : ℕ) (h : FrameHeader) (payload : Bytes)
      → IsFair w worker.granted p (on_frame now w worker h payload claimed p)
  unfolding on_frame
  on_frame-IsFair now h payload = elim (Bool-cases (is_open h.kind)) [
    | inl free ↦ rw free (on_kind-IsFair h.kind now h payload (λ e. cc (free, e)))
    | inr closed ↦ elim (Bool-cases (member h.request_id claimed)) [
      | inl mine ↦ rw (closed, mine) (on_kind-IsFair h.kind now h payload (λ e. mine))
      | inr foreign ↦
          rw (closed, foreign)
            (stays-IsFair w worker claimed p counted owns holds within here [] true tt)
    ]
  ]

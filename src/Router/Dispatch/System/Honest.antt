-- ===== src/Router/Dispatch/System/Honest.antt =====
-- The claims of workers that claim a request only if its datagram went out.
use buran.Prelude.{
  ℕ, suc, ◌≡◌, ◌≢◌, sym, ap, ◌∙◌, inl, inr, true, some, List, [], length, get, insert, remove,
  get-insert-cases, get-remove-cases, Bytes,
}
use buran.Ipc.Frame.{FrameHeader}
use buran.Router.Dispatch.{Pool, WorkerState, sent, unclaimed}
use buran.Router.Dispatch.Ids.{allocate_id-absent}
use buran.Router.Dispatch.Reader.{Turn, member, on_frame, fail_claimed}
use buran.Router.Dispatch.Reader.Ownership.{Owns, Holds, IsFair, others_differ}
use buran.Router.Dispatch.Reader.Fairness.{on_frame-IsFair}
use buran.Router.Dispatch.Reader.Exit.{nil_member, fail_claimed-other}
use buran.Router.Dispatch.System.{
  System, Step, Steps, reserve, enter, spawn, settle, drop, join, frame, exit, sweep, confirm, stay,
  then_step,
}
use buran.Router.Dispatch.System.Sound.{IsSound, Steps-IsSound}
use buran.Router.Dispatch.System.Sweeps.{IsSwept, sweep_decide-IsSwept, confirm_and_kill-IsSwept}
use buran.Router.Dispatch.System.Untouched.{
  Untouched, try_reserve-Untouched, enlist-Untouched, spawn_worker-Untouched,
  finish_submit-Untouched, drop_response-Untouched,
}

-- When a send ends without success, no worker has claimed its request.
abbrev pub IsHonest : {s t : System} → Step s t → Type 0
IsHonest {s} (settle outcome id) = outcome ≢ sent → unclaimed (get id s.pool.pending) ≡ true
IsHonest _ = Unit

abbrev pub AreHonest : {s t : System} → Steps s t → Type 0
AreHonest stay = Unit
AreHonest (then_step before last) = AreHonest before × IsHonest last

-- Every request that a running reader holds is pending, with its worker's mark.
abbrev pub AllOwn : System → Type 0
AllOwn s =
    (w : ℕ) (claimed : List ℕ) → get w s.readers ≡ some claimed → Owns w claimed s.pool.pending

Untouched-AllOwn :
    (s : System) (p : Pool) → AllOwn s → Untouched s.pool p → AllOwn (record s { pool = p })
Untouched-AllOwn s p own u w claimed r id m =
    let (entry, e, c) = own w claimed r id m in (entry, u.forth w id entry e c, c)

Swept-AllOwn :
    (s : System) (p : Pool) → AllOwn s → IsSwept s.pool p → AllOwn (record s { pool = p })
Swept-AllOwn s p own u w claimed r id m =
    let (entry, e, c) = own w claimed r id m in
    let (after, e', c') = u.forth id entry e in (after, e', c' ∙ c)

join-AllOwn :
    (s : System) (w : ℕ) (worker : WorkerState)
    → AllOwn s
    → AllOwn (record {
      pool = record s.pool { workers = insert w worker s.pool.workers };
      readers = insert w [] s.readers;
    })
join-AllOwn s w worker own v c r id m = elim (get-insert-cases v w [] s.readers {b = c} r) [
  | inl (e, q) ↦ absurd (nil_member id (ap (member id) q ∙ m))
  | inr (ne, r') ↦ own v c r' id m
]

turn-AllOwn :
    (s : System) (w granted : ℕ) (t : Turn)
    → AllOwn s
    → IsFair w granted s.pool t
    → AllOwn (record { pool = t.pool; readers = insert w t.claimed s.readers })
turn-AllOwn s w granted t own fair v c r id m =
    elim (get-insert-cases v w t.claimed s.readers {b = c} r) [
      | inl (e, q) ↦
          let (entry, e', ce) = fair.owns id (ap (member id) q ∙ m) in
          (entry, e', ce ∙ ap some (sym e))
      | inr (ne, r') ↦
          let (entry, e', ce) = own v c r' id m in (entry, fair.keeps v id entry ne e' ce, ce)
    ]

frame-AllOwn :
    (s : System) (now w : ℕ) (worker : WorkerState) (claimed : List ℕ) (h : FrameHeader)
    (payload : Bytes)
    → get w s.readers ≡ some claimed
    → get w s.pool.workers ≡ some worker
    → IsSound s
    → AllOwn s
    → AllOwn (record {
      pool = Turn.pool (on_frame now w worker h payload claimed s.pool);
      readers = insert w (Turn.claimed (on_frame now w worker h payload claimed s.pool)) s.readers;
    })
frame-AllOwn s now w worker claimed h payload r k i own =
    let holds : Holds w claimed s.pool.pending = λ id entry e m.
      let (c', r', mem) = i.held w id entry e m in
      let same : c' ≡ claimed = cc (r, r') in ap (member id) (sym same) ∙ mem in
    turn-AllOwn s w worker.granted (on_frame now w worker h payload claimed s.pool) own (
      on_frame-IsFair w worker claimed s.pool i.counted (own w claimed r) holds
        (i.within w claimed worker r k) k now h payload)

exit-AllOwn :
    (s : System) (w : ℕ) (claimed : List ℕ)
    → get w s.readers ≡ some claimed
    → AllOwn s
    → AllOwn (record {
      pool = (fail_claimed claimed (record s.pool { workers = remove w s.pool.workers })).0;
      readers = remove w s.readers;
    })
exit-AllOwn s w claimed r own v c r' id m =
    let left = record s.pool { workers = remove w s.pool.workers } in
    let (ne, r'') = get-remove-cases v w s.readers {b = c} r' in
    let (entry, e, ce) = own v c r'' id m in
    (
      entry,
      fail_claimed-other id claimed left
            (λ mem. let (mine, e', cw) = own w claimed r id mem in ne (others_differ e e' ce cw))
          ∙ e,
      ce,
    )

Step-AllOwn : {s t : System} → IsSound s → AllOwn s → (step : Step s t) → IsHonest step → AllOwn t
Step-AllOwn {s} i own (reserve {p} e) h =
    Untouched-AllOwn s p own (try_reserve-Untouched s.pool p i.counted e)
Step-AllOwn {s} i own (enter {id} {next} events body e) h = Untouched-AllOwn s _ own (
    enlist-Untouched id next events body s.pool i.counted (
      allocate_id-absent s.pool.pending (suc (length s.pool.pending)) s.pool.next_id {id = id}
        {next = next} e))
Step-AllOwn {s} i own spawn h = Untouched-AllOwn s _ own (spawn_worker-Untouched s.pool i.counted)
Step-AllOwn {s} i own (settle outcome id) h =
    Untouched-AllOwn s _ own (finish_submit-Untouched outcome id s.pool i.counted h)
Step-AllOwn {s} i own (drop id) h =
    Untouched-AllOwn s _ own (drop_response-Untouched id s.pool i.counted)
Step-AllOwn {s} i own (join w worker new) h = join-AllOwn s w worker own
Step-AllOwn {s} i own (frame now w worker claimed h payload r k) honest =
    frame-AllOwn s now w worker claimed h payload r k i own
Step-AllOwn {s} i own (exit w claimed r) h = exit-AllOwn s w claimed r own
Step-AllOwn {s} i own (sweep now grace) h =
    Swept-AllOwn s _ own (sweep_decide-IsSwept now grace s.pool i.counted)
Step-AllOwn {s} i own (confirm c status) h =
    Swept-AllOwn s _ own (confirm_and_kill-IsSwept c status s.pool i.counted)

pub Steps-AllOwn :
    {s t : System} → IsSound s → AllOwn s → (steps : Steps s t) → AreHonest steps → AllOwn t
Steps-AllOwn i own stay honest = own
Steps-AllOwn i own (then_step before last) (honest, h) =
    Step-AllOwn (Steps-IsSound i before) (Steps-AllOwn i own before honest) last h

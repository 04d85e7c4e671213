-- ===== src/Router/Dispatch/System/Sound.antt =====
-- The invariant of a pool with its readers, over all interleavings of its steps.
use buran.Prelude.{
  ℕ, suc, ◌≤◌, ◌≡◌, ◌≢◌, sym, ap, ◌∙◌, subst, inl, inr, true, ◌==◌, none, some, List, [], arith,
  Bool-cases, Bytes, length, get, insert, remove, get-remove_other, get-insert, get-insert_other,
  get-insert-cases, get-remove-cases, ==_iff,
}
use buran.Ipc.Frame.{FrameHeader}
use buran.Router.Dispatch.{Pool, Pending, WorkerState}
use buran.Router.Dispatch.Ids.{allocate_id-absent}
use buran.Router.Dispatch.Counting.{IsCounted}
use buran.Router.Dispatch.Reader.{Turn, member, on_frame, fail_claimed}
use buran.Router.Dispatch.Reader.Ownership.{Holds}
use buran.Router.Dispatch.Reader.Tracking.{IsTracking, on_frame-IsTracking}
use buran.Router.Dispatch.Reader.Exit.{
  workers-fail_claimed, fail_claimed-IsCounted, fail_claimed-other, fail_claimed-gone,
}
use buran.Router.Dispatch.System.{
  System, Step, Steps, reserve, enter, spawn, settle, drop, join, frame, exit, sweep, confirm, stay,
  then_step,
}
use buran.Router.Dispatch.System.Sweeps.{IsSwept, sweep_decide-IsSwept, confirm_and_kill-IsSwept}
use buran.Router.Dispatch.System.Untouched.{
  Untouched, TakesOut, Untouched-TakesOut, try_reserve-Untouched, enlist-Untouched,
  spawn_worker-Untouched, finish_submit-TakesOut, drop_response-Untouched,
}

-- The counter is the number of requests; a mark is that of a running reader that holds the request;
-- no worker exceeds its grant.
pub record IsSound (s : System) : Type 0 where
  pub counted : IsCounted s.pool
  pub held :
      (w id : ℕ) (entry : Pending)
      → get id s.pool.pending ≡ some entry
      → entry.claimed_by ≡ some w
      → (claimed : List ℕ) × (get w s.readers ≡ some claimed) × (member id claimed ≡ true)
  pub within :
      (w : ℕ) (claimed : List ℕ) (worker : WorkerState)
      → get w s.readers ≡ some claimed
      → get w s.pool.workers ≡ some worker
      → length claimed ≤ worker.granted

TakesOut-IsSound :
    (s : System) (p : Pool) → IsSound s → TakesOut s.pool p → IsSound (record s { pool = p })
TakesOut-IsSound s p i u = record {
  counted = u.counted;
  held = λ w id entry e m. i.held w id entry (u.back w id entry e m) m;
  within = λ w claimed worker r k. i.within w claimed worker r (ap (get w) (sym u.workers) ∙ k);
}

Swept-IsSound :
    (s : System) (p : Pool) → IsSound s → IsSwept s.pool p → IsSound (record s { pool = p })
Swept-IsSound s p i u = record {
  counted = u.counted;
  held =
      λ w id after e m. let (entry, e', c) = u.back id after e in i.held w id entry e' (sym c ∙ m);
  within = λ w claimed worker r k.
      let (old, k', g) = u.grants w worker k in
      subst (λ n. length claimed ≤ n) (sym g) (i.within w claimed old r k');
}

join-IsSound :
    (s : System) (w : ℕ) (worker : WorkerState)
    → get w s.readers ≡ none
    → IsSound s
    → IsSound (record {
      pool = record s.pool { workers = insert w worker s.pool.workers };
      readers = insert w [] s.readers;
    })
join-IsSound s w worker new i = record {
  counted = record { distinct = i.counted.distinct; counted = i.counted.counted };
  held = λ v id entry e m.
      let (c, r, mem) = i.held v id entry e m in
      let ne : v ≢ w = λ same. cc (sym (ap (λ u. get u s.readers) same) ∙ r, new) in
      (c, get-insert_other v w [] s.readers ne ∙ r, mem);
  within = λ v c x r k. elim (get-insert-cases v w [] s.readers {b = c} r) [
    | inl (e, q) ↦ subst (λ l. length l ≤ x.granted) q (omega arith)
    | inr (ne, r') ↦ i.within v c x r' (sym (get-insert_other v w worker s.pool.workers ne) ∙ k)
  ];
}

turn-IsSound :
    (s : System) (w : ℕ) (worker : WorkerState) (claimed : List ℕ) (t : Turn)
    → get w s.readers ≡ some claimed
    → get w s.pool.workers ≡ some worker
    → IsSound s
    → IsTracking w worker.granted s.pool t
    → IsSound (record { pool = t.pool; readers = insert w t.claimed s.readers })
turn-IsSound s w worker claimed t r k i fair = record {
  counted = fair.counted;
  held = λ v id entry e m. elim (Bool-cases (v == w)) [
    | inl same ↦
        let q : v ≡ w = (==_iff v w).0 same in
        (
          t.claimed,
          ap (λ u. get u (insert w t.claimed s.readers)) q ∙ get-insert w t.claimed s.readers,
          fair.holds id entry e (m ∙ ap some q),
        )
    | inr differs ↦
        let ne : v ≢ w = ground (arith, differs) in
        let (c, r', mem) = i.held v id entry (fair.adds_none v id entry ne e m) m in
        (c, get-insert_other v w t.claimed s.readers ne ∙ r', mem)
  ];
  within = λ v c x r' k'.
      let (old, e, g) = fair.grants v x k' in
      elim (get-insert-cases v w t.claimed s.readers {b = c} r') [
        | inl (q, q') ↦
            let same : old ≡ worker = cc (sym (ap (λ u. get u s.pool.workers) q) ∙ e, k) in
            subst (λ l. length l ≤ x.granted) q'
              (subst (λ n. length t.claimed ≤ n) (sym (g ∙ ap WorkerState.granted same))
                fair.within)
        | inr (ne, r'') ↦ subst (λ n. length c ≤ n) (sym g) (i.within v c old r'' e)
      ];
}

frame-IsSound :
    (s : System) (now w : ℕ) (worker : WorkerState) (claimed : List ℕ) (h : FrameHeader)
    (payload : Bytes)
    → get w s.readers ≡ some claimed
    → get w s.pool.workers ≡ some worker
    → IsSound s
    → IsSound (record {
      pool = Turn.pool (on_frame now w worker h payload claimed s.pool);
      readers = insert w (Turn.claimed (on_frame now w worker h payload claimed s.pool)) s.readers;
    })
frame-IsSound s now w worker claimed h payload r k i =
    let holds : Holds w claimed s.pool.pending = λ id entry e m.
      let (c', r', mem) = i.held w id entry e m in
      let same : c' ≡ claimed = cc (r, r') in ap (member id) (sym same) ∙ mem in
    let fair : IsTracking w worker.granted s.pool (on_frame now w worker h payload claimed s.pool) =
      on_frame-IsTracking w worker claimed s.pool i.counted holds (i.within w claimed worker r k) k
        now h payload in
    turn-IsSound s w worker claimed (on_frame now w worker h payload claimed s.pool) r k i fair

exit-IsSound :
    (s : System) (w : ℕ) (claimed : List ℕ)
    → get w s.readers ≡ some claimed
    → IsSound s
    → IsSound (record {
      pool = (fail_claimed claimed (record s.pool { workers = remove w s.pool.workers })).0;
      readers = remove w s.readers;
    })
exit-IsSound s w claimed r i = record {
  counted =
      fail_claimed-IsCounted claimed left
        (record { distinct = i.counted.distinct; counted = i.counted.counted });
  held = λ v id entry e m.
      let apart : member id claimed ≢ true = λ mem. cc (fail_claimed-gone id claimed left mem, e) in
      let (c, r', mem) = i.held v id entry (sym (fail_claimed-other id claimed left apart) ∙ e) m in
      let ne : v ≢ w = λ same.
        let q : c ≡ claimed = cc (sym (ap (λ u. get u s.readers) same) ∙ r', r) in
        apart (ap (member id) (sym q) ∙ mem) in
      (c, get-remove_other v w s.readers ne ∙ r', mem);
  within = λ v c x r' k.
      let (ne, r'') = get-remove-cases v w s.readers {b = c} r' in
      let k' = ap (get v) (sym (workers-fail_claimed claimed left)) ∙ k in
      i.within v c x r'' (sym (get-remove_other v w s.pool.workers ne) ∙ k');
}
  where
    left : Pool
    left = record s.pool { workers = remove w s.pool.workers }

Untouched-IsSound :
    (s : System) (p : Pool) → IsSound s → Untouched s.pool p → IsSound (record s { pool = p })
Untouched-IsSound s p i u = TakesOut-IsSound s p i (Untouched-TakesOut s.pool p u)

-- Whatever step a sound system takes, it stays sound.
pub Step-IsSound : {s t : System} → IsSound s → Step s t → IsSound t
Step-IsSound {s} i (reserve {p} e) =
    Untouched-IsSound s p i (try_reserve-Untouched s.pool p i.counted e)
Step-IsSound {s} i (enter {id} {next} events body e) = Untouched-IsSound s _ i (
    enlist-Untouched id next events body s.pool i.counted (
      allocate_id-absent s.pool.pending (suc (length s.pool.pending)) s.pool.next_id {id = id}
        {next = next} e))
Step-IsSound {s} i spawn = Untouched-IsSound s _ i (spawn_worker-Untouched s.pool i.counted)
Step-IsSound {s} i (settle outcome id) =
    TakesOut-IsSound s _ i (finish_submit-TakesOut outcome id s.pool i.counted)
Step-IsSound {s} i (drop id) = Untouched-IsSound s _ i (drop_response-Untouched id s.pool i.counted)
Step-IsSound {s} i (join w worker new) = join-IsSound s w worker new i
Step-IsSound {s} i (frame now w worker claimed h payload r k) =
    frame-IsSound s now w worker claimed h payload r k i
Step-IsSound {s} i (exit w claimed r) = exit-IsSound s w claimed r i
Step-IsSound {s} i (sweep now grace) =
    Swept-IsSound s _ i (sweep_decide-IsSwept now grace s.pool i.counted)
Step-IsSound {s} i (confirm c status) =
    Swept-IsSound s _ i (confirm_and_kill-IsSwept c status s.pool i.counted)

pub Steps-IsSound : {s t : System} → IsSound s → Steps s t → IsSound t
Steps-IsSound i stay = i
Steps-IsSound i (then_step before last) = Step-IsSound (Steps-IsSound i before) last

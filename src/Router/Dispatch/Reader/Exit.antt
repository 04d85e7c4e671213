-- ===== src/Router/Dispatch/Reader/Exit.antt =====
-- When a worker's stream ends, each request that it holds fails, and no other is touched.
use buran.Prelude.{
  ℕ, ◌≡◌, ◌≢◌, refl, sym, ap, ◌∙◌, inl, inr, ◌⊎◌, true, ◌==◌, none, some, List, [], ◌∷◌, ◌++◌,
  arith, Bool-cases, get, get-remove, get-remove_other, ==_iff,
}
use buran.Router.Dispatch
use buran.Router.Dispatch.{Pool, Pending, Effect, remove_pending}
use buran.Router.Dispatch.Counting.{
  IsCounted, pending-remove_pending, workers-remove_pending, remove_pending-IsCounted,
}
use buran.Router.Dispatch.Reader.{member, fail, fail_claimed}
use buran.Router.Dispatch.Reader.Ownership.{Owns, Keeps, others_differ}

abbrev pub Sends : Effect → List Effect → Type 0
Sends e [] = ⊥
Sends e (x ∷ xs) = (x ≡ e) ⊎ Sends e xs

Sends-append : (e : Effect) (xs ys : List Effect) → Sends e ys → Sends e (xs ++ ys)
Sends-append e [] ys h = h
Sends-append e (x ∷ xs) ys h = inr (Sends-append e xs ys h)

get-remove_pending_other :
    (i id : ℕ) (p : Pool) → i ≢ id → get i (Pool.pending (remove_pending id p)) ≡ get i p.pending
get-remove_pending_other i id p ne =
    ap (get i) (pending-remove_pending id p) ∙ get-remove_other i id p.pending ne

get-remove_pending : (id : ℕ) (p : Pool) → get id (Pool.pending (remove_pending id p)) ≡ none
get-remove_pending id p = ap (get id) (pending-remove_pending id p) ∙ get-remove id p.pending

pub nil_member : (i : ℕ) → member i [] ≡ true → ⊥
unfolding member
nil_member i h = cc h

member-cons→ :
    (i id : ℕ) (ids : List ℕ) → member i (id ∷ ids) ≡ true → (i ≡ id) ⊎ (member i ids ≡ true)
unfolding member
member-cons→ i id ids h = ground (arith, h)

member-cons :
    (i id : ℕ) (ids : List ℕ) → (i ≡ id) ⊎ (member i ids ≡ true) → member i (id ∷ ids) ≡ true
unfolding member
member-cons i id ids h = ground (arith, h)

pub fail_claimed-IsCounted :
    (ids : List ℕ) (p : Pool) → IsCounted p → IsCounted (fail_claimed ids p).0
unfolding fail_claimed
fail_claimed-IsCounted [] p c = c
fail_claimed-IsCounted (id ∷ ids) p c =
    fail_claimed-IsCounted ids (remove_pending id p) (remove_pending-IsCounted id p c)

pub workers-fail_claimed :
    (ids : List ℕ) (p : Pool) → Pool.workers (fail_claimed ids p).0 ≡ p.workers
unfolding fail_claimed
workers-fail_claimed [] p = refl
workers-fail_claimed (id ∷ ids) p =
    workers-fail_claimed ids (remove_pending id p) ∙ workers-remove_pending id p

-- A request that is not in the list stays.
pub fail_claimed-other :
    (i : ℕ) (ids : List ℕ) (p : Pool)
    → member i ids ≢ true
    → get i (Pool.pending (fail_claimed ids p).0) ≡ get i p.pending
unfolding fail_claimed
fail_claimed-other i [] p h = refl
fail_claimed-other i (id ∷ ids) p h =
    fail_claimed-other i ids (remove_pending id p) (λ m. h (member-cons i id ids (inr m)))
    ∙ get-remove_pending_other i id p (λ e. h (member-cons i id ids (inl e)))

pub fail_claimed-absent :
    (i : ℕ) (ids : List ℕ) (p : Pool)
    → get i p.pending ≡ none
    → get i (Pool.pending (fail_claimed ids p).0) ≡ none
unfolding fail_claimed
fail_claimed-absent i [] p h = h
fail_claimed-absent i (id ∷ ids) p h =
    fail_claimed-absent i ids (remove_pending id p) (elim (Bool-cases (i == id)) [
      | inl e ↦
          ap (λ j. get j (Pool.pending (remove_pending id p))) ((==_iff i id).0 e)
          ∙ get-remove_pending id p
      | inr ne ↦ get-remove_pending_other i id p (ground (arith, ne)) ∙ h
    ])

pub fail_claimed-gone :
    (i : ℕ) (ids : List ℕ) (p : Pool)
    → member i ids ≡ true
    → get i (Pool.pending (fail_claimed ids p).0) ≡ none
unfolding fail_claimed
fail_claimed-gone i [] p h = absurd (nil_member i h)
fail_claimed-gone i (id ∷ ids) p h = elim (member-cons→ i id ids h) [
  | inl e ↦
      fail_claimed-absent i ids (remove_pending id p)
        (ap (λ j. get j (Pool.pending (remove_pending id p))) e ∙ get-remove_pending id p)
  | inr m ↦ fail_claimed-gone i ids (remove_pending id p) m
]

fail_claimed-Sends :
    (i : ℕ) (ids : List ℕ) (p : Pool) (entry : Pending)
    → member i ids ≡ true
    → get i p.pending ≡ some entry
    → Sends
        (Dispatch.try_send_event entry.events (Dispatch.failed Dispatch.worker_failed))
        (fail_claimed ids p).1
unfolding fail_claimed
fail_claimed-Sends i [] p entry h e = absurd (nil_member i h)
fail_claimed-Sends i (id ∷ ids) p entry h e = elim (Bool-cases (i == id)) [
  | inl same ↦
      let here : get id p.pending ≡ some entry =
        ap (λ j. get j p.pending) (sym ((==_iff i id).0 same)) ∙ e in
      rw here (inl refl)
  | inr other ↦
      let ne : i ≢ id = ground (arith, other) in
      Sends-append (Dispatch.try_send_event entry.events (Dispatch.failed Dispatch.worker_failed))
        (fail (get id p.pending)) (fail_claimed ids (remove_pending id p)).1
        (fail_claimed-Sends i ids (remove_pending id p) entry
          (elim (member-cons→ i id ids h) [ inl x ↦ absurd (ne x) | inr m ↦ m ])
          (get-remove_pending_other i id p ne ∙ e))
]

-- A worker that owns what it claimed goes: each request that it holds leaves `pending`, and its
-- client is sent a failure, which is lost only if the channel is full; the counter stays right, and
-- what other workers claimed is as it was.
pub fail_claimed-outcome :
    (w : ℕ) (claimed : List ℕ) (p : Pool)
    → IsCounted p
    → Owns w claimed p.pending
    → IsCounted (fail_claimed claimed p).0
      × Keeps w p.pending (Pool.pending (fail_claimed claimed p).0)
      × ((id : ℕ)
          → member id claimed ≡ true
          → (get id (Pool.pending (fail_claimed claimed p).0) ≡ none)
            × (entry : Pending) × (get id p.pending ≡ some entry)
            × Sends
                (Dispatch.try_send_event entry.events (Dispatch.failed Dispatch.worker_failed))
                (fail_claimed claimed p).1)
fail_claimed-outcome w claimed p counted owns = (
  fail_claimed-IsCounted claimed p counted,
  (λ v i entry ne e m.
      fail_claimed-other i claimed p
        (λ mem. let (mine, e', c) = owns i mem in ne (others_differ e e' m c))
      ∙ e),
  (λ id mem.
      let (entry, e, c) = owns id mem in
      (fail_claimed-gone id claimed p mem, entry, e, fail_claimed-Sends id claimed p entry mem e)),
)

-- ===== src/Router/Dispatch/Counting.antt =====
-- The counter of requests in flight is the number of pending requests, modulo its width.
use buran.Prelude.{
  ℕ, ◌%◌, ◌^◌, ◌⊎◌, ◌≡◌, refl, sym, ap, ◌∙◌, subst, inl, inr, Option, none, some, arith,
  Option-cases, length, get, insert, remove, Distinct, Distinct-remove, Distinct-insert,
  length-remove, length-insert_absent, length-insert_present, remove_absent,
}
use buran.Router.Dispatch.{Pool, Pending, decr, remove_pending, remove_if_unclaimed, enlist}

-- No id stands twice in `pending`, and `in_flight` counts its entries.
pub record IsCounted (p : Pool) : Type 0 where
  pub distinct : Distinct p.pending
  pub counted : p.in_flight ≡ length p.pending % 2 ^ 32

remove_pending-absent : (id : ℕ) (p : Pool) → get id p.pending ≡ none → remove_pending id p ≡ p
unfolding remove_pending
remove_pending-absent id p h = rw h refl

remove_pending-present :
    (id : ℕ) (p : Pool) {entry : Pending}
    → get id p.pending ≡ some entry
    → remove_pending id p ≡ record p { pending = remove id p.pending; in_flight = decr p.in_flight }
unfolding remove_pending
remove_pending-present id p {entry} h = rw h refl

pub pending-remove_pending :
    (id : ℕ) (p : Pool) → Pool.pending (remove_pending id p) ≡ remove id p.pending
pending-remove_pending id p = elim (Option-cases (get id p.pending)) [
  | inl h ↦ ap Pool.pending (remove_pending-absent id p h) ∙ sym (remove_absent id p.pending h)
  | inr (entry, h) ↦ ap Pool.pending (remove_pending-present id p {entry = entry} h)
]

pub workers-remove_pending : (id : ℕ) (p : Pool) → Pool.workers (remove_pending id p) ≡ p.workers
workers-remove_pending id p = elim (Option-cases (get id p.pending)) [
  | inl h ↦ ap Pool.workers (remove_pending-absent id p h)
  | inr (entry, h) ↦ ap Pool.workers (remove_pending-present id p {entry = entry} h)
]

remove-IsCounted :
    (id : ℕ) (p : Pool) {entry : Pending}
    → IsCounted p
    → get id p.pending ≡ some entry
    → IsCounted (record p { pending = remove id p.pending; in_flight = decr p.in_flight })
remove-IsCounted id p {entry} c h = record {
  distinct = Distinct-remove id p.pending c.distinct;
  counted = omega (arith, c.counted, length-remove id p.pending {a = entry} c.distinct h);
}

pub remove_pending-IsCounted : (id : ℕ) (p : Pool) → IsCounted p → IsCounted (remove_pending id p)
remove_pending-IsCounted id p c = elim (Option-cases (get id p.pending)) [
  | inl h ↦ subst IsCounted (sym (remove_pending-absent id p h)) c
  | inr (entry, h) ↦
      subst IsCounted (sym (remove_pending-present id p {entry = entry} h))
        (remove-IsCounted id p {entry = entry} c h)
]

pub enlist-IsCounted :
    (id next : ℕ) (entry : Pending) (p : Pool)
    → IsCounted p
    → get id p.pending ≡ none
    → IsCounted (enlist id next entry p)
unfolding enlist
enlist-IsCounted id next entry p c h = record {
  distinct = Distinct-insert id entry p.pending c.distinct;
  counted = omega (arith, c.counted, length-insert_absent id entry p.pending h);
}

pub update-IsCounted :
    (id : ℕ) (entry : Pending) (p : Pool) {old : Pending}
    → IsCounted p
    → get id p.pending ≡ some old
    → IsCounted (record p { pending = insert id entry p.pending })
update-IsCounted id entry p {old} c h = record {
  distinct = Distinct-insert id entry p.pending c.distinct;
  counted =
      omega (arith, c.counted, length-insert_present id entry p.pending {b = old} c.distinct h);
}

-- Dropping a response leaves a claimed request where it is, and takes any other one out.
pub remove_if_unclaimed-cases :
    (id : ℕ) (p : Pool)
    → (remove_if_unclaimed id p ≡ p)
      ⊎ ((entry : Pending) × (get id p.pending ≡ some entry)
          × (entry.claimed_by ≡ none)
          × (remove_if_unclaimed id p
              ≡ record p { pending = remove id p.pending; in_flight = decr p.in_flight }))
unfolding remove_if_unclaimed
remove_if_unclaimed-cases id p = go (get id p.pending) refl
  where
    go :
        (o : Option Pending)
        → get id p.pending ≡ o
        → (remove_if_unclaimed id p ≡ p)
          ⊎ ((entry : Pending) × (get id p.pending ≡ some entry)
              × (entry.claimed_by ≡ none)
              × (remove_if_unclaimed id p
                  ≡ record p { pending = remove id p.pending; in_flight = decr p.in_flight }))
    go none h = inl (rw h refl)
    go (some entry) h = elim (Option-cases entry.claimed_by) [
      | inl free ↦ inr (entry, h, free, rw (h, free) refl)
      | inr (w, taken) ↦ inl (rw (h, taken) refl)
    ]

pub remove_if_unclaimed-IsCounted :
    (id : ℕ) (p : Pool) → IsCounted p → IsCounted (remove_if_unclaimed id p)
remove_if_unclaimed-IsCounted id p c = elim (remove_if_unclaimed-cases id p) [
  | inl e ↦ subst IsCounted (sym e) c
  | inr (entry, h, free, e) ↦ subst IsCounted (sym e) (remove-IsCounted id p {entry = entry} c h)
]

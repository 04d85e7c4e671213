-- ===== src/Router/Http/Writers.antt =====
-- crates/buran-router/src/http1.rs, TimedWriter and CountingWriter: what they do with the polls of the
-- socket below them. Each poll comes with the time, in milliseconds; a sleep that is polled is over
-- from its deadline on.
use buran.Prelude.{
  ℕ, ◌+◌, ◌%◌, ◌^◌, ◌≤◌, ◌≡◌, refl, ap, ◌∙◌, Option, none, some, List, [], ◌∷◌, leb, if◌then◌else◌,
  Bool-cases, inl, inr, ◌↔◌, le→leb, leb→le,
}

-- What a write or a flush of the socket comes to.
pub data Written : Type 0 where
  bytes : ℕ → Written
  failed timed_out : Written

pub data Poll : Type 0 where
  ready : Written → Poll
  pending : Poll

abbrev pub get_or_insert : ℕ → Option ℕ → ℕ
get_or_insert deadline (some armed) = armed
get_or_insert deadline none = deadline

abbrev pub expires : ℕ → ℕ → Poll × Option ℕ
expires now deadline =
    if leb deadline now then (ready timed_out, some deadline) else (pending, some deadline)

-- `poll_write` and `poll_flush` of the TimedWriter, by what the socket says: the result, and the
-- deadline that is armed.
unfoldable pub poll_timed : ℕ → ℕ → Option ℕ → Poll → Poll × Option ℕ
poll_timed timeout now deadline (ready written) = (ready written, none)
poll_timed timeout now deadline pending = expires now (get_or_insert (now + timeout) deadline)

-- The deadline after some polls, the last one first.
unfoldable pub deadline_after : ℕ → List (ℕ × Poll) → Option ℕ
unfolding poll_timed
deadline_after timeout [] = none
deadline_after timeout ((now, poll) ∷ earlier) =
    let deadline = deadline_after timeout earlier in (poll_timed timeout now deadline poll).1

-- `poll_write` of the CountingWriter; the counter is a `u64`.
unfoldable pub count_written : ℕ → Poll → ℕ
count_written count (ready (bytes n)) = (count + n) % 2 ^ 64
count_written count (ready failed) = count
count_written count (ready timed_out) = count
count_written count pending = count

-- Since when the socket has taken nothing: the first of the polls at the end that are all pending.
unfoldable pub stalled_since : ℕ → List (ℕ × Poll) → ℕ
stalled_since now [] = now
stalled_since now ((earlier, ready written) ∷ polls) = now
stalled_since now ((earlier, pending) ∷ polls) = stalled_since earlier polls

expires-deadline : (now deadline : ℕ) → (expires now deadline).1 ≡ some deadline
expires-deadline now deadline = elim (Bool-cases (leb deadline now)) [
  | inl e ↦ rw e refl
  | inr e ↦ rw e refl
]

deadline-stalled_since :
    (timeout now : ℕ) (polls : List (ℕ × Poll))
    → get_or_insert (now + timeout) (deadline_after timeout polls)
      ≡ stalled_since now polls + timeout
unfolding deadline_after stalled_since poll_timed
deadline-stalled_since timeout now [] = refl
deadline-stalled_since timeout now ((earlier, ready written) ∷ polls) = refl
deadline-stalled_since timeout now ((earlier, pending) ∷ polls) =
    ap (get_or_insert (now + timeout))
      (expires-deadline earlier (get_or_insert (earlier + timeout) (deadline_after timeout polls)))
    ∙ deadline-stalled_since timeout earlier polls

-- A poll in which the socket takes nothing ends in a timeout exactly if the socket has taken nothing
-- for the time of the timeout: any progress before starts the time again.
pub poll_timed-stalled :
    (timeout now : ℕ) (polls : List (ℕ × Poll))
    → ((poll_timed timeout now (deadline_after timeout polls) pending).0 ≡ ready timed_out)
      ↔ (stalled_since now polls + timeout ≤ now)
unfolding poll_timed
poll_timed-stalled timeout now polls = rw (deadline-stalled_since timeout now polls) (decides _)
  where
    decides : (d : ℕ) → ((expires now d).0 ≡ ready timed_out) ↔ (d ≤ now)
    decides d = elim (Bool-cases (leb d now)) [
      | inl e ↦ rw e ((λ t. leb→le d now e), (λ h. refl))
      | inr e ↦ rw e ((λ t. cc t), (λ h. let l = le→leb d now h in cc (e, l)))
    ]

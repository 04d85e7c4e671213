-- ===== src/Router/Dispatch/Reader/Ownership.antt =====
-- A frame from a worker acts on the requests that this worker claimed, and on no other.
use buran.Prelude.{
  ℕ, suc, ◌≤◌, ◌≡◌, ◌≢◌, sym, ap, ◌∙◌, ◌⊎◌, true, Option, none, some, List, [], ◌∷◌, arith, length,
  Map, get, All,
}
use buran.Router.Dispatch
use buran.Router.Dispatch.{Pool, Pending, WorkerState, WorkerEvent, Effect, remove_pending}
use buran.Router.Dispatch.Counting.{IsCounted}
use buran.Router.Dispatch.Reader.{Turn, member, delete, set_insert, pump, answer}

-- Every claimed id is a pending request that carries the worker's mark.
abbrev pub Owns : ℕ → List ℕ → Map Pending → Type 0
Owns w claimed pending =
    (id : ℕ)
    → member id claimed ≡ true
    → (entry : Pending) × (get id pending ≡ some entry) × (entry.claimed_by ≡ some w)

-- What other workers claimed stays as it was.
abbrev pub Keeps : ℕ → Map Pending → Map Pending → Type 0
Keeps w before after =
    (v id : ℕ) (entry : Pending)
    → v ≢ w
    → get id before ≡ some entry
    → entry.claimed_by ≡ some v
    → get id after ≡ some entry

-- Every pending request with the worker's mark is one that it holds.
abbrev pub Holds : ℕ → List ℕ → Map Pending → Type 0
Holds w claimed pending =
    (id : ℕ) (entry : Pending)
    → get id pending ≡ some entry
    → entry.claimed_by ≡ some w
    → member id claimed ≡ true

-- No worker appears, and none changes its grant.
abbrev pub SameGrants : Map WorkerState → Map WorkerState → Type 0
SameGrants before after =
    (v : ℕ) (worker : WorkerState)
    → get v after ≡ some worker
    → (old : WorkerState) × (get v before ≡ some old) × (worker.granted ≡ old.granted)

-- An event goes to the client of a request that the worker claimed.
abbrev pub GoesTo : ℕ → Map Pending → Effect → Type 0
GoesTo w pending (Dispatch.send_event channel event) =
    (id : ℕ) × (entry : Pending) × (get id pending ≡ some entry)
    × (entry.claimed_by ≡ some w)
    × (entry.events ≡ channel)
GoesTo w pending _ = Unit

pub record IsFair (w granted : ℕ) (p : Pool) (t : Turn) : Type 0 where
  pub counted : IsCounted t.pool
  pub owns : Owns w t.claimed t.pool.pending
  pub holds : Holds w t.claimed t.pool.pending
  pub keeps : Keeps w p.pending t.pool.pending
  pub adds_none : Keeps w t.pool.pending p.pending
  pub grants : SameGrants p.workers t.pool.workers
  pub within : length t.claimed ≤ granted
  pub delivers : All (GoesTo w p.pending) t.effects

pub member-delete→ :
    (id x : ℕ) (xs : List ℕ) → member x (delete id xs) ≡ true → (x ≢ id) × (member x xs ≡ true)
unfolding member delete
member-delete→ id x [] h = absurd (cc h)
member-delete→ id x (y ∷ ys) h = ground (arith, member-delete→ id x ys, h)

pub length-delete : (id : ℕ) (xs : List ℕ) → length (delete id xs) ≤ length xs
unfolding delete
length-delete id [] = omega arith
length-delete id (x ∷ xs) = ground (arith, length-delete id xs)

pub member-delete :
    (id x : ℕ) (xs : List ℕ) → x ≢ id → member x xs ≡ true → member x (delete id xs) ≡ true
unfolding member delete
member-delete id x [] ne h = h
member-delete id x (y ∷ ys) ne h = ground (arith, member-delete id x ys, h)

pub member-set_insert :
    (id x : ℕ) (xs : List ℕ) → (x ≡ id) ⊎ (member x xs ≡ true) → member x (set_insert id xs) ≡ true
unfolding member
member-set_insert id x xs h = ground (arith, h)

pub length-set_insert : (id : ℕ) (xs : List ℕ) → length (set_insert id xs) ≤ suc (length xs)
length-set_insert id xs = ground arith

pub member-set_insert→ :
    (id x : ℕ) (xs : List ℕ) → member x (set_insert id xs) ≡ true → (x ≡ id) ⊎ (member x xs ≡ true)
unfolding member
member-set_insert→ id x xs h = ground (arith, h)

pub answer-GoesTo :
    (w : ℕ) (pending : Map Pending) (o : Option ℕ) (status : ℕ)
    → All (GoesTo w pending) (answer o status)
answer-GoesTo w pending none status = tt
answer-GoesTo w pending (some channel) status = (tt, tt)

pub pump-GoesTo :
    (w id : ℕ) (pending : Map Pending) (o : Option ℕ) → All (GoesTo w pending) (pump w id o)
pump-GoesTo w id pending none = tt
pump-GoesTo w id pending (some rx) = (tt, tt)

-- One entry has one owner.
pub others_differ :
    {o : Option Pending} {a b : Pending} {v w : ℕ}
    → o ≡ some a
    → o ≡ some b
    → a.claimed_by ≡ some v
    → b.claimed_by ≡ some w
    → v ≡ w
others_differ {o} {a} {b} {v} {w} e f m n =
    let same : a ≡ b = cc (e, f) in cc (sym m ∙ ap Pending.claimed_by same ∙ n)

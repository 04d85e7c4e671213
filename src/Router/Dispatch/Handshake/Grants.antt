-- ===== src/Router/Dispatch/Handshake/Grants.antt =====
-- The grant of a handshake: finite, within the configured cap, and the same for the whole pool.
use buran.Prelude.{
  ℕ, ◌-◌, ◌^◌, ◌≤◌, ◌<◌, ◌≡◌, ◌≢◌, refl, sym, ◌∙◌, subst, inl, inr, Bool, true, false, ◌==◌, ==_iff,
  Option, none, some, arith, Bool-cases,
}
use buran.Ipc.Error.{Result, ok, err, panic, bwp_version}
use buran.Ipc.Hello
use buran.Ipc.Hello.{Hello}
use buran.Router.Dispatch.{Pool, WorkerState}
use buran.Router.Dispatch.Handshake.{
  Read, got, failed, effective_concurrency, seed, Handshake, HandshakeError, on_hello, handshake,
  refuse, greet, is_hello, unsupported, bad_hello, panicked_hello, unreadable, expected_hello,
}

-- With a cap of one or more, the effective concurrency is at least one, finite, within the cap,
-- and within what the worker declares if it declares a bound.
pub effective_concurrency-bounds :
    (concurrency cap : ℕ)
    → concurrency < 2 ^ 32
    → 1 ≤ cap
    → cap < 2 ^ 32
    → (1 ≤ effective_concurrency concurrency cap)
      × (effective_concurrency concurrency cap < 2 ^ 32 - 1)
      × (effective_concurrency concurrency cap ≤ cap)
      × (concurrency ≢ 0 → effective_concurrency concurrency cap ≤ concurrency)
unfolding effective_concurrency
effective_concurrency-bounds concurrency cap w c d = ground arith

effective_concurrency-pos :
    (concurrency cap : ℕ) → 1 ≤ cap → 1 ≤ effective_concurrency concurrency cap
unfolding effective_concurrency
effective_concurrency-pos concurrency cap c = ground arith

-- The pool's numbers are set once, and an accepted worker gets the pool's grant, one at least.
pub record IsUniform (p : Pool) (h : Handshake) : Type 0 where
  pub kept : p.granted ≢ 0 → h.pool ≡ p
  pub uniform :
      (worker : WorkerState)
      → h.outcome ≡ inr worker
      → (worker.granted ≡ Pool.granted h.pool) × (1 ≤ worker.granted)

module _ (w token : ℕ) (p : Pool) (cap : 1 ≤ p.concurrency_cap) where
  refuse-IsUniform : (e : HandshakeError) → IsUniform p (refuse p e)
  refuse-IsUniform e = record { kept = λ h. refl; uniform = λ worker h. absurd (cc h) }

  greet-IsUniform :
      (ack_sent : Bool) (q : Pool) (granted : ℕ)
      → (p.granted ≢ 0 → q ≡ p)
      → granted ≡ q.granted
      → 1 ≤ granted
      → IsUniform p (greet w token ack_sent (q, granted))
  greet-IsUniform true q granted k e pos = record {
    kept = k;
    uniform = λ worker h.
        let same : granted ≡ worker.granted = cc h in (sym same ∙ e, subst (λ n. 1 ≤ n) same pos);
  }
  greet-IsUniform false q granted k e pos = record { kept = k; uniform = λ worker h. absurd (cc h) }

  seeded-IsUniform :
      (ack_sent : Bool) (hello : Hello) → IsUniform p (greet w token ack_sent (seed hello p))
  unfolding seed
  seeded-IsUniform ack_sent hello = elim (Bool-cases (p.granted == 0)) [
    | inl unset ↦
        let e : p.granted ≡ 0 = (==_iff p.granted 0).0 unset in
        let granted = effective_concurrency hello.concurrency p.concurrency_cap in
        rw unset (
          greet-IsUniform ack_sent (record p { granted = granted; caps = hello.capabilities })
            granted (λ h. absurd (h e)) refl
            (effective_concurrency-pos hello.concurrency p.concurrency_cap cap))
    | inr set ↦
        let ne : p.granted ≢ 0 = ground (arith, set) in
        rw set (greet-IsUniform ack_sent p p.granted (λ h. refl) refl (omega (arith, ne)))
  ]

  on_hello-IsUniform :
      (ack_sent : Bool) (r : Result Hello) → IsUniform p (on_hello w token ack_sent p r)
  unfolding on_hello
  on_hello-IsUniform ack_sent (ok hello) = elim (Bool-cases (hello.version == bwp_version)) [
    | inl e ↦ rw e (seeded-IsUniform ack_sent hello)
    | inr e ↦ rw e (refuse-IsUniform (unsupported hello.version))
  ]
  on_hello-IsUniform ack_sent (err e) = refuse-IsUniform (bad_hello e)
  on_hello-IsUniform ack_sent panic = refuse-IsUniform panicked_hello

  -- Under a cap of one or more and whatever the worker sends: a pool whose grant is set is not
  -- changed, and a worker that is accepted has the pool's grant, which is one at least.
  pub handshake-IsUniform :
      (ack_sent : Bool) (r : Option Read) → IsUniform p (handshake w token ack_sent r p)
  unfolding handshake
  handshake-IsUniform ack_sent none = record {
    kept = λ h. refl;
    uniform = λ worker h. absurd (cc h);
  }
  handshake-IsUniform ack_sent (some (failed e)) = refuse-IsUniform (unreadable e)
  handshake-IsUniform ack_sent (some (got h payload rest)) = elim (Bool-cases (is_hello h.kind)) [
    | inl e ↦ rw e (on_hello-IsUniform ack_sent (Hello.decode payload))
    | inr e ↦ rw e (refuse-IsUniform expected_hello)
  ]

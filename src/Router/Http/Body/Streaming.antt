-- ===== src/Router/Http/Body/Streaming.antt =====
-- crates/buran-router/src/http1.rs and dispatch.rs: a streamed body on its way from the socket of the
-- client (feed_body) over the channel to the worker (pump_body).
use buran.Prelude.{
  ℕ, zero, suc, ◌+◌, ◌-◌, ◌<◌, ◌≤◌, ◌^◌, ◌≡◌, refl, sym, ap, ◌∙◌, min, true, Bool-cases, inl, inr,
  Option, none, some, List, [], ◌∷◌, ◌++◌, ltb, Bytes, length, All, All-append, append-nil, arith,
  subst,
}
use buran.Router.Dispatch.Pump.{pump_body}
use buran.Router.Dispatch.Pump.Received.{receive, receive-pump_body}
use buran.Router.Http.Body.{
  Socket, Pace, Feed, FeedRead, forward, give_up, read, feed_read, feed_loop, feed_body, chunk_size,
}
use buran.Router.Http.Body.Exact.{stream, read-length}
use buran.Router.Http.Body.Feeding.{
  joined, feed_body-delivers, feed_read-forward, next_round, loop_done, loop_round,
}

-- The length of a chunk goes into a header.
abbrev pub FitsHeader : Bytes → Type 0
FitsHeader chunk = length chunk < 2 ^ 32

abbrev AreSmall : Option Feed → Type 0
AreSmall none = Unit
AreSmall (some f) = All FitsHeader f.sent

next_round-AreSmall :
    (fuel : ℕ) (pace : Pace) (total remaining accepts : ℕ) (chunks : List Bytes) (s : Socket)
    → ((left a : ℕ) (more : List Bytes) (rest : Socket)
        → All FitsHeader more
        → AreSmall (feed_loop fuel pace total left a more rest))
    → All FitsHeader chunks
    → (r : FeedRead) → feed_read pace total remaining (read (min remaining chunk_size) s) ≡ r
    → AreSmall (next_round fuel pace total remaining accepts chunks r)
next_round-AreSmall fuel pace total remaining accepts chunks s ih small (give_up rest) e = small
next_round-AreSmall fuel pace total remaining zero chunks s ih small (forward bs rest) e = small
next_round-AreSmall fuel pace total remaining (suc a) chunks s ih small (forward bs rest) e =
    let want = min remaining chunk_size in
    let (p, more) =
      feed_read-forward pace total remaining (read want s).0 (read want s).1 rest bs e in
    let fits : FitsHeader bs = omega (arith, ap length p, read-length want s) in
    ih (remaining - length bs) a (chunks ++ (bs ∷ [])) rest
      (All-append FitsHeader chunks (bs ∷ []) small (fits, tt))

feed_loop-AreSmall :
    (fuel : ℕ) (pace : Pace) (total remaining accepts : ℕ) (chunks : List Bytes) (s : Socket)
    → All FitsHeader chunks
    → AreSmall (feed_loop fuel pace total remaining accepts chunks s)
unfolding feed_loop
feed_loop-AreSmall zero pace total remaining accepts chunks s small =
    elim (Bool-cases (ltb 0 remaining)) [ inl e ↦ rw e tt | inr e ↦ rw e small ]
feed_loop-AreSmall (suc fuel) pace total remaining accepts chunks s small =
    elim (Bool-cases (ltb 0 remaining)) [
      | inr e ↦
          subst AreSmall (sym (loop_done (suc fuel) pace total remaining accepts chunks s e)) small
      | inl e ↦ subst AreSmall (sym (loop_round fuel pace total remaining accepts chunks s e)) (
          next_round-AreSmall fuel pace total remaining accepts chunks s
            (λ left a more rest h. feed_loop-AreSmall fuel pace total left a more rest h) small
            (feed_read pace total remaining (read (min remaining chunk_size) s)) refl)
    ]

feed_body-AreSmall :
    (pace : Pace) (initial : Bytes) (remaining accepts : ℕ) (s : Socket)
    → FitsHeader initial
    → AreSmall (feed_body pace initial remaining accepts s)
unfolding feed_body
feed_body-AreSmall pace [] remaining accepts s fits =
    feed_loop-AreSmall remaining pace remaining remaining accepts [] s tt
feed_body-AreSmall pace (b ∷ bs) remaining zero s fits = tt
feed_body-AreSmall pace (b ∷ bs) remaining (suc a) s fits =
    feed_loop-AreSmall remaining pace (remaining + length (b ∷ bs)) remaining a ((b ∷ bs) ∷ []) s
      (fits, tt)

-- When the feeding of a body reports success, a worker that lives to read its frames up to the one
-- without a payload has exactly the declared length of what the client sent, in order; what the
-- client sent behind it is still in the socket.
pub receive-feed_body :
    (pace : Pace) (initial : Bytes) (remaining accepts : ℕ) (s : Socket) (f : Feed) (id writes : ℕ)
    → 1 ≤ remaining
    → feed_body pace initial remaining accepts s ≡ some f
    → f.ok ≡ true
    → FitsHeader initial
    → id < 2 ^ 32
    → length f.sent < writes
    → (body : Bytes) × ((receive id writes (pump_body id writes f.sent) ≡ some (body, []))
        × ((body ++ stream f.socket ≡ initial ++ stream s)
            × (length body ≡ length initial + remaining)))
receive-feed_body pace initial remaining accepts s f id writes some_left e ok fits small alive =
    let chunks : All FitsHeader f.sent =
      subst AreSmall e (feed_body-AreSmall pace initial remaining accepts s fits) in
    (
      joined f.sent,
      (
        ap (receive id writes) (sym (append-nil (pump_body id writes f.sent)))
            ∙ receive-pump_body id writes writes f.sent [] small chunks alive alive,
        feed_body-delivers pace initial remaining accepts s f some_left e ok,
      ),
    )

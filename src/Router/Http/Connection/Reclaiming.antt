-- ===== src/Router/Http/Connection/Reclaiming.antt =====
-- crates/buran-router/src/http1.rs, dispatch_to_app: the read half comes back only when the body of
-- the request was taken whole.
use buran.Prelude.{
  ℕ, ◌≡◌, refl, sym, Bool, true, false, not, ◌&&◌, Option, none, some, List, Bytes, [], ◌∷◌,
  Bool-cases, inl, inr, ◌⊎◌, subst, if◌then◌else◌, ◌==◌,
}
use buran.Router.Dispatch.{
  headers, chunk, flush, ws, «end», failed, worker_failed, queue_full, queue_timeout,
}
use buran.Router.Http.Exchange
use buran.Router.Http.Exchange.{
  Exchange, BodyPlan, AppRes, Answers, Client, Ending, Happening, StreamEnd, Buffered, buffered,
  streamed, http, upgraded, io_error, reclaim, dispatch_to_app, on_events, on_submitted,
  send_buffered, stream_body, buffer_ends, buffer_loop, stream_loop, Submitted, accepted, rejected,
  is_spilled, stream_result, event, hung_up, expired, complete, broken, stalled, gone, flushed,
  full, waiting, finished, truncated, open_ended,
}
use buran.Router.Http.Exchange.Delivered.{on_events-headers}

-- A read half comes back only from a feeding that succeeded.
abbrev pub Reclaims : BodyPlan → AppRes → Type 0
Reclaims plan (http code reclaimed) = (reclaimed ≡ false) ⊎ (reclaimed ≡ reclaim plan)
Reclaims plan (upgraded block later) = Unit
Reclaims plan io_error = Unit
Reclaims plan Exchange.unfinished = Unit

stream_result-Reclaims :
    (plan : BodyPlan) (code : ℕ) (e : StreamEnd) → Reclaims plan (stream_result plan code e)
stream_result-Reclaims plan code finished = inr refl
stream_result-Reclaims plan code truncated = tt
stream_result-Reclaims plan code open_ended = tt

send_buffered-Reclaims :
    (client : Client) (plan : BodyPlan) (code : ℕ) (block bytes : Bytes) (ending : Ending)
    (later : List Happening)
    → Reclaims plan (send_buffered client plan code block (buffer_ends bytes ending later)).result
unfolding send_buffered stream_body
send_buffered-Reclaims client plan code block bytes complete later = inr refl
send_buffered-Reclaims client plan code block bytes broken later = tt
send_buffered-Reclaims client plan code block bytes stalled later = inl refl
send_buffered-Reclaims client plan code block bytes gone later = inl refl
send_buffered-Reclaims client plan code block bytes flushed later =
    stream_result-Reclaims plan code (stream_loop true later).stream_end
send_buffered-Reclaims client plan code block bytes full later =
    stream_result-Reclaims plan code (stream_loop false later).stream_end
send_buffered-Reclaims client plan code block bytes waiting later = tt

abbrev switch_turn : Client → BodyPlan → Bool → Bytes → List Happening → Exchange
switch_turn client plan offered block later =
    if offered
    then record { wire = []; result = upgraded block later; aborts = 0; feed_aborted = false }
    else Exchange.fails client plan 502 client.keep_alive 0

on_events-switch :
    (client : Client) (plan : BodyPlan) (offered : Bool) (code : ℕ) (block : Bytes)
    (later : List Happening)
    → (code == 101) ≡ true
    → on_events client plan offered (event (headers code block) ∷ later)
      ≡ switch_turn client plan offered block later
unfolding on_events
on_events-switch client plan offered code block later e = rw (e, on_events) refl

switch_turn-Reclaims :
    (client : Client) (plan : BodyPlan) (offered : Bool) (block : Bytes) (later : List Happening)
    → Reclaims plan (switch_turn client plan offered block later).result
switch_turn-Reclaims client plan true block later = tt
switch_turn-Reclaims client plan false block later = inl refl

on_events-Reclaims :
    (client : Client) (plan : BodyPlan) (offered : Bool) (hs : List Happening)
    → Reclaims plan (on_events client plan offered hs).result
unfolding on_events
on_events-Reclaims client plan offered [] = tt
on_events-Reclaims client plan offered (hung_up ∷ later) = inl refl
on_events-Reclaims client plan offered (expired ∷ later) = inl refl
on_events-Reclaims client plan offered (event (chunk bytes) ∷ later) = inl refl
on_events-Reclaims client plan offered (event flush ∷ later) = inl refl
on_events-Reclaims client plan offered (event (ws opcode payload) ∷ later) = inl refl
on_events-Reclaims client plan offered (event «end» ∷ later) = inl refl
on_events-Reclaims client plan offered (event (failed error) ∷ later) = inl refl
on_events-Reclaims client plan offered (event (headers code block) ∷ later) =
    elim (Bool-cases (code == 101)) [
      | inl switch ↦
          subst (λ x. Reclaims plan x.result)
            (sym (on_events-switch client plan offered code block later switch))
            (switch_turn-Reclaims client plan offered block later)
      | inr plain ↦
          let b = buffer_loop [] later in
          subst (λ x. Reclaims plan x.result)
            (sym (on_events-headers client plan offered code block later plain))
            (send_buffered-Reclaims client plan code block b.bytes b.ending b.later)
    ]

pub dispatch_to_app-Reclaims :
    (client : Client) (plan : BodyPlan) (offered : Bool) (o : Option Answers)
    → Reclaims plan (dispatch_to_app client plan offered o).result
unfolding dispatch_to_app
dispatch_to_app-Reclaims client plan offered none = inl refl
dispatch_to_app-Reclaims client plan offered (some a) = elim (Bool-cases a.reserved) [
  | inr full_queue ↦ rw full_queue (inl refl)
  | inl reserved ↦ elim (Bool-cases (is_spilled plan && not a.spill_written)) [
    | inl unwritten ↦ rw (reserved, unwritten) (inl refl)
    | inr written ↦ rw (reserved, written) (submitted a.submitted)
  ]
]
  where
    submitted : (s : Submitted) → Reclaims plan (on_submitted client plan offered s).result
    submitted (accepted hs) = on_events-Reclaims client plan offered hs
    submitted (rejected worker_failed) = inl refl
    submitted (rejected queue_full) = inl refl
    submitted (rejected queue_timeout) = inl refl

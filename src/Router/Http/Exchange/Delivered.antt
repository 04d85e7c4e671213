-- ===== src/Router/Http/Exchange/Delivered.antt =====
-- crates/buran-router/src/http1.rs, dispatch_to_app: what the worker says is what the client reads.
use buran.Prelude.{
  ℕ, ◌≡◌, refl, sym, ap, ◌∙◌, Bool, true, false, not, ◌&&◌, some, List, [], ◌∷◌, ◌++◌, ◌==◌, Bytes,
  length, arith, inl, inr, ◌⊎◌, subst,
}
use buran.Router.Dispatch.{headers}
use buran.Router.Http.Response.{write_chunk, response_head}
use buran.Router.Http.Response.Chunked.{read_chunks}
use buran.Router.Http.Exchange.{
  Happening, Ending, Streamed, Client, BodyPlan, Answers, Exchange, event, buffer_loop, buffer_ends,
  stream_loop, stream_body, complete, broken, stalled, gone, flushed, full, waiting, send_buffered,
  on_events, dispatch_to_app, is_spilled, accepted, http, reclaim, length_line, chunked_line,
}
use buran.Router.Http.Exchange.Buffering.{says, IsSplit, buffer_loop-IsSplit}
use buran.Router.Http.Exchange.Chunks.{Streams, chunk_before, stream_loop-Streams}

-- The client reads the body that the worker sent, by its length or from chunks.
abbrev pub Reads : Bytes → Bytes → Bytes → Type 0
Reads head p wire =
    (wire ≡ head ++ (length_line p ++ p))
    ⊎ ((body : Bytes) × ((wire ≡ head ++ (chunked_line ++ body))
          × (read_chunks (length body) body ≡ some p)))

abbrev pub worker_head : Client → ℕ → Bytes → Bytes
worker_head client status block =
    response_head client.server status block client.extra client.keep_alive

abbrev pub Answered : Bytes → Bytes → ℕ → BodyPlan → Exchange → Type 0
Answered head p status plan x =
    (x.result ≡ http status (reclaim plan)) × ((x.aborts ≡ 0) × Reads head p x.wire)

stream_body-Answered :
    (plan : BodyPlan) (head bytes q p : Bytes) (status : ℕ) (s : Streamed)
    → Streams q s
    → bytes ++ q ≡ p
    → Answered head p status plan (stream_body plan head status bytes s)
unfolding stream_body
stream_body-Answered plan head bytes q p status s (ends, (quiet, reads)) whole = (
  rw ends refl,
  (
    quiet,
    inr (
      write_chunk bytes ++ s.out,
      (
        refl,
        chunk_before bytes q s (ends, (quiet, reads)) (length (write_chunk bytes ++ s.out))
              (omega arith)
            ∙ ap some whole,
      ),
    ),
  ),
)

send_buffered-Answered :
    (client : Client) (plan : BodyPlan) (status : ℕ) (block p bytes : Bytes) (ending : Ending)
    (later : List Happening)
    → IsSplit p (buffer_ends bytes ending later)
    → Answered
        (worker_head client status block)
        p
        status
        plan
        (send_buffered client plan status block (buffer_ends bytes ending later))
unfolding send_buffered
send_buffered-Answered client plan status block p bytes complete later same =
    (refl, (refl, inl (ap (λ x. worker_head client status block ++ (length_line x ++ x)) same)))
send_buffered-Answered client plan status block p bytes flushed later (q, (rest, whole)) =
    stream_body-Answered plan (worker_head client status block) bytes q p status
      (stream_loop true later) (stream_loop-Streams true later q rest) whole
send_buffered-Answered client plan status block p bytes full later (q, (rest, whole)) =
    stream_body-Answered plan (worker_head client status block) bytes q p status
      (stream_loop false later) (stream_loop-Streams false later q rest) whole
send_buffered-Answered client plan status block p bytes broken later split = cc split
send_buffered-Answered client plan status block p bytes stalled later split = cc split
send_buffered-Answered client plan status block p bytes gone later split = cc split
send_buffered-Answered client plan status block p bytes waiting later split = cc split

pub on_events-headers :
    (client : Client) (plan : BodyPlan) (offered : Bool) (status : ℕ) (block : Bytes)
    (later : List Happening)
    → (status == 101) ≡ false
    → on_events client plan offered (event (headers status block) ∷ later)
      ≡ send_buffered client plan status block (buffer_loop [] later)
unfolding on_events
on_events-headers client plan offered status block later n = rw (n, on_events) refl

dispatch_to_app-accepted :
    (client : Client) (plan : BodyPlan) (offered : Bool) (a : Answers) (happenings : List Happening)
    → a.reserved ≡ true
    → (is_spilled plan && not a.spill_written) ≡ false
    → a.submitted ≡ accepted happenings
    → dispatch_to_app client plan offered (some a) ≡ on_events client plan offered happenings
unfolding dispatch_to_app
dispatch_to_app-accepted client plan offered a happenings r w s = rw (r, w, s) refl

-- A worker that answers with a status and ends its response: the client gets the head for that
-- status, then the very body, framed by its length or in chunks, and the connection keeps its
-- reader unless the fed body did not go through.
pub dispatch_to_app-delivers :
    (client : Client) (plan : BodyPlan) (offered : Bool) (a : Answers) (status : ℕ)
    (block p : Bytes) (later : List Happening)
    → a.reserved ≡ true
    → (is_spilled plan && not a.spill_written) ≡ false
    → a.submitted ≡ accepted (event (headers status block) ∷ later)
    → (status == 101) ≡ false
    → says later ≡ some p
    → Answered
        (worker_head client status block)
        p
        status
        plan
        (dispatch_to_app client plan offered (some a))
dispatch_to_app-delivers client plan offered a status block p later r w s n says_p =
    let b = buffer_loop [] later in
    subst (Answered (worker_head client status block) p status plan)
      (sym (
        dispatch_to_app-accepted client plan offered a _ r w s
        ∙ on_events-headers client plan offered status block later n))
      (send_buffered-Answered client plan status block p b.bytes b.ending b.later
        (buffer_loop-IsSplit later [] p says_p))

-- ===== src/Router/Http/Exchange/Chunks.antt =====
-- crates/buran-router/src/http1.rs, dispatch_to_app: the chunks of a streamed response.
use buran.Prelude.{
  ℕ, zero, suc, ◌≤◌, ◌≡◌, refl, ap, ◌∙◌, Bool, true, false, none, some, List, [], ◌∷◌, ◌++◌, Bytes,
  length, arith, All,
}
use buran.Router.Dispatch.{headers, chunk, flush, ws, «end», failed}
use buran.Router.Http.Response.{write_chunk, last_chunk}
use buran.Router.Http.Response.Chunked.{
  read_chunks, read_chunks-write_chunk, read_chunks-last, read_chunks-nil, write_chunk-longer,
  before,
}
use buran.Router.Http.Exchange.{
  Happening, Streamed, event, hung_up, expired, stream_loop, finished, truncated,
}
use buran.Router.Http.Exchange.Buffering.{says, before_rest-some}

-- Streaming ends well, and a client reads the body from the chunks.
abbrev pub Streams : Bytes → Streamed → Type 0
Streams p s =
    (s.stream_end ≡ finished)
    × ((s.aborts ≡ 0) × ((fuel : ℕ) → length s.out ≤ fuel → read_chunks fuel s.out ≡ some p))

pub chunk_before :
    (bytes q : Bytes) (s : Streamed)
    → Streams q s
    → (fuel : ℕ) → length (write_chunk bytes ++ s.out) ≤ fuel
    → read_chunks fuel (write_chunk bytes ++ s.out) ≡ some (bytes ++ q)
chunk_before [] q s (ends, (quiet, reads)) fuel h = unfold write_chunk in reads fuel h
chunk_before (b ∷ bs) q s (ends, (quiet, reads)) zero h =
    ground (arith, h, write_chunk-longer b bs s.out)
chunk_before (b ∷ bs) q s (ends, (quiet, reads)) (suc fuel) h =
    read_chunks-write_chunk fuel b bs s.out
    ∙ ap (before (b ∷ bs)) (reads fuel (omega (arith, h, write_chunk-longer b bs s.out)))

last_read : (fuel : ℕ) → 5 ≤ fuel → read_chunks fuel last_chunk ≡ some []
last_read zero h = elim h [ ]
last_read (suc fuel) h = read_chunks-last fuel

pub stream_loop-Streams :
    (streaming : Bool) (hs : List Happening) (p : Bytes)
    → says hs ≡ some p
    → Streams p (stream_loop streaming hs)
unfolding says stream_loop
stream_loop-Streams streaming [] p s = cc s
stream_loop-Streams streaming (hung_up ∷ later) p s = cc s
stream_loop-Streams streaming (expired ∷ later) p s = cc s
stream_loop-Streams streaming (event (headers status block) ∷ later) p s =
    stream_loop-Streams streaming later p s
stream_loop-Streams streaming (event (chunk bytes) ∷ later) p s =
    let (q, (rest, whole)) = before_rest-some bytes p _ s in
    let (ends, (quiet, reads)) = stream_loop-Streams streaming later q rest in
    (
      ends,
      (
        quiet,
        λ fuel h.
            chunk_before bytes q (stream_loop streaming later) (ends, (quiet, reads)) fuel h
            ∙ ap some whole,
      ),
    )
stream_loop-Streams streaming (event flush ∷ later) p s = stream_loop-Streams true later p s
stream_loop-Streams streaming (event (ws opcode payload) ∷ later) p s =
    stream_loop-Streams streaming later p s
stream_loop-Streams streaming (event «end» ∷ later) p s =
    (refl, (refl, λ fuel h. last_read fuel h ∙ s))
stream_loop-Streams streaming (event (failed error) ∷ later) p s = cc s

chunk_cut_off :
    (bytes out : Bytes)
    → ((fuel : ℕ) → read_chunks fuel out ≡ none)
    → (fuel : ℕ) → read_chunks fuel (write_chunk bytes ++ out) ≡ none
chunk_cut_off [] out ih fuel = unfold write_chunk in ih fuel
chunk_cut_off (b ∷ bs) out ih zero = unfold read_chunks in refl
chunk_cut_off (b ∷ bs) out ih (suc fuel) =
    read_chunks-write_chunk fuel b bs out ∙ ap (before (b ∷ bs)) (ih fuel)

-- What goes on with the stream, and what of it asks for no flush.
abbrev pub GoesOn : Happening → Type 0
GoesOn (event «end») = ⊥
GoesOn (event (failed error)) = ⊥
GoesOn (event e) = Unit
GoesOn hung_up = ⊥
GoesOn expired = ⊥

abbrev pub IsQuiet : Happening → Type 0
IsQuiet (event flush) = ⊥
IsQuiet h = Unit

-- What cuts a response off: its channel closes, the worker reports a failure, or nothing comes in
-- time and nothing was flushed.
abbrev pub CutsOff : Bool → List Happening → Happening → Type 0
CutsOff streaming before hung_up = Unit
CutsOff streaming before (event (failed error)) = Unit
CutsOff streaming before (event e) = ⊥
CutsOff streaming before expired = (streaming ≡ false) × All IsQuiet before

abbrev IsTruncated : ℕ → Streamed → Type 0
IsTruncated fuel s = (s.stream_end ≡ truncated) × (read_chunks fuel s.out ≡ none)

cut_off :
    (streaming : Bool) (before : List Happening) (cut : Happening) (later : List Happening)
    (fuel : ℕ)
    → CutsOff streaming before cut
    → IsTruncated fuel (stream_loop streaming (cut ∷ later))
unfolding stream_loop
cut_off streaming before hung_up later fuel c = (refl, read_chunks-nil fuel)
cut_off streaming before (event (failed error)) later fuel c = (refl, read_chunks-nil fuel)
cut_off streaming before (event (headers status block)) later fuel c = elim c [ ]
cut_off streaming before (event (chunk bytes)) later fuel c = elim c [ ]
cut_off streaming before (event flush) later fuel c = elim c [ ]
cut_off streaming before (event (ws opcode payload)) later fuel c = elim c [ ]
cut_off streaming before (event «end») later fuel c = elim c [ ]
cut_off true before expired later fuel (c, q) = absurd (cc c)
cut_off false before expired later fuel c = (refl, read_chunks-nil fuel)

-- What cuts a stream off still does so when the first event before it is left out.
CutsOff-tail :
    (streaming : Bool) (h : Happening) (before : List Happening) (cut : Happening)
    → CutsOff streaming (h ∷ before) cut
    → CutsOff streaming before cut
CutsOff-tail streaming h before hung_up c = tt
CutsOff-tail streaming h before (event (failed error)) c = tt
CutsOff-tail streaming h before (event (headers status block)) c = c
CutsOff-tail streaming h before (event (chunk bytes)) c = c
CutsOff-tail streaming h before (event flush) c = c
CutsOff-tail streaming h before (event (ws opcode payload)) c = c
CutsOff-tail streaming h before (event «end») c = c
CutsOff-tail streaming h before expired (c, (q, qs)) = (c, qs)

CutsOff-flush :
    (streaming : Bool) (before : List Happening) (cut : Happening)
    → CutsOff streaming (event flush ∷ before) cut
    → CutsOff true before cut
CutsOff-flush streaming before hung_up c = tt
CutsOff-flush streaming before (event (failed error)) c = tt
CutsOff-flush streaming before (event (headers status block)) c = c
CutsOff-flush streaming before (event (chunk bytes)) c = c
CutsOff-flush streaming before (event flush) c = c
CutsOff-flush streaming before (event (ws opcode payload)) c = c
CutsOff-flush streaming before (event «end») c = c
CutsOff-flush streaming before expired (c, (q, qs)) = elim q [ ]

-- A chunked response is cut off if, before its end, the channel of its events closes, the worker
-- reports a failure, or, with nothing flushed, no event comes in time. It is then truncated: the
-- client does not get the last chunk, so no reading of the chunks takes the body for complete. A
-- response that was flushed and then falls silent does not count: the code ends it.
pub stream_loop-truncated :
    (streaming : Bool) (before : List Happening) (cut : Happening) (later : List Happening)
    (fuel : ℕ)
    → All GoesOn before
    → CutsOff streaming before cut
    → ((stream_loop streaming (before ++ (cut ∷ later))).stream_end ≡ truncated)
      × (read_chunks fuel (stream_loop streaming (before ++ (cut ∷ later))).out ≡ none)
unfolding stream_loop
stream_loop-truncated streaming [] cut later fuel on c = cut_off streaming [] cut later fuel c
stream_loop-truncated streaming (hung_up ∷ before) cut later fuel (on, ons) c = elim on [ ]
stream_loop-truncated streaming (expired ∷ before) cut later fuel (on, ons) c = elim on [ ]
stream_loop-truncated streaming (event (headers status block) ∷ before) cut later fuel (on, ons) c =
    stream_loop-truncated streaming before cut later fuel ons
      (CutsOff-tail streaming (event (headers status block)) before cut c)
stream_loop-truncated streaming (event (chunk bytes) ∷ before) cut later fuel (on, ons) c =
    let rest : (k : ℕ) → IsTruncated k (stream_loop streaming (before ++ (cut ∷ later))) = λ k.
      stream_loop-truncated streaming before cut later k ons
        (CutsOff-tail streaming (event (chunk bytes)) before cut c) in
    (
      (rest fuel).0,
      chunk_cut_off bytes (stream_loop streaming (before ++ (cut ∷ later))).out (λ k. (rest k).1)
          fuel,
    )
stream_loop-truncated streaming (event flush ∷ before) cut later fuel (on, ons) c =
    stream_loop-truncated true before cut later fuel ons (CutsOff-flush streaming before cut c)
stream_loop-truncated streaming (event (ws opcode payload) ∷ before) cut later fuel (on, ons) c =
    stream_loop-truncated streaming before cut later fuel ons
      (CutsOff-tail streaming (event (ws opcode payload)) before cut c)
stream_loop-truncated streaming (event «end» ∷ before) cut later fuel (on, ons) c = elim on [ ]
stream_loop-truncated streaming (event (failed error) ∷ before) cut later fuel (on, ons) c =
    elim on [ ]

-- ===== src/Router/Ws/Chunks.antt =====
-- Where the stream is cut into reads does not matter: a frame, a message or an error found in a
-- buffer is found when more bytes stand behind it, and the loop ends.
use buran.Prelude.{
  ℕ, zero, suc, ◌+◌, ◌≤◌, ◌<◌, ◌≡◌, ◌≢◌, refl, sym, ap, ◌∙◌, ◌⊎◌, inl, inr, Option, none, some, [],
  ◌++◌, arith, Bytes, length, length-append,
}
use buran.Router.Ws.{
  Frame, Result, ok, err, parse_frame, Decoder, Next, Step, on_frame, Round, go_on, stop,
  after_frame, after_parse, round, next_loop, next,
}
use buran.Router.Ws.Parsing.{parse_frame-append, parse_frame-append_err, parse_frame-shrinks}

after_frame-go_on :
    (t : Step) (rest q : Bytes) {d : Decoder} {left : Bytes}
    → after_frame t rest ≡ go_on d left
    → (left ≡ rest) × (after_frame t (rest ++ q) ≡ go_on d (left ++ q))
unfolding after_frame
after_frame-go_on t rest q e = ground arith

after_frame-stop :
    (t : Step) (rest q : Bytes) {n : Next}
    → after_frame t rest ≡ stop n
    → after_frame t (rest ++ q) ≡ stop (record n { buf = n.buf ++ q })
unfolding after_frame
after_frame-stop t rest q e = ground arith

pub round-shrinks :
    (d : Decoder) (p : Bytes) {d' : Decoder} {rest : Bytes}
    → round d p ≡ go_on d' rest
    → length rest < length p
unfolding round after_parse
round-shrinks d p {d'} {rest} e = go (parse_frame p d.max_message) refl
  where
    go :
        (r : Result (Option (Frame × Bytes)))
        → parse_frame p d.max_message ≡ r
        → length rest < length p
    go (err x) h = absurd (ground arith)
    go (ok none) h = absurd (ground arith)
    go (ok (some (f, left))) h =
        let moved : rest ≡ left = (after_frame-go_on (on_frame d f) left [] (rw h at e)).0 in
        rw moved (parse_frame-shrinks p d.max_message {f = f} h)

-- A round over a longer buffer goes on, or stops, as it does over the shorter one. Only a round
-- that asks for more bytes may come out otherwise.
round-append_go_on :
    (d : Decoder) (p q : Bytes) {d' : Decoder} {rest : Bytes}
    → round d p ≡ go_on d' rest
    → round d (p ++ q) ≡ go_on d' (rest ++ q)
unfolding round after_parse
round-append_go_on d p q {d'} {rest} e = go (parse_frame p d.max_message) refl
  where
    go :
        (r : Result (Option (Frame × Bytes)))
        → parse_frame p d.max_message ≡ r
        → round d (p ++ q) ≡ go_on d' (rest ++ q)
    go (err x) h = absurd (ground arith)
    go (ok none) h = absurd (ground arith)
    go (ok (some (f, left))) h =
        rw (parse_frame-append p q d.max_message h)
          (after_frame-go_on (on_frame d f) left q (rw (h, after_parse) at e)).1

round-append_stop :
    (d : Decoder) (p q : Bytes) {n : Next}
    → round d p ≡ stop n
    → n.result ≢ ok none
    → round d (p ++ q) ≡ stop (record n { buf = n.buf ++ q })
unfolding round after_parse
round-append_stop d p q {n} e ne = go (parse_frame p d.max_message) refl
  where
    go :
        (r : Result (Option (Frame × Bytes)))
        → parse_frame p d.max_message ≡ r
        → round d (p ++ q) ≡ stop (record n { buf = n.buf ++ q })
    go (err x) h = rw (parse_frame-append_err p q d.max_message h) (ground arith)
    go (ok none) h = absurd (ground arith)
    go (ok (some (f, left))) h =
        rw (parse_frame-append p q d.max_message h)
          (after_frame-stop (on_frame d f) left q (rw (h, after_parse) at e))

round_waits :
    (d : Decoder) (p : Bytes) {n : Next}
    → round d p ≡ stop n
    → n.result ≡ ok none
    → (n.decoder ≡ d) × (n.buf ≡ p)
unfolding round after_parse after_frame
round_waits d p {n} e w = ground arith

pub next_loop-zero : (d : Decoder) (buf : Bytes) → next_loop zero d buf ≡ none
unfolding next_loop
next_loop-zero d buf = refl

pub next_loop-go_on :
    (fuel : ℕ) (d : Decoder) (buf : Bytes) {d' : Decoder} {rest : Bytes}
    → round d buf ≡ go_on d' rest
    → next_loop (suc fuel) d buf ≡ next_loop fuel d' rest
unfolding next_loop
next_loop-go_on fuel d buf e = rw (e, next_loop)

pub next_loop-stop :
    (fuel : ℕ) (d : Decoder) (buf : Bytes) {n : Next}
    → round d buf ≡ stop n
    → next_loop (suc fuel) d buf ≡ some n
unfolding next_loop
next_loop-stop fuel d buf e = rw (e, next_loop)

pub Round-cases :
    (r : Round)
    → ((d : Decoder) × (rest : Bytes) × (r ≡ go_on d rest)) ⊎ ((n : Next) × (r ≡ stop n))
Round-cases (go_on d rest) = inl (d, rest, refl)
Round-cases (stop n) = inr (n, refl)

-- The loop ends: one round more than the buffer has bytes is fuel enough.
pub next_loop-ends :
    (fuel : ℕ) (d : Decoder) (buf : Bytes)
    → length buf < fuel
    → (n : Next) × (next_loop fuel d buf ≡ some n)
next_loop-ends zero d buf h = elim h [ ]
next_loop-ends (suc fuel) d buf h = elim (Round-cases (round d buf)) [
  | inl (d', rest, e) ↦
      let (n, ends) = next_loop-ends fuel d' rest (omega (arith, round-shrinks d buf e)) in
      (n, next_loop-go_on fuel d buf e ∙ ends)
  | inr (n, e) ↦ (n, next_loop-stop fuel d buf e)
]

-- More fuel gives the same result.
next_loop-le :
    (fuel more : ℕ) (d : Decoder) (buf : Bytes) {n : Next}
    → fuel ≤ more
    → next_loop fuel d buf ≡ some n
    → next_loop more d buf ≡ some n
next_loop-le zero more d buf h e = cc (next_loop-zero d buf)
next_loop-le (suc fuel) zero d buf h e = absurd (omega arith)
next_loop-le (suc fuel) (suc more) d buf {n} h e = elim (Round-cases (round d buf)) [
  | inl (d', rest, r) ↦
      next_loop-go_on more d buf r
      ∙ next_loop-le fuel more d' rest (omega arith) (sym (next_loop-go_on fuel d buf r) ∙ e)
  | inr (m, r) ↦ next_loop-stop more d buf r ∙ sym (next_loop-stop fuel d buf r) ∙ e
]

-- Any fuel above the length gives what `next` gives.
next_loop-next :
    (fuel : ℕ) (d : Decoder) (buf : Bytes) → length buf < fuel → next_loop fuel d buf ≡ next d buf
unfolding next
next_loop-next fuel d buf h =
    let (n, e) = next_loop-ends (suc (length buf)) d buf (omega arith) in
    next_loop-le (suc (length buf)) fuel d buf h e ∙ sym e

-- The loop over a longer buffer: a message or an error comes out the same, with the further bytes
-- behind; a decoder that has asked for more goes on from what it has kept.
next_loop-append :
    (fuel more : ℕ) (d : Decoder) (p q : Bytes) {n : Next}
    → fuel ≤ more
    → length p + length q < more
    → next_loop fuel d p ≡ some n
    → (n.result ≢ ok none → next_loop more d (p ++ q) ≡ some (record n { buf = n.buf ++ q }))
      × (n.result ≡ ok none → next_loop more d (p ++ q) ≡ next n.decoder (n.buf ++ q))
next_loop-append zero more d p q h room e = cc (next_loop-zero d p)
next_loop-append (suc fuel) zero d p q h room e = absurd (omega arith)
next_loop-append (suc fuel) (suc more) d p q {n} h room e = elim (Round-cases (round d p)) [
  | inl (d', rest, r) ↦
      let far = next_loop-go_on more d (p ++ q) (round-append_go_on d p q r) in
      let (found, waits) =
        next_loop-append fuel more d' rest q {n = n} (omega arith)
          (omega (arith, round-shrinks d p r)) (sym (next_loop-go_on fuel d p r) ∙ e) in
      ((λ ne. far ∙ found ne), λ w. far ∙ waits w)
  | inr (m, r) ↦
      let same : m ≡ n = cc (next_loop-stop fuel d p r) in
      let r' : round d p ≡ stop n = r ∙ ap stop same in
      (
        (λ ne. next_loop-stop more d (p ++ q) (round-append_stop d p q r' ne)),
        λ w.
            let (sd, sb) = round_waits d p r' w in
            rw (sd, sb) (next_loop-next (suc more) d (p ++ q) (omega (arith, length-append p q))),
      )
]

-- `next` always returns.
pub next_total : (d : Decoder) (buf : Bytes) → (n : Next) × (next d buf ≡ some n)
unfolding next
next_total d buf = next_loop-ends (suc (length buf)) d buf (omega arith)

-- How the stream is cut into reads does not change what `next` finds. Let `next` return `n` on
-- the bytes `p`. If `n` holds a message or an error, `next` on `p` and further bytes `q` returns
-- the same, with `q` behind the buffer that `n` left. If `n` asked for more bytes, calling `next`
-- with the kept decoder on the kept buffer and `q` is the same as calling it on all the bytes.
pub next-append :
    (d : Decoder) (p q : Bytes) (n : Next)
    → next d p ≡ some n
    → (n.result ≢ ok none → next d (p ++ q) ≡ some (record n { buf = n.buf ++ q }))
      × (n.result ≡ ok none → next d (p ++ q) ≡ next n.decoder (n.buf ++ q))
unfolding next
next-append d p q n e =
    next_loop-append (suc (length p)) (suc (length (p ++ q))) d p q
      (omega (arith, length-append p q)) (omega (arith, length-append p q)) e

pub next-go_on :
    (d : Decoder) (buf : Bytes) {d' : Decoder} {rest : Bytes}
    → round d buf ≡ go_on d' rest
    → next d buf ≡ next d' rest
next-go_on d buf {d'} {rest} e =
    unfold next in
    next_loop-go_on (length buf) d buf e
    ∙ next_loop-next (length buf) d' rest (round-shrinks d buf e)

pub next-stop : (d : Decoder) (buf : Bytes) {n : Next} → round d buf ≡ stop n → next d buf ≡ some n
unfolding next
next-stop d buf e = next_loop-stop (length buf) d buf e

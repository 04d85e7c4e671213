-- ===== src/Router/Ws/Consuming.antt =====
-- crates/buran-router/src/ws.rs, Decoder::next: a message takes bytes off the buffer.
use buran.Prelude.{
  ℕ, zero, suc, ◌<◌, ◌≡◌, refl, sym, ap, ◌∙◌, Option, none, some, arith, Bytes, length, inl, inr,
}
use buran.Router.Ws.{
  Frame, Result, Message, ok, err, parse_frame, Decoder, Next, Step, again, return, lift, on_frame,
  stop, after_frame, after_parse, round, next_loop, next,
}
use buran.Router.Ws.Parsing.{parse_frame-shrinks}
use buran.Router.Ws.Chunks.{
  round-shrinks, Round-cases, next_loop-go_on, next_loop-stop, next_loop-zero,
}

after_frame-buf : (t : Step) (rest : Bytes) (n : Next) → after_frame t rest ≡ stop n → n.buf ≡ rest
unfolding after_frame
after_frame-buf (again d) rest n e = cc e
after_frame-buf (return d r) rest n e =
    let same : record { decoder = d; buf = rest; result = lift r } ≡ n = cc e in
    ap (λ x. x.buf) (sym same)

round-message :
    (d : Decoder) (p : Bytes) (n : Next) (m : Message)
    → round d p ≡ stop n
    → n.result ≡ ok (some m)
    → length n.buf < length p
unfolding round after_parse
round-message d p n m e r = go (parse_frame p d.max_message) refl
  where
    go :
        (x : Result (Option (Frame × Bytes)))
        → parse_frame p d.max_message ≡ x
        → length n.buf < length p
    go (err x) h = cc (rw h at e, r)
    go (ok none) h = cc (rw h at e, r)
    go (ok (some (f, left))) h =
        let left_over : n.buf ≡ left = after_frame-buf (on_frame d f) left n (rw h at e) in
        rw left_over (parse_frame-shrinks p d.max_message {f = f} h)

next_loop-message :
    (fuel : ℕ) (d : Decoder) (p : Bytes) (n : Next) (m : Message)
    → next_loop fuel d p ≡ some n
    → n.result ≡ ok (some m)
    → length n.buf < length p
next_loop-message zero d p n m e r = cc (e, next_loop-zero d p)
next_loop-message (suc fuel) d p n m e r = elim (Round-cases (round d p)) [
  | inl (d', rest, moved) ↦
      let below = next_loop-message fuel d' rest n m (sym (next_loop-go_on fuel d p moved) ∙ e) r in
      omega (arith, below, round-shrinks d p moved)
  | inr (k, stopped) ↦
      let same : k ≡ n = cc (next_loop-stop fuel d p stopped, e) in
      round-message d p n m (stopped ∙ ap stop same) r
]

pub next-message_shorter :
    (d : Decoder) (p : Bytes) (n : Next) (m : Message)
    → next d p ≡ some n
    → n.result ≡ ok (some m)
    → length n.buf < length p
unfolding next
next-message_shorter d p n m e r = next_loop-message (suc (length p)) d p n m e r

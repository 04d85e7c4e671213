-- ===== src/Router/Http/Tunnel/Draining.antt =====
-- crates/buran-router/src/http1.rs, ws_tunnel: the loop over buffered messages ends, and what it
-- sends is closed at most once.
use buran.Prelude.{
  ℕ, zero, suc, ◌<◌, ◌≡◌, refl, sym, ap, ◌∙◌, Bool, true, false, Option, none, some, List, [], ◌∷◌,
  ◌++◌, ◌==◌, Bytes, All, All-append, append_assoc, arith, length, subst, be_bytes,
}
use buran.Router.Ws.{
  Decoder, Message, Result, DecodeError, Next, next, close_code, encode_frame, encode_close,
  op_close, text, binary, close, ping, pong, ok, err,
}
use buran.Router.Ws.Chunks.{next_total}
use buran.Router.Ws.Consuming.{next-message_shorter}
use buran.Router.Http.Tunnel.{
  Out, to_client, to_worker, tell, close_client, Reaction, goes_on, returns, on_message, on_error,
  Drained, sent_before, drain, TunnelEnd, closed, vanished, still_open, ws_op_close, close_internal,
}

-- A frame with the opcode of a close, final.
abbrev pub is_close : Out → Bool
is_close (to_client (b ∷ bs)) = b == 136
is_close (to_client []) = false
is_close (to_worker opcode payload) = false

abbrev pub Quiet : List Out → Type 0
Quiet out = All (λ o. is_close o ≡ false) out

-- One close frame for the client, behind all the rest.
pub record ClosesLast (out : List Out) : Type 0 where
  pub front : List Out
  pub final : Bytes
  pub whole : out ≡ front ++ (to_client final ∷ [])
  pub quiet : Quiet front
  pub closing : is_close (to_client final) ≡ true

abbrev pub Shaped : TunnelEnd → List Out → Type 0
Shaped closed out = ClosesLast out
Shaped vanished out = Quiet out
Shaped still_open out = Quiet out

pub Shaped-before :
    (e : TunnelEnd) (quiet out : List Out) → Quiet quiet → Shaped e out → Shaped e (quiet ++ out)
Shaped-before closed quiet out q s = record {
  front = quiet ++ s.front;
  final = s.final;
  whole = ap (λ x. quiet ++ x) s.whole ∙ sym (append_assoc quiet s.front (to_client s.final ∷ []));
  quiet = All-append _ quiet s.front q s.quiet;
  closing = s.closing;
}
Shaped-before vanished quiet out q s = All-append _ quiet out q s
Shaped-before still_open quiet out q s = All-append _ quiet out q s

pub tell-Quiet : (alive : Bool) (opcode : ℕ) (p : Bytes) → Quiet (tell alive opcode p)
tell-Quiet true opcode p = (refl, tt)
tell-Quiet false opcode p = tt

pub close_frame-ClosesLast :
    (front : List Out) (p : Bytes)
    → Quiet front
    → ClosesLast (front ++ (to_client (encode_frame op_close p) ∷ []))
close_frame-ClosesLast front p q = record {
  front = front;
  final = encode_frame op_close p;
  whole = refl;
  quiet = q;
  closing = unfold encode_frame in refl;
}

pub close_client-ClosesLast :
    (front : List Out) (code : ℕ) (reason : Bytes)
    → Quiet front
    → ClosesLast (front ++ close_client code reason)
unfolding encode_close
close_client-ClosesLast front code reason q = close_frame-ClosesLast front _ q

abbrev ReactionShaped : Reaction → Type 0
ReactionShaped (goes_on out) = Quiet out
ReactionShaped (returns out) = ClosesLast out

on_message-Shaped : (alive : Bool) (m : Message) → ReactionShaped (on_message alive m)
unfolding on_message
on_message-Shaped true (text p) = (refl, tt)
on_message-Shaped false (text p) = close_client-ClosesLast [] close_internal [] tt
on_message-Shaped true (binary p) = (refl, tt)
on_message-Shaped false (binary p) = close_client-ClosesLast [] close_internal [] tt
on_message-Shaped alive (ping p) = (unfold encode_frame in refl, tt)
on_message-Shaped alive (pong p) = tt
on_message-Shaped alive (close p) =
    close_frame-ClosesLast (tell alive ws_op_close p) p (tell-Quiet alive ws_op_close p)

on_error-ClosesLast : (alive : Bool) (e : DecodeError) → ClosesLast (on_error alive e)
unfolding on_error
on_error-ClosesLast alive e =
    close_client-ClosesLast (tell alive ws_op_close (be_bytes 2 (close_code e))) (close_code e) []
      (tell-Quiet alive ws_op_close (be_bytes 2 (close_code e)))

abbrev pub drain_end : Bool → TunnelEnd
drain_end true = closed
drain_end false = still_open

-- The loop over buffered messages ends, and closes last if it returns.
abbrev pub Drains : Option Drained → Type 0
Drains none = false ≡ true
Drains (some s) = Shaped (drain_end s.returned) s.out

abbrev after_reaction : ℕ → Bool → Next → Reaction → Option Drained
after_reaction fuel alive n (returns out) =
    some (record { decoder = n.decoder; buf = n.buf; out = out; returned = true })
after_reaction fuel alive n (goes_on out) = sent_before out (drain fuel alive n.decoder n.buf)

abbrev after_result : ℕ → Bool → Next → Result (Option Message) → Option Drained
after_result fuel alive n (err e) =
    some (record { decoder = n.decoder; buf = n.buf; out = on_error alive e; returned = true })
after_result fuel alive n (ok none) =
    some (record { decoder = n.decoder; buf = n.buf; out = []; returned = false })
after_result fuel alive n (ok (some m)) = after_reaction fuel alive n (on_message alive m)

same_reaction :
    (fuel : ℕ) (alive : Bool) (n : Next) (r : Reaction)
    → (elim r [
      | returns out ↦ some (record { decoder = n.decoder; buf = n.buf; out = out; returned = true })
      | goes_on out ↦ sent_before out (drain fuel alive n.decoder n.buf)
    ])
      ≡ after_reaction fuel alive n r
same_reaction fuel alive n (returns out) = refl
same_reaction fuel alive n (goes_on out) = refl

same_result :
    (fuel : ℕ) (alive : Bool) (n : Next) (r : Result (Option Message))
    → (elim r [
      | err e ↦
          some
            (record { decoder = n.decoder; buf = n.buf; out = on_error alive e; returned = true })
      | ok found ↦ elim found [
        | none ↦ some (record { decoder = n.decoder; buf = n.buf; out = []; returned = false })
        | some m ↦ elim (on_message alive m) [
          | returns out ↦
              some (record { decoder = n.decoder; buf = n.buf; out = out; returned = true })
          | goes_on out ↦ sent_before out (drain fuel alive n.decoder n.buf)
        ]
      ]
    ])
      ≡ after_result fuel alive n r
same_result fuel alive n (err e) = refl
same_result fuel alive n (ok none) = refl
same_result fuel alive n (ok (some m)) = same_reaction fuel alive n (on_message alive m)

drain-next :
    (fuel : ℕ) (alive : Bool) (d : Decoder) (buf : Bytes) (n : Next)
    → next d buf ≡ some n
    → drain (suc fuel) alive d buf ≡ after_result fuel alive n n.result
unfolding drain
drain-next fuel alive d buf n e = rw (e, drain) (same_result fuel alive n n.result)

sent_before-Drains :
    (out : List Out) (o : Option Drained) → Quiet out → Drains o → Drains (sent_before out o)
sent_before-Drains out none q d = d
sent_before-Drains out (some s) q d = Shaped-before (drain_end s.returned) out s.out q d

after_reaction-Drains :
    (fuel : ℕ) (alive : Bool) (n : Next) (r : Reaction)
    → ReactionShaped r
    → Drains (drain fuel alive n.decoder n.buf)
    → Drains (after_reaction fuel alive n r)
after_reaction-Drains fuel alive n (returns out) shaped ih = shaped
after_reaction-Drains fuel alive n (goes_on out) shaped ih =
    sent_before-Drains out (drain fuel alive n.decoder n.buf) shaped ih

after_result-Drains :
    (fuel : ℕ) (alive : Bool) (n : Next) (r : Result (Option Message))
    → ((m : Message) → r ≡ ok (some m) → Drains (drain fuel alive n.decoder n.buf))
    → Drains (after_result fuel alive n r)
after_result-Drains fuel alive n (err e) ih = on_error-ClosesLast alive e
after_result-Drains fuel alive n (ok none) ih = tt
after_result-Drains fuel alive n (ok (some m)) ih =
    after_reaction-Drains fuel alive n (on_message alive m) (on_message-Shaped alive m) (ih m refl)

pub drain-Drains :
    (fuel : ℕ) (alive : Bool) (d : Decoder) (buf : Bytes)
    → length buf < fuel
    → Drains (drain fuel alive d buf)
drain-Drains zero alive d buf h = elim h [ ]
drain-Drains (suc fuel) alive d buf h =
    let (n, e) = next_total d buf in
    subst Drains (sym (drain-next fuel alive d buf n e)) (
      after_result-Drains fuel alive n n.result (λ m r.
        drain-Drains fuel alive n.decoder n.buf
          (omega (arith, next-message_shorter d buf n m e r, h))))

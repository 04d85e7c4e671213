-- ===== src/Router/Http/Tunnel/Closing.antt =====
-- crates/buran-router/src/http1.rs, ws_tunnel: its loop ends, and a close frame is the last word.
use buran.Prelude.{
  ℕ, suc, ◌≡◌, refl, sym, ap, Bool, true, false, Option, none, some, List, [], ◌∷◌, ◌++◌, ◌==◌,
  Bytes, arith, length, Bool-cases, inl, inr, subst, be_bytes, codes,
}
use buran.Router.Dispatch.{headers, chunk, flush, ws, «end», failed}
use buran.Router.Ws.{Decoder, encode_frame}
use buran.Router.Http.Tunnel.{
  tell, Drained, drain, Signal, client_bytes, client_gone, worker_event, worker_gone, idle, After,
  reads, writes, closes, vanishes, on_ws, on_signal, closed, vanished, Tunnelled, ended, out_before,
  ws_tunnel, ws_op_text, ws_op_binary, ws_op_close, close_normal, close_internal, close_going_away,
}
use buran.Router.Http.Tunnel.Draining.{
  ClosesLast, Quiet, Shaped, Shaped-before, tell-Quiet, close_frame-ClosesLast,
  close_client-ClosesLast, drain_end, Drains, drain-Drains,
}

abbrev AfterShaped : After → Type 0
AfterShaped (reads bytes) = Unit
AfterShaped (writes out) = Quiet out
AfterShaped (closes out) = ClosesLast out
AfterShaped (vanishes out) = Quiet out

on_ws-Shaped : (opcode : ℕ) (p : Bytes) → AfterShaped (on_ws opcode p)
unfolding on_ws encode_frame
on_ws-Shaped opcode p = elim (Bool-cases (opcode == ws_op_text)) [
  | inl t ↦ rw t (refl, tt)
  | inr not_text ↦ elim (Bool-cases (opcode == ws_op_binary)) [
    | inl b ↦ rw (not_text, b) (refl, tt)
    | inr not_binary ↦ elim (Bool-cases (opcode == ws_op_close)) [
      | inl c ↦ rw (not_text, not_binary, c) (close_frame-ClosesLast [] p tt)
      | inr other ↦ rw (not_text, not_binary, other) tt
    ]
  ]
]

on_signal-Shaped : (alive : Bool) (s : Signal) → AfterShaped (on_signal alive s)
unfolding on_signal
on_signal-Shaped alive (client_bytes []) = tell-Quiet alive ws_op_close _
on_signal-Shaped alive (client_bytes (b ∷ bs)) = tt
on_signal-Shaped alive client_gone = tell-Quiet alive ws_op_close _
on_signal-Shaped alive (worker_event (ws opcode p)) = on_ws-Shaped opcode p
on_signal-Shaped alive (worker_event «end») = close_client-ClosesLast [] close_normal [] tt
on_signal-Shaped alive (worker_event (failed e)) = close_client-ClosesLast [] close_internal [] tt
on_signal-Shaped alive (worker_event (headers status block)) = tt
on_signal-Shaped alive (worker_event (chunk bytes)) = tt
on_signal-Shaped alive (worker_event flush) = tt
on_signal-Shaped alive worker_gone = close_client-ClosesLast [] close_normal [] tt
on_signal-Shaped alive idle =
    close_client-ClosesLast (tell alive ws_op_close (be_bytes 2 close_going_away)) close_going_away
      (codes "idle timeout") (tell-Quiet alive ws_op_close (be_bytes 2 close_going_away))

abbrev after_signal : Drained → List (Bool × Signal) → After → Tunnelled
after_signal s rounds (reads bytes) = ws_tunnel s.decoder (s.buf ++ bytes) rounds
after_signal s rounds (writes out) = out_before out (ws_tunnel s.decoder s.buf rounds)
after_signal s rounds (closes out) = ended out closed
after_signal s rounds (vanishes out) = ended out vanished

abbrev after_drain : Drained → Bool → Signal → List (Bool × Signal) → Bool → Tunnelled
after_drain s alive signal rounds true = ended s.out closed
after_drain s alive signal rounds false =
    out_before s.out (after_signal s rounds (on_signal alive signal))

same_signal :
    (s : Drained) (rounds : List (Bool × Signal)) (a : After)
    → (elim a [
      | reads bytes ↦ ws_tunnel s.decoder (s.buf ++ bytes) rounds
      | writes out ↦ out_before out (ws_tunnel s.decoder s.buf rounds)
      | closes out ↦ ended out closed
      | vanishes out ↦ ended out vanished
    ])
      ≡ after_signal s rounds a
same_signal s rounds (reads bytes) = refl
same_signal s rounds (writes out) = refl
same_signal s rounds (closes out) = refl
same_signal s rounds (vanishes out) = refl

same_drain :
    (s : Drained) (alive : Bool) (signal : Signal) (rounds : List (Bool × Signal)) (b : Bool)
    → (elim b [
      | true ↦ ended s.out closed
      | false ↦ out_before s.out (elim (on_signal alive signal) [
        | reads bytes ↦ ws_tunnel s.decoder (s.buf ++ bytes) rounds
        | writes out ↦ out_before out (ws_tunnel s.decoder s.buf rounds)
        | closes out ↦ ended out closed
        | vanishes out ↦ ended out vanished
      ])
    ])
      ≡ after_drain s alive signal rounds b
same_drain s alive signal rounds true = refl
same_drain s alive signal rounds false =
    ap (out_before s.out) (same_signal s rounds (on_signal alive signal))

ws_tunnel-round :
    (d : Decoder) (buf : Bytes) (alive : Bool) (signal : Signal) (rounds : List (Bool × Signal))
    (s : Drained)
    → drain (suc (length buf)) alive d buf ≡ some s
    → ws_tunnel d buf ((alive, signal) ∷ rounds) ≡ after_drain s alive signal rounds s.returned
unfolding ws_tunnel
ws_tunnel-round d buf alive signal rounds s e =
    rw (e, ws_tunnel) (same_drain s alive signal rounds s.returned)

abbrev IsShaped : Tunnelled → Type 0
IsShaped t = Shaped t.tunnel_end t.out

after_signal-IsShaped :
    (s : Drained) (rounds : List (Bool × Signal)) (a : After)
    → AfterShaped a
    → ((d : Decoder) (buf : Bytes) → IsShaped (ws_tunnel d buf rounds))
    → IsShaped (after_signal s rounds a)
after_signal-IsShaped s rounds (reads bytes) shaped ih = ih s.decoder (s.buf ++ bytes)
after_signal-IsShaped s rounds (writes out) shaped ih =
    let t = ws_tunnel s.decoder s.buf rounds in
    Shaped-before t.tunnel_end out t.out shaped (ih s.decoder s.buf)
after_signal-IsShaped s rounds (closes out) shaped ih = shaped
after_signal-IsShaped s rounds (vanishes out) shaped ih = shaped

after_drain-IsShaped :
    (s : Drained) (alive : Bool) (signal : Signal) (rounds : List (Bool × Signal)) (b : Bool)
    → Shaped (drain_end b) s.out
    → ((d : Decoder) (buf : Bytes) → IsShaped (ws_tunnel d buf rounds))
    → IsShaped (after_drain s alive signal rounds b)
after_drain-IsShaped s alive signal rounds true shaped ih = shaped
after_drain-IsShaped s alive signal rounds false shaped ih =
    let t = after_signal s rounds (on_signal alive signal) in
    Shaped-before t.tunnel_end s.out t.out shaped
      (after_signal-IsShaped s rounds (on_signal alive signal) (on_signal-Shaped alive signal) ih)

-- Whatever client and worker send, a tunnel writes at most one close frame to the client, and
-- nothing behind it: one when it closes, none while it is open or when the client vanished.
pub ws_tunnel-Shaped :
    (d : Decoder) (buf : Bytes) (rounds : List (Bool × Signal))
    → Shaped (ws_tunnel d buf rounds).tunnel_end (ws_tunnel d buf rounds).out
ws_tunnel-Shaped d buf [] = unfold ws_tunnel in tt
ws_tunnel-Shaped d buf ((alive, signal) ∷ rounds) =
    drained (drain (suc (length buf)) alive d buf) refl
      (drain-Drains (suc (length buf)) alive d buf (omega arith))
      (λ k b. ws_tunnel-Shaped k b rounds)
  where
    drained :
        (o : Option Drained)
        → drain (suc (length buf)) alive d buf ≡ o
        → Drains o
        → ((k : Decoder) (b : Bytes) → IsShaped (ws_tunnel k b rounds))
        → IsShaped (ws_tunnel d buf ((alive, signal) ∷ rounds))
    drained none e shaped ih = cc shaped
    drained (some s) e shaped ih =
        subst IsShaped (sym (ws_tunnel-round d buf alive signal rounds s e))
          (after_drain-IsShaped s alive signal rounds s.returned shaped ih)

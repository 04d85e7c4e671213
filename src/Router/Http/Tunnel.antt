-- ===== src/Router/Http/Tunnel.antt =====
-- crates/buran-router/src/http1.rs, ws_tunnel: what a tunnel sends to the client and to the worker.
-- What the select of a round gives, and whether frames reach the worker in it, is given.
pub mod Draining
pub mod Closing
mod Tests
use buran.Prelude.{
  ℕ, zero, suc, Bool, true, false, Option, none, some, List, [], ◌∷◌, ◌++◌, if◌then◌else◌, ◌==◌,
  Bytes, be_bytes, codes, length,
}
use buran.Router.Dispatch.{WorkerEvent, headers, chunk, flush, ws, «end», failed}
use buran.Router.Ws.{
  Decoder, Message, Result, DecodeError, Next, next, close_code, encode_frame, encode_close,
  op_text, op_binary, op_close, op_pong, text, binary, close, ping, pong, ok, err,
}

abbrev pub close_normal : ℕ
close_normal = 1000

abbrev pub close_going_away : ℕ
close_going_away = 1001

abbrev pub close_internal : ℕ
close_internal = 1011

-- The opcodes of the protocol with the worker.
abbrev pub ws_op_text : ℕ
ws_op_text = 1

abbrev pub ws_op_binary : ℕ
ws_op_binary = 2

abbrev pub ws_op_close : ℕ
ws_op_close = 8

pub data Out : Type 0 where
  to_client : Bytes → Out
  to_worker : ℕ → Bytes → Out

-- `send_ws`, whose errors are dropped here.
abbrev pub tell : Bool → ℕ → Bytes → List Out
tell alive opcode payload = if alive then to_worker opcode payload ∷ [] else []

abbrev pub close_client : ℕ → Bytes → List Out
close_client code reason = to_client (encode_close code reason) ∷ []

-- A step of the tunnel goes on, or is its last.
pub data Reaction : Type 0 where
  goes_on returns : List Out → Reaction

abbrev pub pass_on : Bool → ℕ → Bytes → Reaction
pass_on true opcode payload = goes_on (to_worker opcode payload ∷ [])
pass_on false opcode payload = returns (close_client close_internal [])

unfoldable pub on_message : Bool → Message → Reaction
unfolding encode_frame encode_close
on_message alive (text p) = pass_on alive ws_op_text p
on_message alive (binary p) = pass_on alive ws_op_binary p
on_message alive (ping p) = goes_on (to_client (encode_frame op_pong p) ∷ [])
on_message alive (pong p) = goes_on []
on_message alive (close p) =
    returns (tell alive ws_op_close p ++ (to_client (encode_frame op_close p) ∷ []))

unfoldable pub on_error : Bool → DecodeError → List Out
unfolding encode_close
on_error alive e =
    tell alive ws_op_close (be_bytes 2 (close_code e)) ++ close_client (close_code e) []

-- What the loop over buffered messages leaves.
pub record Drained : Type 0 where
  pub decoder : Decoder
  pub buf : Bytes
  pub out : List Out
  pub returned : Bool

abbrev pub sent_before : List Out → Option Drained → Option Drained
sent_before out (some d) = some (record d { out = out ++ d.out })
sent_before out none = none

-- Every message takes bytes off the buffer, so its length is fuel enough; none when it runs out.
unfoldable pub drain : ℕ → Bool → Decoder → Bytes → Option Drained
unfolding next on_message on_error
drain zero alive d buf = none
drain (suc fuel) alive d buf = elim (next d buf) [
  | none ↦ none
  | some n ↦ elim n.result [
    | err e ↦
        some (record { decoder = n.decoder; buf = n.buf; out = on_error alive e; returned = true })
    | ok found ↦ elim found [
      | none ↦ some (record { decoder = n.decoder; buf = n.buf; out = []; returned = false })
      | some m ↦ elim (on_message alive m) [
        | returns out ↦
            some (record { decoder = n.decoder; buf = n.buf; out = out; returned = true })
        | goes_on out ↦ sent_before out (drain fuel alive n.decoder n.buf)
      ]
    ]
  ]
]

pub data Signal : Type 0 where
  client_bytes : Bytes → Signal
  client_gone : Signal
  worker_event : WorkerEvent → Signal
  worker_gone idle : Signal

-- What a round does after its select. `vanish` ends the tunnel without a word to the client.
pub data After : Type 0 where
  reads : Bytes → After
  writes closes vanishes : List Out → After

unfoldable pub on_ws : ℕ → Bytes → After
unfolding encode_frame
on_ws opcode payload =
    if opcode == ws_op_text
    then writes (to_client (encode_frame op_text payload) ∷ [])
    else if opcode == ws_op_binary
    then writes (to_client (encode_frame op_binary payload) ∷ [])
    else if opcode == ws_op_close
    then closes (to_client (encode_frame op_close payload) ∷ [])
    else writes []

unfoldable pub on_signal : Bool → Signal → After
unfolding on_ws encode_close
on_signal alive (client_bytes []) = vanishes (tell alive ws_op_close (be_bytes 2 close_going_away))
on_signal alive (client_bytes (b ∷ bs)) = reads (b ∷ bs)
on_signal alive client_gone = vanishes (tell alive ws_op_close (be_bytes 2 close_going_away))
on_signal alive (worker_event (ws opcode payload)) = on_ws opcode payload
on_signal alive (worker_event «end») = closes (close_client close_normal [])
on_signal alive (worker_event (failed e)) = closes (close_client close_internal [])
on_signal alive (worker_event (headers status block)) = writes []
on_signal alive (worker_event (chunk bytes)) = writes []
on_signal alive (worker_event flush) = writes []
on_signal alive worker_gone = closes (close_client close_normal [])
on_signal alive idle = closes (
    tell alive ws_op_close (be_bytes 2 close_going_away)
    ++ close_client close_going_away (codes "idle timeout"))

-- How a tunnel stands after the given rounds.
pub data TunnelEnd : Type 0 where
  closed vanished still_open : TunnelEnd

pub record Tunnelled : Type 0 where
  pub out : List Out
  pub tunnel_end : TunnelEnd

abbrev pub ended : List Out → TunnelEnd → Tunnelled
ended out tunnel_end = record { out = out; tunnel_end = tunnel_end }

abbrev pub out_before : List Out → Tunnelled → Tunnelled
out_before out t = record t { out = out ++ t.out }

-- A list of rounds: whether the worker can be reached, and what the select gives.
unfoldable pub ws_tunnel : Decoder → Bytes → List (Bool × Signal) → Tunnelled
unfolding drain on_signal
ws_tunnel d buf [] = ended [] still_open
ws_tunnel d buf ((alive, signal) ∷ rounds) = elim (drain (suc (length buf)) alive d buf) [
  | none ↦ ended [] still_open
  | some s ↦ elim s.returned [
    | true ↦ ended s.out closed
    | false ↦ out_before s.out (elim (on_signal alive signal) [
      | reads bytes ↦ ws_tunnel s.decoder (s.buf ++ bytes) rounds
      | writes out ↦ out_before out (ws_tunnel s.decoder s.buf rounds)
      | closes out ↦ ended out closed
      | vanishes out ↦ ended out vanished
    ])
  ]
]

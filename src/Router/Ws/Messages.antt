-- ===== src/Router/Ws/Messages.antt =====
-- Whole messages: the fragments that a client sends come out as one message, and a control frame
-- between them comes out on its own.
use buran.Prelude.{
  ℕ, ◌≤◌, ◌<◌, ◌^◌, ◌≡◌, refl, ap, ◌∙◌, ◌⊎◌, Bool, true, false, Option, some, ◌==◌, if◌then◌else◌,
  List, [], ◌∷◌, ◌++◌, arith, Bytes, AreBytes, length,
}
use buran.Router.Ws.{
  Frame, Result, ok, err, bad_utf8, is_utf8, text, binary, Decoder, return, on_frame, stop,
  after_frame, after_parse, round, next, Message, lift, control_message,
}
use buran.Router.Ws.Frames.{client_frame, IsClientFrame, parse_frame-client_frame}
use buran.Router.Ws.Chunks.{next-stop}

-- A fragment: its masking key and its text.
pub record Fragment : Type 0 where
  pub key : Bytes
  pub payload : Bytes

abbrev pub frame_of : Bool → ℕ → Fragment → Frame
frame_of fin opcode f = record { fin = fin; opcode = opcode; payload = f.payload }

-- The bytes of a message in fragments: only the first frame has the opcode, only the last has fin.
pub message_bytes : ℕ → Fragment → List Fragment → Bytes
message_bytes opcode f [] = client_frame f.key (frame_of true opcode f)
message_bytes opcode f (g ∷ gs) =
    client_frame f.key (frame_of false opcode f) ++ message_bytes 0 g gs

unfoldable pub joined : Fragment → List Fragment → Bytes
joined f [] = f.payload
joined f (g ∷ gs) = f.payload ++ joined g gs

abbrev pub IsFragment : Fragment → Type 0
IsFragment f =
    (length f.key ≡ 4) × AreBytes f.key × AreBytes f.payload × (length f.payload < 2 ^ 64)

abbrev pub AreFragments : List Fragment → Type 0
AreFragments [] = Unit
AreFragments (f ∷ fs) = IsFragment f × AreFragments fs

after_frame-return :
    (d : Decoder) (r : Result Message) (rest : Bytes)
    → after_frame (return d r) rest ≡ stop (record { decoder = d; buf = rest; result = lift r })
unfolding after_frame
after_frame-return d r rest = refl

-- The round that takes a client frame.
round-client_frame :
    (d : Decoder) (key : Bytes) (f : Frame) (rest : Bytes)
    → IsClientFrame d.max_message key f
    → round d (client_frame key f ++ rest) ≡ after_frame (on_frame d f) rest
unfolding round
round-client_frame d key f rest c =
    rw (parse_frame-client_frame d.max_message key f c rest) (unfold after_parse in refl)

abbrev inside : ℕ → ℕ → Bytes → Decoder
inside limit opcode acc = record { max_message = limit; frag_opcode = some opcode; frag = acc }

-- What is to come out of a message of an opcode: a binary message as it is, a text message if it
-- is UTF-8, and an error if it is not.
abbrev pub delivered : ℕ → Bytes → Result (Option Message)
delivered opcode payload =
    if opcode == 2
    then ok (some (binary payload))
    else if is_utf8 payload
    then ok (some (text payload))
    else err bad_utf8

on_frame-control :
    (d : Decoder) (opcode : ℕ) (f : Fragment)
    → (opcode ≡ 8) ⊎ (opcode ≡ 9) ⊎ (opcode ≡ 10)
    → on_frame d (frame_of true opcode f) ≡ return d (ok (control_message opcode f.payload))
unfolding on_frame
on_frame-control d opcode f o = ground arith

-- A ping, a pong or a close between the fragments of a message is returned on its own, and the
-- decoder keeps the fragments.
pub next-control :
    (d : Decoder) (opcode : ℕ) (f : Fragment) (rest : Bytes)
    → (opcode ≡ 8) ⊎ (opcode ≡ 9) ⊎ (opcode ≡ 10)
    → IsFragment f
    → length f.payload ≤ 125
    → next d (client_frame f.key (frame_of true opcode f) ++ rest)
      ≡ some (record {
        decoder = d;
        buf = rest;
        result = ok (some (control_message opcode f.payload));
      })
next-control d opcode f rest o (k, kb, pb, w) h =
    next-stop d (client_frame f.key (frame_of true opcode f) ++ rest) (
      round-client_frame d f.key (frame_of true opcode f) rest (record {
        key_length = k;
        key_bytes = kb;
        payload_bytes = pb;
        opcode = ground arith;
        control = λ _. h;
        data_limit = ground arith;
        wide = w;
      })
      ∙ ap (λ t. after_frame t rest) (on_frame-control d opcode f o)
      ∙ after_frame-return _ _ rest)

-- ===== src/Router/Ws/Server.antt =====
-- The frames that the server sends, against a reader of unmasked frames written from RFC 6455.
use buran.Prelude.{
  ℕ, ◌+◌, ◌/◌, ◌%◌, ◌^◌, ◌<◌, ◌≡◌, inl, inr, Option, none, some, ◌∷◌, ◌++◌, arith, leb, ◌==◌, ◌&&◌,
  if◌then◌else◌, Bool-cases, Bytes, length, take, drop, from_be, from_be-be_bytes, length-append,
  take-append, drop-append,
}
use buran.Router.Ws.{encode_frame}

-- A frame as the client sees it: its opcode, its payload, and what follows it.
pub record Seen : Type 0 where
  pub opcode : ℕ
  pub payload : Bytes
  pub rest : Bytes

see : ℕ → ℕ → Bytes → Option Seen
see b0 n r =
    if b0 / 128 == 1 && leb n (length r)
    then some (record { opcode = b0 % 16; payload = take n r; rest = drop n r })
    else none

-- A final frame with no mask; a length that is cut short is refused.
pub read_server_frame : Bytes → Option Seen
unfolding see
read_server_frame (b0 ∷ b1 ∷ r) =
    if leb b1 125
    then see b0 b1 r
    else if b1 == 126
    then see b0 (from_be (take 2 r)) (drop 2 r)
    else if b1 == 127
    then see b0 (from_be (take 8 r)) (drop 8 r)
    else none
read_server_frame _ = none

see-append :
    (opcode : ℕ) (p rest : Bytes)
    → opcode < 16
    → see (128 + opcode % 16) (length p) (p ++ rest)
      ≡ some (record { opcode = opcode; payload = p; rest = rest })
unfolding see
see-append opcode p rest h =
    ground (arith, length-append p rest, take-append p rest, drop-append p rest)

-- A client reads back the opcode and the payload of every frame that the server sends, and finds
-- the next frame behind it.
pub read_server_frame-encode_frame :
    (opcode : ℕ) (payload rest : Bytes)
    → opcode < 16
    → length payload < 2 ^ 64
    → read_server_frame (encode_frame opcode payload ++ rest)
      ≡ some (record { opcode = opcode; payload = payload; rest = rest })
unfolding read_server_frame encode_frame
read_server_frame-encode_frame opcode p rest h w = elim (Bool-cases (leb (length p) 125)) [
  | inl small ↦ rw (small, small) (see-append opcode p rest h)
  | inr big ↦ elim (Bool-cases (leb (length p) 65535)) [
    | inl mid ↦
        rw (big, mid, from_be-be_bytes 2 (length p) (ground arith)) (see-append opcode p rest h)
    | inr wide ↦ rw (big, wide, from_be-be_bytes 8 (length p) w) (see-append opcode p rest h)
  ]
]

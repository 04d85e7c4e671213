-- ===== src/Router/Dispatch/Pump/Received.antt =====
-- crates/buran-router/src/dispatch.rs, pump_body: what a worker reads from its frames.
use buran.Prelude.{
  ℕ, zero, suc, ◌<◌, ◌%◌, ◌^◌, ◌≡◌, refl, ap, ◌∙◌, Bool, false, not, ◌&&◌, Option, none, some, List,
  [], ◌∷◌, ◌++◌, append_assoc, ◌==◌, ==_refl, if◌then◌else◌, Bytes, length, take, drop, All, arith,
  take-append, drop-append,
}
use buran.Ipc.Error
use buran.Ipc.Error.{Result}
use buran.Ipc.Frame
use buran.Ipc.Frame.{FrameHeader, frame_header_len}
use buran.Ipc.Frame.Codec.{decode-encode_header}
use buran.Router.Http.Body.Feeding.{joined}
use buran.Router.Dispatch.Pump.{frame_bytes, body_frame, terminator, pump_body}

-- The frames of a body as the protocol has them: up to one without a payload. The fuel bounds their
-- number.
abbrev pub prepend : Bytes → Option (Bytes × Bytes) → Option (Bytes × Bytes)
prepend payload none = none
prepend payload (some (body, left)) = some (payload ++ body, left)

abbrev pub is_body_of : ℕ → FrameHeader → Bool
is_body_of id h = Frame.to_u8 h.kind == Frame.to_u8 Frame.request_body && h.request_id == id

abbrev pub take_payload :
    ℕ → FrameHeader → Bytes → (Bytes → Option (Bytes × Bytes)) → Option (Bytes × Bytes)
take_payload id h rest again =
    if not (is_body_of id h)
    then none
    else if h.payload_len == 0
    then some ([], rest)
    else prepend (take h.payload_len rest) (again (drop h.payload_len rest))

abbrev pub on_header :
    ℕ → Result FrameHeader → Bytes → (Bytes → Option (Bytes × Bytes)) → Option (Bytes × Bytes)
on_header id (Error.ok h) rest again = take_payload id h rest again
on_header id _ rest again = none

unfoldable pub receive : ℕ → ℕ → Bytes → Option (Bytes × Bytes)
unfolding Frame.decode Frame.to_u8
receive id zero v = none
receive id (suc fuel) v =
    on_header id (Frame.decode (take frame_header_len v)) (drop frame_header_len v)
      (λ rest. receive id fuel rest)

receive-frame :
    (id fuel n : ℕ) (w : Bytes)
    → id < 2 ^ 32
    → n < 2 ^ 32
    → receive id (suc fuel) (Frame.encode (Frame.new Frame.request_body id n) ++ w)
      ≡ take_payload id (Frame.new Frame.request_body id n) w (λ rest. receive id fuel rest)
unfolding receive Frame.encode
receive-frame id fuel n w small fits =
    ap (λ r. on_header id r w (λ rest. receive id fuel rest))
      (decode-encode_header (Frame.new Frame.request_body id n) (omega arith) small fits
        (omega arith))

receive-terminator :
    (id fuel writes : ℕ) (rest : Bytes)
    → id < 2 ^ 32
    → 0 < writes
    → receive id (suc fuel) (terminator id writes ++ rest) ≡ some ([], rest)
unfolding frame_bytes Frame.to_u8
receive-terminator id fuel zero rest small written = elim written [ ]
receive-terminator id fuel (suc writes) rest small written =
    receive-frame id fuel 0 rest small (omega arith) ∙ rw (==_refl id) refl

receive-body_frame :
    (id fuel : ℕ) (b : ℕ) (bs rest : Bytes)
    → id < 2 ^ 32
    → length (b ∷ bs) < 2 ^ 32
    → receive id (suc fuel) (body_frame id (b ∷ bs) ++ rest)
      ≡ prepend (b ∷ bs) (receive id fuel rest)
unfolding frame_bytes receive Frame.to_u8
receive-body_frame id fuel b bs rest small fits =
    let n = length (b ∷ bs) in
    let whole : n % 2 ^ 32 ≡ n = omega (arith, fits) in
    let filled : (n == 0) ≡ false = ground arith in
    let same : body_frame id (b ∷ bs) ++ rest
        ≡ Frame.encode (Frame.new Frame.request_body id n) ++ ((b ∷ bs) ++ rest) =
      rw whole (append_assoc (Frame.encode (Frame.new Frame.request_body id n)) (b ∷ bs) rest) in
    ap (receive id (suc fuel)) same
    ∙ receive-frame id fuel n ((b ∷ bs) ++ rest) small fits
    ∙ rw (==_refl id, filled, take-append (b ∷ bs) rest, drop-append (b ∷ bs) rest) refl

-- A worker that reads the frames of a body up to the one without a payload, while it lives, has
-- the joined chunks, and what else is written to it stays.
pub receive-pump_body :
    (id fuel writes : ℕ) (chunks : List Bytes) (rest : Bytes)
    → id < 2 ^ 32
    → All (λ c. length c < 2 ^ 32) chunks
    → length chunks < writes
    → length chunks < fuel
    → receive id fuel (pump_body id writes chunks ++ rest) ≡ some (joined chunks, rest)
unfolding pump_body joined
receive-pump_body id zero writes chunks rest small fits alive enough = elim enough [ ]
receive-pump_body id (suc fuel) writes [] rest small fits alive enough =
    receive-terminator id fuel writes rest small alive
receive-pump_body id (suc fuel) writes ([] ∷ chunks) rest small (f, fits) alive enough =
    receive-pump_body id (suc fuel) writes chunks rest small fits (omega (arith, alive))
      (omega (arith, enough))
receive-pump_body id (suc fuel) zero ((b ∷ bs) ∷ chunks) rest small (f, fits) alive enough =
    elim alive [ ]
receive-pump_body id (suc fuel) (suc writes) ((b ∷ bs) ∷ chunks) rest small (f, fits) alive enough =
    ap (receive id (suc fuel))
      (append_assoc (body_frame id (b ∷ bs)) (pump_body id writes chunks) rest)
    ∙ receive-body_frame id fuel b bs (pump_body id writes chunks ++ rest) small f
    ∙ ap (prepend (b ∷ bs)) (
        receive-pump_body id fuel writes chunks rest small fits (omega (arith, alive))
          (omega (arith, enough)))

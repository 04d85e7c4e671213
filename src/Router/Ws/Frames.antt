-- ===== src/Router/Ws/Frames.antt =====
-- Single frames: what a conforming client sends is read back, what it has sent so far asks for
-- more, and what the server sends is read by a decoder of server frames.
use buran.Prelude.{
  ℕ, ◌+◌, ◌/◌, ◌%◌, ◌^◌, ◌≤◌, ◌<◌, ◌≡◌, sym, ap, ap₂, ◌∙◌, inl, inr, Bool, true, false, some, [],
  ◌∷◌, ◌++◌, append_assoc, arith, leb, ◌==◌, if◌then◌else◌, Bool-cases, Bytes, AreBytes, length,
  take, drop, be_bytes, from_be-be_bytes, length-append, take-append, drop-append, drop-drop,
}
use buran.Router.Ws.{Frame, Length, known, ok, byte, unmask, frame_length, frame_body, parse_frame}
use buran.Router.Ws.Unmask.{unmask-unmask, length-unmask}

-- Section 5.2 of RFC 6455: the length in 7 bits, or 126 and 16 bits, or 127 and 64 bits.
abbrev pub length_field : ℕ → Bytes
length_field n =
    if leb n 125 then n ∷ [] else if leb n 65535 then 126 ∷ be_bytes 2 n else 127 ∷ be_bytes 8 n

abbrev pub fin_bit : Bool → ℕ
fin_bit fin = if fin then 128 else 0

abbrev masked_length : ℕ → Bytes
masked_length n =
    if leb n 125
    then (128 + n) ∷ []
    else if leb n 65535
    then 254 ∷ be_bytes 2 n
    else 255 ∷ be_bytes 8 n

-- A frame as a client sends it: no reserved bits, the mask bit, the key and the masked payload.
pub client_frame : Bytes → Frame → Bytes
client_frame key f =
    (fin_bit f.fin + f.opcode)
    ∷ (masked_length (length f.payload) ++ (key ++ unmask key 0 f.payload))

pub record IsClientFrame (max_message : ℕ) (key : Bytes) (f : Frame) : Type 0 where
  pub key_length : length key ≡ 4
  pub key_bytes : AreBytes key
  pub payload_bytes : AreBytes f.payload
  pub opcode : f.opcode < 16
  pub control : 8 ≤ f.opcode → length f.payload ≤ 125
  pub data_limit : f.opcode < 8 → length f.payload ≤ max_message
  pub wide : length f.payload < 2 ^ 64

header_size : ℕ → ℕ
header_size n = if leb n 125 then 2 else if leb n 65535 then 4 else 10

frame_length-client :
    (b0 : ℕ) (n : ℕ) (rest : Bytes)
    → n < 2 ^ 64
    → frame_length (b0 ∷ (masked_length n ++ rest)) ≡ known (header_size n) n
unfolding frame_length header_size
frame_length-client b0 n rest h = elim (Bool-cases (leb n 125)) [
  | inl small ↦ rw small (ground arith)
  | inr big ↦ elim (Bool-cases (leb n 65535)) [
    | inl mid ↦ rw (big, mid, from_be-be_bytes 2 n (ground arith)) (ground arith)
    | inr wide ↦ rw (big, wide, from_be-be_bytes 8 n h) (ground arith)
  ]
]

drop-header :
    (b0 : ℕ) (n : ℕ) (rest : Bytes) → drop (header_size n) (b0 ∷ (masked_length n ++ rest)) ≡ rest
unfolding header_size
drop-header b0 n rest = ground arith

length-header :
    (b0 : ℕ) (n : ℕ) (rest : Bytes)
    → length (b0 ∷ (masked_length n ++ rest)) ≡ header_size n + length rest
unfolding header_size
length-header b0 n rest = ground arith

-- The limits that `parse_frame` puts on a frame.
abbrev pub FitsLimits : ℕ → ℕ → ℕ → Type 0
FitsLimits max_message opcode n = (8 ≤ opcode → n ≤ 125) × (opcode < 8 → n ≤ max_message)

frame_body-known :
    (buf : Bytes) (max_message header n : ℕ)
    → FitsLimits max_message (byte buf 0 % 16) n
    → header + 4 + n ≤ length buf
    → frame_body buf max_message (known header n)
      ≡ ok (
          some (
            record {
              fin = byte buf 0 / 128 % 2 == 1;
              opcode = byte buf 0 % 16;
              payload = unmask (take 4 (drop header buf)) 0 (take n (drop (header + 4) buf));
            },
            drop (header + 4 + n) buf,
          ))
unfolding frame_body
frame_body-known buf max_message header n (c, d) h = ground (arith, c, d)

module _ (buf key u rest : Bytes) (header : ℕ) (cut : drop header buf ≡ key ++ (u ++ rest))
    (four : length key ≡ 4) where
  drop-key : drop (header + 4) buf ≡ u ++ rest
  drop-key =
      sym (drop-drop header 4 buf)
      ∙ ap (drop 4) cut
      ∙ ap (λ k. drop k (key ++ (u ++ rest))) (sym four)
      ∙ drop-append key (u ++ rest)

  take-key : take 4 (drop header buf) ≡ key
  take-key =
      ap (take 4) cut
      ∙ ap (λ k. take k (key ++ (u ++ rest))) (sym four)
      ∙ take-append key (u ++ rest)

  take-payload : take (length u) (drop (header + 4) buf) ≡ u
  take-payload = ap (take (length u)) drop-key ∙ take-append u rest

  drop-payload : drop (header + 4 + length u) buf ≡ rest
  drop-payload =
      sym (drop-drop (header + 4) (length u) buf)
      ∙ ap (drop (length u)) drop-key
      ∙ drop-append u rest

-- The bytes of a client frame and of what follows it, bracketed to the right.
abbrev on_wire : Bytes → Frame → Bytes → Bytes
on_wire key f rest =
    (fin_bit f.fin + f.opcode)
    ∷ (masked_length (length f.payload) ++ (key ++ (unmask key 0 f.payload ++ rest)))

client_frame-append :
    (key : Bytes) (f : Frame) (rest : Bytes) → client_frame key f ++ rest ≡ on_wire key f rest
unfolding client_frame
client_frame-append key f rest = ap (◌∷◌ (fin_bit f.fin + f.opcode)) (
    append_assoc (masked_length (length f.payload)) (key ++ unmask key 0 f.payload) rest
    ∙ ap (◌++◌ (masked_length (length f.payload))) (append_assoc key (unmask key 0 f.payload) rest))

fin_bit-lem :
    (fin : Bool) (opcode : ℕ)
    → opcode < 16
    → ((fin_bit fin + opcode) % 16 ≡ opcode)
      × ((fin_bit fin + opcode) / 16 % 8 ≡ 0)
      × (((fin_bit fin + opcode) / 128 % 2 == 1) ≡ fin)
fin_bit-lem true opcode h = ground arith
fin_bit-lem false opcode h = ground arith

masked_bit :
    (b0 n : ℕ) (rest : Bytes) → (byte (b0 ∷ (masked_length n ++ rest)) 1 / 128 % 2 == 0) ≡ false
masked_bit b0 n rest = ground arith

header_size-ge : (n : ℕ) → 2 ≤ header_size n
unfolding header_size
header_size-ge n = ground arith

parse_frame-body :
    (buf : Bytes) (max_message : ℕ) {l : Length}
    → 2 ≤ length buf
    → byte buf 0 / 16 % 8 ≡ 0
    → (byte buf 1 / 128 % 2 == 0) ≡ false
    → frame_length buf ≡ l
    → parse_frame buf max_message ≡ frame_body buf max_message l
unfolding parse_frame
parse_frame-body buf max_message h r m e = ground arith

module _ (max_message : ℕ) (key : Bytes) (f : Frame) (c : IsClientFrame max_message key f)
    (rest : Bytes) where
  frame_body-client :
      frame_body
        (on_wire key f rest)
        max_message
        (known (header_size (length f.payload)) (length f.payload))
      ≡ ok (some (f, rest))
  frame_body-client =
      let n = length f.payload in
      let u = unmask key 0 f.payload in
      let same = length-unmask key 0 f.payload in
      let (op, _, fin) = fin_bit-lem f.fin f.opcode c.opcode in
      let buf = on_wire key f rest in
      let cut = drop-header (fin_bit f.fin + f.opcode) n (key ++ (u ++ rest)) in
      frame_body-known buf max_message (header_size n) n
        ((λ h. c.control (omega (arith, op))), (λ h. c.data_limit (omega (arith, op))))
        (omega (
          arith,
          length-header (fin_bit f.fin + f.opcode) n (key ++ (u ++ rest)),
          length-append key (u ++ rest),
          length-append u rest,
          same,
          c.key_length,
        ))
      ∙ (λ j. ok (
          some (
            record {
              fin = fin j;
              opcode = op j;
              payload =
                  (ap₂ (λ k p. unmask k 0 p)
                        (take-key buf key u rest (header_size n) cut c.key_length)
                        (ap (λ k. take k (drop (header_size n + 4) buf)) (sym same)
                          ∙ take-payload buf key u rest (header_size n) cut c.key_length)
                      ∙ unmask-unmask key 0 f.payload c.key_bytes c.payload_bytes)
                    j;
            },
            (ap (λ k. drop (header_size n + 4 + k) buf) (sym same)
                  ∙ drop-payload buf key u rest (header_size n) cut c.key_length)
                j,
          )))

  -- A frame that a conforming client sends within the limits is read back, with its payload
  -- unmasked, and what follows it stays in the buffer.
  pub parse_frame-client_frame :
      parse_frame (client_frame key f ++ rest) max_message ≡ ok (some (f, rest))
  parse_frame-client_frame = rw client_frame-append (
      parse_frame-body (on_wire key f rest) max_message
        (omega (arith, length-header b0 n tail, header_size-ge n))
        (fin_bit-lem f.fin f.opcode c.opcode).1 (masked_bit b0 n tail)
        (frame_length-client b0 n tail c.wide)
      ∙ frame_body-client)
    where
      n : ℕ
      n = length f.payload

      b0 : ℕ
      b0 = fin_bit f.fin + f.opcode

      tail : Bytes
      tail = key ++ (unmask key 0 f.payload ++ rest)

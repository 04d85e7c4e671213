-- ===== src/Router/Ws.antt =====
-- crates/buran-router/src/ws.rs: the server side of RFC 6455. A function that changes its buffer
-- returns the new one. Sums of lengths are exact: `max_message` is far below 2 ^ 64.
pub mod Utf8
pub mod Unmask
pub mod Frames
pub mod Messages
pub mod Parsing
pub mod Chunks
pub mod Server
pub mod Bounds
pub mod Consuming
use buran.Prelude.{
  ℕ, zero, suc, ◌+◌, ◌*◌, ◌/◌, ◌%◌, ◌^◌, Bool, true, false, not, ◌&&◌, ◌||◌, Option, none, some,
  List, [], ◌∷◌, ◌++◌, ltb, leb, ◌==◌, if◌then◌else◌, Bytes, length, take, drop, be_bytes, from_be,
  bit_xor, codes,
}
use buran.Router.Ws.Utf8.{is_utf8}

-- What the code uses of the crates sha1 and base64.
pub record Digests : Type 0 where
  pub sha1 : Bytes → Bytes
  pub base64 : Bytes → Bytes

abbrev pub guid : Bytes
guid = codes "258EAFA5-E914-47DA-95CA-C5AB0DC85B11"

-- `Sec-WebSocket-Accept` for the key of a handshake.
abbrev pub accept_key : Digests → Bytes → Bytes
accept_key digests key = digests.base64 (digests.sha1 (key ++ guid))

abbrev pub close_protocol_error : ℕ
close_protocol_error = 1002

abbrev pub close_bad_data : ℕ
close_bad_data = 1007

abbrev pub close_too_big : ℕ
close_too_big = 1009

abbrev pub op_continuation : ℕ
op_continuation = 0

abbrev pub op_text : ℕ
op_text = 1

abbrev pub op_binary : ℕ
op_binary = 2

abbrev pub op_close : ℕ
op_close = 8

abbrev pub op_ping : ℕ
op_ping = 9

abbrev pub op_pong : ℕ
op_pong = 10

pub data Message : Type 0 where
  text binary close ping pong : Bytes → Message

-- The texts that a protocol error carries.
pub data Fault : Type 0 where
  fragmented_control nested_message stray_continuation reserved_opcode : Fault
  rsv_bits unmasked_frame long_control : Fault

pub data DecodeError : Type 0 where
  protocol : Fault → DecodeError
  too_big : DecodeError
  bad_utf8 : DecodeError

unfoldable pub close_code : DecodeError → ℕ
close_code (protocol _) = close_protocol_error
close_code too_big = close_too_big
close_code bad_utf8 = close_bad_data

pub data Result (T : Type 0) : Type 0 where
  err : DecodeError → Result T
  ok : T → Result T

pub record Frame : Type 0 where
  pub fin : Bool
  pub opcode : ℕ
  pub payload : Bytes

-- A byte of a list whose length has been tested.
abbrev pub byte : Bytes → ℕ → ℕ
byte [] i = 0
byte (b ∷ bs) zero = b
byte (b ∷ bs) (suc i) = byte bs i

-- `payload[i] ^= mask[i % 4]`, from index `i` on.
unfoldable pub unmask : Bytes → ℕ → Bytes → Bytes
unmask mask i [] = []
unmask mask i (b ∷ bs) = bit_xor b (byte mask (i % 4)) ∷ unmask mask (suc i) bs

-- The length field: the size of the header that it ends, and the payload's length.
pub data Length : Type 0 where
  short_buffer : Length
  known : ℕ → ℕ → Length

unfoldable pub frame_length : Bytes → Length
frame_length buf =
    let n = byte buf 1 % 128 in
    if n == 126
    then (if ltb (length buf) 4 then short_buffer else known 4 (from_be (take 2 (drop 2 buf))))
    else if n == 127
    then (if ltb (length buf) 10 then short_buffer else known 10 (from_be (take 8 (drop 2 buf))))
    else known 2 n

-- From the length on: the limits, then the mask and the payload.
unfoldable pub frame_body : Bytes → ℕ → Length → Result (Option (Frame × Bytes))
frame_body buf max_message short_buffer = ok none
frame_body buf max_message (known header len) =
    let opcode = byte buf 0 % 16 in
    let is_control = leb 8 opcode in
    if is_control && ltb 125 len
    then err (protocol long_control)
    else if not is_control && ltb max_message len
    then err too_big
    else if ltb (length buf) (header + 4 + len)
    then ok none
    else ok (
        some (
          record {
            fin = byte buf 0 / 128 % 2 == 1;
            opcode = opcode;
            payload = unmask (take 4 (drop header buf)) 0 (take len (drop (header + 4) buf));
          },
          drop (header + 4 + len) buf,
        ))

-- `none` asks for more bytes; a frame comes with what is left of the buffer.
unfoldable pub parse_frame : Bytes → ℕ → Result (Option (Frame × Bytes))
parse_frame buf max_message =
    if ltb (length buf) 2
    then ok none
    else if not (byte buf 0 / 16 % 8 == 0)
    then err (protocol rsv_bits)
    else if byte buf 1 / 128 % 2 == 0
    then err (protocol unmasked_frame)
    else frame_body buf max_message (frame_length buf)

pub record Decoder : Type 0 where
  pub max_message : ℕ
  pub frag_opcode : Option ℕ
  pub frag : Bytes

abbrev pub new : ℕ → Decoder
new max_message = record { max_message = max_message; frag_opcode = none; frag = [] }

unfoldable pub finish_message : ℕ → Bytes → Result Message
finish_message opcode payload =
    if opcode == op_text
    then (if is_utf8 payload then ok (text payload) else err bad_utf8)
    else ok (binary payload)

-- What the loop does with one frame: it goes round again, or returns.
pub data Step : Type 0 where
  again : Decoder → Step
  return : Decoder → Result Message → Step

abbrev pub control_message : ℕ → Bytes → Message
control_message opcode payload =
    if opcode == op_close
    then close payload
    else if opcode == op_ping
    then ping payload
    else pong payload

on_data : Option ℕ → Decoder → Frame → Step
unfolding finish_message
on_data (some _) d f = return d (err (protocol nested_message))
on_data none d f =
    if f.fin
    then return d (finish_message f.opcode f.payload)
    else again (record d { frag_opcode = some f.opcode; frag = f.payload })

on_continuation : Option ℕ → Decoder → Frame → Step
unfolding finish_message
on_continuation none d f = return d (err (protocol stray_continuation))
on_continuation (some opcode) d f =
    if ltb d.max_message (length d.frag + length f.payload)
    then return d (err too_big)
    else let whole = d.frag ++ f.payload in
      if f.fin
      then return (record d { frag_opcode = none; frag = [] }) (finish_message opcode whole)
      else again (record d { frag = whole })

unfoldable pub on_frame : Decoder → Frame → Step
unfolding on_data on_continuation
on_frame d f =
    if f.opcode == op_close || (f.opcode == op_ping || f.opcode == op_pong)
    then (if not f.fin
        then return d (err (protocol fragmented_control))
        else return d (ok (control_message f.opcode f.payload)))
    else if f.opcode == op_text || f.opcode == op_binary
    then on_data d.frag_opcode d f
    else if f.opcode == op_continuation
    then on_continuation d.frag_opcode d f
    else return d (err (protocol reserved_opcode))

-- The decoder, the buffer and the result that `next` leaves.
pub record Next : Type 0 where
  pub decoder : Decoder
  pub buf : Bytes
  pub result : Result (Option Message)

abbrev pub lift : Result Message → Result (Option Message)
lift (ok m) = ok (some m)
lift (err e) = err e

-- One round of the loop.
pub data Round : Type 0 where
  go_on : Decoder → Bytes → Round
  stop : Next → Round

unfoldable pub after_frame : Step → Bytes → Round
after_frame (again d) rest = go_on d rest
after_frame (return d r) rest = stop (record { decoder = d; buf = rest; result = lift r })

unfoldable pub after_parse : Decoder → Bytes → Result (Option (Frame × Bytes)) → Round
after_parse d buf (err e) = stop (record { decoder = d; buf = buf; result = err e })
after_parse d buf (ok none) = stop (record { decoder = d; buf = buf; result = ok none })
after_parse d buf (ok (some (f, rest))) = after_frame (on_frame d f) rest

unfoldable pub round : Decoder → Bytes → Round
round d buf = after_parse d buf (parse_frame buf d.max_message)

-- The loop, on fuel; `none` means that the fuel ran out.
unfoldable pub next_loop : ℕ → Decoder → Bytes → Option Next
next_loop zero d buf = none
next_loop (suc fuel) d buf = elim (round d buf) [
  | go_on d' rest ↦ next_loop fuel d' rest
  | stop n ↦ some n
]

-- Each round takes a frame off the buffer, so its length is fuel enough.
unfoldable pub next : Decoder → Bytes → Option Next
next d buf = next_loop (suc (length buf)) d buf

unfoldable pub encode_frame : ℕ → Bytes → Bytes
encode_frame opcode payload =
    (128 + opcode % 16)
    ∷ (if leb (length payload) 125
        then length payload ∷ payload
        else if leb (length payload) 65535
        then 126 ∷ (be_bytes 2 (length payload) ++ payload)
        else 127 ∷ (be_bytes 8 (length payload) ++ payload))

unfoldable pub encode_close : ℕ → Bytes → Bytes
encode_close code reason = encode_frame op_close (be_bytes 2 code ++ reason)

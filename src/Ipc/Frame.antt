-- ===== src/Ipc/Frame.antt =====
-- crates/buran-ipc/src/frame.rs: the kinds of frame and the fixed 16-byte header.
pub mod Codec
use buran.Prelude.{
  ℕ, ◌+◌, ◌≡◌, Bool, true, false, List, [], ◌∷◌, ◌++◌, ◌==◌, if◌then◌else◌, Bytes, le_bytes,
}
use buran.Ipc.Error.{Result, ok, err, panic, unknown_kind, ◌>>=◌, byte_at, uint_at}

abbrev pub frame_header_len : ℕ
frame_header_len = 16

pub data FrameKind : Type 0 where
  hello hello_ack request request_body retire claim response_headers response_body : FrameKind
  flush «end» done error ping pong abort log ws_message : FrameKind

-- `kind as u8`.
unfoldable pub to_u8 : FrameKind → ℕ
to_u8 hello = 1
to_u8 hello_ack = 2
to_u8 request = 3
to_u8 request_body = 4
to_u8 retire = 5
to_u8 claim = 6
to_u8 response_headers = 7
to_u8 response_body = 8
to_u8 flush = 9
to_u8 «end» = 10
to_u8 done = 11
to_u8 error = 12
to_u8 ping = 13
to_u8 pong = 14
to_u8 abort = 15
to_u8 log = 16
to_u8 ws_message = 17

unfoldable pub try_from : ℕ → Result FrameKind
try_from v =
    if v == 1
    then ok hello
    else if v == 2
    then ok hello_ack
    else if v == 3
    then ok request
    else if v == 4
    then ok request_body
    else if v == 5
    then ok retire
    else if v == 6
    then ok claim
    else if v == 7
    then ok response_headers
    else if v == 8
    then ok response_body
    else if v == 9
    then ok flush
    else if v == 10
    then ok «end»
    else if v == 11
    then ok done
    else if v == 12
    then ok error
    else if v == 13
    then ok ping
    else if v == 14
    then ok pong
    else if v == 15
    then ok abort
    else if v == 16
    then ok log
    else if v == 17
    then ok ws_message
    else err (unknown_kind v)

pub record FrameHeader : Type 0 where
  pub kind : FrameKind
  pub flags : ℕ
  pub request_id : ℕ
  pub payload_len : ℕ
  pub aux : ℕ

abbrev pub new : FrameKind → ℕ → ℕ → FrameHeader
new kind request_id payload_len = record {
  kind = kind;
  flags = 0;
  request_id = request_id;
  payload_len = payload_len;
  aux = 0;
}

-- The two bytes of the reserved field stay zero.
unfoldable pub encode : FrameHeader → Bytes
encode h =
    to_u8 h.kind
    ∷ h.flags
    ∷ 0
    ∷ 0
    ∷ (le_bytes 4 h.request_id ++ (le_bytes 4 h.payload_len ++ le_bytes 4 h.aux))

unfoldable pub decode : Bytes → Result FrameHeader
decode buf = do
  first ← byte_at buf 0
  kind ← try_from first
  flags ← byte_at buf 1
  request_id ← uint_at 4 buf 4
  payload_len ← uint_at 4 buf 8
  aux ← uint_at 4 buf 12
  ok (record {
    kind = kind;
    flags = flags;
    request_id = request_id;
    payload_len = payload_len;
    aux = aux;
  })

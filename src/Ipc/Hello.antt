-- ===== src/Ipc/Hello.antt =====
-- crates/buran-ipc/src/hello.rs: the payloads of the Hello and HelloAck frames.
pub mod Codec
use buran.Prelude.{
  ℕ, ◌+◌, ◌*◌, ◌≡◌, Bool, true, false, ◌&&◌, List, [], ◌∷◌, ◌++◌, ltb, ◌==◌, if◌then◌else◌, Bytes,
  length, take, le_bytes, bytes_eq,
}
use buran.Ipc.Error.{Result, ok, err, truncated, bad_magic, bwp_magic, ◌>>=◌, uint_at}

-- Declared in Hello for "no fixed limit".
abbrev pub concurrency_unbounded : ℕ
concurrency_unbounded = 0

pub record Hello : Type 0 where
  pub version : ℕ
  pub pid : ℕ
  pub concurrency : ℕ
  pub capabilities : ℕ

abbrev pub hello_payload_len : ℕ
hello_payload_len = 4 + 4 * 4

pub record HelloAck : Type 0 where
  pub version : ℕ
  pub concurrency : ℕ

abbrev pub hello_ack_payload_len : ℕ
hello_ack_payload_len = 4 * 2

unfoldable pub encode : Hello → Bytes
encode h =
    bwp_magic
    ++ (le_bytes 4 h.version
        ++ (le_bytes 4 h.pid ++ (le_bytes 4 h.concurrency ++ le_bytes 4 h.capabilities)))

unfoldable pub decode : Bytes → Result Hello
unfolding bytes_eq
decode payload =
    if ltb (length payload) hello_payload_len
    then err (truncated hello_payload_len (length payload))
    else if bytes_eq (take 4 payload) bwp_magic
    then (do
      version ← uint_at 4 payload 4
      pid ← uint_at 4 payload 8
      concurrency ← uint_at 4 payload 12
      capabilities ← uint_at 4 payload 16
      ok (record {
        version = version;
        pid = pid;
        concurrency = concurrency;
        capabilities = capabilities;
      }))
    else err bad_magic

unfoldable pub encode_ack : HelloAck → Bytes
encode_ack a = le_bytes 4 a.version ++ le_bytes 4 a.concurrency

unfoldable pub decode_ack : Bytes → Result HelloAck
decode_ack payload =
    if ltb (length payload) hello_ack_payload_len
    then err (truncated hello_ack_payload_len (length payload))
    else do
      version ← uint_at 4 payload 0
      concurrency ← uint_at 4 payload 4
      ok (record { version = version; concurrency = concurrency })

-- ===== src/Ipc/Hello/Codec.antt =====
-- The handshake payloads are read back, trailing bytes are ignored, and the errors are exact.
use buran.Prelude.{
  bytes_eq, bytes_eq_iff, ℕ, ◌^◌, ◌≤◌, ◌<◌, ◌≡◌, ◌≢◌, ◌∙◌, refl, false, ◌⊎◌, inl, inr, ◌++◌, arith,
  ltb, length, take, Bytes, from_le-le_bytes, Bool-cases, ltb→lt, drop, from_le,
}
use buran.Ipc.Error.{ok, err, truncated, bad_magic, bwp_magic, uint_at-ok}
use buran.Ipc.Hello.{Hello, HelloAck, hello_payload_len, encode, decode, encode_ack, decode_ack}

abbrev pub IsU32 : ℕ → Type 0
IsU32 n = n < 2 ^ 32

pub record Fits (h : Hello) : Type 0 where
  pub version : IsU32 h.version
  pub pid : IsU32 h.pid
  pub concurrency : IsU32 h.concurrency
  pub capabilities : IsU32 h.capabilities

-- What a long enough payload with the right magic is read as.
pub read_hello : Bytes → Hello
read_hello p = record {
  version = from_le (take 4 (drop 4 p));
  pid = from_le (take 4 (drop 8 p));
  concurrency = from_le (take 4 (drop 12 p));
  capabilities = from_le (take 4 (drop 16 p));
}

decode-read_hello :
    (p : Bytes) → hello_payload_len ≤ length p → take 4 p ≡ bwp_magic → decode p ≡ ok (read_hello p)
unfolding decode read_hello
decode-read_hello p h m = ground (
  arith,
  (bytes_eq_iff (take 4 p) bwp_magic).1 m,
  uint_at-ok 4 p 4,
  uint_at-ok 4 p 8,
  uint_at-ok 4 p 12,
  uint_at-ok 4 p 16,
)

-- A Hello with fields of 32 bits is read back, whatever bytes follow it.
pub decode-encode_hello : (h : Hello) (rest : Bytes) → Fits h → decode (encode h ++ rest) ≡ ok h
unfolding encode
decode-encode_hello h rest f =
    decode-read_hello (encode h ++ rest) (omega arith) refl
    ∙ unfold read_hello in
      rw (
        from_le-le_bytes 4 h.version f.version,
        from_le-le_bytes 4 h.pid f.pid,
        from_le-le_bytes 4 h.concurrency f.concurrency,
        from_le-le_bytes 4 h.capabilities f.capabilities,
      )

-- Decoding never panics: it fails exactly on a short payload, then on a wrong magic.
pub decode_hello_outcomes :
    (p : Bytes)
    → ((length p < hello_payload_len) × (decode p ≡ err (truncated hello_payload_len (length p))))
      ⊎ ((hello_payload_len ≤ length p) × (take 4 p ≢ bwp_magic) × (decode p ≡ err bad_magic))
      ⊎ ((hello_payload_len ≤ length p) × (take 4 p ≡ bwp_magic) × (decode p ≡ ok (read_hello p)))
decode_hello_outcomes p = elim (Bool-cases (ltb (length p) hello_payload_len)) [
  | inl short ↦ inl (ltb→lt _ _ short, unfold decode in ground arith)
  | inr long ↦ elim (Bool-cases (bytes_eq (take 4 p) bwp_magic)) [
    | inl good ↦
        let m : take 4 p ≡ bwp_magic = (bytes_eq_iff (take 4 p) bwp_magic).0 good in
        inr (inr (ground arith, m, decode-read_hello p (ground arith) m))
    | inr bad ↦ inr (
        inl (
          ground arith,
          λ m. cc ((bytes_eq_iff (take 4 p) bwp_magic).1 m),
          unfold decode in ground arith,
        ))
  ]
]

-- HelloAck likewise.
pub decode_ack-encode_ack :
    (a : HelloAck) (rest : Bytes)
    → IsU32 a.version
    → IsU32 a.concurrency
    → decode_ack (encode_ack a ++ rest) ≡ ok a
unfolding encode_ack decode_ack
decode_ack-encode_ack a rest hv hc =
    let long : ltb (length (encode_ack a ++ rest)) 8 ≡ false = ground arith in
    rw (
      long,
      uint_at-ok 4 (encode_ack a ++ rest) 0 (omega arith),
      uint_at-ok 4 (encode_ack a ++ rest) 4 (omega arith),
      from_le-le_bytes 4 a.version hv,
      from_le-le_bytes 4 a.concurrency hc,
    )

-- ===== src/Ipc/Frame/Codec.antt =====
-- The header codec is a round trip both ways, and decoding fails on an unknown kind only.
use buran.Prelude.{
  ℕ, ◌^◌, ◌<◌, ◌≡◌, refl, sym, ap, ◌∙◌, [], ◌∷◌, ◌++◌, arith, length, Bytes, AreBytes, le_bytes,
  from_le, from_le-le_bytes, le_bytes-from_le, ◌⊎◌, inl, inr, some, get_elem?,
}
use buran.Ipc.Error.{Result, ok, err, panic, unknown_kind, inner_value, byte_at, uint_at}
use buran.Ipc.Frame.{
  FrameKind, hello, to_u8, try_from, FrameHeader, encode, decode, frame_header_len,
}

pub try_from-to_u8 : (k : FrameKind) → try_from (to_u8 k) ≡ ok k
unfolding try_from to_u8
try_from-to_u8 hello = refl
try_from-to_u8 _ = refl

pub to_u8-try_from : (v : ℕ) {k : FrameKind} → try_from v ≡ ok k → to_u8 k ≡ v
unfolding try_from to_u8
to_u8-try_from v {k} h = ground arith

try_from_outcomes :
    (v : ℕ)
    → ((k : FrameKind) × (try_from v ≡ ok k))
      ⊎ (((v ≡ 0) ⊎ (17 < v)) × (try_from v ≡ err (unknown_kind v)))
unfolding try_from
try_from_outcomes v = go (try_from v) refl
  where
    go :
        (r : Result FrameKind)
        → try_from v ≡ r
        → ((k : FrameKind) × (try_from v ≡ ok k))
          ⊎ (((v ≡ 0) ⊎ (17 < v)) × (try_from v ≡ err (unknown_kind v)))
    go (ok k) e = inl (k, e)
    go (err x) e = inr (ground arith, ground arith)
    go panic e = absurd (ground arith)

-- Every header with fields of the declared widths is read back from its encoding.
pub decode-encode_header :
    (h : FrameHeader)
    → h.flags < 256
    → h.request_id < 2 ^ 32
    → h.payload_len < 2 ^ 32
    → h.aux < 2 ^ 32
    → decode (encode h) ≡ ok h
unfolding decode encode byte_at uint_at
decode-encode_header h hf hi hp ha = rw (
  try_from-to_u8,
  from_le-le_bytes 4 h.request_id hi,
  from_le-le_bytes 4 h.payload_len hp,
  from_le-le_bytes 4 h.aux ha,
)

-- The other way, for any 16 bytes.
abbrev clear_reserved : Bytes → Bytes
clear_reserved (k ∷ f ∷ r ∷ s ∷ rest) = k ∷ f ∷ 0 ∷ 0 ∷ rest
clear_reserved buf = buf

le_bytes-from_le_four : (i : Bytes) → AreBytes i → length i ≡ 4 → le_bytes 4 (from_le i) ≡ i
le_bytes-from_le_four i h l = ap (λ n. le_bytes n (from_le i)) (sym l) ∙ le_bytes-from_le i h

encode-fields :
    (k : FrameKind) (b f : ℕ) (i p a : Bytes)
    → to_u8 k ≡ b
    → AreBytes i × AreBytes p × AreBytes a
    → (length i ≡ 4) × (length p ≡ 4) × (length a ≡ 4)
    → encode (record {
      kind = k;
      flags = f;
      request_id = from_le i;
      payload_len = from_le p;
      aux = from_le a;
    })
      ≡ b ∷ f ∷ 0 ∷ 0 ∷ (i ++ (p ++ a))
unfolding encode
encode-fields k b f i p a e (hi, hp, ha) (li, lp, la) = λ j.
    e j
    ∷ f
    ∷ 0
    ∷ 0
    ∷ (le_bytes-from_le_four i hi li j
        ++ (le_bytes-from_le_four p hp lp j ++ le_bytes-from_le_four a ha la j))

-- Whatever 16 bytes decode to, encoding it gives the same bytes with the reserved field cleared.
pub encode-decode_header :
    (buf : Bytes) {h : FrameHeader}
    → length buf ≡ frame_header_len
    → AreBytes buf
    → decode buf ≡ ok h
    → encode h ≡ clear_reserved buf
unfolding decode byte_at uint_at
encode-decode_header
      (b0 ∷ b1 ∷ b2 ∷ b3 ∷ b4 ∷ b5 ∷ b6 ∷ b7 ∷ b8 ∷ b9 ∷ b10 ∷ b11 ∷ b12 ∷ b13 ∷ b14 ∷ b15 ∷ []) l r
      e =
    let (k, known, rest) = inner_value (try_from b0) _ e in
    let i : Bytes = b4 ∷ b5 ∷ b6 ∷ b7 ∷ [] in
    let p : Bytes = b8 ∷ b9 ∷ b10 ∷ b11 ∷ [] in
    let a : Bytes = b12 ∷ b13 ∷ b14 ∷ b15 ∷ [] in
    cc
      (rest, encode-fields k b0 b1 i p a (to_u8-try_from b0 known) (omega arith) (refl, refl, refl))
encode-decode_header _ l r e = absurd (omega arith)

-- Sixteen bytes decode to a header, or fail on a kind outside 1..=17 that the error carries.
pub decode_header_outcomes :
    (buf : Bytes)
    → length buf ≡ frame_header_len
    → ((h : FrameHeader) × (decode buf ≡ ok h))
      ⊎ ((kind : ℕ) × (get_elem? buf 0 ≡ some kind)
          × ((kind ≡ 0) ⊎ (17 < kind))
          × (decode buf ≡ err (unknown_kind kind)))
unfolding decode byte_at uint_at
decode_header_outcomes
      (b0 ∷ b1 ∷ b2 ∷ b3 ∷ b4 ∷ b5 ∷ b6 ∷ b7 ∷ b8 ∷ b9 ∷ b10 ∷ b11 ∷ b12 ∷ b13 ∷ b14 ∷ b15 ∷ []) l =
    elim (try_from_outcomes b0) [
      | inl (k, known) ↦ inl (
        record {
          kind = k;
          flags = b1;
          request_id = from_le (b4 ∷ b5 ∷ b6 ∷ b7 ∷ []);
          payload_len = from_le (b8 ∷ b9 ∷ b10 ∷ b11 ∷ []);
          aux = from_le (b12 ∷ b13 ∷ b14 ∷ b15 ∷ []);
        },
        rw known,
      )
      | inr (out, unknown) ↦ inr (b0, refl, out, rw unknown)
    ]
decode_header_outcomes _ l = absurd (omega arith)

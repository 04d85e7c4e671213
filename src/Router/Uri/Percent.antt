-- ===== src/Router/Uri/Percent.antt =====
-- Percent-decoding: it undoes encoding, never grows, and makes bytes of bytes.
use buran.Prelude.{
  ℕ, ◌+◌, ◌-◌, ◌/◌, ◌%◌, ◌≤◌, ◌<◌, ◌≡◌, ◌≢◌, refl, ap, ◌∙◌, Bool, ◌&&◌, ◌||◌, none, some, [], ◌∷◌,
  arith, ltb, leb, ◌==◌, if◌then◌else◌, Bytes, AreBytes, All, length, Bool-cases, inl, inr,
  Option-cases,
}
use buran.Router.Uri.{hex, escape, percent_decode}

-- RFC 3986, section 2.3.
abbrev pub unreserved : ℕ → Bool
unreserved b =
    (leb b'a' b && leb b b'z')
    || ((leb b'A' b && leb b b'Z')
        || ((leb b'0' b && leb b b'9') || (b == b'-' || (b == b'.' || (b == b'_' || b == b'~')))))

abbrev pub hex_digit : ℕ → ℕ
hex_digit n = if ltb n 10 then b'0' + n else b'A' + n - 10

unfoldable pub percent_encode : Bytes → Bytes
percent_encode [] = []
percent_encode (b ∷ bs) =
    let rest = percent_encode bs in
    if unreserved b then b ∷ rest else b'%' ∷ hex_digit (b / 16) ∷ hex_digit (b % 16) ∷ rest

percent_decode-cons : (a : ℕ) (r : Bytes) → a ≢ b'%' → percent_decode (a ∷ r) ≡ a ∷ percent_decode r
unfolding percent_decode
percent_decode-cons a [] h = refl
percent_decode-cons a (b ∷ []) h = refl
percent_decode-cons a (b ∷ (c ∷ r)) h = ground arith

hex-hex_digit : (n : ℕ) → n < 16 → hex (hex_digit n) ≡ some n
unfolding hex
hex-hex_digit n h = ground arith

escape-hex_digit :
    (b : ℕ) → b < 256 → escape b'%' (hex_digit (b / 16)) (hex_digit (b % 16)) ≡ some b
unfolding escape
escape-hex_digit b h =
    rw (hex-hex_digit (b / 16) (omega arith), hex-hex_digit (b % 16) (omega arith))
      (ap some (omega arith))

percent_decode-escape :
    (a b c v : ℕ) (r : Bytes)
    → escape a b c ≡ some v
    → percent_decode (a ∷ b ∷ c ∷ r) ≡ v ∷ percent_decode r
unfolding percent_decode
percent_decode-escape a b c v r e = rw (e, percent_decode)

-- Decoding gives back every byte string that was encoded.
pub percent_decode-percent_encode : (p : Bytes) → AreBytes p → percent_decode (percent_encode p) ≡ p
unfolding percent_encode
percent_decode-percent_encode [] h = unfold percent_decode in refl
percent_decode-percent_encode (b ∷ bs) (h, t) = elim (Bool-cases (unreserved b)) [
  | inl plain ↦ rw plain (
      percent_decode-cons b (percent_encode bs) (λ e. ground arith)
      ∙ ap (◌∷◌ b) (percent_decode-percent_encode bs t))
  | inr coded ↦ rw coded (
      percent_decode-escape b'%' (hex_digit (b / 16)) (hex_digit (b % 16)) b (percent_encode bs)
        (escape-hex_digit b h)
      ∙ ap (◌∷◌ b) (percent_decode-percent_encode bs t))
]

-- With no percent sign there is nothing to decode.
pub percent_decode_plain : (p : Bytes) → All (λ b. b ≢ b'%') p → percent_decode p ≡ p
percent_decode_plain [] h = unfold percent_decode in refl
percent_decode_plain (b ∷ bs) (h, t) =
    percent_decode-cons b bs h ∙ ap (◌∷◌ b) (percent_decode_plain bs t)

escape-lt : (a b c v : ℕ) → escape a b c ≡ some v → v < 256
unfolding escape
escape-lt a b c v e = ground arith

percent_decode-literal :
    (a b c : ℕ) (r : Bytes)
    → escape a b c ≡ none
    → percent_decode (a ∷ b ∷ c ∷ r) ≡ a ∷ percent_decode (b ∷ c ∷ r)
unfolding percent_decode
percent_decode-literal a b c r e = rw (e, percent_decode)

-- Decoding never grows, and makes bytes of bytes.
pub percent_decode_bounds :
    (p : Bytes) → AreBytes p → (length (percent_decode p) ≤ length p) × AreBytes (percent_decode p)
percent_decode_bounds (a ∷ b ∷ c ∷ r) (ha, h) = elim (Option-cases (escape a b c)) [
  | inl literal ↦
      let (l, t) = percent_decode_bounds (b ∷ c ∷ r) h in
      rw (percent_decode-literal a b c r literal) (omega arith, (ha, t))
  | inr (v, coded) ↦
      let (l, t) = percent_decode_bounds r h.1.1 in
      rw (percent_decode-escape a b c v r coded) (omega arith, (escape-lt a b c v coded, t))
]
percent_decode_bounds (a ∷ b ∷ []) h = unfold percent_decode in (omega arith, h)
percent_decode_bounds (a ∷ []) h = unfold percent_decode in (omega arith, h)
percent_decode_bounds [] h = unfold percent_decode in (omega arith, h)

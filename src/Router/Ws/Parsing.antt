-- ===== src/Router/Ws/Parsing.antt =====
-- How `parse_frame` reads a buffer to which more bytes come.
use buran.Prelude.{
  ℕ, zero, suc, ◌+◌, ◌≤◌, ◌<◌, ◌≡◌, refl, ap, ◌∙◌, ◌⊎◌, inl, inr, none, some, [], ◌∷◌, ◌++◌, arith,
  Bytes, length, take, drop, length-append, drop-append_le, take-append_le, length-drop,
}
use buran.Router.Ws.{
  Frame, Length, short_buffer, known, ok, err, DecodeError, byte, frame_length, frame_body,
  parse_frame,
}

pub byte-append : (p q : Bytes) (i : ℕ) → i < length p → byte (p ++ q) i ≡ byte p i
byte-append [] q i h = elim h [ ]
byte-append (b ∷ p) q zero h = refl
byte-append (b ∷ p) q (suc i) h = byte-append p q i (omega arith)

-- A window that lies in the first part.
window-append :
    (p q : Bytes) (from n : ℕ)
    → from + n ≤ length p
    → take n (drop from (p ++ q)) ≡ take n (drop from p)
window-append p q from n h =
    ap (take n) (drop-append_le from p q (omega arith))
    ∙ take-append_le n (drop from p) q (omega (arith, length-drop from p))

frame_length-append :
    (p q : Bytes) {header n : ℕ}
    → 2 ≤ length p
    → frame_length p ≡ known header n
    → frame_length (p ++ q) ≡ known header n
unfolding frame_length
frame_length-append p q h e =
    ground
      (arith, byte-append p q 1, length-append p q, window-append p q 2 2, window-append p q 2 8)

frame_body-append_err :
    (p q : Bytes) (max_message header n : ℕ) {e : DecodeError}
    → 2 ≤ length p
    → frame_body p max_message (known header n) ≡ err e
    → frame_body (p ++ q) max_message (known header n) ≡ err e
unfolding frame_body
frame_body-append_err p q max_message header n h e = ground (arith, byte-append p q 0)

frame_body-append :
    (p q : Bytes) (max_message header n : ℕ) {f : Frame} {rest : Bytes}
    → 2 ≤ length p
    → frame_body p max_message (known header n) ≡ ok (some (f, rest))
    → frame_body (p ++ q) max_message (known header n) ≡ ok (some (f, rest ++ q))
unfolding frame_body
frame_body-append p q max_message header n h e = ground (
  arith,
  byte-append p q 0,
  length-append p q,
  window-append p q header 4,
  window-append p q (header + 4) n,
  drop-append_le (header + 4 + n) p q,
)

Length-cases : (l : Length) → (l ≡ short_buffer) ⊎ ((header : ℕ) × (n : ℕ) × (l ≡ known header n))
Length-cases short_buffer = inl refl
Length-cases (known header n) = inr (header, n, refl)

frame_body-short_buffer :
    (p : Bytes) (max_message : ℕ) → frame_body p max_message short_buffer ≡ ok none
unfolding frame_body
frame_body-short_buffer p max_message = refl

-- A frame found in a buffer is found when more bytes follow, and they stay behind it.
pub parse_frame-append :
    (p q : Bytes) (max_message : ℕ) {f : Frame} {rest : Bytes}
    → parse_frame p max_message ≡ ok (some (f, rest))
    → parse_frame (p ++ q) max_message ≡ ok (some (f, rest ++ q))
unfolding parse_frame
parse_frame-append p q max_message {f} {rest} e = elim (Length-cases (frame_length p)) [
  | inl short ↦ absurd (ground (arith, frame_body-short_buffer p max_message))
  | inr (header, n, l) ↦ ground (
    arith,
    byte-append p q 0,
    byte-append p q 1,
    length-append p q,
    frame_length-append p q {header = header} {n = n},
    frame_body-append p q max_message header n {f = f} {rest = rest},
  )
]

pub parse_frame-append_err :
    (p q : Bytes) (max_message : ℕ) {e : DecodeError}
    → parse_frame p max_message ≡ err e
    → parse_frame (p ++ q) max_message ≡ err e
unfolding parse_frame
parse_frame-append_err p q max_message {e} h = elim (Length-cases (frame_length p)) [
  | inl short ↦ ground (
    arith,
    byte-append p q 0,
    byte-append p q 1,
    length-append p q,
    frame_body-short_buffer p max_message,
  )
  | inr (header, n, l) ↦ ground (
    arith,
    byte-append p q 0,
    byte-append p q 1,
    length-append p q,
    frame_length-append p q {header = header} {n = n},
    frame_body-append_err p q max_message header n {e = e},
  )
]

frame_body-shrinks :
    (p : Bytes) (max_message header n : ℕ) {f : Frame} {rest : Bytes}
    → frame_body p max_message (known header n) ≡ ok (some (f, rest))
    → length rest + 4 ≤ length p
unfolding frame_body
frame_body-shrinks p max_message header n e = ground (arith, length-drop (header + 4 + n) p)

-- A frame takes bytes off the buffer.
pub parse_frame-shrinks :
    (p : Bytes) (max_message : ℕ) {f : Frame} {rest : Bytes}
    → parse_frame p max_message ≡ ok (some (f, rest))
    → length rest < length p
unfolding parse_frame
parse_frame-shrinks p max_message {f} {rest} e = elim (Length-cases (frame_length p)) [
  | inl short ↦ absurd (ground (arith, frame_body-short_buffer p max_message))
  | inr (header, n, l) ↦
      ground (arith, frame_body-shrinks p max_message header n {f = f} {rest = rest})
]

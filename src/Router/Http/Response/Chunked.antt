-- ===== src/Router/Http/Response/Chunked.antt =====
-- crates/buran-router/src/http1.rs, write_chunk: a client reads chunks back (RFC 9112, section 7.1).
use buran.Prelude.{
  ℕ, zero, suc, ◌+◌, ◌*◌, ◌≤◌, ◌<◌, ◌≡◌, refl, ap, ◌∙◌, true, false, Option, none, some, [], ◌∷◌,
  ◌++◌, ◌==◌, if◌then◌else◌, Bytes, All, arith, length, length-append, append_assoc, take, drop,
  take-append, drop-append, bytes_eq,
}
use buran.Router.Uri.{hex}
use buran.Router.Http.Response.{digit_char, digits, to_hex, write_chunk, last_chunk, crlf}
use buran.Router.Http.Response.Digits.{
  IsDigitOf, digit_value, value, value-digits, digits-IsDigitOf,
}

abbrev past_line : ℕ → Bytes → Option (ℕ × Bytes)
past_line size [] = none
past_line size (b ∷ rest) = if b == 10 then some (size, rest) else none

-- The line with the size of a chunk, without extensions.
unfoldable pub read_size : ℕ → Bytes → Option (ℕ × Bytes)
unfolding hex
read_size size [] = none
read_size size (b ∷ rest) = elim (hex b) [
  | some v ↦ read_size (size * 16 + v) rest
  | none ↦ if b == 13 then past_line size rest else none
]

abbrev pub before : Bytes → Option Bytes → Option Bytes
before chunk (some rest) = some (chunk ++ rest)
before chunk none = none

-- What a client makes of a chunked body; every chunk takes a unit of fuel.
unfoldable pub read_chunks : ℕ → Bytes → Option Bytes
unfolding read_size
read_chunks zero wire = none
read_chunks (suc fuel) wire = elim (read_size 0 wire) [
  | none ↦ none
  | some (n, rest) ↦ elim (n == 0) [
    | true ↦ if bytes_eq rest crlf then some [] else none
    | false ↦ elim (bytes_eq (take 2 (drop n rest)) crlf) [
      | true ↦ before (take n rest) (read_chunks fuel (drop 2 (drop n rest)))
      | false ↦ none
    ]
  ]
]

hex-digit : (b d : ℕ) → d < 16 → b ≡ digit_char d → hex b ≡ some (digit_value b)
unfolding hex digit_value
hex-digit b d h e = ground (arith, h, e)

read_size-value :
    (size : ℕ) (ds rest : Bytes)
    → All (IsDigitOf 16) ds
    → read_size size (ds ++ (crlf ++ rest)) ≡ some (value 16 size ds, rest)
unfolding read_size value
read_size-value size [] rest a = refl
read_size-value size (b ∷ ds) rest ((d, (h, e)), a) =
    rw (hex-digit b d h e, read_size) (read_size-value (size * 16 + digit_value b) ds rest a)

read_size-to_hex :
    (n : ℕ) (rest : Bytes) → read_size 0 (to_hex n ++ (crlf ++ rest)) ≡ some (n, rest)
unfolding to_hex
read_size-to_hex n rest =
    read_size-value 0 (digits 16 n n) rest (digits-IsDigitOf 16 n n (omega arith) (omega arith))
    ∙ ap (λ x. some (x, rest)) (value-digits 16 n n (omega arith) (omega arith) (omega arith))

read_chunks-sized :
    (fuel n : ℕ) (wire rest : Bytes)
    → read_size 0 wire ≡ some (n, rest)
    → (n == 0) ≡ false
    → bytes_eq (take 2 (drop n rest)) crlf ≡ true
    → read_chunks (suc fuel) wire ≡ before (take n rest) (read_chunks fuel (drop 2 (drop n rest)))
unfolding read_chunks
read_chunks-sized fuel n wire rest e f g = rw (e, f, g, read_chunks) refl

write_chunk-append :
    (b : ℕ) (bs wire : Bytes)
    → write_chunk (b ∷ bs) ++ wire
      ≡ to_hex (suc (length bs)) ++ (crlf ++ ((b ∷ bs) ++ (crlf ++ wire)))
unfolding write_chunk
write_chunk-append b bs wire =
    append_assoc (to_hex (suc (length bs))) (crlf ++ ((b ∷ bs) ++ crlf)) wire
    ∙ ap (λ x. to_hex (suc (length bs)) ++ (crlf ++ x)) (append_assoc (b ∷ bs) crlf wire)

-- A chunk in front of a body that is read is read with it.
pub read_chunks-write_chunk :
    (fuel b : ℕ) (bs wire : Bytes)
    → read_chunks (suc fuel) (write_chunk (b ∷ bs) ++ wire)
      ≡ before (b ∷ bs) (read_chunks fuel wire)
read_chunks-write_chunk fuel b bs wire =
    let chunk : Bytes = b ∷ bs in
    let rest = chunk ++ (crlf ++ wire) in
    let cut : drop (length chunk) rest ≡ crlf ++ wire = drop-append chunk (crlf ++ wire) in
    let sized : read_size 0 (write_chunk chunk ++ wire) ≡ some (length chunk, rest) =
      ap (read_size 0) (write_chunk-append b bs wire) ∙ read_size-to_hex (length chunk) rest in
    read_chunks-sized fuel (length chunk) (write_chunk chunk ++ wire) rest sized (ground arith)
      (ap (λ x. bytes_eq (take 2 x) crlf) cut ∙ (unfold bytes_eq in refl))
    ∙ ap (λ x. before x (read_chunks fuel (drop 2 (drop (length chunk) rest))))
        (take-append chunk (crlf ++ wire))
    ∙ ap (λ x. before chunk (read_chunks fuel (drop 2 x))) cut

pub read_chunks-last : (fuel : ℕ) → read_chunks (suc fuel) last_chunk ≡ some []
unfolding read_chunks read_size hex bytes_eq
read_chunks-last fuel = refl

pub write_chunk-longer :
    (b : ℕ) (bs wire : Bytes) → suc (length wire) ≤ length (write_chunk (b ∷ bs) ++ wire)
write_chunk-longer b bs wire = omega (
  arith,
  ap length (write_chunk-append b bs wire),
  length-append (to_hex (suc (length bs))) (crlf ++ ((b ∷ bs) ++ (crlf ++ wire))),
  length-append bs (crlf ++ wire),
)

-- A client notices that a body was cut off: without the last chunk there is nothing to read.
pub read_chunks-nil : (fuel : ℕ) → read_chunks fuel [] ≡ none
unfolding read_chunks read_size
read_chunks-nil zero = refl
read_chunks-nil (suc fuel) = refl

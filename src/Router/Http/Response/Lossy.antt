-- ===== src/Router/Http/Response/Lossy.antt =====
-- `String::from_utf8_lossy`, by which crates/buran-router/src/http1.rs writes header lines of a worker.
use buran.Prelude.{
  between, ℕ, zero, suc, Bool, true, false, [], ◌∷◌, ◌++◌, ltb, ◌==◌, if◌then◌else◌, Bytes, length,
  take, drop,
}

-- `String::from_utf8_lossy`: a broken sequence, as far as it could go on, becomes U+FFFD. What a
-- sequence has at a place, zero past the end.
abbrev byte_at : ℕ → Bytes → ℕ
byte_at i [] = 0
byte_at zero (b ∷ bs) = b
byte_at (suc i) (b ∷ bs) = byte_at i bs

abbrev tail_byte : ℕ → Bool
tail_byte = between 128 191

abbrev second_of_three : ℕ → ℕ → Bool
second_of_three a b =
    if a == 224 then between 160 191 b else if a == 237 then between 128 159 b else tail_byte b

abbrev second_of_four : ℕ → ℕ → Bool
second_of_four a b =
    if a == 240 then between 144 191 b else if a == 244 then between 128 143 b else tail_byte b

-- Whether a sequence is complete, and its length.
unfoldable pub sequence : Bytes → Bool × ℕ
sequence v =
    let a = byte_at 0 v in
    let b = byte_at 1 v in
    let c = byte_at 2 v in
    let d = byte_at 3 v in
    if ltb a 128
    then (true, 1)
    else if between 194 223 a
    then (if tail_byte b then (true, 2) else (false, 1))
    else if between 224 239 a
    then (if second_of_three a b
        then (if tail_byte c then (true, 3) else (false, 2))
        else (false, 1))
    else if between 240 244 a
    then (if second_of_four a b
        then (if tail_byte c then (if tail_byte d then (true, 4) else (false, 3)) else (false, 2))
        else (false, 1))
    else (false, 1)

abbrev pub replacement : Bytes
replacement = 239 ∷ 191 ∷ 189 ∷ []

unfoldable pub lossy_loop : ℕ → Bytes → Bytes
unfolding sequence
lossy_loop zero v = []
lossy_loop (suc fuel) [] = []
lossy_loop (suc fuel) (b ∷ bs) =
    let (valid, n) = sequence (b ∷ bs) in
    (if valid then take n (b ∷ bs) else replacement) ++ lossy_loop fuel (drop n (b ∷ bs))

unfoldable pub from_utf8_lossy : Bytes → Bytes
unfolding lossy_loop
from_utf8_lossy v = lossy_loop (length v) v

-- ===== src/Router/Ws/Utf8.antt =====
-- `std::str::from_utf8`: the well-formed byte sequences of the Unicode standard, table 3-7.
use buran.Prelude.{
  between, ℕ, Bool, true, false, ◌&&◌, Option, none, some, List, [], ◌∷◌, leb, ◌==◌, if◌then◌else◌,
  Bytes,
}

abbrev tail : ℕ × ℕ
tail = (128, 191)

-- The ranges of the bytes that must follow a first byte.
after_first : ℕ → Option (List (ℕ × ℕ))
after_first b =
    if leb b 127
    then some []
    else if between 194 223 b
    then some (tail ∷ [])
    else if b == 224
    then some ((160, 191) ∷ tail ∷ [])
    else if b == 237
    then some ((128, 159) ∷ tail ∷ [])
    else if between 225 239 b
    then some (tail ∷ tail ∷ [])
    else if b == 240
    then some ((144, 191) ∷ tail ∷ tail ∷ [])
    else if between 241 243 b
    then some (tail ∷ tail ∷ tail ∷ [])
    else if b == 244
    then some ((128, 143) ∷ tail ∷ tail ∷ [])
    else none

follows : List (ℕ × ℕ) → Bytes → Bool
follows [] [] = true
follows (r ∷ rs) [] = false
follows ((lo, hi) ∷ rs) (b ∷ bs) = between lo hi b && follows rs bs
follows [] (b ∷ bs) = elim (after_first b) [ none ↦ false | some rs ↦ follows rs bs ]

unfoldable pub is_utf8 : Bytes → Bool
unfolding after_first follows
is_utf8 = follows []

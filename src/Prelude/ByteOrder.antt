-- ===== src/Prelude/ByteOrder.antt =====
-- Bytes, and the little- and big-endian forms of fixed-width integers (`to_le_bytes` and so on).
use Prim.Native.Nat.{ℕ, zero, suc, ◌+◌, ◌*◌, ◌/◌, ◌%◌, ◌^◌, ◌<◌}
use mathlib.Core.Path.{◌≡◌, refl, ap, ◌∙◌}
use mathlib.Core.List.{List, [], ◌∷◌, reverse, reverse-reverse}
use Prim.Native.Char.{code}
use Prim.Native.String.{String}
use mathlib.Core.Option.{Option, none, some}
use mathlib.Core.Bool.{Bool, true, false, ◌&&◌}
use mathlib.Core.Logic.{◌↔◌, ◌≢◌}
use buran.Prelude.Tests.{◌==◌}
use native.Mathlib.Omega.{arith}
use native.Mathlib.Nat.{pow-suc}
use buran.Prelude.Lists.{length, All}

abbrev pub Bytes : Type 0
Bytes = List ℕ

abbrev pub AreBytes : Bytes → Type 0
AreBytes = All (λ b. b < 256)

-- A first part, made longer by the byte before it.
abbrev pub put_before : ℕ → Option (Bytes × Bytes) → Option (Bytes × Bytes)
put_before b (some (before, after)) = some (b ∷ before, after)
put_before b none = none

-- A byte string in which a byte does not stand.
abbrev pub Without : ℕ → List ℕ → Type 0
Without c = All (λ b. b ≢ c)

-- `k` bytes, the low one first.
abbrev pub le_bytes : ℕ → ℕ → Bytes
le_bytes zero n = []
le_bytes (suc k) n = (n % 256) ∷ le_bytes k (n / 256)

abbrev pub from_le : Bytes → ℕ
from_le [] = 0
from_le (b ∷ bs) = b + 256 * from_le bs

abbrev pub be_bytes : ℕ → ℕ → Bytes
be_bytes k n = reverse (le_bytes k n)

abbrev pub from_be : Bytes → ℕ
from_be bs = from_le (reverse bs)

pub from_le-le_bytes : (k n : ℕ) → n < 256 ^ k → from_le (le_bytes k n) ≡ n
from_le-le_bytes zero n h = omega arith
from_le-le_bytes (suc k) n h =
    omega (arith, from_le-le_bytes k (n / 256) (omega (arith, pow-suc 256 k)))

pub le_bytes-from_le : (bs : Bytes) → AreBytes bs → le_bytes (length bs) (from_le bs) ≡ bs
le_bytes-from_le [] h = refl
le_bytes-from_le (b ∷ bs) (hb, hs) =
    let low : (b + 256 * from_le bs) % 256 ≡ b = omega arith in
    let high : (b + 256 * from_le bs) / 256 ≡ from_le bs = omega arith in
    ap (λ x. x ∷ le_bytes (length bs) ((b + 256 * from_le bs) / 256)) low
    ∙ ap (λ x. b ∷ le_bytes (length bs) x) high
    ∙ ap (◌∷◌ b) (le_bytes-from_le bs hs)

pub from_be-be_bytes : (k n : ℕ) → n < 256 ^ k → from_be (be_bytes k n) ≡ n
from_be-be_bytes k n h = ap from_le (reverse-reverse (le_bytes k n)) ∙ from_le-le_bytes k n h

pub length-le_bytes : (k n : ℕ) → length (le_bytes k n) ≡ k
length-le_bytes zero n = refl
length-le_bytes (suc k) n = ap suc (length-le_bytes k (n / 256))

pub from_le-lt : (bs : Bytes) → AreBytes bs → from_le bs < 256 ^ length bs
from_le-lt [] h = omega arith
from_le-lt (b ∷ bs) (hb, hs) = omega (arith, pow-suc 256 (length bs), from_le-lt bs hs)

pub AreBytes-le_bytes : (k n : ℕ) → AreBytes (le_bytes k n)
AreBytes-le_bytes zero n = tt
AreBytes-le_bytes (suc k) n = (omega arith, AreBytes-le_bytes k (n / 256))

-- The code points of a text: its bytes, if it is ASCII.
abbrev pub codes : String → Bytes
codes String.[] = []
codes (String.◌∷◌ c s) = code c ∷ codes s

-- Equality of byte slices.
unfoldable pub bytes_eq : Bytes → Bytes → Bool
bytes_eq [] [] = true
bytes_eq (x ∷ xs) (y ∷ ys) = x == y && bytes_eq xs ys
bytes_eq _ _ = false

pub bytes_eq_iff : (a b : Bytes) → (bytes_eq a b ≡ true) ↔ (a ≡ b)
unfolding bytes_eq
bytes_eq_iff (x ∷ a) (y ∷ b) = ground (arith, bytes_eq_iff a b)
bytes_eq_iff _ _ = ground arith

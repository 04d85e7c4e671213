-- ===== src/Router/Ws/Unmask.antt =====
-- Masking is an involution on bytes, and keeps the length.
use buran.Prelude.{
  ℕ, zero, suc, ◌%◌, ◌<◌, ◌≡◌, refl, ap, ap₂, Bool, true, ◌&&◌, [], ◌∷◌, arith, ◌==◌, Bytes,
  AreBytes, length, bit_xor,
}
use buran.Router.Ws.{byte, unmask}

-- A test that the first `count` numbers pass, by evaluation.
passes : (ℕ → Bool) → ℕ → Bool
passes test zero = true
passes test (suc count) = passes test count && test count

passes-lt : (test : ℕ → Bool) (count k : ℕ) → k < count → passes test count ≡ true → test k ≡ true
unfolding passes
passes-lt test zero k below h = elim below [ ]
passes-lt test (suc count) k below h = ground (arith, passes-lt test count k)

abbrev xors_back : ℕ → ℕ → Bool
xors_back m x = bit_xor (bit_xor x m) m == x && bit_xor x m % 256 == bit_xor x m

xor_table : passes (λ m. passes (xors_back m) 256) 256 ≡ true
unfolding passes
xor_table = refl

xors_back-lt : (m x : ℕ) → m < 256 → x < 256 → xors_back m x ≡ true
xors_back-lt m x hm hx =
    passes-lt (xors_back m) 256 x hx (passes-lt (λ k. passes (xors_back k) 256) 256 m hm xor_table)

xor_twice : (m x : ℕ) → m < 256 → x < 256 → bit_xor (bit_xor x m) m ≡ x
xor_twice m x hm hx = ground (arith, xors_back-lt m x hm hx)

xor-lt : (m x : ℕ) → m < 256 → x < 256 → bit_xor x m < 256
xor-lt m x hm hx = ground (arith, xors_back-lt m x hm hx)

pub byte-lt : (bs : Bytes) (i : ℕ) → AreBytes bs → byte bs i < 256
byte-lt [] i h = omega arith
byte-lt (b ∷ bs) zero h = h.0
byte-lt (b ∷ bs) (suc i) h = byte-lt bs i h.1

pub length-unmask : (mask : Bytes) (i : ℕ) (p : Bytes) → length (unmask mask i p) ≡ length p
unfolding unmask
length-unmask mask i [] = refl
length-unmask mask i (b ∷ bs) = ap suc (length-unmask mask (suc i) bs)

pub AreBytes-unmask :
    (mask : Bytes) (i : ℕ) (p : Bytes) → AreBytes mask → AreBytes p → AreBytes (unmask mask i p)
unfolding unmask
AreBytes-unmask mask i [] m h = tt
AreBytes-unmask mask i (b ∷ bs) m h = (
  xor-lt (byte mask (i % 4)) b (byte-lt mask (i % 4) m) h.0,
  AreBytes-unmask mask (suc i) bs m h.1,
)

-- Masking twice with the same key gives the payload back.
pub unmask-unmask :
    (mask : Bytes) (i : ℕ) (p : Bytes)
    → AreBytes mask
    → AreBytes p
    → unmask mask i (unmask mask i p) ≡ p
unfolding unmask
unmask-unmask mask i [] m h = refl
unmask-unmask mask i (b ∷ bs) m h =
    ap₂ ◌∷◌ (xor_twice (byte mask (i % 4)) b (byte-lt mask (i % 4) m) h.0)
      (unmask-unmask mask (suc i) bs m h.1)

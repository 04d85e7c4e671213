-- ===== src/Ipc/Error.antt =====
-- crates/buran-ipc/src/lib.rs: `BwpError` and the protocol's constants. A function that returns
-- `Result<_, BwpError>` has here a third outcome, `panic`, for an index or a slice out of range.
use buran.Prelude.{
  ℕ, ◌+◌, ◌≤◌, ◌≡◌, refl, none, some, [], ◌∷◌, leb, if◌then◌else◌, arith, length, take, drop,
  get_elem?, Bytes, from_le,
}

pub data BwpError : Type 0 where
  truncated : ℕ → ℕ → BwpError
  unknown_kind : ℕ → BwpError
  bad_magic : BwpError
  unsupported_version : ℕ → BwpError
  out_of_bounds : ℕ → ℕ → ℕ → BwpError

-- `panic` first: it is what a model of safe Rust must rule out.
pub data Result (T : Type 0) : Type 0 where
  panic : Result T
  ok : T → Result T
  err : BwpError → Result T

infixl 10 ◌>>=◌
abbrev pub ◌>>=◌ : {T U : Type 0} → Result T → (T → Result U) → Result U
panic >>= next = panic
err e >>= next = err e
ok value >>= next = next value

-- The value that a chain with a result went through.
pub inner_value :
    {T U : Type 0} (first : Result T) (next : T → Result U) {result : U}
    → first >>= next ≡ ok result
    → (value : T) × (first ≡ ok value) × (next value ≡ ok result)
inner_value panic next e = absurd (cc e)
inner_value (err fault) next e = absurd (cc e)
inner_value (ok value) next e = (value, refl, e)

-- `buf[pos]` and `u32::from_le_bytes(buf[pos..pos + n])`.
unfoldable pub byte_at : Bytes → ℕ → Result ℕ
byte_at buf pos = elim (get_elem? buf pos) [ none ↦ panic | some b ↦ ok b ]

unfoldable pub uint_at : ℕ → Bytes → ℕ → Result ℕ
uint_at n buf pos =
    if leb (pos + n) (length buf) then ok (from_le (take n (drop pos buf))) else panic

pub uint_at-ok :
    (n : ℕ) (buf : Bytes) (pos : ℕ)
    → pos + n ≤ length buf
    → uint_at n buf pos ≡ ok (from_le (take n (drop pos buf)))
unfolding uint_at
uint_at-ok n buf pos h = ground arith

abbrev pub bwp_version : ℕ
bwp_version = 1

abbrev pub bwp_magic : Bytes
bwp_magic = b'B' ∷ b'W' ∷ b'P' ∷ 0 ∷ []

abbrev pub flag_body_file : ℕ
flag_body_file = 1

abbrev pub flag_body_stream : ℕ
flag_body_stream = 2

abbrev pub flag_upgrade : ℕ
flag_upgrade = 4

abbrev pub cap_body_stream : ℕ
cap_body_stream = 1

abbrev pub cap_websocket : ℕ
cap_websocket = 2

abbrev pub pong_idle : ℕ
pong_idle = 0

abbrev pub pong_busy : ℕ
pong_busy = 1

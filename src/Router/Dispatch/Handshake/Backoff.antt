-- ===== src/Router/Dispatch/Handshake/Backoff.antt =====
-- crates/buran-router/src/dispatch.rs: the delay before a crashed worker is replaced.
use buran.Prelude.{ℕ, zero, suc, ◌-◌, ◌*◌, ◌^◌, ◌≤◌, ◌≡◌, ap, ◌∙◌, inl, inr, ◌⊎◌, arith, min}
use native.Mathlib.Nat.{pow-suc, pow-succ'}
use buran.Router.Dispatch.Handshake.{crash_backoff}

pow-pos : (i : ℕ) → 1 ≤ 2 ^ i
pow-pos zero = omega arith
pow-pos (suc i) = omega (arith, pow-suc 2 i, pow-pos i)

shift-cases :
    (streak : ℕ)
    → (min (suc streak - 1) 9 ≡ min (streak - 1) 9)
      ⊎ (min (suc streak - 1) 9 ≡ suc (min (streak - 1) 9))
shift-cases streak = omega arith

-- The delay after a crash grows with every further crash, at most doubling, from a tenth of a
-- second to half a minute, which ten crashes in a row reach.
pub crash_backoff-bounds :
    (streak : ℕ)
    → (100 ≤ crash_backoff streak)
      × (crash_backoff streak ≤ crash_backoff (suc streak))
      × (crash_backoff (suc streak) ≤ 2 * crash_backoff streak)
      × (crash_backoff streak ≤ 30000)
      × (10 ≤ streak → crash_backoff streak ≡ 30000)
unfolding crash_backoff
crash_backoff-bounds streak =
    let i = min (streak - 1) 9 in
    let j = min (suc streak - 1) 9 in
    let last : 10 ≤ streak → 2 ^ i ≡ 512 =
      λ h. ap (λ k. 2 ^ k) (let e : i ≡ 9 = omega (arith, h) in e) in
    elim (shift-cases streak) [
      | inl e ↦
          let q : 2 ^ j ≡ 2 ^ i = ap (λ k. 2 ^ k) e in
          (
            omega (arith, pow-pos i),
            omega (arith, q),
            omega (arith, q),
            omega arith,
            λ h. omega (arith, last h),
          )
      | inr e ↦
          let q : 2 ^ j ≡ 2 * 2 ^ i = ap (λ k. 2 ^ k) e ∙ pow-succ' 2 i in
          (
            omega (arith, pow-pos i),
            omega (arith, q),
            omega (arith, q),
            omega arith,
            λ h. omega (arith, last h),
          )
    ]

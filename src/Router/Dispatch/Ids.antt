-- ===== src/Router/Dispatch/Ids.antt =====
-- The allocation of request ids: it ends, and never takes an id that is in flight.
use buran.Prelude.{
  ℕ, zero, suc, ◌+◌, ◌%◌, ◌^◌, ◌≤◌, ◌<◌, ◌≡◌, ◌≢◌, refl, sym, ap, ◌∙◌, subst, inl, inr, none, some,
  arith, Option-cases, length, Map, get, remove, Distinct, Distinct-remove, length-remove,
  get-remove_other,
}
use buran.Router.Dispatch.{Pending, allocate_id, incr}

module _ (m : Map Pending) where
  allocate_id-here : (fuel c : ℕ) → get c m ≡ none → allocate_id (suc fuel) c m ≡ some (c, incr c)
  unfolding allocate_id
  allocate_id-here fuel c h = rw h refl

  allocate_id-next :
      (fuel c : ℕ) {p : Pending}
      → get c m ≡ some p
      → allocate_id (suc fuel) c m ≡ allocate_id fuel (incr c) m
  unfolding allocate_id
  allocate_id-next fuel c {p} h = rw h refl

  allocate_id-zero : (c : ℕ) → allocate_id 0 c m ≡ none
  unfolding allocate_id
  allocate_id-zero c = refl

  -- Whatever comes out is not in flight.
  pub allocate_id-absent :
      (fuel c : ℕ) {id next : ℕ} → allocate_id fuel c m ≡ some (id, next) → get id m ≡ none
  allocate_id-absent zero c {id} {next} e = absurd (cc (allocate_id-zero c, e))
  allocate_id-absent (suc fuel) c {id} {next} e = elim (Option-cases (get c m)) [
    | inl h ↦
        let same : c ≡ id = cc (sym (allocate_id-here fuel c h) ∙ e) in
        subst (λ i. get i m ≡ none) same h
    | inr (p, h) ↦
        allocate_id-absent fuel (incr c) {id = id} {next = next}
          (sym (allocate_id-next fuel c {p = p} h) ∙ e)
  ]

  allocate_id-ends :
      (fuel k c : ℕ)
      → k < fuel
      → get ((c + k) % 2 ^ 32) m ≡ none
      → c < 2 ^ 32
      → (id : ℕ) × (next : ℕ) × (allocate_id fuel c m ≡ some (id, next))
  allocate_id-ends zero k c h e w = elim h [ ]
  allocate_id-ends (suc fuel) zero c h e w =
      let same : (c + 0) % 2 ^ 32 ≡ c = omega (arith, w) in
      (c, incr c, allocate_id-here fuel c (sym (ap (λ i. get i m) same) ∙ e))
  allocate_id-ends (suc fuel) (suc k) c h e w = elim (Option-cases (get c m)) [
    | inl free ↦ (c, incr c, allocate_id-here fuel c free)
    | inr (p, taken) ↦
        let same : (incr c + k) % 2 ^ 32 ≡ (c + suc k) % 2 ^ 32 = omega arith in
        let (id, next, f) =
          allocate_id-ends fuel k (incr c) (omega (arith, h)) (ap (λ i. get i m) same ∙ e)
            (omega arith) in
        (id, next, allocate_id-next fuel c {p = p} taken ∙ f)
  ]

-- Among one candidate more than there are entries, one is free.
free_candidate :
    (n c : ℕ) (m : Map Pending)
    → Distinct m
    → length m ≤ n
    → n < 2 ^ 32
    → (k : ℕ) × (k ≤ n) × (get ((c + k) % 2 ^ 32) m ≡ none)
free_candidate zero c m d h w = elim (Option-cases (get ((c + 0) % 2 ^ 32) m)) [
  | inl free ↦ (0, omega arith, free)
  | inr (p, taken) ↦ absurd (omega (arith, h, length-remove ((c + 0) % 2 ^ 32) m {a = p} d taken))
]
free_candidate (suc n) c m d h w = elim (Option-cases (get ((c + 0) % 2 ^ 32) m)) [
  | inl free ↦ (0, omega arith, free)
  | inr (p, taken) ↦
      let i = (c + 0) % 2 ^ 32 in
      let shorter : length (remove i m) ≤ n = omega (arith, h, length-remove i m {a = p} d taken) in
      let (k, le, free) =
        free_candidate n (c + 1) (remove i m) (Distinct-remove i m d) shorter (omega (arith, w)) in
      let other : (c + 1 + k) % 2 ^ 32 ≢ i = λ e. omega (arith, le, w, e) in
      let same : (c + suc k) % 2 ^ 32 ≡ (c + 1 + k) % 2 ^ 32 = omega arith in
      (
        suc k,
        omega (arith, le),
        ap (λ j. get j m) same ∙ sym (get-remove_other ((c + 1 + k) % 2 ^ 32) i m other) ∙ free,
      )
]

-- With fewer than 2 ^ 32 requests in flight the loop finds an id, within one candidate more than
-- there are requests, and the id is not in flight.
pub allocate_id-fresh :
    (c : ℕ) (m : Map Pending)
    → c < 2 ^ 32
    → Distinct m
    → suc (length m) ≤ 2 ^ 32
    → (id : ℕ) × (next : ℕ) × (allocate_id (suc (length m)) c m ≡ some (id, next))
      × (get id m ≡ none)
allocate_id-fresh c m w d h =
    let (k, le, free) = free_candidate (length m) c m d (omega arith) (omega (arith, h)) in
    let (id, next, e) = allocate_id-ends m (suc (length m)) k c (omega (arith, le)) free w in
    (id, next, e, allocate_id-absent m (suc (length m)) c {id = id} {next = next} e)

-- ===== src/Router/Matching/Sets.antt =====
-- Sets of patterns and of networks: what they admit, by their entries in the configuration.
use buran.Prelude.{
  ◌≡◌, refl, ◌↔◌, ◌⊎◌, inl, inr, Bool, true, false, Option, some, none, List, [], ◌∷◌, Bytes, any,
  if◌then◌else◌, is_empty, arith, All, ap, sym, ◌∙◌, Bool-cases,
}
use buran.Router.Matching.{Signed, admits, add_signed, compile_signed, signed_entry, strip}

abbrev pub AnyEntry : (Bytes → Type 0) → List Bytes → Type 0
AnyEntry P [] = ⊥
AnyEntry P (x ∷ xs) = P x ⊎ AnyEntry P xs

abbrev pub entry : Bytes → Bool × Bytes
entry raw = signed_entry raw (strip b'!' raw)

-- An entry behind `!` is negated.
abbrev pub IsNegated : Bytes → Type 0
IsNegated raw = (entry raw).0 ≡ true

decide_admits :
    (a b c : Bool) {N P Q : Type 0}
    → (a ≡ true) ↔ N
    → (b ≡ true) ↔ P
    → (c ≡ true) ↔ Q
    → ((if a then false else if b then true else c) ≡ true) ↔ ((¬ N) × (P ⊎ Q))
decide_admits true b c n p q = ((λ h. absurd (cc h)), (λ (h, k). absurd (h (n.0 refl))))
decide_admits false true c n p q = ((λ h. ((λ x. cc (n.1 x)), inl (p.0 refl))), (λ k. refl))
decide_admits false false true n p q = ((λ h. ((λ x. cc (n.1 x)), inr (q.0 refl))), (λ k. refl))
decide_admits false false false n p q =
    ((λ h. absurd (cc h)), (λ (h, k). absurd (elim k [ inl x ↦ cc (p.1 x) | inr x ↦ cc (q.1 x) ])))

module _ {A : Type 0} (compile_one : Bytes → Option A) (test : A → Bool) where
  -- The body of the entry compiles to a member that the test hits.
  abbrev pub Hits : Bytes → Type 0
  Hits raw = (a : A) × (compile_one (entry raw).1 ≡ some a) × (test a ≡ true)

  abbrev pub HitsAs : Bool → Bytes → Type 0
  HitsAs negated raw = ((entry raw).0 ≡ negated) × Hits raw

  abbrev part : Bool → Signed A → List A
  part true set = set.negative
  part false set = set.positive

  compile_signed-nil :
      (set : Signed A)
      → compile_signed compile_one [] ≡ some set
      → record { positive = []; negative = [] } ≡ set
  unfolding compile_signed
  compile_signed-nil set h = cc h

  compile_signed-cons :
      (raw : Bytes) (raws : List Bytes) (set : Signed A)
      → compile_signed compile_one (raw ∷ raws) ≡ some set
      → (a : A) × (others : Signed A) × (compile_one (entry raw).1 ≡ some a)
        × (compile_signed compile_one raws ≡ some others)
        × (add_signed (entry raw).0 a others ≡ set)
  unfolding compile_signed
  compile_signed-cons raw raws set h =
      go (compile_one (entry raw).1) refl (compile_signed compile_one raws) refl
    where
      go :
          (o : Option A)
          → compile_one (entry raw).1 ≡ o
          → (s : Option (Signed A)) → compile_signed compile_one raws ≡ s
          → (a : A) × (others : Signed A) × (compile_one (entry raw).1 ≡ some a)
            × (compile_signed compile_one raws ≡ some others)
            × (add_signed (entry raw).0 a others ≡ set)
      go none e s f = absurd (cc (rw e at h))
      go (some a) e none f = absurd (cc (rw (e, f) at h))
      go (some a) e (some others) f = (a, others, e, f, cc (rw (e, f) at h))

  -- A part after an addition: the new member stands in the part of its sign.
  any-add_signed→ :
      (b negated : Bool) (a : A) (s : Signed A)
      → any test (part b (add_signed negated a s)) ≡ true
      → ((negated ≡ b) × (test a ≡ true)) ⊎ (any test (part b s) ≡ true)
  unfolding add_signed
  any-add_signed→ true true a s h = elim (Bool-cases (test a)) [
    | inl e ↦ inl (refl, e)
    | inr e ↦ inr (rw e at h)
  ]
  any-add_signed→ false false a s h = elim (Bool-cases (test a)) [
    | inl e ↦ inl (refl, e)
    | inr e ↦ inr (rw e at h)
  ]
  any-add_signed→ true false a s h = inr h
  any-add_signed→ false true a s h = inr h

  any-add_signed :
      (b negated : Bool) (a : A) (s : Signed A)
      → ((negated ≡ b) × (test a ≡ true)) ⊎ (any test (part b s) ≡ true)
      → any test (part b (add_signed negated a s)) ≡ true
  unfolding add_signed
  any-add_signed true true a s h = ground (arith, h)
  any-add_signed false false a s h = ground (arith, h)
  any-add_signed true false a s h = ground (arith, h)
  any-add_signed false true a s h = ground (arith, h)

  any-part→ :
      (b : Bool) (raws : List Bytes) (set : Signed A)
      → compile_signed compile_one raws ≡ some set
      → any test (part b set) ≡ true
      → AnyEntry (HitsAs b) raws
  any-part→ true [] set h t =
      absurd (cc (ap (λ s. any test (part true s)) (compile_signed-nil set h), t))
  any-part→ false [] set h t =
      absurd (cc (ap (λ s. any test (part false s)) (compile_signed-nil set h), t))
  any-part→ b (raw ∷ raws) set h t =
      let (a, others, ea, eo, es) = compile_signed-cons raw raws set h in
      elim (any-add_signed→ b (entry raw).0 a others (ap (λ s. any test (part b s)) es ∙ t)) [
        | inl (e, ta) ↦ inl (e, (a, ea, ta))
        | inr later ↦ inr (any-part→ b raws others eo later)
      ]

  any-part :
      (b : Bool) (raws : List Bytes) (set : Signed A)
      → compile_signed compile_one raws ≡ some set
      → AnyEntry (HitsAs b) raws
      → any test (part b set) ≡ true
  any-part b [] set h t = elim t [ ]
  any-part b (raw ∷ raws) set h (inl (e, (a, ea, ta))) =
      let (a', others, ea', eo, es) = compile_signed-cons raw raws set h in
      ap (λ s. any test (part b s)) (sym es)
      ∙ any-add_signed b (entry raw).0 a' others (inl (e, ap test (cc (ea, ea')) ∙ ta))
  any-part b (raw ∷ raws) set h (inr later) =
      let (a', others, ea', eo, es) = compile_signed-cons raw raws set h in
      ap (λ s. any test (part b s)) (sym es)
      ∙ any-add_signed b (entry raw).0 a' others (inr (any-part b raws others eo later))

  add_negative :
      (a : A) (s : Signed A) → is_empty (part false (add_signed true a s)) ≡ is_empty (part false s)
  unfolding add_signed
  add_negative a s = refl

  is_empty-add :
      (negated : Bool) (a : A) (s : Signed A)
      → is_empty (part false (add_signed negated a s)) ≡ true
      → (negated ≡ true) × (is_empty (part false s) ≡ true)
  unfolding add_signed
  is_empty-add true a s h = (refl, h)
  is_empty-add false a s h = absurd (cc h)

  is_empty-positive→ :
      (raws : List Bytes) (set : Signed A)
      → compile_signed compile_one raws ≡ some set
      → is_empty set.positive ≡ true
      → All IsNegated raws
  is_empty-positive→ [] set h t = tt
  is_empty-positive→ (raw ∷ raws) set h t =
      let (a, others, ea, eo, es) = compile_signed-cons raw raws set h in
      let (n, e) = is_empty-add (entry raw).0 a others (ap (λ s. is_empty (part false s)) es ∙ t) in
      (n, is_empty-positive→ raws others eo e)

  is_empty-positive :
      (raws : List Bytes) (set : Signed A)
      → compile_signed compile_one raws ≡ some set
      → All IsNegated raws
      → is_empty set.positive ≡ true
  is_empty-positive [] set h t = ap (λ s. is_empty (part false s)) (sym (compile_signed-nil set h))
  is_empty-positive (raw ∷ raws) set h (n, ns) =
      let (a, others, ea, eo, es) = compile_signed-cons raw raws set h in
      ap (λ s. is_empty (part false s)) (sym es ∙ ap (λ m. add_signed m a others) n)
      ∙ add_negative a others
      ∙ is_empty-positive raws others eo ns

  -- A compiled set admits a value if no negated entry hits it, and a plain entry hits it or all
  -- entries are negated.
  pub admits-compile_signed :
      (raws : List Bytes) (set : Signed A)
      → compile_signed compile_one raws ≡ some set
      → (admits test set ≡ true)
        ↔ ((¬ AnyEntry (HitsAs true) raws) × (All IsNegated raws ⊎ AnyEntry (HitsAs false) raws))
  unfolding admits
  admits-compile_signed raws set h =
      let neg : (any test set.negative ≡ true) ↔ AnyEntry (HitsAs true) raws =
        (any-part→ true raws set h, any-part true raws set h) in
      let pos : (any test set.positive ≡ true) ↔ AnyEntry (HitsAs false) raws =
        (any-part→ false raws set h, any-part false raws set h) in
      let plain : (is_empty set.positive ≡ true) ↔ All IsNegated raws =
        (is_empty-positive→ raws set h, is_empty-positive raws set h) in
      decide_admits (any test set.negative) (is_empty set.positive) (any test set.positive) neg
        plain pos

-- ===== src/Router/Matching/Wildcards.antt =====
-- Patterns with at most one star match what a glob matches.
use buran.Prelude.{
  ℕ, zero, suc, ◌+◌, ◌-◌, ◌≤◌, ◌≡◌, refl, sym, ap, subst, drop-append_ge, ◌∙◌, ◌≢◌, ◌↔◌, ◌⊎◌, inl,
  inr, true, ◌&&◌, some, [], ◌∷◌, ◌++◌, append-nil, append_assoc, arith, leb, ◌==◌, ==_iff, ==_refl,
  ap₂, Bool-cases, le→leb, Bytes, length, take, drop, length-append, take-append-drop, drop-append,
  bytes_eq, bytes_eq_iff,
}
use buran.Router.Matching.{
  RegexEngine, Pattern, exact, starts_with, ends_with, star, count_stars, around_star, one_star,
  wildcard, compile_wildcard, pattern_matches,
}

-- What a pattern stands for, whatever the number of its stars: a star for any bytes, any other
-- byte for itself.
abbrev pub Glob : Bytes → Bytes → Type 0
Glob [] v = v ≡ []
Glob (b ∷ p) v =
    ((b ≢ star) × (r : Bytes) × (v ≡ b ∷ r) × Glob p r)
    ⊎ ((b ≡ star) × (m : Bytes) × (r : Bytes) × (v ≡ m ++ r) × Glob p r)

starts_with→ : (p v : Bytes) → starts_with p v ≡ true → (r : Bytes) × (v ≡ p ++ r)
unfolding starts_with
starts_with→ [] v h = (v, refl)
starts_with→ (b ∷ p) [] h = absurd (cc h)
starts_with→ (b ∷ p) (c ∷ v) h =
    let e : b ≡ c = ground (arith, h) in
    let (r, q) = starts_with→ p v (ground (arith, h)) in (r, ap₂ (◌∷◌) (sym e) q)

starts_with-append : (p r : Bytes) → starts_with p (p ++ r) ≡ true
unfolding starts_with
starts_with-append [] r = refl
starts_with-append (b ∷ p) r = rw (==_refl b) (starts_with-append p r)

bytes_eq_refl : (s : Bytes) → bytes_eq s s ≡ true
bytes_eq_refl s = (bytes_eq_iff s s).1 refl

ends_with→ : (s v : Bytes) → ends_with s v ≡ true → v ≡ take (length v - length s) v ++ s
unfolding ends_with
ends_with→ s v h =
    let e : s ≡ drop (length v - length s) v =
      (bytes_eq_iff s (drop (length v - length s) v)).0 (ground (arith, h)) in
    sym (take-append-drop (length v - length s) v)
    ∙ ap (λ x. take (length v - length s) v ++ x) (sym e)

drop-suffix : (m s : Bytes) → drop (length (m ++ s) - length s) (m ++ s) ≡ s
drop-suffix m s =
    ap (λ k. drop k (m ++ s))
      (let e : length (m ++ s) - length s ≡ length m = omega (arith, length-append m s) in e)
    ∙ drop-append m s

ends_with-append : (m s : Bytes) → ends_with s (m ++ s) ≡ true
unfolding ends_with
ends_with-append m s = rw (
  drop-suffix m s,
  bytes_eq_refl s,
  le→leb (length s) (length (m ++ s)) (omega (arith, length-append m s)),
)

-- Without stars a pattern stands for itself.
Glob-exact→ : (s v : Bytes) → count_stars s ≡ 0 → Glob s v → v ≡ s
unfolding count_stars
Glob-exact→ [] v n g = g
Glob-exact→ (b ∷ s) v n (inl (ne, r, e, g)) = e ∙ ap (◌∷◌ b) (Glob-exact→ s r (ground (arith, n)) g)
Glob-exact→ (b ∷ s) v n (inr (e, m, r, v', g)) = absurd (ground (arith, n, e))

Glob-exact : (s : Bytes) → count_stars s ≡ 0 → Glob s s
unfolding count_stars
Glob-exact [] n = refl
Glob-exact (b ∷ s) n =
    inl ((let ne : b ≢ star = ground (arith, n) in ne), s, refl, Glob-exact s (ground (arith, n)))

around_star-other :
    (b : ℕ) (p : Bytes)
    → b ≢ star
    → around_star (b ∷ p) ≡ (b ∷ (around_star p).0, (around_star p).1)
unfolding around_star
around_star-other b p ne = ground (arith, ne)

around_star-star : (b : ℕ) (p : Bytes) → b ≡ star → around_star (b ∷ p) ≡ ([], p)
unfolding around_star
around_star-star b p e = ground (arith, e)

count_stars-other : (b : ℕ) (p : Bytes) → b ≢ star → count_stars (b ∷ p) ≡ count_stars p
unfolding count_stars
count_stars-other b p ne = ground (arith, ne)

count_stars-star : (b : ℕ) (p : Bytes) → b ≡ star → count_stars (b ∷ p) ≡ suc (count_stars p)
unfolding count_stars
count_stars-star b p e = ground (arith, e)

count_stars-nil : count_stars [] ≡ 0
unfolding count_stars
count_stars-nil = refl

abbrev Between : Bytes × Bytes → Bytes → Type 0
Between (before, after) v = (m : Bytes) × (v ≡ before ++ (m ++ after))

-- With one star it stands for what has the two sides as its ends.
Glob-around→ : (p v : Bytes) → count_stars p ≡ 1 → Glob p v → Between (around_star p) v
Glob-around→ [] v n g = absurd (omega (arith, n, count_stars-nil))
Glob-around→ (b ∷ p) v n (inl (ne, r, e, g)) =
    let (m, q) = Glob-around→ p r (sym (count_stars-other b p ne) ∙ n) g in
    rw (around_star-other b p ne) (m, e ∙ ap (◌∷◌ b) q)
Glob-around→ (b ∷ p) v n (inr (e, m, r, q, g)) =
    rw (around_star-star b p e)
      (m, q ∙ ap (◌++◌ m) (Glob-exact→ p r (omega (arith, count_stars-star b p e, n)) g))

Glob-Between : (p v : Bytes) → count_stars p ≡ 1 → Between (around_star p) v → Glob p v
Glob-Between [] v n g = absurd (omega (arith, n, count_stars-nil))
Glob-Between (b ∷ p) v n g = elim (Bool-cases (b == star)) [
  | inl h ↦
      let e : b ≡ star = (==_iff b star).0 h in
      let none_left : count_stars p ≡ 0 = omega (arith, n, count_stars-star b p e) in
      let (m, q) = subst (λ a. Between a v) (around_star-star b p e) g in
      inr (e, m, p, q, Glob-exact p none_left)
  | inr h ↦
      let ne : b ≢ star = ground (arith, h) in
      let (m, q) = subst (λ a. Between a v) (around_star-other b p ne) g in
      inl (
        ne,
        (around_star p).0 ++ (m ++ (around_star p).1),
        q,
        Glob-Between p ((around_star p).0 ++ (m ++ (around_star p).1))
            (sym (count_stars-other b p ne) ∙ n) (m, refl),
      )
]

circumfix→ :
    (p s v : Bytes)
    → leb (length p + length s) (length v) && (starts_with p v && ends_with s v) ≡ true
    → Between (p, s) v
circumfix→ p s v h =
    let (r, q) = starts_with→ p v (ground (arith, h)) in
    let fits : length p + length s ≤ length v = ground (arith, h) in
    let n : length v ≡ length p + length r = ap length q ∙ length-append p r in
    let cut : length v - length s ≡ length p + (length r - length s) = omega (arith, fits, n) in
    let ends : s ≡ drop (length v - length s) v =
      (bytes_eq_iff s (drop (length v - length s) v)).0 (unfold ends_with in ground (arith, h)) in
    let e : s ≡ drop (length r - length s) r =
      ends ∙ ap₂ (λ k x. drop k x) cut q ∙ drop-append_ge p r (length r - length s) in
    (
      take (length r - length s) r,
      q
          ∙ ap (◌++◌ p) (
              sym (take-append-drop (length r - length s) r)
              ∙ ap (λ x. take (length r - length s) r ++ x) (sym e)),
    )

circumfix-Between :
    (p s m : Bytes)
    → leb (length p + length s) (length (p ++ (m ++ s)))
        && (starts_with p (p ++ (m ++ s)) && ends_with s (p ++ (m ++ s)))
      ≡ true
circumfix-Between p s m =
    let ends : ends_with s (p ++ (m ++ s)) ≡ true =
      ap (ends_with s) (sym (append_assoc p m s)) ∙ ends_with-append (p ++ m) s in
    let fits : length p + length s ≤ length (p ++ (m ++ s)) =
      omega (arith, length-append p (m ++ s), length-append m s) in
    rw (
      ends,
      starts_with-append p (m ++ s),
      le→leb (length p + length s) (length (p ++ (m ++ s))) fits,
    )

module _ (E : RegexEngine) (v : Bytes) where
  one_star→ : (a : Bytes × Bytes) → pattern_matches E v (one_star a) ≡ true → Between a v
  unfolding pattern_matches
  one_star→ ([], []) h = (v, sym (append-nil v))
  one_star→ ([], s ∷ ss) h = (take (length v - length (s ∷ ss)) v, ends_with→ (s ∷ ss) v h)
  one_star→ (p ∷ ps, []) h =
      let (r, q) = starts_with→ (p ∷ ps) v h in (r, q ∙ ap (◌++◌ (p ∷ ps)) (sym (append-nil r)))
  one_star→ (p ∷ ps, s ∷ ss) h = circumfix→ (p ∷ ps) (s ∷ ss) v h

  one_star-matches : (a : Bytes × Bytes) → Between a v → pattern_matches E v (one_star a) ≡ true
  unfolding pattern_matches
  one_star-matches ([], []) g = refl
  one_star-matches ([], s ∷ ss) (m, e) = rw e (ends_with-append m (s ∷ ss))
  one_star-matches (p ∷ ps, []) (m, e) = rw e (starts_with-append (p ∷ ps) (m ++ []))
  one_star-matches (p ∷ ps, s ∷ ss) (m, e) = rw e (circumfix-Between (p ∷ ps) (s ∷ ss) m)

exact_iff :
    (E : RegexEngine) (body v : Bytes)
    → count_stars body ≡ 0
    → (pattern_matches E v (exact body) ≡ true) ↔ Glob body v
unfolding pattern_matches
exact_iff E body v h = (
  (λ e. subst (Glob body) (sym ((bytes_eq_iff v body).0 e)) (Glob-exact body h)),
  (λ g. (bytes_eq_iff v body).1 (Glob-exact→ body v h g)),
)

-- A pattern with at most one star and without `~` compiles, and matches exactly the values that
-- it stands for as a glob.
pub compile_wildcard-Glob :
    (E : RegexEngine) (body v : Bytes)
    → count_stars body ≤ 1
    → (p : Pattern E.Regex) × (compile_wildcard E body ≡ some p)
      × ((pattern_matches E v p ≡ true) ↔ Glob body v)
unfolding compile_wildcard
compile_wildcard-Glob E body v h = go (count_stars body) refl
  where
    go :
        (n : ℕ)
        → count_stars body ≡ n
        → (p : Pattern E.Regex) × (wildcard E body n ≡ some p)
          × ((pattern_matches E v p ≡ true) ↔ Glob body v)
    go zero e = (exact body, refl, exact_iff E body v e)
    go (suc zero) e = (
      one_star (around_star body),
      refl,
      (
        (λ t. Glob-Between body v e (one_star→ E v (around_star body) t)),
        (λ g. one_star-matches E v (around_star body) (Glob-around→ body v e g)),
      ),
    )
    go (suc (suc n)) e = absurd (omega (arith, h, e))

-- ===== src/Router/Routes/Walks.antt =====
-- The walk over the routes: which steps it takes, where it ends, and what a rewrite leaves.
use buran.Prelude.{
  ℕ, zero, suc, ◌<◌, ◌≡◌, ◌≢◌, refl, sym, ap, ◌∙◌, subst, inl, inr, ◌⊎◌, Bool, true, false, Option,
  none, some, List, [], ◌∷◌, ◌++◌, arith, Bool-cases, Option-cases, Bytes, All,
}
use buran.Router.Matching.{RegexEngine}
use buran.Router.Routes.{
  RequestMeta, Routes, Step, Decision, not_found, Walk, RouteOutcome, Hop, stuck, jump, decided,
  matches, get_route, find, hop, take_step, outcome, walk, start, decide,
}

module _ (E : RegexEngine) where
  -- `k` jumps lead from one state of the loop to another.
  pub data Jumps (routes : Routes E) (meta : RequestMeta) : ℕ → Walk → Walk → Type 0 where
    arrived : {w : Walk} → Jumps routes meta zero w w
    by_jump :
        {k : ℕ} {w u v : Walk}
        → hop E routes meta w ≡ jump u
        → Jumps routes meta k u v
        → Jumps routes meta (suc k) w v

  -- How a walk of at most `hops` rounds ends: it is stuck, or decides, or runs out of rounds.
  abbrev pub Ends : ℕ → Routes E → RequestMeta → Walk → RouteOutcome E → Type 0
  Ends hops routes meta w o =
      (k : ℕ) × (v : Walk) × Jumps routes meta k w v
      × (((k < hops) × (hop E routes meta v ≡ stuck) × (o ≡ outcome E not_found v))
          ⊎ ((d : Decision E) × (u : Walk) × (k < hops)
              × (hop E routes meta v ≡ decided d u)
              × (o ≡ outcome E d u))
          ⊎ ((k ≡ hops) × (o ≡ outcome E not_found v)))

  Hop-cases :
      (h : Hop E)
      → (h ≡ stuck)
        ⊎ ((u : Walk) × (h ≡ jump u))
        ⊎ ((d : Decision E) × (u : Walk) × (h ≡ decided d u))
  Hop-cases stuck = inl refl
  Hop-cases (jump u) = inr (inl (u, refl))
  Hop-cases (decided d u) = inr (inr (d, u, refl))

  module _ (routes : Routes E) (meta : RequestMeta) (w : Walk) (hops : ℕ) where
    pub walk-stuck :
        hop E routes meta w ≡ stuck → walk E (suc hops) routes meta w ≡ outcome E not_found w
    unfolding walk
    walk-stuck e = rw (e, walk) refl

    pub walk-jump :
        (u : Walk)
        → hop E routes meta w ≡ jump u
        → walk E (suc hops) routes meta w ≡ walk E hops routes meta u
    unfolding walk
    walk-jump u e = rw (e, walk) refl

    pub walk-decided :
        (d : Decision E) (u : Walk)
        → hop E routes meta w ≡ decided d u
        → walk E (suc hops) routes meta w ≡ outcome E d u
    unfolding walk
    walk-decided d u e = rw (e, walk) refl

    Ends-jump :
        (u : Walk) (o : RouteOutcome E)
        → hop E routes meta w ≡ jump u
        → Ends hops routes meta u o
        → Ends (suc hops) routes meta w o
    Ends-jump u o e (k, v, path, inl (lt, s, q)) =
        (suc k, v, by_jump e path, inl (omega (arith, lt), s, q))
    Ends-jump u o e (k, v, path, inr (inl (d, x, lt, s, q))) =
        (suc k, v, by_jump e path, inr (inl (d, x, omega (arith, lt), s, q)))
    Ends-jump u o e (k, v, path, inr (inr (same, q))) =
        (suc k, v, by_jump e path, inr (inr (ap suc same, q)))

  pub walk-zero :
      (routes : Routes E) (meta : RequestMeta) (w : Walk)
      → walk E 0 routes meta w ≡ outcome E not_found w
  unfolding walk
  walk-zero routes meta w = refl

  walk-Ends :
      (hops : ℕ) (routes : Routes E) (meta : RequestMeta) (w : Walk)
      → Ends hops routes meta w (walk E hops routes meta w)
  walk-Ends zero routes meta w = (0, w, arrived, inr (inr (refl, walk-zero routes meta w)))
  walk-Ends (suc hops) routes meta w = elim (Hop-cases (hop E routes meta w)) [
    | inl e ↦ (0, w, arrived, inl (omega arith, e, walk-stuck routes meta w hops e))
    | inr (inl (u, e)) ↦
        subst (Ends (suc hops) routes meta w) (sym (walk-jump routes meta w hops u e)) (
          Ends-jump routes meta w hops u (walk E hops routes meta u) e
            (walk-Ends hops routes meta u))
    | inr (inr (d, u, e)) ↦
        (0, w, arrived, inr (inl (d, u, omega arith, e, walk-decided routes meta w hops d u e)))
  ]

  -- The first step of a route that takes the request, and all that stand before it.
  abbrev pub TakesFirst : Routes E → RequestMeta → Walk → Step E → Type 0
  TakesFirst routes meta w step =
      (before : List (Step E)) × (after : List (Step E)) × (get_route E w.current_route routes
        ≡ some (before ++ step ∷ after))
      × All (λ s. matches E s meta w.path w.query ≡ false) before
      × (matches E step meta w.path w.query ≡ true)

  find-some :
      (test : Step E → Bool) (steps : List (Step E)) {step : Step E}
      → find E test steps ≡ some step
      → (before : List (Step E)) × (after : List (Step E)) × (steps ≡ before ++ step ∷ after)
        × All (λ s. test s ≡ false) before
        × (test step ≡ true)
  unfolding find
  find-some test [] {step} e = absurd (cc e)
  find-some test (s ∷ steps) {step} e = elim (Bool-cases (test s)) [
    | inl hits ↦
        let same : s ≡ step = cc (rw hits at e) in
        ([], steps, ap (λ x. x ∷ steps) same, tt, ap test (sym same) ∙ hits)
    | inr misses ↦
        let (before, after, q, all_no, hit) = find-some test steps {step = step} (rw misses at e) in
        (s ∷ before, after, ap (◌∷◌ s) q, (misses, all_no), hit)
  ]

  -- Whatever a hop does beside getting stuck, it does by the first step of the current route that
  -- takes the request.
  pub hop-TakesFirst :
      (routes : Routes E) (meta : RequestMeta) (w : Walk)
      → hop E routes meta w ≢ stuck
      → (step : Step E) × TakesFirst routes meta w step
        × (hop E routes meta w ≡ take_step E meta step w)
  unfolding hop
  hop-TakesFirst routes meta w ne = go (get_route E w.current_route routes) refl
    where
      go :
          (o : Option (List (Step E)))
          → get_route E w.current_route routes ≡ o
          → (step : Step E) × TakesFirst routes meta w step
            × (hop E routes meta w ≡ take_step E meta step w)
      go none e = absurd (ne (rw e refl))
      go (some steps) e =
          elim (Option-cases (find E (λ s. matches E s meta w.path w.query) steps)) [
            | inl f ↦ absurd (ne (rw (e, f) refl))
            | inr (step, f) ↦
                let (before, after, q, all_no, hit) =
                  find-some (λ s. matches E s meta w.path w.query) steps {step = step} f in
                (step, (before, after, e ∙ ap some q, all_no, hit), rw (e, f) refl)
          ]

  -- A decision takes at most sixteen hops: after fewer jumps the walk is stuck and nothing is found,
  -- or a step decides; after sixteen jumps nothing is found. The outcome has the path, the query and
  -- the header operations of the state in which the walk ends.
  pub decide-Ends :
      (routes : Routes E) (name : Bytes) (meta : RequestMeta)
      → Ends 16 routes meta (start name meta) (decide E routes name meta)
  unfolding decide
  decide-Ends routes name meta = walk-Ends 16 routes meta (start name meta)

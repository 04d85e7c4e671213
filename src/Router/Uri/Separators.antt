-- ===== src/Router/Uri/Separators.antt =====
-- crates/buran-router/src/uri.rs: byte strings split at a separator.
use buran.Prelude.{ℕ, ◌≡◌, ◌≢◌, refl, false, [], ◌∷◌, ◌++◌, ◌==◌, ==_refl, Bytes, Without, arith}
use buran.Router.Uri.{split}

module _ (sep : ℕ) where
  pub differs : {b : ℕ} → b ≢ sep → (b == sep) ≡ false
  differs ne = ground (arith, ne)

  pub split-Without : (p : Bytes) → Without sep p → split sep p ≡ p ∷ []
  unfolding split
  split-Without [] h = refl
  split-Without (b ∷ p) (ne, h) = rw (differs ne, split-Without p h) refl

  pub split-append : (p q : Bytes) → Without sep p → split sep (p ++ (sep ∷ q)) ≡ p ∷ split sep q
  unfolding split
  split-append [] q h = rw (==_refl sep) refl
  split-append (b ∷ p) q (ne, h) = rw (differs ne, split-append p q h) refl

-- ===== src/Router/Routes/Separators.antt =====
-- crates/buran-router/src/routes.rs: byte strings split once, at the first separator.
use buran.Prelude.{ℕ, ◌≡◌, refl, none, some, [], ◌∷◌, ◌++◌, ==_refl, Bytes, Without}
use buran.Router.Uri.Separators.{differs}
use buran.Router.Routes.{split_at_first}

module _ (sep : ℕ) where
  pub split_at_first-append :
      (p q : Bytes) → Without sep p → split_at_first sep (p ++ (sep ∷ q)) ≡ (p, some q)
  unfolding split_at_first
  split_at_first-append [] q h = rw (==_refl sep) refl
  split_at_first-append (b ∷ p) q (ne, h) = rw (differs sep ne, split_at_first-append p q h) refl

  pub split_at_first-Without : (p : Bytes) → Without sep p → split_at_first sep p ≡ (p, none)
  unfolding split_at_first
  split_at_first-Without [] h = refl
  split_at_first-Without (b ∷ p) (ne, h) = rw (differs sep ne, split_at_first-Without p h) refl

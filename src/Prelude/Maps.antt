-- ===== src/Prelude/Maps.antt =====
-- Finite maps with numbers for keys (`HashMap<u32, _>`), as association lists.
use Prim.Native.Nat.{ℕ, suc}
use mathlib.Core.Path.{◌≡◌, refl, sym, ap, ◌∙◌}
use mathlib.Core.Logic.{◌≢◌, ◌⊎◌, inl, inr}
use mathlib.Core.List.{List, [], ◌∷◌}
use mathlib.Core.Option.{Option, none, some}
use native.Mathlib.Omega.{arith}
use buran.Prelude.Tests.{◌==◌, if◌then◌else◌, ==_iff, ==_refl, Bool-cases}
use buran.Prelude.Lists.{length}

abbrev pub Map {ℓ} : Type ℓ → Type ℓ
Map A = List (ℕ × A)

module _ {ℓ} {A : Type ℓ} where
  unfoldable pub get : ℕ → Map A → Option A
  get k [] = none
  get k ((j, a) ∷ m) = if k == j then some a else get k m

  unfoldable pub remove : ℕ → Map A → Map A
  remove k [] = []
  remove k ((j, a) ∷ m) = let rest = remove k m in if k == j then rest else (j, a) ∷ rest

  abbrev pub insert : ℕ → A → Map A → Map A
  insert k a m = (k, a) ∷ remove k m

  -- No key stands twice.
  abbrev pub Distinct : Map A → Type ℓ
  Distinct [] = Unit
  Distinct ((k, a) ∷ m) = (get k m ≡ none) × Distinct m

  pub get-remove : (k : ℕ) (m : Map A) → get k (remove k m) ≡ none
  unfolding get remove
  get-remove k [] = refl
  get-remove k ((j, a) ∷ m) = ground (arith, get-remove k m)

  pub get-remove_other : (k j : ℕ) (m : Map A) → k ≢ j → get k (remove j m) ≡ get k m
  unfolding get remove
  get-remove_other k j [] ne = refl
  get-remove_other k j ((i, a) ∷ m) ne = ground (arith, get-remove_other k j m ne)

  pub get-insert : (k : ℕ) (a : A) (m : Map A) → get k (insert k a m) ≡ some a
  unfolding get
  get-insert k a m = rw (==_refl k) refl

  pub get-insert_other : (k j : ℕ) (a : A) (m : Map A) → k ≢ j → get k (insert j a m) ≡ get k m
  unfolding get
  get-insert_other k j a m ne = ground (arith, get-remove_other k j m ne)

  get-remove-none : (k j : ℕ) (m : Map A) → get k m ≡ none → get k (remove j m) ≡ none
  unfolding get remove
  get-remove-none k j [] h = refl
  get-remove-none k j ((i, a) ∷ m) h = ground (arith, get-remove-none k j m, h)

  pub Distinct-remove : (k : ℕ) (m : Map A) → Distinct m → Distinct (remove k m)
  unfolding remove
  Distinct-remove k [] d = tt
  Distinct-remove k ((j, a) ∷ m) d = elim (Bool-cases (k == j)) [
    | inl e ↦ rw e (Distinct-remove k m d.1)
    | inr e ↦ rw e (get-remove-none j k m d.0, Distinct-remove k m d.1)
  ]

  pub Distinct-insert : (k : ℕ) (a : A) (m : Map A) → Distinct m → Distinct (insert k a m)
  Distinct-insert k a m d = (get-remove k m, Distinct-remove k m d)

  pub remove_absent : (k : ℕ) (m : Map A) → get k m ≡ none → remove k m ≡ m
  unfolding get remove
  remove_absent k [] h = refl
  remove_absent k ((j, a) ∷ m) h = ground (arith, remove_absent k m, h)

  -- Removing a key that is there takes one entry off.
  pub length-remove :
      (k : ℕ) (m : Map A) {a : A}
      → Distinct m
      → get k m ≡ some a
      → suc (length (remove k m)) ≡ length m
  unfolding get remove
  length-remove k [] {a} d h = absurd (cc h)
  length-remove k ((j, b) ∷ m) {a} d h = elim (Bool-cases (k == j)) [
    | inl e ↦
        let same : k ≡ j = (==_iff k j).0 e in
        rw e (ap (λ x. suc (length x)) (remove_absent k m (ap (λ i. get i m) same ∙ d.0)))
    | inr e ↦ rw e (ap suc (length-remove k m {a = a} d.1 (rw e at h)))
  ]

  pub length-insert_absent :
      (k : ℕ) (a : A) (m : Map A) → get k m ≡ none → length (insert k a m) ≡ suc (length m)
  length-insert_absent k a m h = ap (λ x. suc (length x)) (remove_absent k m h)

  pub length-insert_present :
      (k : ℕ) (a : A) (m : Map A) {b : A}
      → Distinct m
      → get k m ≡ some b
      → length (insert k a m) ≡ length m
  length-insert_present k a m {b} d h = length-remove k m {a = b} d h

  -- Where an entry of a map after an insertion comes from.
  pub get-insert-cases :
      (k j : ℕ) (a : A) (m : Map A) {b : A}
      → get k (insert j a m) ≡ some b
      → ((k ≡ j) × (a ≡ b)) ⊎ ((k ≢ j) × (get k m ≡ some b))
  get-insert-cases k j a m {b} h = elim (Bool-cases (k == j)) [
    | inl same ↦
        let e : k ≡ j = (==_iff k j).0 same in
        inl (e, cc (sym (ap (λ i. get i (insert j a m)) e ∙ get-insert j a m) ∙ h))
    | inr differs ↦
        let ne : k ≢ j = ground (arith, differs) in inr (ne, sym (get-insert_other k j a m ne) ∙ h)
  ]

  pub get-remove-cases :
      (k j : ℕ) (m : Map A) {b : A} → get k (remove j m) ≡ some b → (k ≢ j) × (get k m ≡ some b)
  get-remove-cases k j m {b} h =
      let ne : k ≢ j = λ e. cc (sym (ap (λ i. get i (remove j m)) e ∙ get-remove j m) ∙ h) in
      (ne, sym (get-remove_other k j m ne) ∙ h)

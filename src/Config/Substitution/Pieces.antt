-- ===== src/Config/Substitution/Pieces.antt =====
-- crates/buran-config/src/subst.rs, expand: every text is one of literals and variables.
use buran.Prelude.{
  put_before, and_false, ℕ, zero, suc, ◌≡◌, ◌≢◌, ◌<◌, refl, sym, ap, ap₂, ◌∙◌, true, false,
  Bool-cases, inl, inr, Option, none, some, List, [], ◌∷◌, ◌++◌, ◌==◌, ==_iff, Bytes, length,
  length-append, arith, subst, drop,
}
use buran.Router.Matching.{starts_with}
use buran.Router.Routes.{split_at_first}
use buran.Config.Substitution.{Env, opening, split_open, expand}
use buran.Config.Substitution.Expansion.{
  Piece, Tail, plain, unclosed, HasNoOpening, HasNoClosing, ArePieces, IsTail, written, expected,
  expand-written,
}

-- What a search for `${` says of the text.
abbrev Opens : Bytes → Option (Bytes × Bytes) → Type 0
Opens v none = HasNoOpening v
Opens v (some (before, after)) = HasNoOpening before × (v ≡ before ++ (opening ++ after))

starts_opening :
    (b : ℕ) (bs : Bytes) → starts_with opening (b ∷ bs) ≡ true → b ∷ bs ≡ opening ++ drop 1 bs
unfolding starts_with
starts_opening b [] h = let e = and_false (b'$' == b) in cc (e, h)
starts_opening b (c ∷ bs) h =
    let first : b'$' ≡ b = ground (arith, h) in
    let second : b'{' ≡ c = ground (arith, h) in ap₂ (λ x y. x ∷ y ∷ bs) (sym first) (sym second)

shorter_start :
    (b : ℕ) (v w : Bytes)
    → starts_with opening (b ∷ (v ++ w)) ≡ false
    → starts_with opening (b ∷ v) ≡ false
unfolding starts_with
shorter_start b [] w h = and_false (b'$' == b)
shorter_start b (c ∷ v) w h = h

Opens-step :
    (b : ℕ) (bs : Bytes) (o : Option (Bytes × Bytes))
    → starts_with opening (b ∷ bs) ≡ false
    → Opens bs o
    → Opens (b ∷ bs) (put_before b o)
Opens-step b bs none first h = (first, h)
Opens-step b bs (some (before, after)) first (h, e) = (
  (
    shorter_start b before (opening ++ after)
        (ap (λ v. starts_with opening (b ∷ v)) (sym e) ∙ first),
    h,
  ),
  ap (◌∷◌ b) e,
)

split_open-Opens : (v : Bytes) → Opens v (split_open v)
unfolding split_open
split_open-Opens [] = tt
split_open-Opens (b ∷ bs) = elim (Bool-cases (starts_with opening (b ∷ bs))) [
  | inl found ↦ rw found (tt, starts_opening b bs found)
  | inr first ↦ rw first (Opens-step b bs (split_open bs) first (split_open-Opens bs))
]

abbrev Closes : Bytes → Bytes × Option Bytes → Type 0
Closes v (name, none) = HasNoClosing v × (name ≡ v)
Closes v (name, some rest) = HasNoClosing name × (v ≡ name ++ (b'}' ∷ rest))

Closes-step :
    (b : ℕ) (v : Bytes) (cut : Bytes × Option Bytes)
    → b ≢ b'}'
    → Closes v cut
    → Closes (b ∷ v) (b ∷ cut.0, cut.1)
Closes-step b v (name, none) ne (h, e) = ((ne, h), ap (◌∷◌ b) e)
Closes-step b v (name, some rest) ne (h, e) = ((ne, h), ap (◌∷◌ b) e)

split_at_first-Closes : (v : Bytes) → Closes v (split_at_first b'}' v)
unfolding split_at_first
split_at_first-Closes [] = (tt, refl)
split_at_first-Closes (b ∷ v) = elim (Bool-cases (b == b'}')) [
  | inl same ↦ rw same (tt, ap (λ c. c ∷ v) ((==_iff b b'}').0 same))
  | inr other ↦ rw other (
      Closes-step b v (split_at_first b'}' v) (λ e. ground (arith, other, e))
        (split_at_first-Closes v))
]

-- A way to read a text as literals and variables.
pub record Reading (input : Bytes) : Type 0 where
  pub pieces : List Piece
  pub tail : Tail
  pub well_formed : ArePieces pieces × IsTail tail
  pub same : input ≡ written pieces tail

abbrev read_closed :
    (before after : Bytes) (cut : Bytes × Option Bytes)
    → HasNoOpening before
    → Closes after cut
    → ((rest : Bytes) → length rest < length (before ++ (opening ++ after)) → Reading rest)
    → Reading (before ++ (opening ++ after))
read_closed before after (name, none) h (k, e) again = record {
  pieces = [];
  tail = unclosed before after;
  well_formed = (tt, (h, k));
  same = refl;
}
read_closed before after (name, some rest) h (k, e) again =
    let r = again rest (
      omega (
        arith,
        length-append before (opening ++ after),
        ap length e,
        length-append name (b'}' ∷ rest),
      )) in
    record {
      pieces = record { literal = before; name = name } ∷ r.pieces;
      tail = r.tail;
      well_formed = (((h, k), r.well_formed.0), r.well_formed.1);
      same = ap (λ v. before ++ (opening ++ v)) (e ∙ ap (λ v. name ++ (b'}' ∷ v)) r.same);
    }

reading : (fuel : ℕ) (input : Bytes) → length input < fuel → Reading input
reading zero input enough = elim enough [ ]
reading (suc fuel) input enough =
    opened (split_open input) (split_open-Opens input) (λ rest small. reading fuel rest small)
  where
    opened :
        (o : Option (Bytes × Bytes))
        → Opens input o
        → ((rest : Bytes) → length rest < fuel → Reading rest)
        → Reading input
    opened none h again = record {
      pieces = [];
      tail = plain input;
      well_formed = (tt, h);
      same = refl;
    }
    opened (some (before, after)) (h, e) again = subst Reading (sym e) (
        read_closed before after (split_at_first b'}' after) h (split_at_first-Closes after)
          (λ rest small. again rest (omega (arith, small, ap length e, enough))))

-- Every text is read as literals and variables, and expands to the literals and the values in
-- order: values are not looked through, an unclosed variable stays, and the first variable that is
-- not set is reported with the path.
pub expand-Reading :
    (env : Env) (path input : Bytes)
    → (r : Reading input) × (expand env path input ≡ some (expected env path r.pieces r.tail))
expand-Reading env path input =
    let r = reading (suc (length input)) input (omega arith) in
    (
      r,
      ap (expand env path) r.same
          ∙ expand-written env path r.pieces r.tail r.well_formed.0 r.well_formed.1,
    )

-- ===== src/Config/Loading/Anchors.antt =====
-- crates/buran-config/src/lib.rs, reject_anchors: the first line with an anchor.
use buran.Prelude.{
  ℕ, suc, ◌+◌, ◌≡◌, refl, ap, Option, none, some, List, [], ◌∷◌, ◌++◌, length, All, Bool-cases, inl,
  inr, arith,
}
use buran.Config.Loading.{Text, no_quotes, has_anchor, code_of, find_anchor, reject_anchors, lines}
use buran.Config.Loading.Marks.{AnchorOf, IsFree}
use buran.Config.Loading.Scan.{has_anchor-AnchorOf, has_anchor-IsFree}

-- The first line with an anchor: its number, and that the lines before it have none.
pub record FirstAnchor (start number : ℕ) (ls : List Text) : Type 0 where
  pub before : List Text
  pub line : Text
  pub after : List Text
  pub place : ls ≡ before ++ (line ∷ after)
  pub counted : number ≡ start + length before
  pub free : All IsFree before
  pub anchor : AnchorOf line

abbrev pub Found : ℕ → List Text → Option ℕ → Type 0
Found start ls none = All IsFree ls
Found start ls (some number) = FirstAnchor start number ls

Found-step :
    (i : ℕ) (line : Text) (ls : List Text) (o : Option ℕ)
    → IsFree line
    → Found (suc i) ls o
    → Found i (line ∷ ls) o
Found-step i line ls none free found = (free, found)
Found-step i line ls (some number) free found = record {
  before = line ∷ found.before;
  line = found.line;
  after = found.after;
  place = ap (◌∷◌ line) found.place;
  counted = omega (arith, found.counted);
  free = (free, found.free);
  anchor = found.anchor;
}

find_anchor-Found : (i : ℕ) (ls : List Text) → Found i ls (find_anchor i ls)
unfolding find_anchor
find_anchor-Found i [] = tt
find_anchor-Found i (line ∷ ls) = elim (Bool-cases (has_anchor no_quotes b' ' (code_of line))) [
  | inl e ↦ rw e (record {
    before = [];
    line = line;
    after = ls;
    place = refl;
    counted = omega arith;
    free = tt;
    anchor = has_anchor-AnchorOf line e;
  })
  | inr e ↦ rw e (
      Found-step i line ls (find_anchor (suc i) ls) (has_anchor-IsFree line e)
        (find_anchor-Found (suc i) ls))
]

pub reject_anchors-Found : (yaml : Text) → Found 1 (lines yaml) (reject_anchors yaml)
unfolding reject_anchors
reject_anchors-Found yaml = find_anchor-Found 1 (lines yaml)

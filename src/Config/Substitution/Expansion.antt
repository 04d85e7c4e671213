-- ===== src/Config/Substitution/Expansion.antt =====
-- crates/buran-config/src/subst.rs, expand: what the texts become.
use buran.Prelude.{
  Without, and_false, ℕ, zero, suc, ◌≡◌, ◌<◌, refl, false, Option, none, some, List, [], ◌∷◌, ◌++◌,
  ◌==◌, Bytes, length, length-append, arith,
}
use buran.Router.Routes.Separators.{split_at_first-append, split_at_first-Without}
use buran.Router.Matching.{starts_with}
use buran.Config.Substitution.{
  Env, Substituted, substituted, env_missing, opening, split_open, trim_all, text_before,
  expand_name, expand_loop, expand,
}

-- No `${` in a text.
abbrev pub HasNoOpening : Bytes → Type 0
HasNoOpening [] = Unit
HasNoOpening (b ∷ bs) = (starts_with opening (b ∷ bs) ≡ false) × HasNoOpening bs

abbrev pub HasNoClosing : Bytes → Type 0
HasNoClosing = Without b'}'

-- A text and the variable behind it.
pub record Piece : Type 0 where
  pub literal : Bytes
  pub name : Bytes

-- The end of a text; a `${` that is not closed counts as text.
pub data Tail : Type 0 where
  plain : Bytes → Tail
  unclosed : Bytes → Bytes → Tail

abbrev pub IsPiece : Piece → Type 0
IsPiece p = HasNoOpening p.literal × HasNoClosing p.name

abbrev pub ArePieces : List Piece → Type 0
ArePieces [] = Unit
ArePieces (p ∷ ps) = IsPiece p × ArePieces ps

abbrev pub IsTail : Tail → Type 0
IsTail (plain text) = HasNoOpening text
IsTail (unclosed text rest) = HasNoOpening text × HasNoClosing rest

abbrev pub tail_text : Tail → Bytes
tail_text (plain text) = text
tail_text (unclosed text rest) = text ++ (opening ++ rest)

abbrev pub written : List Piece → Tail → Bytes
written [] t = tail_text t
written (p ∷ ps) t = p.literal ++ (opening ++ (p.name ++ (b'}' ∷ written ps t)))

abbrev pub piece_value : Bytes → Piece → Option Bytes → Substituted Bytes → Substituted Bytes
piece_value path p (some val) rest = text_before (p.literal ++ val) rest
piece_value path p none rest = env_missing p.name (trim_all b'.' (trim_all b'$' path))

-- Each variable is replaced by its value, and values are not looked through; the first one that is
-- not set is reported.
abbrev pub expected : Env → Bytes → List Piece → Tail → Substituted Bytes
expected env path [] t = substituted (tail_text t)
expected env path (p ∷ ps) t = piece_value path p (env p.name) (expected env path ps t)

split_open-plain : (v : Bytes) → HasNoOpening v → split_open v ≡ none
unfolding split_open
split_open-plain [] h = refl
split_open-plain (b ∷ bs) (first, h) = rw (first, split_open-plain bs h) refl

split_open-append : (v w : Bytes) → HasNoOpening v → split_open (v ++ (opening ++ w)) ≡ some (v, w)
unfolding split_open starts_with
split_open-append [] w h = refl
split_open-append (b ∷ []) w (first, h) = rw (and_false (b'$' == b)) refl
split_open-append (b ∷ (c ∷ bs)) w (first, h) = rw (first, split_open-append (c ∷ bs) w h) refl

expand_loop-tail :
    (fuel : ℕ) (env : Env) (path : Bytes) (t : Tail)
    → IsTail t
    → expand_loop (suc fuel) env path (tail_text t) ≡ some (substituted (tail_text t))
unfolding expand_loop
expand_loop-tail fuel env path (plain text) h = rw (split_open-plain text h) refl
expand_loop-tail fuel env path (unclosed text rest) (h, k) =
    rw (split_open-append text rest h, split_at_first-Without b'}' rest k) refl

expand_name-piece :
    (path rest : Bytes) (p : Piece) (o : Option Bytes) (again : Bytes → Option (Substituted Bytes))
    (value : Substituted Bytes)
    → again rest ≡ some value
    → expand_name path p.literal p.name rest o again ≡ some (piece_value path p o value)
unfolding expand_name
expand_name-piece path rest p (some val) again value e = rw e refl
expand_name-piece path rest p none again value e = refl

expand_loop-pieces :
    (fuel : ℕ) (env : Env) (path : Bytes) (ps : List Piece) (t : Tail)
    → ArePieces ps
    → IsTail t
    → length (written ps t) < fuel
    → expand_loop fuel env path (written ps t) ≡ some (expected env path ps t)
unfolding expand_loop
expand_loop-pieces zero env path ps t pieces tail enough = elim enough [ ]
expand_loop-pieces (suc fuel) env path [] t pieces tail enough =
    expand_loop-tail fuel env path t tail
expand_loop-pieces (suc fuel) env path (p ∷ ps) t ((h, k), pieces) tail enough =
    let rest = written ps t in
    rw
      (
        split_open-append p.literal (p.name ++ (b'}' ∷ rest)) h,
        split_at_first-append b'}' p.name rest k,
      )
      (expand_name-piece path rest p (env p.name) _ (expected env path ps t) (
        expand_loop-pieces fuel env path ps t pieces tail (
          omega (
            arith,
            enough,
            length-append p.literal (opening ++ (p.name ++ (b'}' ∷ rest))),
            length-append p.name (b'}' ∷ rest),
          ))))

-- A text of literals and variables in braces becomes the literals and the values in order, with
-- values not looked through and an unclosed variable left as it is; the first variable that is not
-- set is reported with the path.
pub expand-written :
    (env : Env) (path : Bytes) (ps : List Piece) (t : Tail)
    → ArePieces ps
    → IsTail t
    → expand env path (written ps t) ≡ some (expected env path ps t)
unfolding expand
expand-written env path ps t pieces tail =
    expand_loop-pieces (suc (length (written ps t))) env path ps t pieces tail (omega arith)

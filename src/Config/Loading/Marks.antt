-- ===== src/Config/Loading/Marks.antt =====
-- crates/buran-config/src/lib.rs, reject_anchors: what an anchor of a line is, apart from the code.
use buran.Prelude.{
  ℕ, ◌≡◌, ◌==◌, ◌&&◌, ◌⊎◌, if◌then◌else◌, Bool, true, false, Option, none, some, [], ◌∷◌, ◌++◌,
}
use buran.Config.Loading.{Text, is_whitespace}

-- Whether a text ends inside quotes. A quote of the other kind does not end them.
pub data Quoting : Type 0 where
  outside single double : Quoting

abbrev pub quote : Quoting → ℕ → Quoting
quote outside c = if c == b'\'' then single else if c == b'"' then double else outside
quote single c = if c == b'\'' then outside else single
quote double c = if c == b'"' then outside else double

abbrev pub quoting : Quoting → Text → Quoting
quoting k [] = k
quoting k (c ∷ cs) = quoting (quote k c) cs

abbrev pub IsMark : ℕ → Type 0
IsMark c = (c ≡ b'&') ⊎ (c ≡ b'*')

-- A node starts behind a blank, a bracket, a brace, a comma or a colon.
abbrev pub StartsNode : ℕ → Type 0
StartsNode prev =
    (is_whitespace prev ≡ true)
    ⊎ ((prev ≡ b'[') ⊎ ((prev ≡ b'{') ⊎ ((prev ≡ b',') ⊎ (prev ≡ b':'))))

abbrev pub last_of : ℕ → Text → ℕ
last_of prev [] = prev
last_of prev (c ∷ cs) = last_of c cs

abbrev pub first_visible : Text → Option ℕ
first_visible [] = none
first_visible (c ∷ cs) = let rest = first_visible cs in if is_whitespace c then rest else some c

abbrev pub is_hash : Option ℕ → Bool
is_hash none = false
is_hash (some c) = c == b'#'

abbrev pub opens_comment : ℕ → Text → Bool
opens_comment c [] = false
opens_comment c (d ∷ ds) = c == b' ' && d == b'#'

-- No `#` stands behind a space.
abbrev pub HasNoComment : Text → Type 0
HasNoComment [] = Unit
HasNoComment (c ∷ cs) = (opens_comment c cs ≡ false) × HasNoComment cs

-- An anchor or alias of a line, as the scan takes it: a `&` or `*` at the start of a node. What
-- stands before it has its quotes closed, each quote character counted, and begins no comment: its
-- first visible character is no `#`, and no `#` is behind a space, in quotes or not.
pub record AnchorOf (line : Text) : Type 0 where
  pub front : Text
  pub mark : ℕ
  pub back : Text
  pub place : line ≡ front ++ (mark ∷ back)
  pub marks : IsMark mark
  pub node : StartsNode (last_of b' ' front)
  pub unquoted : quoting outside front ≡ outside
  pub code_line : is_hash (first_visible front) ≡ false
  pub code_part : HasNoComment front

-- A line without an anchor or alias.
abbrev pub IsFree : Text → Type 0
IsFree line = AnchorOf line → ⊥

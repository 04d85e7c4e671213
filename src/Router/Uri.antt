-- ===== src/Router/Uri.antt =====
-- crates/buran-router/src/uri.rs: percent-decoding and the normalisation of paths.
pub mod Segments
pub mod Separators
pub mod Dates
pub mod Normal
pub mod Percent
use buran.Prelude.{
  between, ℕ, ◌+◌, ◌-◌, ◌*◌, Bool, true, false, ◌&&◌, ◌||◌, Option, none, some, List, [], ◌∷◌, ◌++◌,
  reverse, leb, ◌==◌, if◌then◌else◌, Bytes, is_empty,
}

unfoldable pub hex : ℕ → Option ℕ
hex b =
    if between b'0' b'9' b
    then some (b - b'0')
    else if between b'a' b'f' b
    then some (b - b'a' + 10)
    else if between b'A' b'F' b
    then some (b - b'A' + 10)
    else none

abbrev both_digits : Option ℕ → Option ℕ → Option ℕ
both_digits (some hi) (some lo) = some (hi * 16 + lo)
both_digits _ _ = none

-- The byte that three bytes `%XX` stand for.
unfoldable pub escape : ℕ → ℕ → ℕ → Option ℕ
unfolding hex
escape a b c = if a == b'%' then both_digits (hex b) (hex c) else none

unfoldable pub percent_decode : Bytes → Bytes
unfolding escape
percent_decode (a ∷ b ∷ c ∷ rest) = elim (escape a b c) [
  | some v ↦ v ∷ percent_decode rest
  | none ↦ a ∷ percent_decode (b ∷ c ∷ rest)
]
percent_decode (a ∷ b ∷ []) = a ∷ b ∷ []
percent_decode (a ∷ []) = a ∷ []
percent_decode [] = []

abbrev pub cons_head : ℕ → List Bytes → List Bytes
cons_head b [] = (b ∷ []) ∷ []
cons_head b (s ∷ ss) = (b ∷ s) ∷ ss

-- `slice.split(|&b| b == sep)`.
unfoldable pub split : ℕ → Bytes → List Bytes
split sep [] = [] ∷ []
split sep (b ∷ bs) = let rest = split sep bs in if b == sep then [] ∷ rest else cons_head b rest

abbrev pub is_dot : Bytes → Bool
is_dot (a ∷ []) = a == b'.'
is_dot _ = false

abbrev pub is_dot_dot : Bytes → Bool
is_dot_dot (a ∷ b ∷ []) = a == b'.' && b == b'.'
is_dot_dot _ = false

abbrev pub pop : List Bytes → List Bytes
pop [] = []
pop (s ∷ ss) = ss

-- One segment; the top of the stack stands first.
unfoldable pub push_segment : List Bytes → Bytes → List Bytes
push_segment stack s =
    if is_empty s || is_dot s then stack else if is_dot_dot s then pop stack else s ∷ stack

unfoldable pub resolve : List Bytes → List Bytes → List Bytes
unfolding push_segment
resolve stack [] = stack
resolve stack (s ∷ ss) = resolve (push_segment stack s) ss

unfoldable pub join : List Bytes → Bytes
join [] = []
join (s ∷ ss) = b'/' ∷ (s ++ join ss)

unfoldable pub ends_with_slash : Bytes → Bool
ends_with_slash [] = false
ends_with_slash (b ∷ []) = b == b'/'
ends_with_slash (b ∷ (c ∷ bs)) = ends_with_slash (c ∷ bs)

unfoldable pub normalize_path : Bytes → Bytes
unfolding percent_decode split resolve join ends_with_slash
normalize_path path =
    let decoded = percent_decode path in
    let out = join (reverse (resolve [] (split b'/' decoded))) in
    if is_empty out || ends_with_slash decoded then out ++ (b'/' ∷ []) else out

-- ===== src/Router/Matching.antt =====
-- crates/buran-router/src/matching.rs: patterns of `match` blocks and address sets. The regex
-- crate is a parameter. A `&str` pattern is its UTF-8 bytes.
pub mod Wildcards
pub mod Sets
use buran.Prelude.{
  ℕ, zero, suc, ◌+◌, ◌-◌, ◌*◌, ◌/◌, ◌%◌, ◌^◌, Bool, true, false, not, ◌&&◌, ◌||◌, Option, none,
  some, List, [], ◌∷◌, ◌++◌, map, ltb, leb, ◌==◌, if◌then◌else◌, Bytes, length, take, drop, any,
  is_empty, bytes_eq, codes, bit_and,
}
use buran.Router.Uri.{split}
use mathlib.Core.Option.{map as map_option}

-- What the router uses of `regex::bytes`: `build` has the size limits of `build_bounded_regex`.
pub record RegexEngine : Type 1 where
  pub Regex : Type 0
  pub build : Bytes → Option Regex
  pub is_match : Regex → Bytes → Bool
  pub escape : Bytes → Bytes

pub data Pattern (R : Type 0) : Type 0 where
  exact : Bytes → Pattern R
  prefix : Bytes → Pattern R
  suffix : Bytes → Pattern R
  circumfix : Bytes → Bytes → Pattern R
  any_value : Pattern R
  regex : R → Pattern R

unfoldable pub starts_with : Bytes → Bytes → Bool
starts_with [] v = true
starts_with (b ∷ p) [] = false
starts_with (b ∷ p) (c ∷ v) = b == c && starts_with p v

unfoldable pub ends_with : Bytes → Bytes → Bool
ends_with s v = leb (length s) (length v) && bytes_eq s (drop (length v - length s) v)

unfoldable pub to_lower : ℕ → ℕ
to_lower b = if leb b'A' b && leb b b'Z' then b + 32 else b

abbrev pub to_ascii_lowercase : Bytes → Bytes
to_ascii_lowercase v = map to_lower v

abbrev pub lower_if : Bool → Bytes → Bytes
lower_if true v = to_ascii_lowercase v
lower_if false v = v

abbrev star : ℕ
star = b'*'

unfoldable pub count_stars : Bytes → ℕ
count_stars [] = 0
count_stars (b ∷ bs) = (if b == star then 1 else 0) + count_stars bs

-- What stands before the first star, and what stands behind it.
unfoldable pub around_star : Bytes → Bytes × Bytes
around_star [] = ([], [])
around_star (b ∷ bs) =
    let (before, after) = around_star bs in if b == star then ([], bs) else (b ∷ before, after)

abbrev one_star : {R : Type 0} → Bytes × Bytes → Pattern R
one_star ([], []) = any_value
one_star ([], s ∷ ss) = suffix (s ∷ ss)
one_star (p ∷ ps, []) = prefix (p ∷ ps)
one_star (p ∷ ps, s ∷ ss) = circumfix (p ∷ ps) (s ∷ ss)

-- `strip_prefix` of one character.
unfoldable pub strip : ℕ → Bytes → Option Bytes
strip c [] = none
strip c (b ∷ bs) = if b == c then some bs else none

abbrev join_with : Bytes → List Bytes → Bytes
join_with sep [] = []
join_with sep (s ∷ []) = s
join_with sep (s ∷ (t ∷ ss)) = s ++ (sep ++ join_with sep (t ∷ ss))

-- A set of patterns or of networks: a value must hit no negative one, and a positive one if
-- there is any.
pub record Signed (A : Type 0) : Type 0 where
  pub positive : List A
  pub negative : List A

-- `PatternSet::matches` and `CidrSet::matches`, for the test of one member.
unfoldable pub admits : {A : Type 0} → (A → Bool) → Signed A → Bool
admits test set =
    if any test set.negative
    then false
    else if is_empty set.positive
    then true
    else any test set.positive

infixl 10 ◌>>=◌
abbrev pub ◌>>=◌ : {A B : Type 0} → Option A → (A → Option B) → Option B
none >>= f = none
some a >>= f = f a

-- Both `compile` loops: a leading `!` negates an entry, and the first bad entry is the result.
abbrev pub signed_entry : Bytes → Option Bytes → Bool × Bytes
signed_entry raw none = (false, raw)
signed_entry raw (some rest) = (true, rest)

unfoldable pub add_signed : {A : Type 0} → Bool → A → Signed A → Signed A
add_signed true a set = record set { negative = a ∷ set.negative }
add_signed false a set = record set { positive = a ∷ set.positive }

unfoldable pub compile_signed : {A : Type 0} → (Bytes → Option A) → List Bytes → Option (Signed A)
unfolding strip
compile_signed compile_one [] = some (record { positive = []; negative = [] })
compile_signed compile_one (raw ∷ raws) = do
  let (negated, body) = signed_entry raw (strip b'!' raw)
  a ← compile_one body
  set ← compile_signed compile_one raws
  some (add_signed negated a set)

module _ (E : RegexEngine) where
  abbrev regex_of : Bytes → Option (Pattern E.Regex)
  regex_of source = map_option regex (E.build source)

  abbrev pub wildcard : Bytes → ℕ → Option (Pattern E.Regex)
  wildcard body zero = some (exact body)
  wildcard body (suc zero) = some (one_star (around_star body))
  wildcard body (suc (suc _)) =
      regex_of (codes "^" ++ (join_with (codes ".*") (map E.escape (split star body)) ++ codes "$"))

  -- A body with no leading `~`, by the number of its stars.
  unfoldable pub compile_wildcard : Bytes → Option (Pattern E.Regex)
  compile_wildcard body = wildcard body (count_stars body)

  abbrev pub compile_body : Bool → Bytes → Option Bytes → Option (Pattern E.Regex)
  compile_body ci body (some re) = regex_of (if ci then codes "(?i)" ++ re else re)
  compile_body ci body none = compile_wildcard (lower_if ci body)

  -- `none` is a regex that does not build.
  unfoldable pub compile_pattern : Bool → Bytes → Option (Pattern E.Regex)
  unfolding compile_wildcard strip
  compile_pattern ci body = compile_body ci body (strip b'~' body)

  unfoldable pub pattern_matches : Bytes → Pattern E.Regex → Bool
  unfolding bytes_eq starts_with ends_with
  pattern_matches value (exact p) = bytes_eq value p
  pattern_matches value (prefix p) = starts_with p value
  pattern_matches value (suffix s) = ends_with s value
  pattern_matches value (circumfix p s) =
      leb (length p + length s) (length value) && (starts_with p value && ends_with s value)
  pattern_matches value any_value = true
  pattern_matches value (regex re) = E.is_match re value

  unfoldable pub compile_set : List Bytes → Bool → Option (Signed (Pattern E.Regex))
  compile_set patterns ci = compile_signed (compile_pattern ci) patterns

  unfoldable pub set_matches : Signed (Pattern E.Regex) → Bytes → Bool → Bool
  set_matches set value ci = admits (pattern_matches (lower_if ci value)) set

-- Addresses by their octets.
pub data IpAddr : Type 0 where
  v4 v6 : Bytes → IpAddr

pub record Cidr : Type 0 where
  pub addr : IpAddr
  pub prefix_len : ℕ

-- The octet at an index; an index out of range is a panic in the source.
abbrev pub octet : Bytes → ℕ → ℕ
octet [] i = 0
octet (b ∷ bs) zero = b
octet (b ∷ bs) (suc i) = octet bs i

unfoldable pub prefix_eq : Bytes → Bytes → ℕ → Bool
prefix_eq a b n =
    let full = n / 8 in
    let bits = n % 8 in
    let mask = 255 - 255 / 2 ^ bits in
    if not (bytes_eq (take full a) (take full b))
    then false
    else if bits == 0
    then true
    else bit_and (octet a full) mask == bit_and (octet b full) mask

unfoldable pub contains : IpAddr → Cidr → Bool
contains ip net = same_family ip net.addr
  where
    same_family : IpAddr → IpAddr → Bool
    same_family (v4 ip) (v4 net_addr) = prefix_eq ip net_addr net.prefix_len
    same_family (v6 ip) (v6 net_addr) = prefix_eq ip net_addr net.prefix_len
    same_family _ _ = false

unfoldable pub cidr_set_matches : Signed Cidr → IpAddr → Bool
cidr_set_matches set ip = admits (contains ip) set

-- ===== src/Router/Routes/Arguments.antt =====
-- Query arguments in form encoding, and the name part of a `Host` header.
use buran.Prelude.{
  ℕ, ◌/◌, ◌%◌, ◌<◌, ◌≡◌, ◌≢◌, refl, ap, ap₂, ◌∙◌, inl, inr, true, false, ◌==◌, List, [], ◌∷◌, ◌++◌,
  map, arith, Bool-cases, Bytes, AreBytes, All, Without, All-append, is_empty,
}
use buran.Router.Uri.{percent_decode, split}
use buran.Router.Uri.Percent.{percent_encode, unreserved, hex_digit, percent_decode-percent_encode}
use buran.Router.Uri.Separators.{split-Without, split-append}
use buran.Router.Routes.Separators.{split_at_first-append}
use buran.Router.Routes.{
  split_at_first, host_name, decode_component, parse_arg, parse_args, parse_parts, plus_to_space,
}

-- The bytes that percent-encoding leaves: none of them separates arguments or stands for a space.
abbrev IsPlain : ℕ → Type 0
IsPlain b = (b ≢ b'&') × (b ≢ b'=') × (b ≢ b'+')

hex_digit-IsPlain : (n : ℕ) → n < 16 → IsPlain (hex_digit n)
hex_digit-IsPlain n h = ground arith

unreserved-IsPlain : (b : ℕ) → unreserved b ≡ true → IsPlain b
unreserved-IsPlain b h = ground (arith, h)

percent_encode-IsPlain : (p : Bytes) → AreBytes p → All IsPlain (percent_encode p)
unfolding percent_encode
percent_encode-IsPlain [] h = tt
percent_encode-IsPlain (b ∷ bs) (hb, hs) = elim (Bool-cases (unreserved b)) [
  | inl kept ↦ rw kept (unreserved-IsPlain b kept, percent_encode-IsPlain bs hs)
  | inr escaped ↦ rw escaped (
    omega arith,
    (
      hex_digit-IsPlain (b / 16) (omega (arith, hb)),
      (hex_digit-IsPlain (b % 16) (omega arith), percent_encode-IsPlain bs hs),
    ),
  )
]

map-plain : (p : Bytes) → All IsPlain p → map plus_to_space p ≡ p
map-plain [] h = refl
map-plain (b ∷ p) ((h, i, j), hs) = ap₂ (◌∷◌) (ground (arith, j)) (map-plain p hs)

decode_component-percent_encode : (p : Bytes) → AreBytes p → decode_component (percent_encode p) ≡ p
unfolding decode_component
decode_component-percent_encode p h =
    ap percent_decode (map-plain (percent_encode p) (percent_encode-IsPlain p h))
    ∙ percent_decode-percent_encode p h

-- One argument, and a query of arguments, as a client encodes them.
pub encode_arg : Bytes × Bytes → Bytes
encode_arg (name, value) = percent_encode name ++ (b'=' ∷ percent_encode value)

pub encode_args : List (Bytes × Bytes) → Bytes
encode_args [] = []
encode_args (arg ∷ []) = encode_arg arg
encode_args (arg ∷ (next ∷ args)) = encode_arg arg ++ (b'&' ∷ encode_args (next ∷ args))

IsPlain-map : {P Q : ℕ → Type 0} (p : Bytes) → ((b : ℕ) → P b → Q b) → All P p → All Q p
IsPlain-map [] f h = tt
IsPlain-map {P} {Q} (b ∷ p) f (h, hs) = (f b h, IsPlain-map {P = P} {Q = Q} p f hs)

encode_arg-Without :
    (name value : Bytes) → AreBytes name → AreBytes value → Without b'&' (encode_arg (name, value))
unfolding encode_arg
encode_arg-Without name value n v =
    All-append (λ b. b ≢ b'&') (percent_encode name) (b'=' ∷ percent_encode value)
      (IsPlain-map {P = IsPlain} (percent_encode name) (λ b h. h.0) (percent_encode-IsPlain name n))
      (
        omega arith,
        IsPlain-map {P = IsPlain} (percent_encode value) (λ b h. h.0)
            (percent_encode-IsPlain value v),
      )

encode_arg-ne-nil : (name value : Bytes) → is_empty (encode_arg (name, value)) ≡ false
unfolding encode_arg
encode_arg-ne-nil name value = go (percent_encode name)
  where
    go : (p : Bytes) → is_empty (p ++ (b'=' ∷ percent_encode value)) ≡ false
    go [] = refl
    go (b ∷ p) = refl

parse_arg-encode_arg :
    (name value : Bytes)
    → AreBytes name
    → AreBytes value
    → parse_arg (encode_arg (name, value)) ≡ (name, value)
unfolding parse_arg encode_arg
parse_arg-encode_arg name value n v =
    rw
      (split_at_first-append b'=' (percent_encode name) (percent_encode value) (
        IsPlain-map {P = IsPlain} (percent_encode name) (λ b h. h.1)
          (percent_encode-IsPlain name n)))
      (ap₂ (λ a b. (a, b)) (decode_component-percent_encode name n)
        (decode_component-percent_encode value v))

abbrev pub ArePairs : List (Bytes × Bytes) → Type 0
ArePairs = All (λ arg. AreBytes arg.0 × AreBytes arg.1)

parse_parts-cons :
    (name value : Bytes) (parts : List Bytes)
    → AreBytes name
    → AreBytes value
    → parse_parts (encode_arg (name, value) ∷ parts) ≡ (name, value) ∷ parse_parts parts
parse_parts-cons name value parts n v =
    rw (encode_arg-ne-nil name value)
      (ap (λ a. a ∷ parse_parts parts) (parse_arg-encode_arg name value n v))

-- The arguments that a client encodes are read back, in their order: names and values may hold any
-- bytes.
pub parse_args-encode_args :
    (args : List (Bytes × Bytes)) → ArePairs args → parse_args (encode_args args) ≡ args
unfolding parse_args encode_args
parse_args-encode_args [] h = refl
parse_args-encode_args ((name, value) ∷ []) ((n, v), h) =
    ap parse_parts
      (split-Without b'&' (encode_arg (name, value)) (encode_arg-Without name value n v))
    ∙ parse_parts-cons name value [] n v
parse_args-encode_args ((name, value) ∷ (next ∷ args)) ((n, v), h) =
    ap parse_parts (
      split-append b'&' (encode_arg (name, value)) (encode_args (next ∷ args))
        (encode_arg-Without name value n v))
    ∙ parse_parts-cons name value (split b'&' (encode_args (next ∷ args))) n v
    ∙ ap (◌∷◌ (name, value)) (parse_args-encode_args (next ∷ args) h)

split_at_first-plain : (sep : ℕ) (p : Bytes) → All (λ b. b ≢ sep) p → (split_at_first sep p).0 ≡ p
unfolding split_at_first
split_at_first-plain sep [] h = refl
split_at_first-plain sep (b ∷ p) (ne, h) =
    let differs : (b == sep) ≡ false = ground (arith, ne) in
    rw differs (ap (◌∷◌ b) (split_at_first-plain sep p h))

-- The port behind a name or behind an address in brackets does not count for the match of a host.
pub host_name-port :
    (b : ℕ) (name port : Bytes)
    → (b ≢ b'['
        → All (λ c. c ≢ b':') (b ∷ name)
        → host_name ((b ∷ name) ++ (b':' ∷ port)) ≡ b ∷ name)
      × (All (λ c. c ≢ b']') name
          → host_name (b'[' ∷ (name ++ (b']' ∷ port))) ≡ b'[' ∷ (name ++ (b']' ∷ [])))
unfolding host_name
host_name-port b name port = (
  (λ ne h.
      let differs : (b == b'[') ≡ false = ground (arith, ne) in
      rw (differs, split_at_first-append b':' (b ∷ name) port h) refl),
  (λ h. rw (split_at_first-append b']' (b'[' ∷ name) port (omega arith, h)) refl),
)

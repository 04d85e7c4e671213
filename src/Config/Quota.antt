-- ===== src/Config/Quota.antt =====
-- crates/buran-config/src/cpu.rs, cgroup_cpu_quota: the cores that the limits of a control group
-- allow. The texts of the files are given, none for a file that cannot be read.
use buran.Prelude.{
  ℕ, ◌+◌, ◌-◌, ◌%◌, ◌^◌, ◌<◌, ◌≤◌, ◌≡◌, refl, ap, ap₂, ◌∙◌, Bool, true, false, ◌&&◌, Option, none,
  some, List, [], ◌∷◌, ◌++◌, ltb, ◌==◌, if◌then◌else◌, All, length, is_empty, bytes_eq, codes,
  arith,
}
use buran.Router.Uri.{cons_head}
use buran.Router.Http.Request.{parse_unsigned, parse_digits}
use buran.Router.Http.Response.{to_decimal, digits}
use buran.Router.Http.Response.Digits.{
  IsDigitOf, digits-IsDigitOf, digits-length, parse_unsigned-to_decimal,
}
use buran.Config.Loading.{Text, is_whitespace}
use buran.Config.Applications.{cores_from_quota}

unfoldable pub blank_pieces : Text → List Text
unfolding is_whitespace
blank_pieces [] = [] ∷ []
blank_pieces (c ∷ cs) =
    let rest = blank_pieces cs in if is_whitespace c then [] ∷ rest else cons_head c rest

abbrev pub some_texts : List Text → List Text
some_texts [] = []
some_texts (word ∷ more) = let rest = some_texts more in if is_empty word then rest else word ∷ rest

-- `split_whitespace`.
unfoldable pub words : Text → List Text
unfolding blank_pieces
words text = some_texts (blank_pieces text)

unfoldable pub trim_text_start : Text → Text
unfolding is_whitespace
trim_text_start [] = []
trim_text_start (c ∷ cs) = let rest = trim_text_start cs in if is_whitespace c then rest else c ∷ cs

unfoldable pub trim_text_end : Text → Text
unfolding is_whitespace
trim_text_end [] = []
trim_text_end (c ∷ cs) =
    let rest = trim_text_end cs in if is_whitespace c && is_empty rest then [] else c ∷ rest

-- An `i64`: whether it is below zero, and its size.
abbrev pub within_bound : ℕ → Bool → Option ℕ → Option (Bool × ℕ)
within_bound bound below_zero (some n) = if ltb n bound then some (below_zero, n) else none
within_bound bound below_zero none = none

unfoldable pub parse_signed : Text → Option (Bool × ℕ)
unfolding parse_unsigned parse_digits
parse_signed [] = none
parse_signed (c ∷ cs) =
    if c == b'-'
    then (if is_empty cs then none else within_bound (2 ^ 63 + 1) true (parse_digits 0 cs))
    else within_bound (2 ^ 63) false (parse_unsigned (c ∷ cs))

-- `as u64`.
abbrev pub as_u64 : Bool × ℕ → ℕ
as_u64 (true, n) = (2 ^ 64 - n) % 2 ^ 64
as_u64 (false, n) = n

abbrev pub cores : Option ℕ → Option ℕ → Option ℕ
cores (some quota) (some period) = cores_from_quota quota period
cores _ _ = none

abbrev pub period_word : List Text → Text
period_word [] = codes "100000"
period_word (period ∷ more) = period

abbrev pub from_v2 : List Text → Option ℕ
from_v2 [] = none
from_v2 (quota ∷ more) =
    if bytes_eq quota (codes "max")
    then none
    else cores (parse_unsigned quota) (parse_unsigned (period_word more))

abbrev pub read_signed : Option Text → Option (Bool × ℕ)
read_signed (some text) = parse_signed (trim_text_start (trim_text_end text))
read_signed none = none

abbrev pub from_v1 : Option (Bool × ℕ) → Option (Bool × ℕ) → Option ℕ
from_v1 (some (false, quota)) (some period) =
    if quota == 0 then none else cores_from_quota quota (as_u64 period)
from_v1 _ _ = none

-- `/sys/fs/cgroup/cpu.max`, or the two files of the first version.
unfoldable pub cgroup_cpu_quota : Option Text → Option Text → Option Text → Option ℕ
unfolding words trim_text_start trim_text_end parse_signed parse_unsigned cores_from_quota
cgroup_cpu_quota (some raw) quota period = from_v2 (words raw)
cgroup_cpu_quota none quota period = from_v1 (read_signed quota) (read_signed period)

abbrev IsWord : Text → Type 0
IsWord = All (λ c. is_whitespace c ≡ false)

blank_pieces-append :
    (word : Text) (blank : ℕ) (rest : Text)
    → IsWord word
    → is_whitespace blank ≡ true
    → blank_pieces (word ++ (blank ∷ rest)) ≡ word ∷ blank_pieces rest
unfolding blank_pieces
blank_pieces-append [] blank rest h e = rw e refl
blank_pieces-append (c ∷ word) blank rest (hc, h) e =
    rw (hc, blank_pieces-append word blank rest h e) refl

digit-IsWord : (word : Text) → All (IsDigitOf 10) word → IsWord word
digit-IsWord [] h = tt
digit-IsWord (c ∷ word) ((d, (lt, e)), h) =
    (unfold is_whitespace in ground (arith, lt, e), digit-IsWord word h)

digits_not_max : (word : Text) → All (IsDigitOf 10) word → bytes_eq word (codes "max") ≡ false
unfolding bytes_eq
digits_not_max [] h = refl
digits_not_max (c ∷ word) ((d, (lt, e)), h) =
    let differs : (c == b'm') ≡ false = ground (arith, lt, e) in rw differs refl

decimal-digits : (n : ℕ) → All (IsDigitOf 10) (to_decimal n)
unfolding to_decimal
decimal-digits n = digits-IsDigitOf 10 n n (omega arith) (omega arith)

decimal-some : (n : ℕ) → is_empty (to_decimal n) ≡ false
unfolding to_decimal
decimal-some n = go (digits 10 n n) (digits-length 10 n n)
  where
    go : (v : Text) → 1 ≤ length v → is_empty v ≡ false
    go [] h = elim h [ ]
    go (c ∷ v) h = refl

words-decimals :
    (a b : ℕ)
    → words (to_decimal a ++ (32 ∷ (to_decimal b ++ (10 ∷ [])))) ≡ to_decimal a ∷ to_decimal b ∷ []
unfolding words
words-decimals a b =
    rw
      (
        blank_pieces-append (to_decimal a) 32 (to_decimal b ++ (10 ∷ []))
            (digit-IsWord (to_decimal a) (decimal-digits a)) (unfold is_whitespace in refl),
        blank_pieces-append (to_decimal b) 10 [] (digit-IsWord (to_decimal b) (decimal-digits b))
            (unfold is_whitespace in refl),
        decimal-some a,
        decimal-some b,
      )
      (unfold blank_pieces in refl)

-- The limit that the kernel writes, a quota and a period in decimal, is read back.
pub cgroup_cpu_quota-decimals :
    (quota period : ℕ) (v1 v1_period : Option Text)
    → quota < 2 ^ 64
    → period < 2 ^ 64
    → cgroup_cpu_quota
        (some (to_decimal quota ++ (32 ∷ (to_decimal period ++ (10 ∷ [])))))
        v1
        v1_period
      ≡ cores_from_quota quota period
unfolding cgroup_cpu_quota
cgroup_cpu_quota-decimals quota period v1 v1_period q p =
    ap from_v2 (words-decimals quota period)
    ∙ rw (digits_not_max (to_decimal quota) (decimal-digits quota))
        (ap₂ cores (parse_unsigned-to_decimal quota q) (parse_unsigned-to_decimal period p))

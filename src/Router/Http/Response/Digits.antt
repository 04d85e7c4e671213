-- ===== src/Router/Http/Response/Digits.antt =====
-- crates/buran-router/src/http1.rs: the numbers of a response are read back.
use buran.Prelude.{
  ℕ, zero, suc, ◌+◌, ◌-◌, ◌*◌, ◌/◌, ◌%◌, ◌^◌, ◌≤◌, ◌<◌, ◌≡◌, refl, sym, ap, ◌∙◌, true, false, some,
  [], ◌∷◌, ◌++◌, ltb, leb, ◌==◌, if◌then◌else◌, Bytes, All, All-append, arith, Bool-cases, inl, inr,
  subst, ltb→lt, lt→ltb, length, length-append,
}
use native.Mathlib.Nat.{div-lt_self, mod-lt, div-add-mod'}
use buran.Router.Http.Request.{is_digit, parse_digits, parse_unsigned}
use buran.Router.Http.Response.{digit_char, digits, to_decimal}

unfoldable pub digit_value : ℕ → ℕ
digit_value b = if leb b b'9' then b - b'0' else b - b'a' + 10

-- What digits mean behind a number.
unfoldable pub value : ℕ → ℕ → Bytes → ℕ
value radix acc [] = acc
value radix acc (b ∷ bs) = value radix (acc * radix + digit_value b) bs

pub value-last :
    (radix acc : ℕ) (ds : Bytes) (b : ℕ)
    → value radix acc (ds ++ (b ∷ [])) ≡ value radix acc ds * radix + digit_value b
unfolding value
value-last radix acc [] b = refl
value-last radix acc (d ∷ ds) b = value-last radix (acc * radix + digit_value d) ds b

digit_value-digit_char : (d : ℕ) → d < 16 → digit_value (digit_char d) ≡ d
unfolding digit_value
digit_value-digit_char d h = ground (arith, h)

-- A digit of a radix up to sixteen.
abbrev pub IsDigitOf : ℕ → ℕ → Type 0
IsDigitOf radix b = (d : ℕ) × ((d < radix) × (b ≡ digit_char d))

digits_short : (radix fuel n : ℕ) → ltb n radix ≡ true → digits radix fuel n ≡ digit_char n ∷ []
unfolding digits
digits_short radix zero n e = refl
digits_short radix (suc fuel) n e = rw (e, digits) refl

digits_long :
    (radix fuel n : ℕ)
    → ltb n radix ≡ false
    → digits radix (suc fuel) n ≡ digits radix fuel (n / radix) ++ (digit_char (n % radix) ∷ [])
unfolding digits
digits_long radix fuel n e = rw (e, digits) refl

shrinks : (radix fuel n : ℕ) → 2 ≤ radix → ltb n radix ≡ false → n ≤ suc fuel → n / radix ≤ fuel
shrinks radix fuel n r e h =
    let below = div-lt_self {n = n} {k = radix} (ground (arith, r, e)) (omega (arith, r)) in
    omega (arith, below, h)

pub digits-IsDigitOf :
    (radix fuel n : ℕ) → 2 ≤ radix → n ≤ fuel → All (IsDigitOf radix) (digits radix fuel n)
digits-IsDigitOf radix zero n r h =
    subst (All (IsDigitOf radix)) (sym (digits_short radix zero n (ground (arith, r, h))))
      ((n, (omega (arith, r, h), refl)), tt)
digits-IsDigitOf radix (suc fuel) n r h = elim (Bool-cases (ltb n radix)) [
  | inl e ↦
      subst (All (IsDigitOf radix)) (sym (digits_short radix (suc fuel) n e))
        ((n, (ltb→lt n radix e, refl)), tt)
  | inr e ↦ subst (All (IsDigitOf radix)) (sym (digits_long radix fuel n e)) (
      All-append (IsDigitOf radix) (digits radix fuel (n / radix)) (digit_char (n % radix) ∷ [])
        (digits-IsDigitOf radix fuel (n / radix) r (shrinks radix fuel n r e h))
        ((n % radix, (mod-lt n (omega (arith, r)), refl)), tt))
]

value_short : (radix d : ℕ) → d < 16 → value radix 0 (digit_char d ∷ []) ≡ d
unfolding value
value_short radix d h =
    (let unscaled : 0 * radix + digit_value (digit_char d) ≡ digit_value (digit_char d) =
        omega arith in
      unscaled)
    ∙ digit_value-digit_char d h

pub value-digits :
    (radix fuel n : ℕ) → 2 ≤ radix → radix ≤ 16 → n ≤ fuel → value radix 0 (digits radix fuel n) ≡ n
value-digits radix zero n r s h =
    ap (value radix 0) (digits_short radix zero n (ground (arith, r, h)))
    ∙ value_short radix n (omega (arith, h))
value-digits radix (suc fuel) n r s h = elim (Bool-cases (ltb n radix)) [
  | inl e ↦
      ap (value radix 0) (digits_short radix (suc fuel) n e)
      ∙ value_short radix n (omega (arith, ltb→lt n radix e, s))
  | inr e ↦
      let small = mod-lt n {m = radix} (omega (arith, r)) in
      ap (value radix 0) (digits_long radix fuel n e)
      ∙ value-last radix 0 (digits radix fuel (n / radix)) (digit_char (n % radix))
      ∙ ap (λ x. x * radix + digit_value (digit_char (n % radix)))
          (value-digits radix fuel (n / radix) r s (shrinks radix fuel n r e h))
      ∙ ap (λ x. n / radix * radix + x)
          (digit_value-digit_char (n % radix) (omega (arith, small, s)))
      ∙ div-add-mod' n radix
]

value-grows : (acc : ℕ) (ds : Bytes) → acc ≤ value 10 acc ds
unfolding value
value-grows acc [] = omega arith
value-grows acc (d ∷ ds) = omega (arith, value-grows (acc * 10 + digit_value d) ds)

decimal_digit : (b : ℕ) → IsDigitOf 10 b → (is_digit b ≡ true) × (b - b'0' ≡ digit_value b)
unfolding digit_value
decimal_digit b (d, (h, e)) = (ground (arith, h, e), ground (arith, h, e))

parse_digits-value :
    (acc : ℕ) (ds : Bytes)
    → All (IsDigitOf 10) ds
    → value 10 acc ds < 2 ^ 64
    → parse_digits acc ds ≡ some (value 10 acc ds)
unfolding parse_digits value
parse_digits-value acc [] a h = refl
parse_digits-value acc (b ∷ bs) (d, a) h =
    let (digit, same) = decimal_digit b d in
    let fits : ltb (acc * 10 + digit_value b) (2 ^ 64) ≡ true =
      lt→ltb _ _ (omega (arith, h, value-grows (acc * 10 + digit_value b) bs)) in
    rw (digit, same, fits) (parse_digits-value (acc * 10 + digit_value b) bs a h)

parse_unsigned-digits :
    (ds : Bytes) → All (IsDigitOf 10) ds → 1 ≤ length ds → parse_unsigned ds ≡ parse_digits 0 ds
unfolding parse_unsigned
parse_unsigned-digits [] a h = elim h [ ]
parse_unsigned-digits (b ∷ bs) ((d, (small, e)), a) h =
    let unsigned : (b == b'+') ≡ false = ground (arith, small, e) in rw unsigned refl

pub digits-length : (radix fuel n : ℕ) → 1 ≤ length (digits radix fuel n)
digits-length radix zero n = unfold digits in omega arith
digits-length radix (suc fuel) n = elim (Bool-cases (ltb n radix)) [
  | inl e ↦ omega (arith, ap length (digits_short radix (suc fuel) n e))
  | inr e ↦ omega (
    arith,
    ap length (digits_long radix fuel n e),
    length-append (digits radix fuel (n / radix)) (digit_char (n % radix) ∷ []),
  )
]

-- A length that a response declares is read back by the rules for the length of a request.
pub parse_unsigned-to_decimal : (n : ℕ) → n < 2 ^ 64 → parse_unsigned (to_decimal n) ≡ some n
unfolding to_decimal
parse_unsigned-to_decimal n h =
    let a = digits-IsDigitOf 10 n n (omega arith) (omega arith) in
    let e = value-digits 10 n n (omega arith) (omega arith) (omega arith) in
    parse_unsigned-digits (digits 10 n n) a (digits-length 10 n n)
    ∙ parse_digits-value 0 (digits 10 n n) a (omega (arith, e, h))
    ∙ ap some e

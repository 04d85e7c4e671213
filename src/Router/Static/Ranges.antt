-- ===== src/Router/Static/Ranges.antt =====
-- crates/buran-router/src/serve_static.rs, parse_range: the ranges that are served.
use buran.Prelude.{
  ℕ, ◌-◌, ◌<◌, ◌≤◌, Bool, true, false, Option, none, some, Bytes, leb, if◌then◌else◌, ◌==◌, arith,
  min, zero, suc, not, codes, any, drop, is_empty,
}
use buran.Router.Static.{
  RangeResult, ignored, unsatisfiable, satisfied, suffix_range, up_to, ends_at, open_range, dashed,
  parse_range,
}
use buran.Router.Matching.{starts_with}
use buran.Router.Routes.{split_at_first}
use buran.Router.Http.Request.{parse_length, trim_ascii}

-- A served range is not empty and lies in the file.
abbrev pub Fits : ℕ → RangeResult → Type 0
Fits size ignored = Unit
Fits size unsatisfiable = Unit
Fits size (satisfied start last) = (start ≤ last) × (last < size)

pub if-Fits :
    (size : ℕ) (test : Bool) (r s : RangeResult)
    → Fits size r
    → Fits size s
    → Fits size (if test then r else s)
if-Fits size true r s first second = first
if-Fits size false r s first second = second

up_to-Fits : (size start last : ℕ) → last < size → Fits size (up_to start last)
up_to-Fits size start last small = ground arith

suffix_range-Fits : (size : ℕ) (n : Option ℕ) → 0 < size → Fits size (suffix_range size n)
suffix_range-Fits size none some_bytes = tt
suffix_range-Fits size (some n) some_bytes = ground arith

ends_at-Fits : (size start : ℕ) (last : Option ℕ) → 0 < size → Fits size (ends_at size start last)
ends_at-Fits size start none some_bytes = tt
ends_at-Fits size start (some last) some_bytes =
    up_to-Fits size start (min last (size - 1)) (omega arith)

open_range-Fits :
    (size : ℕ) (start : Option ℕ) (last : Bytes) → 0 < size → Fits size (open_range size start last)
open_range-Fits size none last some_bytes = tt
open_range-Fits size (some start) last some_bytes = if-Fits size (leb size start) _ _ tt (
    if-Fits size (is_empty last) _ _ (up_to-Fits size start (size - 1) (omega arith))
      (ends_at-Fits size start (parse_length last) some_bytes))

dashed-Fits : (size : ℕ) (cut : Bytes × Option Bytes) → Fits size (dashed size cut)
dashed-Fits size (first, none) = tt
dashed-Fits zero (first, some last) = tt
dashed-Fits (suc n) (first, some last) = if-Fits (suc n) (suc n == 0) _ _ tt (
    if-Fits (suc n) (is_empty first) _ _
      (suffix_range-Fits (suc n) (parse_length last) (omega arith))
      (open_range-Fits (suc n) (parse_length first) last (omega arith)))

pub parse_range-Fits : (header : Bytes) (size : ℕ) → Fits size (parse_range header size)
unfolding parse_range
parse_range-Fits header size = if-Fits size (not (starts_with (codes "bytes=") header)) _ _ tt (
    if-Fits size (any (λ b. b == b',') (drop 6 header)) _ _ tt
      (dashed-Fits size (split_at_first b'-' (trim_ascii (drop 6 header)))))

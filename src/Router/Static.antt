-- ===== src/Router/Static.antt =====
-- crates/buran-router/src/serve_static.rs: static files. The file system is a parameter.
pub mod Ranges
pub mod Serve
pub mod Answers
pub mod Sources
mod Tests
use buran.Prelude.{
  put_before, ℕ, min, ◌+◌, ◌-◌, Bool, true, false, not, ◌&&◌, ◌||◌, Option, none, some, List, [],
  ◌∷◌, ltb, leb, ◌==◌, if◌then◌else◌, Bytes, bytes_eq, codes, any, drop, is_empty, zero, suc, ◌++◌,
}
use buran.Router.Uri.{split, ends_with_slash}
use buran.Router.Matching.{starts_with, to_lower, to_ascii_lowercase}
use buran.Router.Routes.{split_at_first, ServeSources, nothing, everything, only}
use buran.Router.Http.Request.{named, parse_length, trim_ascii, eq_ignore_ascii_case}

-- `Ok(None)`, `Err(())` and `Ok(Some(..))` of parse_range.
pub data RangeResult : Type 0 where
  ignored unsatisfiable : RangeResult
  satisfied : ℕ → ℕ → RangeResult

-- bytes=-n: the last n bytes.
abbrev pub suffix_range : ℕ → Option ℕ → RangeResult
suffix_range size none = unsatisfiable
suffix_range size (some n) = if n == 0 then unsatisfiable else satisfied (size - n) (size - 1)

abbrev pub up_to : ℕ → ℕ → RangeResult
up_to start last = if ltb last start then unsatisfiable else satisfied start last

abbrev pub ends_at : ℕ → ℕ → Option ℕ → RangeResult
ends_at size start none = unsatisfiable
ends_at size start (some last) = up_to start (min last (size - 1))

abbrev pub open_range : ℕ → Option ℕ → Bytes → RangeResult
open_range size none last = unsatisfiable
open_range size (some start) last =
    if leb size start
    then unsatisfiable
    else if is_empty last
    then up_to start (size - 1)
    else ends_at size start (parse_length last)

abbrev pub dashed : ℕ → Bytes × Option Bytes → RangeResult
dashed size (first, none) = unsatisfiable
dashed size (first, some last) =
    if size == 0
    then unsatisfiable
    else if is_empty first
    then suffix_range size (parse_length last)
    else open_range size (parse_length first) last

unfoldable pub parse_range : Bytes → ℕ → RangeResult
unfolding starts_with parse_length trim_ascii split_at_first
parse_range header size =
    if not (starts_with (codes "bytes=") header)
    then ignored
    else if any (λ b. b == b',') (drop 6 header)
    then ignored
    else dashed size (split_at_first b'-' (trim_ascii (drop 6 header)))

-- `If-None-Match`: is the tag listed?
unfoldable pub etag_listed : Bytes → Bytes → Bool
unfolding split trim_ascii bytes_eq
etag_listed header etag =
    named "*" header || any (λ part. bytes_eq (trim_ascii part) etag) (split b',' header)

-- The text after the last separator, or all of it: `rsplit(sep).next()`.
unfoldable pub behind_last : ℕ → Bytes → Option Bytes
behind_last sep [] = none
behind_last sep (b ∷ bs) = elim (behind_last sep bs) [
  | some v ↦ some v
  | none ↦ if b == sep then some bs else none
]

abbrev pub or_whole : Bytes → Option Bytes → Bytes
or_whole whole (some v) = v
or_whole whole none = whole

unfoldable pub last_part : ℕ → Bytes → Bytes
unfolding behind_last
last_part sep v = or_whole v (behind_last sep v)

abbrev pub is_dot_or_space : ℕ → Bool
is_dot_or_space b = b == b'.' || b == 32

abbrev pub keeps_before : ℕ → Bytes → Bytes
keeps_before b [] = if is_dot_or_space b then [] else b ∷ []
keeps_before b (c ∷ cs) = b ∷ c ∷ cs

-- `trim_end_matches(['.', ' '])`.
unfoldable pub trim_dots : Bytes → Bytes
trim_dots [] = []
trim_dots (b ∷ bs) = keeps_before b (trim_dots bs)

-- `trim_start_matches(c)`.
unfoldable pub trim_leading : ℕ → Bytes → Bytes
trim_leading c [] = []
trim_leading c (b ∷ bs) = let rest = trim_leading c bs in if b == c then rest else b ∷ bs

abbrev pub uri_variable : Bytes
uri_variable = codes "$uri"

-- `split_once("$uri")`.
unfoldable pub split_once : Bytes → Option (Bytes × Bytes)
unfolding starts_with
split_once [] = none
split_once (b ∷ bs) =
    let later = put_before b (split_once bs) in
    if starts_with uri_variable (b ∷ bs) then some ([], drop 3 bs) else later

-- `replace("$uri", uri)`; the number counts the bytes of a variable that are still to be passed.
unfoldable pub replace_uri : Bytes → ℕ → Bytes → Bytes
unfolding starts_with
replace_uri uri skip [] = []
replace_uri uri (suc n) (b ∷ bs) = replace_uri uri n bs
replace_uri uri zero (b ∷ bs) =
    let passed = replace_uri uri 3 bs in
    let kept = replace_uri uri zero bs in
    if starts_with uri_variable (b ∷ bs) then uri ++ passed else b ∷ kept

-- The directory that confines the file, and what is looked up in it.
abbrev pub placed : Bytes → Bytes → Option (Bytes × Bytes) → Bytes × Bytes
placed uri template (some (before, after)) = (before, uri ++ replace_uri uri 0 after)
placed uri template none = (codes "/", template)

abbrev pub with_index : Bytes → Bytes → Bytes
with_index index target = if ends_with_slash target then target ++ index else target

unfoldable pub extension : Bytes → Bytes
unfolding last_part to_lower
extension target = to_ascii_lowercase (last_part b'.' target)

unfoldable pub opted_in : ServeSources → Bytes → Bool
unfolding trim_leading to_lower bytes_eq
opted_in nothing ext = false
opted_in everything ext = true
opted_in (only exts) ext = any (λ e. eq_ignore_ascii_case (trim_leading b'.' e) ext) exts

-- Is a target a source that the share does not opt in to?
unfoldable pub is_protected : List Bytes → ServeSources → Bytes → Bool
unfolding extension trim_dots opted_in bytes_eq
is_protected source_exts sources target =
    let ext = extension (trim_dots target) in
    any (bytes_eq ext) source_exts && not (opted_in sources ext)

unfoldable pub builtin_mime : Bytes → Bytes
unfolding bytes_eq
builtin_mime ext =
    if named "html" ext || named "htm" ext
    then codes "text/html"
    else if named "css" ext
    then codes "text/css"
    else if named "js" ext || named "mjs" ext
    then codes "text/javascript"
    else if named "json" ext
    then codes "application/json"
    else if named "txt" ext
    then codes "text/plain"
    else if named "svg" ext
    then codes "image/svg+xml"
    else if named "png" ext
    then codes "image/png"
    else if named "jpg" ext || named "jpeg" ext
    then codes "image/jpeg"
    else if named "gif" ext
    then codes "image/gif"
    else if named "webp" ext
    then codes "image/webp"
    else if named "ico" ext
    then codes "image/x-icon"
    else if named "woff2" ext
    then codes "font/woff2"
    else if named "woff" ext
    then codes "font/woff"
    else if named "pdf" ext
    then codes "application/pdf"
    else if named "xml" ext
    then codes "application/xml"
    else if named "wasm" ext
    then codes "application/wasm"
    else codes "application/octet-stream"

-- The overrides, a map by extension.
unfoldable pub lookup_mime : Bytes → List (Bytes × Bytes) → Option Bytes
unfolding bytes_eq
lookup_mime ext [] = none
lookup_mime ext ((e, mime) ∷ overrides) =
    let rest = lookup_mime ext overrides in if bytes_eq e ext then some mime else rest

unfoldable pub mime_for : Bytes → List (Bytes × Bytes) → Bytes
unfolding extension lookup_mime builtin_mime
mime_for path overrides =
    let ext = extension path in or_whole (builtin_mime ext) (lookup_mime ext overrides)

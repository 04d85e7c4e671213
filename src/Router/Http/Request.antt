-- ===== src/Router/Http/Request.antt =====
-- crates/buran-router/src/http1.rs: the head of a request. The crate httparse is a parameter; the
-- search of memchr is the first occurrence.
use Prim.Native.String.{String}
use buran.Prelude.{
  ℕ, suc, ◌+◌, ◌-◌, ◌*◌, ◌^◌, Bool, true, false, not, ◌&&◌, ◌||◌, Option, none, some, List, [], ◌∷◌,
  ◌++◌, ltb, leb, ◌==◌, if◌then◌else◌, Bytes, any, is_empty, bytes_eq, codes,
}
use buran.Router.Uri.{split}
use buran.Router.Matching.{starts_with, to_ascii_lowercase}
use buran.Router.Ws.Utf8.{is_utf8}
use buran.Router.Routes.{split_at_first, or_empty}

abbrev pub max_header_bytes : ℕ
max_header_bytes = 32 * 1024

abbrev pub Header : Type 0
Header = Bytes × Bytes

-- What a complete parse of httparse gives: `version` counts the minor version.
pub record RawRequest : Type 0 where
  pub method : Option Bytes
  pub path : Option Bytes
  pub version : Option ℕ
  pub headers : List Header

pub record Parsed : Type 0 where
  pub method : Bytes
  pub target : Bytes
  pub headers : List Header
  pub keep_alive : Bool
  pub content_length : ℕ
  pub bad : Option ℕ

abbrev pub named : String → Bytes → Bool
named text name = bytes_eq name (codes text)

abbrev pub eq_ignore_ascii_case : Bytes → Bytes → Bool
eq_ignore_ascii_case a b = bytes_eq (to_ascii_lowercase a) (to_ascii_lowercase b)

abbrev pub is_digit : ℕ → Bool
is_digit b = leb b'0' b && leb b b'9'

-- The digit loop of `u64::from_str`, which fails on a value past 64 bits.
unfoldable pub parse_digits : ℕ → Bytes → Option ℕ
parse_digits acc [] = some acc
parse_digits acc (b ∷ bs) =
    let value = acc * 10 + (b - b'0') in
    let rest = parse_digits value bs in if is_digit b && ltb value (2 ^ 64) then rest else none

unfoldable pub parse_unsigned : Bytes → Option ℕ
unfolding parse_digits
parse_unsigned [] = none
parse_unsigned (b ∷ bs) =
    if b == b'+' then (if is_empty bs then none else parse_digits 0 bs) else parse_digits 0 (b ∷ bs)

-- The value of a `content-length` header.
unfoldable pub parse_length : Bytes → Option ℕ
unfolding parse_unsigned is_utf8
parse_length v = if is_utf8 v then parse_unsigned v else none

-- The variables of the loop over the headers.
pub record Scan : Type 0 where
  pub parsed : Parsed
  pub cl_seen : Bool
  pub host_count : ℕ

abbrev pub set_bad : ℕ → Parsed → Parsed
set_bad status p = record p { bad = some status }

abbrev pub set_length : Option ℕ → Bool → Parsed → Parsed
set_length (some len) seen p =
    if seen && not (len == p.content_length)
    then set_bad 400 p
    else record p { content_length = len }
set_length none seen p = set_bad 400 p

abbrev pub push_header : Header → Scan → Scan
push_header h s = record s { parsed = record s.parsed { headers = s.parsed.headers ++ (h ∷ []) } }

unfoldable pub on_name : Bytes → Bytes → Scan → Scan
unfolding parse_length
on_name name value s =
    if named "host" name
    then record s { host_count = suc s.host_count }
    else if named "content-length" name
    then record s { parsed = set_length (parse_length value) s.cl_seen s.parsed; cl_seen = true }
    else if named "transfer-encoding" name
    then record s { parsed = set_bad 411 s.parsed }
    else if named "connection" name && eq_ignore_ascii_case value (codes "close")
    then record s { parsed = record s.parsed { keep_alive = false } }
    else s

unfoldable pub scan : List Header → Scan → Scan
unfolding on_name
scan [] s = s
scan ((name, value) ∷ hs) s =
    let lower = to_ascii_lowercase name in
    scan hs (push_header (lower, value) (on_name lower value s))

abbrev pub is_minor_one : Option ℕ → Bool
is_minor_one (some v) = v == 1
is_minor_one none = false

-- RFC 9110, section 7.2: no second Host, and one for HTTP/1.1.
abbrev pub host_missing : Bool → ℕ → Bool
host_missing minor_one count = ltb 1 count || (count == 0 && minor_one)

abbrev pub check_host : Bool → ℕ → Parsed → Option ℕ → Parsed
check_host minor_one count p none = if host_missing minor_one count then set_bad 400 p else p
check_host minor_one count p (some _) = p

abbrev pub start : Bytes → Bytes → Option ℕ → Scan
start method target version = record {
  parsed = record {
    method = method;
    target = target;
    headers = [];
    keep_alive = is_minor_one version;
    content_length = 0;
    bad = none;
  };
  cl_seen = false;
  host_count = 0;
}

abbrev pub close_scan : Option ℕ → Scan → Parsed
close_scan version s = check_host (is_minor_one version) s.host_count s.parsed s.parsed.bad

abbrev pub from_raw : RawRequest → Option Bytes → Option Bytes → Option Parsed
from_raw raw (some method) (some path) =
    some (close_scan raw.version (scan raw.headers (start method path raw.version)))
from_raw raw _ _ = none

abbrev pub from_parse : Option RawRequest → Option Parsed
from_parse (some raw) = from_raw raw raw.method raw.path
from_parse none = none

-- `httparse` is none unless the parse is complete.
unfoldable pub parse_request : (Bytes → Option RawRequest) → Bytes → Option Parsed
unfolding scan
parse_request httparse head = from_parse (httparse head)

abbrev pub one_later : Option ℕ → Option ℕ
one_later (some pos) = some (suc pos)
one_later none = none

-- `memmem::find`: the first place where the needle stands.
unfoldable pub find_bytes : Bytes → Bytes → Option ℕ
unfolding starts_with
find_bytes needle [] = if is_empty needle then some 0 else none
find_bytes needle (b ∷ bs) =
    let later = find_bytes needle bs in
    if starts_with needle (b ∷ bs) then some 0 else one_later later

abbrev pub blank_line : Bytes
blank_line = 13 ∷ 10 ∷ 13 ∷ 10 ∷ []

abbrev pub past_blank : Option ℕ → Option ℕ
past_blank (some pos) = some (pos + 4)
past_blank none = none

unfoldable pub find_headers_end : Bytes → Option ℕ
unfolding find_bytes
find_headers_end buf = past_blank (find_bytes blank_line buf)

unfoldable pub split_target : Bytes → Bytes × Bytes
unfolding split_at_first
split_target target = let (path, query) = split_at_first b'?' target in (path, or_empty query)

abbrev pub is_control : ℕ → Bool
is_control b = ltb b 32 || b == 127

unfoldable pub has_control_byte : Bytes → Bool
has_control_byte bytes = any is_control bytes

-- The value of the first header with this name.
unfoldable pub find_header : Bytes → List Header → Option Bytes
find_header name [] = none
find_header name ((n, v) ∷ hs) =
    let later = find_header name hs in if bytes_eq n name then some v else later

abbrev is_space : ℕ → Bool
is_space b = b == 32 || (b == 9 || (b == 10 || (b == 12 || b == 13)))

unfoldable trim_start : Bytes → Bytes
trim_start [] = []
trim_start (b ∷ bs) = let rest = trim_start bs in if is_space b then rest else b ∷ bs

abbrev keep_end : ℕ → Bytes → Bytes
keep_end b [] = if is_space b then [] else b ∷ []
keep_end b (c ∷ cs) = b ∷ c ∷ cs

unfoldable trim_end : Bytes → Bytes
trim_end [] = []
trim_end (b ∷ bs) = keep_end b (trim_end bs)

-- `[u8]::trim_ascii`.
unfoldable pub trim_ascii : Bytes → Bytes
unfolding trim_start trim_end
trim_ascii v = trim_end (trim_start v)

abbrev pub is_upgrade_token : Bytes → Bool
is_upgrade_token token = eq_ignore_ascii_case (trim_ascii token) (codes "upgrade")

abbrev pub offer : Option Bytes → Option Bytes → Option Bytes → Option Bytes → Option Bytes
offer (some upgrade) (some connection) (some version) key =
    if eq_ignore_ascii_case upgrade (codes "websocket")
      && (any is_upgrade_token (split b',' connection) && bytes_eq version (codes "13"))
    then key
    else none
offer _ _ _ key = none

unfoldable pub websocket_upgrade : Parsed → Option Bytes
unfolding find_header trim_ascii split
websocket_upgrade p =
    if not (named "GET" p.method) || not (p.content_length == 0)
    then none
    else offer (find_header (codes "upgrade") p.headers)
        (find_header (codes "connection") p.headers)
        (find_header (codes "sec-websocket-version") p.headers)
        (find_header (codes "sec-websocket-key") p.headers)

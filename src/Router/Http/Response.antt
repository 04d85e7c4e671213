-- ===== src/Router/Http/Response.antt =====
-- crates/buran-router/src/http1.rs: what is written to the client. Writes append to the bytes on
-- the wire; a write that fails ends the connection and is not modelled.
pub mod Lossy
unfoldable pub use Lossy.*
pub mod Digits
pub mod Chunked
pub mod Lines
use Prim.Native.String.{String}
use buran.Prelude.{
  between, ℕ, zero, suc, ◌+◌, ◌-◌, ◌/◌, ◌%◌, Bool, true, false, not, ◌&&◌, ◌||◌, Option, none, some,
  List, [], ◌∷◌, ◌++◌, ltb, leb, ◌==◌, if◌then◌else◌, Bytes, length, take, drop, any, is_empty,
  codes,
}
use buran.Router.Uri.{split}
use buran.Router.Routes.{split_at_first}
use buran.Router.Http.Request.{eq_ignore_ascii_case, is_control, has_control_byte}

abbrev pub crlf : Bytes
crlf = 13 ∷ 10 ∷ []

abbrev pub digit_char : ℕ → ℕ
digit_char d = if ltb d 10 then b'0' + d else b'a' + (d - 10)

-- The digits of a number; the number is fuel enough.
unfoldable pub digits : ℕ → ℕ → ℕ → Bytes
digits radix zero n = digit_char n ∷ []
digits radix (suc fuel) n = elim (ltb n radix) [
  | true ↦ digit_char n ∷ []
  | false ↦ digits radix fuel (n / radix) ++ (digit_char (n % radix) ∷ [])
]

-- `{}` and `{:x}` of `format!`.
unfoldable pub to_decimal : ℕ → Bytes
unfolding digits
to_decimal n = digits 10 n n

unfoldable pub to_hex : ℕ → Bytes
unfolding digits
to_hex n = digits 16 n n

unfoldable pub reason_phrase : ℕ → Bytes
reason_phrase status =
    if status == 101
    then codes "Switching Protocols"
    else if status == 200
    then codes "OK"
    else if status == 204
    then codes "No Content"
    else if status == 206
    then codes "Partial Content"
    else if status == 301
    then codes "Moved Permanently"
    else if status == 302
    then codes "Found"
    else if status == 304
    then codes "Not Modified"
    else if status == 400
    then codes "Bad Request"
    else if status == 403
    then codes "Forbidden"
    else if status == 404
    then codes "Not Found"
    else if status == 405
    then codes "Method Not Allowed"
    else if status == 408
    then codes "Request Timeout"
    else if status == 411
    then codes "Length Required"
    else if status == 413
    then codes "Content Too Large"
    else if status == 416
    then codes "Range Not Satisfiable"
    else if status == 429
    then codes "Too Many Requests"
    else if status == 431
    then codes "Request Header Fields Too Large"
    else if status == 500
    then codes "Internal Server Error"
    else if status == 502
    then codes "Bad Gateway"
    else if status == 503
    then codes "Service Unavailable"
    else if status == 504
    then codes "Gateway Timeout"
    else []

-- Operations on response headers: none removes a header.
abbrev pub Extra : Type 0
Extra = List (Bytes × Option Bytes)

abbrev pub line : Bytes → Bytes → Bytes
line name value = name ++ (codes ": " ++ (value ++ crlf))

unfoldable pub extra_lines : Extra → Bytes
extra_lines [] = []
extra_lines ((name, some value) ∷ extra) = line name value ++ extra_lines extra
extra_lines ((name, none) ∷ extra) = extra_lines extra

abbrev pub close_line : Bool → Bytes
close_line keep_alive = if keep_alive then [] else codes "connection: close" ++ crlf

-- The status line and the `server` header; `server` is the text that server_header returns.
unfoldable pub status_lines : Bytes → ℕ → Bytes
unfolding to_decimal reason_phrase
status_lines server status =
    codes "HTTP/1.1 "
    ++ (to_decimal status
        ++ (codes " " ++ (reason_phrase status ++ (crlf ++ line (codes "server") server))))

unfoldable pub write_response : Bytes → ℕ → Bytes → Bytes → Extra → Bool → Bytes
unfolding status_lines to_decimal extra_lines
write_response server status content_type body extra keep_alive =
    status_lines server status
    ++ (line (codes "content-type") content_type
        ++ (line (codes "content-length") (to_decimal (length body))
            ++ (extra_lines extra ++ (close_line keep_alive ++ (crlf ++ body)))))

unfoldable pub write_simple : Bytes → ℕ → Bytes → Bool → Bytes
unfolding write_response to_decimal
write_simple server status reason keep_alive =
    write_response server status (codes "text/plain")
      (to_decimal status ++ (codes " " ++ (reason ++ (10 ∷ [])))) [] keep_alive

abbrev location_line : Option Bytes → Bytes
location_line (some loc) = line (codes "location") loc
location_line none = []

unfoldable pub write_return : Bytes → ℕ → Option Bytes → Bool → Bytes
unfolding status_lines
write_return server status location keep_alive =
    status_lines server status
    ++ (line (codes "content-length") (codes "0")
        ++ (location_line location ++ (close_line keep_alive ++ crlf)))

unfoldable pub write_chunk : Bytes → Bytes
unfolding to_hex
write_chunk data_bytes =
    if is_empty data_bytes then [] else to_hex (length data_bytes) ++ (crlf ++ (data_bytes ++ crlf))

abbrev pub last_chunk : Bytes
last_chunk = codes "0" ++ (crlf ++ crlf)

-- The name of a header line.
unfoldable pub line_name : Bytes → Bytes
unfolding split_at_first
line_name text = (split_at_first b':' text).0

abbrev pub is_named : String → Bytes → Bool
is_named name text = eq_ignore_ascii_case (line_name text) (codes name)

unfoldable pub framing_header : Bytes → Bool
unfolding line_name
framing_header text =
    is_named "content-length" text
    || (is_named "transfer-encoding" text || is_named "connection" text)

unfoldable pub handshake_header : Bytes → Bool
unfolding line_name
handshake_header text = is_named "upgrade" text || is_named "sec-websocket-accept" text

unfoldable pub strip_return : Bytes → Bytes
strip_return [] = []
strip_return (b ∷ []) = if b == 13 then [] else b ∷ []
strip_return (b ∷ (c ∷ bs)) = b ∷ strip_return (c ∷ bs)

-- An operation names the header.
unfoldable pub removed : Extra → Bytes → Bool
removed extra name = any (λ op. eq_ignore_ascii_case op.0 name) extra

unfoldable pub filter_lines : (Bytes → Bool) → List Bytes → List Bytes
filter_lines keeps [] = []
filter_lines keeps (text ∷ lines) =
    let rest = filter_lines keeps lines in
    if keeps (strip_return text) then strip_return text ∷ rest else rest

abbrev pub keeps_line : Extra → Bytes → Bool
keeps_line extra text =
    not (is_empty text || framing_header text)
    && (not (any is_control text) && not (removed extra (line_name text)))

abbrev pub keeps_handshake_line : Bytes → Bool
keeps_handshake_line text =
    not (is_empty text || (framing_header text || handshake_header text))
    && not (any is_control text)

-- The lines of the worker that a response forwards.
unfoldable pub forwarded : Extra → Bytes → List Bytes
unfolding filter_lines split
forwarded extra worker_headers = filter_lines (keeps_line extra) (split 10 worker_headers)

unfoldable pub lossy_lines : List Bytes → Bytes
unfolding from_utf8_lossy
lossy_lines [] = []
lossy_lines (text ∷ lines) = from_utf8_lossy text ++ (crlf ++ lossy_lines lines)

-- The head of a worker's response, up to the header that frames the body.
unfoldable pub response_head : Bytes → ℕ → Bytes → Extra → Bool → Bytes
unfolding status_lines forwarded lossy_lines extra_lines
response_head server status worker_headers extra keep_alive =
    status_lines server status
    ++ (lossy_lines (forwarded extra worker_headers)
        ++ (extra_lines extra ++ close_line keep_alive))

-- `accept` is what accept_key makes of the client's key.
unfoldable pub write_101 : Bytes → Bytes → Bytes → Extra → Bytes
unfolding filter_lines split lossy_lines extra_lines
write_101 server accept worker_headers extra =
    codes "HTTP/1.1 101 Switching Protocols"
    ++ (crlf
        ++ (line (codes "server") server
            ++ (line (codes "upgrade") (codes "websocket")
                ++ (line (codes "connection") (codes "upgrade")
                    ++ (line (codes "sec-websocket-accept") accept
                        ++ (lossy_lines
                              (filter_lines keeps_handshake_line (split 10 worker_headers))
                            ++ (extra_lines extra ++ crlf)))))))

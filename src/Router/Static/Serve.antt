-- ===== src/Router/Static/Serve.antt =====
-- crates/buran-router/src/serve_static.rs, serve: the answer to a request for a file. What openat2
-- finds in a directory is given, with the size and the time that the metadata report and the bytes
-- that reads bring; a read brings what it asks for while the file has it.
use buran.Prelude.{
  ℕ, zero, suc, ◌+◌, ◌-◌, min, Bool, true, false, not, ◌&&◌, Option, none, some, List, [], ◌∷◌,
  ◌++◌, ltb, ◌==◌, if◌then◌else◌, Bytes, bytes_eq, codes, length, take, drop, is_empty,
}
use buran.Router.Uri.Dates.{http_date}
use buran.Router.Matching.{RegexEngine, set_matches}
use buran.Router.Routes.{ServeSources, PatternSet}
use buran.Router.Http.Request.{Header, find_header}
use buran.Router.Http.Response.{
  Extra, from_utf8_lossy, crlf, line, close_line, extra_lines, to_decimal, to_hex, write_return,
}
use buran.Router.Static.{
  RangeResult, ignored, unsatisfiable, satisfied, parse_range, etag_listed, trim_leading,
  split_once, placed, with_index, is_protected, mime_for,
}

pub record File : Type 0 where
  pub is_dir : Bool
  pub size : ℕ
  pub mtime : ℕ
  pub contents : Bytes

-- What is written: a status, the head, and the bytes behind it.
pub record Reply : Type 0 where
  pub status : ℕ
  pub head : Bytes
  pub body : Bytes

abbrev pub copy_chunk : ℕ
copy_chunk = 65536

-- The loop that copies the file. Each read takes a byte off what remains, which is fuel enough.
unfoldable pub copy : ℕ → ℕ → Bytes → Bytes
copy zero remaining file = []
copy (suc fuel) remaining file =
    let n = min (min remaining copy_chunk) (length file) in
    let rest = copy fuel (remaining - n) (drop n file) in if n == 0 then [] else take n file ++ rest

abbrev pub etag_of : File → Bytes
etag_of file = b'"' ∷ (to_hex file.mtime ++ (b'-' ∷ (to_hex file.size ++ (b'"' ∷ []))))

abbrev pub head_of : Bytes → Bytes → Bytes → Bytes
head_of server status lines =
    codes "HTTP/1.1 " ++ (status ++ (crlf ++ (line (codes "server") server ++ lines)))

-- Bytes from first to last of the file.
abbrev pub range_line : ℕ → Option (ℕ × ℕ) → Bytes
range_line size none = []
range_line size (some (first, last)) =
    line (codes "content-range") (
      codes "bytes "
      ++ (to_decimal first ++ (b'-' ∷ (to_decimal last ++ (b'/' ∷ to_decimal size)))))

-- The status line, where the body starts, and its length.
abbrev pub portion : ℕ → Option (ℕ × ℕ) → ℕ × (Bytes × (ℕ × ℕ))
portion size none = (200, (codes "200 OK", (0, size)))
portion size (some (first, last)) = (206, (codes "206 Partial Content", (first, last - first + 1)))

module _ (E : RegexEngine) where
  pub record Context : Type 0 where
    pub server : Bytes
    pub types : Option (PatternSet E)
    pub mime_overrides : List (Bytes × Bytes)
    pub source_exts : List Bytes
    pub follow_symlinks : Bool
    pub serve_sources : ServeSources
    pub req_headers : List Header
    pub head_only : Bool
    pub extra_headers : Extra
    pub keep_alive : Bool

  abbrev pub admits_type : Option (PatternSet E) → Bytes → Bool
  admits_type none mime = true
  admits_type (some types) mime = set_matches E types mime true

  abbrev pub not_modified_by : Option Bytes → Option Bytes → Bytes → Bytes → Bool
  not_modified_by (some listed) since etag modified = etag_listed listed etag
  not_modified_by none (some since) etag modified = bytes_eq since modified
  not_modified_by none none etag modified = false

  -- If-None-Match wins over If-Modified-Since.
  unfoldable pub not_modified : Context → File → Bool
  unfolding find_header http_date etag_listed to_hex bytes_eq
  not_modified ctx file =
      not_modified_by (find_header (codes "if-none-match") ctx.req_headers)
        (find_header (codes "if-modified-since") ctx.req_headers) (etag_of file)
        (http_date file.mtime)

  abbrev pub names_file : Bytes → Option Bytes → Bool
  names_file etag (some tag) = bytes_eq tag etag
  names_file etag none = true

  abbrev pub range_asked : ℕ → Option Bytes → RangeResult
  range_asked size (some header) = parse_range header size
  range_asked size none = ignored

  -- The range is honoured unless If-Range names another entity.
  unfoldable pub range_of : Context → File → RangeResult
  unfolding find_header parse_range to_hex bytes_eq
  range_of ctx file =
      if names_file (etag_of file) (find_header (codes "if-range") ctx.req_headers)
      then range_asked file.size (find_header (codes "range") ctx.req_headers)
      else ignored

  unfoldable pub unchanged : Context → File → Reply
  unfolding http_date to_hex
  unchanged ctx file = record {
    status = 304;
    head = head_of ctx.server (codes "304 Not Modified") (
        line (codes "etag") (etag_of file)
        ++ (line (codes "last-modified") (http_date file.mtime)
            ++ (close_line ctx.keep_alive ++ crlf)));
    body = [];
  }

  unfoldable pub no_such_range : Context → File → Reply
  unfolding to_decimal
  no_such_range ctx file = record {
    status = 416;
    head = head_of ctx.server (codes "416 Range Not Satisfiable") (
        line (codes "content-range") (codes "bytes */" ++ to_decimal file.size)
        ++ (line (codes "content-length") (codes "0") ++ (close_line ctx.keep_alive ++ crlf)));
    body = [];
  }

  abbrev pub body_of : Bool → ℕ → ℕ → File → Bytes
  body_of head_only offset len file =
      if not head_only && ltb 0 len then copy len len (drop offset file.contents) else []

  unfoldable pub send_file : Context → Bytes → File → Option (ℕ × ℕ) → Reply
  unfolding copy http_date to_hex to_decimal extra_lines
  send_file ctx mime file range =
      let (status, (text, (offset, len))) = portion file.size range in
      record {
        status = status;
        head = head_of ctx.server text (
            line (codes "content-type") mime
            ++ (line (codes "content-length") (to_decimal len)
                ++ (line (codes "etag") (etag_of file)
                    ++ (line (codes "last-modified") (http_date file.mtime)
                        ++ (line (codes "accept-ranges") (codes "bytes")
                            ++ (range_line file.size range
                                ++ (extra_lines ctx.extra_headers
                                    ++ (close_line ctx.keep_alive ++ crlf))))))));
        body = body_of ctx.head_only offset len file;
      }

  abbrev pub on_range : Context → Bytes → File → RangeResult → Reply
  on_range ctx mime file ignored = send_file ctx mime file none
  on_range ctx mime file unsatisfiable = no_such_range ctx file
  on_range ctx mime file (satisfied first last) = send_file ctx mime file (some (first, last))

  abbrev pub redirect : Context → Bytes → Reply
  redirect ctx uri = record {
    status = 301;
    head = write_return ctx.server 301 (some (uri ++ (b'/' ∷ []))) ctx.keep_alive;
    body = [];
  }

  unfoldable pub answer : Context → Bytes → Bytes → File → Reply
  unfolding not_modified range_of unchanged no_such_range send_file write_return
  answer ctx uri mime file =
      if file.is_dir
      then redirect ctx uri
      else if not_modified ctx file
      then unchanged ctx file
      else on_range ctx mime file (range_of ctx file)

  abbrev pub answer_found : Context → Bytes → Bytes → Option File → Option Reply
  answer_found ctx uri mime (some file) = some (answer ctx uri mime file)
  answer_found ctx uri mime none = none

  -- The file of a target in a base directory; nothing when it may not be served.
  unfoldable pub serve_target :
      (Bytes → Bytes → Bool → Option File) → Context → Bytes → Bytes → Bytes → Option Reply
  unfolding answer is_protected mime_for trim_leading set_matches
  serve_target open_file ctx uri base target =
      let mime = mime_for target ctx.mime_overrides in
      let rel = trim_leading b'/' target in
      if is_protected ctx.source_exts ctx.serve_sources target
      then none
      else if not (admits_type ctx.types mime)
      then none
      else if is_empty rel
      then none
      else answer_found ctx uri mime (open_file base rel (not ctx.follow_symlinks))

  unfoldable pub serve :
      (Bytes → Bytes → Bool → Option File) → Context → Bytes → Bytes → Bytes → Option Reply
  unfolding serve_target split_once from_utf8_lossy
  serve open_file ctx template index path =
      let uri = from_utf8_lossy path in
      let (base, target) = placed uri template (split_once template) in
      serve_target open_file ctx uri base (with_index index target)

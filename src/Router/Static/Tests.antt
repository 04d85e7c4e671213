-- ===== src/Router/Static/Tests.antt =====
-- A style sheet of ten bytes, a range of it, a source with a dot behind its name, and the theorems at
-- these inputs.
use buran.Prelude.{
  ◌≡◌, refl, Bool, true, false, Option, none, some, [], ◌∷◌, Bytes, bytes_eq, codes,
}
use buran.Router.Uri
use buran.Router.Uri.Dates
use buran.Router.Uri.Dates.{InCalendar, civil_from_days, days_from_civil, http_date}
use buran.Router.Matching
use buran.Router.Matching.{RegexEngine}
use buran.Router.Routes
use buran.Router.Http.Request
use buran.Router.Http.Response
use buran.Router.Static
use buran.Router.Static.{parse_range}
use buran.Router.Static.Serve
use buran.Router.Static.Serve.{File, Reply, Context, answer, serve}
use buran.Router.Static.Answers
use buran.Router.Static.Answers.{Sends}
use buran.Router.Static.Sources

abbrev plain_engine : RegexEngine
plain_engine = record {
  Regex = Bytes;
  build = some;
  is_match = λ re v. bytes_eq re v;
  escape = λ s. s;
}

abbrev sheet : File
sheet = record { is_dir = false; size = 10; mtime = 784111777; contents = codes "0123456789" }

abbrev context : Context plain_engine
context = record {
  server = codes "buran";
  types = none;
  mime_overrides = [];
  source_exts = codes "php" ∷ [];
  follow_symlinks = true;
  serve_sources = Routes.nothing;
  req_headers = (codes "range", codes "bytes=-3") ∷ [];
  head_only = false;
  extra_headers = [];
  keep_alive = true;
}

abbrev last_three : Reply
last_three = answer plain_engine context (codes "/a.css") (codes "text/css") sheet

last_three_bytes : last_three.body ≡ codes "789"
unfolding answer Serve.not_modified Serve.range_of Serve.send_file Serve.copy parse_range
    Request.find_header bytes_eq
last_three_bytes = refl

answer-Sends_example : Sends sheet last_three
answer-Sends_example =
    Answers.answer-Sends plain_engine context (codes "/a.css") (codes "text/css") sheet refl refl

-- Every directory has the source.
abbrev open_any : Bytes → Bytes → Bool → Option File
open_any base rel no_symlinks = some sheet

serve-hides_example :
    serve plain_engine open_any context (codes "/srv$uri") [] (codes "/x.PhP. ") ≡ none
unfolding Uri.ends_with_slash Static.split_once Response.from_utf8_lossy Static.replace_uri bytes_eq
    Matching.to_lower Static.opted_in
serve-hides_example =
    Sources.serve-hides plain_engine open_any context (codes "/srv$uri") [] (codes "/x.PhP. ")
      (codes "/x") b'P' (codes "hP") (codes ". ") refl (refl, (refl, (refl, tt))) (refl, (refl, tt))
      refl refl

rfc_date : http_date 784111777 ≡ codes "Sun, 06 Nov 1994 08:49:37 GMT"
unfolding http_date civil_from_days Response.to_decimal Response.digits
rfc_date = refl

civil_from_days-days_example :
    InCalendar (civil_from_days 11016) × (days_from_civil (civil_from_days 11016) ≡ 11016)
civil_from_days-days_example = Dates.civil_from_days-days 11016

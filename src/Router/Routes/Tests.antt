-- ===== src/Router/Routes/Tests.antt =====
-- A walk over two routes, query arguments, and the theorems at concrete inputs.
use buran.Prelude.{ℕ, ◌≡◌, ◌≢◌, refl, some, none, List, [], ◌∷◌, arith, Bytes, codes, bytes_eq}
use buran.Router.Matching
use buran.Router.Matching.{RegexEngine}
use buran.Router.Template
use buran.Router.Uri
use buran.Router.Routes
use buran.Router.Routes.{
  RequestMeta, Routes, Step, Walk, hop, take_step, stuck, start, decide, parse_args, host_name,
  outcome,
}
use buran.Router.Routes.Walks
use buran.Router.Routes.Rewrites
use buran.Router.Routes.Arguments

abbrev plain_engine : RegexEngine
plain_engine = record {
  Regex = Bytes;
  build = some;
  is_match = λ re v. bytes_eq re v;
  escape = λ s. s;
}

abbrev request : RequestMeta
request = record {
  method = codes "GET";
  host = codes "example.com:8080";
  path = codes "/old/a";
  query = codes "x=1";
  headers = [];
  remote = Matching.v4 (127 ∷ 0 ∷ 0 ∷ 1 ∷ []);
  remote_text = codes "127.0.0.1";
}

-- A step for the host, that sends the request to the route `app` under a new path.
abbrev to_app : Step plain_engine
to_app = record {
  matcher = some (record {
    method = none;
    host = some (record { positive = Matching.exact (codes "example.com") ∷ []; negative = [] });
    uri = none;
    query = none;
    headers = [];
    arguments = [];
    source = none;
  });
  rewrite = some (Template.lit (codes "/new/../b?") ∷ Template.var Template.args ∷ []);
  response_headers = (codes "x-a", some (codes "1")) ∷ [];
  action = Routes.route (codes "app");
}

abbrev serve : Step plain_engine
serve = record {
  matcher = none;
  rewrite = none;
  response_headers = [];
  action = Routes.application (codes "php");
}

abbrev site : Routes plain_engine
site = (codes "main", to_app ∷ []) ∷ ((codes "app", serve ∷ []) ∷ [])

abbrev at_start : Walk
at_start = start (codes "main") request

moves_on : hop plain_engine site request at_start ≢ stuck
unfolding hop Routes.get_route Routes.find Routes.matches Matching.set_matches Matching.admits
    Matching.pattern_matches bytes_eq take_step Matching.to_lower
moves_on e = cc e

hop-TakesFirst_example :
    (step : Step plain_engine) × Walks.TakesFirst plain_engine site request at_start step
    × (hop plain_engine site request at_start ≡ take_step plain_engine request step at_start)
hop-TakesFirst_example = Walks.hop-TakesFirst plain_engine site request at_start moves_on

decide-Ends_example :
    Walks.Ends plain_engine 16 site request at_start
      (decide plain_engine site (codes "main") request)
decide-Ends_example = Walks.decide-Ends plain_engine site (codes "main") request

decided_php : decide plain_engine site (codes "main") request ≡ record {
  decision = Routes.to_application (codes "php");
  rewritten = some (codes "/b", codes "x=1");
  response_headers = (codes "x-a", some (codes "1")) ∷ [];
}
unfolding decide hop take_step Routes.get_route Routes.find Routes.matches Matching.set_matches
    Matching.admits Matching.pattern_matches bytes_eq Template.render Routes.apply_rewrite
    Matching.to_lower Uri.normalize_path
decided_php = refl

decide-OutcomeIsClean_example :
    Rewrites.OutcomeIsClean plain_engine (decide plain_engine site (codes "main") request)
decide-OutcomeIsClean_example =
    Rewrites.decide-OutcomeIsClean plain_engine site (codes "main") request

abbrev form : List (Bytes × Bytes)
form = (codes "q", codes "a b&c") ∷ ((codes "=+", []) ∷ [])

parse_args-encode_args_example : parse_args (Arguments.encode_args form) ≡ form
parse_args-encode_args_example = Arguments.parse_args-encode_args form (omega arith)

abbrev letter : ℕ
letter = b'h'

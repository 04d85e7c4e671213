-- ===== src/Config/Tests.antt =====
-- Runs of the validation, and the theorems at concrete inputs.
use buran.Prelude.{
  ℕ, ◌≡◌, refl, false, Option, none, some, [], ◌∷◌, ◌++◌, Bytes, bytes_eq, codes, arith,
  if◌then◌else◌,
}
use buran.Config
use buran.Config.{
  Config, HttpSettings, Application, Action, Terminal, RouteStep, Listener, Queue, Limits, Checked,
  passed, invalid,
}
use buran.Config.Actions
use buran.Config.Applications
use buran.Config.Applications.{cores_from_quota}
use buran.Config.Inline
use buran.Config.Listeners
use buran.Config.Listeners.{Net, parse_listener_addr, host_ip}
use buran.Config.Validate
use buran.Config.Validate.{Validated, validate}
use buran.Config.Loading
use buran.Config.Loading.{Text, Serde, Outcome, loaded, from_str, reject_anchors}
use buran.Config.Loading.Outcomes
use buran.Config.Loading.Outcomes.{Explains}
use buran.Config.Substitution
use buran.Config.Substitution.{Env, substituted, expand, text, substitute_env}
use buran.Config.Substitution.Expansion.{expected}
use buran.Config.Substitution.Pieces
use buran.Config.Substitution.Pieces.{Reading}
use buran.Router.Http.Response.{to_decimal}
use buran.Router.Matching.{RegexEngine}
use buran.Router.Routes.Compile.{compile_routes}
use buran.Router.Routes.Compile.Reached

-- A parser of IP literals that knows one of each kind.
abbrev known_ip : Bytes → Option ℕ
known_ip host =
    if bytes_eq host (codes "10.0.0.1")
    then some 1
    else if bytes_eq host (codes "::1")
    then some 2
    else none

abbrev net : Net
net = record { Ip = ℕ; parse_ip = known_ip; unspecified = 0 }

abbrev plain : Bytes
plain = codes "0.0.0.1"

plain_ip : host_ip net (b'1' ∷ plain) ≡ some 1
unfolding bytes_eq
plain_ip = refl

parse_listener_addr-parts_example :
    (parse_listener_addr net ((b'1' ∷ plain) ++ (b':' ∷ to_decimal 8080)) ≡ passed (1, 8080))
    × (parse_listener_addr net (b'[' ∷ (codes "::1" ++ (b']' ∷ b':' ∷ to_decimal 8080)))
        ≡ passed (2, 8080))
parse_listener_addr-parts_example =
    Listeners.parse_listener_addr-parts net b'1' plain (codes "::1") 1 2 8080 plain_ip
      (unfold bytes_eq in refl) (λ e. cc e)
      (
        (λ e. cc e),
        (
          (λ e. cc e),
          (
            (λ e. cc e),
            ((λ e. cc e), ((λ e. cc e), ((λ e. cc e), ((λ e. cc e), ((λ e. cc e), tt))))),
          ),
        ),
      )
      ((λ e. cc e), ((λ e. cc e), ((λ e. cc e), tt))) (omega arith)

abbrev seconds : HttpSettings
seconds = record {
  header_read_timeout = 30;
  body_read_timeout = 30;
  send_timeout = 30;
  idle_timeout = 180;
  max_body_size = 8388608;
  min_body_rate = 256;
  max_connections = 4096;
  websocket_idle_timeout = 600;
  max_message_size = 1048576;
}

abbrev app : Application
app = record {
  module_name = codes "php";
  execute = codes ".php" ∷ [];
  processes = Config.auto;
  concurrency = none;
  queue = record { max = 24000; timeout = 15 };
  limits = record { response_timeout = 60; task_timeout = 300; requests = 0 };
}

abbrev nothing : Terminal
nothing = record {
  application = none;
  route = none;
  share = none;
  return_code = none;
  location = none;
  rewrite = none;
  response_headers = none;
}

-- A share that falls back to an application in place, which extraction names `main[0].fallback`.
abbrev share_step : RouteStep
share_step = record {
  condition = none;
  action =
      Config.falling_back (record nothing { share = some (Config.path (codes "/srv")) })
        (Config.last (record nothing { application = some (Config.inline app) }));
}

abbrev small : Config
small = record {
  http = seconds;
  listeners = (codes "*:80", record { route = some (codes "main"); status = false }) ∷ [];
  routes = (codes "main", share_step ∷ []) ∷ [];
  applications = [];
}

abbrev extracted_step : RouteStep
extracted_step = record share_step {
  action =
      Config.falling_back (record nothing { share = some (Config.path (codes "/srv")) })
        (Config.last
          (record nothing { application = some (Config.named (codes "main[0].fallback")) }));
}

abbrev small_ready : Validated
small_ready = record {
  config = record small { routes = (codes "main", extracted_step ∷ []) ∷ [] };
  applications = (codes "main[0].fallback", record app { processes = Config.fixed 4 }) ∷ [];
}

validate-small : validate net 4 small ≡ passed small_ready
unfolding validate Validate.check_settings Validate.check_extracted Validate.resolved
    Validate.check_listeners Validate.check_routes Validate.check_steps Validate.resolve_auto
    Validate.check_applications Inline.extract_routes Inline.extract_steps
    Inline.extract_inline_apps Inline.extract_ref Config.contains_key Config.put Config.bytes_lt
    Actions.validate_action Actions.check_terminal Actions.terminals Actions.check_return
    Actions.check_headers Actions.action_reaches_application Applications.validate_application
    Applications.check_processes Listeners.parse_listener_addr Listeners.split_host_port
    Listeners.split_at_last Listeners.parse_port buran.Router.Http.Request.parse_unsigned
    buran.Router.Http.Request.parse_digits to_decimal buran.Router.Http.Response.digits bytes_eq
    buran.Router.Routes.split_at_first Config.count Config.is_enabled
validate-small = refl

abbrev env : Env
env name = if bytes_eq name (codes "HOST") then some (codes "${X}") else none

-- A parser that takes every text for one tree, and the tree for the small configuration.
abbrev serde : Serde
serde = record { parse = λ yaml. some (text (codes "small")); from_value = λ tree. some small }

abbrev yaml : Text
yaml = codes "a: '&b' # *c\nd: e"

loads_small : from_str net 4 serde env yaml ≡ some (loaded small_ready)
unfolding from_str reject_anchors Loading.find_anchor Loading.lines Loading.code_of
    Loading.has_anchor Loading.is_anchor Loading.at_node Loading.is_comment Loading.before_comment
    Loading.is_whitespace buran.Router.Uri.split buran.Router.Http.Response.strip_return
    buran.Router.Matching.starts_with substitute_env Substitution.expand Substitution.expand_loop
    Substitution.split_open
loads_small = rw validate-small refl

-- The alias in the second line is behind a flow indicator.
alias_found : reject_anchors (codes "a: b\r\nc: [*d]") ≡ some 2
unfolding reject_anchors Loading.find_anchor Loading.lines Loading.code_of Loading.has_anchor
    Loading.is_anchor Loading.at_node Loading.is_comment Loading.before_comment
    Loading.is_whitespace buran.Router.Uri.split buran.Router.Http.Response.strip_return
    buran.Router.Matching.starts_with
alias_found = refl

-- A `#` in a quoted text is taken for a comment, and an apostrophe in a plain one for a quote: the
-- alias behind it is not seen.
aliases_missed :
    (reject_anchors (codes "a: [\"x # y\", *b]") ≡ none)
    × (reject_anchors (codes "{a: it's, b: *c}") ≡ none)
unfolding reject_anchors Loading.find_anchor Loading.lines Loading.code_of Loading.has_anchor
    Loading.is_anchor Loading.at_node Loading.is_comment Loading.before_comment
    Loading.is_whitespace buran.Router.Uri.split buran.Router.Http.Response.strip_return
    buran.Router.Matching.starts_with
aliases_missed = (refl, refl)

from_str-Explains_example :
    (outcome : Outcome) × ((from_str net 4 serde env yaml ≡ some outcome)
      × Explains net 4 serde env yaml outcome)
from_str-Explains_example = Outcomes.from_str-Explains net 4 serde env yaml

abbrev plain_engine : RegexEngine
plain_engine = record {
  Regex = Bytes;
  build = some;
  is_match = λ re v. bytes_eq re v;
  escape = λ s. s;
}

compile_routes-after_load_example :
    Reached.panics (compile_routes plain_engine (λ text. none) small_ready.config.routes) ≡ false
compile_routes-after_load_example =
    Reached.compile_routes-after_load plain_engine (λ text. none) net 4 serde env yaml small_ready
      loads_small

-- One variable is set, to a text that looks like a variable.
values_stay :
    expand env (codes "$.a") (codes "at ${HOST}:${") ≡ some (substituted (codes "at ${X}:${"))
unfolding expand Substitution.expand_loop Substitution.split_open Substitution.expand_name bytes_eq
    buran.Router.Matching.starts_with buran.Router.Routes.split_at_first
values_stay = refl

expand-Reading_example :
    (r : Reading (codes "at ${HOST}:${")) × (expand env (codes "$.a") (codes "at ${HOST}:${")
      ≡ some (expected env (codes "$.a") r.pieces r.tail))
expand-Reading_example = Pieces.expand-Reading env (codes "$.a") (codes "at ${HOST}:${")

cores_and_a_half : cores_from_quota 150000 100000 ≡ some 2
unfolding cores_from_quota
cores_and_a_half = refl

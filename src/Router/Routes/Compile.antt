-- ===== src/Router/Routes/Compile.antt =====
-- crates/buran-router/src/routes.rs, compile, and CidrSet::compile of matching.rs: from the validated
-- configuration to the routes that requests walk. The parser of addresses is a parameter.
pub mod Reached
use buran.Prelude.{
  ℕ, ◌+◌, Bool, true, false, Option, none, some, List, [], ◌∷◌, leb, if◌then◌else◌, Bytes, codes,
  map,
}
use buran.Config
use buran.Config.{Dict, OneOrMany, RouteStep, Terminal, ShareOptions, Match}
use buran.Router.Matching.{
  RegexEngine, IpAddr, Cidr, Signed, compile_signed, compile_set, to_lower, to_ascii_lowercase, v4,
  v6,
}
use buran.Router.Template
use buran.Router.Template.{Template, compile}
use buran.Router.Http.Request.{parse_unsigned}
use buran.Router.Routes
use buran.Router.Routes.{PatternSet, Matcher, Routes, or_empty, split_at_first}

-- A result of compile: a value, an error that is reported, or `unreachable!`, a panic.
pub data Built {ℓ} (A : Type ℓ) : Type ℓ where
  built : A → Built A
  rejected unreachable : Built A

infixl 10 ◌>>=◌
abbrev pub ◌>>=◌ {ℓ κ} : {A : Type ℓ} {B : Type κ} → Built A → (A → Built B) → Built B
built a >>= f = f a
rejected >>= f = rejected
unreachable >>= f = unreachable

abbrev pub or_reject {ℓ} : {A : Type ℓ} → Option A → Built A
or_reject (some a) = built a
or_reject none = rejected

-- `.as_ref().map(f).transpose()?`
abbrev pub optionally {ℓ κ} :
    {A : Type ℓ} {B : Type κ} → (A → Built B) → Option A → Built (Option B)
optionally f none = built none
optionally f (some a) = f a >>= λ b. built (some b)

unfoldable pub each {ℓ κ} : {A : Type ℓ} {B : Type κ} → (A → Built B) → List A → Built (List B)
each f [] = built []
each f (a ∷ as') = f a >>= λ b. each f as' >>= λ bs. built (b ∷ bs)

abbrev pub items : {A : Type 0} → OneOrMany A → List A
items (Config.one a) = a ∷ []
items (Config.many as') = as'

-- One entry of a set of networks, without its negation.
abbrev pub max_prefix : IpAddr → ℕ
max_prefix (v4 octets) = 32
max_prefix (v6 octets) = 128

abbrev pub within : IpAddr → Option ℕ → Option Cidr
within addr (some p) =
    if leb p (max_prefix addr) then some (record { addr = addr; prefix_len = p }) else none
within addr none = none

abbrev pub cidr_of : Option IpAddr → Option Bytes → Option Cidr
cidr_of none prefix = none
cidr_of (some addr) none = some (record { addr = addr; prefix_len = max_prefix addr })
cidr_of (some addr) (some prefix) = within addr (parse_unsigned prefix)

unfoldable pub compile_cidr : (Bytes → Option IpAddr) → Bytes → Option Cidr
unfolding split_at_first parse_unsigned
compile_cidr parse_addr body =
    let (addr, prefix) = split_at_first b'/' body in cidr_of (parse_addr addr) prefix

unfoldable pub compile_cidrs : (Bytes → Option IpAddr) → List Bytes → Option (Signed Cidr)
unfolding compile_cidr compile_signed
compile_cidrs parse_addr entries = compile_signed (compile_cidr parse_addr) entries

abbrev pub template_of : Option (Template.Result Template) → Built Template
template_of (some (Template.ok t)) = built t
template_of (some (Template.err e)) = rejected
template_of none = unreachable

unfoldable pub sources_of : Config.ServeSources → Routes.ServeSources
sources_of Config.no_sources = Routes.nothing
sources_of Config.all_sources = Routes.everything
sources_of (Config.only exts) = Routes.only exts

abbrev pub first_of : List Bytes → Bytes
first_of [] = []
first_of (p ∷ ps) = p

abbrev pub or_index : Option Bytes → Bytes
or_index (some index) = index
or_index none = codes "index.html"

abbrev pub or_follow : Option Bool → Bool
or_follow (some follow) = follow
or_follow none = true

module _ (E : RegexEngine) where
  abbrev pub build_set : Bool → OneOrMany Bytes → Built (PatternSet E)
  build_set ci patterns = or_reject (compile_set E (items patterns) ci)

  abbrev pub build_pair : Bool → Bytes × OneOrMany Bytes → Built (Bytes × PatternSet E)
  build_pair ci (name, patterns) = do
    set ← build_set ci patterns
    built (to_ascii_lowercase name, set)

  abbrev pub build_pairs :
      Bool → Option (Dict (OneOrMany Bytes)) → Built (List (Bytes × PatternSet E))
  build_pairs ci none = built []
  build_pairs ci (some m) = each (build_pair ci) m

  unfoldable pub compile_match : (Bytes → Option IpAddr) → Match → Built (Matcher E)
  unfolding compile_set compile_cidrs each to_lower
  compile_match parse_addr m = do
    method ← optionally (build_set false) m.method
    host ← optionally (build_set true) m.host
    uri ← optionally (build_set false) m.uri
    query ← optionally (build_set false) m.query
    headers ← build_pairs true m.headers
    arguments ← build_pairs false m.arguments
    source ← optionally (λ s. or_reject (compile_cidrs parse_addr (items s))) m.source
    built (record {
      method = method;
      host = host;
      uri = uri;
      query = query;
      headers = headers;
      arguments = arguments;
      source = source;
    })

  abbrev pub build_share : Config.Share → Built (Routes.Fallback E) → Built (Routes.Action E)
  build_share (Config.path p) fallback = do
    f ← fallback
    built (Routes.share p (codes "index.html") none true Routes.nothing f)
  build_share (Config.full o) fallback = do
    types ← optionally (build_set true) o.types
    f ← fallback
    built (
        Routes.share (first_of (items o.share)) (or_index o.index) types
          (or_follow o.follow_symlinks) (sources_of o.serve_sources) f)

  -- The first terminal that is there decides.
  unfoldable pub build_terminal :
      Option Config.ApplicationRef
      → Option Bytes
      → Option Config.Share
      → Option ℕ
      → Option Bytes
      → Built (Routes.Fallback E)
      → Built (Routes.Action E)
  unfolding compile_set sources_of
  build_terminal (some (Config.named name)) route share code location fallback =
      built (Routes.application name)
  build_terminal (some (Config.inline app)) route share code location fallback = unreachable
  build_terminal none (some route) share code location fallback = built (Routes.route route)
  build_terminal none none (some share) code location fallback = build_share share fallback
  build_terminal none none none (some code) location fallback = built (Routes.return code location)
  build_terminal none none none none location fallback = unreachable

  unfoldable pub compile_action : Config.Action → Built (Routes.Action E)
  unfolding build_terminal
  compile_action (Config.last t) =
      build_terminal t.application t.route t.share t.return_code t.location
        (built Routes.no_fallback)
  compile_action (Config.falling_back t fallback) =
      build_terminal t.application t.route t.share t.return_code t.location
        (compile_action fallback >>= λ a. built (Routes.fall_back a))

  abbrev pub terminal_of : Config.Action → Terminal
  terminal_of (Config.last t) = t
  terminal_of (Config.falling_back t fallback) = t

  abbrev pub ops_of : Option (Dict (Option Bytes)) → List (Bytes × Option Bytes)
  ops_of none = []
  ops_of (some ops) = ops

  unfoldable pub compile_step : (Bytes → Option IpAddr) → RouteStep → Built (Routes.Step E)
  unfolding compile_match compile compile_action
  compile_step parse_addr step =
      let t = terminal_of step.action in
      optionally (compile_match parse_addr) step.condition >>= λ matcher.
      optionally (λ text. template_of (compile text)) t.rewrite >>= λ rewrite.
      compile_action step.action >>= λ action. built (record {
        matcher = matcher;
        rewrite = rewrite;
        response_headers = ops_of t.response_headers;
        action = action;
      })

  abbrev pub compile_route :
      (Bytes → Option IpAddr) → Bytes × List RouteStep → Built (Bytes × List (Routes.Step E))
  compile_route parse_addr (name, steps) = do
    compiled ← each (compile_step parse_addr) steps
    built (name, compiled)

  unfoldable pub compile_routes : (Bytes → Option IpAddr) → Dict (List RouteStep) → Built (Routes E)
  unfolding each compile_step
  compile_routes parse_addr routes = each (compile_route parse_addr) routes

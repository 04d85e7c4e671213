-- ===== src/Router/Routes.antt =====
-- crates/buran-router/src/routes.rs, from the compiled routes on: which step of a route a request
-- takes, and the walk to a decision. A `BTreeMap` is a list of its entries; texts are bytes.
pub mod Walks
pub mod Rewrites
pub mod Separators
pub mod Arguments
pub mod Compile
mod Tests
use buran.Prelude.{
  ℕ, zero, suc, Bool, true, false, not, ◌&&◌, Option, none, some, List, [], ◌∷◌, ◌++◌, ◌==◌,
  if◌then◌else◌, map, Bytes, all, is_empty, bytes_eq, codes,
}
use buran.Router.Matching.{
  RegexEngine, Pattern, Signed, Cidr, IpAddr, set_matches, cidr_set_matches,
}
use buran.Router.Template.{Template, Vars, render}
use buran.Router.Uri.{normalize_path, percent_decode, split}

pub data ServeSources : Type 0 where
  nothing everything : ServeSources
  only : List Bytes → ServeSources

-- What stands before the first byte that is `sep`, and what stands behind it, if there is one.
unfoldable pub split_at_first : ℕ → Bytes → Bytes × Option Bytes
split_at_first sep [] = ([], none)
split_at_first sep (b ∷ bs) =
    let (before, after) = split_at_first sep bs in
    if b == sep then ([], some bs) else (b ∷ before, after)

-- The name part of a `Host` header; a literal in brackets keeps its colons.
abbrev bracketed : Bytes × Option Bytes → Bytes → Bytes
bracketed (inside, none) host = host
bracketed (inside, some _) host = inside ++ (b']' ∷ [])

unfoldable pub host_name : Bytes → Bytes
unfolding split_at_first
host_name [] = []
host_name (b ∷ bs) =
    if b == b'['
    then bracketed (split_at_first b']' (b ∷ bs)) (b ∷ bs)
    else (split_at_first b':' (b ∷ bs)).0

abbrev pub plus_to_space : ℕ → ℕ
plus_to_space b = if b == b'+' then b' ' else b

unfoldable pub decode_component : Bytes → Bytes
decode_component input = percent_decode (map plus_to_space input)

abbrev pub or_empty : Option Bytes → Bytes
or_empty none = []
or_empty (some v) = v

unfoldable pub parse_arg : Bytes → Bytes × Bytes
unfolding split_at_first decode_component
parse_arg part =
    let (name, value) = split_at_first b'=' part in
    (decode_component name, decode_component (or_empty value))

abbrev pub parse_parts : List Bytes → List (Bytes × Bytes)
parse_parts [] = []
parse_parts (part ∷ parts) =
    let rest = parse_parts parts in if is_empty part then rest else parse_arg part ∷ rest

unfoldable pub parse_args : Bytes → List (Bytes × Bytes)
unfolding parse_arg split
parse_args query = parse_parts (split b'&' query)

-- The value of the first pair with a name, or nothing at all.
unfoldable pub lookup : Bytes → List (Bytes × Bytes) → Bytes
lookup name [] = []
lookup name ((n, v) ∷ pairs) = if bytes_eq n name then v else lookup name pairs

-- `remote_text` is what `IpAddr::to_string` makes of `remote`.
pub record RequestMeta : Type 0 where
  pub method : Bytes
  pub host : Bytes
  pub path : Bytes
  pub query : Bytes
  pub headers : List (Bytes × Bytes)
  pub remote : IpAddr
  pub remote_text : Bytes

-- The variables of the loop.
pub record Walk : Type 0 where
  pub current_route : Bytes
  pub path : Bytes
  pub query : Bytes
  pub rewritten : Bool
  pub header_ops : List (Bytes × Option Bytes)

abbrev pub vars_of : RequestMeta → Walk → Vars
vars_of meta w = record {
  uri = w.path;
  args = w.query;
  host = meta.host;
  method = meta.method;
  remote_addr = meta.remote_text;
}

abbrev pub to_target : Bytes × Option Bytes → Walk → Walk
to_target (new_path, new_query) w = record w {
  path = normalize_path new_path;
  query = or_empty new_query;
  rewritten = true;
}

unfoldable pub apply_rewrite : Option Template → RequestMeta → Walk → Walk
unfolding split_at_first
apply_rewrite none meta w = w
apply_rewrite (some template) meta w =
    to_target (split_at_first b'?' (render (vars_of meta w) template)) w

abbrev pub then_some : {A : Type 0} → Bool → A → Option A
then_some true a = some a
then_some false a = none

abbrev pub start : Bytes → RequestMeta → Walk
start name meta = record {
  current_route = name;
  path = meta.path;
  query = meta.query;
  rewritten = false;
  header_ops = [];
}

module _ (E : RegexEngine) where
  abbrev pub PatternSet : Type 0
  PatternSet = Signed (Pattern E.Regex)

  pub record Matcher : Type 0 where
    pub method : Option PatternSet
    pub host : Option PatternSet
    pub uri : Option PatternSet
    pub query : Option PatternSet
    pub headers : List (Bytes × PatternSet)
    pub arguments : List (Bytes × PatternSet)
    pub source : Option (Signed Cidr)

  mutual
    pub data Action : Type 0 where
      application : Bytes → Action
      route : Bytes → Action
      share : Bytes → Bytes → Option PatternSet → Bool → ServeSources → Fallback → Action
      return : ℕ → Option Bytes → Action

    -- `Option<Box<Action>>`.
    pub data Fallback : Type 0 where
      no_fallback : Fallback
      fall_back : Action → Fallback

  pub record Step : Type 0 where
    pub matcher : Option Matcher
    pub rewrite : Option Template
    pub response_headers : List (Bytes × Option Bytes)
    pub action : Action

  abbrev pub admitted : Option PatternSet → Bytes → Bool → Bool
  admitted none value ci = true
  admitted (some set) value ci = set_matches E set value ci

  abbrev from_network : Option (Signed Cidr) → IpAddr → Bool
  from_network none ip = true
  from_network (some set) ip = cidr_set_matches set ip

  abbrev pairs_admitted : List (Bytes × PatternSet) → List (Bytes × Bytes) → Bool → Bool
  pairs_admitted sets pairs ci = all (λ (name, set). set_matches E set (lookup name pairs) ci) sets

  abbrev accepts : Option Matcher → RequestMeta → Bytes → Bytes → Bool
  accepts none meta path query = true
  accepts (some m) meta path query =
      admitted m.method meta.method false
      && (admitted m.host (host_name meta.host) true
          && (admitted m.uri path false
              && (admitted m.query query false
                  && (pairs_admitted m.headers meta.headers true
                      && (pairs_admitted m.arguments (parse_args query) false
                          && from_network m.source meta.remote)))))

  unfoldable pub matches : Step → RequestMeta → Bytes → Bytes → Bool
  unfolding host_name parse_args lookup
  matches step meta path query = accepts step.matcher meta path query

  abbrev pub Routes : Type 0
  Routes = List (Bytes × List Step)

  unfoldable pub get_route : Bytes → Routes → Option (List Step)
  get_route name [] = none
  get_route name ((n, steps) ∷ routes) =
      if bytes_eq n name then some steps else get_route name routes

  unfoldable pub find : (Step → Bool) → List Step → Option Step
  find test [] = none
  find test (step ∷ steps) = if test step then some step else find test steps

  pub data Decision : Type 0 where
    to_application : Bytes → Decision
    to_share : Bytes → Bytes → Option PatternSet → Bool → ServeSources → Fallback → Decision
    to_return : ℕ → Option Bytes → Decision
    not_found : Decision

  pub record RouteOutcome : Type 0 where
    pub decision : Decision
    pub rewritten : Option (Bytes × Bytes)
    pub response_headers : List (Bytes × Option Bytes)

  -- What one hop leads to.
  pub data Hop : Type 0 where
    stuck : Hop
    jump : Walk → Hop
    decided : Decision → Walk → Hop

  abbrev pub after_action : Action → Walk → Hop
  after_action (application name) w = decided (to_application name) w
  after_action (route name) w = jump (record w { current_route = name })
  after_action (share template index types follow_symlinks serve_sources fallback) w =
      decided (to_share template index types follow_symlinks serve_sources fallback) w
  after_action (return status location) w = decided (to_return status location) w

  abbrev pub with_headers : Step → Walk → Walk
  with_headers step w = record w { header_ops = w.header_ops ++ step.response_headers }

  unfoldable pub take_step : RequestMeta → Step → Walk → Hop
  unfolding apply_rewrite
  take_step meta step w =
      after_action step.action (apply_rewrite step.rewrite meta (with_headers step w))

  abbrev pub matching_step : RequestMeta → Walk → Option (List Step) → Option Step
  matching_step meta w none = none
  matching_step meta w (some steps) = find (λ s. matches s meta w.path w.query) steps

  abbrev pub hop_of : RequestMeta → Walk → Option Step → Hop
  hop_of meta w none = stuck
  hop_of meta w (some step) = take_step meta step w

  unfoldable pub hop : Routes → RequestMeta → Walk → Hop
  hop routes meta w = hop_of meta w (matching_step meta w (get_route w.current_route routes))

  abbrev pub outcome : Decision → Walk → RouteOutcome
  outcome d w = record {
    decision = d;
    rewritten = then_some w.rewritten (w.path, w.query);
    response_headers = w.header_ops;
  }

  -- At most `hops` rounds of the loop.
  unfoldable pub walk : ℕ → Routes → RequestMeta → Walk → RouteOutcome
  walk zero routes meta w = outcome not_found w
  walk (suc hops) routes meta w = elim (hop routes meta w) [
    | stuck ↦ outcome not_found w
    | jump v ↦ walk hops routes meta v
    | decided d v ↦ outcome d v
  ]

  unfoldable pub decide : Routes → Bytes → RequestMeta → RouteOutcome
  unfolding walk hop
  decide routes name meta = walk 16 routes meta (start name meta)

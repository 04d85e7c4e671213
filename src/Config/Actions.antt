-- ===== src/Config/Actions.antt =====
-- crates/buran-config/src/validate.rs, validate_action: which actions are accepted.
use buran.Prelude.{
  is_some, between, ℕ, ◌+◌, Bool, true, false, not, ◌&&◌, ◌||◌, Option, none, some, List, [], ◌∷◌,
  ◌==◌, if◌then◌else◌, Bytes, any, all, ◌≡◌, refl, Bool-cases, inl, inr, ==_iff, arith,
}
use buran.Config.{
  Dict, contains_key, count, ApplicationRef, Application, Share, Terminal, Action, RouteStep,
  Checked, passed, invalid, require, ◌>>=◌, require-true, bind-passed, is_enabled, named, inline,
  full, last, falling_back, not_one_terminal, unknown_application, unknown_route, code_out_of_range,
  location_without_redirect, location_without_return, control_in_header, many_paths,
  fallback_without_share, sources_exposed,
}

abbrev pub count_if : Bool → ℕ
count_if b = if b then 1 else 0

unfoldable pub terminals : Terminal → ℕ
terminals t =
    count_if (is_some t.application)
    + (count_if (is_some t.route) + (count_if (is_some t.share) + count_if (is_some t.return_code)))

-- An application that is named stands among the applications.
abbrev pub knows_application : Dict Application → Option ApplicationRef → Bool
knows_application apps (some (named name)) = contains_key name apps
knows_application apps (some (inline app)) = true
knows_application apps none = true

abbrev pub knows_route : Dict (List RouteStep) → Option Bytes → Bool
knows_route routes (some name) = contains_key name routes
knows_route routes none = true

unfoldable pub check_return : Option ℕ → Option Bytes → Checked Unit
check_return (some code) location =
    if between 100 599 code
    then require (not (is_some location) || between 300 399 code) location_without_redirect
    else invalid code_out_of_range
check_return none location = require (not (is_some location)) location_without_return

abbrev pub splits_header : ℕ → Bool
splits_header b = b == 13 || (b == 10 || b == 0)

abbrev pub is_header_text : Bytes → Bool
is_header_text value = not (any splits_header value)

abbrev pub is_header_value : Option Bytes → Bool
is_header_value (some value) = is_header_text value
is_header_value none = true

unfoldable pub reject_header_control : Bytes → Checked Unit
reject_header_control value = require (is_header_text value) control_in_header

unfoldable pub check_headers : Dict (Option Bytes) → Checked Unit
unfolding reject_header_control
check_headers [] = passed tt
check_headers ((name, value) ∷ headers) = do
  seen ← reject_header_control name
  also ← require (is_header_value value) control_in_header
  check_headers headers

abbrev check_response_headers : Option (Dict (Option Bytes)) → Checked Unit
check_response_headers (some headers) = check_headers headers
check_response_headers none = passed tt

abbrev pub has_one_path : Option Share → Bool
has_one_path (some (full opts)) = count opts.share == 1
has_one_path _ = true

abbrev pub serves_sources : Option Share → Bool
serves_sources (some (full opts)) = is_enabled opts.serve_sources
serves_sources _ = false

unfoldable pub action_reaches_application : Action → Bool
action_reaches_application (last t) = is_some t.application
action_reaches_application (falling_back t fallback) =
    is_some t.application || action_reaches_application fallback

-- The fallback of an action, as far as its checks read it: whether it reaches an application.
abbrev pub reaches : Option Bool → Bool
reaches (some b) = b
reaches none = false

unfoldable pub check_terminal :
    Terminal → Option Bool → Dict (List RouteStep) → Dict Application → Checked Unit
unfolding terminals check_return check_headers count is_enabled contains_key
check_terminal t fallback routes apps = do
  single ← require (terminals t == 1) not_one_terminal
  application ← require (knows_application apps t.application) unknown_application
  route ← require (knows_route routes t.route) unknown_route
  code ← check_return t.return_code t.location
  location ← require (is_header_value t.location) control_in_header
  headers ← check_response_headers t.response_headers
  paths ← require (has_one_path t.share) many_paths
  shared ← require (not (is_some fallback) || is_some t.share) fallback_without_share
  require (not (serves_sources t.share && reaches fallback)) sources_exposed

unfoldable pub validate_action : Action → Dict (List RouteStep) → Dict Application → Checked Unit
unfolding check_terminal action_reaches_application
validate_action (last t) routes apps = check_terminal t none routes apps
validate_action (falling_back t fallback) routes apps = do
  own ← check_terminal t (some (action_reaches_application fallback)) routes apps
  validate_action fallback routes apps

-- A code that can be a status, with a `location` only for a redirect.
abbrev pub is_legal_return : Option ℕ → Option Bytes → Bool
is_legal_return (some code) location =
    between 100 599 code && (not (is_some location) || between 300 399 code)
is_legal_return none location = not (is_some location)

abbrev pub are_header_lines : Option (Dict (Option Bytes)) → Bool
are_header_lines none = true
are_header_lines (some headers) = all (λ h. is_header_text h.0 && is_header_value h.1) headers

-- What an accepted action has, apart from its fallback.
pub record IsSoundTerminal (t : Terminal) (fallback : Option Bool) (routes : Dict (List RouteStep))
    (apps : Dict Application) : Type 0 where
  pub single : terminals t ≡ 1
  pub application : knows_application apps t.application ≡ true
  pub route : knows_route routes t.route ≡ true
  pub code : is_legal_return t.return_code t.location ≡ true
  pub location : is_header_value t.location ≡ true
  pub headers : are_header_lines t.response_headers ≡ true
  pub paths : has_one_path t.share ≡ true
  pub shared : (not (is_some fallback) || is_some t.share) ≡ true
  pub sources : (serves_sources t.share && reaches fallback) ≡ false

-- The fallback is sound in its turn.
abbrev pub IsSound : Action → Dict (List RouteStep) → Dict Application → Type 0
IsSound (last t) routes apps = IsSoundTerminal t none routes apps
IsSound (falling_back t fallback) routes apps =
    IsSoundTerminal t (some (action_reaches_application fallback)) routes apps
    × IsSound fallback routes apps

check_return-legal :
    (o : Option ℕ) (location : Option Bytes) (u : Unit)
    → check_return o location ≡ passed u
    → is_legal_return o location ≡ true
unfolding check_return
check_return-legal none location u e = require-true _ _ u e
check_return-legal (some code) location u e = elim (Bool-cases (between 100 599 code)) [
  | inl ok ↦ let e' = rw ok at e in rw ok (require-true _ _ u e')
  | inr bad ↦ cc (rw bad at e)
]

check_headers-lines :
    (headers : Dict (Option Bytes)) (u : Unit)
    → check_headers headers ≡ passed u
    → all (λ h. is_header_text h.0 && is_header_value h.1) headers ≡ true
unfolding check_headers reject_header_control
check_headers-lines [] u e = refl
check_headers-lines ((name, value) ∷ headers) u e =
    let (u₁, (a, e₁)) = bind-passed _ _ u e in
    let (u₂, (b, e₂)) = bind-passed _ _ u e₁ in
    let name_ok = require-true _ (is_header_text name) u₁ a in
    let value_ok = require-true _ (is_header_value value) u₂ b in
    rw (name_ok, value_ok, check_headers-lines headers u e₂) refl

check_response_headers-lines :
    (headers : Option (Dict (Option Bytes))) (u : Unit)
    → check_response_headers headers ≡ passed u
    → are_header_lines headers ≡ true
check_response_headers-lines none u e = refl
check_response_headers-lines (some headers) u e = check_headers-lines headers u e

pub check_terminal-IsSound :
    (t : Terminal) (fallback : Option Bool) (routes : Dict (List RouteStep))
    (apps : Dict Application) (u : Unit)
    → check_terminal t fallback routes apps ≡ passed u
    → IsSoundTerminal t fallback routes apps
unfolding check_terminal
check_terminal-IsSound t fallback routes apps u e =
    let (u₁, (single, e₁)) = bind-passed _ _ u e in
    let (u₂, (application, e₂)) = bind-passed _ _ u e₁ in
    let (u₃, (route, e₃)) = bind-passed _ _ u e₂ in
    let (u₄, (code, e₄)) = bind-passed _ _ u e₃ in
    let (u₅, (location, e₅)) = bind-passed _ _ u e₄ in
    let (u₆, (headers, e₆)) = bind-passed _ _ u e₅ in
    let (u₇, (paths, e₇)) = bind-passed _ _ u e₆ in
    let (u₈, (shared, sources)) = bind-passed _ _ u e₇ in
    record {
      single = (==_iff (terminals t) 1).0 (require-true _ _ u₁ single);
      application = require-true _ _ u₂ application;
      route = require-true _ _ u₃ route;
      code = check_return-legal t.return_code t.location u₄ code;
      location = require-true _ _ u₅ location;
      headers = check_response_headers-lines t.response_headers u₆ headers;
      paths = require-true _ _ u₇ paths;
      shared = require-true _ _ u₈ shared;
      sources = ground (arith, require-true _ _ u sources);
    }

pub validate_action-IsSound :
    (action : Action) (routes : Dict (List RouteStep)) (apps : Dict Application) (u : Unit)
    → validate_action action routes apps ≡ passed u
    → IsSound action routes apps
unfolding validate_action
validate_action-IsSound (last t) routes apps u e = check_terminal-IsSound t none routes apps u e
validate_action-IsSound (falling_back t fallback) routes apps u e =
    let (own, (a, rest)) = bind-passed _ _ u e in
    (
      check_terminal-IsSound t (some (action_reaches_application fallback)) routes apps own a,
      validate_action-IsSound fallback routes apps u rest,
    )

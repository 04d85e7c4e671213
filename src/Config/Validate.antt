-- ===== src/Config/Validate.antt =====
-- crates/buran-config/src/validate.rs: the whole validation. `workers` is what auto_worker_count
-- returns at the start.
pub mod Ready
use buran.Prelude.{
  is_some, ℕ, zero, suc, ◌+◌, ◌≤◌, Bool, true, false, not, ◌&&◌, ◌||◌, Option, none, some, List, [],
  ◌∷◌, ◌++◌, if◌then◌else◌, Bytes, is_empty, ◌==◌,
}
use buran.Config.{
  Dict, contains_key, Application, Processes, Action, RouteStep, Match, Listener, HttpSettings,
  Config, Checked, Problem, passed, invalid, require, ◌>>=◌, fixed, dynamic, auto, zero_setting,
  no_listeners, bad_address, unknown_route, exclusive_listener, empty_listener, no_steps,
  unreachable_steps,
}
use buran.Config.Actions.{validate_action}
use buran.Config.Applications.{validate_application}
use buran.Config.Inline.{extract_routes}
use buran.Config.Listeners.{Net, parse_listener_addr}

pub record Validated : Type 0 where
  pub config : Config
  pub applications : Dict Application

abbrev some_value : ℕ → Bool
some_value n = not (n == 0)

unfoldable pub check_settings : HttpSettings → Checked Unit
check_settings http =
    require
      (some_value http.header_read_timeout
        && (some_value http.body_read_timeout
            && (some_value http.send_timeout
                && (some_value http.idle_timeout
                    && (some_value http.websocket_idle_timeout
                        && some_value http.max_message_size)))))
      zero_setting

abbrev pub is_passed : {A : Type 0} → Checked A → Bool
is_passed (passed a) = true
is_passed (invalid problem) = false

abbrev pub check_target : Dict (List RouteStep) → Option Bytes → Bool → Checked Unit
check_target routes (some route) false = require (contains_key route routes) unknown_route
check_target routes none true = passed tt
check_target routes (some route) true = invalid exclusive_listener
check_target routes none false = invalid empty_listener

unfoldable pub check_listeners : Net → Dict Listener → Dict (List RouteStep) → Checked Unit
unfolding parse_listener_addr contains_key
check_listeners net [] routes = passed tt
check_listeners net ((addr, listener) ∷ listeners) routes = do
  address ← require (is_passed (parse_listener_addr net addr)) bad_address
  target ← check_target routes listener.route listener.status
  check_listeners net listeners routes

unfoldable pub check_steps :
    List RouteStep → Dict (List RouteStep) → Dict Application → Checked Unit
unfolding validate_action
check_steps [] routes apps = passed tt
check_steps (step ∷ steps) routes apps = do
  reachable ← require (is_some step.condition || is_empty steps) unreachable_steps
  own ← validate_action step.action routes apps
  check_steps steps routes apps

unfoldable pub check_routes :
    Dict (List RouteStep) → Dict (List RouteStep) → Dict Application → Checked Unit
unfolding check_steps
check_routes [] routes apps = passed tt
check_routes ((name, steps) ∷ rest) routes apps = do
  some_steps ← require (not (is_empty steps)) no_steps
  own ← check_steps steps routes apps
  check_routes rest routes apps

abbrev pub resolve_processes : ℕ → Processes → Processes
resolve_processes workers (fixed n) = fixed n
resolve_processes workers (dynamic max spare idle) = dynamic max spare idle
resolve_processes workers auto = fixed workers

unfoldable pub resolve_auto : ℕ → Dict Application → Dict Application
resolve_auto workers [] = []
resolve_auto workers ((name, app) ∷ apps) =
    (name, record app { processes = resolve_processes workers app.processes })
    ∷ resolve_auto workers apps

unfoldable pub check_applications : Dict Application → Checked Unit
unfolding validate_application
check_applications [] = passed tt
check_applications ((name, app) ∷ apps) = do own ← validate_application app; check_applications apps

-- The checks on the routes and applications that extraction gives.
unfoldable pub check_extracted :
    Net → ℕ → Config → Dict (List RouteStep) → Dict Application → Checked Unit
unfolding check_listeners check_routes resolve_auto check_applications
check_extracted net workers config routes apps = do
  some_listener ← require (not (is_empty config.listeners)) no_listeners
  listeners ← check_listeners net config.listeners routes
  steps ← check_routes routes routes apps
  check_applications (resolve_auto workers apps)

unfoldable pub resolved : ℕ → Config → Dict (List RouteStep) → Dict Application → Validated
unfolding resolve_auto
resolved workers config routes apps = record {
  config = record config {
    routes = routes;
    applications = resolve_auto workers config.applications;
  };
  applications = resolve_auto workers apps;
}

abbrev pub resolve_checked :
    ℕ → Config → Dict (List RouteStep) → Dict Application → Unit {0} → Checked Validated
resolve_checked workers config routes apps u = passed (resolved workers config routes apps)

abbrev pub after_extraction :
    Net → ℕ → Config → Dict (List RouteStep) × Dict Application → Checked Validated
after_extraction net workers config (routes, apps) =
    check_extracted net workers config routes apps >>= resolve_checked workers config routes apps

unfoldable pub validate : Net → ℕ → Config → Checked Validated
unfolding check_settings extract_routes
validate net workers config = check_settings config.http >>= (λ u.
    extract_routes config.routes config.applications >>= after_extraction net workers config)

-- ===== src/Config/Validate/Ready.antt =====
-- crates/buran-config/src/validate.rs: what the router and the workers may rely on.
use buran.Prelude.{
  is_some, ℕ, Bool, true, false, not, ◌||◌, Option, none, some, List, [], ◌∷◌, Bytes, is_empty,
  bytes_eq, ◌≡◌, refl, ap, ◌∙◌, subst, All, arith,
}
use buran.Config.{
  Dict, contains_key, Application, ApplicationRef, Processes, Action, Terminal, RouteStep, Listener,
  Config, passed, require-true, bind-passed, fixed, dynamic, auto, named, inline, last,
  falling_back, ◌>>=◌,
}
use buran.Config.Actions.{
  IsSoundTerminal, IsSound, validate_action-IsSound, knows_application, action_reaches_application,
}
use buran.Config.Applications.{IsRunnable, validate_application-IsRunnable, is_auto}
use buran.Config.Inline.{extract_routes, extract_routes-AreReferences, AreReferences}
use buran.Config.Listeners.{Net, parse_listener_addr}
use buran.Config.Validate.{
  Validated, check_settings, is_passed, check_target, check_listeners, check_steps, check_routes,
  resolve_processes, resolve_auto, check_applications, validate, check_extracted, resolved,
  resolve_checked, after_extraction,
}

-- A listener has a route that exists, or shows the status, and an address.
abbrev pub has_target : Dict (List RouteStep) → Option Bytes → Bool → Bool
has_target routes (some route) false = contains_key route routes
has_target routes none true = true
has_target routes _ _ = false

abbrev pub IsServed : Net → Dict (List RouteStep) → Bytes × Listener → Type 0
IsServed net routes (addr, listener) =
    (is_passed (parse_listener_addr net addr) ≡ true)
    × (has_target routes listener.route listener.status ≡ true)

check_target-has_target :
    (routes : Dict (List RouteStep)) (o : Option Bytes) (status : Bool) (u : Unit)
    → check_target routes o status ≡ passed u
    → has_target routes o status ≡ true
check_target-has_target routes (some route) false u e = require-true _ _ u e
check_target-has_target routes none true u e = refl
check_target-has_target routes (some route) true u e = cc e
check_target-has_target routes none false u e = cc e

check_listeners-IsServed :
    (net : Net) (listeners : Dict Listener) (routes : Dict (List RouteStep)) (u : Unit)
    → check_listeners net listeners routes ≡ passed u
    → All (IsServed net routes) listeners
unfolding check_listeners
check_listeners-IsServed net [] routes u e = tt
check_listeners-IsServed net ((addr, listener) ∷ listeners) routes u e =
    let (u₁, (address, e₁)) = bind-passed {A = Unit} _ _ u e in
    let (u₂, (target, e₂)) = bind-passed {A = Unit} _ _ u e₁ in
    (
      (
        require-true _ _ u₁ address,
        check_target-has_target routes listener.route listener.status u₂ target,
      ),
      check_listeners-IsServed net listeners routes u e₂,
    )

-- Steps behind which others stand have a condition, and every action is sound.
abbrev pub AreSound : Dict (List RouteStep) → Dict Application → List RouteStep → Type 0
AreSound routes apps [] = Unit
AreSound routes apps (step ∷ steps) =
    ((is_some step.condition || is_empty steps) ≡ true)
    × (IsSound step.action routes apps × AreSound routes apps steps)

check_steps-AreSound :
    (steps : List RouteStep) (routes : Dict (List RouteStep)) (apps : Dict Application) (u : Unit)
    → check_steps steps routes apps ≡ passed u
    → AreSound routes apps steps
unfolding check_steps
check_steps-AreSound [] routes apps u e = tt
check_steps-AreSound (step ∷ steps) routes apps u e =
    let (u₁, (reachable, e₁)) = bind-passed {A = Unit} _ _ u e in
    let (u₂, (own, e₂)) = bind-passed {A = Unit} _ _ u e₁ in
    (
      require-true _ _ u₁ reachable,
      (
        validate_action-IsSound step.action routes apps u₂ own,
        check_steps-AreSound steps routes apps u e₂,
      ),
    )

abbrev pub IsRoute : Dict (List RouteStep) → Dict Application → List RouteStep → Type 0
IsRoute routes apps steps = (is_empty steps ≡ false) × AreSound routes apps steps

check_routes-IsRoute :
    (rest routes : Dict (List RouteStep)) (apps : Dict Application) (u : Unit)
    → check_routes rest routes apps ≡ passed u
    → All (λ r. IsRoute routes apps r.1) rest
unfolding check_routes
check_routes-IsRoute [] routes apps u e = tt
check_routes-IsRoute ((name, steps) ∷ rest) routes apps u e =
    let (u₁, (some_steps, e₁)) = bind-passed {A = Unit} _ _ u e in
    let (u₂, (own, e₂)) = bind-passed {A = Unit} _ _ u e₁ in
    let filled : not (is_empty steps) ≡ true = require-true _ _ u₁ some_steps in
    (
      (ground (arith, filled), check_steps-AreSound steps routes apps u₂ own),
      check_routes-IsRoute rest routes apps u e₂,
    )

resolve_processes-is_auto : (w : ℕ) (p : Processes) → is_auto (resolve_processes w p) ≡ false
resolve_processes-is_auto w (fixed n) = refl
resolve_processes-is_auto w (dynamic max spare idle) = refl
resolve_processes-is_auto w auto = refl

check_applications-IsRunnable :
    (w : ℕ) (apps : Dict Application) (u : Unit)
    → check_applications (resolve_auto w apps) ≡ passed u
    → All (λ a. IsRunnable a.1) (resolve_auto w apps)
unfolding check_applications resolve_auto
check_applications-IsRunnable w [] u e = tt
check_applications-IsRunnable w ((name, app) ∷ apps) u e =
    let (u₁, (own, rest)) = bind-passed {A = Unit} _ _ u e in
    (
      validate_application-IsRunnable _ u₁ (resolve_processes-is_auto w app.processes) own,
      check_applications-IsRunnable w apps u rest,
    )

-- Resolving `auto` keeps the names.
contains_key-resolve_auto :
    (w : ℕ) (k : Bytes) (apps : Dict Application)
    → contains_key k (resolve_auto w apps) ≡ contains_key k apps
unfolding contains_key resolve_auto
contains_key-resolve_auto w k [] = refl
contains_key-resolve_auto w k ((name, app) ∷ apps) =
    ap (λ b. bytes_eq k name || b) (contains_key-resolve_auto w k apps)

knows_application-resolve_auto :
    (w : ℕ) (apps : Dict Application) (o : Option ApplicationRef)
    → knows_application apps o ≡ true
    → knows_application (resolve_auto w apps) o ≡ true
knows_application-resolve_auto w apps none e = refl
knows_application-resolve_auto w apps (some (inline app)) e = refl
knows_application-resolve_auto w apps (some (named name)) e =
    contains_key-resolve_auto w name apps ∙ e

resolved_terminal :
    (w : ℕ) (t : Terminal) (fallback : Option Bool) (routes : Dict (List RouteStep))
    (apps : Dict Application)
    → IsSoundTerminal t fallback routes apps
    → IsSoundTerminal t fallback routes (resolve_auto w apps)
resolved_terminal w t fallback routes apps s = record {
  single = s.single;
  application = knows_application-resolve_auto w apps t.application s.application;
  route = s.route;
  code = s.code;
  location = s.location;
  headers = s.headers;
  paths = s.paths;
  shared = s.shared;
  sources = s.sources;
}

resolved_action :
    (w : ℕ) (action : Action) (routes : Dict (List RouteStep)) (apps : Dict Application)
    → IsSound action routes apps
    → IsSound action routes (resolve_auto w apps)
resolved_action w (last t) routes apps s = resolved_terminal w t none routes apps s
resolved_action w (falling_back t fallback) routes apps (own, rest) = (
  resolved_terminal w t (some (action_reaches_application fallback)) routes apps own,
  resolved_action w fallback routes apps rest,
)

resolved_steps :
    (w : ℕ) (steps : List RouteStep) (routes : Dict (List RouteStep)) (apps : Dict Application)
    → AreSound routes apps steps
    → AreSound routes (resolve_auto w apps) steps
resolved_steps w [] routes apps s = tt
resolved_steps w (step ∷ steps) routes apps (reachable, (own, rest)) = (
  reachable,
  (resolved_action w step.action routes apps own, resolved_steps w steps routes apps rest),
)

resolved_routes :
    (w : ℕ) (rest routes : Dict (List RouteStep)) (apps : Dict Application)
    → All (λ r. IsRoute routes apps r.1) rest
    → All (λ r. IsRoute routes (resolve_auto w apps) r.1) rest
resolved_routes w [] routes apps a = tt
resolved_routes w ((name, steps) ∷ rest) routes apps ((filled, own), a) =
    ((filled, resolved_steps w steps routes apps own), resolved_routes w rest routes apps a)

-- What an accepted configuration is.
pub record IsReady (net : Net) (v : Validated) : Type 0 where
  pub listens : is_empty v.config.listeners ≡ false
  pub served : All (IsServed net v.config.routes) v.config.listeners
  pub routes : All (λ r. IsRoute v.config.routes v.applications r.1) v.config.routes
  pub references : All (λ r. AreReferences r.1) v.config.routes
  pub runnable : All (λ a. IsRunnable a.1) v.applications

passed_value : {A : Type 0} {a b : A} → passed a ≡ passed b → a ≡ b
passed_value e = cc e

check_extracted-IsReady :
    (net : Net) (workers : ℕ) (config : Config) (routes : Dict (List RouteStep))
    (apps : Dict Application) (u : Unit)
    → check_extracted net workers config routes apps ≡ passed u
    → All (λ r. AreReferences r.1) routes
    → IsReady net (resolved workers config routes apps)
unfolding check_extracted resolved
check_extracted-IsReady net workers config routes apps u e references =
    let (u₁, (listener, e₁)) = bind-passed _ _ u e in
    let (u₂, (listeners, e₂)) = bind-passed _ _ u e₁ in
    let (u₃, (steps, runnable)) = bind-passed _ _ u e₂ in
    let some_listener : not (is_empty config.listeners) ≡ true = require-true _ _ u₁ listener in
    record {
      listens = ground (arith, some_listener);
      served = check_listeners-IsServed net config.listeners routes u₂ listeners;
      routes =
          resolved_routes workers routes routes apps
            (check_routes-IsRoute routes routes apps u₃ steps);
      references = references;
      runnable = check_applications-IsRunnable workers apps u runnable;
    }

-- An accepted configuration has a listener, every listener an address and a target that exists;
-- every route has steps, none unreachable; every action, the fallbacks too, has one terminal, whose
-- route and application exist, and header texts without line breaks; no application is left in an
-- action; and every application has workers, slots and room in its queue.
pub validate-IsReady :
    (net : Net) (workers : ℕ) (config : Config) (v : Validated)
    → validate net workers config ≡ passed v
    → IsReady net v
unfolding validate
validate-IsReady net workers config v e =
    let (u, (settings, e₁)) =
      bind-passed (check_settings config.http)
        (λ u.
          extract_routes config.routes config.applications >>= after_extraction net workers config)
        v e in
    let ((routes, apps), (extracted, e₂)) =
      bind-passed (extract_routes config.routes config.applications)
        (after_extraction net workers config) v e₁ in
    let (u₂, (checked, e₃)) =
      bind-passed (check_extracted net workers config routes apps)
        (resolve_checked workers config routes apps) v e₂ in
    subst (IsReady net) (passed_value e₃) (
      check_extracted-IsReady net workers config routes apps u₂ checked
        (extract_routes-AreReferences config.routes routes config.applications apps extracted))

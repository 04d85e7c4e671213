-- ===== src/Router/Routes/Compile/Reached.antt =====
-- crates/buran-router/src/routes.rs, compile: the calls of `unreachable!` are not reached on a
-- configuration that was loaded.
use buran.Prelude.{
  is_some, ℕ, ◌+◌, ◌≡◌, refl, Bool, true, false, ◌&&◌, Option, none, some, List, [], ◌∷◌, Bytes,
  All, arith,
}
use buran.Config
use buran.Config.{Dict, OneOrMany, RouteStep, Terminal, Match, Application, passed}
use buran.Config.Actions.{IsSound, terminals, count_if}
use buran.Config.Inline.{is_reference, has_no_inline, AreReferences}
use buran.Config.Listeners.{Net}
use buran.Config.Validate.{Validated}
use buran.Config.Validate.Ready.{AreSound, IsRoute}
use buran.Config.Substitution.{Env}
use buran.Config.Loading.{Text, Serde, from_str, loaded}
use buran.Config.Loading.Outcomes.{loaded-IsReady}
use buran.Router.Matching.{RegexEngine, IpAddr}
use buran.Router.Template
use buran.Router.Template.{Template, compile}
use buran.Router.Template.Compiling.{compile_total}
use buran.Router.Routes
use buran.Router.Routes.Compile.{
  Built, built, rejected, unreachable, ◌>>=◌, or_reject, optionally, each, template_of, build_set,
  build_pair, build_pairs, compile_match, build_share, build_terminal, compile_action, compile_step,
  compile_route, compile_routes,
}

unfoldable pub panics {ℓ} : {A : Type ℓ} → Built A → Bool
panics (built a) = false
panics rejected = false
panics unreachable = true

abbrev IsSafe {ℓ} : {A : Type ℓ} → Built A → Type 0
IsSafe b = panics b ≡ false

bind-IsSafe {ℓ κ} :
    {A : Type ℓ} {B : Type κ} (c : Built A) (f : A → Built B)
    → IsSafe c
    → ((a : A) → IsSafe (f a))
    → IsSafe (c >>= f)
unfolding panics
bind-IsSafe (built a) f safe rest = rest a
bind-IsSafe rejected f safe rest = refl
bind-IsSafe unreachable f safe rest = cc safe

or_reject-IsSafe {ℓ} : {A : Type ℓ} (o : Option A) → IsSafe (or_reject o)
unfolding panics
or_reject-IsSafe none = refl
or_reject-IsSafe (some a) = refl

optionally-IsSafe {ℓ κ} :
    {A : Type ℓ} {B : Type κ} (f : A → Built B) (o : Option A)
    → ((a : A) → IsSafe (f a))
    → IsSafe (optionally f o)
unfolding panics
optionally-IsSafe f none safe = refl
optionally-IsSafe f (some a) safe = bind-IsSafe (f a) _ (safe a) (λ b. refl)

each-IsSafe {ℓ κ} :
    {A : Type ℓ} {B : Type κ} (f : A → Built B) (P : A → Type 0) (as' : List A)
    → ((a : A) → P a → IsSafe (f a))
    → All P as'
    → IsSafe (each f as')
unfolding each panics
each-IsSafe f P [] safe h = refl
each-IsSafe f P (a ∷ as') safe (p, h) =
    bind-IsSafe (f a) _ (safe a p)
      (λ b. bind-IsSafe (each f as') _ (each-IsSafe f P as' safe h) (λ bs. refl))

template_of-IsSafe : (text : Bytes) → IsSafe (template_of (compile text))
template_of-IsSafe text = found (compile text) (compile_total text)
  where
    found :
        (o : Option (Template.Result Template))
        → ((r : Template.Result Template) × (o ≡ some r))
        → IsSafe (template_of o)
    found none (r, e) = cc e
    found (some (Template.ok t)) h = unfold panics in refl
    found (some (Template.err x)) h = unfold panics in refl

All-true : {A : Type 0} (as' : List A) → All {0, 0} (λ a. Unit) as'
All-true [] = tt
All-true (a ∷ as') = (tt, All-true as')

both_true : (a b : Bool) → (a && b) ≡ true → (a ≡ true) × (b ≡ true)
both_true true b h = (refl, h)
both_true false b h = cc h

module _ (E : RegexEngine) (parse_addr : Bytes → Option IpAddr) where
  build_pairs-IsSafe :
      (ci : Bool) (o : Option (Dict (OneOrMany Bytes))) → IsSafe (build_pairs E ci o)
  unfolding panics
  build_pairs-IsSafe ci none = refl
  build_pairs-IsSafe ci (some m) =
      each-IsSafe (build_pair E ci) (λ p. Unit) m
        (λ (name, patterns) u.
          bind-IsSafe (build_set E ci patterns) _ (or_reject-IsSafe _) (λ s. refl))
        (All-true m)

  build_sets-IsSafe :
      (ci : Bool) (o : Option (OneOrMany Bytes)) → IsSafe (optionally (build_set E ci) o)
  build_sets-IsSafe ci o = optionally-IsSafe (build_set E ci) o (λ p. or_reject-IsSafe _)

  compile_match-IsSafe : (m : Match) → IsSafe (compile_match E parse_addr m)
  unfolding compile_match panics
  compile_match-IsSafe m = bind-IsSafe _ _ (build_sets-IsSafe false m.method) (λ method.
      bind-IsSafe _ _ (build_sets-IsSafe true m.host) (λ host.
        bind-IsSafe _ _ (build_sets-IsSafe false m.uri) (λ uri.
          bind-IsSafe _ _ (build_sets-IsSafe false m.query) (λ query.
            bind-IsSafe _ _ (build_pairs-IsSafe true m.headers) (λ headers.
              bind-IsSafe _ _ (build_pairs-IsSafe false m.arguments) (λ arguments.
                bind-IsSafe _ _ (optionally-IsSafe _ m.source (λ s. or_reject-IsSafe _))
                  (λ source. refl)))))))

  build_share-IsSafe :
      (share : Config.Share) (fallback : Built (Routes.Fallback E))
      → IsSafe fallback
      → IsSafe (build_share E share fallback)
  unfolding panics
  build_share-IsSafe (Config.path p) fallback safe = bind-IsSafe fallback _ safe (λ f. refl)
  build_share-IsSafe (Config.full o) fallback safe =
      bind-IsSafe _ _ (build_sets-IsSafe true o.types)
        (λ types. bind-IsSafe fallback _ safe (λ f. refl))

  build_terminal-IsSafe :
      (application : Option Config.ApplicationRef) (route : Option Bytes)
      (share : Option Config.Share) (code : Option ℕ) (location : Option Bytes)
      (fallback : Built (Routes.Fallback E))
      → is_reference application ≡ true
      → count_if (is_some application)
          + (count_if (is_some route) + (count_if (is_some share) + count_if (is_some code)))
        ≡ 1
      → IsSafe fallback
      → IsSafe (build_terminal E application route share code location fallback)
  unfolding build_terminal panics
  build_terminal-IsSafe (some (Config.named name)) route share code location fallback r n safe =
      refl
  build_terminal-IsSafe (some (Config.inline app)) route share code location fallback r n safe =
      cc r
  build_terminal-IsSafe none (some route) share code location fallback r n safe = refl
  build_terminal-IsSafe none none (some share) code location fallback r n safe =
      build_share-IsSafe share fallback safe
  build_terminal-IsSafe none none none (some code) location fallback r n safe = refl
  build_terminal-IsSafe none none none none location fallback r n safe = ground (arith, n)

  compile_action-IsSafe :
      (action : Config.Action) (routes : Dict (List RouteStep)) (apps : Dict Application)
      → IsSound action routes apps
      → has_no_inline action ≡ true
      → IsSafe (compile_action E action)
  unfolding compile_action has_no_inline terminals panics
  compile_action-IsSafe (Config.last t) routes apps sound reference =
      build_terminal-IsSafe t.application t.route t.share t.return_code t.location _ reference
        sound.single refl
  compile_action-IsSafe (Config.falling_back t fallback) routes apps (sound, below) reference =
      let (own, rest) = both_true (is_reference t.application) (has_no_inline fallback) reference in
      build_terminal-IsSafe t.application t.route t.share t.return_code t.location _ own
        sound.single
        (bind-IsSafe (compile_action E fallback) _
          (compile_action-IsSafe fallback routes apps below rest) (λ a. refl))

  compile_step-IsSafe :
      (step : RouteStep) (routes : Dict (List RouteStep)) (apps : Dict Application)
      → IsSound step.action routes apps
      → has_no_inline step.action ≡ true
      → IsSafe (compile_step E parse_addr step)
  unfolding compile_step panics
  compile_step-IsSafe step routes apps sound reference =
      bind-IsSafe _ _ (optionally-IsSafe _ step.condition compile_match-IsSafe) (λ matcher.
        bind-IsSafe _ _ (optionally-IsSafe _ _ template_of-IsSafe) (λ rewrite.
          bind-IsSafe _ _ (compile_action-IsSafe step.action routes apps sound reference)
            (λ action. refl)))

  compile_steps-IsSafe :
      (steps : List RouteStep) (routes : Dict (List RouteStep)) (apps : Dict Application)
      → AreSound routes apps steps
      → AreReferences steps
      → IsSafe (each (compile_step E parse_addr) steps)
  unfolding each panics
  compile_steps-IsSafe [] routes apps sound references = refl
  compile_steps-IsSafe (step ∷ steps) routes apps (reached, (sound, rest)) (reference, more) =
      bind-IsSafe _ _ (compile_step-IsSafe step routes apps sound reference)
        (λ s. bind-IsSafe _ _ (compile_steps-IsSafe steps routes apps rest more) (λ ss. refl))

  compile_each-IsSafe :
      (some_routes routes : Dict (List RouteStep)) (apps : Dict Application)
      → All (λ r. IsRoute routes apps r.1) some_routes
      → All (λ r. AreReferences r.1) some_routes
      → IsSafe (each (compile_route E parse_addr) some_routes)
  unfolding each panics
  compile_each-IsSafe [] routes apps sound references = refl
  compile_each-IsSafe ((name, steps) ∷ more) routes apps ((steps_there, sound), rest)
        (own, others) =
      bind-IsSafe _ _
        (bind-IsSafe _ _ (compile_steps-IsSafe steps routes apps sound own) (λ compiled. refl))
        (λ r. bind-IsSafe _ _ (compile_each-IsSafe more routes apps rest others) (λ rs. refl))

  -- The routes of a configuration that was loaded from a text compile, or an error is reported for a
  -- pattern, a template or an address; no `unreachable!` of the compilation is reached.
  pub compile_routes-after_load :
      (net : Net) (workers : ℕ) (serde : Serde) (env : Env) (yaml : Text) (v : Validated)
      → from_str net workers serde env yaml ≡ some (loaded v)
      → panics (compile_routes E parse_addr v.config.routes) ≡ false
  unfolding compile_routes
  compile_routes-after_load net workers serde env yaml v e =
      let ready = loaded-IsReady net workers serde env yaml v e in
      compile_each-IsSafe v.config.routes v.config.routes v.applications ready.routes
        ready.references

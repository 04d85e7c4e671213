-- ===== src/Config/Inline.antt =====
-- crates/buran-config/src/validate.rs, extract_inline_apps: applications that stand in an action
-- move to the map, under a name made of the place.
use buran.Prelude.{
  ℕ, suc, Bool, true, false, ◌&&◌, Option, none, some, List, [], ◌∷◌, ◌++◌, if◌then◌else◌, Bytes,
  codes, ◌≡◌, refl, All, Bool-cases, inl, inr, ap, sym, ◌∙◌, subst,
}
use buran.Config.{
  Dict, contains_key, put, ApplicationRef, Application, Terminal, Action, RouteStep, Checked,
  passed, invalid, ◌>>=◌, bind-passed, named, inline, last, falling_back, name_collision,
}
use buran.Router.Http.Response.{to_decimal}

unfoldable pub extract_ref :
    Terminal
    → Bytes
    → Dict Application
    → Option ApplicationRef
    → Checked (Terminal × Dict Application)
unfolding contains_key put
extract_ref t generated apps none = passed (t, apps)
extract_ref t generated apps (some (named name)) = passed (t, apps)
extract_ref t generated apps (some (inline app)) =
    if contains_key generated apps
    then invalid name_collision
    else passed (record t { application = some (named generated) }, put generated app apps)

abbrev pub extract_terminal :
    Terminal → Bytes → Dict Application → Checked (Terminal × Dict Application)
extract_terminal t generated apps = extract_ref t generated apps t.application

unfoldable pub extract_inline_apps :
    Action → Bytes → Dict Application → Checked (Action × Dict Application)
unfolding extract_ref
extract_inline_apps (last t) generated apps = do
  own ← extract_terminal t generated apps
  passed (last own.0, own.1)
extract_inline_apps (falling_back t fallback) generated apps = do
  own ← extract_terminal t generated apps
  rest ← extract_inline_apps fallback (generated ++ codes ".fallback") own.1
  passed (falling_back own.0 rest.0, rest.1)

-- `{route_name}[{i}]`.
abbrev pub generated_name : Bytes → ℕ → Bytes
generated_name route i = route ++ (codes "[" ++ (to_decimal i ++ codes "]"))

unfoldable pub extract_steps :
    Bytes → ℕ → List RouteStep → Dict Application → Checked (List RouteStep × Dict Application)
unfolding extract_inline_apps to_decimal
extract_steps route i [] apps = passed ([], apps)
extract_steps route i (step ∷ steps) apps = do
  own ← extract_inline_apps step.action (generated_name route i) apps
  rest ← extract_steps route (suc i) steps own.1
  passed (record step { action = own.0 } ∷ rest.0, rest.1)

unfoldable pub extract_routes :
    Dict (List RouteStep) → Dict Application → Checked (Dict (List RouteStep) × Dict Application)
unfolding extract_steps
extract_routes [] apps = passed ([], apps)
extract_routes ((name, steps) ∷ routes) apps = do
  own ← extract_steps name 0 steps apps
  rest ← extract_routes routes own.1
  passed ((name, own.0) ∷ rest.0, rest.1)

abbrev pub is_reference : Option ApplicationRef → Bool
is_reference (some (inline app)) = false
is_reference _ = true

-- No application stands in the action or in its fallbacks.
unfoldable pub has_no_inline : Action → Bool
has_no_inline (last t) = is_reference t.application
has_no_inline (falling_back t fallback) = is_reference t.application && has_no_inline fallback

extract_ref-reference :
    (t u : Terminal) (generated : Bytes) (apps more : Dict Application) (o : Option ApplicationRef)
    → t.application ≡ o
    → extract_ref t generated apps o ≡ passed (u, more)
    → is_reference u.application ≡ true
unfolding extract_ref
extract_ref-reference t u generated apps more none q e =
    let same : t ≡ u = cc e in ap (λ x. is_reference x.application) (sym same) ∙ ap is_reference q
extract_ref-reference t u generated apps more (some (named name)) q e =
    let same : t ≡ u = cc e in ap (λ x. is_reference x.application) (sym same) ∙ ap is_reference q
extract_ref-reference t u generated apps more (some (inline app)) q e =
    elim (Bool-cases (contains_key generated apps)) [
      | inl taken ↦ cc (rw taken at e)
      | inr free ↦
          let same : record t { application = some (named generated) } ≡ u = cc (rw free at e) in
          ap (λ x. is_reference x.application) (sym same)
    ]

both : {a b : Bool} → a ≡ true → b ≡ true → (a && b) ≡ true
both {a} {b} p q = rw (p, q) refl

extract_inline_apps-no_inline :
    (action after : Action) (generated : Bytes) (apps more : Dict Application)
    → extract_inline_apps action generated apps ≡ passed (after, more)
    → has_no_inline after ≡ true
unfolding extract_inline_apps has_no_inline
extract_inline_apps-no_inline (last t) after generated apps more e =
    let (own, (a, e₁)) = bind-passed {A = Terminal × Dict Application} _ _ (after, more) e in
    let same : last own.0 ≡ after = cc e₁ in
    ap has_no_inline (sym same)
    ∙ extract_ref-reference t own.0 generated apps own.1 t.application refl a
extract_inline_apps-no_inline (falling_back t fallback) after generated apps more e =
    let (own, (a, e₁)) = bind-passed {A = Terminal × Dict Application} _ _ (after, more) e in
    let (rest, (b, e₂)) = bind-passed {A = Action × Dict Application} _ _ (after, more) e₁ in
    let same : falling_back own.0 rest.0 ≡ after = cc e₂ in
    let reference = extract_ref-reference t own.0 generated apps own.1 t.application refl a in
    let below =
      extract_inline_apps-no_inline fallback rest.0 (generated ++ codes ".fallback") own.1 rest.1
        b in
    ap has_no_inline (sym same) ∙ both reference below

-- Every action of the steps is a reference.
abbrev pub AreReferences : List RouteStep → Type 0
AreReferences steps = All (λ step. has_no_inline step.action ≡ true) steps

extract_steps-AreReferences :
    (route : Bytes) (i : ℕ) (steps after : List RouteStep) (apps more : Dict Application)
    → extract_steps route i steps apps ≡ passed (after, more)
    → AreReferences after
unfolding extract_steps
extract_steps-AreReferences route i [] after apps more e =
    let same : [] ≡ after = cc e in subst AreReferences same tt
extract_steps-AreReferences route i (step ∷ steps) after apps more e =
    let (own, (a, e₁)) = bind-passed {A = Action × Dict Application} _ _ (after, more) e in
    let (rest, (b, e₂)) =
      bind-passed {A = List RouteStep × Dict Application} _ _ (after, more) e₁ in
    let same : record step { action = own.0 } ∷ rest.0 ≡ after = cc e₂ in
    subst AreReferences same (
      extract_inline_apps-no_inline step.action own.0 (generated_name route i) apps own.1 a,
      extract_steps-AreReferences route (suc i) steps rest.0 own.1 rest.1 b,
    )

pub extract_routes-AreReferences :
    (routes after : Dict (List RouteStep)) (apps more : Dict Application)
    → extract_routes routes apps ≡ passed (after, more)
    → All (λ r. AreReferences r.1) after
unfolding extract_routes
extract_routes-AreReferences [] after apps more e =
    let same : [] ≡ after = cc e in subst (All (λ r. AreReferences r.1)) same tt
extract_routes-AreReferences ((name, steps) ∷ routes) after apps more e =
    let (own, (a, e₁)) = bind-passed {A = List RouteStep × Dict Application} _ _ (after, more) e in
    let (rest, (b, e₂)) =
      bind-passed {A = Dict (List RouteStep) × Dict Application} _ _ (after, more) e₁ in
    let same : (name, own.0) ∷ rest.0 ≡ after = cc e₂ in
    subst (All (λ r. AreReferences r.1)) same (
      extract_steps-AreReferences name 0 steps own.0 apps own.1 a,
      extract_routes-AreReferences routes rest.0 own.1 rest.1 b,
    )

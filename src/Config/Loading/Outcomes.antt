-- ===== src/Config/Loading/Outcomes.antt =====
-- crates/buran-config/src/lib.rs, from_str: what loading a configuration comes to.
use buran.Prelude.{
  ℕ, ◌∙◌, ◌⊎◌, inl, inr, Bytes, ◌≡◌, refl, sym, Option, none, some, All, subst, codes,
}
use buran.Config.{Config, Checked, Problem, passed, invalid}
use buran.Config.Listeners.{Net}
use buran.Config.Substitution.{Env, Value, Substituted, substituted, env_missing, substitute_env}
use buran.Config.Substitution.Total.{substitute_env-HasResult}
use buran.Config.Validate.{Validated, validate}
use buran.Config.Validate.Ready.{IsReady, validate-IsReady}
use buran.Config.Loading.{
  Text, Outcome, Serde, loaded, failed, io, bad_yaml, anchor_forbidden, not_set, refused, lines,
  from_str, reject_anchors, on_checked, on_config, on_value, on_parsed, on_scan,
}
use buran.Config.Loading.Anchors.{FirstAnchor, Found, reject_anchors-Found}
use buran.Config.Loading.Marks.{IsFree}

module _ (net : Net) (workers : ℕ) (serde : Serde) (env : Env) (yaml : Text) where
  -- The tree that the text stands for, its variables filled in.
  pub record StandsFor (filled : Value) : Type 0 where
    pub tree : Value
    pub parsed : serde.parse yaml ≡ some tree
    pub filling : substitute_env env (codes "$") tree ≡ some (substituted filled)

  abbrev Unset : Bytes → Bytes → Type 0
  Unset name path =
      (tree : Value) × ((serde.parse yaml ≡ some tree)
        × (substitute_env env (codes "$") tree ≡ some (env_missing name path)))

  abbrev Untyped : Type 0
  Untyped = (filled : Value) × (StandsFor filled × (serde.from_value filled ≡ none))

  abbrev Fails : Problem → Type 0
  Fails problem =
      (filled : Value) × (StandsFor filled
        × ((config : Config) × ((serde.from_value filled ≡ some config)
              × (validate net workers config ≡ invalid problem))))

  abbrev pub IsAnchorFree : Type 0
  IsAnchorFree = All IsFree (lines yaml)

  -- What an outcome says of the text.
  abbrev pub Explains : Outcome → Type 0
  Explains (loaded v) = IsAnchorFree × IsReady net v
  Explains (failed (anchor_forbidden number)) = FirstAnchor 1 number (lines yaml)
  Explains (failed (refused problem)) = IsAnchorFree × Fails problem
  Explains (failed bad_yaml) = IsAnchorFree × ((serde.parse yaml ≡ none) ⊎ Untyped)
  Explains (failed (not_set name path)) = IsAnchorFree × Unset name path
  Explains (failed io) = ⊥

  abbrev Comes : Option Outcome → Type 0
  Comes o = (outcome : Outcome) × ((o ≡ some outcome) × Explains outcome)

  on_checked-Explains :
      (filled : Value) (config : Config) (c : Checked _)
      → IsAnchorFree
      → StandsFor filled
      → serde.from_value filled ≡ some config
      → validate net workers config ≡ c
      → Explains (on_checked net workers serde env c)
  on_checked-Explains filled config (passed v) free stands typed e =
      (free, validate-IsReady net workers config v e)
  on_checked-Explains filled config (invalid problem) free stands typed e =
      (free, (filled, (stands, (config, (typed, e)))))

  on_config-Explains :
      (filled : Value) (o : Option Config)
      → IsAnchorFree
      → StandsFor filled
      → serde.from_value filled ≡ o
      → Explains (on_config net workers serde env o)
  on_config-Explains filled none free stands typed = (free, inr (filled, (stands, typed)))
  on_config-Explains filled (some config) free stands typed =
      on_checked-Explains filled config (validate net workers config) free stands typed refl

  on_value-Comes :
      (tree : Value) (s : Substituted Value)
      → IsAnchorFree
      → serde.parse yaml ≡ some tree
      → substitute_env env (codes "$") tree ≡ some s
      → Comes (on_value net workers serde env (some s))
  on_value-Comes tree (env_missing name path) free parsed e =
      (_, (refl, (free, (tree, (parsed, e)))))
  on_value-Comes tree (substituted filled) free parsed e =
      let stands : StandsFor filled = record { tree = tree; parsed = parsed; filling = e } in
      (_, (refl, on_config-Explains filled (serde.from_value filled) free stands refl))

  on_parsed-Comes :
      (o : Option Value)
      → IsAnchorFree
      → serde.parse yaml ≡ o
      → Comes (on_parsed net workers serde env o)
  on_parsed-Comes none free parsed = (_, (refl, (free, inl parsed)))
  on_parsed-Comes (some tree) free parsed =
      let (s, e) = substitute_env-HasResult env (codes "$") tree in
      subst (λ o. Comes (on_value net workers serde env o)) (sym e)
        (on_value-Comes tree s free parsed e)

  on_scan-Comes :
      (o : Option ℕ) → Found 1 (lines yaml) o → Comes (on_scan net workers serde env yaml o)
  on_scan-Comes none free = on_parsed-Comes (serde.parse yaml) free refl
  on_scan-Comes (some number) first = (_, (refl, first))

  -- Loading a text always comes to an outcome. What a line has for an anchor is judged by the line
  -- alone: a `&` or `*` that is first in it or behind a blank, a bracket, a brace, a comma or a
  -- colon, where the quote characters before it, each one counted, leave no quotes open, and no `#`
  -- before it is the first visible character or behind a space, even in quotes; an alias behind an
  -- apostrophe or a quoted ` #` is not one. The first line with an anchor is reported by its
  -- number. Without one, what is reported is that the text is no tree,
  -- that a variable of the tree is not set, that the tree with its variables filled in is no
  -- configuration, or the problem that validation has with the configuration. Otherwise a
  -- configuration comes out: it has a listener, every listener an address and a target that
  -- exists; every route has steps, none unreachable; every action, the fallbacks too, has one
  -- terminal, whose route and application exist, and header texts without line breaks; no
  -- application is left in an action; and every application has workers, slots and room in its
  -- queue.
  pub from_str-Explains :
      (outcome : Outcome) × ((from_str net workers serde env yaml ≡ some outcome)
        × Explains outcome)
  unfolding from_str
  from_str-Explains = on_scan-Comes (reject_anchors yaml) (reject_anchors-Found yaml)

  pub loaded-IsReady :
      (v : Validated) → from_str net workers serde env yaml ≡ some (loaded v) → IsReady net v
  loaded-IsReady v e =
      let (outcome, (same, explained)) = from_str-Explains in
      let is_loaded : outcome ≡ loaded v = cc (sym same ∙ e) in
      (subst Explains is_loaded explained).1

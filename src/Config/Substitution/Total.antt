-- ===== src/Config/Substitution/Total.antt =====
-- crates/buran-config/src/subst.rs, substitute_env: the fuel of expand is enough for every text of a
-- tree.
use buran.Prelude.{ℕ, suc, ◌≡◌, refl, Option, none, some, Bytes}
use buran.Config.Substitution.{
  Env, Substituted, Value, Values, Entries, substituted, env_missing, text, sequence, mapping,
  scalar, no_values, value, no_entries, entry, substitute_env, substitute_values,
  substitute_entries, then_with, item_path, entry_path, expand,
}
use buran.Config.Substitution.Pieces.{expand-Reading}

abbrev pub HasResult : {A : Type 0} → Option (Substituted A) → Type 0
HasResult {A} o = (s : Substituted A) × (o ≡ some s)

then_with-HasResult :
    {A B : Type 0} (o : Option (Substituted A)) (next : A → Option (Substituted B))
    → HasResult o
    → ((a : A) → HasResult (next a))
    → HasResult (then_with o next)
then_with-HasResult none next (s, e) h = cc e
then_with-HasResult (some (env_missing name path)) next r h = (env_missing name path, refl)
then_with-HasResult (some (substituted a)) next r h = h a

module _ (env : Env) where
  mutual
    unfolding substitute_env substitute_values substitute_entries

    pub substitute_env-HasResult :
        (path : Bytes) (v : Value) → HasResult (substitute_env env path v)
    substitute_env-HasResult path (text s) =
        then_with-HasResult (expand env path s) _ (let (r, e) = expand-Reading env path s in (_, e))
          (λ t. (_, refl))
    substitute_env-HasResult path (sequence vs) =
        then_with-HasResult (substitute_values env path 0 vs) _
          (substitute_values-HasResult path 0 vs) (λ ws. (_, refl))
    substitute_env-HasResult path (mapping es) =
        then_with-HasResult (substitute_entries env path es) _
          (substitute_entries-HasResult path es) (λ fs. (_, refl))
    substitute_env-HasResult path (scalar written) = (_, refl)

    pub substitute_values-HasResult :
        (path : Bytes) (i : ℕ) (vs : Values) → HasResult (substitute_values env path i vs)
    substitute_values-HasResult path i no_values = (_, refl)
    substitute_values-HasResult path i (value v vs) =
        then_with-HasResult (substitute_env env (item_path path i) v) _
          (substitute_env-HasResult (item_path path i) v)
          (λ w.
            then_with-HasResult (substitute_values env path (suc i) vs) _
              (substitute_values-HasResult path (suc i) vs) (λ ws. (_, refl)))

    pub substitute_entries-HasResult :
        (path : Bytes) (es : Entries) → HasResult (substitute_entries env path es)
    substitute_entries-HasResult path no_entries = (_, refl)
    substitute_entries-HasResult path (entry key v es) =
        then_with-HasResult (substitute_env env (entry_path path key) v) _
          (substitute_env-HasResult (entry_path path key) v)
          (λ w.
            then_with-HasResult (substitute_entries env path es) _
              (substitute_entries-HasResult path es) (λ ws. (_, refl)))

-- ===== src/Config/Substitution.antt =====
-- crates/buran-config/src/subst.rs: variables of the environment in the texts of a parsed tree. The
-- environment is a parameter; a value that is not visited is kept by the text that it is written as.
pub mod Expansion
pub mod Pieces
pub mod Total
use buran.Prelude.{
  put_before, ℕ, zero, suc, Bool, true, false, Option, none, some, List, [], ◌∷◌, ◌++◌,
  if◌then◌else◌, ◌==◌, Bytes, codes, length, drop,
}
use buran.Router.Matching.{starts_with}
use buran.Router.Routes.{split_at_first}
use buran.Router.Http.Response.{to_decimal}

-- `none` is a variable that is not set or is no text.
abbrev pub Env : Type 0
Env = Bytes → Option Bytes

-- `ConfigError::EnvMissing` has the name and the path.
pub data Substituted (A : Type 0) : Type 0 where
  substituted : A → Substituted A
  env_missing : Bytes → Bytes → Substituted A

abbrev pub opening : Bytes
opening = b'$' ∷ b'{' ∷ []

-- What stands before the first `${` and behind it.
unfoldable pub split_open : Bytes → Option (Bytes × Bytes)
unfolding starts_with
split_open [] = none
split_open (b ∷ bs) =
    let later = put_before b (split_open bs) in
    if starts_with opening (b ∷ bs) then some ([], drop 1 bs) else later

-- `trim_start_matches`.
unfoldable pub trim_all : ℕ → Bytes → Bytes
trim_all c [] = []
trim_all c (b ∷ bs) = let rest = trim_all c bs in if b == c then rest else b ∷ bs

abbrev pub text_before : Bytes → Substituted Bytes → Substituted Bytes
text_before out (substituted rest) = substituted (out ++ rest)
text_before out (env_missing name path) = env_missing name path

abbrev pub later_before : Bytes → Option (Substituted Bytes) → Option (Substituted Bytes)
later_before out (some s) = some (text_before out s)
later_before out none = none

-- A variable, by its value; `again` is the loop on what follows.
unfoldable pub expand_name :
    Bytes
    → Bytes
    → Bytes
    → Bytes
    → Option Bytes
    → (Bytes → Option (Substituted Bytes))
    → Option (Substituted Bytes)
unfolding trim_all
expand_name path before name rest (some val) again = later_before (before ++ val) (again rest)
expand_name path before name rest none again =
    some (env_missing name (trim_all b'.' (trim_all b'$' path)))

abbrev pub expand_after :
    Env
    → Bytes
    → Bytes
    → Bytes × Option Bytes
    → (Bytes → Option (Substituted Bytes))
    → Option (Substituted Bytes)
expand_after env path before (name, some rest) again =
    expand_name path before name rest (env name) again
expand_after env path before (unterminated, none) again =
    some (substituted (before ++ (opening ++ unterminated)))

abbrev pub expand_at :
    Env
    → Bytes
    → Bytes
    → Option (Bytes × Bytes)
    → (Bytes → Option (Substituted Bytes))
    → Option (Substituted Bytes)
expand_at env path rest none again = some (substituted rest)
expand_at env path rest (some (before, after)) again =
    expand_after env path before (split_at_first b'}' after) again

-- Each round takes a variable off the text, whose length is fuel enough; none when it runs out.
unfoldable pub expand_loop : ℕ → Env → Bytes → Bytes → Option (Substituted Bytes)
unfolding split_open split_at_first expand_name
expand_loop zero env path rest = none
expand_loop (suc fuel) env path rest =
    expand_at env path rest (split_open rest) (λ r. expand_loop fuel env path r)

unfoldable pub expand : Env → Bytes → Bytes → Option (Substituted Bytes)
unfolding expand_loop
expand env path input = expand_loop (suc (length input)) env path input

-- A parsed tree.
pub data Key : Type 0 where
  text_key other_key : Bytes → Key

mutual
  pub data Value : Type 0 where
    text : Bytes → Value
    sequence : Values → Value
    mapping : Entries → Value
    scalar : Bytes → Value

  pub data Values : Type 0 where
    no_values : Values
    value : Value → Values → Values

  pub data Entries : Type 0 where
    no_entries : Entries
    entry : Key → Value → Entries → Entries

abbrev pub then_with :
    {A B : Type 0} → Option (Substituted A) → (A → Option (Substituted B)) → Option (Substituted B)
then_with none next = none
then_with (some (env_missing name path)) next = some (env_missing name path)
then_with (some (substituted a)) next = next a

abbrev pub key_text : Key → Bytes
key_text (text_key key) = key
key_text (other_key key) = codes "?"

abbrev pub item_path : Bytes → ℕ → Bytes
item_path path i = path ++ (b'[' ∷ (to_decimal i ++ (b']' ∷ [])))

abbrev pub entry_path : Bytes → Key → Bytes
entry_path path key = path ++ (b'.' ∷ key_text key)

unfoldable mutual
  unfolding expand to_decimal

  pub substitute_env : Env → Bytes → Value → Option (Substituted Value)
  -- The test for `${` is left to expand, which does not change a text without it.
  substitute_env env path (text s) =
      then_with (expand env path s) (λ t. some (substituted (text t)))
  substitute_env env path (sequence vs) =
      then_with (substitute_values env path 0 vs) (λ ws. some (substituted (sequence ws)))
  substitute_env env path (mapping es) =
      then_with (substitute_entries env path es) (λ fs. some (substituted (mapping fs)))
  substitute_env env path (scalar written) = some (substituted (scalar written))

  pub substitute_values : Env → Bytes → ℕ → Values → Option (Substituted Values)
  substitute_values env path i no_values = some (substituted no_values)
  substitute_values env path i (value v vs) =
      let own = substitute_env env (item_path path i) v in
      let rest = substitute_values env path (suc i) vs in
      then_with own (λ w. then_with rest (λ ws. some (substituted (value w ws))))

  pub substitute_entries : Env → Bytes → Entries → Option (Substituted Entries)
  substitute_entries env path no_entries = some (substituted no_entries)
  substitute_entries env path (entry key v es) =
      let own = substitute_env env (entry_path path key) v in
      let rest = substitute_entries env path es in
      then_with own (λ w. then_with rest (λ ws. some (substituted (entry key w ws))))

-- ===== src/Config/Loading.antt =====
-- crates/buran-config/src/lib.rs: a configuration is loaded from its text, a list of characters. The
-- crate serde_norway and the file system are parameters.
pub mod Marks
pub mod Scan
pub mod Anchors
pub mod Outcomes
use buran.Prelude.{
  ℕ, suc, Bool, true, false, not, ◌&&◌, ◌||◌, Option, none, some, List, [], ◌∷◌, if◌then◌else◌,
  ◌==◌, between, is_empty, codes,
}
use buran.Router.Uri.{split}
use buran.Router.Matching.{starts_with}
use buran.Router.Http.Response.{strip_return}
use buran.Config.{Config, Checked, Problem, passed, invalid}
use buran.Config.Listeners.{Net}
use buran.Config.Substitution.{Env, Value, Substituted, substituted, env_missing, substitute_env}
use buran.Config.Validate.{Validated, validate}

abbrev pub Text : Type 0
Text = List ℕ

-- `char::is_whitespace`.
unfoldable pub is_whitespace : ℕ → Bool
is_whitespace c =
    between 9 13 c
    || (c == 32
        || (c == 133
            || (c == 160
                || (c == 5760
                    || (between 8192 8202 c
                        || (c == 8232
                            || (c == 8233 || (c == 8239 || (c == 8287 || c == 12288)))))))))

abbrev pub lines_of : List Text → List Text
lines_of [] = []
lines_of (rest ∷ []) = if is_empty rest then [] else rest ∷ []
lines_of (line ∷ (next ∷ more)) = strip_return line ∷ lines_of (next ∷ more)

-- `str::lines`: a line feed ends a line, and a carriage return before it is no part of the line.
unfoldable pub lines : Text → List Text
unfolding split strip_return
lines yaml = lines_of (split 10 yaml)

unfoldable pub is_comment : Text → Bool
unfolding is_whitespace
is_comment [] = false
is_comment (c ∷ cs) = let rest = is_comment cs in if is_whitespace c then rest else c == b'#'

unfoldable pub before_comment : Text → Text
unfolding starts_with
before_comment [] = []
before_comment (c ∷ cs) =
    let rest = before_comment cs in if starts_with (codes " #") (c ∷ cs) then [] else c ∷ rest

-- A line without its comment.
unfoldable pub code_of : Text → Text
unfolding is_comment before_comment
code_of line = if is_comment line then [] else before_comment line

pub record Quotes : Type 0 where
  pub in_single : Bool
  pub in_double : Bool

abbrev pub no_quotes : Quotes
no_quotes = record { in_single = false; in_double = false }

abbrev pub quote_step : Quotes → ℕ → Quotes
quote_step q c =
    if c == 39 && not q.in_double
    then record q { in_single = not q.in_single }
    else if c == b'"' && not q.in_single
    then record q { in_double = not q.in_double }
    else q

-- Behind a blank or a flow indicator.
unfoldable pub at_node : ℕ → Bool
unfolding is_whitespace
at_node prev =
    is_whitespace prev || (prev == b'[' || (prev == b'{' || (prev == b',' || prev == b':')))

unfoldable pub is_anchor : Quotes → ℕ → ℕ → Bool
unfolding at_node
is_anchor q prev c =
    (c == b'&' || c == b'*') && (not q.in_single && (not q.in_double && at_node prev))

unfoldable pub has_anchor : Quotes → ℕ → Text → Bool
unfolding is_anchor
has_anchor q prev [] = false
has_anchor q prev (c ∷ cs) =
    let rest = has_anchor (quote_step q c) c cs in if is_anchor q prev c then true else rest

-- The number of the first line with an anchor or an alias.
unfoldable pub find_anchor : ℕ → List Text → Option ℕ
unfolding has_anchor code_of
find_anchor i [] = none
find_anchor i (line ∷ more) =
    let later = find_anchor (suc i) more in
    if has_anchor no_quotes b' ' (code_of line) then some i else later

unfoldable pub reject_anchors : Text → Option ℕ
unfolding find_anchor lines
reject_anchors yaml = find_anchor 1 (lines yaml)

pub data ConfigError : Type 0 where
  io bad_yaml : ConfigError
  anchor_forbidden : ℕ → ConfigError
  not_set : List ℕ → List ℕ → ConfigError
  refused : Problem → ConfigError

pub data Outcome : Type 0 where
  loaded : Validated → Outcome
  failed : ConfigError → Outcome

pub record Serde : Type 0 where
  pub parse : Text → Option Value
  pub from_value : Value → Option Config

module _ (net : Net) (workers : ℕ) (serde : Serde) (env : Env) where
  abbrev pub on_checked : Checked Validated → Outcome
  on_checked (passed v) = loaded v
  on_checked (invalid problem) = failed (refused problem)

  abbrev pub on_config : Option Config → Outcome
  on_config (some config) = on_checked (validate net workers config)
  on_config none = failed bad_yaml

  abbrev pub on_value : Option (Substituted Value) → Option Outcome
  on_value none = none
  on_value (some (env_missing name path)) = some (failed (not_set name path))
  on_value (some (substituted value)) = some (on_config (serde.from_value value))

  abbrev pub on_parsed : Option Value → Option Outcome
  on_parsed (some value) = on_value (substitute_env env (codes "$") value)
  on_parsed none = some (failed bad_yaml)

  abbrev pub on_scan : Text → Option ℕ → Option Outcome
  on_scan yaml (some line) = some (failed (anchor_forbidden line))
  on_scan yaml none = on_parsed (serde.parse yaml)

  -- `none` when the substitution runs out of fuel.
  unfoldable pub from_str : Text → Option Outcome
  unfolding reject_anchors substitute_env validate
  from_str yaml = on_scan yaml (reject_anchors yaml)

  -- A file that cannot be read is `none`.
  abbrev pub from_file : Option Text → Option Outcome
  from_file (some yaml) = from_str yaml
  from_file none = some (failed io)

-- ===== src/Config.antt =====
-- crates/buran-config/src: the configuration (schema.rs) and what is accepted of it. A `BTreeMap`
-- is an association list in the order of its keys; a `String` is its UTF-8 bytes.
pub mod Actions
pub mod Applications
pub mod Inline
pub mod Listeners
pub mod Loading
pub mod Quota
pub mod Substitution
pub mod Validate
mod Tests
use buran.Prelude.{
  ℕ, zero, suc, ◌+◌, ◌*◌, Bool, true, false, not, ◌&&◌, ◌||◌, Option, none, some, List, [], ◌∷◌,
  ◌++◌, ltb, leb, ◌==◌, if◌then◌else◌, Bytes, length, is_empty, bytes_eq, ◌≡◌, refl,
}

abbrev pub Dict {ℓ} : Type ℓ → Type ℓ
Dict A = List (Bytes × A)

module _ {ℓ} {A : Type ℓ} where
  unfoldable pub contains_key : Bytes → Dict A → Bool
  contains_key k [] = false
  contains_key k ((j, a) ∷ m) = bytes_eq k j || contains_key k m

unfoldable pub bytes_lt : Bytes → Bytes → Bool
bytes_lt [] [] = false
bytes_lt [] (c ∷ cs) = true
bytes_lt (b ∷ bs) [] = false
bytes_lt (b ∷ bs) (c ∷ cs) = ltb b c || (b == c && bytes_lt bs cs)

module _ {ℓ} {A : Type ℓ} where
  -- `BTreeMap::insert`.
  unfoldable pub put : Bytes → A → Dict A → Dict A
  unfolding bytes_lt
  put k a [] = (k, a) ∷ []
  put k a ((j, x) ∷ m) =
      let later = put k a m in
      if bytes_eq k j
      then (k, a) ∷ m
      else if bytes_lt k j
      then (k, a) ∷ (j, x) ∷ m
      else (j, x) ∷ later

pub data OneOrMany (A : Type 0) : Type 0 where
  one : A → OneOrMany A
  many : List A → OneOrMany A

unfoldable pub count : {A : Type 0} → OneOrMany A → ℕ
count (one a) = 1
count (many as') = length as'

pub data Processes : Type 0 where
  fixed : ℕ → Processes
  dynamic : ℕ → ℕ → ℕ → Processes
  auto : Processes

pub record Queue : Type 0 where
  pub max : ℕ
  pub timeout : ℕ

pub record Limits : Type 0 where
  pub response_timeout : ℕ
  pub task_timeout : ℕ
  pub requests : ℕ

-- The fields that validation reads; the others are passed on to the worker.
pub record Application : Type 0 where
  pub module_name : Bytes
  pub execute : List Bytes
  pub processes : Processes
  pub concurrency : Option ℕ
  pub queue : Queue
  pub limits : Limits

pub data ApplicationRef : Type 0 where
  named : Bytes → ApplicationRef
  inline : Application → ApplicationRef

pub data ServeSources : Type 0 where
  no_sources all_sources : ServeSources
  only : List Bytes → ServeSources

unfoldable pub is_enabled : ServeSources → Bool
is_enabled no_sources = false
is_enabled all_sources = true
is_enabled (only exts) = not (is_empty exts)

pub record ShareOptions : Type 0 where
  pub share : OneOrMany Bytes
  pub index : Option Bytes
  pub types : Option (OneOrMany Bytes)
  pub follow_symlinks : Option Bool
  pub serve_sources : ServeSources

pub data Share : Type 0 where
  path : Bytes → Share
  full : ShareOptions → Share

-- An action without its fallback.
pub record Terminal : Type 0 where
  pub application : Option ApplicationRef
  pub route : Option Bytes
  pub share : Option Share
  pub return_code : Option ℕ
  pub location : Option Bytes
  pub rewrite : Option Bytes
  pub response_headers : Option (Dict (Option Bytes))

-- `fallback` is a boxed action or none.
pub data Action : Type 0 where
  last : Terminal → Action
  falling_back : Terminal → Action → Action

pub record Match : Type 0 where
  pub method : Option (OneOrMany Bytes)
  pub host : Option (OneOrMany Bytes)
  pub uri : Option (OneOrMany Bytes)
  pub query : Option (OneOrMany Bytes)
  pub headers : Option (Dict (OneOrMany Bytes))
  pub arguments : Option (Dict (OneOrMany Bytes))
  pub source : Option (OneOrMany Bytes)

pub record RouteStep : Type 0 where
  pub condition : Option Match
  pub action : Action

pub record Listener : Type 0 where
  pub route : Option Bytes
  pub status : Bool

pub record HttpSettings : Type 0 where
  pub header_read_timeout : ℕ
  pub body_read_timeout : ℕ
  pub send_timeout : ℕ
  pub idle_timeout : ℕ
  pub max_body_size : ℕ
  pub min_body_rate : ℕ
  pub max_connections : ℕ
  pub websocket_idle_timeout : ℕ
  pub max_message_size : ℕ

pub record Config : Type 0 where
  pub http : HttpSettings
  pub listeners : Dict Listener
  pub routes : Dict (List RouteStep)
  pub applications : Dict Application

-- The messages of `ConfigError::Invalid`, without the path that they name.
pub data Problem : Type 0 where
  zero_setting name_collision no_listeners bad_address unknown_route exclusive_listener
        empty_listener no_steps unreachable_steps not_one_terminal unknown_application
        code_out_of_range location_without_redirect location_without_return control_in_header
        many_paths fallback_without_share sources_exposed bad_module zero_processes too_many_spare
        zero_concurrency zero_queue short_task_timeout bad_extension :
      Problem

pub data Checked (A : Type 0) : Type 0 where
  passed : A → Checked A
  invalid : Problem → Checked A

infixl 10 ◌>>=◌
abbrev pub ◌>>=◌ : {A B : Type 0} → Checked A → (A → Checked B) → Checked B
passed a >>= f = f a
invalid e >>= f = invalid e

abbrev pub require : Bool → Problem → Checked Unit
require true problem = passed tt
require false problem = invalid problem

pub require-true :
    (problem : Problem) (b : Bool) (u : Unit) → require b problem ≡ passed u → b ≡ true
require-true problem true u e = refl
require-true problem false u e = cc e

-- A chain that passed: its first part did, and the rest did with its value.
pub bind-passed :
    {A B : Type 0} (c : Checked A) (f : A → Checked B) (b : B)
    → (c >>= f) ≡ passed b
    → (a : A) × ((c ≡ passed a) × (f a ≡ passed b))
bind-passed (passed a) f b e = (a, (refl, e))
bind-passed (invalid problem) f b e = cc e

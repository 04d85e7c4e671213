-- ===== src/Router/Template.antt =====
-- crates/buran-router/src/template.rs: templates with `$var` and `${var}`. A template is its UTF-8
-- bytes; all that the code looks for in it is ASCII.
pub mod Compiling
pub mod Rendering
use buran.Prelude.{
  ℕ, zero, suc, Bool, true, false, not, ◌&&◌, ◌||◌, Option, none, some, List, [], ◌∷◌, ◌++◌, leb,
  ◌==◌, if◌then◌else◌, Bytes, is_empty, length,
}
use buran.Prelude.{codes, bytes_eq}

pub data Var : Type 0 where
  uri args host method remote_addr : Var

pub data Part : Type 0 where
  lit : Bytes → Part
  var : Var → Part

abbrev pub Template : Type 0
Template = List Part

pub record Vars : Type 0 where
  pub uri : Bytes
  pub args : Bytes
  pub host : Bytes
  pub method : Bytes
  pub remote_addr : Bytes

pub data CompileError : Type 0 where
  unterminated : CompileError
  unknown_variable : Bytes → CompileError

pub data Result (T : Type 0) : Type 0 where
  err : CompileError → Result T
  ok : T → Result T

abbrev pub is_name_char : ℕ → Bool
is_name_char c =
    (leb b'a' c && leb c b'z')
    || ((leb b'A' c && leb c b'Z') || ((leb b'0' c && leb c b'9') || c == b'_'))

-- What stands before the first byte that passes the test, and that byte with what follows.
unfoldable pub break : (ℕ → Bool) → Bytes → Bytes × Bytes
break stop [] = ([], [])
break stop (b ∷ bs) =
    let (before, after) = break stop bs in if stop b then ([], b ∷ bs) else (b ∷ before, after)

unfoldable pub var_of : Bytes → Option Var
unfolding bytes_eq
var_of name =
    if bytes_eq name (codes "uri")
    then some uri
    else if bytes_eq name (codes "args") || bytes_eq name (codes "query")
    then some args
    else if bytes_eq name (codes "host")
    then some host
    else if bytes_eq name (codes "method")
    then some method
    else if bytes_eq name (codes "remote_addr")
    then some remote_addr
    else none

abbrev up_to_brace : Bytes × Bytes → Option (Bytes × Bytes)
up_to_brace (name, []) = none
up_to_brace (name, _ ∷ after) = some (name, after)

-- The name behind a `$`, and what follows it; `none` for a brace that is not closed.
unfoldable pub variable_name : Bytes → Option (Bytes × Bytes)
variable_name [] = some ([], [])
variable_name (c ∷ cs) =
    if c == b'{'
    then up_to_brace (break (λ b. b == b'}') cs)
    else some (break (λ b. not (is_name_char b)) (c ∷ cs))

abbrev pub push_lit : List Part → Bytes → List Part
push_lit parts [] = parts
push_lit parts (b ∷ bs) = parts ++ (lit (b ∷ bs) ∷ [])

-- One round of the loop: it ends with a result, or goes on with new parts, literal and rest.
pub data Round : Type 0 where
  finished : Result Template → Round
  more : List Part → Bytes → Bytes → Round

unfoldable pub take_var : List Part → Bytes → Bytes → Bytes → Option Var → Round
take_var parts literal name after none = finished (err (unknown_variable name))
take_var parts literal name after (some v) = more (push_lit parts literal ++ (var v ∷ [])) [] after

unfoldable pub take_name : List Part → Bytes → Option (Bytes × Bytes) → Round
take_name parts literal none = finished (err unterminated)
take_name parts literal (some (name, after)) = take_var parts literal name after (var_of name)

-- `before` stands in front of the next `$`.
unfoldable pub take_dollar : List Part → Bytes → Bytes × Bytes → Round
take_dollar parts literal (before, []) = finished (ok (push_lit parts (literal ++ before)))
take_dollar parts literal (before, _ ∷ rest) =
    take_name parts (literal ++ before) (variable_name rest)

unfoldable pub round : List Part → Bytes → Bytes → Round
round parts literal rest = take_dollar parts literal (break (λ b. b == b'$') rest)

-- The loop, on fuel; `none` means that the fuel ran out.
unfoldable pub compile_loop : ℕ → List Part → Bytes → Bytes → Option (Result Template)
compile_loop zero parts literal rest = none
compile_loop (suc fuel) parts literal rest = elim (round parts literal rest) [
  | finished r ↦ some r
  | more parts' literal' rest' ↦ compile_loop fuel parts' literal' rest'
]

-- Each round takes a `$` off, so one more than the length is fuel enough.
unfoldable pub compile : Bytes → Option (Result Template)
compile input = compile_loop (suc (length input)) [] [] input

unfoldable pub value_of : Vars → Var → Bytes
value_of vars uri = vars.uri
value_of vars args = vars.args
value_of vars host = vars.host
value_of vars method = vars.method
value_of vars remote_addr = vars.remote_addr

unfoldable pub render_part : Vars → Part → Bytes
unfolding value_of
render_part vars (lit s) = s
render_part vars (var v) = value_of vars v

unfoldable pub render : Vars → Template → Bytes
unfolding render_part
render vars [] = []
render vars (p ∷ ps) = render_part vars p ++ render vars ps

-- ===== src/Router/Template/Compiling.antt =====
-- crates/buran-router/src/template.rs: the loop of compile ends on every input.
use buran.Prelude.{
  ℕ, zero, suc, ◌+◌, ◌≤◌, ◌<◌, ◌≡◌, refl, ◌∙◌, ◌⊎◌, inl, inr, Bool, not, Option, none, some, List,
  [], ◌∷◌, ◌++◌, arith, ◌==◌, Bytes, length,
}
use buran.Router.Template.{
  Var, Part, Template, Result, is_name_char, break, var_of, variable_name, Round, finished, more,
  take_var, take_name, take_dollar, round, compile_loop, compile,
}

break-shrinks :
    (stop : ℕ → Bool) (p : Bytes) → length (break stop p).0 + length (break stop p).1 ≡ length p
unfolding break
break-shrinks stop [] = refl
break-shrinks stop (b ∷ bs) = ground (arith, break-shrinks stop bs)

variable_name-shrinks :
    (p : Bytes) {name after : Bytes}
    → variable_name p ≡ some (name, after)
    → length after ≤ length p
unfolding variable_name
variable_name-shrinks [] e = ground arith
variable_name-shrinks (c ∷ cs) e =
    ground
      (arith, break-shrinks (λ b. b == b'}') cs, break-shrinks (λ b. not (is_name_char b)) (c ∷ cs))

Round-cases :
    (r : Round)
    → ((t : Result Template) × (r ≡ finished t))
      ⊎ ((parts : List Part) × (literal : Bytes) × (rest : Bytes) × (r ≡ more parts literal rest))
Round-cases (finished t) = inl (t, refl)
Round-cases (more parts literal rest) = inr (parts, literal, rest, refl)

take_var-shrinks :
    (parts : List Part) (literal name after : Bytes) (o : Option Var) {parts' : List Part}
    {literal' rest' : Bytes}
    → take_var parts literal name after o ≡ more parts' literal' rest'
    → rest' ≡ after
unfolding take_var
take_var-shrinks parts literal name after none e = cc
take_var-shrinks parts literal name after (some v) e = cc

take_name-shrinks :
    (parts : List Part) (literal p : Bytes) {parts' : List Part} {literal' rest' : Bytes}
    → take_name parts literal (variable_name p) ≡ more parts' literal' rest'
    → length rest' ≤ length p
unfolding take_name
take_name-shrinks parts literal p {parts'} {literal'} {rest'} e = go (variable_name p) refl
  where
    go : (o : Option (Bytes × Bytes)) → variable_name p ≡ o → length rest' ≤ length p
    go none h = absurd (ground arith)
    go (some (name, after)) h =
        let same : rest' ≡ after =
          take_var-shrinks parts literal name after (var_of name) (rw (h, take_name) at e) in
        rw same (variable_name-shrinks p {name = name} h)

take_dollar-shrinks :
    (parts : List Part) (literal : Bytes) (c : Bytes × Bytes) {parts' : List Part}
    {literal' rest' : Bytes}
    → take_dollar parts literal c ≡ more parts' literal' rest'
    → length rest' < length c.1
unfolding take_dollar
take_dollar-shrinks parts literal (before, []) e = cc
take_dollar-shrinks parts literal (before, d ∷ rest) {parts'} {literal'} {rest'} e = omega (
  arith,
  take_name-shrinks parts (literal ++ before) rest {parts' = parts'} {literal' = literal'}
      {rest' = rest'} e,
)

round-shrinks :
    (parts : List Part) (literal p : Bytes) {parts' : List Part} {literal' rest' : Bytes}
    → round parts literal p ≡ more parts' literal' rest'
    → length rest' < length p
unfolding round
round-shrinks parts literal p {parts'} {literal'} {rest'} e = omega (
  arith,
  break-shrinks (λ b. b == b'$') p,
  take_dollar-shrinks parts literal (break (λ b. b == b'$') p) {parts' = parts'}
      {literal' = literal'} {rest' = rest'} e,
)

pub compile_loop-more :
    (fuel : ℕ) (parts : List Part) (literal p : Bytes) {parts' : List Part} {literal' rest' : Bytes}
    → round parts literal p ≡ more parts' literal' rest'
    → compile_loop (suc fuel) parts literal p ≡ compile_loop fuel parts' literal' rest'
unfolding compile_loop
compile_loop-more fuel parts literal p e = rw (e, compile_loop)

pub compile_loop-round :
    (fuel : ℕ) (parts : List Part) (literal literal' p p' : Bytes)
    → round parts literal p ≡ round parts literal' p'
    → compile_loop (suc fuel) parts literal p ≡ compile_loop (suc fuel) parts literal' p'
unfolding compile_loop
compile_loop-round fuel parts literal literal' p p' e = rw (e, compile_loop)

pub compile_loop-finished :
    (fuel : ℕ) (parts : List Part) (literal p : Bytes) {r : Result Template}
    → round parts literal p ≡ finished r
    → compile_loop (suc fuel) parts literal p ≡ some r
unfolding compile_loop
compile_loop-finished fuel parts literal p e = rw (e, compile_loop)

compile_loop-ends :
    (fuel : ℕ) (parts : List Part) (literal p : Bytes)
    → length p < fuel
    → (r : Result Template) × (compile_loop fuel parts literal p ≡ some r)
compile_loop-ends zero parts literal p h = elim h [ ]
compile_loop-ends (suc fuel) parts literal p h = elim (Round-cases (round parts literal p)) [
  | inl (r, e) ↦ (r, compile_loop-finished fuel parts literal p e)
  | inr (parts', literal', rest', e) ↦
      let (r, ends) =
        compile_loop-ends fuel parts' literal' rest' (
          omega (arith, round-shrinks parts literal p {parts' = parts'} {literal' = literal'} e)) in
      (r, compile_loop-more fuel parts literal p e ∙ ends)
]

-- `compile` returns a template or an error for every input.
pub compile_total : (input : Bytes) → (r : Result Template) × (compile input ≡ some r)
unfolding compile
compile_total input = compile_loop-ends (suc (length input)) [] [] input (omega arith)

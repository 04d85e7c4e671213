-- ===== src/Router/Template/Rendering.antt =====
-- crates/buran-router/src/template.rs: a template that is written with `${name}` renders to its literals
-- and the values of its variables.
use buran.Prelude.{
  ℕ, zero, suc, ◌<◌, ◌≡◌, ◌≢◌, refl, sym, ap, ap₂, ◌∙◌, Option, some, List, [], ◌∷◌, ◌++◌,
  append_assoc, append-nil, arith, ◌==◌, Bytes, length, length-append, codes, All,
}
use buran.Router.Template.{
  Var, uri, args, host, method, remote_addr, Part, lit, var, Template, Vars, Result, ok, break,
  var_of, variable_name, push_lit, more, take_var, take_name, take_dollar, round, compile_loop,
  compile, value_of, render_part, render,
}
use buran.Router.Template.Compiling.{compile_loop-more, compile_loop-round, compile_loop-finished}

abbrev pub name_of : Var → Bytes
name_of uri = codes "uri"
name_of args = codes "args"
name_of host = codes "host"
name_of method = codes "method"
name_of remote_addr = codes "remote_addr"

-- A template as text, each variable in braces.
pub write : List Part → Bytes
write [] = []
write (lit s ∷ ps) = s ++ write ps
write (var v ∷ ps) = b'$' ∷ b'{' ∷ (name_of v ++ (b'}' ∷ write ps))

-- What a reader of the template expects: the literals as they stand, and for each variable what
-- the request has under its name.
pub shown : Vars → List Part → Bytes
shown vars [] = []
shown vars (lit s ∷ ps) = s ++ shown vars ps
shown vars (var uri ∷ ps) = vars.uri ++ shown vars ps
shown vars (var args ∷ ps) = vars.args ++ shown vars ps
shown vars (var host ∷ ps) = vars.host ++ shown vars ps
shown vars (var method ∷ ps) = vars.method ++ shown vars ps
shown vars (var remote_addr ∷ ps) = vars.remote_addr ++ shown vars ps

render-shown : (vars : Vars) (ps : List Part) → render vars ps ≡ shown vars ps
unfolding render shown
render-shown vars [] = refl
render-shown vars (lit s ∷ ps) = ap (◌++◌ s) (render-shown vars ps)
render-shown vars (var uri ∷ ps) = ap (◌++◌ vars.uri) (render-shown vars ps)
render-shown vars (var args ∷ ps) = ap (◌++◌ vars.args) (render-shown vars ps)
render-shown vars (var host ∷ ps) = ap (◌++◌ vars.host) (render-shown vars ps)
render-shown vars (var method ∷ ps) = ap (◌++◌ vars.method) (render-shown vars ps)
render-shown vars (var remote_addr ∷ ps) = ap (◌++◌ vars.remote_addr) (render-shown vars ps)

-- The literals hold no `$`.
abbrev pub IsWritable : List Part → Type 0
IsWritable [] = Unit
IsWritable (lit s ∷ ps) = All (λ b. b ≢ b'$') s × IsWritable ps
IsWritable (var v ∷ ps) = IsWritable ps

break-append :
    (s r : Bytes)
    → All (λ b. b ≢ b'$') s
    → break (λ b. b == b'$') (s ++ r)
      ≡ (s ++ (break (λ b. b == b'$') r).0, (break (λ b. b == b'$') r).1)
unfolding break
break-append [] r h = refl
break-append (b ∷ s) r (h, t) = ground (arith, break-append s r t)

take_dollar-append :
    (parts : List Part) (literal s before after : Bytes)
    → take_dollar parts literal (s ++ before, after)
      ≡ take_dollar parts (literal ++ s) (before, after)
unfolding take_dollar
take_dollar-append parts literal s before [] = rw (append_assoc literal s before)
take_dollar-append parts literal s before (d ∷ rest) = rw (append_assoc literal s before)

round-append :
    (parts : List Part) (literal s r : Bytes)
    → All (λ b. b ≢ b'$') s
    → round parts literal (s ++ r) ≡ round parts (literal ++ s) r
unfolding round
round-append parts literal s r h =
    ap (take_dollar parts literal) (break-append s r h) ∙ take_dollar-append parts literal s _ _

round-var :
    (parts : List Part) (literal : Bytes) (v : Var) (r : Bytes)
    → round parts literal (b'$' ∷ b'{' ∷ (name_of v ++ (b'}' ∷ r)))
      ≡ more (push_lit parts literal ++ (var v ∷ [])) [] r
unfolding round take_dollar take_name take_var variable_name break var_of
round-var parts literal uri r = rw append-nil
round-var parts literal v r = rw append-nil

module _ (vars : Vars) where
  render-append : (ps qs : List Part) → render vars (ps ++ qs) ≡ render vars ps ++ render vars qs
  unfolding render
  render-append [] qs = refl
  render-append (p ∷ ps) qs =
      ap (◌++◌ (render_part vars p)) (render-append ps qs)
      ∙ sym (append_assoc (render_part vars p) (render vars ps) (render vars qs))

  render-push_lit :
      (parts : List Part) (literal : Bytes)
      → render vars (push_lit parts literal) ≡ render vars parts ++ literal
  render-push_lit parts [] = sym (append-nil (render vars parts))
  render-push_lit parts (b ∷ bs) =
      render-append parts (lit (b ∷ bs) ∷ []) ∙ unfold render in rw append-nil

  render-var : (v : Var) → render vars (var v ∷ []) ≡ value_of vars v
  unfolding render
  render-var v = append-nil (value_of vars v)

  -- A template that compiles to parts that render to `out`.
  abbrev Renders : Option (Result Template) → Bytes → Type 0
  Renders o out = (t : Template) × (o ≡ some (ok t)) × (render vars t ≡ out)

  compile_loop-write :
      (ps : List Part) (fuel : ℕ) (parts : List Part) (literal : Bytes)
      → IsWritable ps
      → length (write ps) < fuel
      → Renders
          (compile_loop fuel parts literal (write ps))
          ((render vars parts ++ literal) ++ render vars ps)
  unfolding write
  compile_loop-write ps zero parts literal h l = elim l [ ]
  compile_loop-write [] (suc fuel) parts literal h l = (
    push_lit parts literal,
    compile_loop-finished fuel parts literal [] (unfold round take_dollar break in rw append-nil),
    render-push_lit parts literal
        ∙ unfold render in sym (append-nil (render vars parts ++ literal)),
  )
  compile_loop-write (lit s ∷ ps) (suc fuel) parts literal (n, h) l =
      let (t, e, r) =
        compile_loop-write ps (suc fuel) parts (literal ++ s) h
          (omega (arith, length-append s (write ps))) in
      (
        t,
        compile_loop-round fuel parts literal (literal ++ s) (s ++ write ps) (write ps)
              (round-append parts literal s (write ps) n)
            ∙ e,
        r
            ∙ ap (λ x. x ++ render vars ps) (sym (append_assoc (render vars parts) literal s))
            ∙ append_assoc (render vars parts ++ literal) s (render vars ps)
            ∙ unfold render in refl,
      )
  compile_loop-write (var v ∷ ps) (suc fuel) parts literal h l =
      let next = push_lit parts literal ++ (var v ∷ []) in
      let (t, e, r) =
        compile_loop-write ps fuel next [] h
          (omega (arith, length-append (name_of v) (b'}' ∷ write ps))) in
      (
        t,
        compile_loop-more fuel parts literal _ (round-var parts literal v (write ps)) ∙ e,
        r
            ∙ ap (λ x. x ++ render vars ps)
                (append-nil (render vars next)
                  ∙ render-append (push_lit parts literal) (var v ∷ [])
                  ∙ ap₂ ◌++◌ (render-push_lit parts literal) (render-var v))
            ∙ append_assoc (render vars parts ++ literal) (value_of vars v) (render vars ps)
            ∙ unfold render in refl,
      )

-- A template written from literals without `$` and from variables in braces compiles, and what it
-- compiles to renders to the literals and the values of the variables, in their order.
pub render-compile :
    (vars : Vars) (ps : List Part)
    → IsWritable ps
    → (t : Template) × (compile (write ps) ≡ some (ok t)) × (render vars t ≡ shown vars ps)
unfolding compile render
render-compile vars ps h =
    let (t, e, r) = compile_loop-write vars ps (suc (length (write ps))) [] [] h (omega arith) in
    (t, e, r ∙ render-shown vars ps)

-- ===== src/Router/Routes/Rewrites.antt =====
-- The path that a rewrite leaves.
use buran.Prelude.{
  ℕ, zero, suc, ◌≡◌, refl, sym, subst, Bool, true, false, Option, none, some, Bytes,
}
use buran.Router.Matching.{RegexEngine}
use buran.Router.Template.{Template, render}
use buran.Router.Uri.Normal.{IsNormal, normalize_path-IsNormal}
use buran.Router.Routes.{
  RequestMeta, Routes, Step, Action, application, route, share, return, Decision, Walk,
  RouteOutcome, Hop, stuck, jump, decided, matching_step, hop_of, hop, take_step, apply_rewrite,
  to_target, vars_of, with_headers, after_action, get_route, split_at_first, outcome, then_some,
  walk, start, decide, not_found,
}
use buran.Router.Routes.Walks.{walk-zero, walk-stuck, walk-jump, walk-decided}

abbrev IsClean : Walk → Type 0
IsClean w = w.rewritten ≡ true → IsNormal w.path

to_target-IsClean : (target : Bytes × Option Bytes) (w : Walk) → IsClean (to_target target w)
to_target-IsClean (path, query) w h = normalize_path-IsNormal path

apply_rewrite-IsClean :
    (r : Option Template) (meta : RequestMeta) (w : Walk)
    → IsClean w
    → IsClean (apply_rewrite r meta w)
unfolding apply_rewrite
apply_rewrite-IsClean none meta w c = c
apply_rewrite-IsClean (some t) meta w c =
    to_target-IsClean (split_at_first b'?' (render (vars_of meta w) t)) w

module _ (E : RegexEngine) where
  abbrev HopIsClean : Hop E → Type 0
  HopIsClean stuck = Unit
  HopIsClean (jump w) = IsClean w
  HopIsClean (decided d w) = IsClean w

  abbrev pub OutcomeIsClean : RouteOutcome E → Type 0
  OutcomeIsClean o = (path query : Bytes) → o.rewritten ≡ some (path, query) → IsNormal path

  after_action-HopIsClean : (a : Action E) (w : Walk) → IsClean w → HopIsClean (after_action E a w)
  after_action-HopIsClean (application name) w c = c
  after_action-HopIsClean (route name) w c = c
  after_action-HopIsClean (share t i m f s b) w c = c
  after_action-HopIsClean (return status location) w c = c

  hop_of-HopIsClean :
      (meta : RequestMeta) (w : Walk) (o : Option (Step E))
      → IsClean w
      → HopIsClean (hop_of E meta w o)
  unfolding take_step
  hop_of-HopIsClean meta w none c = tt
  hop_of-HopIsClean meta w (some step) c =
      after_action-HopIsClean step.action (apply_rewrite step.rewrite meta (with_headers E step w))
        (apply_rewrite-IsClean step.rewrite meta (with_headers E step w) c)

  hop-HopIsClean :
      (routes : Routes E) (meta : RequestMeta) (w : Walk)
      → IsClean w
      → HopIsClean (hop E routes meta w)
  unfolding hop
  hop-HopIsClean routes meta w c =
      hop_of-HopIsClean meta w (matching_step E meta w (get_route E w.current_route routes)) c

  outcome-IsClean : (d : Decision E) (w : Walk) → IsClean w → OutcomeIsClean (outcome E d w)
  outcome-IsClean d w c path query e = go w.rewritten refl e
    where
      go :
          (b : Bool)
          → w.rewritten ≡ b
          → then_some {A = Bytes × Bytes} b (w.path, w.query) ≡ some (path, query)
          → IsNormal path
      go true h e = subst IsNormal (let q : w.path ≡ path = cc e in q) (c h)
      go false h e = absurd (cc e)

  walk-IsClean :
      (hops : ℕ) (routes : Routes E) (meta : RequestMeta) (w : Walk)
      → IsClean w
      → OutcomeIsClean (walk E hops routes meta w)
  walk-IsClean zero routes meta w c =
      subst OutcomeIsClean (sym (walk-zero E routes meta w)) (outcome-IsClean not_found w c)
  walk-IsClean (suc hops) routes meta w c =
      go (hop E routes meta w) refl (hop-HopIsClean routes meta w c)
        (λ u. walk-IsClean hops routes meta u)
    where
      go :
          (h : Hop E)
          → hop E routes meta w ≡ h
          → HopIsClean h
          → ((u : Walk) → IsClean u → OutcomeIsClean (walk E hops routes meta u))
          → OutcomeIsClean (walk E (suc hops) routes meta w)
      go stuck e h ih =
          subst OutcomeIsClean (sym (walk-stuck E routes meta w hops e))
            (outcome-IsClean not_found w c)
      go (jump u) e h ih = subst OutcomeIsClean (sym (walk-jump E routes meta w hops u e)) (ih u h)
      go (decided d u) e h ih =
          subst OutcomeIsClean (sym (walk-decided E routes meta w hops d u e))
            (outcome-IsClean d u h)

  -- Whatever the templates render, the path that a decision carries after a rewrite is normal: it
  -- has no empty segment, no `.` and no `..`.
  pub decide-OutcomeIsClean :
      (routes : Routes E) (name : Bytes) (meta : RequestMeta)
      → OutcomeIsClean (decide E routes name meta)
  unfolding decide
  decide-OutcomeIsClean routes name meta =
      walk-IsClean 16 routes meta (start name meta) (λ h. absurd (cc h))

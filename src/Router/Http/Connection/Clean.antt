-- ===== src/Router/Http/Connection/Clean.antt =====
-- crates/buran-router/src/http1.rs, serve_connection: what reaches a worker or the static server.
use buran.Prelude.{
  ◌≡◌, refl, sym, ap, ◌∙◌, Bool, true, false, ◌||◌, Option, none, some, Bytes, Bool-cases, inl, inr,
  ◌⊎◌, subst, arith, ℕ, ltb, length, ◌-◌,
}
use buran.Router.Matching.{RegexEngine}
use buran.Router.Uri.Normal.{IsNormal, normalize_path-IsNormal}
use buran.Router.Routes
use buran.Router.Routes.{
  RequestMeta, RouteOutcome, Decision, Fallback, to_application, to_share, to_return, not_found,
  no_fallback, fall_back, decide,
}
use buran.Router.Routes.Rewrites.{decide-OutcomeIsClean}
use buran.Router.Http.Request.{Parsed, has_control_byte, split_target, named}
use buran.Router.Http.Response.{Extra}
use buran.Router.Http.Exchange.{BodyPlan}
use buran.Router.Http.Body.{
  Socket, BodyResult, Feed, whole, refused, out_of_fuel, too_slow, broken, feed_body, take_body,
}
use buran.Router.Http.Connection.{
  Handed, Turn, Site, ListenerKind, BodyPhase, route, status, ready, ends_with, call_application,
  on_fallback, on_share, on_decision, respond, effective, status_page, after_body, serve_admitted,
  serve_request, admission, meta_of, check_meta, body_phase, after_feed, after_take, pending,
  failing, refuses, streams, serve_admission, check_size,
}

-- No control bytes, and a path without dots and empty segments.
pub record IsClean (h : Handed) : Type 0 where
  pub path : has_control_byte h.path ≡ false
  pub query : has_control_byte h.query ≡ false
  pub host : has_control_byte h.host ≡ false
  pub normal : IsNormal h.path

abbrev pub HandsClean : Option Handed → Type 0
HandsClean none = Unit
HandsClean (some h) = IsClean h

abbrev Hands : Handed → Turn → Type 0
Hands h t = (t.handed ≡ none) ⊎ (t.handed ≡ some h)

Hands-HandsClean : (h : Handed) (t : Turn) → Hands h t → IsClean h → HandsClean t.handed
Hands-HandsClean h t (inl e) clean = subst HandsClean (sym e) tt
Hands-HandsClean h t (inr e) clean = subst HandsClean (sym e) clean

or_left : (a b : Bool) → (a || b) ≡ false → a ≡ false
or_left a b e = ground (arith, e)

or_right : (a b : Bool) → (a || b) ≡ false → b ≡ false
or_right a b e = ground (arith, e)

module _ (E : RegexEngine) where
  on_fallback-Hands :
      (site : Site E) (p : Parsed) (extra : Extra) (h : Handed) (plan : BodyPlan) (buf : Bytes)
      (socket : Socket) (after : Fallback E)
      → Hands h (on_fallback E site p extra h plan buf socket after)
  unfolding on_fallback call_application
  on_fallback-Hands site p extra h plan buf socket no_fallback = inr refl
  on_fallback-Hands site p extra h plan buf socket (fall_back (Routes.application name)) = inr refl
  on_fallback-Hands site p extra h plan buf socket (fall_back (Routes.route name)) = inr refl
  on_fallback-Hands site p extra h plan buf socket (fall_back (Routes.return code loc)) = inr refl
  on_fallback-Hands site p extra h plan buf socket
        (fall_back (Routes.share template index types links sources after)) =
      inr refl

  on_share-Hands :
      (site : Site E) (p : Parsed) (extra : Extra) (h : Handed) (plan : BodyPlan) (buf : Bytes)
      (socket : Socket) (after : Fallback E) (o : Option Bytes)
      → Hands h (on_share E site p extra h plan buf socket after o)
  on_share-Hands site p extra h plan buf socket after (some wire) = inr refl
  on_share-Hands site p extra h plan buf socket after none =
      on_fallback-Hands site p extra h plan buf socket after

  on_decision-Hands :
      (site : Site E) (p : Parsed) (extra : Extra) (h : Handed) (plan : BodyPlan) (buf : Bytes)
      (socket : Socket) (d : Decision E)
      → Hands h (on_decision E site p extra h plan buf socket d)
  unfolding on_decision call_application
  on_decision-Hands site p extra h plan buf socket (to_application name) = inr refl
  on_decision-Hands site p extra h plan buf socket (to_return code loc) = inl refl
  on_decision-Hands site p extra h plan buf socket not_found = inl refl
  on_decision-Hands site p extra h plan buf socket
        (to_share template index types links sources after) =
      on_share-Hands site p extra h plan buf socket after _

  effective-host :
      (meta : RequestMeta) (o : Option (Bytes × Bytes)) → (effective E meta o).host ≡ meta.host
  effective-host meta none = refl
  effective-host meta (some target) = refl

  respond-HandsClean :
      (site : Site E) (p : Parsed) (meta : RequestMeta) (o : RouteOutcome E) (plan : BodyPlan)
      (buf : Bytes) (socket : Socket)
      → has_control_byte meta.host ≡ false
      → IsNormal (effective E meta o.rewritten).path
      → HandsClean (respond E site p meta o plan buf socket).handed
  unfolding respond
  respond-HandsClean site p meta o plan buf socket host normal =
      let h = effective E meta o.rewritten in
      elim (Bool-cases (has_control_byte h.path || has_control_byte h.query)) [
        | inl dirty ↦ rw dirty tt
        | inr clean ↦ rw clean (
            Hands-HandsClean h
              (on_decision E site p o.response_headers h plan buf socket o.decision)
              (on_decision-Hands site p o.response_headers h plan buf socket o.decision)
              (record {
                path = or_left (has_control_byte h.path) _ clean;
                query = or_right (has_control_byte h.path) _ clean;
                host = ap has_control_byte (effective-host meta o.rewritten) ∙ host;
                normal = normal;
              }))
      ]

  effective-IsNormal :
      (meta : RequestMeta) (o : Option (Bytes × Bytes))
      → IsNormal meta.path
      → ((path query : Bytes) → o ≡ some (path, query) → IsNormal path)
      → IsNormal (effective E meta o).path
  effective-IsNormal meta none normal rewrites = normal
  effective-IsNormal meta (some (path, query)) normal rewrites = rewrites path query refl

  after_body-HandsClean :
      (phase : BodyPhase) (answer : BodyPlan → Bytes → Socket → Turn)
      → ((turn : Turn) → phase ≡ ends_with turn → HandsClean turn.handed)
      → ((plan : BodyPlan) (buf : Bytes) (socket : Socket)
          → HandsClean (answer plan buf socket).handed)
      → HandsClean (after_body E phase answer).handed
  after_body-HandsClean (ends_with turn) answer early late = early turn refl
  after_body-HandsClean (ready plan buf socket) answer early late = late plan buf socket

  body_phase-HandsClean :
      (site : Site E) (p : Parsed) (buf : Bytes) (socket : Socket) (streams : Bool) (turn : Turn)
      → body_phase E site p buf socket streams ≡ ends_with turn
      → HandsClean turn.handed
  unfolding body_phase
  body_phase-HandsClean site p buf socket true turn e =
      feed_end (feed_body site.pace buf (p.content_length - length buf) site.accepts socket) e
    where
      feed_end : (o : Option Feed) → after_feed o ≡ ends_with turn → HandsClean turn.handed
      feed_end (some f) e = cc e
      feed_end none e = let same : pending ≡ turn = cc e in subst (λ t. HandsClean t.handed) same tt
  body_phase-HandsClean site p buf socket false turn e =
      take_end (take_body site.pace p.content_length buf socket).body e
    where
      taken_buf : Bytes
      taken_buf = (take_body site.pace p.content_length buf socket).buf

      take_end :
          (r : BodyResult)
          → after_take site.server taken_buf r ≡ ends_with turn
          → HandsClean turn.handed
      take_end (whole body rest) e = cc e
      take_end (refused too_slow) e =
          let same : refuses site.server 408 ≡ turn = cc e in
          subst (λ t. HandsClean t.handed) same tt
      take_end (refused broken) e =
          let same : failing ≡ turn = cc e in subst (λ t. HandsClean t.handed) same tt
      take_end out_of_fuel e =
          let same : pending ≡ turn = cc e in subst (λ t. HandsClean t.handed) same tt

  status_page-HandsClean :
      (site : Site E) (p : Parsed) (path buf : Bytes) (socket : Socket)
      → HandsClean (status_page E site p path buf socket).handed
  unfolding status_page
  status_page-HandsClean site p path buf socket = elim (Bool-cases (named "/health" path)) [
    | inl e ↦ rw e tt
    | inr e ↦ elim (Bool-cases (named "/health/applications" path)) [
      | inl f ↦ rw (e, f) tt
      | inr f ↦ rw (e, f) tt
    ]
  ]

  serve_admitted-HandsClean :
      (site : Site E) (kind : ListenerKind) (p : Parsed) (buf : Bytes) (socket : Socket)
      (meta : RequestMeta)
      → has_control_byte meta.host ≡ false
      → IsNormal meta.path
      → HandsClean (serve_admitted E site kind p buf socket meta).handed
  unfolding serve_admitted
  serve_admitted-HandsClean site (route name) p buf socket meta host normal =
      let o = decide E site.routes name meta in
      after_body-HandsClean _ _
        (body_phase-HandsClean site p buf socket (streams E site p buf o.decision))
        (λ plan rest left. respond-HandsClean site p meta o plan rest left host (
          effective-IsNormal meta o.rewritten normal
            (decide-OutcomeIsClean E site.routes name meta)))
  serve_admitted-HandsClean site status p buf socket meta host normal =
      after_body-HandsClean _ _ (body_phase-HandsClean site p buf socket false)
        (λ plan rest left. status_page-HandsClean site p meta.path rest left)

  in_order :
      (site : Site E) (kind : ListenerKind) (p : Parsed) (buf : Bytes) (socket : Socket)
      (meta : RequestMeta)
      → IsNormal meta.path
      → HandsClean (serve_admission E site kind p buf socket (check_meta E meta)).handed
  in_order site kind p buf socket meta normal =
      elim (Bool-cases (
        has_control_byte meta.path
        || (has_control_byte meta.query || has_control_byte meta.host))) [
          | inl dirty ↦ rw dirty tt
          | inr clean ↦ rw clean (
              serve_admitted-HandsClean site kind p buf socket meta
                (or_right (has_control_byte meta.query) _
                  (or_right (has_control_byte meta.path) _ clean))
                normal)
        ]

  -- A worker and the static server get no control byte in a path, a query or a host, whatever the
  -- client sent and the rewrites of the configuration made of it, and the path is normal.
  pub serve_request-HandsClean :
      (site : Site E) (kind : ListenerKind) (o : Option Parsed) (buf : Bytes) (socket : Socket)
      → HandsClean (serve_request E site kind o buf socket).handed
  unfolding serve_request admission
  serve_request-HandsClean site kind none buf socket = tt
  serve_request-HandsClean site kind (some p) buf socket = checked p.bad refl
    where
      checked :
          (bad : Option ℕ)
          → p.bad ≡ bad
          → HandsClean (serve_admission E site kind p buf socket (check_size E site p bad)).handed
      checked (some code) e = tt
      checked none e = elim (Bool-cases (ltb site.max_body p.content_length)) [
        | inl large ↦ rw large tt
        | inr fits ↦ rw fits (
            in_order site kind p buf socket (meta_of E site p)
              (unfold meta_of in normalize_path-IsNormal (split_target p.target).0))
      ]

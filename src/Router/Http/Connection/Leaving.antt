-- ===== src/Router/Http/Connection/Leaving.antt =====
-- crates/buran-router/src/http1.rs, serve_connection: how an answer leaves the connection, given what
-- is left of the body.
use buran.Prelude.{
  and_false, ℕ, ◌≡◌, sym, ap, ◌∙◌, Bool, true, false, ◌&&◌, ◌||◌, Option, none, some, Bytes, ◌++◌,
  Bool-cases, inl, inr, ◌⊎◌, subst, length,
}
use buran.Router.Matching.{RegexEngine}
use buran.Router.Routes
use buran.Router.Routes.{
  RequestMeta, RouteOutcome, Decision, Fallback, to_application, to_share, to_return, not_found,
  no_fallback, fall_back, decide,
}
use buran.Router.Http.Request.{Parsed, has_control_byte, named}
use buran.Router.Http.Response.{Extra}
use buran.Router.Http.Exchange
use buran.Router.Http.Exchange.{
  Exchange, BodyPlan, AppRes, Answers, Client, Ending, Happening, StreamEnd, Buffered, buffered,
  streamed, http, upgraded, io_error, reclaim, dispatch_to_app, on_events, on_submitted,
  send_buffered, stream_body, buffer_ends, buffer_loop, stream_loop, Submitted, accepted, rejected,
  is_spilled, stream_result, event, hung_up, expired, complete, broken, stalled, gone, flushed,
  full, waiting, finished, truncated, open_ended,
}
use buran.Router.Http.Body.{Socket}
use buran.Router.Http.Body.Exact.{stream}
use buran.Router.Http.Connection.{
  Handed, TurnEnd, Site, call_application, on_fallback, on_share, on_decision, respond, effective,
  status_page, next_request, closes, fails, unfinished, tunnels, continues, exchange_end,
  answers_of,
}
use buran.Router.Http.Connection.Reclaiming.{Reclaims, dispatch_to_app-Reclaims}

-- What a body of that length leaves of the bytes sent.
abbrev pub Leaves : ℕ → Bytes → Bytes → Socket → Type 0
Leaves len sent buf socket =
    (body : Bytes) × ((length body ≡ len) × (body ++ (buf ++ stream socket) ≡ sent))

abbrev pub IsAligned : ℕ → Bytes → TurnEnd → Type 0
IsAligned len sent (next_request buf socket) = Leaves len sent buf socket
IsAligned len sent closes = Unit
IsAligned len sent fails = Unit
IsAligned len sent unfinished = Unit
IsAligned len sent (tunnels later) = Unit

-- A body that is fed leaves nothing that can be relied on unless the feeding succeeds.
abbrev pub PlanLeaves : ℕ → Bytes → BodyPlan → Bytes → Socket → Type 0
PlanLeaves len sent (buffered body) buf socket = Leaves len sent buf socket
PlanLeaves len sent (streamed true) buf socket = Leaves len sent buf socket
PlanLeaves len sent (streamed false) buf socket = Unit

continues-IsAligned :
    (len : ℕ) (sent : Bytes) (go_on : Bool) (buf : Bytes) (socket : Socket)
    → Leaves len sent buf socket
    → IsAligned len sent (continues go_on buf socket)
continues-IsAligned len sent true buf socket leaves = leaves
continues-IsAligned len sent false buf socket leaves = tt

exchange_end-IsAligned :
    (len : ℕ) (sent : Bytes) (go_on : Bool) (plan : BodyPlan) (buf : Bytes) (socket : Socket)
    (res : AppRes)
    → PlanLeaves len sent plan buf socket
    → Reclaims plan res
    → IsAligned len sent (exchange_end go_on plan buf socket res)
exchange_end-IsAligned len sent go_on (buffered body) buf socket (http code r) leaves back =
    continues-IsAligned len sent (go_on && (true || r)) buf socket leaves
exchange_end-IsAligned len sent go_on (streamed true) buf socket (http code r) leaves back =
    continues-IsAligned len sent (go_on && (false || r)) buf socket leaves
exchange_end-IsAligned len sent go_on (streamed false) buf socket (http code r) leaves back =
    subst (λ b. IsAligned len sent (continues b buf socket)) (sym (lost back)) tt
  where
    lost : (r ≡ false) ⊎ (r ≡ false) → (go_on && (false || r)) ≡ false
    lost (inl e) = ap (λ x. go_on && (false || x)) e ∙ and_false go_on
    lost (inr e) = ap (λ x. go_on && (false || x)) e ∙ and_false go_on
exchange_end-IsAligned len sent go_on plan buf socket (upgraded block later) leaves back = tt
exchange_end-IsAligned len sent go_on plan buf socket io_error leaves back = tt
exchange_end-IsAligned len sent go_on plan buf socket Exchange.unfinished leaves back = tt

module _ (E : RegexEngine) where
  call_application-IsAligned :
      (len : ℕ) (sent : Bytes) (site : Site E) (p : Parsed) (name : Bytes) (offered : Bool)
      (extra : Extra) (h : Handed) (plan : BodyPlan) (buf : Bytes) (socket : Socket)
      → PlanLeaves len sent plan buf socket
      → IsAligned len sent (call_application E site p name offered extra h plan buf socket).ends
  unfolding call_application
  call_application-IsAligned len sent site p name offered extra h plan buf socket leaves =
      exchange_end-IsAligned len sent p.keep_alive plan buf socket _ leaves
        (dispatch_to_app-Reclaims _ plan offered (answers_of E (site.pools name)))

  on_fallback-IsAligned :
      (len : ℕ) (sent : Bytes) (site : Site E) (p : Parsed) (extra : Extra) (h : Handed)
      (body buf : Bytes) (socket : Socket) (after : Fallback E)
      → Leaves len sent buf socket
      → IsAligned len sent (on_fallback E site p extra h (buffered body) buf socket after).ends
  unfolding on_fallback
  on_fallback-IsAligned len sent site p extra h body buf socket
        (fall_back (Routes.application name)) leaves =
      call_application-IsAligned len sent site p name false extra h (buffered body) buf socket
        leaves
  on_fallback-IsAligned len sent site p extra h body buf socket no_fallback leaves =
      continues-IsAligned len sent p.keep_alive buf socket leaves
  on_fallback-IsAligned len sent site p extra h body buf socket (fall_back (Routes.route name))
        leaves =
      continues-IsAligned len sent p.keep_alive buf socket leaves
  on_fallback-IsAligned len sent site p extra h body buf socket (fall_back (Routes.return code loc))
        leaves =
      continues-IsAligned len sent p.keep_alive buf socket leaves
  on_fallback-IsAligned len sent site p extra h body buf socket
        (fall_back (Routes.share template index types links sources after)) leaves =
      continues-IsAligned len sent p.keep_alive buf socket leaves

  on_share-IsAligned :
      (len : ℕ) (sent : Bytes) (site : Site E) (p : Parsed) (extra : Extra) (h : Handed)
      (body buf : Bytes) (socket : Socket) (after : Fallback E) (o : Option Bytes)
      → Leaves len sent buf socket
      → IsAligned len sent (on_share E site p extra h (buffered body) buf socket after o).ends
  on_share-IsAligned len sent site p extra h body buf socket after (some wire) leaves =
      continues-IsAligned len sent p.keep_alive buf socket leaves
  on_share-IsAligned len sent site p extra h body buf socket after none leaves =
      on_fallback-IsAligned len sent site p extra h body buf socket after leaves

  -- A streamed body goes with a decision for an application only.
  abbrev pub IsPlanFor : Decision E → BodyPlan → Type 0
  IsPlanFor (to_application name) plan = Unit
  IsPlanFor d (buffered body) = Unit
  IsPlanFor d (streamed ok) = false ≡ true

  on_decision-IsAligned :
      (len : ℕ) (sent : Bytes) (site : Site E) (p : Parsed) (extra : Extra) (h : Handed)
      (plan : BodyPlan) (buf : Bytes) (socket : Socket) (d : Decision E)
      → IsPlanFor d plan
      → PlanLeaves len sent plan buf socket
      → IsAligned len sent (on_decision E site p extra h plan buf socket d).ends
  unfolding on_decision
  on_decision-IsAligned len sent site p extra h plan buf socket (to_application name) f leaves =
      call_application-IsAligned len sent site p name _ extra h plan buf socket leaves
  on_decision-IsAligned len sent site p extra h (buffered body) buf socket (to_return c l) f
        leaves =
      continues-IsAligned len sent p.keep_alive buf socket leaves
  on_decision-IsAligned len sent site p extra h (buffered body) buf socket not_found f leaves =
      continues-IsAligned len sent p.keep_alive buf socket leaves
  on_decision-IsAligned len sent site p extra h (buffered body) buf socket
        (to_share template index types links sources after) f leaves =
      on_share-IsAligned len sent site p extra h body buf socket after _ leaves
  on_decision-IsAligned len sent site p extra h (streamed ok) buf socket (to_return c l) f leaves =
      cc f
  on_decision-IsAligned len sent site p extra h (streamed ok) buf socket not_found f leaves = cc f
  on_decision-IsAligned len sent site p extra h (streamed ok) buf socket
        (to_share template index types links sources after) f leaves =
      cc f

  pub respond-IsAligned :
      (len : ℕ) (sent : Bytes) (site : Site E) (p : Parsed) (meta : RequestMeta)
      (o : RouteOutcome E) (plan : BodyPlan) (buf : Bytes) (socket : Socket)
      → IsPlanFor o.decision plan
      → PlanLeaves len sent plan buf socket
      → IsAligned len sent (respond E site p meta o plan buf socket).ends
  unfolding respond
  respond-IsAligned len sent site p meta o plan buf socket f leaves =
      let h = effective E meta o.rewritten in
      elim (Bool-cases (has_control_byte h.path || has_control_byte h.query)) [
        | inl dirty ↦ rw dirty tt
        | inr clean ↦ rw clean (
            on_decision-IsAligned len sent site p o.response_headers h plan buf socket o.decision f
              leaves)
      ]

  pub status_page-IsAligned :
      (len : ℕ) (sent : Bytes) (site : Site E) (p : Parsed) (path buf : Bytes) (socket : Socket)
      → Leaves len sent buf socket
      → IsAligned len sent (status_page E site p path buf socket).ends
  unfolding status_page
  status_page-IsAligned len sent site p path buf socket leaves =
      elim (Bool-cases (named "/health" path)) [
        | inl e ↦ rw e (continues-IsAligned len sent p.keep_alive buf socket leaves)
        | inr e ↦ elim (Bool-cases (named "/health/applications" path)) [
          | inl f ↦ rw (e, f) (continues-IsAligned len sent p.keep_alive buf socket leaves)
          | inr f ↦ rw (e, f) (continues-IsAligned len sent p.keep_alive buf socket leaves)
        ]
      ]

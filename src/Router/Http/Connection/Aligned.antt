-- ===== src/Router/Http/Connection/Aligned.antt =====
-- crates/buran-router/src/http1.rs, serve_connection: the next request starts where this one ends.
use buran.Prelude.{
  ℕ, ◌-◌, ◌<◌, ◌≡◌, refl, Bool, true, false, ◌&&◌, ◌||◌, Option, none, some, Bytes, ◌++◌, [],
  Bool-cases, inl, inr, arith, length, ltb,
}
use buran.Router.Matching.{RegexEngine}
use buran.Router.Routes.{
  RequestMeta, RouteOutcome, Decision, to_application, to_share, to_return, not_found, decide,
}
use buran.Router.Http.Request.{Parsed, has_control_byte}
use buran.Router.Http.Exchange.{BodyPlan, buffered, streamed}
use buran.Router.Http.Body.{
  Socket, BodyResult, Feed, whole, refused, out_of_fuel, too_slow, feed_body, take_body,
}
use buran.Router.Http.Body
use buran.Router.Http.Body.Exact.{stream, take_body-exact, Cuts}
use buran.Router.Http.Body.Feeding.{joined, feed_body-delivers}
use buran.Router.Http.Connection.{
  Turn, Site, ListenerKind, route, status, respond, status_page, after_body, serve_admitted,
  serve_request, admission, meta_of, check_meta, body_phase, after_feed, after_take, streams,
  decides_stream, serve_admission, check_size,
}
use buran.Router.Http.Connection.Leaving.{
  Leaves, IsAligned, PlanLeaves, IsPlanFor, respond-IsAligned, status_page-IsAligned,
}

module _ (E : RegexEngine) where
  after_take-IsAligned :
      (len : ℕ) (sent server buf : Bytes) (r : BodyResult)
      (answer : BodyPlan → Bytes → Socket → Turn)
      → Cuts len sent buf r
      → ((body : Bytes) (rest : Bytes) (left : Socket)
          → Leaves len sent rest left
          → IsAligned len sent (answer (buffered body) rest left).ends)
      → IsAligned len sent (after_body E (after_take server buf r) answer).ends
  after_take-IsAligned len sent server buf (whole body left) answer cuts next =
      next body buf left (body, cuts)
  after_take-IsAligned len sent server buf (refused too_slow) answer cuts next = tt
  after_take-IsAligned len sent server buf (refused Body.broken) answer cuts next = tt
  after_take-IsAligned len sent server buf out_of_fuel answer cuts next = tt

  fed-Leaves :
      (len : ℕ) (sent : Bytes) (f : Feed)
      → (f.ok ≡ true → Leaves len sent [] f.socket)
      → PlanLeaves len sent (streamed f.ok) [] f.socket
  fed-Leaves len sent f leaves = go f.ok leaves
    where
      go :
          (ok : Bool)
          → (ok ≡ true → Leaves len sent [] f.socket)
          → PlanLeaves len sent (streamed ok) [] f.socket
      go true l = l refl
      go false l = tt

  after_feed-IsAligned :
      (len : ℕ) (sent : Bytes) (o : Option Feed) (answer : BodyPlan → Bytes → Socket → Turn)
      → ((f : Feed) → o ≡ some f → f.ok ≡ true → Leaves len sent [] f.socket)
      → ((ok : Bool) (rest : Bytes) (left : Socket)
          → PlanLeaves len sent (streamed ok) rest left
          → IsAligned len sent (answer (streamed ok) rest left).ends)
      → IsAligned len sent (after_body E (after_feed o) answer).ends
  after_feed-IsAligned len sent none answer leaves next = tt
  after_feed-IsAligned len sent (some f) answer leaves next =
      next f.ok [] f.socket (fed-Leaves len sent f (leaves f refl))

  buffered_plan : (d : Decision E) (body : Bytes) → IsPlanFor E d (buffered body)
  buffered_plan (to_application name) body = tt
  buffered_plan (to_return code loc) body = tt
  buffered_plan not_found body = tt
  buffered_plan (to_share template index types links sources after) body = tt

  streamed_plan :
      (site : Site E) (d : Decision E) (ok : Bool)
      → decides_stream E site d ≡ true
      → IsPlanFor E d (streamed ok)
  streamed_plan site (to_application name) ok e = tt
  streamed_plan site (to_return code loc) ok e = cc e
  streamed_plan site not_found ok e = cc e
  streamed_plan site (to_share template index types links sources after) ok e = cc e

  -- What it takes to stream a body: bytes are still to come, for an application.
  streams-facts :
      (site : Site E) (p : Parsed) (buf : Bytes) (d : Decision E)
      → streams E site p buf d ≡ true
      → (length buf < p.content_length) × (decides_stream E site d ≡ true)
  unfolding streams
  streams-facts site p buf d e = facts (decides_stream E site d) e
    where
      facts :
          (b : Bool)
          → (ltb 0 p.content_length && (ltb (length buf) p.content_length && b)) ≡ true
          → (length buf < p.content_length) × (b ≡ true)
      facts b e = (ground (arith, e), ground (arith, e))

  feed-Leaves :
      (site : Site E) (len : ℕ) (buf : Bytes) (socket : Socket) (f : Feed)
      → length buf < len
      → feed_body site.pace buf (len - length buf) site.accepts socket ≡ some f
      → f.ok ≡ true
      → Leaves len (buf ++ stream socket) [] f.socket
  feed-Leaves site len buf socket f below e ok =
      let (cut, count) =
        feed_body-delivers site.pace buf (len - length buf) site.accepts socket f
          (omega (arith, below)) e ok in
      (joined f.sent, (omega (arith, count, below), cut))

  serve_route-IsAligned :
      (site : Site E) (p : Parsed) (buf : Bytes) (socket : Socket) (meta : RequestMeta)
      (o : RouteOutcome E) (b : Bool)
      → streams E site p buf o.decision ≡ b
      → IsAligned p.content_length
          (buf ++ stream socket)
          (after_body E (body_phase E site p buf socket b) (respond E site p meta o)).ends
  unfolding body_phase
  serve_route-IsAligned site p buf socket meta o true e =
      let (below, decides) = streams-facts site p buf o.decision e in
      after_feed-IsAligned p.content_length (buf ++ stream socket) _ (respond E site p meta o)
        (λ f fed ok. feed-Leaves site p.content_length buf socket f below fed ok)
        (λ ok rest left leaves.
          respond-IsAligned E p.content_length (buf ++ stream socket) site p meta o (streamed ok)
            rest left (streamed_plan site o.decision ok decides) leaves)
  serve_route-IsAligned site p buf socket meta o false e =
      after_take-IsAligned p.content_length (buf ++ stream socket) site.server _ _
        (respond E site p meta o) (take_body-exact site.pace p.content_length buf socket)
        (λ body rest left leaves.
          respond-IsAligned E p.content_length (buf ++ stream socket) site p meta o (buffered body)
            rest left (buffered_plan o.decision body) leaves)

  serve_admitted-IsAligned :
      (site : Site E) (kind : ListenerKind) (p : Parsed) (buf : Bytes) (socket : Socket)
      (meta : RequestMeta)
      → IsAligned p.content_length
          (buf ++ stream socket)
          (serve_admitted E site kind p buf socket meta).ends
  unfolding serve_admitted
  serve_admitted-IsAligned site (route name) p buf socket meta =
      serve_route-IsAligned site p buf socket meta (decide E site.routes name meta) _ refl
  serve_admitted-IsAligned site status p buf socket meta =
      unfold body_phase in
      after_take-IsAligned p.content_length (buf ++ stream socket) site.server _ _
        (λ plan. status_page E site p meta.path)
        (take_body-exact site.pace p.content_length buf socket)
        (λ body rest left leaves.
          status_page-IsAligned E p.content_length (buf ++ stream socket) site p meta.path rest left
            leaves)

  -- When a connection goes on to its next request, exactly the declared length of this one's body
  -- has left what the client sent behind the head, whether it was buffered, streamed to a worker or
  -- not looked at.
  pub serve_request-IsAligned :
      (site : Site E) (kind : ListenerKind) (p : Parsed) (buf : Bytes) (socket : Socket)
      → IsAligned p.content_length
          (buf ++ stream socket)
          (serve_request E site kind (some p) buf socket).ends
  unfolding serve_request admission
  serve_request-IsAligned site kind p buf socket = checked p.bad
    where
      admitted :
          (meta : RequestMeta)
          → IsAligned p.content_length
              (buf ++ stream socket)
              (serve_admission E site kind p buf socket (check_meta E meta)).ends
      admitted meta =
          elim (Bool-cases (
            has_control_byte meta.path
            || (has_control_byte meta.query || has_control_byte meta.host))) [
              | inl dirty ↦ rw dirty tt
              | inr clean ↦ rw clean (serve_admitted-IsAligned site kind p buf socket meta)
            ]

      checked :
          (bad : Option ℕ)
          → IsAligned p.content_length
              (buf ++ stream socket)
              (serve_admission E site kind p buf socket (check_size E site p bad)).ends
      checked (some code) = tt
      checked none = elim (Bool-cases (ltb site.max_body p.content_length)) [
        | inl large ↦ rw large tt
        | inr fits ↦ rw fits (admitted (meta_of E site p))
      ]

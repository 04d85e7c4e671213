-- ===== src/Router/Http/Connection/Cutting.antt =====
-- crates/buran-router/src/http1.rs, serve_connection: the requests of a connection are those that its
-- bytes have, however they arrive.
use buran.Prelude.{
  ℕ, zero, suc, ◌+◌, ◌<◌, ◌≤◌, ◌≡◌, refl, sym, ap, ◌∙◌, Option, none, some, List, [], ◌∷◌, ◌++◌,
  Bytes, length, take, drop, length-append, append_assoc, take-append-drop, length-take,
  take-append_le, drop-append, arith, subst,
}
use buran.Router.Matching.{RegexEngine}
use buran.Router.Http.Request.{RawRequest, Parsed, parse_request, find_headers_end}
use buran.Router.Http.Body.{Socket}
use buran.Router.Http.Body.Exact.{stream}
use buran.Router.Http.Body.Heads.{find_headers_end-append, find_headers_end-length}
use buran.Router.Http.Connection.{
  Site, ListenerKind, Turn, TurnEnd, serve_request, next_request, closes, fails, unfinished,
  tunnels,
}
use buran.Router.Http.Connection.Leaving.{IsAligned}
use buran.Router.Http.Connection.Aligned.{serve_request-IsAligned}
use buran.Router.Http.Connection.Requests.{
  Awaited, found, large, gone, broken, out_of_fuel, await_head, Served, continued, served_before,
  serve_one, serve_awaited, serve_loop, serve_connection,
}
use buran.Router.Http.Connection.Awaiting.{Finds, await_head-Finds}

abbrev pub IsPrefix : List Bytes → List Bytes → Type 0
IsPrefix [] ys = Unit
IsPrefix (x ∷ xs) [] = ⊥
IsPrefix (x ∷ xs) (y ∷ ys) = (x ≡ y) × IsPrefix xs ys

module _ (E : RegexEngine) (httparse : Bytes → Option RawRequest) where
  -- The heads that the bytes of a connection have: each stands behind the body of the one before.
  abbrev pub past_body : ℕ → Bytes → Option Parsed → (Bytes → List Bytes) → List Bytes
  past_body pos sent none later = []
  past_body pos sent (some p) later = later (drop (pos + p.content_length) sent)

  abbrev cut_at : Bytes → Option ℕ → (Bytes → List Bytes) → List Bytes
  cut_at sent none later = []
  cut_at sent (some pos) later =
      take pos sent ∷ past_body pos sent (parse_request httparse (take pos sent)) later

  unfoldable pub cut : ℕ → Bytes → List Bytes
  unfolding find_headers_end parse_request
  cut zero sent = []
  cut (suc fuel) sent = cut_at sent (find_headers_end sent) (λ later. cut fuel later)

  abbrev head_before : Option Bytes → List Bytes → List Bytes
  head_before (some h) hs = h ∷ hs
  head_before none hs = hs

  abbrev pub heads_of : List Served → List Bytes
  heads_of [] = []
  heads_of (s ∷ later) = head_before s.request (heads_of later)

  -- The fuel lasts, and the requests are the first that the bytes have.
  abbrev Serves : List Bytes → Option (List Served) → Type 0
  Serves heads none = ⊥
  Serves heads (some served) = IsPrefix (heads_of served) heads

  served_before-Serves :
      (h : Bytes) (t : Turn) (heads : List Bytes) (o : Option (List Served))
      → Serves heads o
      → Serves (h ∷ heads) (served_before E httparse (record { request = some h; turn = t }) o)
  served_before-Serves h t heads none later = later
  served_before-Serves h t heads (some served) later = (refl, later)

  -- What a turn leaves for the next one stands behind the body.
  continued-Serves :
      (fuel pos len : ℕ) (sent h after : Bytes) (t : Turn) (ends : TurnEnd)
      (again : Bytes → Socket → Option (List Served))
      → sent ≡ h ++ after
      → length h ≡ pos
      → IsAligned len after ends
      → ((b : Bytes) (rest : Socket)
          → length (b ++ stream rest) ≤ length after
          → Serves (cut fuel (b ++ stream rest)) (again b rest))
      → Serves (h ∷ cut fuel (drop (pos + len) sent)) (
          served_before E httparse
            (record { request = some h; turn = t })
            (continued E httparse ends again))
  continued-Serves fuel pos len sent h after t (next_request b rest) again e l (body, (k, a)) ih =
      let left : drop (pos + len) sent ≡ b ++ stream rest =
        ap (λ v. drop (pos + len) v) (e ∙ ap (◌++◌ h) (sym a) ∙ sym (append_assoc h body _))
        ∙ ap (λ n. drop n ((h ++ body) ++ (b ++ stream rest)))
            (omega (arith, l, k, length-append h body))
        ∙ drop-append (h ++ body) (b ++ stream rest) in
      served_before-Serves h t _ (again b rest) (
        subst (λ v. Serves (cut fuel v) (again b rest)) (sym left)
          (ih b rest (omega (arith, ap length a, length-append body (b ++ stream rest)))))
  continued-Serves fuel pos len sent h after t closes again e l a ih = (refl, tt)
  continued-Serves fuel pos len sent h after t fails again e l a ih = (refl, tt)
  continued-Serves fuel pos len sent h after t unfinished again e l a ih = (refl, tt)
  continued-Serves fuel pos len sent h after t (tunnels later) again e l a ih = (refl, tt)

  serve_one-Serves :
      (fuel : ℕ) (site : Site E) (kind : ListenerKind) (pos : ℕ) (b : Bytes) (rest : Socket)
      (again : Bytes → Socket → Option (List Served))
      → 0 < pos
      → pos ≤ length b
      → find_headers_end b ≡ some pos
      → ((c : Bytes) (s : Socket)
          → length (c ++ stream s) < length (b ++ stream rest)
          → Serves (cut fuel (c ++ stream s)) (again c s))
      → Serves
          (cut (suc fuel) (b ++ stream rest))
          (serve_awaited E httparse site kind (found pos b rest) again)
  unfolding cut serve_one
  serve_one-Serves fuel site kind pos b rest again positive inside e ih =
      rw (find_headers_end-append b (stream rest) pos e, take-append_le pos b (stream rest) inside)
        (parsed (parse_request httparse (take pos b)))
    where
      parsed :
          (o : Option Parsed)
          → Serves (take pos b ∷ past_body pos (b ++ stream rest) o (λ later. cut fuel later)) (
              served_before E httparse
                (record {
                  request = some (take pos b);
                  turn = serve_request E site kind o (drop pos b) rest;
                })
                (continued E httparse (serve_request E site kind o (drop pos b) rest).ends again))
      parsed none = (refl, tt)
      parsed (some p) =
          let after = drop pos b ++ stream rest in
          let halves : b ++ stream rest ≡ take pos b ++ after =
            ap (λ v. v ++ stream rest) (sym (take-append-drop pos b))
            ∙ append_assoc (take pos b) (drop pos b) (stream rest) in
          let l : length (take pos b) ≡ pos = omega (arith, length-take pos b, inside) in
          continued-Serves fuel pos p.content_length (b ++ stream rest) (take pos b) after _ _ again
            halves l (serve_request-IsAligned E site kind p (drop pos b) rest)
            (λ c s less. ih c s (
              omega (arith, less, l, positive, ap length halves, length-append (take pos b) after)))

  serve_loop-Serves :
      (fuel : ℕ) (site : Site E) (kind : ListenerKind) (buf : Bytes) (s : Socket)
      → length (buf ++ stream s) < fuel
      → Serves (cut fuel (buf ++ stream s)) (serve_loop E httparse fuel site kind buf s)
  unfolding serve_loop
  serve_loop-Serves zero site kind buf s enough = elim enough [ ]
  serve_loop-Serves (suc fuel) site kind buf s enough =
      awaited (await_head (suc (length (stream s))) buf s)
        (await_head-Finds (suc (length (stream s))) buf s (omega arith))
        (λ b rest less. serve_loop-Serves fuel site kind b rest less)
    where
      awaited :
          (a : Awaited)
          → Finds (buf ++ stream s) a
          → ((b : Bytes) (rest : Socket)
              → length (b ++ stream rest) < fuel
              → Serves (cut fuel (b ++ stream rest)) (serve_loop E httparse fuel site kind b rest))
          → Serves (cut (suc fuel) (buf ++ stream s)) (
              serve_awaited E httparse site kind a
                (λ b rest. serve_loop E httparse fuel site kind b rest))
      awaited (found pos b rest) (same, (e, inside)) ih =
          subst
            (λ v. Serves (cut (suc fuel) v) (
              serve_awaited E httparse site kind (found pos b rest)
                (λ c t. serve_loop E httparse fuel site kind c t)))
            same
            (serve_one-Serves fuel site kind pos b rest _ (find_headers_end-length b pos e).0 inside
              e (λ c t less. ih c t (omega (arith, less, ap length same, enough))))
      awaited large h ih = tt
      awaited gone h ih = tt
      awaited broken h ih = tt
      awaited out_of_fuel h ih = elim h [ ]

  -- The heads of all that a client sends. Each takes bytes off, so the length is fuel enough.
  abbrev pub requests_of : Bytes → List Bytes
  requests_of sent = cut (suc (length sent)) sent

  -- However the bytes of a client are cut into reads, the requests that its connection serves are the
  -- first ones of all that it sends: each is the head that stands behind the declared body of the one
  -- before, and none is left out. The loops end.
  pub serve_connection-IsPrefix :
      (site : Site E) (kind : ListenerKind) (socket : Socket)
      → (served : List Served) × ((serve_connection E httparse site kind socket ≡ some served)
          × IsPrefix (heads_of served) (requests_of (stream socket)))
  unfolding serve_connection
  serve_connection-IsPrefix site kind socket =
      ended (serve_loop E httparse (suc (length (stream socket))) site kind [] socket) refl
        (serve_loop-Serves (suc (length (stream socket))) site kind [] socket (omega arith))
    where
      ended :
          (o : Option (List Served))
          → serve_loop E httparse (suc (length (stream socket))) site kind [] socket ≡ o
          → Serves (requests_of (stream socket)) o
          → (served : List Served) × ((serve_loop E httparse
                  (suc (length (stream socket)))
                  site
                  kind
                  []
                  socket
                ≡ some served)
              × IsPrefix (heads_of served) (requests_of (stream socket)))
      ended none e h = elim h [ ]
      ended (some served) e h = (served, (e, h))

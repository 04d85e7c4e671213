-- ===== src/Router/Http/Connection/Requests.antt =====
-- crates/buran-router/src/http1.rs, serve_connection: its loop over the requests of a connection. A
-- pause past a timeout is an arrival of the socket; a shutdown, which read_head has, and the access
-- log are left out.
use buran.Prelude.{
  ℕ, zero, suc, ◌*◌, false, Option, none, some, List, [], ◌∷◌, ◌++◌, Bytes, codes, length, take,
  drop,
}
use buran.Router.Matching.{RegexEngine}
use buran.Router.Http.Request.{RawRequest, parse_request}
use buran.Router.Http.Response.{write_simple}
use buran.Router.Http.Body.{
  Socket, ReadResult, HeadResult, read, read_head, got, timed_out, io_error, head, too_large,
  closed, failed, awaits,
}
use buran.Router.Http.Body.Exact.{stream}
use buran.Router.Http.Connection.{
  Site, ListenerKind, Turn, TurnEnd, serve_request, failing, next_request, closes, fails,
  unfinished, tunnels,
}

-- A head with the buffer that it starts and the socket behind it, or why there is none. Nothing is
-- written before a connection ends that is `gone`.
pub data Awaited : Type 0 where
  found : ℕ → Bytes → Socket → Awaited
  large gone broken out_of_fuel : Awaited

abbrev pub head_chunk : ℕ
head_chunk = 8 * 1024

abbrev pub on_read : Bytes → ReadResult × Socket → (Bytes → Socket → Awaited) → Awaited
on_read buf (got t [], socket) again = gone
on_read buf (got t (b ∷ bs), socket) again = again (buf ++ (b ∷ bs)) socket
on_read buf (timed_out, socket) again = gone
on_read buf (io_error, socket) again = broken

abbrev pub on_head : HeadResult → Socket → (Bytes → Awaited) → Awaited
on_head (head pos buf) socket again = found pos buf socket
on_head too_large socket again = large
on_head closed socket again = gone
on_head failed socket again = broken
on_head (awaits buf) socket again = again buf

-- Every read but the last brings a byte, so the length of the stream is fuel enough.
unfoldable pub await_head : ℕ → Bytes → Socket → Awaited
unfolding read_head read
await_head zero buf socket = out_of_fuel
await_head (suc fuel) buf socket =
    on_head (read_head buf []) socket
      (λ b. on_read b (read head_chunk socket) (λ longer rest. await_head fuel longer rest))

-- A request, by its head, and what came of it; or an answer to no request.
pub record Served : Type 0 where
  pub request : Option Bytes
  pub turn : Turn

module _ (E : RegexEngine) (httparse : Bytes → Option RawRequest) where
  abbrev pub continued : TurnEnd → (Bytes → Socket → Option (List Served)) → Option (List Served)
  continued (next_request buf socket) again = again buf socket
  continued closes again = some []
  continued fails again = some []
  continued unfinished again = some []
  continued (tunnels later) again = some []

  abbrev pub served_before : Served → Option (List Served) → Option (List Served)
  served_before s (some later) = some (s ∷ later)
  served_before s none = none

  abbrev pub large_head : Site E → Turn
  large_head site = record {
    wire = write_simple site.server 431 (codes "Request Header Fields Too Large") false;
    handed = none;
    ends = closes;
  }

  unfoldable pub serve_one : Site E → ListenerKind → ℕ → Bytes → Socket → Turn
  unfolding serve_request parse_request
  serve_one site kind pos buf socket =
      serve_request E site kind (parse_request httparse (take pos buf)) (drop pos buf) socket

  abbrev pub serve_awaited :
      Site E
      → ListenerKind
      → Awaited
      → (Bytes → Socket → Option (List Served))
      → Option (List Served)
  serve_awaited site kind (found pos buf socket) again =
      let turn = serve_one site kind pos buf socket in
      served_before (record { request = some (take pos buf); turn = turn })
        (continued turn.ends again)
  serve_awaited site kind large again =
      some (record { request = none; turn = large_head site } ∷ [])
  serve_awaited site kind gone again = some []
  serve_awaited site kind broken again = some (record { request = none; turn = failing } ∷ [])
  serve_awaited site kind out_of_fuel again = none

  -- Every request takes its head off the stream; none when the fuel runs out.
  unfoldable pub serve_loop : ℕ → Site E → ListenerKind → Bytes → Socket → Option (List Served)
  unfolding await_head serve_one write_simple
  serve_loop zero site kind buf socket = none
  serve_loop (suc fuel) site kind buf socket =
      serve_awaited site kind (await_head (suc (length (stream socket))) buf socket)
        (λ b rest. serve_loop fuel site kind b rest)

  unfoldable pub serve_connection : Site E → ListenerKind → Socket → Option (List Served)
  unfolding serve_loop
  serve_connection site kind socket = serve_loop (suc (length (stream socket))) site kind [] socket

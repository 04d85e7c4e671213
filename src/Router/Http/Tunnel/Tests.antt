-- ===== src/Router/Http/Tunnel/Tests.antt =====
-- A tunnel of three rounds, and the theorem on tunnels at it.
use buran.Prelude.{◌≡◌, refl, true, none, [], ◌∷◌, codes}
use buran.Router.Dispatch.{ws}
use buran.Router.Ws
use buran.Router.Ws.{Decoder}
use buran.Router.Http.Tunnel
use buran.Router.Http.Tunnel.{Tunnelled, ws_tunnel}
use buran.Router.Http.Tunnel.Closing
use buran.Router.Http.Tunnel.Draining.{Shaped}

abbrev fresh : Decoder
fresh = record { max_message = 16; frag_opcode = none; frag = [] }

-- The worker says "hi", the client is silent for too long.
abbrev greeting : Tunnelled
greeting =
    ws_tunnel fresh [] ((true, Tunnel.worker_event (ws 1 (codes "hi"))) ∷ (true, Tunnel.idle) ∷ [])

greeting_ends : greeting.tunnel_end ≡ Tunnel.closed
unfolding ws_tunnel Tunnel.drain Tunnel.on_signal Tunnel.on_ws Ws.next Ws.next_loop Ws.round
    Ws.after_parse Ws.parse_frame
greeting_ends = refl

ws_tunnel-Shaped_example : Shaped greeting.tunnel_end greeting.out
ws_tunnel-Shaped_example =
    Closing.ws_tunnel-Shaped fresh []
      ((true, Tunnel.worker_event (ws 1 (codes "hi"))) ∷ (true, Tunnel.idle) ∷ [])

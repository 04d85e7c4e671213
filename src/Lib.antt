-- ===== src/Lib.antt =====
-- A model of Buran, an application server: an HTTP router that hands requests to worker processes
-- over the BWP protocol, and of what makes its parts correct.
--
-- Parts and files (paths from the repository's root):
-- - Prelude: tests on numbers, lists, byte orders, finite maps.
-- - Ipc: the protocol, crates/buran-ipc/src. Ipc/Error has `BwpError` and the constants of lib.rs;
--   Ipc/Frame is frame.rs, Ipc/Hello is hello.rs, Ipc/Request is request.rs. A slice or an index
--   out of range is the outcome `panic`.
-- - Router/Ws: crates/buran-router/src/ws.rs. `Decoder::next` is `next`, whose loop is `next_loop`
--   over `round`: one frame by `parse_frame`, and what `on_frame` does with it. The loop has fuel,
--   one more than the bytes in the buffer: each round takes a frame off.
-- - Router/Uri: crates/buran-router/src/uri.rs, the paths; Dates has `civil_from_days` and
--   `http_date`.
-- - Router/Template: crates/buran-router/src/template.rs. The loop of `compile` has one more fuel
--   than the input has bytes: each round takes a dollar sign off.
-- - Router/Matching: crates/buran-router/src/matching.rs. The regex crate is the parameter
--   `RegexEngine`; the parser of addresses of the standard library is one too.
-- - Router/Routes: crates/buran-router/src/routes.rs. `decide` walks with `walk` over `hop`,
--   sixteen hops at most as in the code, and `matches` tests one step. Compile makes routes of a
--   validated configuration; a call of `unreachable!` is an outcome of its own.
-- - Router/Dispatch: crates/buran-router/src/dispatch.rs. State has `Pool`, the state of a pool.
--   Its operations take a pool to a pool and a list of effects: what goes over channels and
--   sockets. Reader is `reader_task`, one frame at a time; Handshake has `read_frame`, `handshake`
--   and the delay after a crash; Sweep has `sweep_decide`, `abort_task` and `confirm_and_kill`;
--   Pump has `pump_body`, `send_ws`, `probe` and the tick of `janitor`; System puts a pool and the
--   readers of its workers together, as a relation of steps that interleave. What the code does
--   under one lock is one step; the counter of requests in flight is updated outside of the lock,
--   so System/Counter has each update as a step of its own. A send that fails takes its request out
--   even if a worker claimed it; that no worker does so is a hypothesis where it is needed. The
--   loop over request ids has one more fuel than there are requests: among so many candidates one
--   is free.
-- - Router/Http: crates/buran-router/src/http1.rs. Request is the head of a request
--   (`parse_request` and the functions on targets and headers), Body the reading of heads and
--   bodies, Response what is written, Payload is what `dispatch_to_app` hands to a worker, Exchange
--   what it makes of the answer; Writers has `TimedWriter` and `CountingWriter`. Connection is what
--   `serve_connection` does with one request, Connection/Turns how that ends, Connection/Requests
--   its loop, whose fuel is the length of the stream: every request takes its head off; Tunnel is
--   `ws_tunnel`, over the outcomes of its selects. A socket is the list of what it still brings;
--   the crate httparse is a parameter. The loops that read a body have its length for fuel: each
--   read brings a byte.
-- - Router/Static: crates/buran-router/src/serve_static.rs. Static.antt has the ranges, tags, types
--   and names, Serve is `serve`. The file system is a parameter. The copying loop has the bytes
--   that remain for fuel: each read takes one at least.
-- - Config: crates/buran-config/src. Config.antt has the types of schema.rs; Config/Actions,
--   Config/Applications, Config/Inline, Config/Listeners and Config/Quota are the parts of
--   validate.rs and cpu.rs, Config/Validate is `validate`, Config/Loading is lib.rs (Marks says
--   what an anchor is). A message is a constructor of `Problem`, without the path in the file. The
--   parser of IP literals is a parameter. Config/Substitution is subst.rs; its loop has one more
--   fuel than the text has bytes.
--
-- The configuration, once validated, is compiled to routes and names the pools. The router reads
-- requests with Http, which decodes paths with Uri and sends files with Static; Routes takes a
-- request to a decision with Matching, Template and Uri; the router submits requests to a pool of
-- Dispatch as payloads of Ipc/Request; the frames of Ipc/Frame come back to the reader; an upgraded
-- connection speaks Ws.
--
-- Not modelled: the access log, writes to a client that fail, the parsing of YAML, the worker
-- library, the PHP and echo modules and the supervisor; and of a pool the timers and the files. A
-- timeout is an outcome that a step takes as given. The order of a hash map is that of a list.
pub mod Prelude
pub mod Ipc
pub mod Router
pub mod Config

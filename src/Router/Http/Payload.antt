-- ===== src/Router/Http/Payload.antt =====
-- crates/buran-router/src/http1.rs, dispatch_to_app: the payload that a worker gets for a request.
pub mod Assembly
pub mod Shown
use buran.Prelude.{ℕ, Bool, List, [], ◌∷◌, ltb, if◌then◌else◌, Bytes, length, codes}
use buran.Ipc.Request.{
  RequestBuilder, new, set_method, set_path, set_target, set_query, set_version, set_remote_addr,
  set_server_name, set_server_port, set_content_length, set_preread_body, add_field, finish,
}
use buran.Router.Routes.{or_empty}
use buran.Router.Http.Request.{Header, Parsed, find_header}
use buran.Router.Http.Exchange.{BodyPlan, buffered, streamed, inline_body_limit}

-- The addresses of a connection: the client's, as std::net prints it, and the local port.
pub record Addresses : Type 0 where
  pub remote : Bytes
  pub port : ℕ

-- What a payload says of the body: the bytes, the file that they were spilled to and their number,
-- or the length of a body that follows in chunks.
pub data BodyPart : Type 0 where
  inlined : Bytes → BodyPart
  spilled : Bytes → ℕ → BodyPart
  chunked : ℕ → BodyPart

unfoldable pub body_part : Bytes → ℕ → BodyPlan → BodyPart
body_part spill total (buffered body) =
    if ltb inline_body_limit (length body) then spilled spill (length body) else inlined body
body_part spill total (streamed ok) = chunked total

unfoldable pub with_fields : List Header → RequestBuilder → RequestBuilder
unfolding add_field
with_fields [] b = b
with_fields ((name, value) ∷ headers) b = with_fields headers (add_field name value b)

unfoldable pub with_head : Parsed → Bytes → Bytes → Addresses → RequestBuilder → RequestBuilder
unfolding set_method set_path set_target set_query set_version set_remote_addr set_server_name
    set_server_port find_header
with_head p path query ends b = set_server_port ends.port (
    set_server_name (or_empty (find_header (codes "host") p.headers)) (
      set_remote_addr ends.remote (
        set_version (codes "HTTP/1.1")
          (set_query query (set_target p.target (set_path path (set_method p.method b)))))))

unfoldable pub with_body : BodyPart → RequestBuilder → RequestBuilder
unfolding set_content_length set_preread_body
with_body (inlined bytes) b = set_preread_body bytes (set_content_length (length bytes) b)
with_body (spilled file len) b = set_preread_body file (set_content_length len b)
with_body (chunked total) b = set_preread_body [] (set_content_length total b)

unfoldable pub builder_of : Parsed → Bytes → Bytes → Addresses → BodyPart → RequestBuilder
unfolding with_head with_fields with_body
builder_of p path query ends c =
    with_body c (with_fields p.headers (with_head p path query ends new))

unfoldable pub request_payload : Parsed → Bytes → Bytes → Addresses → BodyPart → Bytes
unfolding builder_of finish
request_payload p path query ends c = (finish (builder_of p path query ends c)).0

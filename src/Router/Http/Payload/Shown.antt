-- ===== src/Router/Http/Payload/Shown.antt =====
-- What a worker reads from the payload of a request is the request.
use buran.Prelude.{ℕ, ◌+◌, [], Bytes, length, codes}
use buran.Ipc.Request.Meaning.{Request}
use buran.Router.Routes.{or_empty}
use buran.Router.Http.Request.{Parsed, find_header}
use buran.Router.Http.Payload.{Addresses, BodyPart, inlined, spilled, chunked}
use buran.Router.Http.Payload.Assembly.{fields_of, fields_size}

abbrev pub preread : BodyPart → Bytes
preread (inlined bytes) = bytes
preread (spilled file len) = file
preread (chunked total) = []

abbrev pub declared : BodyPart → ℕ
declared (inlined bytes) = length bytes
declared (spilled file len) = len
declared (chunked total) = total

-- The request that the router means to hand over.
abbrev pub request_of : Parsed → Bytes → Bytes → Addresses → BodyPart → Request
request_of p path query ends c = record {
  method = p.method;
  path = path;
  target = p.target;
  query = query;
  version = codes "HTTP/1.1";
  remote_addr = ends.remote;
  server_name = or_empty (find_header (codes "host") p.headers);
  content_length = declared c;
  server_port = ends.port;
  fields = fields_of p.headers;
  body = preread c;
}

abbrev pub head_size : Parsed → Bytes → Bytes → Addresses → ℕ
head_size p path query ends =
    length p.method
    + length path
    + length p.target
    + length query
    + 8
    + length ends.remote
    + length (or_empty (find_header (codes "host") p.headers))

abbrev pub request_size : Parsed → Bytes → Bytes → Addresses → BodyPart → ℕ
request_size p path query ends c =
    head_size p path query ends + fields_size p.headers + length (preread c)

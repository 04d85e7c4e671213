-- ===== src/Router/Tests.antt =====
-- Runs of the websocket codec, of paths and of templates, and the theorems at concrete inputs.
use buran.Prelude.{
  ◌↔◌, bytes_eq, ◌≡◌, ◌≢◌, refl, [], ◌∷◌, ◌++◌, arith, Bytes, List, some, none, true, inl, inr,
  codes,
}
use buran.Router.Ws
use buran.Router.Ws.{
  Frame, Decoder, Next, Message, parse_frame, next, encode_frame, unmask, ok, err,
}
use buran.Router.Ws.Frames
use buran.Router.Ws.Chunks
use buran.Router.Ws.Messages
use buran.Router.Ws.Messages.{Fragment}
use buran.Router.Ws.Bounds
use buran.Router.Ws.Bounds.{IsSound, MessageWithin}
use buran.Router.Uri.{normalize_path}
use buran.Router.Uri.Normal
use buran.Router.Uri.Normal.{IsNormal}
use buran.Router.Matching
use buran.Router.Matching.Wildcards
use buran.Router.Template
use buran.Router.Template.Rendering

abbrev key : Bytes
key = 1 ∷ 2 ∷ 3 ∷ 4 ∷ []

abbrev hello : Bytes
hello = codes "hello"

abbrev hello_frame : Frame
hello_frame = record { fin = true; opcode = 1; payload = hello }

hello_frame-IsClientFrame : Frames.IsClientFrame 16 key hello_frame
hello_frame-IsClientFrame = record {
  key_length = refl;
  key_bytes = omega arith;
  payload_bytes = omega arith;
  opcode = omega arith;
  control = λ h. omega arith;
  data_limit = λ h. omega arith;
  wide = omega arith;
}

abbrev first : Fragment
first = record { key = key; payload = codes "he" }

abbrev second : Fragment
second = record { key = key; payload = codes "llo" }

abbrev midway : Decoder
midway = record { max_message = 16; frag_opcode = some 1; frag = codes "he" }

ping-midway :
    next midway (Frames.client_frame key (Messages.frame_of true 9 second) ++ (7 ∷ []))
    ≡ some (record { decoder = midway; buf = 7 ∷ []; result = ok (some (Ws.ping (codes "llo"))) })
ping-midway =
    Messages.next-control midway 9 second (7 ∷ []) (inr (inl refl))
      (refl, omega arith, omega arith, omega arith) (omega arith)

midway-IsSound : IsSound midway
midway-IsSound = record { fits = omega arith; idle = λ e. cc e }

abbrev after_ping : Next
after_ping = record { decoder = midway; buf = 7 ∷ []; result = ok (some (Ws.ping (codes "llo"))) }

next-MessageWithin_example :
    (Decoder.max_message midway ≡ Decoder.max_message midway)
    × IsSound midway
    × ((m : Message) → Next.result after_ping ≡ ok (some m) → MessageWithin 16 m)
next-MessageWithin_example =
    Bounds.next-MessageWithin midway
      (Frames.client_frame key (Messages.frame_of true 9 second) ++ (7 ∷ [])) after_ping
      midway-IsSound ping-midway

next-append_example :
    (Next.result after_ping ≢ ok none
      → next midway
          ((Frames.client_frame key (Messages.frame_of true 9 second) ++ (7 ∷ [])) ++ (8 ∷ []))
        ≡ some (record after_ping { buf = 7 ∷ 8 ∷ [] }))
    × (Next.result after_ping ≡ ok none
        → next midway
            ((Frames.client_frame key (Messages.frame_of true 9 second) ++ (7 ∷ [])) ++ (8 ∷ []))
          ≡ next midway (7 ∷ 8 ∷ []))
next-append_example =
    Chunks.next-append midway
      (Frames.client_frame key (Messages.frame_of true 9 second) ++ (7 ∷ [])) (8 ∷ []) after_ping
      ping-midway

normalize_path-IsNormal_example : IsNormal (normalize_path (codes "/a/%2e%2e/../b//c/"))
normalize_path-IsNormal_example = Normal.normalize_path-IsNormal (codes "/a/%2e%2e/../b//c/")

normalized_path : normalize_path (codes "/a/%2e%2e/b//c/") ≡ codes "/b/c/"
unfolding normalize_path
normalized_path = refl

abbrev location : List Template.Part
location =
    Template.lit (codes "https://") ∷ Template.var Template.host ∷ Template.var Template.uri ∷ []

abbrev request_vars : Template.Vars
request_vars = record {
  uri = codes "/a";
  args = [];
  host = codes "example.com";
  method = codes "GET";
  remote_addr = codes "::1";
}

render-compile_example :
    (t : Template.Template) × (Template.compile (Rendering.write location) ≡ some (Template.ok t))
    × (Template.render request_vars t ≡ Rendering.shown request_vars location)
render-compile_example = Rendering.render-compile request_vars location (omega arith)

-- An engine that reads a regex as plain text.
abbrev literal_engine : Matching.RegexEngine
literal_engine = record {
  Regex = Bytes;
  build = some;
  is_match = λ re v. bytes_eq re v;
  escape = λ s. s;
}

compile_wildcard-Glob_example :
    (p : Matching.Pattern Bytes) × (Matching.compile_wildcard literal_engine (codes "/api/*.php")
      ≡ some p)
    × ((Matching.pattern_matches literal_engine (codes "/api/x.php") p ≡ true)
        ↔ Wildcards.Glob (codes "/api/*.php") (codes "/api/x.php"))
compile_wildcard-Glob_example =
    Wildcards.compile_wildcard-Glob literal_engine (codes "/api/*.php") (codes "/api/x.php")
      (unfold Matching.count_stars in omega arith)

abbrev networks : List Bytes
networks = codes "10." ∷ codes "!10.0." ∷ []

abbrev networks_set : Matching.Signed Bytes
networks_set = record { positive = codes "10." ∷ []; negative = codes "10.0." ∷ [] }

compiled_networks : Matching.compile_signed some networks ≡ some networks_set
unfolding Matching.compile_signed Matching.strip Matching.add_signed
compiled_networks = refl

-- ===== src/Ipc/Tests.antt =====
-- Runs of the protocol's codecs, and the theorems at concrete inputs.
use buran.Prelude.{◌≡◌, refl, [], ◌∷◌, ◌++◌, arith, Bytes}
use buran.Ipc.Error.{ok, bwp_magic, uint_at, byte_at}
use buran.Ipc.Frame
use buran.Ipc.Frame.{FrameHeader}
use buran.Ipc.Hello.{Hello}
use buran.Ipc.Request
use buran.Ipc.Request.{
  RequestView, RequestBuilder, new, set_method, set_path, add_field, set_preread_body, finish,
  parse, view_field,
}
use buran.Ipc.Request.Meaning
use buran.Ipc.Request.Meaning.{meaning}
use buran.Ipc.Request.Safety
use buran.Ipc.Request.Safety.{SafeView}
use buran.Ipc.Request.RoundTrip
use buran.Ipc.Request.RoundTrip.{Shows, IsSmall, view_of}

abbrev claim_frame : FrameHeader
claim_frame = record {
  kind = Frame.claim;
  flags = 0;
  request_id = 4294967295;
  payload_len = 258;
  aux = 0;
}

abbrev wire : Bytes
wire = 6 ∷ 0 ∷ 9 ∷ 9 ∷ 255 ∷ 255 ∷ 255 ∷ 255 ∷ 2 ∷ 1 ∷ 0 ∷ 0 ∷ 0 ∷ 0 ∷ 0 ∷ 0 ∷ []

decode-wire : Frame.decode wire ≡ ok claim_frame
unfolding Frame.decode Frame.try_from byte_at uint_at
decode-wire = refl

abbrev bad_wire : Bytes
bad_wire = 18 ∷ 0 ∷ 0 ∷ 0 ∷ 1 ∷ 0 ∷ 0 ∷ 0 ∷ 0 ∷ 0 ∷ 0 ∷ 0 ∷ 0 ∷ 0 ∷ 0 ∷ 0 ∷ []

abbrev echo_hello : Hello
echo_hello = record { version = 1; pid = 4242; concurrency = 8; capabilities = 3 }

abbrev short : Bytes
short = bwp_magic ++ (1 ∷ 0 ∷ [])

abbrev get_request : RequestBuilder
get_request = set_preread_body (b'h' ∷ b'i' ∷ []) (
    add_field (b'a' ∷ []) (b'1' ∷ b'2' ∷ [])
      (add_field (b'h' ∷ []) [] (set_path (b'/' ∷ []) (set_method (b'G' ∷ []) new))))

get_request-IsValid : Meaning.IsValid get_request
unfolding set_preread_body add_field set_path set_method Request.appended
get_request-IsValid = omega arith

get_request-IsSmall : IsSmall get_request
unfolding set_preread_body add_field set_path set_method Request.appended
get_request-IsSmall = omega arith

parse-finish-Shows_example :
    (parse (finish get_request).0 ≡ ok (view_of get_request))
    × Shows (view_of get_request) (meaning get_request)
parse-finish-Shows_example =
    RoundTrip.parse-finish-Shows get_request get_request-IsValid get_request-IsSmall

header_two :
    view_field (view_of get_request) 1 ≡ ok (record { name = b'a' ∷ []; value = b'1' ∷ b'2' ∷ [] })
unfolding view_field Request.slice_at uint_at finish Request.push_fields set_preread_body add_field
    set_path set_method Request.appended
header_two = refl

parsed_request : parse (finish get_request).0 ≡ ok (view_of get_request)
parsed_request = parse-finish-Shows_example.0

accessors_never_panic_example : SafeView (view_of get_request)
accessors_never_panic_example =
    Safety.accessors_never_panic (finish get_request).0 (view_of get_request) parsed_request

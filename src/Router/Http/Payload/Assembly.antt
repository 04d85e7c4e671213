-- ===== src/Router/Http/Payload/Assembly.antt =====
-- crates/buran-router/src/http1.rs, dispatch_to_app: what each call on the builder of a payload adds to
-- the request that it means.
use buran.Prelude.{
  ℕ, ◌+◌, ◌^◌, ◌<◌, ◌≡◌, sym, ap, ◌∙◌, List, [], ◌∷◌, ◌++◌, Bytes, length, length-append,
  append_assoc, append-nil, arith,
}
use buran.Ipc.Request.{
  RequestBuilder, FieldView, set_method, set_path, set_target, set_query, set_version,
  set_remote_addr, set_server_name, set_server_port, set_content_length, set_preread_body,
  add_field,
}
use buran.Ipc.Request.Meaning.{Request, meaning, IsValid}
use buran.Ipc.Request.Blob.{
  Means, set_method-Means, set_path-Means, set_target-Means, set_query-Means, set_version-Means,
  set_remote_addr-Means, set_server_name-Means, set_server_port-Means, set_content_length-Means,
  set_preread_body-Means, add_field-Means,
}
use buran.Router.Http.Request.{Header}
use buran.Router.Http.Payload.{with_fields}

-- A builder that means a request, with so many bytes in its blob.
pub record Assembled (b : RequestBuilder) (r : Request) (n : ℕ) : Type 0 where
  pub valid : IsValid b
  pub means : meaning b ≡ r
  pub size : length b.blob ≡ n

after :
    {b b' : RequestBuilder} {r : Request} {n m : ℕ} (g : Request → Request)
    → Assembled b r n
    → Means b' (g (meaning b))
    → length b'.blob ≡ m
    → Assembled b' (g r) m
after g built set size = record {
  valid = set.valid;
  means = set.means ∙ ap g built.means;
  size = size;
}

longer :
    (b : RequestBuilder) (v : Bytes) {r : Request} {n : ℕ}
    → Assembled b r n
    → length (b.blob ++ v) ≡ n + length v
longer b v built = omega (arith, length-append b.blob v, built.size)

module _ {b : RequestBuilder} {r : Request} {n : ℕ} (v : Bytes) (h : n + length v < 2 ^ 32)
    (built : Assembled b r n) where
  room : length (b.blob ++ v) < 2 ^ 32
  room = omega (arith, h, longer b v built)

  pub method-Assembled : Assembled (set_method v b) (record r { method = v }) (n + length v)
  method-Assembled =
      after (λ s. record s { method = v }) built (set_method-Means v b built.valid room)
        (unfold set_method in longer b v built)

  pub path-Assembled : Assembled (set_path v b) (record r { path = v }) (n + length v)
  path-Assembled =
      after (λ s. record s { path = v }) built (set_path-Means v b built.valid room)
        (unfold set_path in longer b v built)

  pub target-Assembled : Assembled (set_target v b) (record r { target = v }) (n + length v)
  target-Assembled =
      after (λ s. record s { target = v }) built (set_target-Means v b built.valid room)
        (unfold set_target in longer b v built)

  pub query-Assembled : Assembled (set_query v b) (record r { query = v }) (n + length v)
  query-Assembled =
      after (λ s. record s { query = v }) built (set_query-Means v b built.valid room)
        (unfold set_query in longer b v built)

  pub version-Assembled : Assembled (set_version v b) (record r { version = v }) (n + length v)
  version-Assembled =
      after (λ s. record s { version = v }) built (set_version-Means v b built.valid room)
        (unfold set_version in longer b v built)

  pub remote_addr-Assembled :
      Assembled (set_remote_addr v b) (record r { remote_addr = v }) (n + length v)
  remote_addr-Assembled =
      after (λ s. record s { remote_addr = v }) built (set_remote_addr-Means v b built.valid room)
        (unfold set_remote_addr in longer b v built)

  pub server_name-Assembled :
      Assembled (set_server_name v b) (record r { server_name = v }) (n + length v)
  server_name-Assembled =
      after (λ s. record s { server_name = v }) built (set_server_name-Means v b built.valid room)
        (unfold set_server_name in longer b v built)

  pub preread_body-Assembled :
      Assembled (set_preread_body v b) (record r { body = v }) (n + length v)
  preread_body-Assembled =
      after (λ s. record s { body = v }) built (set_preread_body-Means v b built.valid room)
        (unfold set_preread_body in longer b v built)

pub server_port-Assembled :
    {b : RequestBuilder} {r : Request} {n : ℕ} (port : ℕ)
    → Assembled b r n
    → Assembled (set_server_port port b) (record r { server_port = port }) n
server_port-Assembled {b} port built =
    after (λ s. record s { server_port = port }) built (set_server_port-Means port b built.valid)
      (unfold set_server_port in built.size)

pub content_length-Assembled :
    {b : RequestBuilder} {r : Request} {n : ℕ} (len : ℕ)
    → Assembled b r n
    → Assembled (set_content_length len b) (record r { content_length = len }) n
content_length-Assembled {b} len built =
    after (λ s. record s { content_length = len }) built
      (set_content_length-Means len b built.valid) (unfold set_content_length in built.size)

abbrev pub field_of : Header → FieldView
field_of (name, value) = record { name = name; value = value }

abbrev pub fields_of : List Header → List FieldView
fields_of [] = []
fields_of (h ∷ headers) = field_of h ∷ fields_of headers

abbrev pub fields_size : List Header → ℕ
fields_size [] = 0
fields_size ((name, value) ∷ headers) = length name + length value + fields_size headers

add_field-Assembled :
    {b : RequestBuilder} {r : Request} {n : ℕ} (name value : Bytes)
    → n + (length name + length value) < 2 ^ 32
    → Assembled b r n
    → Assembled
        (add_field name value b)
        (record r { fields = r.fields ++ (field_of (name, value) ∷ []) })
        (n + (length name + length value))
add_field-Assembled {b} {r} {n} name value h built =
    let size : length ((b.blob ++ name) ++ value) ≡ n + (length name + length value) =
      omega (arith, length-append (b.blob ++ name) value, length-append b.blob name, built.size) in
    after (λ s. record s { fields = s.fields ++ (field_of (name, value) ∷ []) }) built
      (add_field-Means name value b built.valid (omega (arith, size, h))) (unfold add_field in size)

pub with_fields-Assembled :
    (headers : List Header) {b : RequestBuilder} {r : Request} {n : ℕ}
    → n + fields_size headers < 2 ^ 32
    → Assembled b r n
    → Assembled
        (with_fields headers b)
        (record r { fields = r.fields ++ fields_of headers })
        (n + fields_size headers)
unfolding with_fields
with_fields-Assembled [] {b} {r} {n} h built = record {
  valid = built.valid;
  means = built.means ∙ ap (λ fs. record r { fields = fs }) (sym (append-nil r.fields));
  size = omega (arith, built.size);
}
with_fields-Assembled ((name, value) ∷ headers) {b} {r} {n} h built =
    let rest =
      with_fields-Assembled headers (omega (arith, h))
        (add_field-Assembled name value (omega (arith, h)) built) in
    record {
      valid = rest.valid;
      means =
          rest.means
          ∙ ap (λ fs. record r { fields = fs })
              (append_assoc r.fields (field_of (name, value) ∷ []) (fields_of headers));
      size = omega (arith, rest.size);
    }

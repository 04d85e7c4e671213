-- ===== src/Ipc/Request/Meaning.antt =====
-- What a builder stands for: each span cuts its text out of the blob.
use buran.Prelude.{
  ℕ, ◌+◌, ◌^◌, ◌≤◌, ◌<◌, ◌%◌, ◌≡◌, refl, ap, ap₂, ◌∙◌, List, [], ◌∷◌, ◌++◌, arith, length, take,
  drop, Bytes, All, length-append, length-drop, take-append_le, drop-append_le, drop-append,
  take_all,
}
use buran.Ipc.Request.{Span, FieldSpan, FieldView, RequestBuilder, new, appended}

-- The request that both sides mean.
pub record Request : Type 0 where
  pub method : Bytes
  pub path : Bytes
  pub target : Bytes
  pub query : Bytes
  pub version : Bytes
  pub remote_addr : Bytes
  pub server_name : Bytes
  pub content_length : ℕ
  pub server_port : ℕ
  pub fields : List FieldView
  pub body : Bytes

abbrev pub slice : Bytes → Span → Bytes
slice blob s = take s.len (drop s.off blob)

abbrev pub slice_field : Bytes → FieldSpan → FieldView
slice_field blob f = record { name = slice blob f.name; value = slice blob f.value }

abbrev pub slice_fields : Bytes → List FieldSpan → List FieldView
slice_fields blob [] = []
slice_fields blob (f ∷ fs) = slice_field blob f ∷ slice_fields blob fs

abbrev pub meaning : RequestBuilder → Request
meaning b = record {
  method = slice b.blob b.method;
  path = slice b.blob b.path;
  target = slice b.blob b.target;
  query = slice b.blob b.query;
  version = slice b.blob b.version;
  remote_addr = slice b.blob b.remote_addr;
  server_name = slice b.blob b.server_name;
  content_length = b.content_length;
  server_port = b.server_port;
  fields = slice_fields b.blob b.fields;
  body = slice b.blob b.body;
}

abbrev pub Within : Bytes → Span → Type 0
Within blob s = s.off + s.len ≤ length blob

abbrev pub FieldWithin : Bytes → FieldSpan → Type 0
FieldWithin blob f = Within blob f.name × Within blob f.value

abbrev pub FieldsWithin : Bytes → List FieldSpan → Type 0
FieldsWithin blob = All (FieldWithin blob)

pub record IsValid (b : RequestBuilder) : Type 0 where
  pub method : Within b.blob b.method
  pub path : Within b.blob b.path
  pub target : Within b.blob b.target
  pub query : Within b.blob b.query
  pub version : Within b.blob b.version
  pub remote_addr : Within b.blob b.remote_addr
  pub server_name : Within b.blob b.server_name
  pub body : Within b.blob b.body
  pub fields : FieldsWithin b.blob b.fields

-- Appending to the blob changes no text that is already there.
pub slice-append : (blob v : Bytes) (s : Span) → Within blob s → slice (blob ++ v) s ≡ slice blob s
slice-append blob v s h =
    ap (take s.len) (drop-append_le s.off blob v (omega arith))
    ∙ take-append_le s.len (drop s.off blob) v (omega (arith, length-drop s.off blob))

pub slice-appended :
    (blob v : Bytes) → length (blob ++ v) < 2 ^ 32 → slice (blob ++ v) (appended blob v) ≡ v
unfolding appended
slice-appended blob v h =
    let lo : length blob % 2 ^ 32 ≡ length blob = omega (arith, length-append blob v) in
    let lv : length v % 2 ^ 32 ≡ length v = omega (arith, length-append blob v) in
    ap₂ (λ n o. take n (drop o (blob ++ v))) lv lo
    ∙ ap (take (length v)) (drop-append blob v)
    ∙ take_all v (length v) (omega arith)

pub slice_fields-append :
    (blob v : Bytes) (fs : List FieldSpan)
    → FieldsWithin blob fs
    → slice_fields (blob ++ v) fs ≡ slice_fields blob fs
slice_fields-append blob v [] h = refl
slice_fields-append blob v (f ∷ fs) (h, t) = λ j.
    record { name = slice-append blob v f.name h.0 j; value = slice-append blob v f.value h.1 j }
    ∷ slice_fields-append blob v fs t j

pub Within-append : (blob v : Bytes) (s : Span) → Within blob s → Within (blob ++ v) s
Within-append blob v s h = omega (arith, length-append blob v)

pub FieldsWithin-append :
    (blob v : Bytes) (fs : List FieldSpan) → FieldsWithin blob fs → FieldsWithin (blob ++ v) fs
FieldsWithin-append blob v [] h = tt
FieldsWithin-append blob v (f ∷ fs) (h, t) = (
  (Within-append blob v f.name h.0, Within-append blob v f.value h.1),
  FieldsWithin-append blob v fs t,
)

pub Within-appended :
    (blob v : Bytes) → length (blob ++ v) < 2 ^ 32 → Within (blob ++ v) (appended blob v)
unfolding appended
Within-appended blob v h = omega (arith, length-append blob v)

-- The blob grows and nothing else changes.
abbrev pub grow : Bytes → RequestBuilder → RequestBuilder
grow v b = record b { blob = b.blob ++ v }

pub grow-IsValid : (v : Bytes) (b : RequestBuilder) → IsValid b → IsValid (grow v b)
grow-IsValid v b w = record {
  method = Within-append b.blob v b.method w.method;
  path = Within-append b.blob v b.path w.path;
  target = Within-append b.blob v b.target w.target;
  query = Within-append b.blob v b.query w.query;
  version = Within-append b.blob v b.version w.version;
  remote_addr = Within-append b.blob v b.remote_addr w.remote_addr;
  server_name = Within-append b.blob v b.server_name w.server_name;
  body = Within-append b.blob v b.body w.body;
  fields = FieldsWithin-append b.blob v b.fields w.fields;
}

pub meaning-grow : (v : Bytes) (b : RequestBuilder) → IsValid b → meaning (grow v b) ≡ meaning b
meaning-grow v b w = λ j. record {
  method = slice-append b.blob v b.method w.method j;
  path = slice-append b.blob v b.path w.path j;
  target = slice-append b.blob v b.target w.target j;
  query = slice-append b.blob v b.query w.query j;
  version = slice-append b.blob v b.version w.version j;
  remote_addr = slice-append b.blob v b.remote_addr w.remote_addr j;
  server_name = slice-append b.blob v b.server_name w.server_name j;
  content_length = b.content_length;
  server_port = b.server_port;
  fields = slice_fields-append b.blob v b.fields w.fields j;
  body = slice-append b.blob v b.body w.body j;
}

pub new-IsValid : IsValid new
new-IsValid = omega arith

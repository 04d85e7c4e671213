-- ===== src/Ipc/Request.antt =====
-- crates/buran-ipc/src/request.rs: a request as an offset table and one blob. `RequestBuilder`
-- is the encoder (its methods return the new builder), `RequestView` the reader.
pub mod Meaning
pub mod Safety
pub mod Blob
pub mod Table
pub mod RoundTrip
use buran.Prelude.{
  ℕ, zero, suc, ◌+◌, ◌-◌, ◌*◌, ◌%◌, ◌^◌, Bool, ◌||◌, List, [], ◌∷◌, ◌++◌, ltb, leb, if◌then◌else◌,
  Bytes, length, take, drop, le_bytes,
}
use buran.Ipc.Error.{Result, ok, err, panic, truncated, out_of_bounds, ◌>>=◌, uint_at}

abbrev pub table_fixed : ℕ
table_fixed = 80

abbrev pub field_entry : ℕ
field_entry = 16

abbrev pub body_entry : ℕ
body_entry = 8

abbrev pub table_len : ℕ → ℕ
table_len fields_count = table_fixed + fields_count * field_entry + body_entry

abbrev pub read_u32 : Bytes → ℕ → Result ℕ
read_u32 buf pos = uint_at 4 buf pos

pub record FieldView : Type 0 where
  pub name : Bytes
  pub value : Bytes

pub record RequestView : Type 0 where
  pub payload : Bytes
  pub blob_off : ℕ
  pub fields_count : ℕ

unfoldable pub parse : Bytes → Result RequestView
parse payload =
    if ltb (length payload) table_fixed then err (truncated table_fixed (length payload)) else do
      blob_off ← read_u32 payload 0
      fields_count ← read_u32 payload 76
      if ltb (length payload) (table_len fields_count)
            || (ltb blob_off (table_len fields_count) || ltb (length payload) blob_off)
          then err (truncated (table_len fields_count) (length payload))
          else ok (record { payload = payload; blob_off = blob_off; fields_count = fields_count })

-- A slice `buf[start..end]` panics if its ends are out of order or beyond the buffer.
abbrev pub slice_range : Bytes → ℕ → ℕ → Result Bytes
slice_range buf start end =
    if ltb end start || ltb (length buf) end
    then panic
    else ok (take (end - start) (drop start buf))

-- `usize` has 64 bits: `checked_add` fails from 2 ^ 64 on.
unfoldable pub slice_at : RequestView → ℕ → Result Bytes
slice_at v table_pos = do
  off ← read_u32 v.payload table_pos
  len ← read_u32 v.payload (table_pos + 4)
  if leb (2 ^ 64) (v.blob_off + off + len)
      then err (out_of_bounds off len (length v.payload))
      else if ltb (length v.payload) (v.blob_off + off + len)
      then err (out_of_bounds off len (length v.payload))
      else slice_range v.payload (v.blob_off + off) (v.blob_off + off + len)

abbrev pub view_method : RequestView → Result Bytes
view_method v = slice_at v 4

abbrev pub view_path : RequestView → Result Bytes
view_path v = slice_at v 12

abbrev pub view_target : RequestView → Result Bytes
view_target v = slice_at v 20

abbrev pub view_query : RequestView → Result Bytes
view_query v = slice_at v 28

abbrev pub view_version : RequestView → Result Bytes
view_version v = slice_at v 36

abbrev pub view_remote_addr : RequestView → Result Bytes
view_remote_addr v = slice_at v 44

abbrev pub view_server_name : RequestView → Result Bytes
view_server_name v = slice_at v 52

abbrev pub view_content_length : RequestView → Result ℕ
view_content_length v = uint_at 8 v.payload 60

unfoldable pub view_server_port : RequestView → Result ℕ
view_server_port v = do port ← read_u32 v.payload 72; ok (port % 2 ^ 16)

unfoldable pub view_field : RequestView → ℕ → Result FieldView
view_field v i = do
  name ← slice_at v (table_fixed + i * field_entry)
  value ← slice_at v (table_fixed + i * field_entry + 8)
  ok (record { name = name; value = value })

-- The iterator over `i..i + n`.
unfoldable pub fields_from : RequestView → ℕ → ℕ → List (Result FieldView)
fields_from v zero i = []
fields_from v (suc n) i = view_field v i ∷ fields_from v n (suc i)

abbrev pub view_fields : RequestView → List (Result FieldView)
view_fields v = fields_from v v.fields_count 0

abbrev pub view_preread_body : RequestView → Result Bytes
view_preread_body v = slice_at v (table_fixed + v.fields_count * field_entry)

-- A pair `(u32, u32)` of an offset into the blob and a length.
pub record Span : Type 0 where
  pub off : ℕ
  pub len : ℕ

pub record FieldSpan : Type 0 where
  pub name : Span
  pub value : Span

pub record RequestBuilder : Type 0 where
  pub table : Bytes
  pub blob : Bytes
  pub fields : List FieldSpan
  pub method : Span
  pub path : Span
  pub target : Span
  pub query : Span
  pub version : Span
  pub remote_addr : Span
  pub server_name : Span
  pub content_length : ℕ
  pub server_port : ℕ
  pub body : Span

abbrev pub no_span : Span
no_span = record { off = 0; len = 0 }

abbrev pub new : RequestBuilder
new = record {
  table = [];
  blob = [];
  fields = [];
  method = no_span;
  path = no_span;
  target = no_span;
  query = no_span;
  version = no_span;
  remote_addr = no_span;
  server_name = no_span;
  content_length = 0;
  server_port = 0;
  body = no_span;
}

-- What `append` returns; the `as u32` casts wrap.
unfoldable pub appended : Bytes → Bytes → Span
appended blob v = record { off = length blob % 2 ^ 32; len = length v % 2 ^ 32 }

unfoldable pub set_method : Bytes → RequestBuilder → RequestBuilder
set_method v b = record b { method = appended b.blob v; blob = b.blob ++ v }

unfoldable pub set_path : Bytes → RequestBuilder → RequestBuilder
set_path v b = record b { path = appended b.blob v; blob = b.blob ++ v }

unfoldable pub set_target : Bytes → RequestBuilder → RequestBuilder
set_target v b = record b { target = appended b.blob v; blob = b.blob ++ v }

unfoldable pub set_query : Bytes → RequestBuilder → RequestBuilder
set_query v b = record b { query = appended b.blob v; blob = b.blob ++ v }

unfoldable pub set_version : Bytes → RequestBuilder → RequestBuilder
set_version v b = record b { version = appended b.blob v; blob = b.blob ++ v }

unfoldable pub set_remote_addr : Bytes → RequestBuilder → RequestBuilder
set_remote_addr v b = record b { remote_addr = appended b.blob v; blob = b.blob ++ v }

unfoldable pub set_server_name : Bytes → RequestBuilder → RequestBuilder
set_server_name v b = record b { server_name = appended b.blob v; blob = b.blob ++ v }

unfoldable pub set_content_length : ℕ → RequestBuilder → RequestBuilder
set_content_length v b = record b { content_length = v }

unfoldable pub set_server_port : ℕ → RequestBuilder → RequestBuilder
set_server_port v b = record b { server_port = v }

unfoldable pub add_field : Bytes → Bytes → RequestBuilder → RequestBuilder
add_field name value b = record b {
  fields =
      b.fields
      ++ (record { name = appended b.blob name; value = appended (b.blob ++ name) value } ∷ []);
  blob = (b.blob ++ name) ++ value;
}

unfoldable pub set_preread_body : Bytes → RequestBuilder → RequestBuilder
set_preread_body v b = record b { body = appended b.blob v; blob = b.blob ++ v }

-- `push_u32` of an offset and of a length, in front of what follows.
abbrev pub push_span : Span → Bytes → Bytes
push_span s rest = le_bytes 4 s.off ++ (le_bytes 4 s.len ++ rest)

unfoldable pub push_fields : List FieldSpan → Bytes → Bytes
push_fields [] rest = rest
push_fields (f ∷ fs) rest = push_span f.name (push_span f.value (push_fields fs rest))

abbrev pub push_head : RequestBuilder → Bytes → Bytes
push_head b rest =
    le_bytes 4 (table_len (length b.fields))
    ++ push_span b.method (
        push_span b.path (
          push_span b.target (
            push_span b.query (
              push_span b.version (
                push_span b.remote_addr (
                  push_span b.server_name (
                    le_bytes 8 b.content_length
                    ++ (le_bytes 4 0
                        ++ (le_bytes 4 b.server_port
                            ++ (le_bytes 4 (length b.fields) ++ rest))))))))))

-- The payload, and the builder with its table taken.
unfoldable pub finish : RequestBuilder → Bytes × RequestBuilder
finish b = (push_head b (push_fields b.fields (push_span b.body b.blob)), record b { table = [] })

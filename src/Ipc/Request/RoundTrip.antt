-- ===== src/Ipc/Request/RoundTrip.antt =====
-- The view over a finished payload shows exactly what the builder stands for.
use buran.Prelude.{
  ℕ, ◌-◌, suc, ◌+◌, ◌*◌, ◌^◌, ◌≤◌, ◌<◌, ◌≡◌, refl, sym, ap, ap₂, ◌∙◌, List, [], ◌∷◌, map, arith,
  length, take, drop, le_bytes, drop-drop,
}
use buran.Ipc.Error.{ok, uint_at}
use buran.Ipc.Request.{
  RequestView, Span, FieldSpan, RequestBuilder, table_len, push_span, push_fields, finish, parse,
  slice_at, view_method, view_path, view_target, view_query, view_version, view_remote_addr,
  view_server_name, view_content_length, view_server_port, view_field, fields_from, view_fields,
  view_preread_body,
}
use buran.Ipc.Request.Meaning.{
  Request, slice, slice_field, slice_fields, meaning, Within, FieldsWithin, IsValid,
}
use buran.Ipc.Request.Table.{
  uint_at-le_bytes, drop-push_fields, length-finish, drop-finish_fields, drop-finish_body,
  drop-finish_blob,
}

-- The widths of the wire format hold the builder's numbers.
pub record IsSmall (b : RequestBuilder) : Type 0 where
  pub total : table_len (length b.fields) + length b.blob < 2 ^ 32
  pub content_length : b.content_length < 2 ^ 64
  pub server_port : b.server_port < 2 ^ 16

abbrev pub view_of : RequestBuilder → RequestView
view_of b = record {
  payload = (finish b).0;
  blob_off = table_len (length b.fields);
  fields_count = length b.fields;
}

-- A view that shows the request `r` through every accessor.
pub record Shows (v : RequestView) (r : Request) : Type 0 where
  pub method : view_method v ≡ ok r.method
  pub path : view_path v ≡ ok r.path
  pub target : view_target v ≡ ok r.target
  pub query : view_query v ≡ ok r.query
  pub version : view_version v ≡ ok r.version
  pub remote_addr : view_remote_addr v ≡ ok r.remote_addr
  pub server_name : view_server_name v ≡ ok r.server_name
  pub content_length : view_content_length v ≡ ok r.content_length
  pub server_port : view_server_port v ≡ ok r.server_port
  pub fields : view_fields v ≡ map ok r.fields
  pub body : view_preread_body v ≡ ok r.body

module _ (b : RequestBuilder) (w : IsValid b) (small : IsSmall b) where
  reads :
      (k pos n : ℕ)
      → pos + k ≤ table_len (length b.fields)
      → take k (drop pos (finish b).0) ≡ le_bytes k n
      → n < 256 ^ k
      → uint_at k (finish b).0 pos ≡ ok n
  reads k pos n h e lt = uint_at-le_bytes k (finish b).0 pos n (omega (arith, length-finish b)) e lt

  parse-finish : parse (finish b).0 ≡ ok (view_of b)
  unfolding parse
  parse-finish = ground (
    arith,
    length-finish b,
    small.total,
    reads 4 0 (table_len (length b.fields)) (omega arith) (unfold finish in refl)
        (omega (arith, small.total)),
    reads 4 76 (length b.fields) (omega arith) (unfold finish in refl) (omega (arith, small.total)),
  )

  slice_at-span :
      (s : Span) (pos : ℕ)
      → Within b.blob s
      → pos + 8 ≤ table_len (length b.fields)
      → take 4 (drop pos (finish b).0) ≡ le_bytes 4 s.off
      → take 4 (drop (pos + 4) (finish b).0) ≡ le_bytes 4 s.len
      → slice_at (view_of b) pos ≡ ok (slice b.blob s)
  slice_at-span s pos h t eo el =
      let start = table_len (length b.fields) + s.off in
      let cut : start + s.len - start ≡ s.len = omega arith in
      let o = reads 4 pos s.off (omega arith) eo (omega (arith, small.total)) in
      let l = reads 4 (pos + 4) s.len (omega arith) el (omega (arith, small.total)) in
      unfold slice_at in
      rw (o, l)
        (ground (arith, small.total, length-finish b)
          ∙ ap (λ n. ok (take n (drop start (finish b).0))) cut
          ∙ ap (λ x. ok (take s.len x))
              (sym (drop-drop (table_len (length b.fields)) s.off (finish b).0)
                ∙ ap (drop s.off) (drop-finish_blob b)))

  -- Where the entry of field `i` stands.
  drop-entry :
      (i : ℕ) (f : FieldSpan) (after : List FieldSpan)
      → drop i b.fields ≡ f ∷ after
      → drop (80 + i * 16) (finish b).0 ≡ push_fields (f ∷ after) (push_span b.body b.blob)
  drop-entry i f after e =
      sym (drop-drop 80 (i * 16) (finish b).0)
      ∙ ap (drop (i * 16)) (drop-finish_fields b)
      ∙ drop-push_fields b.fields i (push_span b.body b.blob) e

  view_field-slice :
      (i : ℕ) (f : FieldSpan) (after : List FieldSpan)
      → drop i b.fields ≡ f ∷ after
      → i < length b.fields
      → Within b.blob f.name
      → Within b.blob f.value
      → view_field (view_of b) i ≡ ok (slice_field b.blob f)
  unfolding push_fields
  view_field-slice i f after e lt hn hv =
      let here = drop-entry i f after e in
      let at = λ (k : ℕ). sym (drop-drop (80 + i * 16) k (finish b).0) ∙ ap (drop k) here in
      let name =
        slice_at-span f.name (80 + i * 16) hn (omega arith) (ap (take 4) here)
          (ap (take 4) (at 4)) in
      let value =
        slice_at-span f.value (80 + i * 16 + 8) hv (omega arith) (ap (take 4) (at 8))
          (ap (take 4) (sym (drop-drop (80 + i * 16 + 8) 4 (finish b).0) ∙ ap (drop 4) (at 8))) in
      unfold view_field in rw (name, value)

  fields_from-slice :
      (fs : List FieldSpan) (i : ℕ)
      → drop i b.fields ≡ fs
      → i + length fs ≡ length b.fields
      → FieldsWithin b.blob fs
      → fields_from (view_of b) (length fs) i ≡ map ok (slice_fields b.blob fs)
  unfolding fields_from
  fields_from-slice [] i e n h = refl
  fields_from-slice (f ∷ fs) i e n ((hn, hv), t) =
      ap₂ ◌∷◌ (view_field-slice i f fs e (omega arith) hn hv)
        (fields_from-slice fs (suc i) (next e) (omega arith) t)
    where
      next : drop i b.fields ≡ f ∷ fs → drop (suc i) b.fields ≡ fs
      next e =
          ap (λ k. drop k b.fields) (let s : suc i ≡ i + 1 = omega arith in s)
          ∙ sym (drop-drop i 1 b.fields)
          ∙ ap (drop 1) e

  -- A payload that `finish` writes is accepted by `parse`, and its accessors return the builder's
  -- texts, numbers and fields, in their order.
  pub parse-finish-Shows : (parse (finish b).0 ≡ ok (view_of b)) × Shows (view_of b) (meaning b)
  parse-finish-Shows = (
    parse-finish,
    record {
      method =
          slice_at-span b.method 4 w.method (omega arith) (unfold finish in refl)
            (unfold finish in refl);
      path =
          slice_at-span b.path 12 w.path (omega arith) (unfold finish in refl)
            (unfold finish in refl);
      target =
          slice_at-span b.target 20 w.target (omega arith) (unfold finish in refl)
            (unfold finish in refl);
      query =
          slice_at-span b.query 28 w.query (omega arith) (unfold finish in refl)
            (unfold finish in refl);
      version =
          slice_at-span b.version 36 w.version (omega arith) (unfold finish in refl)
            (unfold finish in refl);
      remote_addr =
          slice_at-span b.remote_addr 44 w.remote_addr (omega arith) (unfold finish in refl)
            (unfold finish in refl);
      server_name =
          slice_at-span b.server_name 52 w.server_name (omega arith) (unfold finish in refl)
            (unfold finish in refl);
      content_length =
          reads 8 60 b.content_length (omega arith) (unfold finish in refl) small.content_length;
      server_port = port;
      fields = fields_from-slice b.fields 0 refl (omega arith) w.fields;
      body =
          slice_at-span b.body (80 + length b.fields * 16) w.body (omega arith)
            (ap (take 4) (drop-finish_body b))
            (ap (take 4) (
              sym (drop-drop (80 + length b.fields * 16) 4 (finish b).0)
              ∙ ap (drop 4) (drop-finish_body b)));
    },
  )
    where
      port : view_server_port (view_of b) ≡ ok b.server_port
      port =
          unfold view_server_port in
          rw
            (reads 4 72 b.server_port (omega arith) (unfold finish in refl)
              (omega (arith, small.server_port)))
            (ap ok (omega (arith, small.server_port)))

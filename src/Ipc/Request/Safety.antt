-- ===== src/Ipc/Request/Safety.antt =====
-- A parsed request cannot make an accessor index out of range, whatever the payload holds.
use buran.Prelude.{ℕ, ◌+◌, ◌*◌, ◌≤◌, ◌<◌, ◌≡◌, ◌≢◌, arith, length, Bytes}
use buran.Ipc.Error.{ok, panic, uint_at-ok}
use buran.Ipc.Request.{
  RequestView, table_len, table_fixed, field_entry, parse, slice_at, view_method, view_path,
  view_target, view_query, view_version, view_remote_addr, view_server_name, view_content_length,
  view_server_port, view_field, view_preread_body,
}

-- The table of a parsed view lies inside its payload, and the blob starts behind it.
pub record IsParsed (v : RequestView) : Type 0 where
  pub table : table_len v.fields_count ≤ length v.payload
  pub blob_ge : table_len v.fields_count ≤ v.blob_off
  pub blob_le : v.blob_off ≤ length v.payload

pub parse-IsParsed : (p : Bytes) {v : RequestView} → parse p ≡ ok v → IsParsed v
unfolding parse
parse-IsParsed p {v} h = ground (arith)

pub parse-ne-panic : (p : Bytes) → parse p ≢ panic
unfolding parse
parse-ne-panic p h = ground (arith, uint_at-ok 4 p 0, uint_at-ok 4 p 76)

slice_at-ne-panic :
    (v : RequestView) (pos : ℕ) → pos + 8 ≤ length v.payload → slice_at v pos ≢ panic
unfolding slice_at
slice_at-ne-panic v pos l h =
    ground (arith, uint_at-ok 4 v.payload pos, uint_at-ok 4 v.payload (pos + 4))

view_server_port-ne-panic : (v : RequestView) → IsParsed v → view_server_port v ≢ panic
unfolding view_server_port
view_server_port-ne-panic v w h = ground (arith, uint_at-ok 4 v.payload 72)

view_field-ne-panic :
    (v : RequestView) (i : ℕ) → IsParsed v → i < v.fields_count → view_field v i ≢ panic
unfolding view_field
view_field-ne-panic v i w l h = ground (
  arith,
  slice_at-ne-panic v (table_fixed + i * field_entry) (omega arith),
  slice_at-ne-panic v (table_fixed + i * field_entry + 8) (omega arith),
)

-- No accessor panics on the view: not the seven text fields, the numbers and the body, nor any
-- field below the count.
abbrev pub SafeView : RequestView → Type 0
SafeView v =
    (view_method v ≢ panic)
    × (view_path v ≢ panic)
    × (view_target v ≢ panic)
    × (view_query v ≢ panic)
    × (view_version v ≢ panic)
    × (view_remote_addr v ≢ panic)
    × (view_server_name v ≢ panic)
    × (view_content_length v ≢ panic)
    × (view_server_port v ≢ panic)
    × (view_preread_body v ≢ panic)
    × ((i : ℕ) → i < v.fields_count → view_field v i ≢ panic)

-- Once a payload has been accepted by `parse`, no accessor of the view panics, whatever the
-- payload holds.
pub accessors_never_panic : (p : Bytes) (v : RequestView) → parse p ≡ ok v → SafeView v
accessors_never_panic p v h =
    let w = parse-IsParsed p h in
    let at : (pos : ℕ) → pos + 8 ≤ table_len v.fields_count → slice_at v pos ≢ panic =
      λ pos l. slice_at-ne-panic v pos (omega arith) in
    (
      at 4 (omega arith),
      at 12 (omega arith),
      at 20 (omega arith),
      at 28 (omega arith),
      at 36 (omega arith),
      at 44 (omega arith),
      at 52 (omega arith),
      (λ e. cc (uint_at-ok 8 v.payload 60 (omega arith))),
      (λ e. view_server_port-ne-panic v w e),
      at (table_fixed + v.fields_count * field_entry) (omega arith),
      λ i l e. view_field-ne-panic v i w l e,
    )

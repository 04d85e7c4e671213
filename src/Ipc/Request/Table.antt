-- ===== src/Ipc/Request/Table.antt =====
-- Reading the table that `finish` writes: each number is found at its position.
use buran.Prelude.{
  ℕ, zero, suc, ◌+◌, ◌*◌, ◌^◌, ◌≤◌, ◌<◌, ◌≡◌, refl, sym, ap, ◌∙◌, List, [], ◌∷◌, arith, length,
  take, drop, Bytes, le_bytes, from_le, from_le-le_bytes, drop-drop, drop-append_ge,
}
use buran.Ipc.Error.{ok, uint_at, uint_at-ok}
use buran.Ipc.Request.{FieldSpan, RequestBuilder, table_len, push_span, push_fields, finish}

pub uint_at-le_bytes :
    (k : ℕ) (p : Bytes) (pos n : ℕ)
    → pos + k ≤ length p
    → take k (drop pos p) ≡ le_bytes k n
    → n < 256 ^ k
    → uint_at k p pos ≡ ok n
uint_at-le_bytes k p pos n h e lt =
    uint_at-ok k p pos h ∙ ap ok (ap from_le e ∙ from_le-le_bytes k n lt)

pub length-push_fields :
    (fs : List FieldSpan) (rest : Bytes)
    → length (push_fields fs rest) ≡ length fs * 16 + length rest
unfolding push_fields
length-push_fields [] rest = omega arith
length-push_fields (f ∷ fs) rest = omega (arith, length-push_fields fs rest)

pub drop-push_fields :
    (fs : List FieldSpan) (i : ℕ) (rest : Bytes) {f : FieldSpan} {after : List FieldSpan}
    → drop i fs ≡ f ∷ after
    → drop (i * 16) (push_fields fs rest) ≡ push_fields (f ∷ after) rest
unfolding push_fields
drop-push_fields [] zero rest e = cc
drop-push_fields [] (suc i) rest e = cc
drop-push_fields (g ∷ fs) zero rest e = ap (λ l. push_fields l rest) e
drop-push_fields (g ∷ fs) (suc i) rest e =
    ap (λ k. drop k (push_fields (g ∷ fs) rest))
      (let s : suc i * 16 ≡ 16 + i * 16 = omega arith in s)
    ∙ drop-append_ge (push_span g.name (push_span g.value [])) (push_fields fs rest) (i * 16)
    ∙ drop-push_fields fs i rest e

pub drop-push_fields_all :
    (fs : List FieldSpan) (rest : Bytes) → drop (length fs * 16) (push_fields fs rest) ≡ rest
unfolding push_fields
drop-push_fields_all [] rest = refl
drop-push_fields_all (g ∷ fs) rest =
    ap (λ k. drop k (push_fields (g ∷ fs) rest))
      (let s : suc (length fs) * 16 ≡ 16 + length fs * 16 = omega arith in s)
    ∙ drop-append_ge (push_span g.name (push_span g.value [])) (push_fields fs rest)
        (length fs * 16)
    ∙ drop-push_fields_all fs rest

pub length-finish :
    (b : RequestBuilder) → length (finish b).0 ≡ table_len (length b.fields) + length b.blob
unfolding finish
length-finish b = omega (arith, length-push_fields b.fields (push_span b.body b.blob))

-- Behind the fixed part stand the fields, then the body's span, then the blob.
pub drop-finish_fields :
    (b : RequestBuilder) → drop 80 (finish b).0 ≡ push_fields b.fields (push_span b.body b.blob)
unfolding finish
drop-finish_fields b = refl

pub drop-finish_body :
    (b : RequestBuilder) → drop (80 + length b.fields * 16) (finish b).0 ≡ push_span b.body b.blob
drop-finish_body b =
    sym (drop-drop 80 (length b.fields * 16) (finish b).0)
    ∙ ap (drop (length b.fields * 16)) (drop-finish_fields b)
    ∙ drop-push_fields_all b.fields (push_span b.body b.blob)

pub drop-finish_blob :
    (b : RequestBuilder) → drop (table_len (length b.fields)) (finish b).0 ≡ b.blob
drop-finish_blob b =
    sym (drop-drop (80 + length b.fields * 16) 8 (finish b).0) ∙ ap (drop 8) (drop-finish_body b)

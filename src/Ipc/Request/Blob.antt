-- ===== src/Ipc/Request/Blob.antt =====
-- What a builder stands for: each span cuts its text out of the blob, and a setter changes the
-- text that it names and no other.
use buran.Prelude.{
  ℕ, ◌^◌, ◌<◌, ◌≡◌, refl, ap, ◌∙◌, List, [], ◌∷◌, ◌++◌, arith, length, Bytes, All-append,
  length-append,
}
use buran.Ipc.Request.{
  FieldSpan, RequestBuilder, appended, set_method, set_path, set_target, set_query, set_version,
  set_remote_addr, set_server_name, set_content_length, set_server_port, add_field,
  set_preread_body,
}
use buran.Ipc.Request.Meaning.{
  Request, slice_fields, meaning, IsValid, slice-appended, Within-appended, grow, grow-IsValid,
  meaning-grow, slice_fields-append, slice_field, FieldWithin, slice-append, Within-append,
}

-- A setter does what it says to the meaning, and keeps the builder valid.
pub record Means (b : RequestBuilder) (r : Request) : Type 0 where
  pub valid : IsValid b
  pub means : meaning b ≡ r

module _ (v : Bytes) (b : RequestBuilder) (w : IsValid b) (h : length (b.blob ++ v) < 2 ^ 32) where
  pub set_method-Means : Means (set_method v b) (record (meaning b) { method = v })
  unfolding set_method
  set_method-Means = record {
    valid = assumption (grow-IsValid v b w, Within-appended b.blob v h);
    means = λ j. record (meaning-grow v b w j) { method = slice-appended b.blob v h j };
  }

  pub set_path-Means : Means (set_path v b) (record (meaning b) { path = v })
  unfolding set_path
  set_path-Means = record {
    valid = assumption (grow-IsValid v b w, Within-appended b.blob v h);
    means = λ j. record (meaning-grow v b w j) { path = slice-appended b.blob v h j };
  }

  pub set_target-Means : Means (set_target v b) (record (meaning b) { target = v })
  unfolding set_target
  set_target-Means = record {
    valid = assumption (grow-IsValid v b w, Within-appended b.blob v h);
    means = λ j. record (meaning-grow v b w j) { target = slice-appended b.blob v h j };
  }

  pub set_query-Means : Means (set_query v b) (record (meaning b) { query = v })
  unfolding set_query
  set_query-Means = record {
    valid = assumption (grow-IsValid v b w, Within-appended b.blob v h);
    means = λ j. record (meaning-grow v b w j) { query = slice-appended b.blob v h j };
  }

  pub set_version-Means : Means (set_version v b) (record (meaning b) { version = v })
  unfolding set_version
  set_version-Means = record {
    valid = assumption (grow-IsValid v b w, Within-appended b.blob v h);
    means = λ j. record (meaning-grow v b w j) { version = slice-appended b.blob v h j };
  }

  pub set_remote_addr-Means : Means (set_remote_addr v b) (record (meaning b) { remote_addr = v })
  unfolding set_remote_addr
  set_remote_addr-Means = record {
    valid = assumption (grow-IsValid v b w, Within-appended b.blob v h);
    means = λ j. record (meaning-grow v b w j) { remote_addr = slice-appended b.blob v h j };
  }

  pub set_server_name-Means : Means (set_server_name v b) (record (meaning b) { server_name = v })
  unfolding set_server_name
  set_server_name-Means = record {
    valid = assumption (grow-IsValid v b w, Within-appended b.blob v h);
    means = λ j. record (meaning-grow v b w j) { server_name = slice-appended b.blob v h j };
  }

  pub set_preread_body-Means : Means (set_preread_body v b) (record (meaning b) { body = v })
  unfolding set_preread_body
  set_preread_body-Means = record {
    valid = assumption (grow-IsValid v b w, Within-appended b.blob v h);
    means = λ j. record (meaning-grow v b w j) { body = slice-appended b.blob v h j };
  }

slice_fields-concat :
    (blob : Bytes) (fs : List FieldSpan) (f : FieldSpan)
    → slice_fields blob (fs ++ f ∷ []) ≡ slice_fields blob fs ++ slice_field blob f ∷ []
slice_fields-concat blob [] f = refl
slice_fields-concat blob (g ∷ fs) f = ap (◌∷◌ (slice_field blob g)) (slice_fields-concat blob fs f)

-- Adding a field to a valid builder, whose blob stays below 2 ^ 32 bytes, appends the field to
-- what the builder means, changes nothing else, and keeps the builder valid.
pub add_field-Means :
    (name value : Bytes) (b : RequestBuilder)
    → IsValid b
    → length ((b.blob ++ name) ++ value) < 2 ^ 32
    → Means (add_field name value b) (record (meaning b) {
      fields = slice_fields b.blob b.fields ++ (record { name = name; value = value }) ∷ [];
    })
unfolding add_field
add_field-Means name value b w h =
    let small : length (b.blob ++ name) < 2 ^ 32 =
      omega (arith, length-append (b.blob ++ name) value) in
    let n = Within-appended b.blob name small in
    let v = Within-appended (b.blob ++ name) value h in
    let named = grow-IsValid name b w in
    let f : FieldSpan = record {
      name = appended b.blob name;
      value = appended (b.blob ++ name) value;
    } in
    let both = grow-IsValid value (grow name b) named in
    record {
      valid = assumption (
        both,
        All-append (FieldWithin ((b.blob ++ name) ++ value)) b.fields (f ∷ []) both.fields
            ((Within-append (b.blob ++ name) value (appended b.blob name) n, v), tt),
      );
      means =
          (λ j. record (meaning-grow value (grow name b) named j) {
            fields = slice_fields-concat ((b.blob ++ name) ++ value) b.fields f j;
          })
          ∙ (λ j. record (meaning-grow name b w j) {
            fields =
                slice_fields-append (b.blob ++ name) value b.fields named.fields j
                ++ (record {
                  name = slice-append (b.blob ++ name) value (appended b.blob name) n j;
                  value = slice-appended (b.blob ++ name) value h j;
                })
                  ∷ [];
          })
          ∙ (λ j. record (meaning b) {
            fields =
                slice_fields-append b.blob name b.fields w.fields j
                ++ (record { name = slice-appended b.blob name small j; value = value }) ∷ [];
          });
    }

pub set_content_length-Means :
    (n : ℕ) (b : RequestBuilder)
    → IsValid b
    → Means (set_content_length n b) (record (meaning b) { content_length = n })
unfolding set_content_length
set_content_length-Means n b w = record { valid = assumption w; means = refl }

pub set_server_port-Means :
    (n : ℕ) (b : RequestBuilder)
    → IsValid b
    → Means (set_server_port n b) (record (meaning b) { server_port = n })
unfolding set_server_port
set_server_port-Means n b w = record { valid = assumption w; means = refl }

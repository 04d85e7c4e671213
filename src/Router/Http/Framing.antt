-- ===== src/Router/Http/Framing.antt =====
-- crates/buran-router/src/http1.rs, parse_request: what the headers of a request say of its body.
use buran.Prelude.{
  ℕ, suc, ◌+◌, ◌≡◌, refl, sym, ap, ◌∙◌, Bool, true, false, not, ◌&&◌, Option, none, some, List, [],
  ◌∷◌, ◌++◌, ◌==◌, if◌then◌else◌, Bytes, bytes_eq, bytes_eq_iff, codes, all, arith, ==_refl,
  Bool-cases, inl, inr, ◌⊎◌,
}
use buran.Router.Http.Request.{
  Header, Scan, named, eq_ignore_ascii_case, parse_length, set_length, on_name, scan, host_missing,
  is_minor_one, push_header,
}
use buran.Router.Matching.{to_ascii_lowercase}

abbrev pub is_none {ℓ} : {A : Type ℓ} → Option A → Bool
is_none none = true
is_none (some _) = false

abbrev pub is_value : ℕ → Option ℕ → Bool
is_value len (some n) = n == len
is_value len none = false

-- The header frames a body of `len` bytes, or says nothing of a body.
unfoldable pub frames : ℕ → Header → Bool
frames len (name, value) =
    if named "content-length" name
    then is_value len (parse_length value)
    else not (named "transfer-encoding" name)

unfoldable pub count_hosts : List Header → ℕ
count_hosts [] = 0
count_hosts ((name, value) ∷ hs) = (if named "host" name then 1 else 0) + count_hosts hs

-- What the router lets through, read off the headers alone.
abbrev pub is_acceptable : Option ℕ → ℕ → List Header → Bool
is_acceptable version len headers =
    all (frames len) headers && not (host_missing (is_minor_one version) (count_hosts headers))

all-last :
    {A : Type 0} (p : A → Bool) (xs : List A) (x : A) → all p (xs ++ (x ∷ [])) ≡ (all p xs && p x)
all-last p [] x = ground arith
all-last p (y ∷ xs) x = ground (arith, all-last p xs x)

count_hosts-append :
    (xs ys : List Header) → count_hosts (xs ++ ys) ≡ count_hosts xs + count_hosts ys
unfolding count_hosts
count_hosts-append [] ys = omega arith
count_hosts-append (x ∷ xs) ys = ground (arith, count_hosts-append xs ys)

-- The loop has no objection yet exactly if the headers so far all frame the same body.
pub record Agrees (s : Scan) : Type 0 where
  pub verdict : is_none s.parsed.bad ≡ all (frames s.parsed.content_length) s.parsed.headers
  pub unseen :
      s.cl_seen ≡ false
      → (len : ℕ)
      → all (frames len) s.parsed.headers ≡ all (frames s.parsed.content_length) s.parsed.headers
  pub hosts : s.host_count ≡ count_hosts s.parsed.headers

push-Agrees :
    (h : Header) (s : Scan)
    → is_none s.parsed.bad
      ≡ (all (frames s.parsed.content_length) s.parsed.headers && frames s.parsed.content_length h)
    → (s.cl_seen ≡ false
        → (len : ℕ)
        → (all (frames len) s.parsed.headers && frames len h) ≡ (
            all (frames s.parsed.content_length) s.parsed.headers
            && frames s.parsed.content_length h))
    → s.host_count ≡ count_hosts s.parsed.headers + count_hosts (h ∷ [])
    → Agrees (push_header h s)
push-Agrees h s v u c = record {
  verdict = v ∙ sym (all-last (frames s.parsed.content_length) s.parsed.headers h);
  unseen = λ e len.
      all-last (frames len) s.parsed.headers h
      ∙ u e len
      ∙ sym (all-last (frames s.parsed.content_length) s.parsed.headers h);
  hosts = c ∙ sym (count_hosts-append s.parsed.headers (h ∷ []));
}

exclusive :
    (a b name : Bytes) → bytes_eq a b ≡ false → bytes_eq name a ≡ true → bytes_eq name b ≡ false
exclusive a b name ne e = ap (λ n. bytes_eq n b) ((bytes_eq_iff name a).0 e) ∙ ne

pub right_true : (a b : Bool) → b ≡ true → (a && b) ≡ a
right_true a b e = ground (arith, e)

pub right_false : (a b : Bool) → b ≡ false → (a && b) ≡ false
right_false a b e = ground (arith, e)

pub left_false : (a b : Bool) → a ≡ false → (a && b) ≡ a
left_false a b e = ground (arith, e)

-- A header that says nothing of a body.
silent-Agrees :
    (h : Header) (s : Scan) (k : ℕ) (alive : Bool)
    → ((len : ℕ) → frames len h ≡ true)
    → k ≡ s.host_count + count_hosts (h ∷ [])
    → Agrees s
    → Agrees (
        push_header h
          (record s { host_count = k; parsed = record s.parsed { keep_alive = alive } }))
silent-Agrees h s k alive f c a =
    push-Agrees h _ (a.verdict ∙ sym (right_true _ _ (f _)))
      (λ e len. right_true _ _ (f len) ∙ a.unseen e len ∙ sym (right_true _ _ (f _)))
      (omega (arith, c, a.hosts))

-- A header after which the request is refused.
refused-Agrees :
    (h : Header) (s : Scan) (status : ℕ) (seen : Bool)
    → frames s.parsed.content_length h ≡ false
    → (seen ≡ false → (len : ℕ) → frames len h ≡ false)
    → count_hosts (h ∷ []) ≡ 0
    → Agrees s
    → Agrees (
        push_header h (record s { cl_seen = seen; parsed = record s.parsed { bad = some status } }))
refused-Agrees h s status seen f g c a =
    push-Agrees h _ (sym (right_false _ _ f))
      (λ e len. right_false _ _ (g e len) ∙ sym (right_false _ _ f)) (omega (arith, c, a.hosts))

-- A length that is the first one or the same again.
length-Agrees :
    (h : Header) (s : Scan) (len : ℕ)
    → (s.cl_seen ≡ true → len ≡ s.parsed.content_length)
    → frames len h ≡ true
    → count_hosts (h ∷ []) ≡ 0
    → Agrees s
    → Agrees (
        push_header h
          (record s { cl_seen = true; parsed = record s.parsed { content_length = len } }))
length-Agrees h s len same f c a =
    push-Agrees h _ (a.verdict ∙ kept (Bool-cases s.cl_seen) ∙ sym (right_true _ _ f)) (λ e k. cc e)
      (omega (arith, c, a.hosts))
  where
    kept :
        (s.cl_seen ≡ true) ⊎ (s.cl_seen ≡ false)
        → all (frames s.parsed.content_length) s.parsed.headers ≡ all (frames len) s.parsed.headers
    kept (inl e) = ap (λ k. all (frames k) s.parsed.headers) (sym (same e))
    kept (inr e) = sym (a.unseen e len)

conflict : (seen : Bool) (len k : ℕ) → (seen && not (len == k)) ≡ true → (len == k) ≡ false
conflict seen len k e = ground (arith, e)

agreement : (seen : Bool) (len k : ℕ) → (seen && not (len == k)) ≡ false → seen ≡ true → len ≡ k
agreement seen len k e t = ground (arith, e, t)

host-length : (name : Bytes) → named "host" name ≡ true → named "content-length" name ≡ false
host-length name = exclusive (codes "host") (codes "content-length") name (unfold bytes_eq in refl)

host-coding : (name : Bytes) → named "host" name ≡ true → named "transfer-encoding" name ≡ false
host-coding name =
    exclusive (codes "host") (codes "transfer-encoding") name (unfold bytes_eq in refl)

content_length-Agrees :
    (name value : Bytes) (s : Scan)
    → named "host" name ≡ false
    → named "content-length" name ≡ true
    → Agrees s
    → Agrees (push_header (name, value) (on_name name value s))
unfolding frames count_hosts on_name
content_length-Agrees name value s n e a = rw (n, e) (go (parse_length value) refl)
  where
    go :
        (o : Option ℕ)
        → parse_length value ≡ o
        → Agrees (
            push_header
              (name, value)
              (record s { parsed = set_length o s.cl_seen s.parsed; cl_seen = true }))
    go none q =
        refused-Agrees (name, value) s 400 true (rw (e, q) refl) (λ f len. cc f) (rw n refl) a
    go (some len) q = elim (Bool-cases (s.cl_seen && not (len == s.parsed.content_length))) [
      | inl differs ↦ rw differs (
          refused-Agrees (name, value) s 400 true
            (rw (e, q) (conflict s.cl_seen len s.parsed.content_length differs)) (λ f k. cc f)
            (rw n refl) a)
      | inr same ↦ rw same (
          length-Agrees (name, value) s len (agreement s.cl_seen len s.parsed.content_length same)
            (rw (e, q) (==_refl len)) (rw n refl) a)
    ]

-- A name that is none of the four says nothing either.
step-Agrees :
    (name value : Bytes) (s : Scan)
    → Agrees s
    → Agrees (push_header (name, value) (on_name name value s))
unfolding frames count_hosts on_name
step-Agrees name value s a = elim (Bool-cases (named "host" name)) [
  | inl h ↦
      let c = host-length name h in
      let t = host-coding name h in
      rw h (
        silent-Agrees (name, value) s (suc s.host_count) s.parsed.keep_alive (λ len. rw (c, t) refl)
          (rw h (omega arith)) a)
  | inr h ↦ elim (Bool-cases (named "content-length" name)) [
    | inl c ↦ content_length-Agrees name value s h c a
    | inr c ↦ elim (Bool-cases (named "transfer-encoding" name)) [
      | inl t ↦
          rw (h, c, t)
            (refused-Agrees (name, value) s 411 s.cl_seen (rw (c, t) refl) (λ e len. rw (c, t) refl)
              (rw h refl) a)
      | inr t ↦
          elim (Bool-cases
            (named "connection" name && eq_ignore_ascii_case value (codes "close"))) [
              | inl k ↦
                  rw (h, c, t, k)
                    (silent-Agrees (name, value) s s.host_count false (λ len. rw (c, t) refl)
                      (rw h (omega arith)) a)
              | inr k ↦
                  rw (h, c, t, k)
                    (silent-Agrees (name, value) s s.host_count s.parsed.keep_alive
                      (λ len. rw (c, t) refl) (rw h (omega arith)) a)
            ]
    ]
  ]
]

pub scan-Agrees : (hs : List Header) (s : Scan) → Agrees s → Agrees (scan hs s)
unfolding scan
scan-Agrees [] s a = a
scan-Agrees ((name, value) ∷ hs) s a =
    scan-Agrees hs _ (step-Agrees (to_ascii_lowercase name) value s a)

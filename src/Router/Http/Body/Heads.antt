-- ===== src/Router/Http/Body/Heads.antt =====
-- crates/buran-router/src/http1.rs, serve_connection: where a head ends, and how much is buffered.
use buran.Prelude.{
  ℕ, suc, ◌+◌, ◌*◌, ◌<◌, ◌≤◌, ◌≡◌, refl, sym, ap, ◌∙◌, true, false, ◌&&◌, Option, none, some, List,
  [], ◌∷◌, ◌++◌, ltb, ◌==◌, Bytes, length, is_empty, arith, Bool-cases, Option-cases, inl, inr,
  length-append, append_assoc, append-nil, subst, All,
}
use buran.Router.Matching.{starts_with}
use buran.Router.Http.Request.{
  find_bytes, find_headers_end, blank_line, max_header_bytes, past_blank, one_later,
}
use buran.Router.Http.Body.{
  Wake, HeadResult, read_head, awaiting, data_read, spent, read_error, shutdown, head, too_large,
  closed, failed, awaits,
}

starts_with-length : (n v : Bytes) → starts_with n v ≡ true → length n ≤ length v
unfolding starts_with
starts_with-length [] v e = omega arith
starts_with-length (b ∷ n) [] e = cc e
starts_with-length (b ∷ n) (c ∷ v) e = ground (arith, starts_with-length n v, e)

starts_with-append :
    (n v w : Bytes) → length n ≤ length v → starts_with n (v ++ w) ≡ starts_with n v
unfolding starts_with
starts_with-append [] v w h = refl
starts_with-append (b ∷ n) [] w h = elim h [ ]
starts_with-append (b ∷ n) (c ∷ v) w h =
    ap (λ x. b == c && x) (starts_with-append n v w (omega arith))

find_here :
    (n : Bytes) (c : ℕ) (v : Bytes) → starts_with n (c ∷ v) ≡ true → find_bytes n (c ∷ v) ≡ some 0
unfolding find_bytes
find_here n c v e = rw e refl

find_later :
    (n : Bytes) (c : ℕ) (v : Bytes)
    → starts_with n (c ∷ v) ≡ false
    → find_bytes n (c ∷ v) ≡ one_later (find_bytes n v)
unfolding find_bytes
find_later n c v e = rw e refl

one_later-some :
    (o : Option ℕ) (k : ℕ) → one_later o ≡ some k → (j : ℕ) × ((o ≡ some j) × (k ≡ suc j))
one_later-some none k e = cc e
one_later-some (some j) k e = (j, (refl, cc e))

find_nil : (n : Bytes) (k : ℕ) → find_bytes n [] ≡ some k → (0 ≡ k) × (n ≡ [])
unfolding find_bytes
find_nil [] k e = (cc e, refl)
find_nil (b ∷ n) k e = cc e

find_empty : (w : Bytes) → find_bytes [] w ≡ some 0
unfolding find_bytes
find_empty [] = refl
find_empty (b ∷ w) = refl

find_bytes-length : (n v : Bytes) (k : ℕ) → find_bytes n v ≡ some k → length n + k ≤ length v
find_bytes-length n [] k e = let (z, empty) = find_nil n k e in omega (arith, z, ap length empty)
find_bytes-length n (c ∷ v) k e = elim (Bool-cases (starts_with n (c ∷ v))) [
  | inl here ↦
      let z : 0 ≡ k = cc (e, find_here n c v here) in
      omega (arith, z, starts_with-length n (c ∷ v) here)
  | inr no_match ↦
      let (j, (later, z)) = one_later-some _ k (sym (find_later n c v no_match) ∙ e) in
      omega (arith, z, find_bytes-length n v j later)
]

-- What is found stays found where it is when more bytes arrive.
find_bytes-append :
    (n v w : Bytes) (k : ℕ) → find_bytes n v ≡ some k → find_bytes n (v ++ w) ≡ some k
find_bytes-append n [] w k e =
    let (z, empty) = find_nil n k e in ap (λ x. find_bytes x w) empty ∙ find_empty w ∙ ap some z
find_bytes-append n (c ∷ v) w k e = elim (Bool-cases (starts_with n (c ∷ v))) [
  | inl here ↦
      find_here n c (v ++ w)
        (starts_with-append n (c ∷ v) w (starts_with-length n (c ∷ v) here) ∙ here)
      ∙ sym (find_here n c v here)
      ∙ e
  | inr no_match ↦
      let (j, (later, z)) = one_later-some _ k (sym (find_later n c v no_match) ∙ e) in
      let fits = find_bytes-length n v j later in
      find_later n c (v ++ w) (starts_with-append n (c ∷ v) w (omega (arith, fits)) ∙ no_match)
      ∙ ap one_later (find_bytes-append n v w j later)
      ∙ ap some (sym z)
]

past_blank-some :
    (o : Option ℕ) (p : ℕ) → past_blank o ≡ some p → (k : ℕ) × ((o ≡ some k) × (k + 4 ≡ p))
past_blank-some none p e = cc e
past_blank-some (some k) p e = (k, (refl, cc e))

-- A head is not empty, and stands in the buffer.
pub find_headers_end-length :
    (v : Bytes) (p : ℕ) → find_headers_end v ≡ some p → (0 < p) × (p ≤ length v)
unfolding find_headers_end
find_headers_end-length v p e = at_blank (find_bytes blank_line v) refl e
  where
    at_blank :
        (o : Option ℕ)
        → find_bytes blank_line v ≡ o
        → past_blank o ≡ some p
        → (0 < p) × (p ≤ length v)
    at_blank none here h = cc h
    at_blank (some k) here h =
        let z : k + 4 ≡ p = cc h in omega (arith, z, find_bytes-length blank_line v k here)

pub find_headers_end-append :
    (v w : Bytes) (p : ℕ) → find_headers_end v ≡ some p → find_headers_end (v ++ w) ≡ some p
unfolding find_headers_end
find_headers_end-append v w p e =
    let (k, (found, z)) = past_blank-some _ p e in
    ap past_blank (find_bytes-append blank_line v w k found) ∙ ap some z

-- What the reads of a connection bring.
unfoldable pub sent : List Wake → Bytes
sent [] = []
sent (data_read chunk ∷ wakes) = chunk ++ sent wakes
sent (spent ∷ wakes) = sent wakes
sent (read_error ∷ wakes) = sent wakes
sent (shutdown ∷ wakes) = sent wakes

abbrev pub read_size : ℕ
read_size = 8 * 1024

-- No read brings more than the chunk that it fills.
abbrev pub Fits : Wake → Type 0
Fits (data_read chunk) = length chunk ≤ read_size
Fits _ = Unit

read_head-step :
    (buf : Bytes) (wake : Wake) (later : List Wake)
    → find_headers_end buf ≡ none
    → ltb max_header_bytes (length buf) ≡ false
    → read_head buf (wake ∷ later) ≡ (elim wake [
      | data_read chunk ↦ elim chunk [ [] ↦ closed | b ∷ bs ↦ read_head (buf ++ (b ∷ bs)) later ]
      | spent ↦ closed
      | read_error ↦ failed
      | shutdown ↦ elim (is_empty buf) [ true ↦ closed | false ↦ read_head buf later ]
    ])
unfolding read_head
read_head-step buf wake later e f = rw (e, f, read_head) refl

pub read_head-found :
    (buf : Bytes) (wakes : List Wake) (p : ℕ)
    → find_headers_end buf ≡ some p
    → read_head buf wakes ≡ head p buf
unfolding read_head
read_head-found buf [] p e = rw (e, read_head) refl
read_head-found buf (wake ∷ later) p e = rw (e, read_head) refl

read_head-full :
    (buf : Bytes) (wake : Wake) (later : List Wake)
    → find_headers_end buf ≡ none
    → ltb max_header_bytes (length buf) ≡ true
    → read_head buf (wake ∷ later) ≡ too_large
unfolding read_head
read_head-full buf wake later e f = rw (e, f, read_head) refl

pub read_head-end : (buf : Bytes) → find_headers_end buf ≡ none → read_head buf [] ≡ awaiting buf
unfolding read_head
read_head-end buf e = rw (e, read_head) refl

-- A head ends where it ends in all that was sent; no buffer outgrows the limit and one read.
abbrev pub IsHead : Bytes → HeadResult → Type 0
IsHead all (head p buf) =
    (find_headers_end all ≡ some p) × (length buf ≤ max_header_bytes + read_size)
IsHead all (awaits buf) = (buf ≡ all) × (length buf ≤ max_header_bytes)
IsHead all too_large = Unit
IsHead all closed = Unit
IsHead all failed = Unit

found-IsHead :
    (buf : Bytes) (wakes : List Wake) (p : ℕ)
    → length buf ≤ max_header_bytes + read_size
    → find_headers_end buf ≡ some p
    → IsHead (buf ++ sent wakes) (read_head buf wakes)
found-IsHead buf wakes p l e =
    subst (IsHead (buf ++ sent wakes)) (sym (read_head-found buf wakes p e))
      (find_headers_end-append buf (sent wakes) p e, l)

awaiting-IsHead : (buf : Bytes) → IsHead (buf ++ []) (awaiting buf)
awaiting-IsHead buf = elim (Bool-cases (ltb max_header_bytes (length buf))) [
  | inl e ↦ rw e tt
  | inr e ↦ rw e (sym (append-nil buf), ground (arith, e))
]

on_wake :
    (buf : Bytes) (wake : Wake) (later : List Wake)
    → ltb max_header_bytes (length buf) ≡ false
    → Fits wake
    → ((longer : Bytes)
        → length longer ≤ max_header_bytes + read_size
        → IsHead (longer ++ sent later) (read_head longer later))
    → length buf ≤ max_header_bytes + read_size
    → IsHead (buf ++ sent (wake ∷ later)) (elim wake [
      | data_read chunk ↦ elim chunk [ [] ↦ closed | b ∷ bs ↦ read_head (buf ++ (b ∷ bs)) later ]
      | spent ↦ closed
      | read_error ↦ failed
      | shutdown ↦ elim (is_empty buf) [ true ↦ closed | false ↦ read_head buf later ]
    ])
unfolding sent
on_wake buf (data_read []) later room fits ih l = tt
on_wake buf (data_read (b ∷ bs)) later room fits ih l =
    subst (λ x. IsHead x (read_head (buf ++ (b ∷ bs)) later))
      (append_assoc buf (b ∷ bs) (sent later))
      (ih (buf ++ (b ∷ bs)) (ground (arith, room, fits, length-append buf (b ∷ bs))))
on_wake buf spent later room fits ih l = tt
on_wake buf read_error later room fits ih l = tt
on_wake buf shutdown later room fits ih l = elim (Bool-cases (is_empty buf)) [
  | inl e ↦ rw e tt
  | inr e ↦ rw e (ih buf l)
]

-- Whatever the reads, the head that serve_connection takes is the one that all the bytes have, and
-- what it buffers is bounded.
pub read_head-IsHead :
    (buf : Bytes) (wakes : List Wake)
    → length buf ≤ max_header_bytes + read_size
    → All Fits wakes
    → IsHead (buf ++ sent wakes) (read_head buf wakes)
read_head-IsHead buf [] l f = elim (Option-cases (find_headers_end buf)) [
  | inr (p, e) ↦ found-IsHead buf [] p l e
  | inl e ↦
      subst (IsHead (buf ++ sent [])) (sym (read_head-end buf e))
        (unfold sent in awaiting-IsHead buf)
]
read_head-IsHead buf (wake ∷ later) l (fits, f) = elim (Option-cases (find_headers_end buf)) [
  | inr (p, e) ↦ found-IsHead buf (wake ∷ later) p l e
  | inl e ↦ elim (Bool-cases (ltb max_header_bytes (length buf))) [
    | inl full ↦
        subst (IsHead (buf ++ sent (wake ∷ later))) (sym (read_head-full buf wake later e full)) tt
    | inr room ↦
        subst (IsHead (buf ++ sent (wake ∷ later))) (sym (read_head-step buf wake later e room))
          (on_wake buf wake later room fits (λ longer k. read_head-IsHead longer later k f) l)
  ]
]

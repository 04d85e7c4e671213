-- ===== src/Router/Http/Body/Exact.antt =====
-- crates/buran-router/src/http1.rs: a body is cut from the stream exactly, whatever the reads.
use buran.Prelude.{
  ℕ, zero, suc, ◌+◌, ◌-◌, ◌≤◌, ◌<◌, ◌≡◌, refl, sym, ap, ◌∙◌, min, true, false, [], ◌∷◌, ◌++◌, ltb,
  leb, Bytes, length, take, drop, arith, Bool-cases, inl, inr, length-take, length-append,
  take-append-drop, append_assoc, ltb→lt, leb→le, take_all, subst,
}
use buran.Router.Http.Body.{
  Socket, ReadResult, Read, Pace, BodyResult, read, unread, keep, read_exact_body, take_body,
  chunk_size, body_rate_ok, bytes, stall, failure, got, timed_out, io_error, more, stop, whole,
  refused, out_of_fuel,
}

-- All that the client still sends.
unfoldable pub stream : Socket → Bytes
stream [] = []
stream (bytes t bs ∷ s) = bs ++ stream s
stream (stall ∷ s) = stream s
stream (failure ∷ s) = stream s

abbrev pub got_bytes : ReadResult → Bytes
got_bytes (got t bs) = bs
got_bytes timed_out = []
got_bytes io_error = []

unread-stream :
    (want t : ℕ) (bs : Bytes) (s : Socket)
    → take want bs ++ stream (unread want t bs s) ≡ bs ++ stream s
unfolding stream
unread-stream want t bs s = elim (Bool-cases (leb (length bs) want)) [
  | inl e ↦ rw e (ap (λ x. x ++ stream s) (take_all bs want (leb→le (length bs) want e)))
  | inr e ↦ rw e (
      sym (append_assoc (take want bs) (drop want bs) (stream s))
      ∙ ap (λ x. x ++ stream s) (take-append-drop want bs))
]

-- A read takes the next bytes of the stream, and leaves the rest.
pub read-stream :
    (want : ℕ) (s : Socket) → got_bytes (read want s).0 ++ stream (read want s).1 ≡ stream s
unfolding read stream
read-stream want [] = refl
read-stream want (bytes t bs ∷ s) = unread-stream want t bs s
read-stream want (stall ∷ s) = refl
read-stream want (failure ∷ s) = refl

pub read-length : (want : ℕ) (s : Socket) → length (got_bytes (read want s).0) ≤ want
unfolding read
read-length want [] = omega arith
read-length want (bytes t bs ∷ s) = omega (arith, length-take want bs)
read-length want (stall ∷ s) = omega arith
read-length want (failure ∷ s) = omega arith

pub keep-more :
    (pace : Pace) (body longer : Bytes) (r : ReadResult) (s rest : Socket)
    → keep pace body (r, s) ≡ more longer rest
    → (longer ≡ body ++ got_bytes r) × ((rest ≡ s) × (1 ≤ length (got_bytes r)))
unfolding keep
keep-more pace body longer (got t []) s rest e = cc e
keep-more pace body longer (got t (b ∷ bs)) s rest e =
    elim (Bool-cases (body_rate_ok (length (body ++ (b ∷ bs))) t pace.read_timeout pace.min_rate)) [
      | inl k ↦ let e' = rw k at e in (cc e', (cc e', omega arith))
      | inr k ↦ cc (rw k at e)
    ]
keep-more pace body longer timed_out s rest e = cc e
keep-more pace body longer io_error s rest e = cc e

-- A round of the loop that goes on: the body grows by what left the stream, within the length.
pub round-stream :
    (pace : Pace) (total : ℕ) (body longer : Bytes) (s rest : Socket)
    → keep pace body (read (min (total - length body) chunk_size) s) ≡ more longer rest
    → length body ≤ total
    → (length body < length longer)
      × ((length longer ≤ total) × (longer ++ stream rest ≡ body ++ stream s))
round-stream pace total body longer s rest e h =
    let want = min (total - length body) chunk_size in
    let (a, (b, c)) = keep-more pace body longer (read want s).0 (read want s).1 rest e in
    let l : length longer ≡ length body + length (got_bytes (read want s).0) =
      ap length a ∙ length-append body (got_bytes (read want s).0) in
    let fits = read-length want s in
    (
      omega (arith, l, c),
      (
        omega (arith, l, fits, h),
        ap (λ x. x ++ stream rest) a
            ∙ ap (λ x. (body ++ got_bytes (read want s).0) ++ stream x) b
            ∙ append_assoc body (got_bytes (read want s).0) (stream (read want s).1)
            ∙ ap (λ x. body ++ x) (read-stream want s),
      ),
    )

-- A body of the declared length was cut from what the client sent: `buf` and the socket have the
-- rest. The code has no other outcomes than the first two.
abbrev pub Cuts : ℕ → Bytes → Bytes → BodyResult → Type 0
Cuts total sent buf (whole body s) = (length body ≡ total) × (body ++ (buf ++ stream s) ≡ sent)
Cuts total sent buf (refused error) = Unit
Cuts total sent buf out_of_fuel = false ≡ true

after_read-Cuts :
    (fuel : ℕ) (pace : Pace) (total : ℕ) (body : Bytes) (s : Socket)
    → ((longer : Bytes) (rest : Socket)
        → length longer ≤ total
        → total ≤ fuel + length longer
        → Cuts total (longer ++ stream rest) [] (read_exact_body fuel pace total longer rest))
    → length body ≤ total
    → total ≤ suc fuel + length body
    → (r : Read) → keep pace body (read (min (total - length body) chunk_size) s) ≡ r
    → Cuts total (body ++ stream s) [] (elim r [
      | more longer rest ↦ read_exact_body fuel pace total longer rest
      | stop error ↦ refused error
    ])
after_read-Cuts fuel pace total body s ih h f (stop error) e = tt
after_read-Cuts fuel pace total body s ih h f (more longer rest) e =
    let (grows, (fits, same)) = round-stream pace total body longer s rest e h in
    subst (λ x. Cuts total x [] (read_exact_body fuel pace total longer rest)) same
      (ih longer rest fits (omega (arith, grows, f)))

pub loop_stops :
    (fuel : ℕ) (pace : Pace) (total : ℕ) (body : Bytes) (s : Socket)
    → ltb (length body) total ≡ false
    → read_exact_body fuel pace total body s ≡ whole body s
unfolding read_exact_body
loop_stops zero pace total body s e = rw (e, read_exact_body) refl
loop_stops (suc fuel) pace total body s e = rw (e, read_exact_body) refl

pub loop_reads :
    (fuel : ℕ) (pace : Pace) (total : ℕ) (body : Bytes) (s : Socket)
    → ltb (length body) total ≡ true
    → read_exact_body (suc fuel) pace total body s
      ≡ (elim (keep pace body (read (min (total - length body) chunk_size) s)) [
        | more longer rest ↦ read_exact_body fuel pace total longer rest
        | stop error ↦ refused error
      ])
unfolding read_exact_body
loop_reads fuel pace total body s e = rw (e, read_exact_body) refl

stopped-Cuts :
    (total : ℕ) (body : Bytes) (s : Socket)
    → length body ≤ total
    → ltb (length body) total ≡ false
    → Cuts total (body ++ stream s) [] (whole body s)
stopped-Cuts total body s h e = (ground (arith, e, h), refl)

read_exact_body-Cuts :
    (fuel : ℕ) (pace : Pace) (total : ℕ) (body : Bytes) (s : Socket)
    → length body ≤ total
    → total ≤ fuel + length body
    → Cuts total (body ++ stream s) [] (read_exact_body fuel pace total body s)
read_exact_body-Cuts zero pace total body s h f =
    let e : ltb (length body) total ≡ false = ground (arith, f) in
    subst (Cuts total (body ++ stream s) []) (sym (loop_stops zero pace total body s e))
      (stopped-Cuts total body s h e)
read_exact_body-Cuts (suc fuel) pace total body s h f =
    elim (Bool-cases (ltb (length body) total)) [
      | inr e ↦
          subst (Cuts total (body ++ stream s) []) (sym (loop_stops (suc fuel) pace total body s e))
            (stopped-Cuts total body s h e)
      | inl e ↦
          subst (Cuts total (body ++ stream s) []) (sym (loop_reads fuel pace total body s e)) (
            after_read-Cuts fuel pace total body s (read_exact_body-Cuts fuel pace total) h f
              (keep pace body (read (min (total - length body) chunk_size) s)) refl)
    ]

-- A body that is taken has the declared length, and with what stays in the buffer and the socket
-- it is what the client sent; the fuel never runs out.
pub take_body-exact :
    (pace : Pace) (total : ℕ) (buf : Bytes) (s : Socket)
    → Cuts total
        (buf ++ stream s)
        (take_body pace total buf s).buf
        (take_body pace total buf s).body
unfolding take_body
take_body-exact pace total buf s = elim (Bool-cases (ltb total (length buf))) [
  | inl e ↦ rw e (
    omega (arith, length-take total buf, ltb→lt total (length buf) e),
    sym (append_assoc (take total buf) (drop total buf) (stream s))
        ∙ ap (λ x. x ++ stream s) (take-append-drop total buf),
  )
  | inr e ↦ rw e (read_exact_body-Cuts total pace total buf s (ground (arith, e)) (omega arith))
]

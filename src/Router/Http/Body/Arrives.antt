-- ===== src/Router/Http/Body/Arrives.antt =====
-- crates/buran-router/src/http1.rs, take_body: a body that the client sends in time is taken.
use buran.Prelude.{
  ℕ, zero, suc, ◌+◌, ◌-◌, ◌≤◌, ◌≡◌, refl, ap, ◌∙◌, min, true, false, [], ◌∷◌, ◌++◌, ltb, leb, Bytes,
  length, take, arith, Bool-cases, inl, inr, length-append, length-drop, All, ltb→lt,
}
use buran.Router.Http.Body.{
  Arrival, Socket, Pace, read, unread, keep, read_exact_body, take_body, chunk_size, body_rate_ok,
  bytes, stall, failure, more, whole,
}
use buran.Router.Http.Body.Exact.{stream, loop_stops, loop_reads, round-stream}

-- Bytes, some, that can be read before the rate is checked.
abbrev pub OnTime : Pace → Arrival → Type 0
OnTime pace (bytes t bs) = (t ≤ pace.read_timeout) × (1 ≤ length bs)
OnTime pace stall = false ≡ true
OnTime pace failure = false ≡ true

body_rate_ok-grace :
    (received t grace rate : ℕ) → t ≤ grace → body_rate_ok received t grace rate ≡ true
unfolding body_rate_ok
body_rate_ok-grace received t grace rate h = ground (arith, h)

-- A read of something that is there, and what it leaves.
record Goes (pace : Pace) (body : Bytes) (want : ℕ) (s : Socket) : Type 0 where
  longer : Bytes
  rest : Socket
  reads : keep pace body (read want s) ≡ more longer rest
  on_time : All (OnTime pace) rest

unread-OnTime :
    (pace : Pace) (want t : ℕ) (bs : Bytes) (s : Socket)
    → t ≤ pace.read_timeout
    → All (OnTime pace) s
    → All (OnTime pace) (unread want t bs s)
unread-OnTime pace want t bs s h a = elim (Bool-cases (leb (length bs) want)) [
  | inl e ↦ rw e a
  | inr e ↦ rw e ((h, ground (arith, e, length-drop want bs)), a)
]

keep-Goes :
    (pace : Pace) (body : Bytes) (want : ℕ) (s : Socket)
    → All (OnTime pace) s
    → 1 ≤ want
    → 1 ≤ length (stream s)
    → Goes pace body want s
unfolding stream
keep-Goes pace body zero s a w l = elim w [ ]
keep-Goes pace body (suc want) [] a w l = elim l [ ]
keep-Goes pace body (suc want) (bytes t [] ∷ s) a w l = elim a.0.1 [ ]
keep-Goes pace body (suc want) (bytes t (b ∷ bs) ∷ s) ((h, k), a) w l = record {
  longer = body ++ (b ∷ take want bs);
  rest = unread (suc want) t (b ∷ bs) s;
  reads =
      unfold read in
      unfold keep in
      rw
        (body_rate_ok-grace (length (body ++ (b ∷ take want bs))) t pace.read_timeout pace.min_rate
          h)
        refl;
  on_time = unread-OnTime pace (suc want) t (b ∷ bs) s h a;
}
keep-Goes pace body (suc want) (stall ∷ s) a w l = cc (a.0)
keep-Goes pace body (suc want) (failure ∷ s) a w l = cc (a.0)

read_exact_body-arrives :
    (fuel : ℕ) (pace : Pace) (total : ℕ) (body : Bytes) (s : Socket)
    → length body ≤ total
    → total ≤ fuel + length body
    → All (OnTime pace) s
    → total ≤ length (body ++ stream s)
    → (full : Bytes) × ((rest : Socket) × (read_exact_body fuel pace total body s
          ≡ whole full rest))
read_exact_body-arrives zero pace total body s h f a enough =
    (body, (s, loop_stops zero pace total body s (ground (arith, f))))
read_exact_body-arrives (suc fuel) pace total body s h f a enough =
    elim (Bool-cases (ltb (length body) total)) [
      | inr e ↦ (body, (s, loop_stops (suc fuel) pace total body s e))
      | inl e ↦
          let below = ltb→lt (length body) total e in
          let left : 1 ≤ length (stream s) =
            omega (arith, below, enough, length-append body (stream s)) in
          let g =
            keep-Goes pace body (min (total - length body) chunk_size) s a (omega (arith, below))
              left in
          let (grows, (fits, same)) = round-stream pace total body g.longer s g.rest g.reads h in
          let (full, (rest, ends)) =
            read_exact_body-arrives fuel pace total g.longer g.rest fits (omega (arith, grows, f))
              g.on_time (omega (arith, ap length same, enough)) in
          (full, (rest, loop_reads fuel pace total body s e ∙ rw g.reads ends))
    ]

-- A body that the client sends in time, and whole, is taken.
pub take_body-arrives :
    (pace : Pace) (total : ℕ) (buf : Bytes) (s : Socket)
    → All (OnTime pace) s
    → total ≤ length (buf ++ stream s)
    → (body : Bytes) × ((rest : Socket) × ((take_body pace total buf s).body ≡ whole body rest))
unfolding take_body
take_body-arrives pace total buf s a enough = elim (Bool-cases (ltb total (length buf))) [
  | inl e ↦ (take total buf, (s, rw e refl))
  | inr e ↦
      let (body, (rest, ends)) =
        read_exact_body-arrives total pace total buf s (ground (arith, e)) (omega arith) a enough in
      (body, (rest, rw e ends))
]

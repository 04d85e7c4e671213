-- ===== src/Router/Http/Body/Feeding.antt =====
-- crates/buran-router/src/http1.rs, feed_body: a streamed body reaches the dispatcher whole.
use buran.Prelude.{
  ℕ, zero, suc, ◌+◌, ◌-◌, ◌≤◌, ◌≡◌, refl, sym, ap, ◌∙◌, min, Bool, true, false, Option, none, some,
  List, [], ◌∷◌, ◌++◌, ltb, ◌==◌, Bytes, length, arith, Bool-cases, inl, inr, length-append,
  append_assoc, append-nil, subst,
}
use buran.Router.Http.Body.{
  Socket, ReadResult, Pace, Feed, FeedRead, read, feed_read, feed_loop, feed_body, fed, chunk_size,
  body_rate_ok, got, timed_out, io_error, forward, give_up,
}
use buran.Router.Http.Body.Exact.{stream, got_bytes, read-stream, read-length}

unfoldable pub joined : List Bytes → Bytes
joined [] = []
joined (bs ∷ rest) = bs ++ joined rest

joined-last : (xs : List Bytes) (bs : Bytes) → joined (xs ++ (bs ∷ [])) ≡ joined xs ++ bs
unfolding joined
joined-last [] bs = append-nil bs
joined-last (x ∷ xs) bs = ap (λ y. x ++ y) (joined-last xs bs) ∙ sym (append_assoc x (joined xs) bs)

pub feed_read-forward :
    (pace : Pace) (total remaining : ℕ) (r : ReadResult) (s rest : Socket) (bs : Bytes)
    → feed_read pace total remaining (r, s) ≡ forward bs rest
    → (bs ≡ got_bytes r) × ((rest ≡ s) × (1 ≤ length bs))
unfolding feed_read
feed_read-forward pace total remaining (got t []) s rest bs e = cc e
feed_read-forward pace total remaining (got t (c ∷ cs)) s rest bs e =
    elim (Bool-cases
      (body_rate_ok (total - (remaining - length (c ∷ cs))) t pace.read_timeout pace.min_rate)) [
        | inl k ↦
            let e' = rw k at e in
            let same : bs ≡ c ∷ cs = cc e' in (same, (cc e', omega (arith, ap length same)))
        | inr k ↦ cc (rw k at e)
      ]
feed_read-forward pace total remaining timed_out s rest bs e = cc e
feed_read-forward pace total remaining io_error s rest bs e = cc e

-- What the dispatcher has and what the socket has left make up all, and the dispatcher has `total`.
abbrev Carried : ℕ → Bytes → Bool → List Bytes → Socket → Type 0
Carried total all true chunks s =
    (joined chunks ++ stream s ≡ all) × (length (joined chunks) ≡ total)
Carried total all false chunks s = Unit

abbrev Delivers : ℕ → Bytes → Option Feed → Type 0
Delivers total all none = false ≡ true
Delivers total all (some f) = Carried total all f.ok f.sent f.socket

pub loop_done :
    (fuel : ℕ) (pace : Pace) (total remaining accepts : ℕ) (chunks : List Bytes) (s : Socket)
    → ltb 0 remaining ≡ false
    → feed_loop fuel pace total remaining accepts chunks s ≡ fed true chunks s
unfolding feed_loop
loop_done zero pace total remaining accepts chunks s e = rw (e, feed_loop) refl
loop_done (suc fuel) pace total remaining accepts chunks s e = rw (e, feed_loop) refl

abbrev pub next_round : ℕ → Pace → ℕ → ℕ → ℕ → List Bytes → FeedRead → Option Feed
next_round fuel pace total remaining accepts chunks (give_up rest) = fed false chunks rest
next_round fuel pace total remaining zero chunks (forward bs rest) = fed false chunks rest
next_round fuel pace total remaining (suc a) chunks (forward bs rest) =
    feed_loop fuel pace total (remaining - length bs) a (chunks ++ (bs ∷ [])) rest

same_round :
    (fuel : ℕ) (pace : Pace) (total remaining accepts : ℕ) (chunks : List Bytes) (r : FeedRead)
    → (elim r [
      | give_up rest ↦ fed false chunks rest
      | forward bs rest ↦ elim accepts [
        | zero ↦ fed false chunks rest
        | suc a ↦ feed_loop fuel pace total (remaining - length bs) a (chunks ++ (bs ∷ [])) rest
      ]
    ])
      ≡ next_round fuel pace total remaining accepts chunks r
same_round fuel pace total remaining accepts chunks (give_up rest) = refl
same_round fuel pace total remaining zero chunks (forward bs rest) = refl
same_round fuel pace total remaining (suc a) chunks (forward bs rest) = refl

pub loop_round :
    (fuel : ℕ) (pace : Pace) (total remaining accepts : ℕ) (chunks : List Bytes) (s : Socket)
    → ltb 0 remaining ≡ true
    → feed_loop (suc fuel) pace total remaining accepts chunks s
      ≡ next_round fuel pace total remaining accepts chunks
          (feed_read pace total remaining (read (min remaining chunk_size) s))
unfolding feed_loop
loop_round fuel pace total remaining accepts chunks s e =
    rw (e, feed_loop)
      (same_round fuel pace total remaining accepts chunks
        (feed_read pace total remaining (read (min remaining chunk_size) s)))

next_round-Delivers :
    (fuel : ℕ) (pace : Pace) (total remaining accepts : ℕ) (chunks : List Bytes) (s : Socket)
    → ((left a : ℕ) (more : List Bytes) (rest : Socket)
        → left ≤ fuel
        → Delivers
            (length (joined more) + left)
            (joined more ++ stream rest)
            (feed_loop fuel pace total left a more rest))
    → remaining ≤ suc fuel
    → (r : FeedRead) → feed_read pace total remaining (read (min remaining chunk_size) s) ≡ r
    → Delivers
        (length (joined chunks) + remaining)
        (joined chunks ++ stream s)
        (next_round fuel pace total remaining accepts chunks r)
next_round-Delivers fuel pace total remaining accepts chunks s ih f (give_up rest) e = tt
next_round-Delivers fuel pace total remaining zero chunks s ih f (forward bs rest) e = tt
next_round-Delivers fuel pace total remaining (suc a) chunks s ih f (forward bs rest) e =
    let want = min remaining chunk_size in
    let (p, (q, l)) =
      feed_read-forward pace total remaining (read want s).0 (read want s).1 rest bs e in
    let fits = read-length want s in
    let same : length bs ≡ length (got_bytes (read want s).0) = ap length p in
    let last = joined-last chunks bs in
    let count : length (joined (chunks ++ (bs ∷ []))) + (remaining - length bs)
        ≡ length (joined chunks) + remaining =
      omega (arith, ap length last, length-append (joined chunks) bs, fits, same) in
    let all : joined (chunks ++ (bs ∷ [])) ++ stream rest ≡ joined chunks ++ stream s =
      ap (λ x. x ++ stream rest) last
      ∙ append_assoc (joined chunks) bs (stream rest)
      ∙ ap (λ x. joined chunks ++ (x ++ stream rest)) p
      ∙ ap (λ x. joined chunks ++ (got_bytes (read want s).0 ++ stream x)) q
      ∙ ap (λ x. joined chunks ++ x) (read-stream want s) in
    subst
      (λ n.
        Delivers n (joined chunks ++ stream s)
          (feed_loop fuel pace total (remaining - length bs) a (chunks ++ (bs ∷ [])) rest))
      count
      (subst
        (λ x.
          Delivers (length (joined (chunks ++ (bs ∷ []))) + (remaining - length bs)) x
            (feed_loop fuel pace total (remaining - length bs) a (chunks ++ (bs ∷ [])) rest))
        all (ih (remaining - length bs) a (chunks ++ (bs ∷ [])) rest (omega (arith, f, l))))

done-Delivers :
    (fuel : ℕ) (pace : Pace) (total remaining accepts : ℕ) (chunks : List Bytes) (s : Socket)
    → ltb 0 remaining ≡ false
    → Delivers
        (length (joined chunks) + remaining)
        (joined chunks ++ stream s)
        (feed_loop fuel pace total remaining accepts chunks s)
done-Delivers fuel pace total remaining accepts chunks s e =
    subst (Delivers (length (joined chunks) + remaining) (joined chunks ++ stream s))
      (sym (loop_done fuel pace total remaining accepts chunks s e)) (refl, ground (arith, e))

feed_loop-Delivers :
    (fuel : ℕ) (pace : Pace) (total remaining accepts : ℕ) (chunks : List Bytes) (s : Socket)
    → remaining ≤ fuel
    → Delivers
        (length (joined chunks) + remaining)
        (joined chunks ++ stream s)
        (feed_loop fuel pace total remaining accepts chunks s)
feed_loop-Delivers zero pace total remaining accepts chunks s f =
    done-Delivers zero pace total remaining accepts chunks s (ground (arith, f))
feed_loop-Delivers (suc fuel) pace total remaining accepts chunks s f =
    elim (Bool-cases (ltb 0 remaining)) [
      | inr e ↦ done-Delivers (suc fuel) pace total remaining accepts chunks s e
      | inl e ↦
          subst (Delivers (length (joined chunks) + remaining) (joined chunks ++ stream s))
            (sym (loop_round fuel pace total remaining accepts chunks s e))
            (next_round-Delivers fuel pace total remaining accepts chunks s
              (λ left a more rest h. feed_loop-Delivers fuel pace total left a more rest h) f
              (feed_read pace total remaining (read (min remaining chunk_size) s)) refl)
    ]

feed_body-Delivers :
    (pace : Pace) (initial : Bytes) (remaining accepts : ℕ) (s : Socket)
    → 1 ≤ remaining
    → Delivers
        (length initial + remaining)
        (initial ++ stream s)
        (feed_body pace initial remaining accepts s)
unfolding feed_body joined
feed_body-Delivers pace [] remaining accepts s h =
    feed_loop-Delivers remaining pace remaining remaining accepts [] s (omega arith)
feed_body-Delivers pace (b ∷ bs) remaining zero s h =
    let e : (remaining == 0) ≡ false = ground (arith, h) in rw e tt
feed_body-Delivers pace (b ∷ bs) remaining (suc a) s h =
    subst
      (λ x.
        Delivers (length x + remaining) (x ++ stream s)
          (feed_loop remaining pace (remaining + length (b ∷ bs)) remaining a ((b ∷ bs) ∷ []) s))
      (append-nil (b ∷ bs))
      (feed_loop-Delivers remaining pace (remaining + length (b ∷ bs)) remaining a ((b ∷ bs) ∷ []) s
        (omega arith))

Delivers-Carried :
    (total : ℕ) (all : Bytes) (o : Option Feed) (f : Feed)
    → o ≡ some f
    → f.ok ≡ true
    → Delivers total all o
    → (joined f.sent ++ stream f.socket ≡ all) × (length (joined f.sent) ≡ total)
Delivers-Carried total all none f e k d = cc e
Delivers-Carried total all (some g) f e k d =
    subst (λ b. Carried total all b f.sent f.socket) k (subst (Delivers total all) e d)

-- When the feeding of a body of which bytes are still to come reports success, the dispatcher has
-- got exactly the declared length, in order, and the socket has what follows it.
pub feed_body-delivers :
    (pace : Pace) (initial : Bytes) (remaining accepts : ℕ) (s : Socket) (f : Feed)
    → 1 ≤ remaining
    → feed_body pace initial remaining accepts s ≡ some f
    → f.ok ≡ true
    → (joined f.sent ++ stream f.socket ≡ initial ++ stream s)
      × (length (joined f.sent) ≡ length initial + remaining)
feed_body-delivers pace initial remaining accepts s f h e k =
    Delivers-Carried _ _ _ f e k (feed_body-Delivers pace initial remaining accepts s h)

-- ===== src/Router/Uri/Segments.antt =====
-- The segments that `normalize_path` keeps: not empty, no slash inside, neither `.` nor `..`.
use buran.Prelude.{
  Without, ℕ, ◌≡◌, ◌≢◌, false, ◌||◌, List, [], ◌∷◌, reverse, arith, ◌==◌, Bytes, All, All-append,
  is_empty, Bool-cases, inl, inr,
}
use mathlib.Core.List.{reverse-append}
use buran.Router.Uri.{is_dot, is_dot_dot, pop, cons_head, split, push_segment, resolve}

abbrev pub NoSlash : Bytes → Type 0
NoSlash = Without b'/'

pub record IsSegment (s : Bytes) : Type 0 where
  pub slash : NoSlash s
  pub ne_nil : s ≢ []
  pub ne_dot : s ≢ b'.' ∷ []
  pub ne_dot_dot : s ≢ b'.' ∷ b'.' ∷ []

abbrev pub AreSegments : List Bytes → Type 0
AreSegments = All IsSegment

cons_head-NoSlash :
    (b : ℕ) (ss : List Bytes) → b ≢ b'/' → All NoSlash ss → All NoSlash (cons_head b ss)
cons_head-NoSlash b [] h a = ((h, tt), tt)
cons_head-NoSlash b (s ∷ ss) h (a, as') = ((h, a), as')

pub split-NoSlash : (p : Bytes) → All NoSlash (split b'/' p)
unfolding split
split-NoSlash [] = (tt, tt)
split-NoSlash (b ∷ bs) = elim (Bool-cases (b == b'/')) [
  | inl slash ↦ rw slash (tt, split-NoSlash bs)
  | inr other ↦ rw other (cons_head-NoSlash b (split b'/' bs) (ground arith) (split-NoSlash bs))
]

is_dot-eq : (s : Bytes) → is_dot s ≡ false → s ≢ b'.' ∷ []
is_dot-eq s h e = ground arith

is_dot_dot-eq : (s : Bytes) → is_dot_dot s ≡ false → s ≢ b'.' ∷ b'.' ∷ []
is_dot_dot-eq s h e = ground arith

pop-AreSegments : (ss : List Bytes) → AreSegments ss → AreSegments (pop ss)
pop-AreSegments [] h = tt
pop-AreSegments (s ∷ ss) h = h.1

push_segment-AreSegments :
    (stack : List Bytes) (s : Bytes)
    → AreSegments stack
    → NoSlash s
    → AreSegments (push_segment stack s)
unfolding push_segment
push_segment-AreSegments stack s h n = elim (Bool-cases (is_empty s || is_dot s)) [
  | inl skip ↦ rw skip h
  | inr keep ↦ elim (Bool-cases (is_dot_dot s)) [
    | inl up ↦ rw (keep, up) (pop-AreSegments stack h)
    | inr down ↦
        rw (keep, down)
          (
            record {
              slash = n;
              ne_nil = λ e. ground arith;
              ne_dot = λ e. ground arith;
              ne_dot_dot = is_dot_dot-eq s down;
            },
            h,
          )
  ]
]

pub resolve-AreSegments :
    (ss stack : List Bytes) → All NoSlash ss → AreSegments stack → AreSegments (resolve stack ss)
unfolding resolve
resolve-AreSegments [] stack n h = h
resolve-AreSegments (s ∷ ss) stack (n, ns) h =
    resolve-AreSegments ss (push_segment stack s) ns (push_segment-AreSegments stack s h n)

pub reverse-All {ℓ} : {A : Type ℓ} (P : A → Type 0) (xs : List A) → All P xs → All P (reverse xs)
reverse-All P [] h = h
reverse-All P (x ∷ xs) (h, t) =
    rw (reverse-append (x ∷ []) xs)
      (All-append P (reverse xs) (x ∷ []) (reverse-All P xs t) (h, tt))

-- ===== src/Router/Uri/Normal.antt =====
-- Normalised paths: what `normalize_path` returns, and that it leaves such a path alone.
use buran.Prelude.{
  ℕ, ◌≡◌, refl, sym, ap, ◌∙◌, Bool, true, false, ◌||◌, List, [], ◌∷◌, ◌++◌, reverse, append_assoc,
  append-nil, arith, if◌then◌else◌, Bytes, is_empty, Bool-cases, inl, inr,
}
use mathlib.Core.List.{reverse-append, reverse-reverse}
use buran.Router.Uri.Separators.{split-Without, split-append}
use buran.Router.Uri.{
  split, push_segment, resolve, join, ends_with_slash, percent_decode, normalize_path,
}
use buran.Router.Uri.Segments.{
  NoSlash, IsSegment, AreSegments, split-NoSlash, resolve-AreSegments, reverse-All,
}

abbrev pub slash_if : Bool → Bytes
slash_if true = b'/' ∷ []
slash_if false = []

-- A path that names no parent: proper segments, each behind a slash, with or without a slash at
-- the end. The root is the slash alone.
pub record IsNormal (p : Bytes) : Type 0 where
  pub segments : List Bytes
  pub slash : Bool
  pub proper : AreSegments segments
  pub shape : p ≡ join segments ++ slash_if slash
  pub rooted : segments ≡ [] → slash ≡ true

-- Whatever the path, its normal form has no empty segment, no `.` and no `..`, and starts with a
-- slash: it cannot lead above the root.
pub normalize_path-IsNormal : (p : Bytes) → IsNormal (normalize_path p)
unfolding normalize_path
normalize_path-IsNormal p = elim (Bool-cases (is_empty out || ends_with_slash (percent_decode p))) [
  | inl e ↦
      rw e (record {
        segments = kept;
        slash = true;
        proper = proper;
        shape = refl;
        rooted = λ _. refl;
      })
  | inr e ↦ rw e (record {
    segments = kept;
    slash = false;
    proper = proper;
    shape = sym (append-nil out);
    rooted = λ n. absurd (nonempty n e);
  })
]
  where
    kept : List Bytes
    kept = reverse (resolve [] (split b'/' (percent_decode p)))

    out : Bytes
    out = join kept

    proper : AreSegments kept
    proper = reverse-All IsSegment (resolve [] (split b'/' (percent_decode p))) (
        resolve-AreSegments (split b'/' (percent_decode p)) [] (split-NoSlash (percent_decode p))
          tt)

    nonempty : kept ≡ [] → (is_empty out || ends_with_slash (percent_decode p)) ≡ false → ⊥
    nonempty n e = cc (ap join n)

-- The segments behind a first one, up to the end.
abbrev last_piece : Bool → List Bytes
last_piece true = [] ∷ []
last_piece false = []

split-join :
    (s : Bytes) (segs : List Bytes) (slash : Bool)
    → NoSlash s
    → AreSegments segs
    → split b'/' (s ++ (join segs ++ slash_if slash)) ≡ s ∷ (segs ++ last_piece slash)
unfolding join
split-join s [] true h t = split-append b'/' s [] h ∙ ap (◌∷◌ s) (unfold split in refl)
split-join s [] false h t = ap (split b'/') (append-nil s) ∙ split-Without b'/' s h
split-join s (g ∷ gs) slash h (i, t) =
    split-append b'/' s ((g ++ join gs) ++ slash_if slash) h
    ∙ ap (λ x. s ∷ split b'/' x) (append_assoc g (join gs) (slash_if slash))
    ∙ ap (◌∷◌ s) (split-join g gs slash i.slash t)

push_segment-IsSegment :
    (stack : List Bytes) (s : Bytes) → IsSegment s → push_segment stack s ≡ s ∷ stack
unfolding push_segment
push_segment-IsSegment stack s i = ground (arith, i.ne_nil, i.ne_dot, i.ne_dot_dot)

resolve-join :
    (segs stack : List Bytes) (slash : Bool)
    → AreSegments segs
    → resolve stack (segs ++ last_piece slash) ≡ reverse segs ++ stack
unfolding resolve
resolve-join [] stack true h = unfold push_segment in refl
resolve-join [] stack false h = refl
resolve-join (s ∷ segs) stack slash (i, t) =
    ap (λ k. resolve k (segs ++ last_piece slash)) (push_segment-IsSegment stack s i)
    ∙ resolve-join segs (s ∷ stack) slash t
    ∙ sym (
        ap (λ k. k ++ stack) (reverse-append (s ∷ []) segs)
        ∙ append_assoc (reverse segs) (s ∷ []) stack)

ends_with_slash-NoSlash : (s : Bytes) → NoSlash s → ends_with_slash s ≡ false
unfolding ends_with_slash
ends_with_slash-NoSlash [] h = refl
ends_with_slash-NoSlash (b ∷ []) (h, _) = ground arith
ends_with_slash-NoSlash (b ∷ (c ∷ bs)) (_, t) = ends_with_slash-NoSlash (c ∷ bs) t

ends_with_slash-append :
    (p : Bytes) (b : ℕ) (s : Bytes) → ends_with_slash (p ++ (b ∷ s)) ≡ ends_with_slash (b ∷ s)
unfolding ends_with_slash
ends_with_slash-append [] b s = refl
ends_with_slash-append (a ∷ []) b s = refl
ends_with_slash-append (a ∷ (c ∷ p)) b s = ends_with_slash-append (c ∷ p) b s

ends_with_slash-segment : (s : Bytes) → IsSegment s → ends_with_slash (b'/' ∷ s) ≡ false
unfolding ends_with_slash
ends_with_slash-segment [] i = absurd (i.ne_nil refl)
ends_with_slash-segment (b ∷ s) i = ends_with_slash-NoSlash (b ∷ s) i.slash

ends_with_slash-join :
    (s : Bytes) (segs : List Bytes)
    → AreSegments (s ∷ segs)
    → ends_with_slash (join (s ∷ segs)) ≡ false
unfolding join
ends_with_slash-join s [] (i, _) =
    ap ends_with_slash (append-nil (b'/' ∷ s)) ∙ ends_with_slash-segment s i
ends_with_slash-join s (g ∷ gs) (i, t) =
    ends_with_slash-append (b'/' ∷ s) b'/' (g ++ join gs) ∙ ends_with_slash-join g gs t

resolve_empty : (stack ss : List Bytes) → resolve stack ([] ∷ ss) ≡ resolve stack ss
unfolding resolve push_segment
resolve_empty stack ss = refl

kept-join :
    (segs : List Bytes) (slash : Bool)
    → AreSegments segs
    → reverse (resolve [] (split b'/' (join segs ++ slash_if slash))) ≡ segs
kept-join segs slash h =
    ap (λ k. reverse (resolve [] k)) (split-join [] segs slash tt h)
    ∙ ap reverse (resolve_empty [] (segs ++ last_piece slash) ∙ resolve-join segs [] slash h)
    ∙ ap reverse (append-nil (reverse segs))
    ∙ reverse-reverse segs

-- What `normalize_path` builds from the segments that it keeps.
finish : List Bytes → Bool → Bytes
finish segs slash = if is_empty (join segs) || slash then join segs ++ (b'/' ∷ []) else join segs

normalize_path-finish :
    (p : Bytes)
    → normalize_path p
      ≡ finish
          (reverse (resolve [] (split b'/' (percent_decode p))))
          (ends_with_slash (percent_decode p))
unfolding normalize_path finish
normalize_path-finish p = refl

ends_with_slash-slash : (p : Bytes) → ends_with_slash (p ++ (b'/' ∷ [])) ≡ true
ends_with_slash-slash p = ends_with_slash-append p b'/' [] ∙ unfold ends_with_slash in refl

finish-shape :
    (segs : List Bytes) (slash : Bool)
    → AreSegments segs
    → (segs ≡ [] → slash ≡ true)
    → finish segs (ends_with_slash (join segs ++ slash_if slash)) ≡ join segs ++ slash_if slash
unfolding finish
finish-shape segs true h r = rw (ends_with_slash-slash (join segs)) (ground arith)
finish-shape [] false h r = absurd (ground (arith, r refl))
finish-shape (s ∷ segs) false h r =
    rw (append-nil (join (s ∷ segs)), ends_with_slash-join s segs h) (unfold join in refl)

-- A normal path in which nothing is left to decode is its own normal form.
pub normalize_path_fixed : (p : Bytes) → IsNormal p → percent_decode p ≡ p → normalize_path p ≡ p
normalize_path_fixed p n e =
    normalize_path-finish p
    ∙ ap (λ d. finish (reverse (resolve [] (split b'/' d))) (ends_with_slash d)) (e ∙ n.shape)
    ∙ ap (λ k. finish k (ends_with_slash (join n.segments ++ slash_if n.slash)))
        (kept-join n.segments n.slash n.proper)
    ∙ finish-shape n.segments n.slash n.proper n.rooted
    ∙ sym n.shape

-- ===== src/Router/Static/Sources.antt =====
-- crates/buran-router/src/serve_static.rs, serve: the protection of sources.
use buran.Prelude.{
  ℕ, ◌≡◌, refl, Bool, true, false, Option, none, some, [], ◌∷◌, ◌++◌, ◌==◌, Bytes, bytes_eq, any,
  All, arith,
}
use buran.Router.Matching.{RegexEngine, to_ascii_lowercase}
use buran.Router.Http.Response.{from_utf8_lossy}
use buran.Router.Static.{
  behind_last, last_part, is_dot_or_space, trim_dots, split_once, placed, with_index, extension,
  opted_in, is_protected,
}
use buran.Router.Static.Serve.{File, Context, serve, serve_target}

abbrev pub IsDotted : ℕ → Type 0
IsDotted b = is_dot_or_space b ≡ true

abbrev pub IsPlain : ℕ → Type 0
IsPlain b = is_dot_or_space b ≡ false

trim_dots-dotted : (t : Bytes) → All IsDotted t → trim_dots t ≡ []
unfolding trim_dots
trim_dots-dotted [] h = refl
trim_dots-dotted (b ∷ t) (dotted, h) = rw (trim_dots-dotted t h, dotted) refl

trim_dots-plain :
    (b : ℕ) (u t : Bytes) → All IsPlain (b ∷ u) → All IsDotted t → trim_dots (b ∷ (u ++ t)) ≡ b ∷ u
unfolding trim_dots
trim_dots-plain b [] t (plain, k) h = rw (trim_dots-dotted t h, plain) refl
trim_dots-plain b (c ∷ u) t (plain, k) h = rw (trim_dots-plain c u t k h) refl

trim_dots-append :
    (s w : Bytes) (c : ℕ) (cs : Bytes) → trim_dots w ≡ c ∷ cs → trim_dots (s ++ w) ≡ s ++ (c ∷ cs)
unfolding trim_dots
trim_dots-append [] w c cs h = h
trim_dots-append (b ∷ []) w c cs h = rw h refl
trim_dots-append (b ∷ (d ∷ s)) w c cs h = rw (trim_dots-append (d ∷ s) w c cs h) refl

behind_last-plain : (u : Bytes) → All IsPlain u → behind_last b'.' u ≡ none
unfolding behind_last
behind_last-plain [] h = refl
behind_last-plain (b ∷ u) (plain, h) =
    let other : (b == b'.') ≡ false = ground (arith, plain) in
    rw (behind_last-plain u h, other) refl

behind_last-append :
    (s w v : Bytes) → behind_last b'.' w ≡ some v → behind_last b'.' (s ++ w) ≡ some v
unfolding behind_last
behind_last-append [] w v h = h
behind_last-append (b ∷ s) w v h = rw (behind_last-append s w v h) refl

behind_last-dot : (u : Bytes) → All IsPlain u → behind_last b'.' (b'.' ∷ u) ≡ some u
unfolding behind_last
behind_last-dot u h = rw (behind_last-plain u h) refl

extension-plain : (s u : Bytes) → All IsPlain u → extension (s ++ (b'.' ∷ u)) ≡ to_ascii_lowercase u
unfolding extension last_part
extension-plain s u h = rw (behind_last-append s (b'.' ∷ u) u (behind_last-dot u h)) refl

-- A file name with its extension, and what a lax file system drops behind it.
abbrev pub named_file : Bytes → ℕ → Bytes → Bytes → Bytes
named_file stem b u trail = stem ++ (b'.' ∷ b ∷ (u ++ trail))

trim_dots-named_file :
    (stem : Bytes) (b : ℕ) (u trail : Bytes)
    → All IsPlain (b ∷ u)
    → All IsDotted trail
    → trim_dots (named_file stem b u trail) ≡ stem ++ (b'.' ∷ b ∷ u)
unfolding trim_dots
trim_dots-named_file stem b u trail plain dotted =
    trim_dots-append stem (b'.' ∷ b ∷ (u ++ trail)) b'.' (b ∷ u)
      (rw (trim_dots-plain b u trail plain dotted) refl)

module _ (E : RegexEngine) where
  -- A target whose extension is that of a source, in any case and with any dots and spaces behind it,
  -- is not served, whatever the path and the file system are, unless the share opts in to it.
  pub serve-hides :
      (open_file : Bytes → Bytes → Bool → Option File) (ctx : Context E)
      (template index path stem : Bytes) (b : ℕ) (u trail : Bytes)
      → with_index index (placed (from_utf8_lossy path) template (split_once template)).1
        ≡ named_file stem b u trail
      → All IsPlain (b ∷ u)
      → All IsDotted trail
      → any (bytes_eq (to_ascii_lowercase (b ∷ u))) ctx.source_exts ≡ true
      → opted_in ctx.serve_sources (to_ascii_lowercase (b ∷ u)) ≡ false
      → serve E open_file ctx template index path ≡ none
  unfolding serve serve_target is_protected
  serve-hides open_file ctx template index path stem b u trail e plain dotted source closed =
      rw
        (
          e,
          trim_dots-named_file stem b u trail plain dotted,
          extension-plain stem (b ∷ u) plain,
          source,
          closed,
        )
        refl

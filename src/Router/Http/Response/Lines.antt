-- ===== src/Router/Http/Response/Lines.antt =====
-- crates/buran-router/src/http1.rs, dispatch_to_app: a worker cannot add lines to a response head.
use buran.Prelude.{
  ℕ, zero, suc, ◌≡◌, refl, sym, ap, ◌∙◌, Bool, true, false, List, [], ◌∷◌, ◌++◌, map, ◌==◌,
  if◌then◌else◌, Bytes, All, All-append, any, arith, Bool-cases, inl, inr, length, append_assoc,
  take, drop,
}
use buran.Router.Uri.{split}
use buran.Router.Http.Request.{is_control, has_control_byte}
use buran.Router.Http.Response.{
  Extra, filter_lines, keeps_line, forwarded, from_utf8_lossy, lossy_loop, lossy_lines, sequence,
  replacement, framing_header, removed, line_name, strip_return,
}

abbrev Printable : ℕ → Type 0
Printable b = is_control b ≡ false

take-Printable : (n : ℕ) (v : Bytes) → All Printable v → All Printable (take n v)
take-Printable zero v a = tt
take-Printable (suc n) [] a = tt
take-Printable (suc n) (b ∷ v) (p, a) = (p, take-Printable n v a)

drop-Printable : (n : ℕ) (v : Bytes) → All Printable v → All Printable (drop n v)
drop-Printable zero v a = a
drop-Printable (suc n) [] a = tt
drop-Printable (suc n) (b ∷ v) (p, a) = drop-Printable n v a

piece-Printable :
    (valid : Bool) (n : ℕ) (v : Bytes)
    → All Printable v
    → All Printable (if valid then take n v else replacement)
piece-Printable true n v a = take-Printable n v a
piece-Printable false n v a = (refl, (refl, (refl, tt)))

lossy_loop-Printable : (fuel : ℕ) (v : Bytes) → All Printable v → All Printable (lossy_loop fuel v)
unfolding lossy_loop
lossy_loop-Printable zero v a = tt
lossy_loop-Printable (suc fuel) [] a = tt
lossy_loop-Printable (suc fuel) (b ∷ bs) a =
    let v : Bytes = b ∷ bs in
    All-append Printable _ _ (piece-Printable (sequence v).0 (sequence v).1 v a)
      (lossy_loop-Printable fuel (drop (sequence v).1 v) (drop-Printable (sequence v).1 v a))

any-Printable : (v : Bytes) → any is_control v ≡ false → All Printable v
any-Printable [] e = tt
any-Printable (b ∷ v) e = (ground (arith, e), any-Printable v (ground (arith, e)))

Printable-any : (v : Bytes) → All Printable v → any is_control v ≡ false
Printable-any [] a = refl
Printable-any (b ∷ v) (p, a) = rw (p, Printable-any v a) refl

keeps_line-Printable :
    (extra : Extra) (text : Bytes) → keeps_line extra text ≡ true → any is_control text ≡ false
keeps_line-Printable extra text e = ground (arith, e)

-- A line that goes to the client: no control byte, and no header that the router owns or sets.
pub record IsClean (extra : Extra) (text : Bytes) : Type 0 where
  pub printable : has_control_byte (from_utf8_lossy text) ≡ false
  pub unframed : framing_header text ≡ false
  pub not_removed : removed extra (line_name text) ≡ false

keeps_line-IsClean :
    {extra : Extra} {text : Bytes} → keeps_line extra text ≡ true → IsClean extra text
keeps_line-IsClean {extra} {text} kept = record {
  printable =
      unfold has_control_byte in
      unfold from_utf8_lossy in
      Printable-any _ (
        lossy_loop-Printable (length text) text
          (any-Printable text (keeps_line-Printable extra text kept)));
  unframed = ground (arith, kept);
  not_removed = ground (arith, kept);
}

clean_bytes :
    {extra : Extra} {text : Bytes}
    → IsClean extra text
    → any is_control (from_utf8_lossy text) ≡ false
unfolding has_control_byte
clean_bytes clean = clean.printable

filter_lines-IsClean :
    (extra : Extra) (lines : List Bytes)
    → All (IsClean extra) (filter_lines (keeps_line extra) lines)
unfolding filter_lines
filter_lines-IsClean extra [] = tt
filter_lines-IsClean extra (text ∷ lines) =
    elim (Bool-cases (keeps_line extra (strip_return text))) [
      | inl kept ↦ rw kept (keeps_line-IsClean kept, filter_lines-IsClean extra lines)
      | inr dropped ↦ rw dropped (filter_lines-IsClean extra lines)
    ]

split-line :
    (p rest : Bytes)
    → All (λ b. (b == 10) ≡ false) p
    → split 10 (p ++ (10 ∷ rest)) ≡ p ∷ split 10 rest
unfolding split
split-line [] rest a = refl
split-line (b ∷ p) rest (differs, a) = rw (differs, split-line p rest a) refl

no_feed : (v : Bytes) → All Printable v → All (λ b. (b == 10) ≡ false) (v ++ (13 ∷ []))
no_feed [] a = (refl, tt)
no_feed (b ∷ v) (p, a) = (ground (arith, p), no_feed v a)

abbrev pub with_return : Bytes → Bytes
with_return text = from_utf8_lossy text ++ (13 ∷ [])

split-lossy_lines :
    (extra : Extra) (lines : List Bytes)
    → All (IsClean extra) lines
    → split 10 (lossy_lines lines) ≡ map with_return lines ++ ([] ∷ [])
unfolding lossy_lines
split-lossy_lines extra [] a = unfold split in refl
split-lossy_lines extra (text ∷ lines) (clean, a) =
    ap (split 10) (sym (append_assoc (from_utf8_lossy text) (13 ∷ []) (10 ∷ lossy_lines lines)))
    ∙ split-line (with_return text) (lossy_lines lines)
        (no_feed (from_utf8_lossy text) (any-Printable (from_utf8_lossy text) (clean_bytes clean)))
    ∙ ap (◌∷◌ (with_return text)) (split-lossy_lines extra lines a)

-- Whatever block a worker sends, the client finds in it the lines that the router kept and no
-- others; they have no control byte, do not frame the body, and are not overridden or removed.
pub forwarded-IsClean :
    (extra : Extra) (block : Bytes)
    → (split 10 (lossy_lines (forwarded extra block))
        ≡ map with_return (forwarded extra block) ++ ([] ∷ []))
      × All (IsClean extra) (forwarded extra block)
unfolding forwarded
forwarded-IsClean extra block =
    let clean = filter_lines-IsClean extra (split 10 block) in
    (split-lossy_lines extra (filter_lines (keeps_line extra) (split 10 block)) clean, clean)

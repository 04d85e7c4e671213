-- ===== src/Router/Static/Answers.antt =====
-- crates/buran-router/src/serve_static.rs, serve: the length an answer declares and what it sends.
use buran.Prelude.{
  ℕ, zero, suc, ◌+◌, ◌-◌, ◌≡◌, ◌≤◌, ◌<◌, ◌⊎◌, inl, inr, min, refl, sym, ap, ◌∙◌, Bool, true, false,
  Option, none, some, [], ◌∷◌, ◌++◌, append_assoc, ltb, ◌==◌, if◌then◌else◌, Bytes, codes, length,
  take, drop, length-take, length-drop, take_all, arith, subst,
}
use buran.Router.Matching.{RegexEngine}
use buran.Router.Http.Request.{find_header}
use buran.Router.Http.Response.{crlf, line, to_decimal}
use buran.Router.Static.{RangeResult, ignored, unsatisfiable, satisfied}
use buran.Router.Static.Ranges.{Fits, if-Fits, parse_range-Fits}
use buran.Router.Static.Serve.{
  File, Reply, Context, copy, copy_chunk, head_of, body_of, range_of, range_asked, send_file,
  on_range, answer, names_file, etag_of, not_modified, no_such_range, unchanged,
}

take_split : (n r : ℕ) (xs : Bytes) → n ≤ r → take n xs ++ take (r - n) (drop n xs) ≡ take r xs
take_split zero r xs h = ap (λ k. take k xs) (omega arith)
take_split (suc n) zero xs h = elim h [ ]
take_split (suc n) (suc r) [] h = nothing_left (suc r - suc n)
  where
    nothing_left : (k : ℕ) → take k (let e : Bytes = [] in e) ≡ []
    nothing_left zero = refl
    nothing_left (suc k) = refl
take_split (suc n) (suc r) (x ∷ xs) h =
    ap (◌∷◌ x)
      (ap (λ k. take n xs ++ take k (drop n xs)) (omega arith) ∙ take_split n r xs (omega arith))

take_nothing : (n : ℕ) (xs : Bytes) → min n (length xs) ≡ 0 → take n xs ≡ []
take_nothing zero xs h = refl
take_nothing (suc n) [] h = refl
take_nothing (suc n) (x ∷ xs) h = ground (arith, h)

-- The copying loop sends what remains, whatever the size of its chunks.
copy-take :
    (fuel remaining : ℕ) (file : Bytes)
    → remaining ≤ fuel
    → copy fuel remaining file ≡ take remaining file
unfolding copy
copy-take zero zero file h = refl
copy-take zero (suc r) file h = elim h [ ]
copy-take (suc fuel) remaining file h =
    step (min (min remaining copy_chunk) (length file)) refl (copy-take fuel)
  where
    step :
        (n : ℕ)
        → n ≡ min (min remaining copy_chunk) (length file)
        → ((r : ℕ) (bs : Bytes) → r ≤ fuel → copy fuel r bs ≡ take r bs)
        → (if n == 0 then [] else take n file ++ copy fuel (remaining - n) (drop n file))
          ≡ take remaining file
    step zero e ih = sym (take_nothing remaining file (omega (arith, e)))
    step (suc n) e ih =
        let positive : (suc n == 0) ≡ false = ground arith in
        rw positive (
          ap (◌++◌ (take (suc n) file))
            (ih (remaining - suc n) (drop (suc n) file) (omega (arith, h)))
          ∙ take_split (suc n) remaining file (omega (arith, e)))

-- An answer with the head and the bytes of this part of the file.
abbrev pub Declares : ℕ → Bytes → Type 0
Declares n head =
    (before : Bytes) × (after : Bytes) × (head
      ≡ before ++ (line (codes "content-length") (to_decimal n) ++ after))

-- A content-length with this value stands in the head.
abbrev after_part : (n : ℕ) (part rest : Bytes) → Declares n rest → Declares n (part ++ rest)
after_part n part rest (before, after, e) =
    (part ++ before, after, ap (◌++◌ part) e ∙ sym (append_assoc part before _))

-- What is sent of a file: all of it, a part that lies in it, or nothing.
abbrev pub Sends : File → Reply → Type 0
Sends file r =
    ((r.status ≡ 200) × ((r.body ≡ file.contents) × Declares (length r.body) r.head))
    ⊎ (((first : ℕ) × (last : ℕ) × ((r.status ≡ 206)
            × ((first ≤ last)
                × ((last < file.size)
                    × ((r.body ≡ take (last - first + 1) (drop first file.contents))
                        × Declares (length r.body) r.head)))))
        ⊎ ((300 < r.status) × (r.body ≡ [])))

module _ (E : RegexEngine) where
  body_of-take :
      (offset len : ℕ) (file : File)
      → body_of E false offset len file ≡ take len (drop offset file.contents)
  unfolding copy
  body_of-take offset zero file = refl
  body_of-take offset (suc len) file =
      let positive : ltb 0 (suc len) ≡ true = ground arith in
      rw positive (copy-take (suc len) (suc len) (drop offset file.contents) (omega arith))

  head_of-Declares :
      (n : ℕ) (server text mime rest : Bytes)
      → Declares n (
          head_of server text (
            line (codes "content-type") mime
            ++ (line (codes "content-length") (to_decimal n) ++ rest)))
  head_of-Declares n server text mime rest = after_part n (codes "HTTP/1.1 ") _ (
      after_part n text _ (
        after_part n crlf _ (
          after_part n (line (codes "server") server) _
            (after_part n (line (codes "content-type") mime) _ ([], rest, refl)))))

  sent_lem :
      (ctx : Context E) (file : File) (head : Bytes) (offset len : ℕ)
      → ctx.head_only ≡ false
      → offset + len ≤ length file.contents
      → Declares len head
      → (body_of E ctx.head_only offset len file ≡ take len (drop offset file.contents))
        × Declares (length (body_of E ctx.head_only offset len file)) head
  sent_lem ctx file head offset len get inside declared =
      let e = ap (λ b. body_of E b offset len file) get ∙ body_of-take offset len file in
      let n : len ≡ length (body_of E ctx.head_only offset len file) =
        omega (
          arith,
          inside,
          length-take len (drop offset file.contents),
          length-drop offset file.contents,
        )
        ∙ ap length (sym e) in
      (e, subst (λ k. Declares k head) n declared)

  send_file-Sends :
      (ctx : Context E) (mime : Bytes) (file : File)
      → ctx.head_only ≡ false
      → length file.contents ≡ file.size
      → Sends file (send_file E ctx mime file none)
  unfolding send_file
  send_file-Sends ctx mime file get sized =
      let (e, declared) =
        sent_lem ctx file _ 0 file.size get (omega (arith, sized))
          (head_of-Declares file.size ctx.server (codes "200 OK") mime _) in
      inl (refl, (e ∙ take_all file.contents file.size (omega (arith, sized)), declared))

  send_range-Sends :
      (ctx : Context E) (mime : Bytes) (file : File) (first last : ℕ)
      → ctx.head_only ≡ false
      → length file.contents ≡ file.size
      → first ≤ last
      → last < file.size
      → Sends file (send_file E ctx mime file (some (first, last)))
  unfolding send_file
  send_range-Sends ctx mime file first last get sized ordered inside =
      let (e, declared) =
        sent_lem ctx file _ first (last - first + 1) get (omega (arith, sized, ordered, inside))
          (head_of-Declares (last - first + 1) ctx.server (codes "206 Partial Content") mime _) in
      inr (inl (first, last, (refl, (ordered, (inside, (e, declared))))))

  on_range-Sends :
      (ctx : Context E) (mime : Bytes) (file : File) (r : RangeResult)
      → ctx.head_only ≡ false
      → length file.contents ≡ file.size
      → Fits file.size r
      → Sends file (on_range E ctx mime file r)
  unfolding no_such_range
  on_range-Sends ctx mime file ignored get sized fits = send_file-Sends ctx mime file get sized
  on_range-Sends ctx mime file unsatisfiable get sized fits = inr (inr (omega arith, refl))
  on_range-Sends ctx mime file (satisfied first last) get sized (ordered, inside) =
      send_range-Sends ctx mime file first last get sized ordered inside

  range_of-Fits : (ctx : Context E) (file : File) → Fits file.size (range_of E ctx file)
  unfolding range_of
  range_of-Fits ctx file =
      if-Fits file.size
        (names_file E (etag_of file) (find_header (codes "if-range") ctx.req_headers)) _ _
        (asked (find_header (codes "range") ctx.req_headers)) tt
    where
      asked : (header : Option Bytes) → Fits file.size (range_asked E file.size header)
      asked (some header) = parse_range-Fits header file.size
      asked none = tt

  if-Sends :
      (file : File) (test : Bool) (r s : Reply)
      → Sends file r
      → Sends file s
      → Sends file (if test then r else s)
  if-Sends file true r s first second = first
  if-Sends file false r s first second = second

  -- An answer to a request that is not for the head only, on a file whose reads bring the reported
  -- size, sends all of the file, a range of bytes that lies in it, or nothing; what is sent of a file
  -- has exactly the declared length.
  pub answer-Sends :
      (ctx : Context E) (uri mime : Bytes) (file : File)
      → ctx.head_only ≡ false
      → length file.contents ≡ file.size
      → Sends file (answer E ctx uri mime file)
  unfolding answer unchanged
  answer-Sends ctx uri mime file get sized =
      if-Sends file file.is_dir _ _ (inr (inr (omega arith, refl))) (
        if-Sends file (not_modified E ctx file) _ _ (inr (inr (omega arith, refl)))
          (on_range-Sends ctx mime file (range_of E ctx file) get sized (range_of-Fits ctx file)))

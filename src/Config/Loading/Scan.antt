-- ===== src/Config/Loading/Scan.antt =====
-- crates/buran-config/src/lib.rs, reject_anchors: the scan of a line finds its anchors, and no others.
use buran.Prelude.{
  ℕ, ◌≡◌, ◌≢◌, ◌==◌, refl, sym, ap, ◌∙◌, true, false, [], ◌∷◌, ◌++◌, Bool-cases, inl, inr, arith,
  codes,
}
use buran.Router.Matching.{starts_with}
use buran.Config.Loading.{
  Text, Quotes, no_quotes, quote_step, is_anchor, has_anchor, code_of, is_whitespace, at_node,
  is_comment, before_comment,
}
use buran.Config.Loading.Marks.{
  Quoting, outside, single, double, quote, quoting, IsMark, StartsNode, last_of, first_visible,
  is_hash, opens_comment, HasNoComment, AnchorOf, IsFree,
}

-- The quotes that the code has open behind a text.
abbrev quotes_behind : Quotes → Text → Quotes
quotes_behind q [] = q
quotes_behind q (c ∷ cs) = quotes_behind (quote_step q c) cs

-- An anchor by the tests of the code.
record AnchorIn (q : Quotes) (prev : ℕ) (code : Text) : Type 0 where
  pub front : Text
  pub mark : ℕ
  pub back : Text
  pub place : code ≡ front ++ (mark ∷ back)
  pub opens : is_anchor (quotes_behind q front) (last_of prev front) mark ≡ true

has_anchor-AnchorIn :
    (q : Quotes) (prev : ℕ) (code : Text) → has_anchor q prev code ≡ true → AnchorIn q prev code
unfolding has_anchor
has_anchor-AnchorIn q prev [] e = cc e
has_anchor-AnchorIn q prev (c ∷ cs) e = elim (Bool-cases (is_anchor q prev c)) [
  | inl here ↦ record { front = []; mark = c; back = cs; place = refl; opens = here }
  | inr later ↦
      let a = has_anchor-AnchorIn (quote_step q c) c cs (rw later at e) in
      record {
        front = c ∷ a.front;
        mark = a.mark;
        back = a.back;
        place = ap (◌∷◌ c) a.place;
        opens = a.opens;
      }
]

has_anchor-append :
    (q : Quotes) (prev : ℕ) (front : Text) (mark : ℕ) (back : Text)
    → is_anchor (quotes_behind q front) (last_of prev front) mark ≡ true
    → has_anchor q prev (front ++ (mark ∷ back)) ≡ true
unfolding has_anchor
has_anchor-append q prev [] mark back opens = rw opens refl
has_anchor-append q prev (c ∷ front) mark back opens =
    let later = has_anchor-append (quote_step q c) c front mark back opens in
    elim (Bool-cases (is_anchor q prev c)) [ inl e ↦ rw e refl | inr e ↦ rw (e, later) refl ]

is_anchor→ :
    (q : Quotes) (prev c : ℕ)
    → is_anchor q prev c ≡ true
    → IsMark c × (StartsNode prev × ((q.in_single ≡ false) × (q.in_double ≡ false)))
unfolding is_anchor at_node
is_anchor→ q prev c e = ground arith

→is_anchor :
    (q : Quotes) (prev c : ℕ)
    → IsMark c
    → StartsNode prev
    → q.in_single ≡ false
    → q.in_double ≡ false
    → is_anchor q prev c ≡ true
unfolding is_anchor at_node
→is_anchor q prev c m n s d = ground arith

abbrev as_quotes : Quoting → Quotes
as_quotes outside = no_quotes
as_quotes single = record { in_single = true; in_double = false }
as_quotes double = record { in_single = false; in_double = true }

quote_step-as_quotes : (k : Quoting) (c : ℕ) → quote_step (as_quotes k) c ≡ as_quotes (quote k c)
quote_step-as_quotes outside c = ground arith
quote_step-as_quotes single c = ground arith
quote_step-as_quotes double c = ground arith

quotes_behind-as_quotes :
    (k : Quoting) (t : Text) → quotes_behind (as_quotes k) t ≡ as_quotes (quoting k t)
quotes_behind-as_quotes k [] = refl
quotes_behind-as_quotes k (c ∷ cs) =
    ap (λ q. quotes_behind q cs) (quote_step-as_quotes k c) ∙ quotes_behind-as_quotes (quote k c) cs

closed→outside :
    (k : Quoting)
    → Quotes.in_single (as_quotes k) ≡ false
    → Quotes.in_double (as_quotes k) ≡ false
    → k ≡ outside
closed→outside outside s d = refl
closed→outside single s d = absurd (cc s)
closed→outside double s d = absurd (cc d)

mark-visible : (c : ℕ) → IsMark c → (is_whitespace c ≡ false) × ((c == b'#') ≡ false)
unfolding is_whitespace
mark-visible c m = ground arith

is_comment-front :
    (front : Text) (mark : ℕ) (rest : Text)
    → IsMark mark
    → is_comment (front ++ (mark ∷ rest)) ≡ is_hash (first_visible front)
unfolding is_comment
is_comment-front [] mark rest m = let (shown, plain) = mark-visible mark m in rw (shown, plain) refl
is_comment-front (c ∷ cs) mark rest m = elim (Bool-cases (is_whitespace c)) [
  | inl blank ↦ rw blank (is_comment-front cs mark rest m)
  | inr shown ↦ rw shown refl
]

starts_with-mark :
    (c mark : ℕ) (front rest : Text)
    → IsMark mark
    → starts_with (codes " #") (c ∷ (front ++ (mark ∷ rest))) ≡ opens_comment c front
unfolding starts_with
starts_with-mark c mark [] rest m = ground arith
starts_with-mark c mark (d ∷ ds) rest m = ground arith

starts_with-nothing :
    (mark : ℕ) (rest : Text) → IsMark mark → starts_with (codes " #") (mark ∷ rest) ≡ false
unfolding starts_with
starts_with-nothing mark rest m = ground arith

before_comment-front :
    (front : Text) (mark : ℕ) (rest : Text)
    → IsMark mark
    → HasNoComment front
    → before_comment (front ++ (mark ∷ rest)) ≡ front ++ (mark ∷ before_comment rest)
unfolding before_comment
before_comment-front [] mark rest m n = rw (starts_with-nothing mark rest m) refl
before_comment-front (c ∷ cs) mark rest m (here, n) =
    rw (starts_with-mark c mark cs rest m ∙ here)
      (ap (◌∷◌ c) (before_comment-front cs mark rest m n))

-- What stands in front of a mark of the code, in the line.
before_comment→ :
    (line front : Text) (mark : ℕ) (back : Text)
    → IsMark mark
    → before_comment line ≡ front ++ (mark ∷ back)
    → (rest : Text) × (line ≡ front ++ (mark ∷ rest)) × HasNoComment front
unfolding before_comment
before_comment→ [] [] mark back m e = absurd (cc e)
before_comment→ [] (c ∷ front) mark back m e = absurd (cc e)
before_comment→ (d ∷ ds) [] mark back m e = elim (Bool-cases (starts_with (codes " #") (d ∷ ds))) [
  | inl opens ↦ absurd (cc (rw opens at e))
  | inr goes_on ↦
      let e' : d ∷ before_comment ds ≡ mark ∷ back = rw goes_on at e in
      (ds, ap (λ x. x ∷ ds) (cc e'), tt)
]
before_comment→ (d ∷ ds) (c ∷ front) mark back m e =
    elim (Bool-cases (starts_with (codes " #") (d ∷ ds))) [
      | inl opens ↦ absurd (cc (rw opens at e))
      | inr goes_on ↦
          let e' : d ∷ before_comment ds ≡ c ∷ (front ++ (mark ∷ back)) = rw goes_on at e in
          let (rest, p, n) = before_comment→ ds front mark back m (cc e') in
          let whole : d ∷ ds ≡ c ∷ (front ++ (mark ∷ rest)) = cc (e', p) in
          (
            rest,
            whole,
            (
              sym (starts_with-mark c mark front rest m)
                  ∙ ap (starts_with (codes " #")) (sym whole)
                  ∙ goes_on,
              n,
            ),
          )
    ]

not_empty : (front : Text) (mark : ℕ) (back : Text) → [] ≢ front ++ (mark ∷ back)
not_empty [] mark back e = cc e
not_empty (c ∷ front) mark back e = cc e

code_of→ :
    (line front : Text) (mark : ℕ) (back : Text)
    → IsMark mark
    → code_of line ≡ front ++ (mark ∷ back)
    → (rest : Text) × (line ≡ front ++ (mark ∷ rest))
      × HasNoComment front
      × (is_hash (first_visible front) ≡ false)
unfolding code_of
code_of→ line front mark back m e = elim (Bool-cases (is_comment line)) [
  | inl comment ↦ absurd (not_empty front mark back (rw comment at e))
  | inr code ↦
      let (rest, p, n) = before_comment→ line front mark back m (rw code at e) in
      (rest, p, n, sym (is_comment-front front mark rest m) ∙ ap is_comment (sym p) ∙ code)
]

code_of-front :
    (front : Text) (mark : ℕ) (rest : Text)
    → IsMark mark
    → HasNoComment front
    → is_hash (first_visible front) ≡ false
    → code_of (front ++ (mark ∷ rest)) ≡ front ++ (mark ∷ before_comment rest)
unfolding code_of
code_of-front front mark rest m n v =
    rw (is_comment-front front mark rest m ∙ v) (before_comment-front front mark rest m n)

pub has_anchor-AnchorOf :
    (line : Text) → has_anchor no_quotes b' ' (code_of line) ≡ true → AnchorOf line
has_anchor-AnchorOf line e =
    let a = has_anchor-AnchorIn no_quotes b' ' (code_of line) e in
    let (m, (n, (s, d))) =
      is_anchor→ (quotes_behind no_quotes a.front) (last_of b' ' a.front) a.mark a.opens in
    let (rest, p, part, visible) = code_of→ line a.front a.mark a.back m a.place in
    let behind = quotes_behind-as_quotes outside a.front in
    record {
      front = a.front;
      mark = a.mark;
      back = rest;
      place = p;
      marks = m;
      node = n;
      unquoted =
          closed→outside (quoting outside a.front) (ap Quotes.in_single (sym behind) ∙ s)
            (ap Quotes.in_double (sym behind) ∙ d);
      code_line = visible;
      code_part = part;
    }

has_anchor_complete :
    (line : Text) → AnchorOf line → has_anchor no_quotes b' ' (code_of line) ≡ true
has_anchor_complete line a =
    let behind = quotes_behind-as_quotes outside a.front ∙ ap as_quotes a.unquoted in
    let code = code_of-front a.front a.mark a.back a.marks a.code_part a.code_line in
    ap (λ l. has_anchor no_quotes b' ' (code_of l)) a.place
    ∙ ap (has_anchor no_quotes b' ') code
    ∙ has_anchor-append no_quotes b' ' a.front a.mark (before_comment a.back) (
        →is_anchor (quotes_behind no_quotes a.front) (last_of b' ' a.front) a.mark a.marks a.node
          (ap Quotes.in_single behind) (ap Quotes.in_double behind))

pub has_anchor-IsFree :
    (line : Text) → has_anchor no_quotes b' ' (code_of line) ≡ false → IsFree line
has_anchor-IsFree line e a = cc (has_anchor_complete line a, e)

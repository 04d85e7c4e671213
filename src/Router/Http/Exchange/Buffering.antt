-- ===== src/Router/Http/Exchange/Buffering.antt =====
-- crates/buran-router/src/http1.rs, dispatch_to_app: what the router keeps of a response before it
-- writes the head.
use buran.Prelude.{
  ◌≡◌, refl, sym, ap, ◌∙◌, true, false, Option, none, some, List, [], ◌∷◌, ◌++◌, ltb, Bytes, length,
  append_assoc, append-nil, Bool-cases, inl, inr, subst,
}
use buran.Router.Dispatch.{WorkerEvent, headers, chunk, flush, ws, «end», failed}
use buran.Router.Http.Exchange.{
  Happening, Ending, Buffered, event, hung_up, expired, buffer_loop, buffer_ends, stream_threshold,
  complete, broken, stalled, gone, flushed, full, waiting,
}

abbrev pub before_rest : Bytes → Option Bytes → Option Bytes
before_rest bytes (some rest) = some (bytes ++ rest)
before_rest bytes none = none

-- The body that a worker sends before it ends its response; none if it does not end it.
unfoldable pub says : List Happening → Option Bytes
says [] = none
says (hung_up ∷ later) = none
says (expired ∷ later) = none
says (event e ∷ later) = elim e [
  | headers status block ↦ says later
  | chunk bytes ↦ before_rest bytes (says later)
  | flush ↦ says later
  | ws opcode payload ↦ says later
  | «end» ↦ some []
  | failed error ↦ none
]

pub before_rest-some :
    (bytes p : Bytes) (o : Option Bytes)
    → before_rest bytes o ≡ some p
    → (q : Bytes) × ((o ≡ some q) × (bytes ++ q ≡ p))
before_rest-some bytes p none e = cc e
before_rest-some bytes p (some q) e = (q, (refl, cc e))

-- Behind buffering, the buffer and what is still to come make up the body.
abbrev Splits : Bytes → Buffered → Ending → Type 0
Splits all b complete = b.bytes ≡ all
Splits all b flushed = (q : Bytes) × ((says b.later ≡ some q) × (b.bytes ++ q ≡ all))
Splits all b full = (q : Bytes) × ((says b.later ≡ some q) × (b.bytes ++ q ≡ all))
Splits all b broken = false ≡ true
Splits all b stalled = false ≡ true
Splits all b gone = false ≡ true
Splits all b waiting = false ≡ true

abbrev pub IsSplit : Bytes → Buffered → Type 0
IsSplit all b = Splits all b b.ending

buffer_loop-full :
    (buf : Bytes) (h : Happening) (later : List Happening)
    → ltb stream_threshold (length buf) ≡ true
    → buffer_loop buf (h ∷ later) ≡ buffer_ends buf full (h ∷ later)
unfolding buffer_loop
buffer_loop-full buf h later e = rw (e, buffer_loop) refl

buffer_loop-event :
    (buf : Bytes) (e : WorkerEvent) (later : List Happening)
    → ltb stream_threshold (length buf) ≡ false
    → buffer_loop buf (event e ∷ later) ≡ (elim e [
      | headers status block ↦ buffer_loop buf later
      | chunk bytes ↦ buffer_loop (buf ++ bytes) later
      | flush ↦ buffer_ends buf flushed later
      | ws opcode payload ↦ buffer_loop buf later
      | «end» ↦ buffer_ends buf complete later
      | failed error ↦ buffer_ends buf broken later
    ])
unfolding buffer_loop
buffer_loop-event buf e later room = rw (room, buffer_loop) refl

on_event-IsSplit :
    (buf p : Bytes) (e : WorkerEvent) (later : List Happening)
    → ((longer q : Bytes) → says later ≡ some q → IsSplit (longer ++ q) (buffer_loop longer later))
    → says (event e ∷ later) ≡ some p
    → IsSplit (buf ++ p) (elim e [
      | headers status block ↦ buffer_loop buf later
      | chunk bytes ↦ buffer_loop (buf ++ bytes) later
      | flush ↦ buffer_ends buf flushed later
      | ws opcode payload ↦ buffer_loop buf later
      | «end» ↦ buffer_ends buf complete later
      | failed error ↦ buffer_ends buf broken later
    ])
unfolding says
on_event-IsSplit buf p (headers status block) later ih s = ih buf p s
on_event-IsSplit buf p (chunk bytes) later ih s =
    let (q, (rest, whole)) = before_rest-some bytes p _ s in
    subst (λ x. IsSplit x (buffer_loop (buf ++ bytes) later))
      (append_assoc buf bytes q ∙ ap (λ x. buf ++ x) whole) (ih (buf ++ bytes) q rest)
on_event-IsSplit buf p flush later ih s = (p, (s, refl))
on_event-IsSplit buf p (ws opcode payload) later ih s = ih buf p s
on_event-IsSplit buf p «end» later ih s =
    sym (append-nil buf) ∙ ap (λ x. buf ++ x) (let e : [] ≡ p = cc s in e)
on_event-IsSplit buf p (failed error) later ih s = cc s

pub buffer_loop-IsSplit :
    (hs : List Happening) (buf p : Bytes)
    → says hs ≡ some p
    → IsSplit (buf ++ p) (buffer_loop buf hs)
buffer_loop-IsSplit [] buf p s = unfold says in cc s
buffer_loop-IsSplit (hung_up ∷ later) buf p s = unfold says in cc s
buffer_loop-IsSplit (expired ∷ later) buf p s = unfold says in cc s
buffer_loop-IsSplit (event e ∷ later) buf p s =
    elim (Bool-cases (ltb stream_threshold (length buf))) [
      | inl passed ↦
          subst (IsSplit (buf ++ p)) (sym (buffer_loop-full buf (event e) later passed))
            (p, (s, refl))
      | inr room ↦
          subst (IsSplit (buf ++ p)) (sym (buffer_loop-event buf e later room))
            (on_event-IsSplit buf p e later (λ longer q r. buffer_loop-IsSplit later longer q r) s)
    ]

-- ===== src/Router/Ws/Bounds.antt =====
-- What `next` lets through: the size limits, UTF-8 for texts, and the state of the fragments.
use buran.Prelude.{
  ℕ, zero, suc, ◌+◌, ◌≤◌, ◌<◌, ◌≡◌, refl, subst, true, Option, none, some, [], arith, Bytes, length,
  length-append, length-take, take, drop,
}
use buran.Router.Ws.{
  Frame, Length, short_buffer, known, Result, ok, err, parse_frame, frame_body, frame_length,
  Decoder, Next, Step, again, return, on_frame, Round, go_on, stop, after_frame, after_parse, round,
  next_loop, next, Message, text, binary, close, ping, pong, finish_message, new,
}
use buran.Router.Ws.Utf8.{is_utf8}
use buran.Router.Ws.Unmask.{length-unmask}

-- The fragments kept so far fit the limit, and there are none between messages.
pub record IsSound (d : Decoder) : Type 0 where
  pub fits : length d.frag ≤ d.max_message
  pub idle : d.frag_opcode ≡ none → d.frag ≡ []

-- A message within the limits: texts and binaries by the configured size, control messages by
-- 125 bytes; a text is well-formed UTF-8.
abbrev pub MessageWithin : ℕ → Message → Type 0
MessageWithin limit (text p) = (length p ≤ limit) × (is_utf8 p ≡ true)
MessageWithin limit (binary p) = length p ≤ limit
MessageWithin limit (close p) = length p ≤ 125
MessageWithin limit (ping p) = length p ≤ 125
MessageWithin limit (pong p) = length p ≤ 125

abbrev FrameWithin : ℕ → Frame → Type 0
FrameWithin limit f =
    (8 ≤ f.opcode → length f.payload ≤ 125) × (f.opcode < 8 → length f.payload ≤ limit)

frame_body-FrameWithin :
    (p : Bytes) (limit header n : ℕ) {f : Frame} {rest : Bytes}
    → frame_body p limit (known header n) ≡ ok (some (f, rest))
    → FrameWithin limit f
unfolding frame_body
frame_body-FrameWithin p limit header n {f} e = ground (
  arith,
  length-unmask (take 4 (drop header p)) 0 (take n (drop (header + 4) p)),
  length-take n (drop (header + 4) p),
)

parse_frame-FrameWithin :
    (p : Bytes) (limit : ℕ) {f : Frame} {rest : Bytes}
    → parse_frame p limit ≡ ok (some (f, rest))
    → FrameWithin limit f
unfolding parse_frame
parse_frame-FrameWithin p limit {f} {rest} e = go (frame_length p) refl
  where
    go : (l : Length) → frame_length p ≡ l → FrameWithin limit f
    go short_buffer h = absurd (unfold frame_body in ground arith)
    go (known header n) h =
        frame_body-FrameWithin p limit header n {f = f} {rest = rest} (ground arith)

abbrev ResultWithin : ℕ → Result Message → Type 0
ResultWithin limit (ok m) = MessageWithin limit m
ResultWithin limit (err e) = Unit

abbrev SoundFor : ℕ → Decoder → Type 0
SoundFor limit d = (d.max_message ≡ limit) × IsSound d

abbrev StepSound : ℕ → Step → Type 0
StepSound limit (again d) = SoundFor limit d
StepSound limit (return d r) = SoundFor limit d × ResultWithin limit r

finish_message-ResultWithin :
    (limit opcode : ℕ) (p : Bytes) → length p ≤ limit → ResultWithin limit (finish_message opcode p)
unfolding finish_message
finish_message-ResultWithin limit opcode p h = ground arith

on_frame-MessageWithin :
    (d : Decoder) (f : Frame) {d' : Decoder} (m : Message)
    → FrameWithin d.max_message f
    → on_frame d f ≡ return d' (ok m)
    → MessageWithin d.max_message m
unfolding on_frame
on_frame-MessageWithin d f (text p) (c, l) e = ground (arith, length-append d.frag f.payload)
on_frame-MessageWithin d f _ (c, l) e = ground (arith, length-append d.frag f.payload)

on_frame-StepSound :
    (limit : ℕ) (d : Decoder) (f : Frame)
    → SoundFor limit d
    → FrameWithin limit f
    → StepSound limit (on_frame d f)
unfolding on_frame
on_frame-StepSound limit d f (m, s) w = go (on_frame d f) refl
  where
    go : (t : Step) → on_frame d f ≡ t → StepSound limit t
    go (again d') e = (
      ground arith,
      record { fits = ground (arith, length-append d.frag f.payload); idle = ground arith },
    )
    go (return d' (err x)) e = (
      (ground arith, record { fits = ground (arith, s.fits); idle = ground (arith, s.idle) }),
      tt,
    )
    go (return d' (ok x)) e = (
      (ground arith, record { fits = ground arith; idle = ground arith }),
      subst (λ k. MessageWithin k x) m (on_frame-MessageWithin d f x (rw m w) e),
    )

abbrev NextSound : ℕ → Next → Type 0
NextSound limit n =
    SoundFor limit n.decoder × ((m : Message) → n.result ≡ ok (some m) → MessageWithin limit m)

abbrev RoundSound : ℕ → Round → Type 0
RoundSound limit (go_on d rest) = SoundFor limit d
RoundSound limit (stop n) = NextSound limit n

after_frame-RoundSound :
    (limit : ℕ) (t : Step) (rest : Bytes)
    → StepSound limit t
    → RoundSound limit (after_frame t rest)
unfolding after_frame
after_frame-RoundSound limit (again d) rest h = h
after_frame-RoundSound limit (return d (err e)) rest h = (h.0, λ m p. cc)
after_frame-RoundSound limit (return d (ok x)) rest h =
    (h.0, λ m p. subst (MessageWithin limit) (ground arith) h.1)

round-RoundSound :
    (limit : ℕ) (d : Decoder) (buf : Bytes) → SoundFor limit d → RoundSound limit (round d buf)
unfolding round
round-RoundSound limit d buf s = go (parse_frame buf d.max_message) refl
  where
    go :
        (r : Result (Option (Frame × Bytes)))
        → parse_frame buf d.max_message ≡ r
        → RoundSound limit (after_parse d buf r)
    go (err e) h = unfold after_parse in (s, λ m p. cc)
    go (ok none) h = unfold after_parse in (s, λ m p. cc)
    go (ok (some (f, rest))) h =
        unfold after_parse in
        after_frame-RoundSound limit (on_frame d f) rest (
          on_frame-StepSound limit d f s
            (rw s.0 at (parse_frame-FrameWithin buf d.max_message {f = f} {rest = rest} h)))

some_next-injective : {m n : Next} → some m ≡ some n → m ≡ n
some_next-injective e = cc

next_loop-NextSound :
    (fuel limit : ℕ) (d : Decoder) (buf : Bytes) {n : Next}
    → SoundFor limit d
    → next_loop fuel d buf ≡ some n
    → NextSound limit n
unfolding next_loop
next_loop-NextSound zero limit d buf s e = absurd (ground arith)
next_loop-NextSound (suc fuel) limit d buf {n} s e =
    go (round d buf) refl (round-RoundSound limit d buf s)
      (λ d' rest s' e'. next_loop-NextSound fuel limit d' rest {n = n} s' e')
  where
    go :
        (r : Round)
        → round d buf ≡ r
        → RoundSound limit r
        → ((d' : Decoder) (rest : Bytes)
            → SoundFor limit d'
            → next_loop fuel d' rest ≡ some n
            → NextSound limit n)
        → NextSound limit n
    go (go_on d' rest) h sound ih = ih d' rest sound (rw (h, next_loop) at e)
    go (stop m) h sound ih =
        subst (NextSound limit) (some_next-injective (rw (h, next_loop) at e)) sound

-- From a sound decoder, whatever the buffer holds, `next` keeps the decoder sound and its limit,
-- and a message that it returns is within the limits; a text is well-formed UTF-8.
pub next-MessageWithin :
    (d : Decoder) (buf : Bytes) (n : Next)
    → IsSound d
    → next d buf ≡ some n
    → (n.decoder.max_message ≡ d.max_message)
      × IsSound n.decoder
      × ((m : Message) → n.result ≡ ok (some m) → MessageWithin d.max_message m)
unfolding next
next-MessageWithin d buf n s e =
    let (sound, within) = next_loop-NextSound (suc (length buf)) d.max_message d buf (refl, s) e in
    (sound.0, sound.1, within)

pub new-IsSound : (limit : ℕ) → IsSound (new limit)
new-IsSound limit = record { fits = omega arith; idle = λ e. refl }

-- ===== src/Router/Dispatch/Handshake/Welcome.antt =====
-- crates/buran-router/src/dispatch.rs, handshake: the frame of a worker of this version is read and
-- accepted.
use buran.Prelude.{
  ℕ, ◌^◌, ◌≤◌, ◌<◌, ◌≡◌, refl, sym, ap, ◌∙◌, inr, ◌∷◌, min, ◌==◌, if◌then◌else◌, true, false, some,
  [], ◌++◌, arith, Bytes, length, take, drop, length-append, take-append, drop-append, ltb,
  append_assoc, append-nil,
}
use buran.Ipc.Error.{ok, bwp_version}
use buran.Ipc.Frame
use buran.Ipc.Frame.{FrameHeader, frame_header_len}
use buran.Ipc.Frame.Codec
use buran.Ipc.Hello
use buran.Ipc.Hello.Codec as HelloCodec
use buran.Ipc.Hello.{Hello}
use buran.Router.Dispatch
use buran.Router.Dispatch.{Pool}
use buran.Router.Dispatch.Handshake.{
  got, read_frame, payload_of, effective_concurrency, seed, Handshake, on_hello, handshake,
  is_hello, max_frame_payload,
}

-- The worker's side of a handshake: its `Hello` frame on the stream.
abbrev pub hello_bytes : Hello → Bytes
hello_bytes hello =
    Frame.encode (Frame.new Frame.hello 0 Hello.hello_payload_len) ++ Hello.encode hello

take-encode :
    (h : FrameHeader) (x : Bytes) → take frame_header_len (Frame.encode h ++ x) ≡ Frame.encode h
unfolding Frame.encode
take-encode h x = refl

drop-encode : (h : FrameHeader) (x : Bytes) → drop frame_header_len (Frame.encode h ++ x) ≡ x
unfolding Frame.encode
drop-encode h x = refl

long_enough :
    (h : FrameHeader) (x : Bytes) → ltb (length (Frame.encode h ++ x)) frame_header_len ≡ false
unfolding Frame.encode
long_enough h x = ground arith

payload_of-whole :
    (h : FrameHeader) (payload rest : Bytes)
    → h.payload_len ≡ length payload
    → length payload ≤ max_frame_payload
    → payload_of h (payload ++ rest) ≡ got h payload rest
payload_of-whole h payload rest n m =
    let small : ltb max_frame_payload (length payload) ≡ false = ground (arith, m) in
    let enough : ltb (length (payload ++ rest)) (length payload) ≡ false =
      ground (arith, length-append payload rest) in
    rw (n, small, enough, take-append payload rest, drop-append payload rest) refl

-- A frame on the stream, within the limit, is read with its payload, and what follows it stays.
pub read_frame-encode :
    (h : FrameHeader) (payload rest : Bytes)
    → h.flags < 256
    → h.request_id < 2 ^ 32
    → h.aux < 2 ^ 32
    → h.payload_len ≡ length payload
    → length payload ≤ max_frame_payload
    → read_frame (Frame.encode h ++ (payload ++ rest)) ≡ got h payload rest
unfolding read_frame
read_frame-encode h payload rest f i a n m =
    let decoded : Frame.decode (Frame.encode h) ≡ ok h =
      Codec.decode-encode_header h f i (omega (arith, n, m)) a in
    rw
      (
        long_enough h (payload ++ rest),
        take-encode h (payload ++ rest),
        drop-encode h (payload ++ rest),
        decoded,
      )
      (payload_of-whole h payload rest n m)

length-encode_hello : (hello : Hello) → length (Hello.encode hello) ≡ Hello.hello_payload_len
unfolding Hello.encode
length-encode_hello hello = refl

read_frame-hello_bytes :
    (hello : Hello) (rest : Bytes)
    → read_frame (hello_bytes hello ++ rest)
      ≡ got (Frame.new Frame.hello 0 Hello.hello_payload_len) (Hello.encode hello) rest
read_frame-hello_bytes hello rest =
    ap read_frame (
      append_assoc (Frame.encode (Frame.new Frame.hello 0 Hello.hello_payload_len))
        (Hello.encode hello) rest)
    ∙ read_frame-encode (Frame.new Frame.hello 0 Hello.hello_payload_len) (Hello.encode hello) rest
        (omega arith) (omega arith) (omega arith) (sym (length-encode_hello hello))
        (omega (arith, length-encode_hello hello))

-- What a worker declares: 0 stands for no limit.
abbrev pub declared_by : Hello → ℕ
declared_by hello = if hello.concurrency == 0 then 4294967295 else hello.concurrency

-- The lesser of what the worker declares and the cap of the pool; 1024 where neither is a limit.
abbrev pub granted_to : Hello → Pool → ℕ
granted_to hello p =
    if min (declared_by hello) p.concurrency_cap == 4294967295
    then 1024
    else min (declared_by hello) p.concurrency_cap

-- The worker is accepted: the pool has its grant and its capabilities, and one frame is sent, a
-- `HelloAck` with the grant.
abbrev pub welcomed : ℕ → ℕ → Hello → Pool → Handshake
welcomed w token hello p =
    let ack = Hello.encode_ack (record { version = 1; concurrency = granted_to hello p }) in
    record {
      pool = record p { granted = granted_to hello p; caps = hello.capabilities };
      outcome =
          inr (record { token = token; granted = granted_to hello p; kill_requested = false });
      effects =
          Dispatch.send_frame w (Frame.new Frame.hello_ack 0 Hello.hello_ack_payload_len) ack ∷ [];
    }

module _ (w token : ℕ) (hello : Hello) (p : Pool) where
  on_hello-fresh :
      hello.version ≡ bwp_version
      → p.granted ≡ 0
      → on_hello w token true p (ok hello) ≡ welcomed w token hello p
  unfolding on_hello seed effective_concurrency Hello.encode_ack
  on_hello-fresh v g = rw (v, g) refl

  handshake-got :
      (h : FrameHeader) (payload rest : Bytes)
      → is_hello h.kind ≡ true
      → handshake w token true (some (got h payload rest)) p
        ≡ on_hello w token true p (Hello.decode payload)
  unfolding handshake
  handshake-got h payload rest e = rw e refl

-- A pool that no worker has joined yet reads the `Hello` frame that a worker of this version sends
-- and accepts the worker if the answer can be written: it takes over the worker's capabilities and,
-- as its grant and that of the worker, the lesser of the declared concurrency and the cap, or 1024
-- where neither is a limit; and it answers with one `HelloAck` frame that tells the grant.
pub handshake-hello_bytes :
    (w token : ℕ) (hello : Hello) (rest : Bytes) (p : Pool)
    → HelloCodec.Fits hello
    → hello.version ≡ bwp_version
    → p.granted ≡ 0
    → handshake w token true (some (read_frame (hello_bytes hello ++ rest))) p
      ≡ welcomed w token hello p
handshake-hello_bytes w token hello rest p fits v g =
    let decoded : Hello.decode (Hello.encode hello) ≡ ok hello =
      ap Hello.decode (sym (append-nil (Hello.encode hello)))
      ∙ HelloCodec.decode-encode_hello hello [] fits in
    ap (λ r. handshake w token true (some r) p) (read_frame-hello_bytes hello rest)
    ∙ handshake-got w token hello p (Frame.new Frame.hello 0 Hello.hello_payload_len)
        (Hello.encode hello) rest refl
    ∙ ap (on_hello w token true p) decoded
    ∙ on_hello-fresh w token hello p v g

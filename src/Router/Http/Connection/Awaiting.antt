-- ===== src/Router/Http/Connection/Awaiting.antt =====
-- crates/buran-router/src/http1.rs, serve_connection: the reads up to the end of a head.
use buran.Prelude.{
  ℕ, zero, suc, ◌<◌, ◌≤◌, ◌≡◌, refl, ap, ◌∙◌, some, Option-cases, inl, inr, [], ◌∷◌, ◌++◌, Bytes,
  length, length-append, append_assoc, arith, subst, Bool-cases, ltb,
}
use buran.Router.Http.Request.{find_headers_end, max_header_bytes}
use buran.Router.Http.Body.{Socket, ReadResult, read, got, timed_out, io_error, awaiting}
use buran.Router.Http.Body.Exact.{stream, got_bytes, read-stream}
use buran.Router.Http.Body.Heads.{find_headers_end-length, read_head-found, read_head-end}
use buran.Router.Http.Connection.Requests.{
  Awaited, found, large, gone, broken, out_of_fuel, head_chunk, on_read, on_head, await_head,
}

-- A head stands at the front of what the buffer and the stream have, and the fuel lasts.
abbrev pub Finds : Bytes → Awaited → Type 0
Finds sent (found pos buf socket) =
    (buf ++ stream socket ≡ sent) × ((find_headers_end buf ≡ some pos) × (pos ≤ length buf))
Finds sent large = Unit
Finds sent gone = Unit
Finds sent broken = Unit
Finds sent out_of_fuel = ⊥

on_read-Finds :
    (buf : Bytes) (s : Socket) (again : Bytes → Socket → Awaited)
    → ((longer : Bytes) (rest : Socket)
        → longer ++ stream rest ≡ buf ++ stream s
        → length (stream rest) < length (stream s)
        → Finds (buf ++ stream s) (again longer rest))
    → Finds (buf ++ stream s) (on_read buf (read head_chunk s) again)
on_read-Finds buf s again ih =
    result (read head_chunk s).0 (read head_chunk s).1 (read-stream head_chunk s)
  where
    result :
        (r : ReadResult) (rest : Socket)
        → got_bytes r ++ stream rest ≡ stream s
        → Finds (buf ++ stream s) (on_read buf (r, rest) again)
    result (got t []) rest e = tt
    result (got t (b ∷ bs)) rest e =
        ih (buf ++ (b ∷ bs)) rest (append_assoc buf (b ∷ bs) (stream rest) ∙ ap (◌++◌ buf) e)
          (omega (arith, ap length e, length-append (b ∷ bs) (stream rest)))
    result timed_out rest e = tt
    result io_error rest e = tt

awaiting-Finds :
    (buf : Bytes) (s : Socket) (again : Bytes → Awaited)
    → Finds (buf ++ stream s) (again buf)
    → Finds (buf ++ stream s) (on_head (awaiting buf) s again)
awaiting-Finds buf s again h = elim (Bool-cases (ltb max_header_bytes (length buf))) [
  | inl e ↦ rw e tt
  | inr e ↦ rw e h
]

pub await_head-Finds :
    (fuel : ℕ) (buf : Bytes) (s : Socket)
    → length (stream s) < fuel
    → Finds (buf ++ stream s) (await_head fuel buf s)
unfolding await_head
await_head-Finds zero buf s enough = elim enough [ ]
await_head-Finds (suc fuel) buf s enough = elim (Option-cases (find_headers_end buf)) [
  | inr (p, e) ↦ rw (read_head-found buf [] p e) (refl, (e, (find_headers_end-length buf p e).1))
  | inl e ↦ rw (read_head-end buf e) (
      awaiting-Finds buf s _ (
        on_read-Finds buf s _ (λ longer rest same less.
          subst (λ sent. Finds sent (await_head fuel longer rest)) same
            (await_head-Finds fuel longer rest (omega (arith, enough, less))))))
]

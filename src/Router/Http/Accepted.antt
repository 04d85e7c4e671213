-- ===== src/Router/Http/Accepted.antt =====
-- crates/buran-router/src/http1.rs, parse_request: which requests are let through.
use buran.Prelude.{
  ℕ, ◌≡◌, refl, sym, ap, ◌∙◌, Bool, not, Option, none, some, Bytes, all, Bool-cases, inl, inr,
  subst,
}
use buran.Router.Http.Request.{
  RawRequest, Parsed, Scan, scan, check_host, host_missing, is_minor_one, start, close_scan,
  from_raw, from_parse, parse_request,
}
use buran.Router.Http.Framing.{
  is_none, frames, count_hosts, is_acceptable, right_true, right_false, left_false, Agrees,
  scan-Agrees,
}

close_scan-acceptable :
    (version : Option ℕ) (s : Scan)
    → Agrees s
    → is_none (close_scan version s).bad
      ≡ is_acceptable version (close_scan version s).content_length (close_scan version s).headers
close_scan-acceptable version s a = go s.parsed.bad refl
  where
    host_verdict :
        {b : Bool}
        → host_missing (is_minor_one version) s.host_count ≡ b
        → not (host_missing (is_minor_one version) (count_hosts s.parsed.headers)) ≡ not b
    host_verdict m = ap (λ k. not (host_missing (is_minor_one version) k)) (sym a.hosts) ∙ ap not m

    go :
        (o : Option ℕ)
        → s.parsed.bad ≡ o
        → is_none (check_host (is_minor_one version) s.host_count s.parsed o).bad
          ≡ is_acceptable version
              (check_host (is_minor_one version) s.host_count s.parsed o).content_length
              (check_host (is_minor_one version) s.host_count s.parsed o).headers
    go none e = elim (Bool-cases (host_missing (is_minor_one version) s.host_count)) [
      | inl m ↦ rw m (
          sym (
            right_false (all (frames s.parsed.content_length) s.parsed.headers) _ (host_verdict m)))
      | inr m ↦ rw m (a.verdict ∙ sym (right_true _ _ (host_verdict m)))
    ]
    go (some status) e =
        a.verdict
        ∙ sym (
            left_false (all (frames s.parsed.content_length) s.parsed.headers) _
              (sym a.verdict ∙ ap is_none e))

-- A request is let through exactly if all its Content-Length headers give the one length that its
-- body is read by, it has no Transfer-Encoding, and it has one Host, or none before HTTP/1.1.
pub parse_request-acceptable :
    (httparse : Bytes → Option RawRequest) (head : Bytes) (raw : RawRequest) (p : Parsed)
    → httparse head ≡ some raw
    → parse_request httparse head ≡ some p
    → is_none p.bad ≡ is_acceptable raw.version p.content_length p.headers
unfolding parse_request
parse_request-acceptable httparse head raw p e q =
    go raw.method raw.path (ap from_parse (sym e) ∙ q)
  where
    go :
        (method path : Option Bytes)
        → from_raw raw method path ≡ some p
        → is_none p.bad ≡ is_acceptable raw.version p.content_length p.headers
    go none path r = cc r
    go (some method) none r = cc r
    go (some method) (some path) r =
        let closed : close_scan raw.version (scan raw.headers (start method path raw.version)) ≡ p =
          cc r in
        subst (λ x. is_none x.bad ≡ is_acceptable raw.version x.content_length x.headers) closed
          (close_scan-acceptable raw.version _ (
            scan-Agrees raw.headers (start method path raw.version) (record {
              verdict = refl;
              unseen = λ e len. refl;
              hosts = unfold count_hosts in refl;
            })))

-- ===== src/Config/Listeners.antt =====
-- crates/buran-config/src/validate.rs: listener addresses. The parsing of an IP literal by std::net
-- is a parameter.
use buran.Prelude.{
  put_before, is_some, Without, ℕ, ◌^◌, ◌<◌, false, Option, none, some, [], ◌∷◌, ◌++◌, ltb, ◌==◌,
  if◌then◌else◌, Bytes, any, is_empty, bytes_eq, codes, ◌≡◌, ◌≢◌, refl, ap, ap₂, ◌∙◌, All, arith,
  lt→ltb, ==_refl, ◌||◌,
}
use buran.Router.Routes.Separators.{split_at_first-append}
use buran.Config.{Checked, passed, invalid, bad_address}
use buran.Router.Routes.{split_at_first}
use buran.Router.Http.Request.{parse_unsigned}
use buran.Router.Http.Response.{to_decimal, digits}
use buran.Router.Http.Response.Digits.{parse_unsigned-to_decimal, IsDigitOf, digits-IsDigitOf}

-- What the router uses of std::net.
pub record Net : Type 1 where
  pub Ip : Type 0
  pub parse_ip : Bytes → Option Ip
  pub unspecified : Ip

-- `str::rsplit_once`.
unfoldable pub split_at_last : ℕ → Bytes → Option (Bytes × Bytes)
split_at_last sep [] = none
split_at_last sep (b ∷ bs) =
    let later = put_before b (split_at_last sep bs) in
    if is_some later then later else if b == sep then some ([], bs) else none

abbrev after_bracket : Bytes → Option Bytes → Checked (Bytes × Bytes)
after_bracket host none = invalid bad_address
after_bracket host (some []) = invalid bad_address
after_bracket host (some (c ∷ port)) =
    if c == b':' then passed (host, port) else invalid bad_address

abbrev plain_host : Option (Bytes × Bytes) → Checked (Bytes × Bytes)
plain_host none = invalid bad_address
plain_host (some (host, port)) =
    if is_empty host || any (λ c. c == b':') host then invalid bad_address else passed (host, port)

abbrev bracketed : Bytes × Option Bytes → Checked (Bytes × Bytes)
bracketed (host, after) = after_bracket host after

unfoldable pub split_host_port : Bytes → Checked (Bytes × Bytes)
unfolding split_at_first split_at_last
split_host_port [] = invalid bad_address
split_host_port (b ∷ bs) =
    if b == b'['
    then bracketed (split_at_first b']' bs)
    else plain_host (split_at_last b':' (b ∷ bs))

abbrev in_port_range : Option ℕ → Option ℕ
in_port_range (some n) = if ltb n (2 ^ 16) then some n else none
in_port_range none = none

-- A `u16`.
unfoldable pub parse_port : Bytes → Option ℕ
unfolding parse_unsigned
parse_port v = in_port_range (parse_unsigned v)

module _ (net : Net) where
  abbrev pub host_ip : Bytes → Option (net.Ip)
  host_ip host = if bytes_eq host (codes "*") then some (net.unspecified) else net.parse_ip host

  abbrev socket_address : Option (net.Ip) → Option ℕ → Checked (net.Ip × ℕ)
  socket_address (some ip) (some port) = passed (ip, port)
  socket_address _ _ = invalid bad_address

  abbrev from_parts : Checked (Bytes × Bytes) → Checked (net.Ip × ℕ)
  from_parts (invalid problem) = invalid problem
  from_parts (passed (host, port)) = socket_address (host_ip host) (parse_port port)

  unfoldable pub parse_listener_addr : Bytes → Checked (net.Ip × ℕ)
  unfolding split_host_port parse_port
  parse_listener_addr addr = from_parts (split_host_port addr)

split_at_last-none : (sep : ℕ) (v : Bytes) → Without sep v → split_at_last sep v ≡ none
unfolding split_at_last
split_at_last-none sep [] h = refl
split_at_last-none sep (b ∷ v) (ne, h) =
    let differs : (b == sep) ≡ false = ground (arith, ne) in
    rw (split_at_last-none sep v h, differs) refl

split_at_last-append :
    (sep : ℕ) (front back : Bytes)
    → Without sep back
    → split_at_last sep (front ++ (sep ∷ back)) ≡ some (front, back)
unfolding split_at_last
split_at_last-append sep [] back h = rw (split_at_last-none sep back h, ==_refl sep) refl
split_at_last-append sep (b ∷ front) back h = rw (split_at_last-append sep front back h) refl

any-Without : (c : ℕ) (v : Bytes) → Without c v → any (λ b. b == c) v ≡ false
any-Without c [] h = refl
any-Without c (b ∷ v) (ne, h) =
    let differs : (b == c) ≡ false = ground (arith, ne) in rw (differs, any-Without c v h) refl

split_host_port-plain :
    (b : ℕ) (host port : Bytes)
    → b ≢ b'['
    → Without b':' (b ∷ host)
    → Without b':' port
    → split_host_port (b ∷ (host ++ (b':' ∷ port))) ≡ passed (b ∷ host, port)
unfolding split_host_port
split_host_port-plain b host port ne h k =
    let differs : (b == b'[') ≡ false = ground (arith, ne) in
    rw (differs, split_at_last-append b':' (b ∷ host) port k, any-Without b':' (b ∷ host) h) refl

split_host_port-bracketed :
    (host port : Bytes)
    → Without b']' host
    → split_host_port (b'[' ∷ (host ++ (b']' ∷ b':' ∷ port))) ≡ passed (host, port)
unfolding split_host_port
split_host_port-bracketed host port h = rw (split_at_first-append b']' host (b':' ∷ port) h) refl

decimal-Without : (n : ℕ) → Without b':' (to_decimal n)
unfolding to_decimal
decimal-Without n = no_colon (digits 10 n n) (digits-IsDigitOf 10 n n (omega arith) (omega arith))
  where
    no_colon : (v : Bytes) → All (IsDigitOf 10) v → Without b':' v
    no_colon [] a = tt
    no_colon (b ∷ v) ((d, (small, e)), a) =
        ((λ colon. ground (arith, small, e, colon)), no_colon v a)

parse_port-to_decimal : (n : ℕ) → n < 2 ^ 16 → parse_port (to_decimal n) ≡ some n
unfolding parse_port
parse_port-to_decimal n h =
    ap in_port_range (parse_unsigned-to_decimal n (omega (arith, h)))
    ∙ (rw (lt→ltb n (2 ^ 16) h) refl)

-- A host without colons and a port are read from `host:port`, a host with colons and a port from
-- `[host]:port`, if the parser of IP literals accepts the host or, in the first form, it is a star.
pub parse_listener_addr-parts :
    (net : Net) (b : ℕ) (plain bracketed_host : Bytes) (ip ip6 : net.Ip) (port : ℕ)
    → host_ip net (b ∷ plain) ≡ some ip
    → host_ip net bracketed_host ≡ some ip6
    → b ≢ b'['
    → Without b':' (b ∷ plain)
    → Without b']' bracketed_host
    → port < 2 ^ 16
    → (parse_listener_addr net ((b ∷ plain) ++ (b':' ∷ to_decimal port)) ≡ passed (ip, port))
      × (parse_listener_addr net (b'[' ∷ (bracketed_host ++ (b']' ∷ b':' ∷ to_decimal port)))
          ≡ passed (ip6, port))
unfolding parse_listener_addr
parse_listener_addr-parts net b plain bracketed_host ip ip6 port e e6 ne h h6 small = (
  ap (from_parts net) (split_host_port-plain b plain (to_decimal port) ne h (decimal-Without port))
      ∙ ap₂ (socket_address net) e (parse_port-to_decimal port small),
  ap (from_parts net) (split_host_port-bracketed bracketed_host (to_decimal port) h6)
      ∙ ap₂ (socket_address net) e6 (parse_port-to_decimal port small),
)

-- ===== src/Socks5/Codec.antt =====
-- The connect request against RFC 1928, read by a decoder of its own.
use transocks_wong.Prelude.{
  ℕ, zero, suc, ◌≡◌, ◌≢◌, refl, ap, ◌⊎◌, inl, inr, true, ◌&&◌, ◌==◌, if◌then◌else◌, Option, none,
  some, List, [], ◌∷◌, ◌++◌, length, length-append, take, drop, arith,
}
use transocks_wong.Machine.{Ptr, Bytes, Block, Call, Os, Sockaddr, State, ok}
use transocks_wong.Machine.Log.{log}
use transocks_wong.Macros.{af_inet, af_inet6}
use transocks_wong.Socks5.{socks_request_ipv4, socks_request_ipv6, write_request, send_request}

-- VER CMD RSV ATYP DST.ADDR DST.PORT, as a server reads them.
pub data Address : Type 0 where
  ipv4 ipv6 : Bytes → Address

pub record Request : Type 0 where
  pub command : ℕ
  pub address : Address
  pub port : Bytes

decode_body : ℕ → ℕ → Bytes → Option Request
decode_body command atyp body =
    if atyp == 1
    then (if length body == 6
        then some (record { command = command; address = ipv4 (take 4 body); port = drop 4 body })
        else none)
    else if atyp == 4
    then (if length body == 18
        then some (record { command = command; address = ipv6 (take 16 body); port = drop 16 body })
        else none)
    else none

unfoldable pub decode_request : Bytes → Option Request
unfolding decode_body
decode_request (ver ∷ command ∷ rsv ∷ atyp ∷ body) =
    if (ver == 5) && (rsv == 0) then decode_body command atyp body else none
decode_request _ = none

-- A destination as the kernel gives it.
abbrev pub IsDestination : Sockaddr → Type 0
IsDestination sa =
    ((sa.ss_family ≡ af_inet) × (length sa.sin_addr ≡ 4) × (length sa.port ≡ 2))
    ⊎ ((sa.ss_family ≡ af_inet6) × (length sa.sin6_addr ≡ 16) × (length sa.port ≡ 2))

unfoldable pub connect_to : Sockaddr → Request
connect_to sa = record {
  command = 1;
  address = if sa.ss_family == af_inet then ipv4 sa.sin_addr else ipv6 sa.sin6_addr;
  port = sa.port;
}

abbrev pub request_of : Sockaddr → Bytes
request_of sa = if sa.ss_family == af_inet then socks_request_ipv4 sa else socks_request_ipv6 sa

abbrev pub request_block : Sockaddr → Block
request_block sa =
    if sa.ss_family == af_inet then Block.socks_request_ipv4 else Block.socks_request_ipv6

module _ {ℓ} {A : Type ℓ} where
  take-append : (n : ℕ) (xs ys : List A) → length xs ≡ n → take n (xs ++ ys) ≡ xs
  take-append zero [] ys h = refl
  take-append zero (x ∷ xs) ys h = absurd (omega arith)
  take-append (suc n) [] ys h = absurd (omega arith)
  take-append (suc n) (x ∷ xs) ys h = ap (λ zs. x ∷ zs) (take-append n xs ys (omega arith))

  drop-append : (n : ℕ) (xs ys : List A) → length xs ≡ n → drop n (xs ++ ys) ≡ ys
  drop-append zero [] ys h = refl
  drop-append zero (x ∷ xs) ys h = absurd (omega arith)
  drop-append (suc n) [] ys h = absurd (omega arith)
  drop-append (suc n) (x ∷ xs) ys h = drop-append n xs ys (omega arith)

decode-request_of :
    (sa : Sockaddr) → IsDestination sa → decode_request (request_of sa) ≡ some (connect_to sa)
unfolding decode_request connect_to socks_request_ipv4 socks_request_ipv6
decode-request_of sa (inl (f, a, p)) = rw (
  f,
  length-append sa.sin_addr sa.port,
  a,
  p,
  take-append 4 sa.sin_addr sa.port a,
  drop-append 4 sa.sin_addr sa.port a,
)
decode-request_of sa (inr (f, a, p)) = rw (
  f,
  length-append sa.sin6_addr sa.port,
  a,
  p,
  take-append 16 sa.sin6_addr sa.port a,
  drop-append 16 sa.sin6_addr sa.port a,
)

abbrev written : Ptr → Ptr → Bytes → Block → List Call
written req bev bytes block =
    Call.free req ∷ Call.bufferevent_write bev bytes ∷ Call.malloc block ∷ []

write_request-log :
    (os : Os) (block : Block) (bev : Ptr) (bytes : Bytes) (s : State)
    → (os s.trace (Call.malloc block)).ptr ≢ 0
    → write_request block bev bytes os s
      ≡ ok true (log (written (os s.trace (Call.malloc block)).ptr bev bytes block) s)
unfolding write_request
write_request-log os block bev bytes s m = ground arith

pub send_request-log :
    (os : Os) (bev : Ptr) (sa : Sockaddr) (s : State)
    → IsDestination sa
    → (os s.trace (Call.malloc (request_block sa))).ptr ≢ 0
    → send_request bev sa os s
      ≡ ok true (
          log
            (written
              (os s.trace (Call.malloc (request_block sa))).ptr
              bev
              (request_of sa)
              (request_block sa))
            s)
unfolding send_request socks_request_ipv4 socks_request_ipv6
send_request-log os bev sa s (inl (f, _, _)) m =
    rw f (write_request-log os Block.socks_request_ipv4 bev (socks_request_ipv4 sa) s (rw f at m))
send_request-log os bev sa s (inr (f, _, _)) m =
    rw f (write_request-log os Block.socks_request_ipv6 bev (socks_request_ipv6 sa) s (rw f at m))

-- To an IPv4 or IPv6 destination exactly one message is written to the relay, from a block that is
-- freed, if the allocator has one; and a server that reads the message by RFC 1928 gets a CONNECT to
-- the destination's address and port.
pub send_request-decodes :
    (os : Os) (bev : Ptr) (sa : Sockaddr) (s : State)
    → IsDestination sa
    → (os s.trace (Call.malloc (request_block sa))).ptr ≢ 0
    → (send_request bev sa os s
        ≡ ok true (
            log
              (Call.free (os s.trace (Call.malloc (request_block sa))).ptr
                ∷ Call.bufferevent_write bev (request_of sa)
                ∷ Call.malloc (request_block sa)
                ∷ [])
              s))
      × (decode_request (request_of sa) ≡ some (connect_to sa))
send_request-decodes os bev sa s d m = (send_request-log os bev sa s d m, decode-request_of sa d)

-- ===== src/Util.antt =====
-- util.c: socket options, pipes, addresses.
pub mod Pipes
pub mod Addresses
pub mod Texts
pub mod Ports
use Prim.Native.String.{String}
use transocks_wong.Prelude.{
  ℕ, ◌+◌, ◌-◌, ◌^◌, ℤ, Bool, true, false, ◌==◌, if◌then◌else◌, is_neg, int_eq, nonzero, minus_one,
  Option, none, some, bit_and, bit_or, List, [], ◌∷◌, ◌*◌, ◌&&◌, get_or, take, drop,
}
use transocks_wong.Machine.{Call, SockOpt, Sockaddr, M, pure, call, ◌>>=◌}
use transocks_wong.Macros.{af_inet, af_inet6}

-- `setsockopt` is tested against a negative result.
set_option : ℤ → SockOpt → ℕ → M ℤ → M ℤ
set_option fd opt v next = do
  r ← call (Call.setsockopt fd opt v)
  if is_neg r.ret then pure minus_one else next

unfoldable pub apply_tcp_keepalive : ℤ → M ℤ
unfolding set_option
apply_tcp_keepalive fd =
    if is_neg fd
    then pure minus_one
    else set_option fd SockOpt.so_keepalive 1 (
        set_option fd SockOpt.tcp_keepidle 40 (
          set_option fd SockOpt.tcp_keepintvl 20
            (set_option fd SockOpt.tcp_keepcnt 5 (pure (ℤ.pos 0)))))

unfoldable pub apply_ipv6only : ℤ → ℕ → M ℤ
unfolding set_option
apply_ipv6only fd on =
    if is_neg fd then pure minus_one else set_option fd SockOpt.ipv6_v6only on (pure (ℤ.pos 0))

unfoldable pub apply_tcp_nodelay : ℤ → M ℤ
unfolding set_option
apply_tcp_nodelay fd =
    if is_neg fd then pure minus_one else set_option fd SockOpt.tcp_nodelay 1 (pure (ℤ.pos 0))

abbrev pub o_nonblock : ℕ
o_nonblock = 2048

-- An `int` as its bit pattern.
abbrev pub int_bits : ℤ → ℕ
int_bits (ℤ.pos n) = n
int_bits (ℤ.negsuc n) = 2 ^ 32 - (n + 1)

abbrev pub set_nonblock_bit : Bool → ℕ → ℕ
set_nonblock_bit isenable flags =
    if isenable then bit_or flags o_nonblock else bit_and flags (2 ^ 32 - 1 - o_nonblock)

unfoldable pub setnonblocking : ℤ → Bool → M ℤ
setnonblocking fd isenable = if is_neg fd then pure minus_one else do
  r ← call (Call.fcntl_getfl fd)
  if int_eq r.ret minus_one then pure minus_one else do
    e ← call (Call.fcntl_setfl fd (set_nonblock_bit isenable (int_bits r.ret)))
    if nonzero e.ret then pure minus_one else pure (ℤ.pos 0)

-- The two ends, or `none` for -1, where the caller's variables stay as they were.
unfoldable pub createpipe : M (Option (ℤ × ℤ))
createpipe = do
  r ← call Call.pipe
  if int_eq r.ret minus_one then pure none else do
    let rd = ℤ.pos (get_or r.out 0 0)
    let wr = ℤ.pos (get_or r.out 1 0)
    e ← setnonblocking rd true
    if nonzero e
        then pure none
        else do e ← setnonblocking wr true; if nonzero e then pure none else pure (some (rd, wr))

abbrev pub sockaddr_in6_len : ℕ
sockaddr_in6_len = 28

abbrev pub sockaddr_in_len : ℕ
sockaddr_in_len = 16

-- A `sockaddr` read from its bytes: the family is in host order, the address in network order.
unfoldable pub sockaddr_of : List ℕ → Sockaddr
sockaddr_of bs = record {
  ss_family = get_or bs 0 0 + 256 * get_or bs 1 0;
  port = take 2 (drop 2 bs);
  sin_addr = take 4 (drop 4 bs);
  sin6_addr = take 16 (drop 8 bs);
}

-- The address and the length that the kernel leaves, or `none` for -1. The IPv6 table is asked first.
unfoldable pub getorigdst : ℤ → M (Option (Sockaddr × ℕ))
getorigdst fd = do
  r ← call (Call.getsockopt_ip6t_original_dst fd)
  if nonzero r.ret
      then (do
        r ← call (Call.getsockopt_original_dst fd)
        if nonzero r.ret then pure none else pure (some (sockaddr_of r.out, r.size)))
      else pure (some (sockaddr_of r.out, r.size))

-- `sin_port == 0` compares both bytes.
abbrev pub port_is_zero : Sockaddr → Bool
port_is_zero ss = get_or ss.port 0 0 + get_or ss.port 1 0 == 0

-- `IN6_IS_ADDR_V4MAPPED`: ten zero bytes and two of 0xff.
abbrev pub starts_with : List ℕ → List ℕ → Bool
starts_with [] bs = true
starts_with (a ∷ xs) [] = false
starts_with (a ∷ xs) (b ∷ bs) = (a == b) && starts_with xs bs

abbrev pub v4mapped_prefix : List ℕ
v4mapped_prefix = 0 ∷ 0 ∷ 0 ∷ 0 ∷ 0 ∷ 0 ∷ 0 ∷ 0 ∷ 0 ∷ 0 ∷ 0xff ∷ 0xff ∷ []

unfoldable pub validate_addr_port : Sockaddr → Bool
validate_addr_port ss =
    if ss.ss_family == af_inet
    then (if port_is_zero ss then false else true)
    else if ss.ss_family == af_inet6
    then (if port_is_zero ss
        then false
        else if starts_with v4mapped_prefix ss.sin6_addr
        then false
        else true)
    else false

-- `evutil_parse_sockaddr_port`, a parameter, gets the text and the room for the result, and gives
-- the address with its length; `none` is its error. The text is tried as IPv6 first.
unfoldable pub transocks_parse_sockaddr_port :
    (String → ℕ → Option (Sockaddr × ℕ)) → String → Option (Sockaddr × ℕ)
transocks_parse_sockaddr_port evutil_parse str = elim (evutil_parse str sockaddr_in6_len) [
  | some r ↦ some r
  | none ↦ evutil_parse str sockaddr_in_len
]

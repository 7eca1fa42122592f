-- ===== src/Util/Texts.antt =====
-- util.c: the text of an address with its port, and the help. A text is its bytes.
use Prim.Native.Char.{code}
use Prim.Native.String.{String}
use transocks_wong.Prelude.{
  ℕ, zero, suc, ◌+◌, ◌-◌, ◌*◌, ◌/◌, ◌%◌, ◌^◌, ℤ, pos, negsuc, true, false, ltb, ◌==◌, ◌||◌,
  if◌then◌else◌, Option, none, some, [], ◌∷◌, ◌++◌, take, get_or,
}
use transocks_wong.Machine.{Bytes, Call, Sockaddr, M, call_, ◌>>◌}
use transocks_wong.Macros.{af_inet, af_inet6}
use transocks_wong.Util.{sockaddr_in_len, sockaddr_in6_len}

abbrev pub codes : String → Bytes
codes String.[] = []
codes (String.◌∷◌ c s) = code c ∷ codes s

-- The digits of a number below the fuel; `%d` of a number takes one more than the number.
unfoldable pub digits : ℕ → ℕ → Bytes
digits zero n = []
digits (suc fuel) n = elim (ltb n 10) [
  | true ↦ (48 + n) ∷ []
  | false ↦ digits fuel (n / 10) ++ ((48 + n % 10) ∷ [])
]

unfoldable pub decimal : ℕ → Bytes
decimal n = digits (n + 1) n

-- `%d` of an `int`; `%ld` of a `size_t`, which is printed as a `long`.
abbrev pub int_text : ℤ → Bytes
int_text (pos n) = decimal n
int_text (negsuc n) = codes "-" ++ decimal (n + 1)

abbrev pub long_text : ℕ → Bytes
long_text n = if ltb n (2 ^ 63) then decimal n else codes "-" ++ decimal (2 ^ 64 - n)

-- `snprintf` cuts what it writes to the size, with the NUL at its end.
abbrev pub snprintf : ℕ → Bytes → Bytes
snprintf size text = take (size - 1) text

abbrev pub ntohs : Bytes → ℕ
ntohs port = 256 * get_or port 0 0 + get_or port 1 0

-- `1 + INET6_ADDRSTRLEN + 1 + 1 + TRANSOCKS_INET_PORTSTRLEN + 1`
abbrev pub inet6_addrstrlen : ℕ
inet6_addrstrlen = 46

abbrev pub transocks_inet_addrportstrlen : ℕ
transocks_inet_addrportstrlen = 1 + inet6_addrstrlen + 1 + 1 + (5 + 1) + 1

-- `none` stands for bytes that nothing was written to: `inet_ntop`, a parameter, gives the text of an
-- address of a family or fails, and then `ipstr` is printed as it is.
module _ (inet_ntop : ℕ → Bytes → Option Bytes) where
  unfoldable pub generate_sockaddr_port_str : ℕ → Sockaddr → ℕ → Option Bytes
  generate_sockaddr_port_str strbufsize sa socklen =
      if socklen == sockaddr_in_len || sa.ss_family == af_inet
      then (elim (inet_ntop af_inet sa.sin_addr) [
        | none ↦ none
        | some ipstr ↦ some (snprintf strbufsize (ipstr ++ (codes ":" ++ decimal (ntohs sa.port))))
      ])
      else if socklen == sockaddr_in6_len || sa.ss_family == af_inet6
      then (elim (inet_ntop af_inet6 sa.sin6_addr) [
        | none ↦ none
        | some ipstr ↦
            some (
              snprintf strbufsize (codes "[" ++ (ipstr ++ (codes "]:" ++ decimal (ntohs sa.port)))))
      ])
      else none

abbrev pub print : Bytes → M (Unit {0})
print text = call_ (Call.fprintf text)

unfoldable pub print_help : M (Unit {0})
print_help = do
  print (codes "transocks-wong help:\n")
  print (codes "\t WARNING: data must be NATed to our listener endpoint\n")
  print (codes "\t --listener-addr-port   what address and port we are listening\n")
  print (codes "\t --socks5-addr-port     the SOCKS5 server address and port\n")
  print (codes "\t --pump-method          bufferpump/splicepump\n")
  print (codes "\t --help                 this message\n")
  print (codes "\t Address and port must in this format:\n")
  print (codes "\t\t - [IPv6Address]:Port\n")
  print (codes "\t\t - IPv4Address:Port\n")

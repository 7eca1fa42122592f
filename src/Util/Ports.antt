-- ===== src/Util/Ports.antt =====
-- util.c: the text of an address is whole, and its port can be read from it.
use transocks_wong.Prelude.{
  ℕ, zero, suc, ◌+◌, ◌-◌, ◌*◌, ◌/◌, ◌%◌, ◌^◌, ◌≤◌, ◌<◌, ◌≡◌, refl, true, false, ltb, ◌==◌,
  if◌then◌else◌, Option, some, [], ◌∷◌, ◌++◌, take, length, length-append, arith, Bool-cases, inl,
  inr, Bool, ◌||◌, ap, ◌∙◌, subst,
}
use mathlib.Core.List.{append_assoc}
use transocks_wong.Machine.{Bytes, Sockaddr}
use transocks_wong.Macros.{af_inet, af_inet6}
use transocks_wong.Util.{sockaddr_in_len, sockaddr_in6_len}
use transocks_wong.Util.Texts.{
  codes, digits, decimal, snprintf, ntohs, transocks_inet_addrportstrlen,
  generate_sockaddr_port_str,
}

-- A reader of the text: the number after the last colon.
unfoldable pub port_after : ℕ → Bytes → ℕ
port_after n [] = n
port_after n (c ∷ cs) = port_after (if c == 58 then 0 else 10 * n + (c - 48)) cs

port_after-append :
    (n : ℕ) (xs ys : Bytes) → port_after n (xs ++ ys) ≡ port_after (port_after n xs) ys
unfolding port_after
port_after-append n [] ys = refl
port_after-append n (x ∷ xs) ys = port_after-append (if x == 58 then 0 else 10 * n + (x - 48)) xs ys

digit-reads : (n d : ℕ) → d < 10 → port_after n ((48 + d) ∷ []) ≡ 10 * n + d
unfolding port_after
digit-reads n d h = ground arith

digits-one : (fuel n : ℕ) → ltb n 10 ≡ true → digits (suc fuel) n ≡ (48 + n) ∷ []
unfolding digits
digits-one fuel n h = ground arith

digits-more :
    (fuel n : ℕ)
    → ltb n 10 ≡ false
    → digits (suc fuel) n ≡ digits fuel (n / 10) ++ ((48 + n % 10) ∷ [])
unfolding digits
digits-more fuel n h = ground arith

digits-reads : (fuel n : ℕ) → n < fuel → port_after 0 (digits fuel n) ≡ n
digits-reads zero n h = absurd (omega arith)
digits-reads (suc fuel) n h = elim (Bool-cases (ltb n 10)) [
  | inl small ↦ rw (digits-one fuel n small) (omega (arith, digit-reads 0 n (ground arith)))
  | inr big ↦
      let below : n / 10 < fuel = ground arith in
      rw
        (
          digits-more fuel n big,
          port_after-append 0 (digits fuel (n / 10)) ((48 + n % 10) ∷ []),
          digits-reads fuel (n / 10) below,
          digit-reads (n / 10) (n % 10) (omega arith),
        )
        (omega arith)
]

-- A bound on a number with one digit more is ten times as high.
abbrev bound : ℕ → ℕ
bound zero = 10
bound (suc k) = 10 * bound k

digits-more_length : (rest : Bytes) (d k : ℕ) → length rest ≤ k → length (rest ++ (d ∷ [])) ≤ suc k
digits-more_length rest d k h = omega (arith, length-append rest (d ∷ []))

digits-length : (fuel n k : ℕ) → n < bound k → length (digits fuel n) ≤ suc k
unfolding digits
digits-length zero n k h = omega arith
digits-length (suc fuel) n zero h = rw (digits-one fuel n (ground arith)) (omega arith)
digits-length (suc fuel) n (suc k) h = elim (Bool-cases (ltb n 10)) [
  | inl small ↦ rw (digits-one fuel n small) (omega arith)
  | inr big ↦ rw (digits-more fuel n big) (
      digits-more_length (digits fuel (n / 10)) (48 + n % 10) (suc k)
        (digits-length fuel (n / 10) k (omega arith)))
]

take-all : (n : ℕ) (xs : Bytes) → length xs ≤ n → take n xs ≡ xs
take-all zero [] h = refl
take-all zero (x ∷ xs) h = absurd (omega arith)
take-all (suc n) [] h = refl
take-all (suc n) (x ∷ xs) h = ap (λ xs. x ∷ xs) (take-all n xs (omega arith))

-- The text of an address, then a colon and a port.
with_port : Bytes → ℕ → Bytes
with_port host port = host ++ (codes ":" ++ decimal port)

with_port-length :
    (host : Bytes) (port : ℕ) → port < 2 ^ 16 → length (with_port host port) ≤ length host + 6
unfolding with_port decimal
with_port-length host port h = omega (
  arith,
  length-append host (codes ":" ++ decimal port),
  digits-length (port + 1) port 4 (omega arith),
)

with_port-reads : (host : Bytes) (port : ℕ) → port_after 0 (with_port host port) ≡ port
unfolding with_port port_after decimal
with_port-reads host port =
    port_after-append 0 host (codes ":" ++ decimal port)
    ∙ digits-reads (port + 1) port (omega arith)

bracketed :
    (host : Bytes) (port : ℕ)
    → with_port (codes "[" ++ (host ++ codes "]")) port
      ≡ codes "[" ++ (host ++ (codes "]:" ++ decimal port))
unfolding with_port
bracketed host port =
    ap (λ t. codes "[" ++ t) (append_assoc host (codes "]") (codes ":" ++ decimal port))

bracketed-length : (host : Bytes) → length (codes "[" ++ (host ++ codes "]")) ≡ length host + 2
bracketed-length host = omega (arith, length-append host (codes "]"))

-- inet_ntop(3): an IPv4 or IPv6 address has a text, shorter than INET6_ADDRSTRLEN.
pub record NtopLaws (inet_ntop : ℕ → Bytes → Option Bytes) : Type 0 where
  pub ipv4 :
      (addr : Bytes) → (text : Bytes) × (inet_ntop af_inet addr ≡ some text) × (length text < 46)
  pub ipv6 :
      (addr : Bytes) → (text : Bytes) × (inet_ntop af_inet6 addr ≡ some text) × (length text < 46)

-- The length or the family says IPv4 or IPv6.
abbrev pub is_internet : Sockaddr → ℕ → Bool
is_internet sa socklen =
    (socklen == sockaddr_in_len || sa.ss_family == af_inet)
    || (socklen == sockaddr_in6_len || sa.ss_family == af_inet6)

unfoldable pub ReadsBack : Sockaddr → Option Bytes → Type 0
ReadsBack sa r =
    (text : Bytes) × (r ≡ some text)
    × (length text < transocks_inet_addrportstrlen)
    × (port_after 0 text ≡ ntohs sa.port)

module _ (inet_ntop : ℕ → Bytes → Option Bytes) (laws : NtopLaws inet_ntop) where
  whole :
      (host : Bytes) (sa : Sockaddr)
      → length host < 49
      → ntohs sa.port < 2 ^ 16
      → ReadsBack sa
          (some (snprintf transocks_inet_addrportstrlen (with_port host (ntohs sa.port))))
  unfolding ReadsBack
  whole host sa h p =
      let short = with_port-length host (ntohs sa.port) p in
      (
        with_port host (ntohs sa.port),
        ap some (take-all 55 (with_port host (ntohs sa.port)) (omega arith)),
        omega arith,
        with_port-reads host (ntohs sa.port),
      )

  -- If the length or the family is that of IPv4 or IPv6, the text of the address and its NUL fit into
  -- the TRANSOCKS_INET_ADDRPORTSTRLEN bytes of its buffer, and the number after the last colon of what
  -- is written is the port; `inet_ntop` gives each address a text shorter than INET6_ADDRSTRLEN, and the
  -- port has 16 bits.
  pub generate_sockaddr_port_str-whole :
      (sa : Sockaddr) (socklen : ℕ)
      → is_internet sa socklen ≡ true
      → ntohs sa.port < 2 ^ 16
      → ReadsBack sa (generate_sockaddr_port_str inet_ntop transocks_inet_addrportstrlen sa socklen)
  unfolding generate_sockaddr_port_str with_port
  generate_sockaddr_port_str-whole sa socklen h p =
      elim (Bool-cases (socklen == sockaddr_in_len || sa.ss_family == af_inet)) [
        | inl v4 ↦
            let (text, e, short) = laws.ipv4 sa.sin_addr in
            rw (v4, e) (whole text sa (omega (arith, short)) p)
        | inr other ↦ elim (Bool-cases (socklen == sockaddr_in6_len || sa.ss_family == af_inet6)) [
          | inl v6 ↦
              let (text, e, short) = laws.ipv6 sa.sin6_addr in
              rw (other, v6, e)
                (subst (λ t. ReadsBack sa (some (snprintf transocks_inet_addrportstrlen t)))
                  (bracketed text (ntohs sa.port))
                  (whole (codes "[" ++ (text ++ codes "]")) sa
                    (omega (arith, bracketed-length text, short)) p))
          | inr neither ↦ absurd (ground arith)
        ]
      ]

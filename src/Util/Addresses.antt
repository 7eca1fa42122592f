-- ===== src/Util/Addresses.antt =====
-- util.c: which addresses `validate_addr_port` lets pass.
use transocks_wong.Prelude.{
  ℕ, ◌+◌, ◌≡◌, ◌≢◌, refl, true, false, ◌==◌, [], ◌∷◌, ◌++◌, arith, get_or, ◌⊎◌, inl, inr, ◌↔◌,
  Bool-cases, sym, subst,
}
use transocks_wong.Machine.{Bytes, Sockaddr}
use transocks_wong.Util.{validate_addr_port, starts_with, v4mapped_prefix}

-- `xs` begins `bs`.
abbrev pub Begins : Bytes → Bytes → Type 0
Begins xs bs = (rest : Bytes) × (bs ≡ xs ++ rest)

cons-path : (x b : ℕ) (bs ys : Bytes) → (x == b) ≡ true → bs ≡ ys → b ∷ bs ≡ x ∷ ys
cons-path x b bs ys h e = ground arith

starts_with-Begins : (xs bs : Bytes) → starts_with xs bs ≡ true → Begins xs bs
starts_with-Begins [] bs h = (bs, refl)
starts_with-Begins (x ∷ xs) [] h = absurd (ground arith)
starts_with-Begins (x ∷ xs) (b ∷ bs) h =
    let (rest, e) = starts_with-Begins xs bs (ground arith) in
    (rest, cons-path x b bs (xs ++ rest) (ground arith) e)

Begins-starts_with : (xs rest : Bytes) → starts_with xs (xs ++ rest) ≡ true
Begins-starts_with [] rest = refl
Begins-starts_with (x ∷ xs) rest = ground (arith, Begins-starts_with xs rest)

abbrev pub IsUsable : Sockaddr → Type 0
IsUsable ss =
    (get_or ss.port 0 0 + get_or ss.port 1 0 ≢ 0)
    × ((ss.ss_family ≡ 2) ⊎ ((ss.ss_family ≡ 10) × (¬ Begins v4mapped_prefix ss.sin6_addr)))

not_started : (xs bs : Bytes) → (¬ Begins xs bs) → starts_with xs bs ≡ false
not_started xs bs h = elim (Bool-cases (starts_with xs bs)) [
  | inl e ↦ absurd (h (starts_with-Begins xs bs e))
  | inr e ↦ e
]

not_begun : (xs bs : Bytes) → starts_with xs bs ≡ false → ¬ Begins xs bs
not_begun xs bs h (rest, e) =
    absurd
      (ground (arith, subst (λ ys. starts_with xs ys ≡ true) (sym e) (Begins-starts_with xs rest)))

usable_family :
    (ss : Sockaddr)
    → validate_addr_port ss ≡ true
    → (ss.ss_family ≡ 2) ⊎ ((ss.ss_family ≡ 10) × (¬ Begins v4mapped_prefix ss.sin6_addr))
unfolding validate_addr_port
usable_family ss h = elim (Bool-cases (ss.ss_family == 2)) [
  | inl four ↦ inl (ground arith)
  | inr six ↦ inr (ground arith, not_begun v4mapped_prefix ss.sin6_addr (ground arith))
]

-- `validate_addr_port` lets pass exactly the IPv4 addresses, and the IPv6 addresses that are not
-- IPv4-mapped, whose port is not 0.
pub validate_addr_port_iff : (ss : Sockaddr) → (validate_addr_port ss ≡ true) ↔ IsUsable ss
unfolding validate_addr_port
validate_addr_port_iff ss = (
  λ h. (ground arith, usable_family ss h),
  λ u. elim u.1 [
    | inl four ↦ simp four (ground arith)
    | inr six ↦ ground (arith, six.0, not_started v4mapped_prefix ss.sin6_addr six.1)
  ],
)

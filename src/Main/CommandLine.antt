-- ===== src/Main/CommandLine.antt =====
-- transocks.c: the configurations with which `main` goes on.
use Prim.Native.String.{String}
use transocks_wong.Prelude.{
  ℕ, ◌≡◌, refl, ap, sym, subst, ◌∙◌, true, Bool-cases, inl, inr, Option, none, some, List, [], ◌∷◌,
  Bool, false, ◌&&◌, arith,
}
use transocks_wong.Machine.{Sockaddr}
use transocks_wong.Util.{validate_addr_port, transocks_parse_sockaddr_port}
use transocks_wong.Main.{
  Opt, listener_addr_port, socks5_addr_port, pump_method, help, unknown, Args, no_args, parse_args,
  Config, Outcome, run, fatal, pump_or_default, check_config, require_args, configure,
}

-- What was given last of what a pick takes from an option.
abbrev or_before : {A : Type 0} → Option A → Option A → Option A
or_before (some x) earlier = some x
or_before none earlier = earlier

abbrev pub last_of : {A : Type 0} → (Opt → Option A) → List Opt → Option A
last_of pick [] = none
last_of pick (o ∷ os) = or_before (last_of pick os) (pick o)

abbrev pub listener_of : Opt → Option String
listener_of (listener_addr_port s) = some s
listener_of _ = none

abbrev pub socks5_of : Opt → Option String
socks5_of (socks5_addr_port s) = some s
socks5_of _ = none

-- The option may come without a value.
abbrev pub pump_of : Opt → Option (Option String)
pump_of (pump_method s) = some s
pump_of _ = none

abbrev pub method_of : Option (Option String) → String
method_of (some (some s)) = s
method_of _ = "bufferpump"

abbrev pub is_known : Opt → Bool
is_known help = false
is_known unknown = false
is_known _ = true

abbrev pub all_known : List Opt → Bool
all_known [] = true
all_known (o ∷ os) = is_known o && all_known os

value_or : {A : Type 0} → Option A → A → A
value_or none d = d
value_or (some x) d = x

-- The arguments are what was given last, or else what they were.
abbrev Parsed : List Opt → Args → Args → Type 0
Parsed opts a b =
    (b.listener ≡ or_before (last_of listener_of opts) a.listener)
    × (b.socks5 ≡ or_before (last_of socks5_of opts) a.socks5)
    × (b.pump ≡ value_or (last_of pump_of opts) a.pump)
    × (all_known opts ≡ true)

or_before-some :
    {A : Type 0} (x : Option A) (s : A) (y : Option A)
    → or_before (or_before x (some s)) y ≡ or_before x (some s)
or_before-some none s y = refl
or_before-some (some x) s y = refl

or_before-none : {A : Type 0} (x y : Option A) → or_before (or_before x none) y ≡ or_before x y
or_before-none none y = refl
or_before-none (some x) y = refl

value_or-some :
    {A : Type 0} (x : Option A) (s d : A) → value_or (or_before x (some s)) d ≡ value_or x s
unfolding value_or
value_or-some none s d = refl
value_or-some (some x) s d = refl

value_or-none : {A : Type 0} (x : Option A) (d : A) → value_or (or_before x none) d ≡ value_or x d
unfolding value_or
value_or-none none d = refl
value_or-none (some x) d = refl

ruleset given = (or_before-some, or_before-none, value_or-some, value_or-none)

parse_args-Parsed : (opts : List Opt) (a b : Args) → parse_args opts a ≡ some b → Parsed opts a b
unfolding parse_args value_or
parse_args-Parsed [] a b h =
    let e : a ≡ b = ground arith in
    (ap (λ x. x.listener) (sym e), ap (λ x. x.socks5) (sym e), ap (λ x. x.pump) (sym e), refl)
parse_args-Parsed (listener_addr_port s ∷ os) a b h =
    let (l, r, p, k) = parse_args-Parsed os (record a { listener = some s }) b h in
    (simp given l, simp given r, simp given p, k)
parse_args-Parsed (socks5_addr_port s ∷ os) a b h =
    let (l, r, p, k) = parse_args-Parsed os (record a { socks5 = some s }) b h in
    (simp given l, simp given r, simp given p, k)
parse_args-Parsed (pump_method s ∷ os) a b h =
    let (l, r, p, k) = parse_args-Parsed os (record a { pump = s }) b h in
    (simp given l, simp given r, simp given p, k)
parse_args-Parsed (help ∷ os) a b h = absurd (ground arith)
parse_args-Parsed (unknown ∷ os) a b h = absurd (ground arith)

or_before_nothing : {A : Type 0} (x : Option A) → or_before x none ≡ x
or_before_nothing none = refl
or_before_nothing (some x) = refl

pump_or_default-value :
    (x : Option (Option String)) → pump_or_default (value_or x none) ≡ method_of x
unfolding value_or
pump_or_default-value none = refl
pump_or_default-value (some none) = refl
pump_or_default-value (some (some s)) = refl

module _ (evutil_parse : String → ℕ → Option (Sockaddr × ℕ)) where
  config_or : Config → Outcome → Config
  config_or c (run cfg) = cfg
  config_or c _ = c

  run-path : {a b : Config} → run a ≡ run b → a ≡ b
  unfolding config_or
  run-path {a} h = ap (config_or a) h

  -- The two addresses are read from the last value of each option, and both pass the check.
  abbrev pub IsChecked : List Opt → Config → Type 0
  IsChecked opts cfg =
      (l : String) × (r : String) × (all_known opts ≡ true)
      × (last_of listener_of opts ≡ some l)
      × (last_of socks5_of opts ≡ some r)
      × (transocks_parse_sockaddr_port evutil_parse l ≡ some cfg.bind)
      × (transocks_parse_sockaddr_port evutil_parse r ≡ some cfg.relay)
      × (validate_addr_port cfg.bind.0 ≡ true)
      × (validate_addr_port cfg.relay.0 ≡ true)
      × (cfg.pump_method ≡ method_of (last_of pump_of opts))

  no_run : (cfg : Config) → fatal ≡ run cfg → ⊥
  no_run cfg h = cc

  validated :
      (l r : String) (pump : Option String) (cfg : Config) (pl pr : Option (Sockaddr × ℕ))
      → transocks_parse_sockaddr_port evutil_parse l ≡ pl
      → transocks_parse_sockaddr_port evutil_parse r ≡ pr
      → check_config evutil_parse l r pump ≡ run cfg
      → (transocks_parse_sockaddr_port evutil_parse l ≡ some cfg.bind)
        × (transocks_parse_sockaddr_port evutil_parse r ≡ some cfg.relay)
        × (validate_addr_port cfg.bind.0 ≡ true)
        × (validate_addr_port cfg.relay.0 ≡ true)
        × (cfg.pump_method ≡ pump_or_default pump)
  unfolding check_config
  validated l r pump cfg none pr el er h = absurd (ground (arith))
  validated l r pump cfg (some bl) none el er h = absurd (ground arith)
  validated l r pump cfg (some bl) (some br) el er h = elim (Bool-cases (validate_addr_port bl.0)) [
    | inr bad ↦ absurd (no_run cfg (rw (check_config, el, er, bad) at h))
    | inl good ↦ elim (Bool-cases (validate_addr_port br.0)) [
      | inr bad ↦ absurd (no_run cfg (rw (check_config, el, er, good, bad) at h))
      | inl fine ↦
          let same = run-path (rw (check_config, el, er, good, fine) at h) in
          (
            el ∙ ap (λ k. some k.bind) same,
            er ∙ ap (λ k. some k.relay) same,
            subst (λ k. validate_addr_port k.bind.0 ≡ true) same good,
            subst (λ k. validate_addr_port k.relay.0 ≡ true) same fine,
            sym (ap (λ k. k.pump_method) same),
          )
    ]
  ]

  from_args :
      (opts : List Opt) (cfg : Config) (a : Args)
      → parse_args opts no_args ≡ some a
      → (ol : Option String) → a.listener ≡ ol
      → (or : Option String) → a.socks5 ≡ or
      → require_args evutil_parse a.listener a.socks5 a.pump ≡ run cfg
      → IsChecked opts cfg
  unfolding require_args
  from_args opts cfg a e none el or er h = absurd (ground arith)
  from_args opts cfg a e (some l) el none er h = absurd (ground arith)
  from_args opts cfg a e (some l) el (some r) er h =
      let (bl, br, vl, vr, m) = validated l r a.pump cfg _ _ refl refl (simp (el, er) at h) in
      let (given_l, given_r, given_p, known) = parse_args-Parsed opts no_args a e in
      (
        l,
        r,
        known,
        sym (or_before_nothing (last_of listener_of opts)) ∙ sym given_l ∙ el,
        sym (or_before_nothing (last_of socks5_of opts)) ∙ sym given_r ∙ er,
        bl,
        br,
        vl,
        vr,
        m ∙ ap pump_or_default given_p ∙ pump_or_default-value (last_of pump_of opts),
      )

  -- If `main` goes on from the command line, every option of it was known and none was `--help`; the
  -- listener's and the relay's address are those that the last option of each kind gives, each parsed
  -- and then let pass by validateAddrPort; and the pump method is what the last option of its kind
  -- gives, or bufferpump if there is none or it has no value.
  pub configure-IsChecked :
      (opts : List Opt) (cfg : Config) → configure evutil_parse opts ≡ run cfg → IsChecked opts cfg
  unfolding configure require_args
  configure-IsChecked opts cfg h = go (parse_args opts no_args) refl
    where
      go : (oa : Option Args) → parse_args opts no_args ≡ oa → IsChecked opts cfg
      go none e = absurd (ground arith)
      go (some a) e = from_args opts cfg a e a.listener refl a.socks5 refl (rw (configure, e) at h)

-- ===== src/Listener/Relays.antt =====
-- socks5.c: the descriptor of an accepted client is closed if the connection to the relay fails.
use transocks_wong.Prelude.{
  ℕ, ◌≤◌, ◌<◌, ◌≡◌, ◌≢◌, refl, sym, subst, ℤ, int_eq, is_neg, nonzero, Bool, true, false, ◌&&◌,
  ◌==◌, leb, Bool-cases, ◌⊎◌, inl, inr, none, some, Option, arith,
}
use transocks_wong.Machine.{Ptr, Call, Os, Client, GlobalEnv, State, M, Callback, call_}
use transocks_wong.Machine.Log.{count, closes, close_of, count-append}
use transocks_wong.Machine.Returns.{Ends, Ends-bind, Ends-mono}
use transocks_wong.Util.{setnonblocking, apply_tcp_keepalive, apply_tcp_nodelay}
use transocks_wong.Context.{transocks_client_set_timeout}
use transocks_wong.Context.Free.{free_calls}
use transocks_wong.Context.Releases.{one_fd, closes-free_calls}
use transocks_wong.Macros.{transocks_free, transocks_close, bev_opt_close_on_free}
use transocks_wong.Socks5.{free_client, socks5_timeout}
use transocks_wong.Socks5.Connect.{
  prepare_fd, connect_bev, close_relay, free_relay_bev, transocks_start_connect_relay,
}
use transocks_wong.Socks5.Replies.{free_client-log}
use transocks_wong.Listener.Safety.{is_new, new-present, connect_step}

-- The descriptor has been closed more than `n` times.
abbrev pub Shut : ℤ → ℕ → {A : Type 0} → A → State → Type 0
Shut fd n _ t = n < closes fd t.trace

-- A new client of which `f` holds, and the environment; the descriptor was closed `n` times, or more.
abbrev pub is_kept : (Client → Bool) → ℤ → ℕ → State → Bool
is_kept f fd n s =
    elim s.client [ none ↦ false | some c ↦ is_new c.client_state && f c ]
    && elim s.env [ none ↦ false | some e ↦ true ]
    && leb n (closes fd s.trace)

abbrev pub Kept : (Client → Bool) → ℤ → ℕ → {A : Type 0} → A → State → Type 0
Kept f fd n _ t = is_kept f fd n t ≡ true

abbrev pub anyone : Client → Bool
anyone c = true

abbrev pub owner : ℤ → Client → Bool
owner fd c = int_eq c.client_fd fd

abbrev pub OwnedOrShut : ℤ → ℕ → {A : Type 0} → A → State → Type 0
OwnedOrShut fd n _ t = (is_kept (owner fd) fd n t ≡ true) ⊎ (n < closes fd t.trace)

module _ (f : Client → Bool) (fd : ℤ) (n : ℕ) where
  kept-parts :
      (s : State)
      → is_kept f fd n s ≡ true
      → (c : Client) × (e : GlobalEnv) × (s.client ≡ some c)
        × (s.env ≡ some e)
        × (is_new c.client_state ≡ true)
        × (f c ≡ true)
        × (leb n (closes fd s.trace) ≡ true)
  kept-parts s h = go s.client s.env refl refl h
    where
      go :
          (oc : Option Client) (oe : Option GlobalEnv)
          → s.client ≡ oc
          → s.env ≡ oe
          → is_kept f fd n (record s { client = oc; env = oe }) ≡ true
          → (c : Client) × (e : GlobalEnv) × (s.client ≡ some c)
            × (s.env ≡ some e)
            × (is_new c.client_state ≡ true)
            × (f c ≡ true)
            × (leb n (closes fd s.trace) ≡ true)
      go none oe ce ee h = absurd (ground arith)
      go (some c) none ce ee h = absurd (ground arith)
      go (some c) (some e) ce ee h = (c, e, ce, ee, ground arith, ground arith, ground arith)

  pub at_kept :
      {A : Type 0} (Q : A → State → Type 0) (m : M A) (os : Os)
      → ((c : Client) (e : GlobalEnv) (s : State)
          → is_new c.client_state ≡ true
          → f c ≡ true
          → leb n (closes fd s.trace) ≡ true
          → Ends Q (m os (record s { client = some c; env = some e })))
      → (s : State) → is_kept f fd n s ≡ true
      → Ends Q (m os s)
  at_kept Q m os k s h =
      let (c, e, ce, ee, g, fc, l) = kept-parts s h in
      subst (λ t. Ends Q (m os t)) (λ i. record s { client = sym ce i; env = sym ee i })
        (k c e s g fc l)

  pub prepare_fd-Kept :
      (os : Os) (d : ℤ) (s : State)
      → is_kept f fd n s ≡ true
      → Ends (Kept f fd n) (prepare_fd d os s)
  unfolding prepare_fd setnonblocking apply_tcp_keepalive apply_tcp_nodelay count
  prepare_fd-Kept os d s h = ground arith

pub shut :
    (fd : ℤ) (n : ℕ) (os : Os) {A : Type 0} (m : M A) (s : State)
    → Ends (Shut fd n) (m os s)
    → Ends (OwnedOrShut fd n) (m os s)
shut fd n os m s h = Ends-mono (Shut fd n) (OwnedOrShut fd n) (m os s) h λ _ t k. inr k

module _ (fd : ℤ) (n : ℕ) (os : Os) (p : Ptr) (ne : p ≢ 0) where
  timeout-Kept :
      (k : ℕ) (fn : Callback) (s : State)
      → is_kept (owner fd) fd n s ≡ true
      → Ends (Kept (owner fd) fd n) (transocks_client_set_timeout k fn os s)
  unfolding transocks_client_set_timeout count
  timeout-Kept k fn s h = ground arith

  one-fd : (a b : ℤ) → int_eq a b ≡ true → is_neg b ≡ false → one_fd a b ≡ 1
  one-fd (ℤ.pos a) (ℤ.pos b) h k = ground arith
  one-fd (ℤ.pos a) (ℤ.negsuc b) h k = cc
  one-fd (ℤ.negsuc a) b h k = ground arith

  pub free-Floor :
      (s : State)
      → is_kept anyone fd n s ≡ true
      → Ends (λ _ t. n ≤ closes fd t.trace) (free_client p os s)
  free-Floor =
      at_kept anyone fd n (λ _ t. n ≤ closes fd t.trace) (free_client p) os
        λ c e s g fc l.
          rw
            (
              free_client-log os p c (record s { env = some e }) ne (new-present c.client_state g),
              count-append (close_of fd) (free_calls p c) s.trace,
            )
            (ground arith)

  module _ (opened : is_neg fd ≡ false) where
    free-Shut :
        (s : State) → is_kept (owner fd) fd n s ≡ true → Ends (Shut fd n) (free_client p os s)
    free-Shut = at_kept (owner fd) fd n (Shut fd n) (free_client p) os λ c e s g fc l.
        rw
          (
            free_client-log os p c (record s { env = some e }) ne (new-present c.client_state g),
            count-append (close_of fd) (free_calls p c) s.trace,
            closes-free_calls p c fd,
            one-fd c.client_fd fd fc opened,
          )
          (ground arith)

    close_relay-Shut :
        (d : ℤ) (s : State)
        → is_kept (owner fd) fd n s ≡ true
        → Ends (Shut fd n) (close_relay p d os s)
    unfolding close_relay transocks_close count
    close_relay-Shut d s h =
        Ends-bind (Kept (owner fd) fd n) (Shut fd n) (transocks_close d os s) _ os (ground arith)
          λ _ t ht. free-Shut t ht

    free_relay_bev-Shut :
        (d : ℤ) (bev : Ptr) (s : State)
        → is_kept (owner fd) fd n s ≡ true
        → Ends (Shut fd n) (free_relay_bev p d bev os s)
    unfolding free_relay_bev transocks_free count
    free_relay_bev-Shut d bev s h =
        Ends-bind (Kept (owner fd) fd n) (Shut fd n)
          (transocks_free (λ b. call_ (Call.bufferevent_free b)) bev os s) _ os (ground arith)
          λ _ t ht. close_relay-Shut d t ht

    connect_step-Owned :
        (d : ℤ) (bev : Ptr) (s : State)
        → is_kept (owner fd) fd n s ≡ true
        → Ends (OwnedOrShut fd n) (connect_step p d bev os s)
    unfolding count
    connect_step-Owned d bev =
        at_kept (owner fd) fd n (OwnedOrShut fd n) (connect_step p d bev) os λ c e s g fc l.
          elim (Bool-cases
            (nonzero (os s.trace (Call.bufferevent_socket_connect bev e.relay_addr_len)).ret)) [
              | inl failed ↦ rw failed (
                  shut fd n os (free_relay_bev p d bev) _
                    (free_relay_bev-Shut d bev _ (rw (g, fc) (ground arith))))
              | inr begun ↦ rw begun (inl (rw (g, fc) (ground arith)))
            ]

    connect_bev-Owned :
        (d : ℤ) (s : State)
        → is_kept (owner fd) fd n s ≡ true
        → Ends (OwnedOrShut fd n) (connect_bev p d os s)
    unfolding connect_bev count
    connect_bev-Owned d =
        at_kept (owner fd) fd n (OwnedOrShut fd n) (connect_bev p d) os λ c e s g fc l.
          let bev = (os s.trace (Call.bufferevent_socket_new d bev_opt_close_on_free)).ptr in
          elim (Bool-cases (bev == 0)) [
            | inl null ↦ rw null (
                shut fd n os (close_relay p d) _ (close_relay-Shut d _ (rw (g, fc) (ground arith))))
            | inr made ↦ rw made (
                Ends-bind (Kept (owner fd) fd n) (OwnedOrShut fd n)
                  (transocks_client_set_timeout socks5_timeout Callback.socks5_timeout_cb os _) _ os
                  (timeout-Kept _ _ _ (rw (g, fc) (ground arith)))
                  λ _ t ht. connect_step-Owned d bev t ht)
          ]

    pub start_relay-Owned :
        (s : State)
        → is_kept (owner fd) fd n s ≡ true
        → Ends (OwnedOrShut fd n) (transocks_start_connect_relay p os s)
    unfolding transocks_start_connect_relay count
    start_relay-Owned =
        at_kept (owner fd) fd n (OwnedOrShut fd n) (transocks_start_connect_relay p) os
          λ c e s g fc l.
            let d = (os s.trace (Call.socket e.relay_family)).ret in
            elim (Bool-cases (is_neg d)) [
              | inl bad ↦
                  rw bad (shut fd n os (free_client p) _ (free-Shut _ (rw (g, fc) (ground arith))))
              | inr good ↦ rw good (
                  Ends-bind (Kept (owner fd) fd n) (OwnedOrShut fd n) (prepare_fd d os _) _ os
                    (prepare_fd-Kept (owner fd) fd n os d _ (rw (g, fc) (ground arith)))
                    (elim [
                      | true ↦ λ t ht. connect_bev-Owned d t ht
                      | false ↦ λ t ht. shut fd n os (close_relay p d) t (close_relay-Shut d t ht)
                    ]))
            ]

-- ===== src/Listener/Closes.antt =====
-- listener.c: no accepted descriptor is lost.
use transocks_wong.Prelude.{
  set_of, ℕ, ◌≤◌, ◌≡◌, ◌≢◌, refl, sym, subst, ℤ, minus_one, int_eq_refl, is_neg, true, false, ◌||◌,
  ◌==◌, Bool-cases, ◌⊎◌, inl, inr, none, some, List, arith,
}
use transocks_wong.Machine.{
  Ptr, Block, Call, Os, GlobalEnv, Listener, State, call_, succeeds, modify_client, set_dest, ◌>>?◌,
  ◌>>◌,
}
use transocks_wong.Machine.Log.{count, closes}
use transocks_wong.Machine.Returns.{Ends, Ends-bind}
use transocks_wong.Macros.{transocks_free, ev_read, bev_opt_close_on_free}
use transocks_wong.Util.{getorigdst, setnonblocking, apply_tcp_keepalive, apply_tcp_nodelay}
use transocks_wong.Context.{transocks_client_new}
use transocks_wong.Context.New.{client_addr, dest_addr, transocks_client_new-outcome}
use transocks_wong.Socks5.{free_client}
use transocks_wong.Socks5.Connect.{prepare_fd}
use transocks_wong.Listener.{
  free_fd, free_client_fd, free_client_bev, start_client, accept_client, listener_cb,
}
use transocks_wong.Listener.Accepts.{is_listening, join_step, dest_step, accept_step}
use transocks_wong.Listener.Relays.{
  Shut, is_kept, Kept, anyone, owner, OwnedOrShut, shut, at_kept, free-Floor, start_relay-Owned,
}

module _ (fd : ℤ) (n : ℕ) (opened : is_neg fd ≡ false) (os : Os) where
  free_fd-Shut : (s : State) → n ≤ closes fd s.trace → Ends (Shut fd n) (free_fd fd os s)
  unfolding free_fd count
  free_fd-Shut s h = rw (opened, int_eq_refl fd) (omega arith)

  getorigdst-Kept :
      (s : State) → is_kept anyone fd n s ≡ true → Ends (Kept anyone fd n) (getorigdst fd os s)
  unfolding getorigdst count
  getorigdst-Kept s h = ground arith

  null_client-Shut :
      (s : State) → n ≤ closes fd s.trace → Ends (Shut fd n) (free_client_fd 0 fd os s)
  unfolding free_client_fd free_client transocks_free
  null_client-Shut s h = free_fd-Shut s h

  module _ (p : Ptr) (ne : p ≢ 0) where
    client_fd-Shut :
        (s : State) → is_kept anyone fd n s ≡ true → Ends (Shut fd n) (free_client_fd p fd os s)
    unfolding free_client_fd
    client_fd-Shut s h =
        Ends-bind (λ _ t. n ≤ closes fd t.trace) (Shut fd n) (free_client p os s) _ os
          (free-Floor fd n os p ne s h) λ _ t ht. free_fd-Shut t ht

    client_bev-Shut :
        (bev : Ptr) (s : State)
        → is_kept anyone fd n s ≡ true
        → Ends (Shut fd n) (free_client_bev p fd bev os s)
    unfolding free_client_bev transocks_free count
    client_bev-Shut bev s h =
        Ends-bind (Kept anyone fd n) (Shut fd n)
          (transocks_free (λ b. call_ (Call.bufferevent_free b)) bev os s) _ os (ground arith)
          λ _ t ht. client_fd-Shut t ht

    joins :
        (bev : Ptr) (s : State)
        → is_kept (owner fd) fd n s ≡ true
        → Ends (OwnedOrShut fd n) (join_step p bev os s)
    unfolding count
    joins bev =
        at_kept (owner fd) fd n (OwnedOrShut fd n) (join_step p bev) os
          λ c e s g fc l. start_relay-Owned fd n os p ne opened _ (rw (g, fc) (ground arith))

    kept_by_all : (s : State) → is_kept (owner fd) fd n s ≡ true → is_kept anyone fd n s ≡ true
    kept_by_all s h = ground arith

    start_client-Owned :
        (s : State)
        → is_kept anyone fd n s ≡ true
        → Ends (OwnedOrShut fd n) (start_client p fd os s)
    unfolding start_client count
    start_client-Owned =
        at_kept anyone fd n (OwnedOrShut fd n) (start_client p fd) os λ c e s g fc l.
          let bev =
            (os s.trace (Call.bufferevent_socket_new minus_one bev_opt_close_on_free)).ptr in
          elim (Bool-cases (bev == 0)) [
            | inl null ↦ rw null (
                shut fd n os (free_client_bev p fd bev) _
                  (client_bev-Shut bev _ (rw g (ground arith))))
            | inr made ↦ rw made (
                Ends-bind (Kept (owner fd) fd n) (OwnedOrShut fd n)
                  ((succeeds (Call.bufferevent_disable bev ev_read)
                      >>? succeeds (Call.bufferevent_setfd bev fd))
                    os _)
                  _ os (ground (arith, int_eq_refl fd))
                  (elim [
                    | true ↦ λ t ht. joins bev t ht
                    | false ↦ λ t ht.
                        shut fd n os (free_client_bev p fd bev) t
                          (client_bev-Shut bev t (kept_by_all t ht))
                  ]))
          ]

    dest_step-Owned :
        (len : ℕ) (s : State)
        → is_kept anyone fd n s ≡ true
        → Ends (OwnedOrShut fd n) (dest_step p fd len os s)
    dest_step-Owned len =
        at_kept anyone fd n (OwnedOrShut fd n) (dest_step p fd len) os λ c e s g fc l.
          Ends-bind (Kept anyone fd n) (OwnedOrShut fd n) (getorigdst fd os _) _ os
            (getorigdst-Kept _ (rw g l))
            (elim [
              | none ↦ λ t ht. shut fd n os (free_client_fd p fd) t (client_fd-Shut t ht)
              | some (sa, k) ↦
                  at_kept anyone fd n (OwnedOrShut fd n)
                    (set_dest sa
                      >> (modify_client (λ c. record c { dest_addr_len = k }) >> start_client p fd))
                    os λ c' e' t g' fc' l'. start_client-Owned _ (rw g' l')
            ])

  -- What `transocks_client_new` leaves.
  Made : Ptr → State → Type 0
  Made p t = ((p ≡ 0) × (n ≤ closes fd t.trace)) ⊎ ((p ≢ 0) × (is_kept anyone fd n t ≡ true))

  Waiting : {A : Type 0} → A → State → Type 0
  Waiting _ t = (t.client ≡ none) × (is_listening t ≡ true) × (n ≤ closes fd t.trace)

  prepare_fd-Waiting : (s : State) → Waiting tt s → Ends Waiting (prepare_fd fd os s)
  unfolding prepare_fd setnonblocking apply_tcp_keepalive apply_tcp_nodelay count Waiting
  prepare_fd-Waiting s (e, h, l) = ground arith

  module _ (blocks : (tr : List Call) → (os tr (Call.malloc Block.client)).ptr ≢ 0) where
    new-Made : (env : Ptr) (s : State) → Waiting tt s → Ends Made (transocks_client_new env os s)
    unfolding Made Waiting count
    new-Made env s (e, h, l) =
        rw (transocks_client_new-outcome os env s, set_of _ (blocks s.trace))
          (elim (Bool-cases ((client_addr os env s == 0) || (dest_addr os env s == 0))) [
            | inl missing ↦ rw missing (inl (refl, ground arith))
            | inr all ↦ rw all (inr (blocks s.trace, ground arith))
          ])

    accept_client-Owned :
        (env : Ptr) (len : ℕ) (s : State)
        → Waiting tt s
        → Ends (OwnedOrShut fd n) (accept_client env fd len os s)
    unfolding accept_client Made
    accept_client-Owned env len s w =
        Ends-bind Made (OwnedOrShut fd n) (transocks_client_new env os s) _ os (new-Made env s w)
          λ p t m. elim m [
            | inl (null, floor) ↦
                simp null (shut fd n os (free_client_fd 0 fd) t (null_client-Shut t floor))
            | inr (ne, kept) ↦ rw (set_of p ne) (dest_step-Owned p ne len t kept)
          ]

    accept_step-Owned :
        (env : Ptr) (len : ℕ) (s : State)
        → Waiting tt s
        → Ends (OwnedOrShut fd n) (accept_step env fd len os s)
    unfolding Waiting
    accept_step-Owned env len s w =
        Ends-bind Waiting (OwnedOrShut fd n) (prepare_fd fd os s) _ os (prepare_fd-Waiting s w)
          (elim [
            | true ↦ λ t v. accept_client-Owned env len t v
            | false ↦ λ t v. shut fd n os (free_fd fd) t (free_fd-Shut t v.2)
          ])

    answered :
        (env : Ptr) (e : GlobalEnv) (l : Listener) (s : State)
        → (os s.trace (Call.accept l.listener_fd)).ret ≡ fd
        → e.listener ≡ some l
        → s.client ≡ none
        → closes fd s.trace ≡ n
        → Ends (OwnedOrShut fd n) (listener_cb env os (record s { env = some e }))
    unfolding listener_cb count Waiting
    answered env e l s got le gone floor =
        let r = os s.trace (Call.accept l.listener_fd) in
        simp (le, got)
          (rw opened (elim (Bool-cases (r.size == 0)) [
            | inl unnamed ↦
                rw unnamed (shut fd n os (free_fd fd) _ (free_fd-Shut _ (omega (arith, floor))))
            | inr named ↦
                rw named (accept_step-Owned env r.size _ (gone, simp le refl, omega (arith, floor)))
          ]))

-- A descriptor that `listener_cb` accepts, with a listener and no client in view, is not lost: at the
-- end a new client is there that has it, or it has been closed. The allocator has a block for the
-- client.
pub listener_cb-OwnedOrShut :
    (os : Os) (env : Ptr) (e : GlobalEnv) (l : Listener) (s : State)
    → ((tr : List Call) → (os tr (Call.malloc Block.client)).ptr ≢ 0)
    → s.env ≡ some e
    → e.listener ≡ some l
    → s.client ≡ none
    → is_neg (os s.trace (Call.accept l.listener_fd)).ret ≡ false
    → Ends
        (OwnedOrShut
          (os s.trace (Call.accept l.listener_fd)).ret
          (closes (os s.trace (Call.accept l.listener_fd)).ret s.trace))
        (listener_cb env os s)
listener_cb-OwnedOrShut os env e l s blocks ee le gone opened =
    let fd = (os s.trace (Call.accept l.listener_fd)).ret in
    subst (λ t. Ends (OwnedOrShut fd (closes fd s.trace)) (listener_cb env os t))
      (λ i. record s { env = sym ee i })
      (answered fd (closes fd s.trace) opened os blocks env e l s refl le gone refl)

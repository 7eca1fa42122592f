-- ===== src/Listener/Accepts.antt =====
-- listener.c: `listener_cb` on every answer of the outside world.
use transocks_wong.Prelude.{
  set_of, ℕ, ◌≡◌, ◌≢◌, refl, sym, subst, ℤ, minus_one, is_neg, Bool, true, false, ◌||◌, ◌==◌,
  Bool-cases, ◌⊎◌, inl, inr, none, some, List, if◌then◌else◌, arith,
}
use transocks_wong.Machine.{
  Ptr, Block, Call, Os, GlobalEnv, Listener, State, M, call_, succeeds, modify_client, set_dest,
  ◌>>?◌, ◌>>=◌, ◌>>◌,
}
use transocks_wong.Machine.Returns.{Ends, Ends-bind}
use transocks_wong.Macros.{transocks_free, ev_read, bev_opt_close_on_free}
use transocks_wong.Util.{getorigdst, setnonblocking, apply_tcp_keepalive, apply_tcp_nodelay}
use transocks_wong.Context.{transocks_client_new}
use transocks_wong.Context.New.{client_addr, dest_addr, transocks_client_new-outcome}
use transocks_wong.Socks5.{free_client}
use transocks_wong.Socks5.Connect.{prepare_fd, transocks_start_connect_relay}
use transocks_wong.Connection.{handlers}
use transocks_wong.Listener.{
  free_fd, free_client_fd, free_client_bev, start_client, accept_client, listener_cb,
}
use transocks_wong.Listener.Safety.{
  timer_refused, is_served, Served, Answered, free-Answered, start_relay-Answered, at_served,
}

free_fd-Answered :
    (os : Os) (fd : ℤ) (s : State) → Answered os tt s → Ends (Answered os) (free_fd fd os s)
unfolding free_fd handlers timer_refused
free_fd-Answered os fd s a = elim (Bool-cases (is_neg fd)) [
  | inl closed ↦ rw closed a
  | inr still_open ↦ rw still_open a
]

-- The last step of `start_client`.
abbrev pub join_step : Ptr → Ptr → M (Unit {0})
join_step p bev = do
  modify_client (λ c. record c { client_bev = bev })
  call_ (Call.list_add_tail p)
  transocks_start_connect_relay p

module _ (os : Os) (p : Ptr) (ne : p ≢ 0) where
  client_fd-Answered :
      (fd : ℤ) (s : State) → is_served s ≡ true → Ends (Answered os) (free_client_fd p fd os s)
  unfolding free_client_fd
  client_fd-Answered fd s h =
      Ends-bind (Answered os) (Answered os) (free_client p os s) _ os (free-Answered os p ne s h)
        λ _ t ht. free_fd-Answered os fd t ht

  client_bev-Answered :
      (fd : ℤ) (bev : Ptr) (s : State)
      → is_served s ≡ true
      → Ends (Answered os) (free_client_bev p fd bev os s)
  unfolding free_client_bev transocks_free
  client_bev-Answered fd bev s h =
      Ends-bind Served (Answered os)
        (transocks_free (λ b. call_ (Call.bufferevent_free b)) bev os s) _ os (ground arith)
        λ _ t ht. client_fd-Answered fd t ht

  joining : (bev : Ptr) (s : State) → is_served s ≡ true → Ends (Answered os) (join_step p bev os s)
  joining bev =
      at_served os p ne (Answered os) (join_step p bev)
        λ c e s g. start_relay-Answered os p ne _ (rw g refl)

  start_client-Answered :
      (fd : ℤ) (s : State) → is_served s ≡ true → Ends (Answered os) (start_client p fd os s)
  unfolding start_client
  start_client-Answered fd = at_served os p ne (Answered os) (start_client p fd) λ c e s g.
      let bev = (os s.trace (Call.bufferevent_socket_new minus_one bev_opt_close_on_free)).ptr in
      elim (Bool-cases (bev == 0)) [
        | inl null ↦ rw null (client_bev-Answered fd bev _ (rw g refl))
        | inr made ↦ rw made (
            Ends-bind Served (Answered os)
              ((succeeds (Call.bufferevent_disable bev ev_read)
                  >>? succeeds (Call.bufferevent_setfd bev fd))
                os _)
              _ os (ground arith)
              (elim [
                | true ↦ λ t ht. joining bev t ht
                | false ↦ λ t ht. client_bev-Answered fd bev t ht
              ]))
      ]

-- What `transocks_client_new` leaves, if its block is to be had.
abbrev Made : Ptr → State → Type 0
Made p t = ((p ≡ 0) × (t.client ≡ none)) ⊎ ((p ≢ 0) × (is_served t ≡ true))

-- The environment is there, with a listener.
abbrev pub is_listening : State → Bool
is_listening s = elim s.env [
  | none ↦ false
  | some e ↦ elim e.listener [ none ↦ false | some l ↦ true ]
]

null_client-Answered :
    (os : Os) (fd : ℤ) (t : State) → t.client ≡ none → Ends (Answered os) (free_client_fd 0 fd os t)
unfolding free_client_fd free_client transocks_free
null_client-Answered os fd t gone = free_fd-Answered os fd t (inl gone)

-- The last step of `accept_client`.
abbrev pub dest_step : Ptr → ℤ → ℕ → M (Unit {0})
dest_step p fd len = do
  modify_client (λ c. record c { client_addr_len = len })
  dst ← getorigdst fd
  elim dst [
    | none ↦ free_client_fd p fd
    | some (sa, dst_len) ↦ do
      set_dest sa
      modify_client (λ c. record c { dest_addr_len = dst_len })
      start_client p fd
  ]

getorigdst-Served :
    (os : Os) (fd : ℤ) (s : State) → is_served s ≡ true → Ends Served (getorigdst fd os s)
unfolding getorigdst
getorigdst-Served os fd s h = ground arith

destined :
    (os : Os) (p : Ptr) (ne : p ≢ 0) (fd : ℤ) (len : ℕ) (s : State)
    → is_served s ≡ true
    → Ends (Answered os) (dest_step p fd len os s)
destined os p ne fd len = at_served os p ne (Answered os) (dest_step p fd len) λ c e s g.
    Ends-bind Served (Answered os) (getorigdst fd os _) _ os (getorigdst-Served os fd _ (rw g refl))
      (elim [
        | none ↦ λ t ht. client_fd-Answered os p ne fd t ht
        | some (sa, n) ↦
            at_served os p ne (Answered os)
              (set_dest sa
                >> (modify_client (λ c. record c { dest_addr_len = n }) >> start_client p fd))
              λ c' e' t g'. start_client-Answered os p ne fd _ (rw g' refl)
      ])

-- The last step of `listener_cb`.
abbrev pub accept_step : Ptr → ℤ → ℕ → M (Unit {0})
accept_step env fd len = do
  good ← prepare_fd fd
  if good then accept_client env fd len else free_fd fd

prepare_fd-Waiting :
    (os : Os) (fd : ℤ) (s : State)
    → s.client ≡ none
    → is_listening s ≡ true
    → Ends (λ _ t. (t.client ≡ none) × (is_listening t ≡ true)) (prepare_fd fd os s)
unfolding prepare_fd setnonblocking apply_tcp_keepalive apply_tcp_nodelay
prepare_fd-Waiting os fd s e h = ground arith

module _ (os : Os) (blocks : (tr : List Call) → (os tr (Call.malloc Block.client)).ptr ≢ 0) where
  new-Made :
      (env : Ptr) (s : State)
      → s.client ≡ none
      → is_listening s ≡ true
      → Ends Made (transocks_client_new env os s)
  new-Made env s e h =
      rw (transocks_client_new-outcome os env s, set_of _ (blocks s.trace))
        (elim (Bool-cases ((client_addr os env s == 0) || (dest_addr os env s == 0))) [
          | inl missing ↦ rw missing (inl (refl, refl))
          | inr all ↦ rw all (inr (blocks s.trace, ground arith))
        ])

  accept_client-Answered :
      (env : Ptr) (fd : ℤ) (len : ℕ) (s : State)
      → s.client ≡ none
      → is_listening s ≡ true
      → Ends (Answered os) (accept_client env fd len os s)
  unfolding accept_client
  accept_client-Answered env fd len s e h =
      Ends-bind Made (Answered os) (transocks_client_new env os s) _ os (new-Made env s e h)
        λ p t m. elim m [
          | inl (null, gone) ↦ simp null (null_client-Answered os fd t gone)
          | inr (ne, served) ↦ rw (set_of p ne) (destined os p ne fd len t served)
        ]

  accepted :
      (env : Ptr) (fd : ℤ) (len : ℕ) (s : State)
      → s.client ≡ none
      → is_listening s ≡ true
      → Ends (Answered os) (accept_step env fd len os s)
  accepted env fd len s e h =
      Ends-bind (λ _ t. (t.client ≡ none) × (is_listening t ≡ true)) (Answered os)
        (prepare_fd fd os s) _ os (prepare_fd-Waiting os fd s e h)
        (elim [
          | true ↦ λ t w. accept_client-Answered env fd len t w.0 w.1
          | false ↦ λ t w. free_fd-Answered os fd t (inl w.0)
        ])

  listening :
      (env : Ptr) (e : GlobalEnv) (l : Listener) (s : State)
      → e.listener ≡ some l
      → s.client ≡ none
      → Ends (Answered os) (listener_cb env os (record s { env = some e }))
  unfolding listener_cb
  listening env e l s le gone =
      let r = os s.trace (Call.accept l.listener_fd) in
      simp le (elim (Bool-cases (is_neg r.ret)) [
        | inl failed ↦ rw failed (inl gone)
        | inr fine ↦ rw fine (elim (Bool-cases (r.size == 0)) [
          | inl unnamed ↦ rw unnamed (free_fd-Answered os r.ret _ (inl gone))
          | inr named ↦ rw named (accepted env r.ret r.size _ gone (simp le refl))
        ])
      ])

  -- `listener_cb`, with a listener and no client in view, never uses the block of the client after it has
  -- freed it, if the allocator has a block for the client. Then there is no client, or it is freed; or it
  -- is there, in its state of a new client, with the environment, libevent is to tell of the connection to
  -- the relay, and the client has its timer, unless `evtimer_new` has returned NULL. Nothing is said of
  -- whether a bufferevent is used after it was freed.
  pub listener_cb-Answered :
      (env : Ptr) (e : GlobalEnv) (l : Listener) (s : State)
      → s.env ≡ some e
      → e.listener ≡ some l
      → s.client ≡ none
      → Ends (Answered os) (listener_cb env os s)
  listener_cb-Answered env e l s ee le gone =
      subst (λ t. Ends (Answered os) (listener_cb env os t)) (λ i. record s { env = sym ee i })
        (listening env e l s le gone)

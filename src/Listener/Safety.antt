-- ===== src/Listener/Safety.antt =====
-- listener.c: what `listener_cb` leaves of an accepted connection.
use transocks_wong.Prelude.{
  ℕ, ◌≡◌, ◌≢◌, refl, sym, subst, ℤ, is_neg, nonzero, List, [], ◌∷◌, ◌||◌, not, Bool, true, false,
  ◌&&◌, ◌==◌, Bool-cases, ◌⊎◌, inl, inr, none, some, Option, if◌then◌else◌, arith,
}
use transocks_wong.Machine.{
  Ptr, Call, Os, Client, ClientState, GlobalEnv, State, M, Callback, call, call_, get_env, skip,
  ◌>>=◌,
}
use transocks_wong.Machine.Returns.{Ends, Ends-bind}
use transocks_wong.Util.{setnonblocking, apply_tcp_keepalive, apply_tcp_nodelay}
use transocks_wong.Context.{is_gone, transocks_client_set_timeout}
use transocks_wong.Context.Live.{State-live}
use transocks_wong.Macros.{transocks_free, transocks_close, bev_opt_close_on_free}
use transocks_wong.Socks5.{free_client, socks5_timeout}
use transocks_wong.Socks5.Connect.{
  prepare_fd, connect_bev, close_relay, free_relay_bev, transocks_start_connect_relay,
}
use transocks_wong.Connection.{Phase, connecting, handlers}
use transocks_wong.Socks5.Replies.{free_client-log}

abbrev pub is_new : ClientState → Bool
is_new ClientState.new = true
is_new _ = false

-- The client is there and new, and the environment is there.
abbrev pub is_served : State → Bool
is_served s =
    elim s.client [ none ↦ false | some c ↦ is_new c.client_state ]
    && elim s.env [ none ↦ false | some e ↦ true ]

abbrev pub is_connecting : Phase → Bool
is_connecting connecting = true
is_connecting _ = false

-- `evtimer_new` has once returned NULL.
unfoldable pub timer_refused : Os → List Call → Bool
timer_refused os [] = false
timer_refused os (Call.evtimer_new cb ∷ tr) =
    (os tr (Call.evtimer_new cb)).ptr == 0 || timer_refused os tr
timer_refused os (_ ∷ tr) = timer_refused os tr

-- And libevent is to tell of the connection to the relay, or of its timer, unless it made none.
abbrev pub is_linked : Os → State → Bool
is_linked os s =
    is_served s
    && is_connecting (handlers s.trace)
    && elim s.client [ none ↦ false | some c ↦ not (c.timeout_ev == 0) || timer_refused os s.trace ]

abbrev pub Served : {A : Type 0} → A → State → Type 0
Served _ t = is_served t ≡ true

abbrev Linked : Os → {A : Type 0} → A → State → Type 0
Linked os _ t = is_linked os t ≡ true

abbrev pub Answered : Os → {A : Type 0} → A → State → Type 0
Answered os _ t = (t.client ≡ none) ⊎ (is_linked os t ≡ true)

pub new-present : (st : ClientState) → is_new st ≡ true → is_gone st ≡ false
new-present ClientState.new n = refl
new-present st n = cc

client-part :
    (s : State)
    → is_served s ≡ true
    → (c : Client) × (s.client ≡ some c) × (is_new c.client_state ≡ true)
client-part s h = go s.client refl h
  where
    go :
        (oc : Option Client)
        → s.client ≡ oc
        → is_served (record s { client = oc }) ≡ true
        → (c : Client) × (s.client ≡ some c) × (is_new c.client_state ≡ true)
    go none e h = absurd (ground arith)
    go (some c) e h = (c, e, ground arith)

env-part : (s : State) → is_served s ≡ true → (e : GlobalEnv) × (s.env ≡ some e)
env-part s h = go s.env refl
  where
    go : (oe : Option GlobalEnv) → s.env ≡ oe → (e : GlobalEnv) × (s.env ≡ some e)
    go none e = absurd (ground arith)
    go (some v) e = (v, e)

-- The last step of `connect_bev`.
abbrev pub connect_step : Ptr → ℤ → Ptr → M (Unit {0})
connect_step p fd bev = do
  env ← get_env
  e ← call (Call.bufferevent_socket_connect bev env.relay_addr_len)
  if nonzero e.ret then free_relay_bev p fd bev else skip

module _ (os : Os) where
  pub prepare_fd-Served :
      (fd : ℤ) (s : State) → is_served s ≡ true → Ends Served (prepare_fd fd os s)
  unfolding prepare_fd setnonblocking apply_tcp_keepalive apply_tcp_nodelay
  prepare_fd-Served fd s h = ground arith

  module _ (p : Ptr) (ne : p ≢ 0) where
    pub free-Answered : (s : State) → is_served s ≡ true → Ends (Answered os) (free_client p os s)
    free-Answered s h =
        let (c, e, n) = client-part s h in
        subst (λ t. Ends (Answered os) (free_client p os t)) (sym (State-live s e))
          (rw (free_client-log os p c s ne (new-present c.client_state n)) (inl refl))

    pub at_served :
        (Q : Unit {0} → State → Type 0) (m : M (Unit {0}))
        → ((c : Client) (e : GlobalEnv) (s : State)
            → is_new c.client_state ≡ true
            → Ends Q (m os (record s { client = some c; env = some e })))
        → (s : State) → is_served s ≡ true
        → Ends Q (m os s)
    at_served Q m k s h =
        let (c, ce, g) = client-part s h in
        let (e, ee) = env-part s h in
        subst (λ t. Ends Q (m os t)) (λ i. record s { client = sym ce i; env = sym ee i })
          (k c e s g)

    timeout-Linked :
        (n : ℕ) (fn : Callback) (s : State)
        → (is_served s && is_connecting (handlers s.trace)) ≡ true
        → Ends (Linked os) (transocks_client_set_timeout n fn os s)
    unfolding transocks_client_set_timeout handlers timer_refused
    timeout-Linked n fn s h = ground arith

    close_relay-Answered :
        (fd : ℤ) (s : State) → is_served s ≡ true → Ends (Answered os) (close_relay p fd os s)
    unfolding close_relay transocks_close
    close_relay-Answered fd s h =
        Ends-bind Served (Answered os) (transocks_close fd os s) _ os (ground arith)
          λ _ t ht. free-Answered t ht

    free_relay_bev-Answered :
        (fd : ℤ) (bev : Ptr) (s : State)
        → is_served s ≡ true
        → Ends (Answered os) (free_relay_bev p fd bev os s)
    unfolding free_relay_bev transocks_free
    free_relay_bev-Answered fd bev s h =
        Ends-bind Served (Answered os)
          (transocks_free (λ b. call_ (Call.bufferevent_free b)) bev os s) _ os (ground arith)
          λ _ t ht. close_relay-Answered fd t ht

    linking :
        (fd : ℤ) (bev : Ptr) (c : Client) (e : GlobalEnv) (s : State)
        → is_new c.client_state ≡ true
        → is_connecting (handlers s.trace) ≡ true
        → (not (c.timeout_ev == 0) || timer_refused os s.trace) ≡ true
        → Ends (Answered os) (connect_step p fd bev os (record s { client = some c; env = some e }))
    unfolding handlers timer_refused
    linking fd bev c e s g l h =
        elim (Bool-cases
          (nonzero (os s.trace (Call.bufferevent_socket_connect bev e.relay_addr_len)).ret)) [
            | inl failed ↦ rw failed (free_relay_bev-Answered fd bev _ (rw g refl))
            | inr begun ↦ rw begun (inr (rw (g, l, h) refl))
          ]

    linked :
        (fd : ℤ) (bev : Ptr) (t : State)
        → is_linked os t ≡ true
        → Ends (Answered os) (connect_step p fd bev os t)
    linked fd bev t h =
        let served : is_served t ≡ true = ground arith in
        let (c, ce, g) = client-part t served in
        let (e, ee) = env-part t served in
        let timed = subst (λ o. is_linked os (record t { client = o }) ≡ true) ce h in
        subst (λ u. Ends (Answered os) (connect_step p fd bev os u))
          (λ i. record t { client = sym ce i; env = sym ee i })
          (linking fd bev c e t g (ground arith) (ground arith))

    connect_bev-Answered :
        (fd : ℤ) (s : State) → is_served s ≡ true → Ends (Answered os) (connect_bev p fd os s)
    unfolding connect_bev handlers
    connect_bev-Answered fd = at_served (Answered os) (connect_bev p fd) λ c e s g.
        let bev = (os s.trace (Call.bufferevent_socket_new fd bev_opt_close_on_free)).ptr in
        elim (Bool-cases (bev == 0)) [
          | inl null ↦ rw null (close_relay-Answered fd _ (rw g refl))
          | inr made ↦ rw made (
              Ends-bind (Linked os) (Answered os)
                (transocks_client_set_timeout socks5_timeout Callback.socks5_timeout_cb os _) _ os
                (timeout-Linked _ _ _ (rw g refl)) λ _ t ht. linked fd bev t ht)
        ]

    pub start_relay-Answered :
        (s : State) → is_served s ≡ true → Ends (Answered os) (transocks_start_connect_relay p os s)
    unfolding transocks_start_connect_relay
    start_relay-Answered = at_served (Answered os) (transocks_start_connect_relay p) λ c e s g.
        let fd = (os s.trace (Call.socket e.relay_family)).ret in
        elim (Bool-cases (is_neg fd)) [
          | inl bad ↦ rw bad (free-Answered _ (rw g refl))
          | inr good ↦ rw good (
              Ends-bind Served (Answered os) (prepare_fd fd os _) _ os
                (prepare_fd-Served fd _ (rw g refl))
                (elim [
                  | true ↦ λ t ht. connect_bev-Answered fd t ht
                  | false ↦ λ t ht. close_relay-Answered fd t ht
                ]))
        ]

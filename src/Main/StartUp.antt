-- ===== src/Main/StartUp.antt =====
-- transocks.c: what the start of the program leaves, on every answer of the outside world.
use transocks_wong.Prelude.{
  set_of, ◌≡◌, ◌≢◌, refl, ℤ, nonzero, subst, sym, Bool, true, false, not, ◌&&◌, ◌||◌, ◌==◌,
  Bool-cases, ◌⊎◌, inl, inr, none, some, Option, List, [], ◌∷◌, if◌then◌else◌, arith,
}
use transocks_wong.Machine.{
  Ptr, Listener, Block, Call, Callback, Signal, sigterm, sigint, sighup, sigusr1, Os, GlobalEnv,
  State, M, pure, call, modify_env, ◌>>=◌, ◌>>◌,
}
use transocks_wong.Machine.Returns.{Ends, Ends-bind}
use transocks_wong.Signal.{signal_init}
use transocks_wong.Listener.{listener_init}
use transocks_wong.GlobalEnv.{transocks_global_env_new}
use transocks_wong.GlobalEnv.New.{
  bind_addr, relay_addr, event_base, transocks_global_env_new-outcome,
}
use transocks_wong.Pump.{Method, transocks_pump_init}
use transocks_wong.Main.{Config, start_up}
use transocks_wong.Listener.Starts.{
  kept, listens_in, Lasts, is_added, has_listener, Listens, at_env, listener_init-Listens,
}

abbrev pub has_env : State → Bool
has_env s = elim s.env [ none ↦ false | some e ↦ true ]

-- `evsignal_new` has made this event for a signal, with the signal's callback.
unfoldable pub is_made : Os → Signal → Ptr → List Call → Bool
is_made os sig ev [] = false
is_made os sigterm ev (Call.evsignal_new sigterm Callback.terminate_signal_cb ∷ tr) =
    (os tr (Call.evsignal_new sigterm Callback.terminate_signal_cb)).ptr == ev
    || is_made os sigterm ev tr
is_made os sigint ev (Call.evsignal_new sigint Callback.terminate_signal_cb ∷ tr) =
    (os tr (Call.evsignal_new sigint Callback.terminate_signal_cb)).ptr == ev
    || is_made os sigint ev tr
is_made os sighup ev (Call.evsignal_new sighup Callback.dump_client_info_signal_cb ∷ tr) =
    (os tr (Call.evsignal_new sighup Callback.dump_client_info_signal_cb)).ptr == ev
    || is_made os sighup ev tr
is_made os sigusr1 ev (Call.evsignal_new sigusr1 Callback.drop_all_clients_signal_cb ∷ tr) =
    (os tr (Call.evsignal_new sigusr1 Callback.drop_all_clients_signal_cb)).ptr == ev
    || is_made os sigusr1 ev tr
is_made os sig ev (_ ∷ tr) = is_made os sig ev tr

-- An event for the signal is there, and was added.
abbrev pub is_caught : Os → Signal → Ptr → List Call → Bool
is_caught os sig ev tr = not (ev == 0) && is_made os sig ev tr && is_added os ev tr

abbrev pub signals_of : Os → GlobalEnv → List Call → Bool
signals_of os e tr =
    is_caught os sigterm e.sigterm_ev tr
    && is_caught os sigint e.sigint_ev tr
    && is_caught os sighup e.sighup_ev tr
    && is_caught os sigusr1 e.sigusr1_ev tr

abbrev pub has_signals : Os → State → Bool
has_signals os s = kept (signals_of os) s

is_added-cons :
    (os : Os) (ev : Ptr) (c : Call) (tr : List Call)
    → is_added os ev tr ≡ true
    → is_added os ev (c ∷ tr) ≡ true
unfolding is_added
is_added-cons os ev (Call.event_add a) tr h = ground arith
is_added-cons os ev c tr h = h

or_right : (a b : Bool) → b ≡ true → (a || b) ≡ true
or_right a b h = ground arith

is_made-cons :
    (os : Os) (sig : Signal) (ev : Ptr) (c : Call) (tr : List Call)
    → is_made os sig ev tr ≡ true
    → is_made os sig ev (c ∷ tr) ≡ true
unfolding is_made
is_made-cons os sigterm ev (Call.evsignal_new sigterm Callback.terminate_signal_cb) tr h =
    or_right _ _ h
is_made-cons os sigint ev (Call.evsignal_new sigint Callback.terminate_signal_cb) tr h =
    or_right _ _ h
is_made-cons os sighup ev (Call.evsignal_new sighup Callback.dump_client_info_signal_cb) tr h =
    or_right _ _ h
is_made-cons os sigusr1 ev (Call.evsignal_new sigusr1 Callback.drop_all_clients_signal_cb) tr h =
    or_right _ _ h
is_made-cons os sig ev c tr h = h

is_caught-cons :
    (os : Os) (sig : Signal) (ev : Ptr) (c : Call) (tr : List Call)
    → is_caught os sig ev tr ≡ true
    → is_caught os sig ev (c ∷ tr) ≡ true
is_caught-cons os sig ev c tr h =
    let made = is_made-cons os sig ev c tr (ground arith) in
    let added = is_added-cons os ev c tr (ground arith) in ground arith

listens_in-cons :
    (os : Os) (ol : Option Listener) (c : Call) (tr : List Call)
    → listens_in os ol tr ≡ true
    → listens_in os ol (c ∷ tr) ≡ true
listens_in-cons os none c tr h = h
listens_in-cons os (some l) c tr h =
    let added = is_added-cons os l.listener_ev c tr (ground arith) in ground arith

signals_of-Lasts : (os : Os) → Lasts (signals_of os)
signals_of-Lasts os e c tr h =
    let a = is_caught-cons os sigterm e.sigterm_ev c tr (ground arith) in
    let b = is_caught-cons os sigint e.sigint_ev c tr (ground arith) in
    let d = is_caught-cons os sighup e.sighup_ev c tr (ground arith) in
    let u = is_caught-cons os sigusr1 e.sigusr1_ev c tr (ground arith) in ground arith

-- 0 is returned only with what the function was to set.
abbrev pub Sets : (State → Bool) → ℤ → State → Type 0
Sets f r t = (has_env t ≡ true) × ((nonzero r ≡ true) ⊎ (f t ≡ true))

pub signal_init-Sets :
    (os : Os) (s : State) → has_env s ≡ true → Ends (Sets (has_signals os)) (signal_init os s)
unfolding signal_init is_added is_made
signal_init-Sets os s h = ground arith

other_one : {X : Type 0} (b : Bool) → b ≡ false → (b ≡ true) ⊎ X → X
other_one b e (inl h) = absurd (ground arith)
other_one b e (inr x) = x

new-HasEnv :
    (os : Os) (s : State)
    → (os s.trace (Call.calloc Block.global_env)).ptr ≢ 0
    → Ends (λ r t. (r ≡ 0) ⊎ ((r ≢ 0) × (has_env t ≡ true))) (transocks_global_env_new os s)
new-HasEnv os s ne =
    rw (transocks_global_env_new-outcome os s, set_of _ ne)
      (elim (Bool-cases ((bind_addr os s == 0) || (relay_addr os s == 0))) [
        | inl missing ↦ rw missing (inl refl)
        | inr all ↦ rw all (elim (Bool-cases (event_base os s == 0)) [
          | inl no_base ↦ rw no_base (inl refl)
          | inr base ↦ rw base (inr (ne, refl))
        ])
      ])

-- The steps of `start_up` from the name of the method on, and from the addresses on.
abbrev pub name_step : Config → Ptr → M (Ptr × Option Method)
name_step cfg env = do
  name ← call Call.strdup
  modify_env (λ g. record g { pump_method_name = name.ptr })
  if name.ptr == 0 then pure (env, none) else pure (env, transocks_pump_init cfg.pump_method)

abbrev pub listen_step : Config → Ptr → M (Ptr × Option Method)
listen_step cfg env = do
  modify_env (λ g. record g {
    bind_family = cfg.bind.0.ss_family;
    bind_addr_len = cfg.bind.1;
    relay_family = cfg.relay.0.ss_family;
    relay_addr_len = cfg.relay.1;
  })
  e ← listener_init
  if nonzero e then pure (env, none) else name_step cfg env

-- A pump method comes only with the environment, and with its four signals and its listener, whose
-- events were added.
abbrev pub IsStarted : Os → Ptr × Option Method → State → Type 0
IsStarted os r t =
    (r.1 ≡ none) ⊎ ((r.0 ≢ 0) × (has_signals os t ≡ true) × (has_listener os t ≡ true))

module _ (os : Os) (cfg : Config) (env : Ptr) (ne : env ≢ 0) where
  named :
      (s : State)
      → has_signals os s ≡ true
      → has_listener os s ≡ true
      → Ends (IsStarted os) (name_step cfg env os s)
  named s hs hl = go s.env refl
    where
      go : (oe : Option GlobalEnv) → s.env ≡ oe → Ends (IsStarted os) (name_step cfg env os s)
      go none e = absurd (ground arith)
      go (some v) e =
          subst (λ t. Ends (IsStarted os) (name_step cfg env os t))
            (λ i. record s { env = sym e i })
            (elim (Bool-cases ((os s.trace Call.strdup).ptr == 0)) [
              | inl null ↦ rw null (inl refl)
              | inr copied ↦ rw copied (
                  inr (
                    ne,
                    signals_of-Lasts os v Call.strdup s.trace
                        (subst (λ o. has_signals os (record s { env = o }) ≡ true) e hs),
                    listens_in-cons os v.listener Call.strdup s.trace
                        (subst (λ o. has_listener os (record s { env = o }) ≡ true) e hl),
                  ))
            ])

  listens : (s : State) → has_signals os s ≡ true → Ends (IsStarted os) (listen_step cfg env os s)
  listens =
      at_env (signals_of os) (signals_of-Lasts os) os (IsStarted os) (listen_step cfg env) λ e s h.
        Ends-bind (Listens (signals_of os) (signals_of-Lasts os) os) (IsStarted os)
          (listener_init os _) _ os
          (listener_init-Listens (signals_of os) (signals_of-Lasts os) os _ h)
          λ r t ht. elim (Bool-cases (nonzero r)) [
            | inl failed ↦ rw failed (inl refl)
            | inr fine ↦ rw fine (named t ht.0 (other_one (nonzero r) fine ht.1))
          ]

-- If the allocator has a block for the environment, `main` comes to its event loop, or to `shutdown`, or
-- to `bareExit`, without a fault; and to the event loop only with the environment, and with an event
-- for each of the four signals, made by `evsignal_new` with the signal's callback, and one of the
-- listener, on each of which `event_add` has answered 0.
pub start_up-IsStarted :
    (os : Os) (cfg : Config) (s : State)
    → (os s.trace (Call.calloc Block.global_env)).ptr ≢ 0
    → Ends (IsStarted os) (start_up cfg os s)
unfolding start_up
start_up-IsStarted os cfg s ne =
    Ends-bind (λ r t. (r ≡ 0) ⊎ ((r ≢ 0) × (has_env t ≡ true))) (IsStarted os)
      (transocks_global_env_new os s) _ os (new-HasEnv os s ne)
      λ env t m. elim m [
        | inl null ↦ simp null (inl refl)
        | inr (some_env, there) ↦ rw (set_of env some_env) (
            Ends-bind (Sets (has_signals os)) (IsStarted os) (signal_init os t) _ os
              (signal_init-Sets os t there)
              λ r u hu. elim (Bool-cases (nonzero r)) [
                | inl failed ↦ rw failed (inl refl)
                | inr fine ↦
                    rw fine (listens os cfg env some_env u (other_one (nonzero r) fine hu.1))
              ])
      ]

-- ===== src/Listener/Starts.antt =====
-- listener.c: `listener_init` on every answer of the outside world.
use transocks_wong.Prelude.{
  ◌≡◌, refl, ℤ, nonzero, List, [], ◌++◌, ◌&&◌, ◌||◌, is_neg, subst, sym, ◌∷◌, Bool, true, false,
  not, ◌==◌, Bool-cases, ◌⊎◌, inl, inr, none, some, Option, if◌then◌else◌, arith,
}
use transocks_wong.Machine.{
  Listener, Ptr, SockOpt, Block, Call, Callback, Os, GlobalEnv, State, M, pure, succeeds, ◌>>?◌,
  ◌>>=◌,
}
use transocks_wong.Machine.Log.{log}
use transocks_wong.Machine.Returns.{Ends, Ends-bind}
use transocks_wong.Macros.{af_inet6, ev_read_persist}
use transocks_wong.Listener.{
  listener_init, open_listener, add_listener, free_listener, close_listener, listener_deinit,
}
use transocks_wong.Util.{setnonblocking, apply_ipv6only, set_nonblock_bit, int_bits}
use transocks_wong.GlobalEnv.Free.{listener_calls, listener_deinit-log}

-- A call of `event_add` on this event was answered by 0.
unfoldable pub is_added : Os → Ptr → List Call → Bool
is_added os ev [] = false
is_added os ev (Call.event_add a ∷ tr) =
    (a == ev && not (nonzero (os tr (Call.event_add a)).ret)) || is_added os ev tr
is_added os ev (_ ∷ tr) = is_added os ev tr

-- There is a listener with an event, which was added.
abbrev pub listens_in : Os → Option Listener → List Call → Bool
listens_in os none tr = false
listens_in os (some l) tr = not (l.listener_ev == 0) && is_added os l.listener_ev tr

abbrev pub has_listener : Os → State → Bool
has_listener os s = elim s.env [ none ↦ false | some e ↦ listens_in os e.listener s.trace ]

-- What the environment, but for its listener, and the trace say.
abbrev pub kept_in : (GlobalEnv → List Call → Bool) → Option GlobalEnv → List Call → Bool
kept_in f none tr = false
kept_in f (some e) tr = f (record e { listener = none }) tr

abbrev pub kept : (GlobalEnv → List Call → Bool) → State → Bool
kept f s = kept_in f s.env s.trace

-- A fact that more calls do not undo.
abbrev pub Lasts : (GlobalEnv → List Call → Bool) → Type 0
Lasts f = (e : GlobalEnv) (c : Call) (tr : List Call) → f e tr ≡ true → f e (c ∷ tr) ≡ true

module _ (f : GlobalEnv → List Call → Bool) (lasts : Lasts f) (os : Os) where
  kept_in-append :
      (cs tr : List Call) (oe : Option GlobalEnv)
      → kept_in f oe tr ≡ true
      → kept_in f oe (cs ++ tr) ≡ true
  kept_in-append [] tr oe h = h
  kept_in-append (c ∷ cs) tr none h = kept_in-append cs tr none h
  kept_in-append (c ∷ cs) tr (some e) h =
      lasts (record e { listener = none }) c (cs ++ tr) (kept_in-append cs tr (some e) h)

  added_now :
      (ev : Ptr) (tr : List Call)
      → nonzero (os tr (Call.event_add ev)).ret ≡ false
      → is_added os ev (Call.event_add ev ∷ tr) ≡ true
  unfolding is_added
  added_now ev tr added = ground arith

  one_more : (c : Call) (s : State) → kept f s ≡ true → kept f (log (c ∷ []) s) ≡ true
  one_more c s h = kept_in-append (c ∷ []) s.trace s.env h

  KeepsEnv : {A : Type 0} → M A → Type 0
  KeepsEnv m = (s : State) → kept f s ≡ true → Ends (λ _ t. kept f t ≡ true) (m os s)

  then-Keeps : (m k : M Bool) → KeepsEnv m → KeepsEnv k → KeepsEnv (m >>? k)
  unfolding KeepsEnv
  then-Keeps m k hm hk s h =
      Ends-bind (λ _ t. kept f t ≡ true) (λ _ t. kept f t ≡ true) (m os s) _ os (hm s h)
        (elim [ true ↦ λ t ht. hk t ht | false ↦ λ t ht. ht ])

  succeeds-Keeps : (c : Call) → KeepsEnv (succeeds c)
  unfolding KeepsEnv
  succeeds-Keeps c s h = one_more c s h

  nonblocking-Keeps :
      (fd : ℤ)
      → KeepsEnv (do e ← setnonblocking fd true; if nonzero e then pure false else pure true)
  unfolding KeepsEnv setnonblocking
  nonblocking-Keeps fd s h =
      let r = os s.trace (Call.fcntl_getfl fd) in
      let set = Call.fcntl_setfl fd (set_nonblock_bit true (int_bits r.ret)) in
      let h₁ = one_more (Call.fcntl_getfl fd) s h in
      let h₂ = one_more set (log (Call.fcntl_getfl fd ∷ []) s) h₁ in ground arith

  ipv6only-Keeps :
      (e : GlobalEnv) (fd : ℤ)
      → KeepsEnv (
          if e.bind_family == af_inet6
          then (do e ← apply_ipv6only fd 0; if nonzero e then pure false else pure true)
          else pure true)
  unfolding KeepsEnv apply_ipv6only
  ipv6only-Keeps e fd s h =
      let h₁ = one_more (Call.setsockopt fd SockOpt.ipv6_v6only 0) s h in ground arith

  open_listener-Keeps : (e : GlobalEnv) (fd : ℤ) → KeepsEnv (open_listener e fd)
  unfolding open_listener
  open_listener-Keeps e fd = then-Keeps _ _ (succeeds-Keeps _) (
      then-Keeps _ _ (succeeds-Keeps _) (
        then-Keeps _ _ (nonblocking-Keeps fd) (
          then-Keeps _ _ (ipv6only-Keeps e fd)
            (then-Keeps _ _ (succeeds-Keeps _) (succeeds-Keeps _)))))

  -- The signals stay, and 0 comes with the listener.
  abbrev pub Listens : ℤ → State → Type 0
  Listens r t = (kept f t ≡ true) × ((nonzero r ≡ true) ⊎ (has_listener os t ≡ true))

  close_listener-Listens :
      (fd : ℤ) (s : State) → kept f s ≡ true → Ends Listens (close_listener fd os s)
  unfolding close_listener
  close_listener-Listens fd s h = let h₁ = one_more (Call.close fd) s h in ground arith

  pub at_env :
      {A : Type 0} (Q : A → State → Type 0) (m : M A)
      → ((e : GlobalEnv) (s : State)
          → f (record e { listener = none }) s.trace ≡ true
          → Ends Q (m os (record s { env = some e })))
      → (s : State) → kept f s ≡ true
      → Ends Q (m os s)
  at_env Q m k s h = go s.env refl
    where
      go : (oe : Option GlobalEnv) → s.env ≡ oe → Ends Q (m os s)
      go none e = absurd (ground arith)
      go (some v) e =
          subst (λ t. Ends Q (m os t)) (λ i. record s { env = sym e i })
            (k v s (subst (λ o. kept f (record s { env = o }) ≡ true) e h))

  deinit-Keeps : KeepsEnv listener_deinit
  unfolding KeepsEnv
  deinit-Keeps =
      at_env (λ _ t. kept f t ≡ true) listener_deinit
        λ e s h.
          rw (listener_deinit-log os e e.listener s)
            (kept_in-append (listener_calls e.listener) s.trace (some e) h)

  free_listener-Listens :
      (fd : ℤ) (s : State) → kept f s ≡ true → Ends Listens (free_listener fd os s)
  unfolding free_listener KeepsEnv
  free_listener-Listens fd s h =
      Ends-bind (λ _ t. kept f t ≡ true) Listens (listener_deinit os s) _ os (deinit-Keeps s h)
        λ _ t ht. close_listener-Listens fd t ht

  add_listener-Listens :
      (fd : ℤ) (s : State) → kept f s ≡ true → Ends Listens (add_listener fd os s)
  unfolding add_listener
  add_listener-Listens fd = at_env Listens (add_listener fd) λ e s h.
      let alloc = Call.malloc Block.listener in
      let b = (os s.trace alloc).ptr in
      let new_ev = Call.event_new fd ev_read_persist Callback.listener_cb in
      let ev = (os (alloc ∷ s.trace) new_ev).ptr in
      let add = Call.event_add ev in
      let h₁ = kept_in-append (alloc ∷ []) s.trace (some e) h in
      let h₂ = kept_in-append (new_ev ∷ alloc ∷ []) s.trace (some e) h in
      let h₃ = kept_in-append (add ∷ new_ev ∷ alloc ∷ []) s.trace (some e) h in
      elim (Bool-cases (b == 0)) [
        | inl null ↦ rw null (free_listener-Listens fd _ h₁)
        | inr made ↦ rw made (elim (Bool-cases (ev == 0)) [
          | inl no_ev ↦ rw no_ev (free_listener-Listens fd _ h₂)
          | inr has_ev ↦
              rw has_ev (elim (Bool-cases (nonzero (os (new_ev ∷ alloc ∷ s.trace) add).ret)) [
                | inl failed ↦ rw failed (free_listener-Listens fd _ h₃)
                | inr added ↦
                    rw added (h₃, inr (rw has_ev (added_now ev (new_ev ∷ alloc ∷ s.trace) added)))
              ])
        ])
      ]

  pub listener_init-Listens : (s : State) → kept f s ≡ true → Ends Listens (listener_init os s)
  unfolding KeepsEnv listener_init
  listener_init-Listens = at_env Listens listener_init λ e s h.
      let sock = Call.socket e.bind_family in
      let fd = (os s.trace sock).ret in
      let h₁ = kept_in-append (sock ∷ []) s.trace (some e) h in
      elim (Bool-cases (is_neg fd)) [
        | inl bad ↦ rw bad (h₁, inl refl)
        | inr good ↦ rw good (
            Ends-bind (λ _ t. kept f t ≡ true) Listens (open_listener e fd os _) _ os
              (open_listener-Keeps e fd _ h₁)
              (elim [
                | true ↦ λ t ht. add_listener-Listens fd t ht
                | false ↦ λ t ht. close_listener-Listens fd t ht
              ]))
      ]

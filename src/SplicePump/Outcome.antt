-- ===== src/SplicePump/Outcome.antt =====
-- How `transocks_splicepump_start_pump` can end.
use transocks_wong.Prelude.{
  ◌≡◌, ◌≢◌, refl, sym, subst, ℤ, pos, minus_one, Bool, true, false, not, ◌&&◌, ◌⊎◌, inl, inr, none,
  some, Option, ◌==◌, if◌then◌else◌, arith,
}
use transocks_wong.Machine.{
  Ptr, Os, Callback, Client, SplicePump, State, M, Run, ok, fault, get_client, get_pump, ◌>>?◌,
}
use transocks_wong.Machine.Returns.{Ends, Ends-bind}
use transocks_wong.Context.{is_gone}
use transocks_wong.Util.{createpipe, setnonblocking}
use transocks_wong.SplicePump.{Direction, inbound, outbound, modify_pipe, transocks_splicepump_free}
use transocks_wong.SplicePump.Free.{transocks_splicepump_free-log}
use transocks_wong.SplicePump.Results.{State-both}
use transocks_wong.SplicePump.Start.{
  disable_bevs, attach, open_pipe, size_pipe, new_ev, new_events, add_events, start_steps,
  transocks_splicepump_start_pump,
}

-- The pump hangs on a client that is not gone.
abbrev pub is_attached : State → Bool
is_attached s = elim s.client [
  | none ↦ false
  | some c ↦ elim s.pump [
    | none ↦ false
    | some q ↦ not (c.user_arg == 0) && not (is_gone c.client_state)
  ]
]

abbrev pub Attached : {A : Type 0} → A → State → Type 0
Attached _ s = is_attached s ≡ true

abbrev Keeps : {A : Type 0} → M A → Type 0
Keeps m = (os : Os) (s : State) → is_attached s ≡ true → Ends Attached (m os s)

then-Keeps : (m k : M Bool) → Keeps m → Keeps k → Keeps (m >>? k)
then-Keeps m k hm hk os s h =
    Ends-bind Attached Attached (m os s) _ os (hm os s h)
      (elim [ true ↦ λ t ht. hk os t ht | false ↦ λ t ht. ht ])

setnonblocking-Keeps : (fd : ℤ) (b : Bool) → Keeps (setnonblocking fd b)
unfolding setnonblocking
setnonblocking-Keeps fd b os s h = ground arith

createpipe-Keeps : Keeps createpipe
unfolding createpipe setnonblocking
createpipe-Keeps os s h = ground arith

open_pipe-Keeps : (d : Direction) → Keeps (open_pipe d)
unfolding open_pipe modify_pipe
open_pipe-Keeps inbound os s h =
    Ends-bind Attached Attached (createpipe os s) _ os (createpipe-Keeps os s h)
      (elim [ none ↦ λ t ht. ht | some ends ↦ λ t ht. ground arith ])
open_pipe-Keeps outbound os s h =
    Ends-bind Attached Attached (createpipe os s) _ os (createpipe-Keeps os s h)
      (elim [ none ↦ λ t ht. ht | some ends ↦ λ t ht. ground arith ])

size_pipe-Keeps : (d : Direction) → Keeps (size_pipe d)
unfolding size_pipe modify_pipe
size_pipe-Keeps inbound os s h = ground arith
size_pipe-Keeps outbound os s h = ground arith

new_ev-Keeps :
    (fd : ℤ) (cb : Callback) (store : Ptr → SplicePump → SplicePump) → Keeps (new_ev fd cb store)
unfolding new_ev
new_ev-Keeps fd cb store os s h = ground arith

new_events-Keeps : Keeps new_events
unfolding new_events
new_events-Keeps os s h =
    Ends-bind Attached Attached (get_client os s) _ os (ground arith) λ c t ht.
      Ends-bind Attached Attached (get_pump os t) _ os (ground arith) λ q.
        then-Keeps _ _ (new_ev-Keeps _ _ _)
          (then-Keeps _ _ (new_ev-Keeps _ _ _)
            (then-Keeps _ _ (new_ev-Keeps _ _ _) (new_ev-Keeps _ _ _)))
          os

add_events-Keeps : Keeps add_events
unfolding add_events
add_events-Keeps os s h = ground arith

-- No pump yet: the client names none.
abbrev pub is_plain : State → Bool
is_plain s = elim s.client [
  | none ↦ false
  | some c ↦ (c.user_arg == 0) && not (is_gone c.client_state)
]

abbrev Tried : Bool → State → Type 0
Tried good s = if good then is_attached s ≡ true else is_plain s ≡ true

disable_bevs-plain :
    (os : Os) (s : State) → is_plain s ≡ true → Ends (λ _ t. is_plain t ≡ true) (disable_bevs os s)
unfolding disable_bevs
disable_bevs-plain os s h = ground arith

attach-Tried : (os : Os) (s : State) → is_plain s ≡ true → Ends Tried (attach os s)
unfolding attach
attach-Tried os s h = ground arith

attached-parts :
    (s : State)
    → is_attached s ≡ true
    → (c : Client) × (q : SplicePump) × (s.client ≡ some c)
      × (s.pump ≡ some q)
      × (c.user_arg ≢ 0)
      × (is_gone c.client_state ≡ false)
attached-parts s h = go s.client refl s.pump refl h
  where
    go :
        (oc : Option Client)
        → s.client ≡ oc
        → (oq : Option SplicePump) → s.pump ≡ oq
        → is_attached (record s { client = oc; pump = oq }) ≡ true
        → (c : Client) × (q : SplicePump) × (s.client ≡ some c)
          × (s.pump ≡ some q)
          × (c.user_arg ≢ 0)
          × (is_gone c.client_state ≡ false)
    go none ce oq pe h = cc
    go (some c) ce none pe h = cc
    go (some c) ce (some q) pe h = (c, q, ce, pe, ground arith, ground arith)

abbrev Freed : {A : Type 0} → A → State → Type 0
Freed _ t = (t.client ≡ none) × (t.pump ≡ none)

free-Freed :
    (os : Os) (p : Ptr) (s : State)
    → p ≢ 0
    → is_attached s ≡ true
    → Ends Freed (transocks_splicepump_free p os s)
free-Freed os p s ne h =
    let (c, q, ce, pe, u, g) = attached-parts s h in
    subst (λ t. Ends Freed (transocks_splicepump_free p os t)) (sym (State-both s ce pe))
      (rw (transocks_splicepump_free-log os p c q s ne u g) (refl, refl))

free-plain :
    (os : Os) (p : Ptr) (s : State) → is_plain s ≡ true → transocks_splicepump_free p os s ≡ ok tt s
unfolding transocks_splicepump_free
free-plain os p s h = ground arith

-- What a failed step leaves.
abbrev pub Left : Bool → State → Type 0
Left good s = if good then is_attached s ≡ true else (is_attached s ≡ true) ⊎ (is_plain s ≡ true)

then-Left :
    (k : M Bool) → Keeps k → (os : Os) (s : State) → is_attached s ≡ true → Ends Left (k os s)
then-Left k hk os s h = lower (k os s) (hk os s h)
  where
    lower : (r : Run Bool) → Ends Attached r → Ends Left r
    lower (ok true t) a = a
    lower (ok false t) a = inl a
    lower (fault f) a = a

pub steps-Left : (os : Os) (s : State) → is_plain s ≡ true → Ends Left (start_steps os s)
unfolding start_steps
steps-Left os s h =
    Ends-bind (λ _ t. is_plain t ≡ true) Left (disable_bevs os s) _ os (disable_bevs-plain os s h)
      (elim [
        | false ↦ λ t ht. inr ht
        | true ↦ λ t ht. Ends-bind Tried Left (attach os t) _ os (attach-Tried os t ht) (elim [
          | false ↦ λ u hu. inr hu
          | true ↦ λ u hu.
              then-Left _
                (then-Keeps _ _ (open_pipe-Keeps inbound) (
                  then-Keeps _ _ (open_pipe-Keeps outbound) (
                    then-Keeps _ _ (size_pipe-Keeps inbound) (
                      then-Keeps _ _ (size_pipe-Keeps outbound)
                        (then-Keeps _ _ new_events-Keeps add_events-Keeps)))))
                os u hu
        ])
      ])

-- `transocks_splicepump_start_pump` on a client with no pump ends without a fault: with 0 and the pump
-- on its client; or with -1 and the client freed together with its pump; or with -1 and the client
-- there, still without a pump.
pub start_pump-outcome :
    (os : Os) (p : Ptr) (s : State)
    → p ≢ 0
    → is_plain s ≡ true
    → Ends
        (λ r t.
          ((r ≡ pos 0) × (is_attached t ≡ true))
          ⊎ ((r ≡ minus_one) × (t.client ≡ none) × (t.pump ≡ none))
          ⊎ ((r ≡ minus_one) × (is_plain t ≡ true)))
        (transocks_splicepump_start_pump p os s)
unfolding transocks_splicepump_start_pump
start_pump-outcome os p s ne h =
    Ends-bind Left _ (start_steps os s) _ os (steps-Left os s h) (elim [
      | true ↦ λ t ht. inl (refl, ht)
      | false ↦ λ t ht. elim ht [
        | inl a ↦
            Ends-bind Freed _ (transocks_splicepump_free p os t) _ os (free-Freed os p t ne a)
              λ _ u f. inr (inl (refl, f.0, f.1))
        | inr a ↦ rw (free-plain os p t a) (inr (inr (refl, a)))
      ]
    ])

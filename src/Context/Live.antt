-- ===== src/Context/Live.antt =====
-- context.h: a client that is there and not gone.
use transocks_wong.Prelude.{
  ◌≡◌, refl, sym, subst, Bool, true, false, not, ◌&&◌, ◌==◌, none, some, Option, arith,
}
use transocks_wong.Machine.{Os, Client, State, M}
use transocks_wong.Machine.Log.{live}
use transocks_wong.Machine.Returns.{Ends}
use transocks_wong.Context.{is_gone}

abbrev pub is_live : State → Bool
is_live s = elim s.client [ none ↦ false | some c ↦ not (is_gone c.client_state) ]

pub live-parts :
    (s : State)
    → is_live s ≡ true
    → (c : Client) × (s.client ≡ some c) × (is_gone c.client_state ≡ false)
live-parts s h = go s.client refl h
  where
    go :
        (oc : Option Client)
        → s.client ≡ oc
        → is_live (record s { client = oc }) ≡ true
        → (c : Client) × (s.client ≡ some c) × (is_gone c.client_state ≡ false)
    go none e h = cc
    go (some c) e h = (c, e, ground arith)

pub State-live : (s : State) {c : Client} → s.client ≡ some c → s ≡ live c s
State-live s e = λ i. record s { client = e i }

-- A handler is looked at where its client is known.
pub at_live :
    (Q : Unit {0} → State → Type 0) (m : M (Unit {0})) (os : Os)
    → ((c : Client) (s : State) → is_gone c.client_state ≡ false → Ends Q (m os (live c s)))
    → (s : State) → is_live s ≡ true
    → Ends Q (m os s)
at_live Q m os k s h =
    let (c, e, g) = live-parts s h in subst (λ t. Ends Q (m os t)) (sym (State-live s e)) (k c s g)

-- A client that is there and not gone, with a timer.
abbrev pub is_armed : State → Bool
is_armed s = elim s.client [
  | none ↦ false
  | some c ↦ not (is_gone c.client_state) && not (c.timeout_ev == 0)
]

pub armed-parts :
    (s : State)
    → is_armed s ≡ true
    → (c : Client) × (s.client ≡ some c)
      × (is_gone c.client_state ≡ false)
      × ((c.timeout_ev == 0) ≡ false)
armed-parts s h = go s.client refl h
  where
    go :
        (oc : Option Client)
        → s.client ≡ oc
        → is_armed (record s { client = oc }) ≡ true
        → (c : Client) × (s.client ≡ some c)
          × (is_gone c.client_state ≡ false)
          × ((c.timeout_ev == 0) ≡ false)
    go none e h = cc
    go (some c) e h = (c, e, ground arith, ground arith)

pub at_armed :
    (Q : Unit {0} → State → Type 0) (m : M (Unit {0})) (os : Os)
    → ((c : Client) (s : State)
        → is_gone c.client_state ≡ false
        → (c.timeout_ev == 0) ≡ false
        → Ends Q (m os (live c s)))
    → (s : State) → is_armed s ≡ true
    → Ends Q (m os s)
at_armed Q m os k s h =
    let (c, e, g, a) = armed-parts s h in
    subst (λ t. Ends Q (m os t)) (sym (State-live s e)) (k c s g a)

-- The same for one state, whose client is then named.
pub known :
    (Q : Unit {0} → State → Type 0) (m : M (Unit {0})) (os : Os) (s : State)
    → is_armed s ≡ true
    → ((c : Client)
        → is_gone c.client_state ≡ false
        → (c.timeout_ev == 0) ≡ false
        → Ends Q (m os (live c s)))
    → Ends Q (m os s)
known Q m os s h k =
    let (c, e, g, a) = armed-parts s h in
    subst (λ t. Ends Q (m os t)) (sym (State-live s e)) (k c g a)

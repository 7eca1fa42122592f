-- ===== src/BufferPump/Facts.antt =====
-- bufferpump.c: a fact about a client and the calls so far, and when its callbacks cannot undo it.
use transocks_wong.Prelude.{
  ◌≡◌, refl, sym, subst, Bool, true, false, not, ◌&&◌, ◌⊎◌, none, some, Option, List, ◌∷◌,
  if◌then◌else◌, arith,
}
use transocks_wong.Machine.{Call, Os, Client, State, M, skip, ◌>>=◌, has_client}
use transocks_wong.Machine.Log.{live}
use transocks_wong.Machine.Returns.{Ends}
use transocks_wong.Context.{is_gone}
use transocks_wong.Context.Live.{is_live, State-live}
use transocks_wong.BufferPump.{Side, set_read_flag, set_write_flag}

abbrev pub Fact : Type 0
Fact = Client → List Call → Bool

abbrev pub holds : Fact → State → Bool
holds f s = elim s.client [ none ↦ false | some c ↦ not (is_gone c.client_state) && f c s.trace ]

-- The calls that the callbacks make, but for those that free.
abbrev pub is_quiet : Call → Bool
is_quiet (Call.input_length b) = true
is_quiet (Call.output_length b) = true
is_quiet (Call.remove_buffer a b n) = true
is_quiet (Call.bufferevent_disable b n) = true
is_quiet (Call.shutdown fd how) = true
is_quiet _ = false

-- Neither setting a flag nor such a call undoes it.
pub record IsStable (f : Fact) : Type 0 where
  pub reads :
      (a : Side) (c : Client) (tr : List Call) → f c tr ≡ true → f (set_read_flag a c) tr ≡ true
  pub writes :
      (a : Side) (c : Client) (tr : List Call) → f c tr ≡ true → f (set_write_flag a c) tr ≡ true
  pub calls :
      (k : Call) (c : Client) (tr : List Call)
      → is_quiet k ≡ true
      → f c tr ≡ true
      → f c (k ∷ tr) ≡ true

pub holds-live : (f : Fact) (s : State) → holds f s ≡ true → is_live s ≡ true
holds-live f s h = ground arith

pub holds-parts :
    (f : Fact) (s : State)
    → holds f s ≡ true
    → (c : Client) × (s.client ≡ some c) × (is_gone c.client_state ≡ false) × (f c s.trace ≡ true)
holds-parts f s h = go s.client refl h
  where
    go :
        (oc : Option Client)
        → s.client ≡ oc
        → holds f (record s { client = oc }) ≡ true
        → (c : Client) × (s.client ≡ some c)
          × (is_gone c.client_state ≡ false)
          × (f c s.trace ≡ true)
    go none e h = cc
    go (some c) e h = (c, e, ground arith, ground arith)

module _ (f : Fact) where
  abbrev pub Holds : {A : Type 0} → A → State → Type 0
  Holds _ t = holds f t ≡ true

  abbrev pub FreedOr : {A : Type 0} → A → State → Type 0
  FreedOr _ t = (t.client ≡ none) ⊎ (holds f t ≡ true)

  -- A handler is looked at where its client is known.
  pub at_held :
      (Q : Unit {0} → State → Type 0) (m : M (Unit {0})) (os : Os)
      → ((c : Client) (s : State)
          → is_gone c.client_state ≡ false
          → f c s.trace ≡ true
          → Ends Q (m os (live c s)))
      → (s : State) → holds f s ≡ true
      → Ends Q (m os s)
  at_held Q m os k s h =
      let (c, e, g, fc) = holds-parts f s h in
      subst (λ t. Ends Q (m os t)) (sym (State-live s e)) (k c s g fc)

  -- A run goes on with a client that is there.
  pub runs_on :
      (Q : Unit {0} → State → Type 0) (m : M (Unit {0})) (os : Os) (t : State)
      → holds f t ≡ true
      → Ends Q (m os t)
      → Ends Q ((has_client >>= λ live. if live then m else skip) os t)
  runs_on Q m os t h next = let (c, e, g, fc) = holds-parts f t h in simp e next

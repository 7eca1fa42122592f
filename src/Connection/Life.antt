-- ===== src/Connection/Life.antt =====
-- A connection from the listener on.
use transocks_wong.Prelude.{
  set_of, Bool, false, not, ◌==◌, [], ◌∷◌, ◌≡◌, ◌≢◌, refl, sym, subst, true, ◌&&◌, inl, inr, none,
  some, Option, List, if◌then◌else◌, arith,
}
use transocks_wong.Machine.{
  Callback, Ptr, Block, Call, Client, ClientState, Os, GlobalEnv, Listener, State, M, skip, ◌>>=◌,
  ◌>>◌, has_client,
}
use transocks_wong.Machine.Returns.{Ends, Ends-bind}
use transocks_wong.Context.Live.{State-live}
use transocks_wong.BufferPump.Facts.{holds, runs_on}
use transocks_wong.Socks5.Handshake.{PullsUp}
use transocks_wong.Listener.{listener_cb}
use transocks_wong.Listener.Safety.{
  timer_refused, is_linked, is_new, is_connecting, Answered, new-present,
}
use transocks_wong.Listener.Accepts.{listener_cb-Answered}
use transocks_wong.Connection.{Phase, connecting, handlers, ConnectionEvent, connection_run}
use transocks_wong.Connection.Phases.{stands, same, fits, Follows}
use transocks_wong.Connection.Runs.{connection_run-Follows}

-- A connection is accepted, and libevent runs the callbacks of its client.
unfoldable pub connection : Ptr → Ptr → List ConnectionEvent → M (Unit {0})
connection env p es = do
  listener_cb env
  live ← has_client
  if live then connection_run p es else skip

-- `evtimer_new` gives a timer.
abbrev pub MakesTimers : Os → Type 0
MakesTimers os = (tr : List Call) (cb : Callback) → (os tr (Call.evtimer_new cb)).ptr ≢ 0

never_refused : (os : Os) → MakesTimers os → (tr : List Call) → timer_refused os tr ≡ false
unfolding timer_refused
never_refused os timers [] = refl
never_refused os timers (Call.evtimer_new cb ∷ tr) =
    rw (set_of (os tr (Call.evtimer_new cb)).ptr (timers tr cb)) (never_refused os timers tr)
never_refused os timers (c ∷ tr) = never_refused os timers tr

new_stands :
    (st : ClientState) (ph : Phase) (x : Bool)
    → is_new st ≡ true
    → is_connecting ph ≡ true
    → x ≡ true
    → (fits st ph && same connecting ph && x) ≡ true
new_stands ClientState.new connecting x n l h = h
new_stands ClientState.new ph x n l h = cc
new_stands st ph x n l h = cc

linked-stands :
    (os : Os)
    → MakesTimers os
    → (s : State) → is_linked os s ≡ true
    → holds (stands connecting) s ≡ true
linked-stands os timers s h = go s.client refl h
  where
    go :
        (oc : Option Client)
        → s.client ≡ oc
        → is_linked os (record s { client = oc }) ≡ true
        → holds (stands connecting) s ≡ true
    go none e h = absurd (ground arith)
    go (some c) e h =
        let n : is_new c.client_state ≡ true = ground arith in
        let l : is_connecting (handlers s.trace) ≡ true = ground arith in
        let all = never_refused os timers s.trace in
        let a : not (c.timeout_ev == 0) ≡ true = ground arith in
        subst (λ t. holds (stands connecting) t ≡ true) (sym (State-live s e))
          (rw
            (
              new-present c.client_state n,
              new_stands c.client_state (handlers s.trace) (not (c.timeout_ev == 0)) n l a,
            )
            refl)

-- From the accept of a connection on, with a listener and no client in view, over any sequence of callbacks of
-- the handshake, its timer and bufferpump.c, in which one that is not set does nothing: the client's block
-- is not used after it was freed, no timer that is NULL is handed to libevent, and nothing is read past
-- what the relay sent. At the end there is no client, or it is freed; or the callbacks that are set, and
-- the client's state, are those of a phase to which these events lead by the protocol: the connection,
-- the choice of the method, the request, and then the pump, each step only on its answer. The allocator
-- has a block for the client, `evtimer_new` makes a timer, and `evbuffer_pullup` gives as many bytes as it
-- is asked for. Nothing is said of whether a bufferevent is used after it was freed.
pub connection-Follows :
    (os : Os) (env p : Ptr) (e : GlobalEnv) (l : Listener) (es : List ConnectionEvent) (s : State)
    → ((tr : List Call) → (os tr (Call.malloc Block.client)).ptr ≢ 0)
    → MakesTimers os
    → PullsUp os
    → p ≢ 0
    → s.env ≡ some e
    → e.listener ≡ some l
    → s.client ≡ none
    → Ends (Follows connecting es) (connection env p es os s)
unfolding connection
connection-Follows os env p e l es s blocks timers full ne ee le gone =
    Ends-bind (Answered os) (Follows connecting es) (listener_cb env os s) _ os
      (listener_cb-Answered os blocks env e l s ee le gone)
      λ _ t ht. elim ht [
        | inl none_left ↦ simp none_left (inl refl)
        | inr linked ↦
            let there = linked-stands os timers t linked in
            runs_on (stands connecting) (Follows connecting es) (connection_run p es) os t there
              (connection_run-Follows p ne os full connecting es t there)
      ]

-- ===== src/Connection/Phases.antt =====
-- A client's state is that of the callbacks that are set, from the connection to the pump.
use transocks_wong.Prelude.{◌≡◌, refl, Bool, true, false, not, ◌==◌, ◌&&◌, none, ◌⊎◌, List, ◌∷◌}
use transocks_wong.Machine.{Call, ClientState, Client, State}
use transocks_wong.BufferPump.{client_side, relay_side}
use transocks_wong.BufferPump.Facts.{Fact, holds, IsStable, is_quiet}
use transocks_wong.Connection.{
  Phase, connecting, selecting, requesting, pumping, handlers, ConnectionEvent,
}
use transocks_wong.Connection.Protocol.{Protocol, Advance}

-- The states in which a client can be while each callback is set.
abbrev pub fits : ClientState → Phase → Bool
fits ClientState.new connecting = true
fits ClientState.relay_connected selecting = true
fits ClientState.relay_connected requesting = true
fits ClientState.pumping_data pumping = true
fits _ _ = false

abbrev pub same : Phase → Phase → Bool
same connecting connecting = true
same selecting selecting = true
same requesting requesting = true
same pumping pumping = true
same _ _ = false

-- The callbacks of a phase are set, the client's state is that of the phase, and it has its timer.
abbrev pub stands : Phase → Fact
stands ph c tr =
    fits c.client_state (handlers tr) && same ph (handlers tr) && not (c.timeout_ev == 0)

abbrev pub is_connected : ClientState → Bool
is_connected ClientState.relay_connected = true
is_connected _ = false

quiet-stands :
    (ph : Phase) (k : Call) (c : Client) (tr : List Call)
    → is_quiet k ≡ true
    → stands ph c tr ≡ true
    → stands ph c (k ∷ tr) ≡ true
unfolding handlers
quiet-stands ph (Call.input_length b) c tr q h = h
quiet-stands ph (Call.output_length b) c tr q h = h
quiet-stands ph (Call.remove_buffer a b n) c tr q h = h
quiet-stands ph (Call.bufferevent_disable b n) c tr q h = h
quiet-stands ph (Call.shutdown fd how) c tr q h = h
quiet-stands ph k c tr q h = cc

pub stands-IsStable : (ph : Phase) → IsStable (stands ph)
stands-IsStable ph = record {
  reads = elim [ client_side ↦ λ c tr h. h | relay_side ↦ λ c tr h. h ];
  writes = elim [ client_side ↦ λ c tr h. h | relay_side ↦ λ c tr h. h ];
  calls = quiet-stands ph;
}

pub same-eq : (ph ph' : Phase) → same ph ph' ≡ true → ph ≡ ph'
same-eq connecting connecting h = refl
same-eq selecting selecting h = refl
same-eq requesting requesting h = refl
same-eq pumping pumping h = refl
same-eq ph ph' h = cc

-- What a callback may do: it ends the connection, or goes where the protocol allows.
abbrev pub Moves : Phase → ConnectionEvent → Unit {0} → State → Type 0
Moves ph e _ t =
    (t.client ≡ none) ⊎ ((ph' : Phase) × Advance ph e ph' × (holds (stands ph') t ≡ true))

-- The same for a sequence of events.
abbrev pub Follows : Phase → List ConnectionEvent → Unit {0} → State → Type 0
Follows ph es _ t =
    (t.client ≡ none) ⊎ ((ph' : Phase) × Protocol ph es ph' × (holds (stands ph') t ≡ true))

-- ===== src/Examples/Endings.antt =====
-- How connections end: on concrete sequences of callbacks, and with the program.
use transocks_wong.Prelude.{
  ℕ, ◌≡◌, refl, ℤ, pos, ltb, some, List, [], ◌∷◌, ◌++◌, length, if◌then◌else◌, ◌⊎◌, inl, arith,
}
use transocks_wong.Machine.{Call, Os}
use transocks_wong.Machine.Returns.{Ends}
use transocks_wong.BufferPump.{buffer_run, readable, happened, writable, client_side, relay_side}
use transocks_wong.BufferPump.Ends
use transocks_wong.BufferPump.Runs.{Freed}
use transocks_wong.SplicePump.{SpliceEvent, splice_run}
use transocks_wong.SplicePump.Moved.{moved_in, moved_out}
use transocks_wong.SplicePump.Delivered.{EndLaws, AllDelivered, fds_of}
use transocks_wong.SplicePump.Delivers
use transocks_wong.Pump.{splicepump}
use transocks_wong.Main.{shut_down}
use transocks_wong.Main.ShutDown
use transocks_wong.Socks5.Handshake.{relay_event, method_readable, reply_readable}
use transocks_wong.Socks5.Relay.{answer_at, stage}
use transocks_wong.Connection.{connecting, ConnectionEvent}
use transocks_wong.Connection.Phases.{Follows}
use transocks_wong.Machine.Log.{count}
use transocks_wong.Listener.{listener_cb}
use transocks_wong.Listener.Relays.{OwnedOrShut}
use transocks_wong.Listener.Closes.{listener_cb-OwnedOrShut}
use transocks_wong.Connection.Life
use transocks_wong.Connection.Life.{connection}
use transocks_wong.Examples.World.{
  homes, ntop, ntop-laws, reply, calm, pumped, both_ways, still, met, nine,
}
use transocks_wong.Examples.Pumps.{
  both_ends, once, Roomy, once-SpliceLaws, flowing, flowing-IsPumpingAt,
}
use transocks_wong.Examples.Handshake.{fill, length-fill}
use transocks_wong.Examples.Life.{set_up, busy, waiting, hearing, ear}

buffer_run-ends_example :
    Ends Freed
      (buffer_run 9 (both_ends ++ writable client_side ∷ writable relay_side ∷ []) calm met)
buffer_run-ends_example =
    Ends.buffer_run-ends 9 nine calm both_ends met refl refl refl (λ t e more bev. refl)

shut_down-releases_example :
    Ends
      (ShutDown.AllReleased calm splicepump 9 set_up
        (busy ∷ waiting ∷ [])
        (record still { env = some set_up }))
      (shut_down homes ntop splicepump
        (busy ∷ waiting ∷ [])
        9
        calm
        (record still { env = some set_up }))
shut_down-releases_example =
    ShutDown.shut_down-releases homes ntop ntop-laws calm splicepump (busy ∷ waiting ∷ []) 9 set_up
      (record still { env = some set_up }) nine refl refl refl

zero_asked : (len : ℕ) → pos (if ltb len 5 then len else 5) ≡ pos 0 → len ≡ 0
zero_asked len h = ground arith

once-ended :
    (r w : ℤ) (cap : ℕ)
    → Roomy r w cap
    → (tr : List Call) (t : ℤ) (len : ℕ) → (once tr (Call.splice r t len)).ret ≡ pos 0
    → (len ≡ 0) ⊎ (moved_in once w tr ≡ moved_out once r tr)
once-ended r w cap room [] t len e = inl (zero_asked len e)
once-ended r w cap room (c ∷ tr) t len e = cc

once-EndLaws : EndLaws once Roomy
once-EndLaws = record { ended = once-ended }

splice_run-delivers_example :
    Ends
      (λ _ t. AllDelivered once (fds_of pumped both_ways) t.trace)
      (splice_run 9 (SpliceEvent.client_readcb ∷ SpliceEvent.relay_writecb ∷ []) once flowing)
unfolding AllDelivered
splice_run-delivers_example =
    Delivers.splice_run-delivers once-SpliceLaws once-EndLaws nine
      (SpliceEvent.client_readcb ∷ SpliceEvent.relay_writecb ∷ []) (fds_of pumped both_ways) pumped
      both_ways flowing refl refl refl refl flowing-IsPumpingAt refl tt

-- A connection is accepted, and its relay answers all that it is asked.
abbrev open_house : Os
open_house tr (Call.accept fd) = record (reply (pos 5) 7) { size = 16 }
open_house tr (Call.input_length bev) = record (reply (pos 0) 7) {
  size = length (answer_at (stage tr));
}
open_house tr (Call.input_pullup bev n) = record (reply (pos 0) 7) {
  out = fill n (answer_at (stage tr));
}
open_house tr c = reply (pos 0) 7

abbrev whole_life : List ConnectionEvent
whole_life =
    ConnectionEvent.handshake (relay_event 0x80)
    ∷ ConnectionEvent.handshake method_readable
    ∷ ConnectionEvent.handshake reply_readable
    ∷ ConnectionEvent.pump (readable client_side)
    ∷ ConnectionEvent.pump (happened client_side 0x11 0)
    ∷ []

connection-Follows_example :
    Ends
      (Follows connecting whole_life)
      (connection 3 9 whole_life open_house (record still { env = some hearing }))
connection-Follows_example =
    Life.connection-Follows open_house 3 9 hearing ear whole_life
      (record still { env = some hearing }) (λ tr e. absurd (omega arith))
      (λ tr cb e. absurd (omega arith)) (λ tr bev n. length-fill n (answer_at (stage tr))) nine refl
      refl refl

listener_cb-OwnedOrShut_example :
    Ends (OwnedOrShut (pos 5) 0) (listener_cb 3 open_house (record still { env = some hearing }))
unfolding count
listener_cb-OwnedOrShut_example =
    listener_cb-OwnedOrShut open_house 3 hearing ear (record still { env = some hearing })
      (λ tr e. absurd (omega arith)) refl refl refl refl

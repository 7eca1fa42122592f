-- ===== src/Connection.antt =====
-- A connection from its accept on: the handlers of listener.c, socks5.c and bufferpump.c, as libevent
-- runs them. Which of them it may run is what `bufferevent_setcb` was called with last; the callback
-- of the timer is deleted when the pump starts.
pub mod Protocol
pub mod Phases
pub mod Handlers
pub mod Runs
pub mod Life
use transocks_wong.Prelude.{Bool, true, false, if◌then◌else◌, List, [], ◌∷◌}
use transocks_wong.Machine.{Ptr, Call, Callback, M, ok, skip, ◌>>=◌, ◌>>◌, has_client}
use transocks_wong.BufferPump.{BufferEvent, bufferpump_cb}
use transocks_wong.Socks5.Handshake.{
  HandshakeEvent, relay_event, error_event, method_readable, reply_readable, timed_out,
  handshake_cb,
}

pub data Phase : Type 0 where
  idle connecting selecting requesting pumping : Phase

-- The callbacks of the relay's bufferevent that were set last.
unfoldable pub handlers : List Call → Phase
handlers [] = idle
handlers (Call.bufferevent_setcb bev Callback.null w Callback.relay_onconnect_eventcb ∷ tr) =
    connecting
handlers (Call.bufferevent_setcb bev Callback.socks_on_server_selected_method_readcb w e ∷ tr) =
    selecting
handlers (Call.bufferevent_setcb bev Callback.socks_on_server_connect_reply_readcb w e ∷ tr) =
    requesting
handlers (Call.bufferevent_setcb bev Callback.relay_readcb w e ∷ tr) = pumping
handlers (c ∷ tr) = handlers tr

pub data ConnectionEvent : Type 0 where
  handshake : HandshakeEvent → ConnectionEvent
  pump : BufferEvent → ConnectionEvent

abbrev pub fires : Phase → ConnectionEvent → Bool
fires connecting (handshake (relay_event bevs)) = true
fires connecting (handshake timed_out) = true
fires selecting (handshake method_readable) = true
fires selecting (handshake (error_event bevs)) = true
fires selecting (handshake timed_out) = true
fires requesting (handshake reply_readable) = true
fires requesting (handshake (error_event bevs)) = true
fires requesting (handshake timed_out) = true
fires pumping (pump e) = true
fires _ _ = false

unfoldable pub connection_cb : Ptr → ConnectionEvent → M (Unit {0})
connection_cb p (handshake e) = handshake_cb p e
connection_cb p (pump e) = bufferpump_cb p e

-- An event whose callback is not set does nothing.
unfoldable pub connection_step : Ptr → ConnectionEvent → M (Unit {0})
connection_step p e os s = if fires (handlers s.trace) e then connection_cb p e os s else ok tt s

-- One event after another, until the client is freed.
unfoldable pub connection_run : Ptr → List ConnectionEvent → M (Unit {0})
connection_run p [] = skip
connection_run p (e ∷ es) = do
  connection_step p e
  live ← has_client
  if live then connection_run p es else skip

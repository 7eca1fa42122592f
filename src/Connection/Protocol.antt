-- ===== src/Connection/Protocol.antt =====
-- The protocol of a connection, apart from the code: connect to the relay, choose the method, request the
-- destination, pump. Each step waits for its answer.
use transocks_wong.Prelude.{ℕ, ◌≡◌, true, false, ◌||◌, List, [], ◌∷◌}
use transocks_wong.Macros.{transocks_chkbit, bev_event_eof, bev_event_error, bev_event_connected}
use transocks_wong.BufferPump.{BufferEvent}
use transocks_wong.Socks5.Handshake.{relay_event, error_event, method_readable, reply_readable}
use transocks_wong.Connection.{
  Phase, connecting, selecting, requesting, pumping, ConnectionEvent, handshake, pump, fires,
}

-- What an event may lead to, but for the end of the connection. An event whose callback is not set
-- changes nothing.
pub data Advance : Phase → ConnectionEvent → Phase → Type 0 where
  connects :
      {bevs : ℕ}
      → transocks_chkbit bevs bev_event_connected ≡ true
      → Advance connecting (handshake (relay_event bevs)) selecting
  waits :
      {bevs : ℕ}
      → transocks_chkbit bevs bev_event_connected ≡ false
      → transocks_chkbit bevs bev_event_error ≡ false
      → Advance connecting (handshake (relay_event bevs)) connecting
  goes_on :
      {ph : Phase} {bevs : ℕ}
      → (transocks_chkbit bevs bev_event_eof || transocks_chkbit bevs bev_event_error) ≡ false
      → Advance ph (handshake (error_event bevs)) ph
  selects : Advance selecting (handshake method_readable) requesting
  grants : Advance requesting (handshake reply_readable) pumping
  pumps : {e : BufferEvent} → Advance pumping (pump e) pumping
  ignores : {ph : Phase} {e : ConnectionEvent} → fires ph e ≡ false → Advance ph e ph

-- A sequence of events, from one phase to another.
pub data Protocol : Phase → List ConnectionEvent → Phase → Type 0 where
  stays : {ph : Phase} → Protocol ph [] ph
  moves :
      {ph ph' ph'' : Phase} {e : ConnectionEvent} {es : List ConnectionEvent}
      → Advance ph e ph'
      → Protocol ph' es ph''
      → Protocol ph (e ∷ es) ph''

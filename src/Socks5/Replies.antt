-- ===== src/Socks5/Replies.antt =====
-- socks5.c: which answers of the relay the handshake takes.
use transocks_wong.Prelude.{
  set_of, ℕ, ◌≤◌, ◌≡◌, ◌≢◌, false, ◌&&◌, ◌==◌, ltb, if◌then◌else◌, none, List, [], ◌∷◌, arith, pos,
}
use transocks_wong.Machine.{Ptr, Call, Os, Client, State, ok}
use transocks_wong.Machine.Log.{live, log}
use transocks_wong.Context.{is_gone}
use transocks_wong.Context.Free.{free_calls, transocks_client_free-log}
use transocks_wong.Pump.{Method}
use transocks_wong.Socks5.{
  free_client, enter_pump, reply_length, socks_on_server_connect_reply_readcb,
  socks_on_server_selected_method_readcb, socks_send_connect_request,
}

pub free_client-log :
    (os : Os) (p : Ptr) (c : Client) (s : State)
    → p ≢ 0
    → is_gone c.client_state ≡ false
    → free_client p os (live c s) ≡ ok tt (log (free_calls p c) (record s { client = none }))
unfolding free_client
free_client-log os p c s ne g = ground (arith, transocks_client_free-log os p c s ne g)

-- The reply's length by the header that RFC 1928 gives it.
abbrev pub expected_length : ℕ → ℕ → ℕ → ℕ
expected_length ver rep atyp =
    if (ver == 5) && (rep == 0) && (atyp == 1)
    then 10
    else if (ver == 5) && (rep == 0) && (atyp == 4)
    then 22
    else 0

enough_bytes : (n m : ℕ) → m ≤ n → ltb n m ≡ false
enough_bytes n m h = ground arith

module _ (os : Os) (c : Client) (s : State) where
  abbrev pub started : State
  started = log (Call.event_del c.timeout_ev ∷ []) s

  abbrev pub measured : State
  measured = log (Call.input_length c.relay_bev ∷ []) started

  abbrev pub available : ℕ
  available = (os started.trace (Call.input_length c.relay_bev)).size

  abbrev pub pulled : State
  pulled = log (Call.input_pullup c.relay_bev available ∷ []) measured

  abbrev pub answer : List ℕ
  answer = (os measured.trace (Call.input_pullup c.relay_bev available)).out

  abbrev pub drained : State
  drained = log (Call.input_drain c.relay_bev 2 ∷ []) pulled

  abbrev pub checked : State
  checked = log (Call.input_length c.relay_bev ∷ []) drained

module _ (p : Ptr) (ne : p ≢ 0) (os : Os) (c : Client) (g : is_gone c.client_state ≡ false)
    (timed : c.timeout_ev ≢ 0) (s : State) where
  -- On an answer of at least ten bytes to the connect request, the handler goes on to the pump, after
  -- 10 bytes for an IPv4 and 22 for an IPv6 reply, exactly if the reply says version 5, success and
  -- one of these two address types; otherwise it frees the client. It does not ask whether the 22
  -- bytes are there. The client's timer was made.
  pub connect_reply-decides :
      (impl : Method) (ver rep rsv atyp : ℕ) (rest : List ℕ)
      → 10 ≤ (available os c s)
      → (answer os c s) ≡ ver ∷ rep ∷ rsv ∷ atyp ∷ rest
      → socks_on_server_connect_reply_readcb impl p os (live c s) ≡ (
          if expected_length ver rep atyp == 0
          then ok tt (log (free_calls p c) (record (pulled os c s) { client = none }))
          else enter_pump impl p
              (expected_length ver rep atyp)
              c.relay_bev
              os
              (live c (pulled os c s)))
  unfolding socks_on_server_connect_reply_readcb reply_length
  connect_reply-decides impl ver rep rsv atyp rest enough a =
      rw (set_of c.timeout_ev timed, enough_bytes (available os c s) 10 enough, a)
        (ground (arith, free_client-log os p c (pulled os c s) ne g))

  -- On an answer of at least two bytes to the method selection, if two can be drained, the handler goes
  -- on to the connect request exactly if they say version 5 and no authentication and nothing is left
  -- after them; otherwise it frees the client. The client's timer was made.
  pub selected_method-decides :
      (ver method : ℕ) (rest : List ℕ)
      → 2 ≤ (available os c s)
      → (answer os c s) ≡ ver ∷ method ∷ rest
      → (os (pulled os c s).trace (Call.input_drain c.relay_bev 2)).ret ≡ pos 0
      → socks_on_server_selected_method_readcb p os (live c s) ≡ (
          if (ver == 5) && (method == 0)
          then (if (os (drained os c s).trace (Call.input_length c.relay_bev)).size == 0
              then socks_send_connect_request p os (live c (checked os c s))
              else ok tt (log (free_calls p c) (record (checked os c s) { client = none })))
          else ok tt (log (free_calls p c) (record (pulled os c s) { client = none })))
  unfolding socks_on_server_selected_method_readcb
  selected_method-decides ver method rest enough a d =
      rw (set_of c.timeout_ev timed, enough_bytes (available os c s) 2 enough, a)
        (ground (
          arith,
          d,
          free_client-log os p c (pulled os c s) ne g,
          free_client-log os p c (checked os c s) ne g,
        ))

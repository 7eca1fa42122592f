-- ===== src/Context/Free.antt =====
-- What `transocks_client_free` does, as an exact list of calls.
use transocks_wong.Prelude.{
  ℤ, Bool, false, not, ◌==◌, if◌then◌else◌, is_neg, List, [], ◌∷◌, ◌++◌, ◌≡◌, ◌≢◌, arith, none,
}
use mathlib.Core.List.{append_assoc}
use transocks_wong.Machine.{Ptr, Call, How, Os, ClientState, Client, State, ok}
use transocks_wong.Machine.Log.{log, live, when}
use transocks_wong.Macros.{ev_read_write}
use transocks_wong.Context.{
  is_gone, shutdown_fds, close_fds, free_timeout, disable_bufferevents, free_bufferevents,
  free_addrs, free_block, destroy, transocks_client_free,
}

abbrev pub is_open : ℤ → Bool
is_open fd = not (is_neg fd)

abbrev pub is_set : Ptr → Bool
is_set p = not (p == 0)

-- The calls for each resource, the latest first.
abbrev pub shutdown_calls : Client → List Call
shutdown_calls c =
    when (is_open c.relay_fd) (Call.shutdown c.relay_fd How.shut_rdwr ∷ [])
    ++ when (is_open c.client_fd) (Call.shutdown c.client_fd How.shut_rdwr ∷ [])

abbrev pub close_calls : Client → List Call
close_calls c =
    when (is_open c.relay_fd) (Call.close c.relay_fd ∷ [])
    ++ when (is_open c.client_fd) (Call.close c.client_fd ∷ [])

abbrev pub timeout_calls : Client → List Call
timeout_calls c =
    when (is_set c.timeout_ev) (Call.event_free c.timeout_ev ∷ Call.event_del c.timeout_ev ∷ [])

abbrev pub disable_calls : Client → List Call
disable_calls c =
    when (is_set c.client_bev) (Call.bufferevent_disable c.client_bev ev_read_write ∷ [])
    ++ when (is_set c.relay_bev) (Call.bufferevent_disable c.relay_bev ev_read_write ∷ [])

abbrev pub bev_calls : Client → List Call
bev_calls c =
    when (is_set c.client_bev) (Call.bufferevent_free c.client_bev ∷ [])
    ++ when (is_set c.relay_bev) (Call.bufferevent_free c.relay_bev ∷ [])

abbrev pub addr_calls : Client → List Call
addr_calls c =
    when (is_set c.dest_addr) (Call.free c.dest_addr ∷ [])
    ++ when (is_set c.client_addr) (Call.free c.client_addr ∷ [])

abbrev pub closed : ℤ → ℤ
closed fd = if is_neg fd then fd else ℤ.negsuc 0

shutdown_fds-log :
    (os : Os) (c : Client) (s : State)
    → shutdown_fds os (live c s) ≡ ok tt (log (shutdown_calls c) (live c s))
unfolding shutdown_fds
shutdown_fds-log os c s = ground arith

close_fds-log :
    (os : Os) (c : Client) (s : State)
    → close_fds os (live c s)
      ≡ ok tt (
          log
            (close_calls c)
            (live (record c { client_fd = closed c.client_fd; relay_fd = closed c.relay_fd }) s))
unfolding close_fds
close_fds-log os c s = ground arith

free_timeout-log :
    (os : Os) (c : Client) (s : State)
    → free_timeout os (live c s)
      ≡ ok tt (log (timeout_calls c) (live (record c { timeout_ev = 0 }) s))
unfolding free_timeout
free_timeout-log os c s = ground arith

disable_bufferevents-log :
    (os : Os) (c : Client) (s : State)
    → disable_bufferevents os (live c s) ≡ ok tt (log (disable_calls c) (live c s))
unfolding disable_bufferevents
disable_bufferevents-log os c s = ground arith

free_bufferevents-log :
    (os : Os) (c : Client) (s : State)
    → free_bufferevents os (live c s)
      ≡ ok tt (log (bev_calls c) (live (record c { relay_bev = 0; client_bev = 0 }) s))
unfolding free_bufferevents
free_bufferevents-log os c s = ground arith

free_addrs-log :
    (os : Os) (c : Client) (s : State)
    → free_addrs os (live c s)
      ≡ ok tt (log (addr_calls c) (live (record c { client_addr = 0; dest_addr = 0 }) s))
unfolding free_addrs
free_addrs-log os c s = ground arith

-- Everything that a live client holds is released, in this order (the latest call first).
unfoldable pub free_calls : Ptr → Client → List Call
free_calls p c =
    Call.free p ∷ Call.list_del p ∷ addr_calls c
    ++ bev_calls c
    ++ disable_calls c
    ++ timeout_calls c
    ++ close_calls c
    ++ shutdown_calls c

free_block-log :
    (os : Os) (p : Ptr) (s : State)
    → p ≢ 0
    → free_block p os s ≡ ok tt (log (Call.free p ∷ []) (record s { client = none }))
unfolding free_block
free_block-log os p s h = ground arith

destroy-log :
    (os : Os) (p : Ptr) (c : Client) (s : State)
    → p ≢ 0
    → destroy p os (live c s) ≡ ok tt (log (free_calls p c) (record s { client = none }))
unfolding destroy free_calls
destroy-log os p c s h =
    let c₁ = record c { client_state = ClientState.destroying } in
    let s₁ = log (shutdown_calls c) s in
    let c₂ = record c₁ { client_fd = closed c.client_fd; relay_fd = closed c.relay_fd } in
    let s₂ = log (close_calls c) s₁ in
    let c₃ = record c₂ { timeout_ev = 0 } in
    let s₃ = log (timeout_calls c) s₂ in
    let s₄ = log (disable_calls c) s₃ in
    let c₅ = record c₃ { relay_bev = 0; client_bev = 0 } in
    let s₅ = log (bev_calls c) s₄ in
    rw
      (
        shutdown_fds-log os c₁ s,
        close_fds-log os c₁ s₁,
        free_timeout-log os c₂ s₂,
        disable_bufferevents-log os c₃ s₃,
        free_bufferevents-log os c₃ s₄,
        free_addrs-log os c₅ s₅,
        free_block-log os p _ h,
      )
      (simp append_assoc)

pub transocks_client_free-log :
    (os : Os) (p : Ptr) (c : Client) (s : State)
    → p ≢ 0
    → is_gone c.client_state ≡ false
    → transocks_client_free p os (live c s)
      ≡ ok tt (log (free_calls p c) (record s { client = none }))
unfolding transocks_client_free
transocks_client_free-log os p c s h g = ground (arith, destroy-log os p c s h)

-- ===== src/Listener/Failures.antt =====
-- listener.c: what the error paths release.
use native.Mathlib.Nat.{zero-add}
use transocks_wong.Prelude.{
  ◌+◌, ◌≤◌, ◌≡◌, ◌≢◌, refl, ℤ, minus_one, int_eq_refl, is_neg, nonzero, true, false, none, some,
  List, [], ◌∷◌, arith,
}
use transocks_wong.Machine.{Ptr, Block, Call, Callback, Os, Client, GlobalEnv, State, ok}
use transocks_wong.Machine.Log.{live, log, closes, counting}
use transocks_wong.Macros.{ev_read_persist, bev_opt_close_on_free}
use transocks_wong.Context.{is_gone}
use transocks_wong.Context.Free.{free_calls}
use transocks_wong.Context.Releases.{closes-free_calls}
use transocks_wong.Socks5.Replies.{free_client-log}
use transocks_wong.Listener.{
  start_client, free_client_bev, free_client_fd, free_fd, add_listener, free_listener,
  close_listener, listener_deinit,
}

-- If libevent has no bufferevent for an accepted client, the client is freed, which closes the accepted
-- descriptor, and then the descriptor is closed a second time.
pub start_client-closes_twice :
    (os : Os) (p : Ptr) (fd : ℤ) (c : Client) (s : State)
    → p ≢ 0
    → is_neg fd ≡ false
    → is_gone c.client_state ≡ false
    → (os s.trace (Call.bufferevent_socket_new minus_one bev_opt_close_on_free)).ptr ≡ 0
    → (t : State) × (start_client p fd os (live c s) ≡ ok tt t)
      × (t.client ≡ none)
      × (closes fd s.trace + 2 ≤ closes fd t.trace)
unfolding start_client free_client_bev free_client_fd free_fd
start_client-closes_twice os p fd c s ne open_fd g null =
    let c' = record c { client_fd = fd } in
    let s' = log (Call.bufferevent_socket_new minus_one bev_opt_close_on_free ∷ []) s in
    (
      log (Call.close fd ∷ free_calls p c') (record s' { client = none }),
      rw null (rw (free_client-log os p c' s' ne g) (ground arith)),
      refl,
      simp (counting, closes-free_calls p c' fd, open_fd, int_eq_refl fd) (omega arith),
    )

-- If the event of the new listener cannot be added, `listener_init` frees the listener with its
-- descriptor, and then closes the descriptor a second time.
pub add_listener-closes_twice :
    (os : Os) (fd : ℤ) (e : GlobalEnv) (s : State)
    → is_neg fd ≡ false
    → let b = (os s.trace (Call.malloc Block.listener)).ptr in
      let s₁ = log (Call.malloc Block.listener ∷ []) s in
      let new_ev = Call.event_new fd ev_read_persist Callback.listener_cb in
      let ev = (os s₁.trace new_ev).ptr in
      b ≢ 0
      → ev ≢ 0
      → nonzero (os (new_ev ∷ s₁.trace) (Call.event_add ev)).ret ≡ true
      → (t : State) × (add_listener fd os (record s { env = some e }) ≡ ok minus_one t)
        × (t.env ≡ some (record e { listener = none }))
        × (closes fd t.trace ≡ 2 + closes fd s.trace)
unfolding add_listener free_listener close_listener listener_deinit
add_listener-closes_twice os fd e s open_fd bne evne failed =
    let b = (os s.trace (Call.malloc Block.listener)).ptr in
    let new_ev = Call.event_new fd ev_read_persist Callback.listener_cb in
    let ev = (os (Call.malloc Block.listener ∷ s.trace) new_ev).ptr in
    let cs : List Call =
      Call.close fd
      ∷ Call.free b
      ∷ Call.close fd
      ∷ Call.event_free ev
      ∷ Call.event_del ev
      ∷ Call.event_add ev
      ∷ new_ev
      ∷ Call.malloc Block.listener
      ∷ [] in
    (
      log cs (record s { env = some (record e { listener = none }) }),
      ground arith,
      refl,
      simp (counting, zero-add) (rw (int_eq_refl fd) (omega arith)),
    )

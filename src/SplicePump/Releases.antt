-- ===== src/SplicePump/Releases.antt =====
-- What a pump and its client give back, counted.
use native.Mathlib.Nat.{zero-add, add-zero}
use transocks_wong.Prelude.{
  List, ℕ, ◌+◌, ◌≡◌, ◌≢◌, refl, ℤ, ◌==◌, false, if◌then◌else◌, none, arith,
}
use transocks_wong.Machine.{Ptr, Call, Os, Client, SplicePipe, SplicePump, State, ok}
use transocks_wong.Machine.Log.{log, count, close_of, free_of, closes, counting, count-append}
use transocks_wong.Machine.Closes.{remakes, close_at}
use transocks_wong.Context.{is_gone}
use transocks_wong.Context.Releases.{
  one_fd, one_ptr, closes-free_calls, frees-free_calls, shut_with, remakes-free_calls,
  all_closes-free_calls,
}
use transocks_wong.SplicePump.{transocks_splicepump_free}
use transocks_wong.SplicePump.Free.{
  both, pipe_calls, del_events_calls, free_events_calls, splice_free_calls,
  transocks_splicepump_free-log,
}

abbrev pub pipe_fds : SplicePipe → ℤ → ℕ
pipe_fds q fd = one_fd q.pipe_readfd fd + one_fd q.pipe_writefd fd

module _ (p : Ptr) (c : Client) (q : SplicePump) where
  pub closes-splice_free_calls :
      (fd : ℤ)
      → closes fd (splice_free_calls p c q)
        ≡ one_fd c.client_fd fd
          + one_fd c.relay_fd fd
          + pipe_fds q.inbound_pipe fd
          + pipe_fds q.outbound_pipe fd
  unfolding splice_free_calls pipe_calls del_events_calls free_events_calls
  closes-splice_free_calls fd = simp (counting, closes-free_calls, zero-add, add-zero) (omega arith)

  pub frees-splice_free_calls :
      (b : Ptr)
      → count (free_of b) (splice_free_calls p c q)
        ≡ (if p == b then 1 else 0)
          + one_ptr c.client_addr b
          + one_ptr c.dest_addr b
          + (if c.user_arg == b then 1 else 0)
          + one_ptr q.inbound_pipe.block b
          + one_ptr q.outbound_pipe.block b
  unfolding splice_free_calls pipe_calls del_events_calls free_events_calls
  frees-splice_free_calls b = simp (counting, frees-free_calls, zero-add, add-zero) (omega arith)

  pub remakes-splice_free_calls : count remakes (splice_free_calls p c q) ≡ 0
  unfolding splice_free_calls pipe_calls del_events_calls free_events_calls
  remakes-splice_free_calls = simp (counting, remakes-free_calls, zero-add)

  pub all_closes-splice_free_calls :
      (os : Os) (fd : ℤ) (tr : List Call)
      → count (close_at os fd tr) (splice_free_calls p c q)
        ≡ one_fd c.client_fd fd
          + one_fd c.relay_fd fd
          + pipe_fds q.inbound_pipe fd
          + pipe_fds q.outbound_pipe fd
          + shut_with os fd c.client_bev tr
          + shut_with os fd c.relay_bev tr
  unfolding splice_free_calls pipe_calls del_events_calls free_events_calls
  all_closes-splice_free_calls os fd tr =
      simp (counting, all_closes-free_calls, zero-add, add-zero) (omega arith)

-- `transocks_splicepump_free` on a client with a pump, not yet gone, frees both and takes them out
-- of use. It calls `close` on each open descriptor of the client and of the two pipes once, and frees the
-- blocks of the pump, of the two pipes, of the client and of its two addresses once; nothing else is
-- closed or freed in these ways.
pub transocks_splicepump_free-releases :
    (os : Os) (p : Ptr) (c : Client) (q : SplicePump) (s : State)
    → p ≢ 0
    → c.user_arg ≢ 0
    → is_gone c.client_state ≡ false
    → (t : State) × (transocks_splicepump_free p os (both c q s) ≡ ok tt t)
      × (t.client ≡ none)
      × (t.pump ≡ none)
      × ((fd : ℤ)
          → closes fd t.trace
            ≡ one_fd c.client_fd fd
              + one_fd c.relay_fd fd
              + pipe_fds q.inbound_pipe fd
              + pipe_fds q.outbound_pipe fd
              + closes fd s.trace)
      × ((b : Ptr)
          → count (free_of b) t.trace
            ≡ (if p == b then 1 else 0)
              + one_ptr c.client_addr b
              + one_ptr c.dest_addr b
              + (if c.user_arg == b then 1 else 0)
              + one_ptr q.inbound_pipe.block b
              + one_ptr q.outbound_pipe.block b
              + count (free_of b) s.trace)
transocks_splicepump_free-releases os p c q s h u g = (
  log (splice_free_calls p c q) (record s { client = none; pump = none }),
  transocks_splicepump_free-log os p c q s h u g,
  refl,
  refl,
  λ fd. rw (
    count-append (close_of fd) (splice_free_calls p c q) s.trace,
    closes-splice_free_calls p c q fd,
  ),
  λ b.
      rw (
        count-append (free_of b) (splice_free_calls p c q) s.trace,
        frees-splice_free_calls p c q b,
      ),
)

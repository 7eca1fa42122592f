-- ===== src/SplicePump/Runs.antt =====
-- The callbacks of splicepump.c, one by one and in any sequence, keep the byte counts.
use transocks_wong.Prelude.{
  ℕ, sym, subst, ◌||◌, ◌≤◌, ◌≡◌, ◌≢◌, if◌then◌else◌, Bool-cases, inl, inr, List, [], ◌∷◌, some,
}
use transocks_wong.Machine.{Ptr, Call, has_client, Os, Client, SplicePump, State, M, skip, ◌>>=◌}
use transocks_wong.Machine.Returns
use transocks_wong.Machine.Returns.{Returns, returns}
use transocks_wong.Macros.{transocks_is_invalid_fd}
use transocks_wong.SplicePump.Moved.{PipeTable, SpliceLaws}
use transocks_wong.SplicePump.Invariant.{IsPumping, IsPumpingAt, IsHealthy, freed, running}
use transocks_wong.SplicePump.Accounting.{free-IsHealthy}
use transocks_wong.SplicePump.Free.{both}
use transocks_wong.SplicePump.{
  Direction, inbound, outbound, SpliceEvent, client_readcb, client_writecb, relay_readcb,
  relay_writecb, source_fd, target_fd, pipe_of, splice_result, transocks_single_splice,
  transocks_write_to_pipe, transocks_read_from_pipe, splicepump_cb, splice_run,
  transocks_on_fatal_failure,
}
use transocks_wong.SplicePump.Results.{State-both, splice_result-amount, after_write, after_read}

module _ {os : Os} {P : PipeTable} {p : Ptr} (laws : SpliceLaws os P) (ne : p ≢ 0) where
  fatal-IsHealthy :
      (c : Client) (q : SplicePump) (s : State) {i o : Direction → ℕ}
      → IsPumping P c q i o
      → Returns (λ _. IsHealthy os P) (transocks_on_fatal_failure p os (both c q s))
  unfolding transocks_on_fatal_failure
  fatal-IsHealthy c q s v = free-IsHealthy laws ne c q s v

  write-IsHealthy :
      (d : Direction) (c : Client) (q : SplicePump) (s : State)
      → IsPumpingAt os P c q s.trace
      → Returns (λ _. IsHealthy os P) (transocks_write_to_pipe p d os (both c q s))
  unfolding transocks_write_to_pipe transocks_single_splice
  write-IsHealthy d c q s v =
      let fd = (pipe_of d q).pipe_writefd in
      let cap = (pipe_of d q).capacity in
      let r = os s.trace (Call.splice (source_fd d c) fd cap) in
      elim (Bool-cases (transocks_is_invalid_fd (source_fd d c) || transocks_is_invalid_fd fd)) [
        | inl bad ↦ rw bad (fatal-IsHealthy c q s v)
        | inr fine ↦ rw fine (
            after_write laws ne d c q s cap (splice_result r.ret r.errno)
              (splice_result-amount r.ret r.errno (laws.error s.trace (source_fd d c) fd cap)) v)
      ]

  read-IsHealthy :
      (d : Direction) (c : Client) (q : SplicePump) (s : State)
      → IsPumpingAt os P c q s.trace
      → Returns (λ _. IsHealthy os P) (transocks_read_from_pipe p d os (both c q s))
  unfolding transocks_read_from_pipe transocks_single_splice
  read-IsHealthy d c q s v =
      let fd = (pipe_of d q).pipe_readfd in
      let len = (pipe_of d q).data_in_pipe in
      let r = os s.trace (Call.splice fd (target_fd d c) len) in
      let e = splice_result-amount r.ret r.errno (laws.error s.trace fd (target_fd d c) len) in
      elim (Bool-cases (transocks_is_invalid_fd fd || transocks_is_invalid_fd (target_fd d c))) [
        | inl bad ↦ rw bad (fatal-IsHealthy c q s v)
        | inr fine ↦ rw fine (
            after_read laws ne d c q s (splice_result r.ret r.errno) e
              (subst (λ n. n ≤ len) e (laws.amount s.trace fd (target_fd d c) len)) v)
      ]

  pub cb-IsHealthy :
      (c : Client) (q : SplicePump) (s : State) (e : SpliceEvent)
      → IsPumpingAt os P c q s.trace
      → Returns (λ _. IsHealthy os P) (splicepump_cb p e os (both c q s))
  unfolding splicepump_cb
  cb-IsHealthy c q s client_readcb v = write-IsHealthy outbound c q s v
  cb-IsHealthy c q s client_writecb v = read-IsHealthy inbound c q s v
  cb-IsHealthy c q s relay_readcb v = write-IsHealthy inbound c q s v
  cb-IsHealthy c q s relay_writecb v = read-IsHealthy outbound c q s v

  go_on :
      (m : M (Unit {0})) (t : State)
      → IsHealthy os P t
      → ((c : Client) (q : SplicePump)
          → t.client ≡ some c
          → t.pump ≡ some q
          → IsPumpingAt os P c q t.trace
          → Returns (λ _. IsHealthy os P) (m os t))
      → Returns (λ _. IsHealthy os P) ((has_client >>= λ live. if live then m else skip) os t)
  go_on m t (freed ce pe) next = simp ce (returns (freed ce pe))
  go_on m t (running c q ce pe v) next = simp ce (next c q ce pe v)

  -- From a state in which the pump runs, any sequence of callbacks ends without an access to freed
  -- memory. Then the client and the pump are freed together, or both are there and each counter
  -- is what `splice` moved into its pipe less what it moved out, within the pipe's capacity.
  pub splice_run-IsHealthy :
      (es : List SpliceEvent) (c : Client) (q : SplicePump) (s : State)
      → s.client ≡ some c
      → s.pump ≡ some q
      → IsPumpingAt os P c q s.trace
      → Returns (λ _. IsHealthy os P) (splice_run p es os s)
  unfolding splice_run
  splice_run-IsHealthy [] c q s ce pe v = returns (running c q ce pe v)
  splice_run-IsHealthy (e ∷ es) c q s ce pe v =
      Returns.bind _ os
        (subst (λ t. Returns (λ _. IsHealthy os P) (splicepump_cb p e os t))
          (sym (State-both s ce pe)) (cb-IsHealthy c q s e v))
        λ _ t h.
          go_on (splice_run p es) t h
            (λ c' q' ce' pe' v'. splice_run-IsHealthy es c' q' t ce' pe' v')

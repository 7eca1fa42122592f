-- ===== src/SplicePump/Life.antt =====
-- splicepump.c: a pump from its start on.
use transocks_wong.Prelude.{
  ◌≡◌, ◌≢◌, refl, sym, subst, ℤ, pos, minus_one, nonzero, Bool, true, false, ◌==◌, ◌⊎◌, inl, inr,
  none, List, [], ◌∷◌, if◌then◌else◌, arith,
}
use transocks_wong.Machine.{
  Ptr, Call, Os, Client, SplicePump, State, M, Run, ok, fault, and_then, pure, skip, ◌>>=◌, ◌>>◌,
  ◌>>?◌,
}
use transocks_wong.Machine.Log.{live, log}
use transocks_wong.Macros.{ev_read_write}
use transocks_wong.Machine.Returns.{Ends, Ends-bind, Ends-mono, Ends-Returns}
use transocks_wong.SplicePump.{
  inbound, outbound, SpliceEvent, splice_run, transocks_splicepump_free,
}
use transocks_wong.SplicePump.Start.{
  disable_bevs, attach, open_pipe, size_pipe, new_events, add_events, start_steps,
  transocks_splicepump_start_pump,
}
use transocks_wong.SplicePump.Moved.{SpliceLaws}
use transocks_wong.SplicePump.Invariant.{IsPumpingAt, IsHealthy, freed}
use transocks_wong.SplicePump.Results.{State-both}
use transocks_wong.SplicePump.Runs.{splice_run-IsHealthy}
use transocks_wong.SplicePump.Outcome.{is_plain, is_attached, start_pump-outcome}
use transocks_wong.SplicePump.Descriptors.{
  is_open_in, no_splice, PipeLaws, Made, moved_in-none, moved_out-none, Differ-sym,
}
use transocks_wong.SplicePump.Stages.{Waits, Begun, TwoSized, At, Unless, Passes}
use transocks_wong.SplicePump.Begins.{attached_steps, disable_log, attach-Begun}

-- The pump is started, and libevent runs its callbacks if it was.
unfoldable pub start_and_run : Ptr → List SpliceEvent → M (Unit {0})
start_and_run pclient es = do
  r ← transocks_splicepump_start_pump pclient
  if nonzero r then skip else splice_run pclient es

-- The steps of the start from the pipes on, and what follows all steps.
abbrev attached : M Bool
attached =
    open_pipe inbound
    >>? open_pipe outbound
    >>? size_pipe inbound
    >>? size_pipe outbound
    >>? new_events
    >>? add_events

abbrev start_last : Ptr → Bool → M ℤ
start_last p good = if good then pure (pos 0) else transocks_splicepump_free p >> pure minus_one

not_zero : (r : ℤ) → r ≡ pos 0 → nonzero r ≡ true → ⊥
not_zero r e h = ground arith

module _ (os : Os) (laws : PipeLaws os) where
  -- A pump that was started runs: nothing has been moved through its pipes.
  TwoSized-IsPumping :
      (c : Client) (q : SplicePump) (tr : List Call)
      → TwoSized os c q tr
      → IsPumpingAt os (Made os) c q tr
  TwoSized-IsPumping c q tr (((u, g, i, o, n, co, ro), ip, op, (rx, wx)), isz, osz) = record {
    attached = u;
    present = g;
    counted = elim [
      | inbound ↦ record {
        balance = omega (
          arith,
          moved_in-none os q.inbound_pipe.pipe_writefd tr n,
          moved_out-none os q.inbound_pipe.pipe_readfd tr n,
        );
        bounded = omega arith;
        no_wrap = isz.2;
      }
      | outbound ↦ record {
        balance = omega (
          arith,
          moved_in-none os q.outbound_pipe.pipe_writefd tr n,
          moved_out-none os q.outbound_pipe.pipe_readfd tr n,
        );
        bounded = omega arith;
        no_wrap = osz.2;
      }
    ];
    apart = elim [
      | inbound ↦ record {
        source_own = ip.3;
        source_other = op.3;
        target_own = ip.2;
        target_other = op.2;
        reads = rx;
        writes = wx;
      }
      | outbound ↦ record {
        source_own = op.1;
        source_other = ip.1;
        target_own = op.4;
        target_other = ip.4;
        reads = Differ-sym q.inbound_pipe.pipe_readfd q.outbound_pipe.pipe_readfd rx;
        writes = Differ-sym q.inbound_pipe.pipe_writefd q.outbound_pipe.pipe_writefd wx;
      }
    ];
    piped = elim [
      | inbound ↦ (ip.0.0, isz.0, ip.0.1, ip.0.2, isz.1)
      | outbound ↦ (op.0.0, osz.0, op.0.1, op.0.2, osz.1)
    ];
  }

  steps-TwoSized :
      (c : Client) (s : State)
      → Waits os c s.trace
      → Ends (Unless (TwoSized os)) (start_steps os (live c s))
  unfolding start_steps Passes is_open_in no_splice
  steps-TwoSized c s v =
      Ends-bind _ (Unless (TwoSized os)) (disable_bevs os (live c s)) _ os (disable_log os laws c s)
        (elim [
          | false ↦ λ t ht. inl refl
          | true ↦ λ t ht. elim ht [
            | inl e ↦ cc
            | inr te ↦ rw te (
                Ends-bind (Unless (Begun os)) (Unless (TwoSized os)) (attach os _) _ os
                  (attach-Begun os laws c
                    (log
                      (Call.bufferevent_disable c.relay_bev ev_read_write
                        ∷ Call.bufferevent_disable c.client_bev ev_read_write
                        ∷ [])
                      s)
                    v)
                  (elim [
                    | false ↦ λ u hu. inl refl
                    | true ↦ λ u hu. elim hu [
                      | inl e ↦ cc
                      | inr (c', q', ce, pe, l) ↦
                          subst (λ x. Ends (Unless (TwoSized os)) (attached os x))
                            (sym (State-both u ce pe)) (attached_steps os laws c' q' u l)
                    ]
                  ]))
          ]
        ])

  -- What `transocks_splicepump_start_pump` returns, beside what its steps leave.
  start_result :
      (p : Ptr) (Q : ℤ → State → Type 0) (r : Run Bool)
      → Ends (Unless (TwoSized os)) r
      → Ends Q (and_then r (start_last p) os)
      → Ends
          (λ x t. Q x t × ((nonzero x ≡ true) ⊎ At (TwoSized os) t))
          (and_then r (start_last p) os)
  start_result p Q (ok true t) (inl e) h = cc
  start_result p Q (ok true t) (inr a) h = (h, inr a)
  start_result p Q (ok false t) _ h = go (transocks_splicepump_free p os t) h
    where
      go :
          (r : Run (Unit {0}))
          → Ends Q (and_then r (λ _. pure minus_one) os)
          → Ends
              (λ x t. Q x t × ((nonzero x ≡ true) ⊎ At (TwoSized os) t))
              (and_then r (λ _. pure minus_one) os)
      go (ok _ t) h = (h, inl refl)
      go (fault f) h = h
  start_result p Q (fault f) u h = h

  start_pump-TwoSized :
      (p : Ptr) (c : Client) (s : State)
      → p ≢ 0
      → (c.user_arg == 0) ≡ true
      → Waits os c s.trace
      → Ends
          (λ r t.
            (((r ≡ pos 0) × (is_attached t ≡ true))
              ⊎ ((r ≡ minus_one) × (t.client ≡ none) × (t.pump ≡ none))
              ⊎ ((r ≡ minus_one) × (is_plain t ≡ true)))
            × ((nonzero r ≡ true) ⊎ At (TwoSized os) t))
          (transocks_splicepump_start_pump p os (live c s))
  unfolding transocks_splicepump_start_pump
  start_pump-TwoSized p c s ne plain v =
      start_result p _ (start_steps os (live c s)) (steps-TwoSized c s v)
        (start_pump-outcome os p (live c s) ne (rw (plain, v.0) refl))

  -- A client without a pump, with open sockets and no `splice` so far: if the pump is started and any
  -- sequence of its callbacks follows, there is no access to freed memory. Then the start has failed and
  -- left the client without a pump; or the client and the pump are freed together; or both are there and
  -- each counter is what `splice` moved into its pipe less what it moved out, within the pipe's capacity.
  pub start_and_run-IsHealthy :
      (p : Ptr) (es : List SpliceEvent) (c : Client) (s : State)
      → SpliceLaws os (Made os)
      → p ≢ 0
      → (c.user_arg == 0) ≡ true
      → Waits os c s.trace
      → Ends
          (λ _ t. IsHealthy os (Made os) t ⊎ (is_plain t ≡ true))
          (start_and_run p es os (live c s))
  unfolding start_and_run
  start_and_run-IsHealthy p es c s moves ne plain v =
      Ends-bind _ _ (transocks_splicepump_start_pump p os (live c s)) _ os
        (start_pump-TwoSized p c s ne plain v)
        λ r t (how, up). elim how [
          | inr (inl (e, ce, pe)) ↦ simp e (inl (freed ce pe))
          | inr (inr (e, still)) ↦ simp e (inr still)
          | inl (e, at) ↦ simp e (elim up [
            | inl bad ↦ absurd (not_zero r e bad)
            | inr (c', q', ce, pe, l) ↦
                Ends-mono _ _ (splice_run p es os t)
                  (Ends-Returns (
                    splice_run-IsHealthy moves ne es c' q' t ce pe
                      (TwoSized-IsPumping c' q' t.trace l)))
                  λ _ u h. inl h
          ])
        ]

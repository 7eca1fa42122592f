-- ===== src/SplicePump/Begins.antt =====
-- splicepump.c: each step of the start of a pump keeps what is known, and adds to it.
use transocks_wong.Prelude.{
  ◌≡◌, refl, ℤ, minus_one, Bool, false, ◌==◌, Bool-cases, ◌⊎◌, inl, inr, List, [], ◌∷◌, arith,
}
use transocks_wong.Machine.{
  Ptr, Block, Call, Os, Client, SplicePump, Callback, State, M, ◌>>?◌, succeeds,
}
use transocks_wong.Macros.{ev_read_persist, ev_read_write}
use transocks_wong.Machine.Log.{log, live}
use transocks_wong.Machine.Returns.{Ends}
use transocks_wong.SplicePump.{inbound, outbound}
use transocks_wong.SplicePump.Start.{
  disable_bevs, attach, open_pipe, size_pipe, new_ev, new_events, add_events,
}
use transocks_wong.SplicePump.Descriptors.{is_open_in, no_splice, PipeLaws}
use transocks_wong.SplicePump.Stages.{
  Waits, Begun, OnePiped, TwoPiped, OneSized, TwoSized, Unless, Passes, then-Passes,
}
use transocks_wong.SplicePump.Pipes.{open_in, open_out, size_in, size_out}

module _ (os : Os) (laws : PipeLaws os) where
  new_ev-Passes :
      (fd : ℤ) (cb : Callback) (store : Ptr → SplicePump → SplicePump)
      → ((ev : Ptr) (c : Client) (q : SplicePump) (tr : List Call)
          → TwoSized os c q tr
          → TwoSized os c (store ev q) tr)
      → Passes os (TwoSized os) (TwoSized os) (new_ev fd cb store)
  unfolding Passes new_ev is_open_in no_splice
  new_ev-Passes fd cb store keeps c q s v =
      let new = Call.event_new fd ev_read_persist cb in
      inr (
        c,
        store (os s.trace new).ptr q,
        refl,
        refl,
        keeps (os s.trace new).ptr c q (new ∷ s.trace) v,
      )

  sized_steps :
      (m k l n : M Bool)
      → Passes os (TwoSized os) (TwoSized os) m
      → Passes os (TwoSized os) (TwoSized os) k
      → Passes os (TwoSized os) (TwoSized os) l
      → Passes os (TwoSized os) (TwoSized os) n
      → Passes os (TwoSized os) (TwoSized os) (m >>? k >>? l >>? n)
  sized_steps m k l n hm hk hl hn =
      then-Passes os (TwoSized os) (TwoSized os) (TwoSized os) m (k >>? l >>? n) hm (
        then-Passes os (TwoSized os) (TwoSized os) (TwoSized os) k (l >>? n) hk
          (then-Passes os (TwoSized os) (TwoSized os) (TwoSized os) l n hl hn))

  new_events-Passes : Passes os (TwoSized os) (TwoSized os) new_events
  unfolding Passes new_events
  new_events-Passes c q s v =
      sized_steps
        (new_ev c.client_fd Callback.splicepump_client_readcb
          (λ ev p. record p { client_read_ev = ev }))
        (new_ev q.inbound_pipe.pipe_readfd Callback.splicepump_client_writecb
          (λ ev p. record p { client_write_ev = ev }))
        (new_ev c.relay_fd Callback.splicepump_relay_readcb
          (λ ev p. record p { relay_read_ev = ev }))
        (new_ev q.outbound_pipe.pipe_readfd Callback.splicepump_relay_writecb
          (λ ev p. record p { relay_write_ev = ev }))
        (new_ev-Passes _ _ _ λ ev c q tr h. h) (new_ev-Passes _ _ _ λ ev c q tr h. h)
        (new_ev-Passes _ _ _ λ ev c q tr h. h) (new_ev-Passes _ _ _ λ ev c q tr h. h) c q s v

  add-Passes : (ev : Ptr) → Passes os (TwoSized os) (TwoSized os) (succeeds (Call.event_add ev))
  unfolding Passes is_open_in no_splice
  add-Passes ev c q s v = inr (c, q, refl, refl, v)

  add_events-Passes : Passes os (TwoSized os) (TwoSized os) add_events
  unfolding Passes add_events
  add_events-Passes c q s v =
      sized_steps (succeeds (Call.event_add q.client_read_ev))
        (succeeds (Call.event_add q.client_write_ev)) (succeeds (Call.event_add q.relay_read_ev))
        (succeeds (Call.event_add q.relay_write_ev)) (add-Passes _) (add-Passes _) (add-Passes _)
        (add-Passes _) c q s v

  -- The steps after the pump hangs on its client.
  pub attached_steps : Passes os (Begun os) (TwoSized os) (
      open_pipe inbound
      >>? open_pipe outbound
      >>? size_pipe inbound
      >>? size_pipe outbound
      >>? new_events
      >>? add_events)
  attached_steps =
      then-Passes os (Begun os) (OnePiped os) (TwoSized os) (open_pipe inbound) _ (open_in os laws)
        (then-Passes os (OnePiped os) (TwoPiped os) (TwoSized os) (open_pipe outbound) _
          (open_out os laws)
          (then-Passes os (TwoPiped os) (OneSized os) (TwoSized os) (size_pipe inbound) _
            (size_in os laws)
            (then-Passes os (OneSized os) (TwoSized os) (TwoSized os) (size_pipe outbound) _
              (size_out os laws)
              (then-Passes os (TwoSized os) (TwoSized os) (TwoSized os) new_events add_events
                new_events-Passes add_events-Passes))))

  pub disable_log :
      (c : Client) (s : State)
      → Ends
          (λ good t.
            (good ≡ false)
            ⊎ (t
                ≡ log
                    (Call.bufferevent_disable c.relay_bev ev_read_write
                      ∷ Call.bufferevent_disable c.client_bev ev_read_write
                      ∷ [])
                    (live c s)))
          (disable_bevs os (live c s))
  unfolding disable_bevs
  disable_log c s = ground arith

  pub attach-Begun :
      (c : Client) (s : State)
      → Waits os c s.trace
      → Ends (Unless (Begun os)) (attach os (live c s))
  unfolding attach is_open_in no_splice
  attach-Begun c s (g, n, co, ro) =
      let s₁ =
        log
          (Call.bufferevent_setfd c.relay_bev minus_one
            ∷ Call.bufferevent_setfd c.client_bev minus_one
            ∷ [])
          s in
      let b = os s₁.trace (Call.malloc Block.splicepump) in
      let s₂ = log (Call.malloc Block.splicepump ∷ []) s₁ in
      let i = os s₂.trace (Call.malloc Block.splicepipe) in
      let s₃ = log (Call.malloc Block.splicepipe ∷ []) s₂ in
      let o = os s₃.trace (Call.malloc Block.splicepipe) in
      elim (Bool-cases (b.ptr == 0)) [
        | inl no_b ↦ rw no_b (inl refl)
        | inr b_there ↦ rw b_there (elim (Bool-cases (i.ptr == 0)) [
          | inl no_i ↦ rw no_i (inl refl)
          | inr i_there ↦ rw i_there (elim (Bool-cases (o.ptr == 0)) [
            | inl no_o ↦ rw no_o (inl refl)
            | inr o_there ↦
                rw (o_there, b_there)
                  (inr (_, _, refl, refl, (ground arith, g, refl, refl, n, co, ro)))
          ])
        ])
      ]

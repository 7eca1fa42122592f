-- ===== src/SplicePump/Pipes.antt =====
-- splicepump.c: the pipes of a pump that starts, and their sizes.
use transocks_wong.Prelude.{
  ◌<◌, ◌≡◌, refl, sym, ap, ℤ, pos, negsuc, minus_one, int_eq, true, false, ◌⊎◌, inl, inr, none,
  some, List, [], ◌∷◌, ◌++◌, arith,
}
use transocks_wong.Machine.{Call, Os, Client, SplicePipe, State}
use transocks_wong.Machine.Log.{log}
use transocks_wong.Machine.Returns.{Ends, Ends-bind}
use transocks_wong.Util.{createpipe}
use transocks_wong.SplicePump.{inbound, outbound, set_pipe, size_mod, modify_pipe}
use transocks_wong.SplicePump.Start.{size_of_int, open_pipe, size_pipe, getpipesize}
use transocks_wong.SplicePump.Free.{both}
use transocks_wong.SplicePump.Descriptors.{
  is_open_in, no_splice, PipeLaws, Opened, createpipe-Opened, pipe_calls,
}
use transocks_wong.SplicePump.Stages.{
  Begun, Piped, OnePiped, TwoPiped, OneSized, TwoSized, Unless, Passes, opened, Begun-kept,
  Piped-kept,
}

module _ (os : Os) (laws : PipeLaws os) where
  Piped-opened :
      (c : Client) (pipe : SplicePipe) (tr : List Call)
      → int_eq (os tr Call.pipe).ret minus_one ≡ false
      → is_open_in os c.client_fd tr ≡ true
      → is_open_in os c.relay_fd tr ≡ true
      → Piped os c (opened os tr pipe) (pipe_calls os tr ++ tr)
  unfolding is_open_in
  Piped-opened c pipe tr made co ro =
      let (cr, cw) = laws.fresh tr c.client_fd made co in
      let (rr, rw_) = laws.fresh tr c.relay_fd made ro in
      ((tr, refl, refl), cr, cw, rr, rw_, ground arith, ground arith)

  pub open_in : Passes os (Begun os) (OnePiped os) (open_pipe inbound)
  unfolding Passes open_pipe modify_pipe
  open_in c q s v =
      Ends-bind (Opened os (both c q s)) (Unless (OnePiped os)) (createpipe os (both c q s)) _ os
        (createpipe-Opened os (both c q s))
        (elim [
          | none ↦ λ t ht. inl refl
          | some (rd, wr) ↦ λ t (re, we, made, te).
              rw (re, we, te)
                (inr (
                  c,
                  set_pipe inbound (opened os s.trace q.inbound_pipe) q,
                  refl,
                  refl,
                  (Begun-kept os c q s.trace v, Piped-opened c q.inbound_pipe s.trace made v.5 v.6),
                ))
        ])

  pub open_out : Passes os (OnePiped os) (TwoPiped os) (open_pipe outbound)
  unfolding Passes open_pipe modify_pipe
  open_out c q s (v, in_pipe) =
      Ends-bind (Opened os (both c q s)) (Unless (TwoPiped os)) (createpipe os (both c q s)) _ os
        (createpipe-Opened os (both c q s))
        (elim [
          | none ↦ λ t ht. inl refl
          | some (rd, wr) ↦ λ t (re, we, made, te).
              rw (re, we, te)
                (inr (
                  c,
                  set_pipe outbound (opened os s.trace q.outbound_pipe) q,
                  refl,
                  refl,
                  (
                    Begun-kept os c q s.trace v,
                    Piped-kept os c q.inbound_pipe s.trace in_pipe,
                    Piped-opened c q.outbound_pipe s.trace made v.5 v.6,
                    (
                      (laws.fresh s.trace q.inbound_pipe.pipe_readfd made in_pipe.5).0,
                      (laws.fresh s.trace q.inbound_pipe.pipe_writefd made in_pipe.6).1,
                    ),
                  ),
                ))
        ])

  -- A size that is not -1, cast to `size_t`.
  size_bound :
      (tr : List Call) (fd r : ℤ)
      → (os tr (Call.fcntl_getpipe_sz fd)).ret ≡ r
      → size_of_int r < size_mod
  size_bound tr fd (pos n) e = omega (arith, laws.int_size tr fd n e)
  size_bound tr fd (negsuc n) e = omega arith

  -- `getpipesize` gives -1, or what the kernel tells.
  size_log :
      (fd : ℤ) (s : State)
      → Ends
          (λ r t.
            (int_eq r minus_one ≡ true)
            ⊎ ((int_eq r minus_one ≡ false)
                × (r ≡ (os s.trace (Call.fcntl_getpipe_sz fd)).ret)
                × (t ≡ log (Call.fcntl_getpipe_sz fd ∷ []) s)))
          (getpipesize fd os s)
  unfolding getpipesize
  size_log fd s = ground arith

  pub size_in : Passes os (TwoPiped os) (OneSized os) (size_pipe inbound)
  unfolding Passes size_pipe modify_pipe is_open_in no_splice
  size_in c q s v =
      let fd = q.inbound_pipe.pipe_readfd in
      Ends-bind _ (Unless (OneSized os)) (getpipesize fd os (both c q s)) _ os
        (size_log fd (both c q s))
        λ r t ht. elim ht [
          | inl bad ↦ rw bad (inl refl)
          | inr (fine, re, te) ↦
              rw (fine, te)
                (inr (
                  c,
                  set_pipe inbound (record q.inbound_pipe { capacity = size_of_int r }) q,
                  refl,
                  refl,
                  (v, (s.trace, ap size_of_int (sym re), size_bound s.trace fd r (sym re))),
                ))
        ]

  pub size_out : Passes os (OneSized os) (TwoSized os) (size_pipe outbound)
  unfolding Passes size_pipe modify_pipe is_open_in no_splice
  size_out c q s (v, sized) =
      let fd = q.outbound_pipe.pipe_readfd in
      Ends-bind _ (Unless (TwoSized os)) (getpipesize fd os (both c q s)) _ os
        (size_log fd (both c q s))
        λ r t ht. elim ht [
          | inl bad ↦ rw bad (inl refl)
          | inr (fine, re, te) ↦
              rw (fine, te)
                (inr (
                  c,
                  set_pipe outbound (record q.outbound_pipe { capacity = size_of_int r }) q,
                  refl,
                  refl,
                  (v, sized, (s.trace, ap size_of_int (sym re), size_bound s.trace fd r (sym re))),
                ))
        ]

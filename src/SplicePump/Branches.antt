-- ===== src/SplicePump/Branches.antt =====
-- splicepump.c: what each branch of the two handlers leaves of a trace in which all was delivered.
use transocks_wong.Prelude.{
  ◌+◌, ◌-◌, ◌%◌, ◌≡◌, ◌≢◌, refl, subst, int_eq_refl, is_neg, nonzero, Bool, true, false, arith, not,
  ◌&&◌, ltb, Bool-cases, ◌⊎◌, inl, inr, none, some, [], ◌∷◌, if◌then◌else◌,
}
use transocks_wong.Machine.{Ptr, Call, How, Os, Client, SplicePump, State, M, skip, ◌>>=◌}
use transocks_wong.Machine.Log.{log, has_ended, was_told}
use transocks_wong.Machine.Returns.{Ends}
use transocks_wong.Macros.{transocks_is_invalid_fd, ev_read}
use transocks_wong.Context.{is_gone}
use transocks_wong.SplicePump.{
  Direction, inbound, outbound, source_fd, target_fd, pipe_of, size_mod, set_pipe, SpliceResult,
  set_source_eof, set_target_eof, normal_transfer, can_retry, fatal_failure, read_eof, is_finished,
  transocks_check_normal_termination, on_written, on_read, target_ev, source_ev,
  transocks_splicepump_free,
}
use transocks_wong.SplicePump.Free.{both, splice_free_calls, transocks_splicepump_free-log}
use transocks_wong.SplicePump.Delivered.{
  has_failed, is_due, is_flagged, finished-is_due, failed-is_due, Fds, fds_of, AllDelivered,
  IsEmptyFor, delivered-append, shut_wr-splice_free_calls,
}

-- The trace is as it should be, and the client is freed or still has its descriptors.
abbrev pub Delivers : Os → Fds → {A : Type 0} → A → State → Type 0
Delivers os f _ t =
    AllDelivered os f t.trace
    × ((t.client ≡ none)
        ⊎ ((c : Client) × (q : SplicePump) × (t.client ≡ some c)
            × (t.pump ≡ some q)
            × (fds_of c q ≡ f)
            × (is_flagged c t.trace ≡ true)))

module _ (os : Os) (p : Ptr) (ne : p ≢ 0) where
  pub free-Delivers :
      (f : Fds) (c : Client) (q : SplicePump) (s : State)
      → c.user_arg ≢ 0
      → is_gone c.client_state ≡ false
      → is_due os f s.trace ≡ true
      → AllDelivered os f s.trace
      → Ends (Delivers os f) (transocks_splicepump_free p os (both c q s))
  free-Delivers f c q s u g due h = rw (transocks_splicepump_free-log os p c q s ne u g) (
    delivered-append os f (splice_free_calls p c q) s.trace (shut_wr-splice_free_calls p c q) due h,
    inl refl,
  )

  check-Delivers :
      (f : Fds) (d : Direction) (c : Client) (q : SplicePump) (s : State)
      → c.user_arg ≢ 0
      → is_gone c.client_state ≡ false
      → fds_of c q ≡ f
      → is_flagged c s.trace ≡ true
      → AllDelivered os f s.trace
      → Ends (Delivers os f) (transocks_check_normal_termination p d os (both c q s))
  unfolding transocks_check_normal_termination
  check-Delivers f d c q s u g e ft h = elim (Bool-cases (is_finished d c)) [
    | inl done ↦ rw done (
        free-Delivers f c q s u g
          (subst (λ x. is_due os x s.trace ≡ true) e (finished-is_due os d c q s.trace ft done)) h)
    | inr more ↦ rw more (h, inr (c, q, refl, refl, e, ft))
  ]

  unfoldable pub checked : Ptr → Direction → Bool → M (Unit {0})
  checked p d good = if good then transocks_check_normal_termination p d else skip

  pub after_write :
      (f : Fds) (d : Direction) (c : Client) (q : SplicePump) (s : State) (x : SpliceResult)
      → c.user_arg ≢ 0
      → is_gone c.client_state ≡ false
      → fds_of c q ≡ f
      → is_flagged c s.trace ≡ true
      → AllDelivered os f s.trace
      → (x ≡ fatal_failure → has_failed os s.trace ≡ true)
      → Ends (Delivers os f) ((on_written p d c q x >>= checked p d) os (both c q s))
  unfolding on_written checked AllDelivered has_ended was_told has_failed
  after_write f inbound c q s (normal_transfer n) u g e ft h bad =
      check-Delivers f inbound c
        (set_pipe inbound
          (record q.inbound_pipe { data_in_pipe = (q.inbound_pipe.data_in_pipe + n) % size_mod }) q)
        s u g e ft h
  after_write f outbound c q s (normal_transfer n) u g e ft h bad =
      check-Delivers f outbound c
        (set_pipe outbound
          (record q.outbound_pipe { data_in_pipe = (q.outbound_pipe.data_in_pipe + n) % size_mod })
          q)
        s u g e ft h
  after_write f d c q s can_retry u g e ft h bad =
      let pend = Call.event_pending (target_ev d q) ev_read in
      elim (Bool-cases
        (not (transocks_is_invalid_fd (target_fd d c)) && ltb 0 (pipe_of d q).data_in_pipe)) [
          | inr idle ↦ rw idle (check-Delivers f d c q s u g e ft h)
          | inl more ↦ rw more (elim (Bool-cases (nonzero (os s.trace pend).ret)) [
            | inl pending ↦ rw pending (check-Delivers f d c q (log (pend ∷ []) s) u g e ft h)
            | inr no_event ↦ rw no_event (
                check-Delivers f d c q
                  (log (Call.event_active (target_ev d q) ev_read ∷ pend ∷ []) s) u g e ft h)
          ])
        ]
  after_write f d c q s fatal_failure u g e ft h bad =
      rw (transocks_splicepump_free-log os p c q s ne u g) (
        delivered-append os f (splice_free_calls p c q) s.trace (shut_wr-splice_free_calls p c q)
            (failed-is_due os f s.trace (bad refl)) h,
        inl refl,
      )
  after_write f inbound c q s read_eof u g e ft h bad =
      let same = int_eq_refl (source_fd inbound c) in
      let shut = Call.shutdown (source_fd inbound c) How.shut_rd in
      let fd = (pipe_of inbound q).pipe_writefd in
      let del = Call.event_del (source_ev inbound q) in
      elim (Bool-cases (is_neg fd)) [
        | inl neg ↦ rw neg (
            check-Delivers f inbound (set_source_eof inbound c) q (log (del ∷ shut ∷ []) s) u g e
              (ground arith) h)
        | inr open_fd ↦ rw open_fd (
            check-Delivers f inbound (set_source_eof inbound c) q
              (log (del ∷ Call.close fd ∷ shut ∷ []) s) u g e (ground arith) h)
      ]
  after_write f outbound c q s read_eof u g e ft h bad =
      let same = int_eq_refl (source_fd outbound c) in
      let shut = Call.shutdown (source_fd outbound c) How.shut_rd in
      let fd = (pipe_of outbound q).pipe_writefd in
      let del = Call.event_del (source_ev outbound q) in
      elim (Bool-cases (is_neg fd)) [
        | inl neg ↦ rw neg (
            check-Delivers f outbound (set_source_eof outbound c) q (log (del ∷ shut ∷ []) s) u g e
              (ground arith) h)
        | inr open_fd ↦ rw open_fd (
            check-Delivers f outbound (set_source_eof outbound c) q
              (log (del ∷ Call.close fd ∷ shut ∷ []) s) u g e (ground arith) h)
      ]

  -- At the end of a pipe, nothing is left that came for its target.
  abbrev pub LastTaken : Fds → Direction → Client → State → Type 0
  LastTaken f d c s =
      IsEmptyFor os (target_fd d c) f.client_fd f.in_read f.in_write s.trace
      × IsEmptyFor os (target_fd d c) f.relay_fd f.out_read f.out_write s.trace

  pub after_read :
      (f : Fds) (d : Direction) (c : Client) (q : SplicePump) (s : State) (x : SpliceResult)
      → c.user_arg ≢ 0
      → is_gone c.client_state ≡ false
      → fds_of c q ≡ f
      → is_flagged c s.trace ≡ true
      → AllDelivered os f s.trace
      → (x ≡ fatal_failure → has_failed os s.trace ≡ true)
      → (x ≡ read_eof → LastTaken f d c s)
      → Ends (Delivers os f) ((on_read p d c q x >>= checked p d) os (both c q s))
  unfolding on_read checked AllDelivered has_ended was_told has_failed
  after_read f inbound c q s (normal_transfer n) u g e ft h bad last =
      check-Delivers f inbound c
        (set_pipe inbound
          (record q.inbound_pipe {
            data_in_pipe = (q.inbound_pipe.data_in_pipe + size_mod - n) % size_mod;
          })
          q)
        s u g e ft h
  after_read f outbound c q s (normal_transfer n) u g e ft h bad last =
      check-Delivers f outbound c
        (set_pipe outbound
          (record q.outbound_pipe {
            data_in_pipe = (q.outbound_pipe.data_in_pipe + size_mod - n) % size_mod;
          })
          q)
        s u g e ft h
  after_read f d c q s can_retry u g e ft h bad last = check-Delivers f d c q s u g e ft h
  after_read f d c q s fatal_failure u g e ft h bad last =
      rw (transocks_splicepump_free-log os p c q s ne u g) (
        delivered-append os f (splice_free_calls p c q) s.trace (shut_wr-splice_free_calls p c q)
            (failed-is_due os f s.trace (bad refl)) h,
        inl refl,
      )
  after_read f inbound c q s read_eof u g e ft h bad last =
      let same = int_eq_refl (target_fd inbound c) in
      let shut = Call.shutdown (target_fd inbound c) How.shut_wr in
      let fd = (pipe_of inbound q).pipe_readfd in
      let (own, other_one) = last refl in
      elim (Bool-cases (is_neg fd)) [
        | inl neg ↦ rw neg (
            check-Delivers f inbound (set_target_eof inbound c) q (log (shut ∷ []) s) u g e
              (ground arith) (own, other_one, h))
        | inr open_fd ↦ rw open_fd (
            check-Delivers f inbound (set_target_eof inbound c) q
              (log (Call.close fd ∷ shut ∷ []) s) u g e (ground arith) (own, other_one, h))
      ]
  after_read f outbound c q s read_eof u g e ft h bad last =
      let same = int_eq_refl (target_fd outbound c) in
      let shut = Call.shutdown (target_fd outbound c) How.shut_wr in
      let fd = (pipe_of outbound q).pipe_readfd in
      let (own, other_one) = last refl in
      elim (Bool-cases (is_neg fd)) [
        | inl neg ↦ rw neg (
            check-Delivers f outbound (set_target_eof outbound c) q (log (shut ∷ []) s) u g e
              (ground arith) (own, other_one, h))
        | inr open_fd ↦ rw open_fd (
            check-Delivers f outbound (set_target_eof outbound c) q
              (log (Call.close fd ∷ shut ∷ []) s) u g e (ground arith) (own, other_one, h))
      ]

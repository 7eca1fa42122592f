-- ===== src/SplicePump/Delivers.antt =====
-- splicepump.c: a side is told of the end only when what had come for it was delivered.
use transocks_wong.Prelude.{
  ℕ, zero, suc, true, ◌≡◌, ◌≢◌, refl, sym, subst, ap, ◌∙◌, ℤ, pos, ◌||◌, Bool-cases, inl, inr, some,
  List, [], ◌∷◌, if◌then◌else◌, arith,
}
use transocks_wong.Machine.{Ptr, Call, Os, Client, SplicePump, State, M, skip, ◌>>=◌, has_client}
use transocks_wong.Machine.Log.{log, has_ended, was_told}
use transocks_wong.Machine.Returns.{Ends, Ends-bind, Ends-both, Ends-Returns}
use transocks_wong.Macros.{transocks_is_invalid_fd}
use transocks_wong.SplicePump.{
  Direction, inbound, outbound, SpliceEvent, client_readcb, client_writecb, relay_readcb,
  relay_writecb, source_fd, target_fd, pipe_of, read_eof, fatal_failure, splice_result,
  transocks_single_splice, transocks_write_to_pipe, transocks_read_from_pipe, splicepump_cb,
  splice_run, transocks_on_fatal_failure,
}
use transocks_wong.SplicePump.Free.{both}
use transocks_wong.SplicePump.Moved.{
  moved_in, moved_out, PipeTable, Differ, SpliceLaws, moved_in-miss, moved_out-hit, transferred,
}
use transocks_wong.SplicePump.Invariant.{IsPumpingAt, IsHealthy, freed, running}
use transocks_wong.SplicePump.Results.{State-both}
use transocks_wong.SplicePump.Runs.{cb-IsHealthy}
use transocks_wong.SplicePump.Descriptors.{Differ-sym}
use transocks_wong.SplicePump.Delivered.{
  Fds, fds_of, AllDelivered, EndLaws, has_failed, is_flagged, unwritable-is_due, unreadable-is_due,
}
use transocks_wong.SplicePump.Branches.{
  Delivers, free-Delivers, after_write, after_read, LastTaken, checked,
}

eof_of : (r : ℤ) (errno : ℕ) → splice_result r errno ≡ read_eof → r ≡ pos 0
eof_of (ℤ.pos zero) errno h = refl
eof_of (ℤ.pos (suc n)) errno h = cc
eof_of (ℤ.negsuc zero) errno h = absurd (ground arith)
eof_of (ℤ.negsuc (suc n)) errno h = cc

failed_now :
    (os : Os) (tr : List Call) (from to : ℤ) (len : ℕ)
    → splice_result (os tr (Call.splice from to len)).ret (os tr (Call.splice from to len)).errno
      ≡ fatal_failure
    → has_failed os (Call.splice from to len ∷ tr) ≡ true
unfolding has_failed
failed_now os tr from to len e = rw e refl

module _ {os : Os} {P : PipeTable} {p : Ptr} (laws : SpliceLaws os P) (ends : EndLaws os P)
    (ne : p ≢ 0) where
  taken :
      (d : Direction) (c : Client) (q : SplicePump) (tr : List Call)
      → IsPumpingAt os P c q tr
      → (os tr
          (Call.splice (pipe_of d q).pipe_readfd (target_fd d c) (pipe_of d q).data_in_pipe)).ret
        ≡ pos 0
      → moved_in os
          (pipe_of d q).pipe_writefd
          (Call.splice (pipe_of d q).pipe_readfd (target_fd d c) (pipe_of d q).data_in_pipe ∷ tr)
        ≡ moved_out os
            (pipe_of d q).pipe_readfd
            (Call.splice (pipe_of d q).pipe_readfd (target_fd d c) (pipe_of d q).data_in_pipe ∷ tr)
  taken d c q tr v e =
      let r = (pipe_of d q).pipe_readfd in
      let w = (pipe_of d q).pipe_writefd in
      let len = (pipe_of d q).data_in_pipe in
      rw
        (
          moved_in-miss os w r (target_fd d c) tr len (v.apart d).target_own,
          moved_out-hit os r (target_fd d c) tr len 0 (ap transferred e),
        )
        (elim (ends.ended r w (pipe_of d q).capacity (v.piped d) tr (target_fd d c) len e) [
          | inl none_asked ↦ omega (arith, (v.counted d).balance)
          | inr empty ↦ omega arith
        ])

  last_taken :
      (d : Direction) (c : Client) (q : SplicePump) (s : State)
      → Differ c.client_fd c.relay_fd
      → IsPumpingAt os P c q s.trace
      → (os s.trace
          (Call.splice (pipe_of d q).pipe_readfd (target_fd d c) (pipe_of d q).data_in_pipe)).ret
        ≡ pos 0
      → LastTaken os p ne (fds_of c q) d c (
          log
            (Call.splice (pipe_of d q).pipe_readfd (target_fd d c) (pipe_of d q).data_in_pipe ∷ [])
            s)
  last_taken inbound c q s apart v e = (inr (taken inbound c q s.trace v e), inl apart)
  last_taken outbound c q s apart v e =
      (inl (Differ-sym c.client_fd c.relay_fd apart), inr (taken outbound c q s.trace v e))

  write-Delivers :
      (d : Direction) (c : Client) (q : SplicePump) (s : State)
      → IsPumpingAt os P c q s.trace
      → is_flagged c s.trace ≡ true
      → AllDelivered os (fds_of c q) s.trace
      → Ends (Delivers os (fds_of c q)) (transocks_write_to_pipe p d os (both c q s))
  unfolding transocks_write_to_pipe transocks_single_splice transocks_on_fatal_failure AllDelivered
      checked has_ended was_told
  write-Delivers d c q s v ft h =
      let fd = (pipe_of d q).pipe_writefd in
      let call = Call.splice (source_fd d c) fd (pipe_of d q).capacity in
      let r = os s.trace call in
      elim (Bool-cases (transocks_is_invalid_fd (source_fd d c) || transocks_is_invalid_fd fd)) [
        | inl bad ↦ rw bad (
            free-Delivers os p ne (fds_of c q) c q s v.attached v.present
              (unwritable-is_due os d c q s.trace bad) h)
        | inr fine ↦ rw fine (
            after_write os p ne (fds_of c q) d c q (log (call ∷ []) s) (splice_result r.ret r.errno)
              v.attached v.present refl ft h (failed_now os s.trace _ _ _))
      ]

  read-Delivers :
      (d : Direction) (c : Client) (q : SplicePump) (s : State)
      → Differ c.client_fd c.relay_fd
      → IsPumpingAt os P c q s.trace
      → is_flagged c s.trace ≡ true
      → AllDelivered os (fds_of c q) s.trace
      → Ends (Delivers os (fds_of c q)) (transocks_read_from_pipe p d os (both c q s))
  unfolding transocks_read_from_pipe transocks_single_splice transocks_on_fatal_failure AllDelivered
      checked has_ended was_told
  read-Delivers d c q s apart v ft h =
      let fd = (pipe_of d q).pipe_readfd in
      let call = Call.splice fd (target_fd d c) (pipe_of d q).data_in_pipe in
      let r = os s.trace call in
      elim (Bool-cases (transocks_is_invalid_fd fd || transocks_is_invalid_fd (target_fd d c))) [
        | inl bad ↦ rw bad (
            free-Delivers os p ne (fds_of c q) c q s v.attached v.present
              (unreadable-is_due os d c q s.trace bad) h)
        | inr fine ↦ rw fine (
            after_read os p ne (fds_of c q) d c q (log (call ∷ []) s) (splice_result r.ret r.errno)
              v.attached v.present refl ft h (failed_now os s.trace _ _ _)
              (λ eof. last_taken d c q s apart v (eof_of r.ret r.errno eof)))
      ]

  cb-Delivers :
      (c : Client) (q : SplicePump) (s : State) (e : SpliceEvent)
      → Differ c.client_fd c.relay_fd
      → IsPumpingAt os P c q s.trace
      → is_flagged c s.trace ≡ true
      → AllDelivered os (fds_of c q) s.trace
      → Ends (Delivers os (fds_of c q)) (splicepump_cb p e os (both c q s))
  unfolding splicepump_cb
  cb-Delivers c q s client_readcb a v ft h = write-Delivers outbound c q s v ft h
  cb-Delivers c q s client_writecb a v ft h = read-Delivers inbound c q s a v ft h
  cb-Delivers c q s relay_readcb a v ft h = write-Delivers inbound c q s v ft h
  cb-Delivers c q s relay_writecb a v ft h = read-Delivers outbound c q s a v ft h

  same_fds :
      (t : State) (f : Fds) (c c' : Client) (q q' : SplicePump)
      → t.client ≡ some c
      → t.pump ≡ some q
      → t.client ≡ some c'
      → t.pump ≡ some q'
      → fds_of c' q' ≡ f
      → fds_of c q ≡ f
  same_fds t f c c' q q' ce pe ce' pe' e =
      let cc' : c ≡ c' = cc in
      let qq' : q ≡ q' = cc in ap (λ x. fds_of x q) cc' ∙ ap (λ x. fds_of c' x) qq' ∙ e

  same_flags :
      (t : State) (c c' : Client)
      → t.client ≡ some c
      → t.client ≡ some c'
      → is_flagged c' t.trace ≡ true
      → is_flagged c t.trace ≡ true
  same_flags t c c' ce ce' ft =
      let cc' : c' ≡ c = cc in subst (λ x. is_flagged x t.trace ≡ true) cc' ft

  abbrev Kept : Fds → {A : Type 0} → A → State → Type 0
  Kept f _ t = AllDelivered os f t.trace

  go_on :
      (f : Fds) (m : M (Unit {0})) (t : State)
      → IsHealthy os P t
      → Delivers os f tt t
      → ((c : Client) (q : SplicePump)
          → t.client ≡ some c
          → t.pump ≡ some q
          → fds_of c q ≡ f
          → IsPumpingAt os P c q t.trace
          → is_flagged c t.trace ≡ true
          → AllDelivered os f t.trace
          → Ends (Kept f) (m os t))
      → Ends (Kept f) ((has_client >>= λ live. if live then m else skip) os t)
  go_on f m t (freed ce pe) (h, _) next = simp ce h
  go_on f m t (running c q ce pe v) (h, inl gone) next = cc
  go_on f m t (running c q ce pe v) (h, inr (c', q', ce', pe', e, ft)) next =
      simp ce
        (next c q ce pe (same_fds t f c c' q q' ce pe ce' pe' e) v (same_flags t c c' ce ce' ft) h)

  cb-both :
      (f : Fds) (c : Client) (q : SplicePump) (s : State) (e : SpliceEvent)
      → fds_of c q ≡ f
      → Differ f.client_fd f.relay_fd
      → IsPumpingAt os P c q s.trace
      → is_flagged c s.trace ≡ true
      → AllDelivered os f s.trace
      → Ends (λ _ t. IsHealthy os P t × Delivers os f tt t) (splicepump_cb p e os (both c q s))
  cb-both f c q s e same a v ft h =
      subst
        (λ g.
          Differ g.client_fd g.relay_fd
          → AllDelivered os g s.trace
          → Ends (λ _ t. IsHealthy os P t × Delivers os g tt t) (splicepump_cb p e os (both c q s)))
        same
        (λ a' h'.
          Ends-both (λ _ t. IsHealthy os P t) (Delivers os (fds_of c q))
            (splicepump_cb p e os (both c q s)) (Ends-Returns (cb-IsHealthy laws ne c q s e v))
            (cb-Delivers c q s e a' v ft h'))
        a h

  -- From a state in which the pump runs, over any sequence of callbacks: the client is told of the end
  -- of what it gets, by a shutdown of its writing, only when all that `splice` had put into the inbound
  -- pipe had been taken out of it, and the relay only when this held of the outbound pipe; and the two
  -- sockets are shut down in both directions, as the connection is freed, only when one side's reading
  -- had been shut down and the other side had been told of that end, or when `splice` had failed with
  -- an error that is not to be retried, or a descriptor is -1. This holds if the two sockets are
  -- different descriptors, if `splice` takes nothing out of a pipe only if nothing was asked for or the
  -- pipe is empty, and if the shutdowns so far were such, with one for each of the client's flags.
  pub splice_run-delivers :
      (es : List SpliceEvent) (f : Fds) (c : Client) (q : SplicePump) (s : State)
      → s.client ≡ some c
      → s.pump ≡ some q
      → fds_of c q ≡ f
      → Differ f.client_fd f.relay_fd
      → IsPumpingAt os P c q s.trace
      → is_flagged c s.trace ≡ true
      → AllDelivered os f s.trace
      → Ends (λ _ t. AllDelivered os f t.trace) (splice_run p es os s)
  unfolding splice_run
  splice_run-delivers [] f c q s ce pe same a v ft h = h
  splice_run-delivers (e ∷ es) f c q s ce pe same a v ft h =
      Ends-bind (λ _ t. IsHealthy os P t × Delivers os f tt t) (Kept f) (splicepump_cb p e os s) _
        os
        (subst (λ t. Ends (λ _ u. IsHealthy os P u × Delivers os f tt u) (splicepump_cb p e os t))
          (sym (State-both s ce pe)) (cb-both f c q s e same a v ft h))
        λ _ t (ih, d). go_on f (splice_run p es) t ih d (λ c' q' ce' pe' same' v' ft' h'.
          splice_run-delivers es f c' q' t ce' pe' same' a v' ft' h')

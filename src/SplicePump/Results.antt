-- ===== src/SplicePump/Results.antt =====
-- What each result of `splice` leads to keeps the byte counts of splicepump.c.
use transocks_wong.Prelude.{
  ℕ, zero, suc, ◌+◌, ◌-◌, ◌%◌, ◌≤◌, ◌≡◌, ◌≢◌, refl, ℤ, if◌then◌else◌, not, ◌&&◌, ltb, is_neg,
  nonzero, Bool-cases, inl, inr, [], ◌∷◌, arith, some,
}
use transocks_wong.Machine.{Ptr, Call, How, Os, Client, SplicePump, State, skip, ◌>>=◌}
use transocks_wong.Machine.Log.{log}
use transocks_wong.Machine.Returns.{Returns, returns}
use transocks_wong.Macros.{transocks_is_invalid_fd, ev_read}
use transocks_wong.SplicePump.Moved.{transferred, moved_in, moved_out, PipeTable, SpliceLaws}
use transocks_wong.SplicePump.Invariant.{IsPumpingAt, IsHealthy, freed}
use transocks_wong.SplicePump.Accounting.{
  check-IsHealthy, still, wrote, took, source_eof, target_eof,
}
use transocks_wong.SplicePump.Free.{both, transocks_splicepump_free-log}
use transocks_wong.SplicePump.{
  Direction, source_fd, target_fd, pipe_of, size_mod, set_pipe, SpliceResult, set_source_eof,
  set_target_eof, normal_transfer, can_retry, fatal_failure, read_eof, splice_result,
  transocks_check_normal_termination, on_written, on_read, target_ev, source_ev,
}

abbrev pub amount : SpliceResult → ℕ
amount (normal_transfer n) = n
amount _ = 0

pub splice_result-amount :
    (r : ℤ) (errno : ℕ)
    → ((n : ℕ) → r ≢ ℤ.negsuc (suc n))
    → transferred r ≡ amount (splice_result r errno)
splice_result-amount (ℤ.pos zero) errno h = refl
splice_result-amount (ℤ.pos (suc n)) errno h = refl
splice_result-amount (ℤ.negsuc zero) errno h = ground arith
splice_result-amount (ℤ.negsuc (suc n)) errno h = absurd (h n refl)

pub State-both :
    (s : State) {c : Client} {q : SplicePump} → s.client ≡ some c → s.pump ≡ some q → s ≡ both c q s
State-both s ce pe = λ i. record s { client = ce i; pump = pe i }

module _ {os : Os} {P : PipeTable} {p : Ptr} (laws : SpliceLaws os P) (ne : p ≢ 0) where
  pub after_write :
      (d : Direction) (c : Client) (q : SplicePump) (s : State) (len : ℕ) (x : SpliceResult)
      → transferred (os s.trace (Call.splice (source_fd d c) (pipe_of d q).pipe_writefd len)).ret
        ≡ amount x
      → IsPumpingAt os P c q s.trace
      → Returns
          (λ _. IsHealthy os P)
          ((on_written p d c q x >>= λ good.
              if good then transocks_check_normal_termination p d else skip)
            os
            (both c q (log (Call.splice (source_fd d c) (pipe_of d q).pipe_writefd len ∷ []) s)))
  unfolding on_written moved_in moved_out
  after_write d c q s len (normal_transfer n) e v =
      let call = Call.splice (source_fd d c) (pipe_of d q).pipe_writefd len in
      check-IsHealthy laws ne d c
        (set_pipe d
          (record (pipe_of d q) { data_in_pipe = ((pipe_of d q).data_in_pipe + n) % size_mod }) q)
        (log (call ∷ []) s) (wrote laws ne d c q s.trace len n e v)
  after_write d c q s len can_retry e v =
      let call = Call.splice (source_fd d c) (pipe_of d q).pipe_writefd len in
      let ev = target_ev d q in
      let pend = Call.event_pending ev ev_read in
      let w = still laws ne c q s.trace (source_fd d c) (pipe_of d q).pipe_writefd len e v in
      elim (Bool-cases
        (not (transocks_is_invalid_fd (target_fd d c)) && ltb 0 (pipe_of d q).data_in_pipe)) [
          | inr idle ↦ rw idle (check-IsHealthy laws ne d c q (log (call ∷ []) s) w)
          | inl more ↦ rw more (elim (Bool-cases (nonzero (os (call ∷ s.trace) pend).ret)) [
            | inl pending ↦ rw pending (check-IsHealthy laws ne d c q (log (pend ∷ call ∷ []) s) w)
            | inr no_event ↦ rw no_event (
                check-IsHealthy laws ne d c q
                  (log (Call.event_active ev ev_read ∷ pend ∷ call ∷ []) s) w)
          ])
        ]
  after_write d c q s len fatal_failure e v =
      rw
        (transocks_splicepump_free-log os p c q
          (log (Call.splice (source_fd d c) (pipe_of d q).pipe_writefd len ∷ []) s) ne v.attached
          v.present)
        (returns (freed refl refl))
  after_write d c q s len read_eof e v =
      let call = Call.splice (source_fd d c) (pipe_of d q).pipe_writefd len in
      let shut = Call.shutdown (source_fd d c) How.shut_rd in
      let fd = (pipe_of d q).pipe_writefd in
      let del = Call.event_del (source_ev d q) in
      let w = source_eof laws ne d c q (still laws ne c q s.trace (source_fd d c) fd len e v) in
      elim (Bool-cases (is_neg fd)) [
        | inl neg ↦
            rw neg
              (check-IsHealthy laws ne d (set_source_eof d c) q (log (del ∷ shut ∷ call ∷ []) s) w)
        | inr open_fd ↦ rw open_fd (
            check-IsHealthy laws ne d (set_source_eof d c) q
              (log (del ∷ Call.close fd ∷ shut ∷ call ∷ []) s) w)
      ]

  pub after_read :
      (d : Direction) (c : Client) (q : SplicePump) (s : State) (x : SpliceResult)
      → transferred
          (os s.trace
            (Call.splice (pipe_of d q).pipe_readfd (target_fd d c) (pipe_of d q).data_in_pipe)).ret
        ≡ amount x
      → amount x ≤ (pipe_of d q).data_in_pipe
      → IsPumpingAt os P c q s.trace
      → Returns
          (λ _. IsHealthy os P)
          ((on_read p d c q x >>= λ good.
              if good then transocks_check_normal_termination p d else skip)
            os
            (both c q (
              log
                (Call.splice (pipe_of d q).pipe_readfd (target_fd d c) (pipe_of d q).data_in_pipe
                  ∷ [])
                s)))
  unfolding on_read moved_in moved_out
  after_read d c q s (normal_transfer n) e h v =
      let call = Call.splice (pipe_of d q).pipe_readfd (target_fd d c) (pipe_of d q).data_in_pipe in
      check-IsHealthy laws ne d c
        (set_pipe d
          (record (pipe_of d q) {
            data_in_pipe = ((pipe_of d q).data_in_pipe + size_mod - n) % size_mod;
          })
          q)
        (log (call ∷ []) s) (took laws ne d c q s.trace (pipe_of d q).data_in_pipe n e h v)
  after_read d c q s can_retry e h v =
      let call = Call.splice (pipe_of d q).pipe_readfd (target_fd d c) (pipe_of d q).data_in_pipe in
      check-IsHealthy laws ne d c q (log (call ∷ []) s) (
        still laws ne c q s.trace (pipe_of d q).pipe_readfd (target_fd d c)
          (pipe_of d q).data_in_pipe e v)
  after_read d c q s fatal_failure e h v =
      rw
        (transocks_splicepump_free-log os p c q
          (log
            (Call.splice (pipe_of d q).pipe_readfd (target_fd d c) (pipe_of d q).data_in_pipe ∷ [])
            s)
          ne v.attached v.present)
        (returns (freed refl refl))
  after_read d c q s read_eof e h v =
      let call = Call.splice (pipe_of d q).pipe_readfd (target_fd d c) (pipe_of d q).data_in_pipe in
      let shut = Call.shutdown (target_fd d c) How.shut_wr in
      let fd = (pipe_of d q).pipe_readfd in
      let w =
        target_eof laws ne d c q
          (still laws ne c q s.trace fd (target_fd d c) (pipe_of d q).data_in_pipe e v) in
      elim (Bool-cases (is_neg fd)) [
        | inl neg ↦
            rw neg (check-IsHealthy laws ne d (set_target_eof d c) q (log (shut ∷ call ∷ []) s) w)
        | inr open_fd ↦ rw open_fd (
            check-IsHealthy laws ne d (set_target_eof d c) q
              (log (Call.close fd ∷ shut ∷ call ∷ []) s) w)
      ]

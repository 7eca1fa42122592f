-- ===== src/SplicePump/Accounting.antt =====
-- The byte counts of the pipes: `data_in_pipe` against what `splice` moved, over any sequence of
-- callbacks.
use transocks_wong.Prelude.{
  ℕ, ◌+◌, ◌-◌, ◌%◌, ◌≤◌, ◌≡◌, ◌≢◌, refl, ℤ, Bool-cases, inl, inr, List, ◌∷◌, arith,
}
use transocks_wong.Machine.{Ptr, Call, Os, Client, SplicePump, State}
use transocks_wong.Machine.Returns.{Returns, returns}
use transocks_wong.SplicePump.Moved.{
  transferred, moved_in, moved_out, PipeTable, SpliceLaws, moved_in-hit, moved_in-miss,
  moved_out-hit, moved_out-miss,
}
use transocks_wong.SplicePump.Free.{both, transocks_splicepump_free-log}
use transocks_wong.SplicePump.{
  Direction, inbound, outbound, source_fd, target_fd, pipe_of, is_finished, size_mod, set_pipe,
  set_source_eof, set_target_eof, transocks_check_normal_termination, transocks_splicepump_free,
}
use transocks_wong.SplicePump.Invariant.{
  IsCounted, IsPumping, IsPumpingAt, IsHealthy, freed, running, other, add-IsCounted, sub-IsCounted,
}

module _ {os : Os} {P : PipeTable} {p : Ptr} (laws : SpliceLaws os P) (ne : p ≢ 0) where
  pub free-IsHealthy :
      (c : Client) (q : SplicePump) (s : State) {i o : Direction → ℕ}
      → IsPumping P c q i o
      → Returns (λ _. IsHealthy os P) (transocks_splicepump_free p os (both c q s))
  free-IsHealthy c q s v =
      rw (transocks_splicepump_free-log os p c q s ne v.attached v.present)
        (returns (freed refl refl))

  pub check-IsHealthy :
      (d : Direction) (c : Client) (q : SplicePump) (s : State)
      → IsPumpingAt os P c q s.trace
      → Returns (λ _. IsHealthy os P) (transocks_check_normal_termination p d os (both c q s))
  unfolding transocks_check_normal_termination
  check-IsHealthy d c q s v = elim (Bool-cases (is_finished d c)) [
    | inl done ↦ rw done (free-IsHealthy c q s v)
    | inr more ↦ rw more (returns (running c q refl refl v))
  ]

  -- A call of `splice` that moves nothing leaves the counts.
  pub still :
      (c : Client) (q : SplicePump) (tr : List Call) (f t : ℤ) (len : ℕ)
      → transferred (os tr (Call.splice f t len)).ret ≡ 0
      → IsPumpingAt os P c q tr
      → IsPumpingAt os P c q (Call.splice f t len ∷ tr)
  unfolding moved_in moved_out
  still c q tr f t len e v = record {
    attached = v.attached;
    present = v.present;
    counted = λ d. record {
      balance = ground (arith, (v.counted d).balance);
      bounded = (v.counted d).bounded;
      no_wrap = (v.counted d).no_wrap;
    };
    apart = v.apart;
    piped = v.piped;
  }

  -- A pipe gets a new count, and the other one keeps its own.
  recount :
      (d : Direction) (c : Client) (q : SplicePump) (k : ℕ) {i o i' o' : Direction → ℕ}
      → IsPumping P c q i o
      → IsCounted (i' d) (o' d) (record (pipe_of d q) { data_in_pipe = k })
      → i' (other d) ≡ i (other d)
      → o' (other d) ≡ o (other d)
      → IsPumping P c (set_pipe d (record (pipe_of d q) { data_in_pipe = k }) q) i' o'
  recount inbound c q k v new e f = record {
    attached = v.attached;
    present = v.present;
    counted = elim [ inbound ↦ new | outbound ↦ rw (e, f) (v.counted outbound) ];
    apart = elim [ inbound ↦ v.apart inbound | outbound ↦ v.apart outbound ];
    piped = elim [ inbound ↦ v.piped inbound | outbound ↦ v.piped outbound ];
  }
  recount outbound c q k v new e f = record {
    attached = v.attached;
    present = v.present;
    counted = elim [ inbound ↦ rw (e, f) (v.counted inbound) | outbound ↦ new ];
    apart = elim [ inbound ↦ v.apart inbound | outbound ↦ v.apart outbound ];
    piped = elim [ inbound ↦ v.piped inbound | outbound ↦ v.piped outbound ];
  }

  pub wrote :
      (d : Direction) (c : Client) (q : SplicePump) (tr : List Call) (len n : ℕ)
      → transferred (os tr (Call.splice (source_fd d c) (pipe_of d q).pipe_writefd len)).ret ≡ n
      → IsPumpingAt os P c q tr
      → IsPumpingAt os P c
          (set_pipe d
            (record (pipe_of d q) { data_in_pipe = ((pipe_of d q).data_in_pipe + n) % size_mod })
            q)
          (Call.splice (source_fd d c) (pipe_of d q).pipe_writefd len ∷ tr)
  wrote inbound c q tr len n e v =
      let r = q.inbound_pipe.pipe_readfd in
      let w = q.inbound_pipe.pipe_writefd in
      recount inbound c q _ v
        (rw
          (
            moved_in-hit os w (source_fd inbound c) tr len n e,
            moved_out-miss os r (source_fd inbound c) w tr len (v.apart inbound).source_own,
          )
          (add-IsCounted q.inbound_pipe _ _ n (v.counted inbound) (λ h. rw e at (
            laws.capacity r w q.inbound_pipe.capacity (v.piped inbound) tr (source_fd inbound c) len
              h))))
        (moved_in-miss os q.outbound_pipe.pipe_writefd (source_fd inbound c) w tr len
          (v.apart inbound).writes)
        (moved_out-miss os q.outbound_pipe.pipe_readfd (source_fd inbound c) w tr len
          (v.apart inbound).source_other)
  wrote outbound c q tr len n e v =
      let r = q.outbound_pipe.pipe_readfd in
      let w = q.outbound_pipe.pipe_writefd in
      recount outbound c q _ v
        (rw
          (
            moved_in-hit os w (source_fd outbound c) tr len n e,
            moved_out-miss os r (source_fd outbound c) w tr len (v.apart outbound).source_own,
          )
          (add-IsCounted q.outbound_pipe _ _ n (v.counted outbound) (λ h. rw e at (
            laws.capacity r w q.outbound_pipe.capacity (v.piped outbound) tr (source_fd outbound c)
              len h))))
        (moved_in-miss os q.inbound_pipe.pipe_writefd (source_fd outbound c) w tr len
          (v.apart outbound).writes)
        (moved_out-miss os q.inbound_pipe.pipe_readfd (source_fd outbound c) w tr len
          (v.apart outbound).source_other)

  pub took :
      (d : Direction) (c : Client) (q : SplicePump) (tr : List Call) (len n : ℕ)
      → transferred (os tr (Call.splice (pipe_of d q).pipe_readfd (target_fd d c) len)).ret ≡ n
      → n ≤ (pipe_of d q).data_in_pipe
      → IsPumpingAt os P c q tr
      → IsPumpingAt os P c
          (set_pipe d
            (record (pipe_of d q) {
              data_in_pipe = ((pipe_of d q).data_in_pipe + size_mod - n) % size_mod;
            })
            q)
          (Call.splice (pipe_of d q).pipe_readfd (target_fd d c) len ∷ tr)
  took inbound c q tr len n e h v =
      let r = q.inbound_pipe.pipe_readfd in
      let w = q.inbound_pipe.pipe_writefd in
      recount inbound c q _ v
        (rw
          (
            moved_in-miss os w r (target_fd inbound c) tr len (v.apart inbound).target_own,
            moved_out-hit os r (target_fd inbound c) tr len n e,
          )
          (sub-IsCounted q.inbound_pipe _ _ n (v.counted inbound) h))
        (moved_in-miss os q.outbound_pipe.pipe_writefd r (target_fd inbound c) tr len
          (v.apart inbound).target_other)
        (moved_out-miss os q.outbound_pipe.pipe_readfd r (target_fd inbound c) tr len
          (v.apart inbound).reads)
  took outbound c q tr len n e h v =
      let r = q.outbound_pipe.pipe_readfd in
      let w = q.outbound_pipe.pipe_writefd in
      recount outbound c q _ v
        (rw
          (
            moved_in-miss os w r (target_fd outbound c) tr len (v.apart outbound).target_own,
            moved_out-hit os r (target_fd outbound c) tr len n e,
          )
          (sub-IsCounted q.outbound_pipe _ _ n (v.counted outbound) h))
        (moved_in-miss os q.inbound_pipe.pipe_writefd r (target_fd outbound c) tr len
          (v.apart outbound).target_other)
        (moved_out-miss os q.inbound_pipe.pipe_readfd r (target_fd outbound c) tr len
          (v.apart outbound).reads)

  -- The flags are no part of the invariant.
  pub source_eof :
      (d : Direction) (c : Client) (q : SplicePump) {i o : Direction → ℕ}
      → IsPumping P c q i o
      → IsPumping P (set_source_eof d c) q i o
  source_eof inbound c q v = record {
    attached = v.attached;
    present = v.present;
    counted = v.counted;
    apart = elim [ inbound ↦ v.apart inbound | outbound ↦ v.apart outbound ];
    piped = v.piped;
  }
  source_eof outbound c q v = record {
    attached = v.attached;
    present = v.present;
    counted = v.counted;
    apart = elim [ inbound ↦ v.apart inbound | outbound ↦ v.apart outbound ];
    piped = v.piped;
  }

  pub target_eof :
      (d : Direction) (c : Client) (q : SplicePump) {i o : Direction → ℕ}
      → IsPumping P c q i o
      → IsPumping P (set_target_eof d c) q i o
  target_eof inbound c q v = record {
    attached = v.attached;
    present = v.present;
    counted = v.counted;
    apart = elim [ inbound ↦ v.apart inbound | outbound ↦ v.apart outbound ];
    piped = v.piped;
  }
  target_eof outbound c q v = record {
    attached = v.attached;
    present = v.present;
    counted = v.counted;
    apart = elim [ inbound ↦ v.apart inbound | outbound ↦ v.apart outbound ];
    piped = v.piped;
  }

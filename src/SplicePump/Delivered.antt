-- ===== src/SplicePump/Delivered.antt =====
-- splicepump.c: when the target of a direction is told that no more will come.
use native.Mathlib.Nat.{zero-add}
use transocks_wong.Prelude.{
  ℕ, ◌≡◌, ℤ, pos, int_eq, Bool, true, false, not, ◌&&◌, ◌||◌, ◌⊎◌, inl, inr, List, [], ◌∷◌, ◌++◌,
  arith,
}
use transocks_wong.Machine.{Ptr, Call, How, Os, Client, SplicePump}
use transocks_wong.Machine.Log.{count, counting, has_ended, was_told}
use transocks_wong.Macros.{transocks_is_invalid_fd}
use transocks_wong.SplicePump.{
  Direction, inbound, outbound, source_fd, target_fd, pipe_of, is_finished, SpliceResult,
  fatal_failure, splice_result,
}
use transocks_wong.Context.Releases.{shut_wr_of, shut_wr-free_calls}
use transocks_wong.SplicePump.Free.{
  splice_free_calls, pipe_calls, del_events_calls, free_events_calls,
}
use transocks_wong.SplicePump.Moved.{moved_in, moved_out, PipeTable}

-- The descriptors of a client and its pump, which its callbacks leave as they are.
pub record Fds : Type 0 where
  pub client_fd : ℤ
  pub relay_fd : ℤ
  pub in_read : ℤ
  pub in_write : ℤ
  pub out_read : ℤ
  pub out_write : ℤ

abbrev pub fds_of : Client → SplicePump → Fds
fds_of c q = record {
  client_fd = c.client_fd;
  relay_fd = c.relay_fd;
  in_read = q.inbound_pipe.pipe_readfd;
  in_write = q.inbound_pipe.pipe_writefd;
  out_read = q.outbound_pipe.pipe_readfd;
  out_write = q.outbound_pipe.pipe_writefd;
}

-- A shutdown of a side's writing came when what had been put into its pipe had been taken out.
abbrev pub IsEmptyFor : Os → ℤ → ℤ → ℤ → ℤ → List Call → Type 0
IsEmptyFor os fd target r w tr = (int_eq fd target ≡ false) ⊎ (moved_in os w tr ≡ moved_out os r tr)

abbrev pub is_fatal : SpliceResult → Bool
is_fatal fatal_failure = true
is_fatal _ = false

-- A call of `splice` has failed, and is not to be tried again.
unfoldable pub has_failed : Os → List Call → Bool
has_failed os [] = false
has_failed os (Call.splice from to len ∷ tr) =
    is_fatal
      (splice_result (os tr (Call.splice from to len)).ret (os tr (Call.splice from to len)).errno)
    || has_failed os tr
has_failed os (_ ∷ tr) = has_failed os tr

abbrev pub has_invalid : Fds → Bool
has_invalid f =
    transocks_is_invalid_fd f.client_fd
    || transocks_is_invalid_fd f.relay_fd
    || transocks_is_invalid_fd f.in_read
    || transocks_is_invalid_fd f.in_write
    || transocks_is_invalid_fd f.out_read
    || transocks_is_invalid_fd f.out_write

-- The source of a direction has ended and its target was told so; or it cannot go on.
abbrev pub is_due : Os → Fds → List Call → Bool
is_due os f tr =
    has_invalid f
    || has_failed os tr
    || (has_ended f.relay_fd tr && was_told f.client_fd tr)
    || (has_ended f.client_fd tr && was_told f.relay_fd tr)

unfoldable pub AllDelivered : Os → Fds → List Call → Type 0
AllDelivered os f [] = Unit {0}
AllDelivered os f (Call.shutdown fd How.shut_wr ∷ tr) =
    IsEmptyFor os fd f.client_fd f.in_read f.in_write tr
    × IsEmptyFor os fd f.relay_fd f.out_read f.out_write tr
    × AllDelivered os f tr
AllDelivered os f (Call.shutdown fd How.shut_rdwr ∷ tr) =
    (is_due os f tr ≡ true) × AllDelivered os f tr
AllDelivered os f (_ ∷ tr) = AllDelivered os f tr

has_failed-append :
    (os : Os) (cs tr : List Call) → has_failed os tr ≡ true → has_failed os (cs ++ tr) ≡ true
unfolding has_failed
has_failed-append os [] tr h = h
has_failed-append os (Call.splice from to len ∷ cs) tr h =
    let r = has_failed-append os cs tr h in ground arith
has_failed-append os (c ∷ cs) tr h = has_failed-append os cs tr h

has_ended-append :
    (fd : ℤ) (cs tr : List Call) → has_ended fd tr ≡ true → has_ended fd (cs ++ tr) ≡ true
unfolding has_ended
has_ended-append fd [] tr h = h
has_ended-append fd (Call.shutdown a How.shut_rd ∷ cs) tr h =
    let r = has_ended-append fd cs tr h in ground arith
has_ended-append fd (c ∷ cs) tr h = has_ended-append fd cs tr h

was_told-append :
    (fd : ℤ) (cs tr : List Call) → was_told fd tr ≡ true → was_told fd (cs ++ tr) ≡ true
unfolding was_told
was_told-append fd [] tr h = h
was_told-append fd (Call.shutdown a How.shut_wr ∷ cs) tr h =
    let r = was_told-append fd cs tr h in ground arith
was_told-append fd (c ∷ cs) tr h = was_told-append fd cs tr h

-- The cases of `is_due`.
due_split :
    (a b c d e g : Bool)
    → (a || b || (c && d) || (e && g)) ≡ true
    → (a ≡ true) ⊎ (b ≡ true) ⊎ ((c ≡ true) × (d ≡ true)) ⊎ ((e ≡ true) × (g ≡ true))
due_split a b c d e g h = ground arith

is_due-append :
    (os : Os) (f : Fds) (cs tr : List Call) → is_due os f tr ≡ true → is_due os f (cs ++ tr) ≡ true
is_due-append os f cs tr h =
    elim (due_split (has_invalid f) (has_failed os tr) (has_ended f.relay_fd tr)
      (was_told f.client_fd tr) (has_ended f.client_fd tr) (was_told f.relay_fd tr) h) [
        | inl invalid ↦ ground arith
        | inr (inl failed) ↦ let r = has_failed-append os cs tr failed in ground arith
        | inr (inr (inl (ended, told))) ↦
            let r = has_ended-append f.relay_fd cs tr ended in
            let t = was_told-append f.client_fd cs tr told in ground arith
        | inr (inr (inr (ended, told))) ↦
            let r = has_ended-append f.client_fd cs tr ended in
            let t = was_told-append f.relay_fd cs tr told in ground arith
      ]

-- A client that is due is freed.
pub delivered-append :
    (os : Os) (f : Fds) (cs tr : List Call)
    → count shut_wr_of cs ≡ 0
    → is_due os f tr ≡ true
    → AllDelivered os f tr
    → AllDelivered os f (cs ++ tr)
unfolding AllDelivered count
delivered-append os f [] tr z due h = h
delivered-append os f (Call.shutdown fd How.shut_wr ∷ cs) tr z due h = absurd (omega arith)
delivered-append os f (Call.shutdown fd How.shut_rdwr ∷ cs) tr z due h =
    (is_due-append os f cs tr due, delivered-append os f cs tr (omega arith) due h)
delivered-append os f (c ∷ cs) tr z due h = delivered-append os f cs tr (omega arith) due h

-- What the flags of a client say of its sides.
abbrev pub is_flagged : Client → List Call → Bool
is_flagged c tr =
    (not c.client_shutdown_read || has_ended c.client_fd tr)
    && (not c.relay_shutdown_read || has_ended c.relay_fd tr)
    && (not c.client_shutdown_write || was_told c.client_fd tr)
    && (not c.relay_shutdown_write || was_told c.relay_fd tr)

pub finished-is_due :
    (os : Os) (d : Direction) (c : Client) (q : SplicePump) (tr : List Call)
    → is_flagged c tr ≡ true
    → is_finished d c ≡ true
    → is_due os (fds_of c q) tr ≡ true
finished-is_due os inbound c q tr h done = ground arith
finished-is_due os outbound c q tr h done = ground arith

pub failed-is_due :
    (os : Os) (f : Fds) (tr : List Call) → has_failed os tr ≡ true → is_due os f tr ≡ true
failed-is_due os f tr h = ground arith

pub unwritable-is_due :
    (os : Os) (d : Direction) (c : Client) (q : SplicePump) (tr : List Call)
    → (transocks_is_invalid_fd (source_fd d c)
        || transocks_is_invalid_fd (pipe_of d q).pipe_writefd)
      ≡ true
    → is_due os (fds_of c q) tr ≡ true
unwritable-is_due os inbound c q tr h = ground arith
unwritable-is_due os outbound c q tr h = ground arith

pub unreadable-is_due :
    (os : Os) (d : Direction) (c : Client) (q : SplicePump) (tr : List Call)
    → (transocks_is_invalid_fd (pipe_of d q).pipe_readfd || transocks_is_invalid_fd (target_fd d c))
      ≡ true
    → is_due os (fds_of c q) tr ≡ true
unreadable-is_due os inbound c q tr h = ground arith
unreadable-is_due os outbound c q tr h = ground arith

pub shut_wr-splice_free_calls :
    (p : Ptr) (c : Client) (q : SplicePump) → count shut_wr_of (splice_free_calls p c q) ≡ 0
unfolding splice_free_calls pipe_calls del_events_calls free_events_calls
shut_wr-splice_free_calls p c q = simp (counting, shut_wr-free_calls p c, zero-add)

-- What is documented of the end of a pipe: `splice` takes nothing out of it only if nothing was asked
-- for, or nothing is in it.
pub record EndLaws (os : Os) (IsPipe : PipeTable) : Type 0 where
  pub ended :
      (r w : ℤ) (cap : ℕ)
      → IsPipe r w cap
      → (tr : List Call) (t : ℤ) (len : ℕ) → (os tr (Call.splice r t len)).ret ≡ pos 0
      → (len ≡ 0) ⊎ (moved_in os w tr ≡ moved_out os r tr)

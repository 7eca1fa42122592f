-- ===== src/SplicePump/Closing.antt =====
-- How a direction of a pump ends.
use native.Mathlib.Nat.{zero-add}
use transocks_wong.Prelude.{
  ℕ, ◌+◌, ◌≤◌, ◌≡◌, ◌≢◌, refl, ℤ, pos, int_eq_refl, is_neg, Bool, true, false, none, subst, sym,
  List, ◌∷◌, [], arith,
}
use transocks_wong.Machine.{Ptr, Call, How, Os, Client, SplicePump, State, ok, ◌>>◌}
use transocks_wong.Machine.Log.{log, closes, counting}
use transocks_wong.Macros.{transocks_close, transocks_is_invalid_fd}
use transocks_wong.Context.{is_gone}
use transocks_wong.Context.Releases.{one_fd}
use transocks_wong.SplicePump.{
  Direction, inbound, outbound, source_fd, target_fd, pipe_of, source_ev, set_source_eof,
  set_target_eof, is_finished, transocks_single_splice, transocks_check_normal_termination,
  on_written, on_read, transocks_write_to_pipe, transocks_read_from_pipe, transocks_splicepump_free,
}
use transocks_wong.SplicePump.Free.{both}
use transocks_wong.SplicePump.Releases.{pipe_fds, transocks_splicepump_free-releases}

abbrev source_read : Direction → Client → Bool
source_read inbound c = c.relay_shutdown_read
source_read outbound c = c.client_shutdown_read

open_valid : (fd : ℤ) → is_neg fd ≡ false → transocks_is_invalid_fd fd ≡ false
open_valid fd h = ground arith

-- A direction is finished once its source is read to the end and its target told, whatever the flags
-- of the other direction.
finished-set_target_eof :
    (d : Direction) (c : Client)
    → transocks_is_invalid_fd c.client_fd ≡ false
    → transocks_is_invalid_fd c.relay_fd ≡ false
    → source_read d c ≡ true
    → is_finished d (set_target_eof d c) ≡ true
finished-set_target_eof inbound c vc vr read = rw (vc, vr, read)
finished-set_target_eof outbound c vc vr read = rw (vc, vr, read)

user_arg-set_source_eof : (d : Direction) (c : Client) → (set_source_eof d c).user_arg ≡ c.user_arg
user_arg-set_source_eof inbound c = refl
user_arg-set_source_eof outbound c = refl

client_state-set_source_eof :
    (d : Direction) (c : Client) → (set_source_eof d c).client_state ≡ c.client_state
client_state-set_source_eof inbound c = refl
client_state-set_source_eof outbound c = refl

user_arg-set_target_eof : (d : Direction) (c : Client) → (set_target_eof d c).user_arg ≡ c.user_arg
user_arg-set_target_eof inbound c = refl
user_arg-set_target_eof outbound c = refl

client_state-set_target_eof :
    (d : Direction) (c : Client) → (set_target_eof d c).client_state ≡ c.client_state
client_state-set_target_eof inbound c = refl
client_state-set_target_eof outbound c = refl

one_fd_self : (fd : ℤ) → is_neg fd ≡ false → one_fd fd fd ≡ 1
one_fd_self fd h = rw (h, int_eq_refl fd)

pipe-le :
    (d : Direction) (q : SplicePump) (fd : ℤ)
    → pipe_fds (pipe_of d q) fd ≤ pipe_fds q.inbound_pipe fd + pipe_fds q.outbound_pipe fd
pipe-le inbound q fd = omega arith
pipe-le outbound q fd = omega arith

valid_target :
    (d : Direction) (c : Client)
    → transocks_is_invalid_fd c.client_fd ≡ false
    → transocks_is_invalid_fd c.relay_fd ≡ false
    → transocks_is_invalid_fd (target_fd d c) ≡ false
valid_target inbound c vc vr = vc
valid_target outbound c vc vr = vr

own_end :
    (d : Direction) (q : SplicePump)
    → is_neg (pipe_of d q).pipe_writefd ≡ false
    → 1
      ≤ pipe_fds q.inbound_pipe (pipe_of d q).pipe_writefd
        + pipe_fds q.outbound_pipe (pipe_of d q).pipe_writefd
own_end d q h =
    let fd = (pipe_of d q).pipe_writefd in omega (arith, pipe-le d q fd, one_fd_self fd h)

enough : (a b i o n k : ℕ) → 1 ≤ i + o → k ≡ 1 + n → n + 2 ≤ a + b + i + o + k
enough a b i o n k own more = omega arith

module _ (os : Os) (p : Ptr) (d : Direction) (c : Client) (q : SplicePump) (s : State) where
  write_eof-log :
      transocks_is_invalid_fd (source_fd d c) ≡ false
      → is_neg (pipe_of d q).pipe_writefd ≡ false
      → (os s.trace
          (Call.splice (source_fd d c) (pipe_of d q).pipe_writefd (pipe_of d q).capacity)).ret
        ≡ pos 0
      → is_finished d (set_source_eof d c) ≡ false
      → transocks_write_to_pipe p d os (both c q s)
        ≡ ok tt (
            log
              (Call.event_del (source_ev d q)
                ∷ Call.close (pipe_of d q).pipe_writefd
                ∷ Call.shutdown (source_fd d c) How.shut_rd
                ∷ Call.splice (source_fd d c) (pipe_of d q).pipe_writefd (pipe_of d q).capacity
                ∷ [])
              (both (set_source_eof d c) q s))
  unfolding transocks_write_to_pipe transocks_single_splice on_written
      transocks_check_normal_termination transocks_close
  write_eof-log source open_end eof more =
      rw (source, open_valid (pipe_of d q).pipe_writefd open_end, eof, open_end, more)

  read_eof-log :
      transocks_is_invalid_fd (target_fd d c) ≡ false
      → is_neg (pipe_of d q).pipe_readfd ≡ false
      → (os s.trace
          (Call.splice (pipe_of d q).pipe_readfd (target_fd d c) (pipe_of d q).data_in_pipe)).ret
        ≡ pos 0
      → is_finished d (set_target_eof d c) ≡ true
      → transocks_read_from_pipe p d os (both c q s)
        ≡ transocks_splicepump_free p os (
            log
              (Call.close (pipe_of d q).pipe_readfd
                ∷ Call.shutdown (target_fd d c) How.shut_wr
                ∷ Call.splice (pipe_of d q).pipe_readfd (target_fd d c) (pipe_of d q).data_in_pipe
                ∷ [])
              (both (set_target_eof d c) q s))
  unfolding transocks_read_from_pipe transocks_single_splice on_read
      transocks_check_normal_termination transocks_close
  read_eof-log target open_end eof done =
      rw (open_valid (pipe_of d q).pipe_readfd open_end, target, eof, open_end, done)

  -- At the end of a source the write end of its pipe is closed, but its number stays in the pump. So
  -- if the end of the source does not finish the direction, and the pump is then freed, the number is
  -- closed a second time.
  pub write_end_closed_twice :
      p ≢ 0
      → c.user_arg ≢ 0
      → is_gone c.client_state ≡ false
      → transocks_is_invalid_fd (source_fd d c) ≡ false
      → is_neg (pipe_of d q).pipe_writefd ≡ false
      → (os s.trace
          (Call.splice (source_fd d c) (pipe_of d q).pipe_writefd (pipe_of d q).capacity)).ret
        ≡ pos 0
      → is_finished d (set_source_eof d c) ≡ false
      → (t : State) × ((transocks_write_to_pipe p d >> transocks_splicepump_free p) os (both c q s)
          ≡ ok tt t)
        × (closes (pipe_of d q).pipe_writefd s.trace + 2
            ≤ closes (pipe_of d q).pipe_writefd t.trace)
  write_end_closed_twice ne u g source open_end eof more =
      let fd = (pipe_of d q).pipe_writefd in
      let c' = set_source_eof d c in
      let cs : List Call =
        Call.event_del (source_ev d q)
        ∷ Call.close fd
        ∷ Call.shutdown (source_fd d c) How.shut_rd
        ∷ Call.splice (source_fd d c) fd (pipe_of d q).capacity
        ∷ [] in
      let r =
        transocks_splicepump_free-releases os p c' q (log cs s) ne
          (rw (user_arg-set_source_eof d c) u) (rw (client_state-set_source_eof d c) g) in
      (
        r.0,
        rw (write_eof-log source open_end eof more) r.1,
        subst (λ n. closes fd s.trace + 2 ≤ n) (sym (r.4 fd))
            (enough (one_fd c'.client_fd fd) (one_fd c'.relay_fd fd) (pipe_fds q.inbound_pipe fd)
              (pipe_fds q.outbound_pipe fd) _ _ (own_end d q open_end) logged),
      )
    where
      fd₀ : ℤ
      fd₀ = (pipe_of d q).pipe_writefd

      logged :
          closes fd₀ (
            Call.event_del (source_ev d q)
            ∷ Call.close fd₀
            ∷ Call.shutdown (source_fd d c) How.shut_rd
            ∷ Call.splice (source_fd d c) fd₀ (pipe_of d q).capacity
            ∷ s.trace)
          ≡ 1 + closes fd₀ s.trace
      logged = simp (counting, zero-add) (rw (int_eq_refl fd₀))

  -- When a pipe is read to its end after its source has ended, the client and the pump are freed,
  -- whatever has come from the other side or stands in the pipe of the other direction.
  pub half_close_frees :
      p ≢ 0
      → c.user_arg ≢ 0
      → is_gone c.client_state ≡ false
      → transocks_is_invalid_fd c.client_fd ≡ false
      → transocks_is_invalid_fd c.relay_fd ≡ false
      → is_neg (pipe_of d q).pipe_readfd ≡ false
      → source_read d c ≡ true
      → (os s.trace
          (Call.splice (pipe_of d q).pipe_readfd (target_fd d c) (pipe_of d q).data_in_pipe)).ret
        ≡ pos 0
      → (t : State) × (transocks_read_from_pipe p d os (both c q s) ≡ ok tt t)
        × (t.client ≡ none)
        × (t.pump ≡ none)
  half_close_frees ne u g vc vr open_end read eof =
      let cs : List Call =
        Call.close (pipe_of d q).pipe_readfd
        ∷ Call.shutdown (target_fd d c) How.shut_wr
        ∷ Call.splice (pipe_of d q).pipe_readfd (target_fd d c) (pipe_of d q).data_in_pipe
        ∷ [] in
      let r =
        transocks_splicepump_free-releases os p (set_target_eof d c) q (log cs s) ne
          (rw (user_arg-set_target_eof d c) u) (rw (client_state-set_target_eof d c) g) in
      (
        r.0,
        rw
            (read_eof-log (valid_target d c vc vr) open_end eof
              (finished-set_target_eof d c vc vr read))
            r.1,
        r.2,
        r.3,
      )

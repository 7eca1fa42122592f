-- ===== src/SplicePump/Invariant.antt =====
-- The invariant of a pump that runs: its counters against what `splice` moved.
use transocks_wong.Prelude.{ℕ, ◌+◌, ◌-◌, ◌%◌, ◌≤◌, ◌<◌, ◌≡◌, ◌≢◌, ℤ, false, List, arith, none, some}
use transocks_wong.Machine.{Call, Os, Client, SplicePipe, SplicePump, State}
use transocks_wong.Context.{is_gone}
use transocks_wong.SplicePump.Moved.{moved_in, moved_out, PipeTable, Differ}
use transocks_wong.SplicePump.{
  Direction, inbound, outbound, source_fd, target_fd, pipe_of, size_mod,
}

-- The counter of a pipe into which `i` bytes were moved, and out of which `o`.
pub record IsCounted (i o : ℕ) (q : SplicePipe) : Type 0 where
  pub balance : q.data_in_pipe + o ≡ i
  pub bounded : q.data_in_pipe ≤ q.capacity
  pub no_wrap : q.capacity < size_mod

-- The sockets and the ends of the pipes are different descriptors.
pub record IsApart (source target read write other_read other_write : ℤ) : Type 0 where
  pub source_own : Differ source read
  pub source_other : Differ source other_read
  pub target_own : Differ target write
  pub target_other : Differ target other_write
  pub reads : Differ read other_read
  pub writes : Differ write other_write

abbrev pub other : Direction → Direction
other inbound = outbound
other outbound = inbound

pub record IsPumping (IsPipe : PipeTable) (c : Client) (q : SplicePump) (i o : Direction → ℕ)
    : Type 0 where
  pub attached : c.user_arg ≢ 0
  pub present : is_gone c.client_state ≡ false
  pub counted : (d : Direction) → IsCounted (i d) (o d) (pipe_of d q)
  pub apart :
      (d : Direction)
      → IsApart
          (source_fd d c)
          (target_fd d c)
          (pipe_of d q).pipe_readfd
          (pipe_of d q).pipe_writefd
          (pipe_of (other d) q).pipe_readfd
          (pipe_of (other d) q).pipe_writefd
  pub piped :
      (d : Direction)
      → IsPipe (pipe_of d q).pipe_readfd (pipe_of d q).pipe_writefd (pipe_of d q).capacity

-- The invariant of a pump that runs.
abbrev pub IsPumpingAt : Os → PipeTable → Client → SplicePump → List Call → Type 0
IsPumpingAt os P c q tr =
    IsPumping P c q (λ d. moved_in os (pipe_of d q).pipe_writefd tr)
      (λ d. moved_out os (pipe_of d q).pipe_readfd tr)

pub data IsHealthy (os : Os) (P : PipeTable) (s : State) : Type 0 where
  freed : s.client ≡ none → s.pump ≡ none → IsHealthy os P s
  running :
      (c : Client) (q : SplicePump)
      → s.client ≡ some c
      → s.pump ≡ some q
      → IsPumpingAt os P c q s.trace
      → IsHealthy os P s

pub add-IsCounted :
    (q : SplicePipe) (i o n : ℕ)
    → IsCounted i o q
    → (i ≤ o + q.capacity → i + n ≤ o + q.capacity)
    → IsCounted (n + i) o (record q { data_in_pipe = (q.data_in_pipe + n) % size_mod })
add-IsCounted q i o n v fits = record {
  balance = omega (arith, fits (omega arith));
  bounded = omega (arith, fits (omega arith));
  no_wrap = v.no_wrap;
}

pub sub-IsCounted :
    (q : SplicePipe) (i o n : ℕ)
    → IsCounted i o q
    → n ≤ q.data_in_pipe
    → IsCounted i (n + o) (record q { data_in_pipe = (q.data_in_pipe + size_mod - n) % size_mod })
sub-IsCounted q i o n v h = record {
  balance = omega arith;
  bounded = omega arith;
  no_wrap = v.no_wrap;
}

-- ===== src/Examples/Pumps.antt =====
-- The two pumps of splicepump.c and bufferpump.c on a concrete client.
use transocks_wong.Prelude.{
  ℕ, suc, ◌+◌, ◌≤◌, ◌≡◌, ◌≢◌, refl, ℤ, pos, minus_one, true, if◌then◌else◌, ltb, none, some, List,
  [], ◌∷◌, arith, ◌==◌, ◌⊎◌,
}
use transocks_wong.Machine.{Call, Os, Client, State, ok, Ptr, ◌>>◌}
use transocks_wong.Machine.Log.{closes, count, free_of}
use transocks_wong.Machine.Returns.{Returns, Ends}
use transocks_wong.Context.Releases as ContextReleases
use transocks_wong.SplicePump.{
  inbound, outbound, SpliceEvent, splice_run, splicepump_cb, transocks_single_splice, on_written,
  modify_pipe, transocks_check_normal_termination, transocks_splicepump_free,
  transocks_read_from_pipe, transocks_write_to_pipe, pipe_of,
}
use transocks_wong.SplicePump.Moved.{transferred, moved_in, moved_out, PipeTable, SpliceLaws}
use transocks_wong.SplicePump.Invariant.{IsPumpingAt, IsHealthy}
use transocks_wong.SplicePump.Runs
use transocks_wong.SplicePump.Releases
use transocks_wong.SplicePump.Closing
use transocks_wong.SplicePump.Outcome
use transocks_wong.SplicePump.Start.{transocks_splicepump_start_pump}
use transocks_wong.SplicePump.Free.{both}
use transocks_wong.BufferPump.{
  BufferEvent, client_side, relay_side, readable, writable, happened, buffer_run,
}
use transocks_wong.BufferPump.Runs as BufferRuns
use transocks_wong.BufferPump.Order.{in_order, buffer_run-Ordered}
use transocks_wong.Examples.World.{guest, reply, calm, pumped, both_ways, still, met, nine, fifty}

-- The first call of `splice` moves up to 5 bytes, and later ones none.
abbrev pub once : Os
once [] (Call.splice from to len) = reply (pos (if ltb len 5 then len else 5)) 7
once [] _ = reply (pos 0) 7
once (c ∷ tr) (Call.splice from to len) = reply minus_one 7
once (c ∷ tr) _ = reply (pos 0) 7

abbrev pub Roomy : PipeTable
Roomy r w cap = 5 ≤ cap

once-error :
    (tr : List Call) (f t : ℤ) (len n : ℕ) → (once tr (Call.splice f t len)).ret ≢ ℤ.negsuc (suc n)
once-error [] f t len n = ground arith
once-error (c ∷ tr) f t len n = ground arith

once-amount :
    (tr : List Call) (f t : ℤ) (len : ℕ) → transferred (once tr (Call.splice f t len)).ret ≤ len
once-amount [] f t len = ground arith
once-amount (c ∷ tr) f t len = omega arith

once-capacity :
    (r w : ℤ) (cap : ℕ)
    → Roomy r w cap
    → (tr : List Call) (f : ℤ) (len : ℕ) → moved_in once w tr ≤ moved_out once r tr + cap
    → moved_in once w tr + transferred (once tr (Call.splice f w len)).ret
      ≤ moved_out once r tr + cap
unfolding moved_in moved_out
once-capacity r w cap room [] f len h = ground arith
once-capacity r w cap room (c ∷ tr) f len h = omega (arith, h)

pub once-SpliceLaws : SpliceLaws once Roomy
once-SpliceLaws = record { error = once-error; amount = once-amount; capacity = once-capacity }

abbrev pub flowing : State
flowing = record still { client = some pumped; pump = some both_ways }

pub flowing-IsPumpingAt : IsPumpingAt once Roomy pumped both_ways []
unfolding moved_in moved_out
flowing-IsPumpingAt = record {
  attached = λ e. absurd (omega arith);
  present = refl;
  counted = elim [
    | inbound ↦ record { balance = refl; bounded = omega arith; no_wrap = omega arith }
    | outbound ↦ record { balance = refl; bounded = omega arith; no_wrap = omega arith }
  ];
  apart = elim [
    | inbound ↦ record {
      source_own = refl;
      source_other = refl;
      target_own = refl;
      target_other = refl;
      reads = refl;
      writes = refl;
    }
    | outbound ↦ record {
      source_own = refl;
      source_other = refl;
      target_own = refl;
      target_other = refl;
      reads = refl;
      writes = refl;
    }
  ];
  piped = elim [ inbound ↦ omega arith | outbound ↦ omega arith ];
}

splice_run-IsHealthy_example :
    Returns
      (λ _. IsHealthy once Roomy)
      (splice_run 9 (SpliceEvent.client_readcb ∷ SpliceEvent.relay_writecb ∷ []) once flowing)
splice_run-IsHealthy_example =
    Runs.splice_run-IsHealthy once-SpliceLaws nine
      (SpliceEvent.client_readcb ∷ SpliceEvent.relay_writecb ∷ []) pumped both_ways flowing refl
      refl flowing-IsPumpingAt

-- The five bytes are in the pipe after the first callback.
counted :
    (t : State) × (splice_run 9 (SpliceEvent.client_readcb ∷ []) once flowing ≡ ok tt t)
    × (t.pump
        ≡ some (record both_ways {
          outbound_pipe = record (pipe_of outbound both_ways) { data_in_pipe = 5 };
        }))
unfolding splice_run splicepump_cb transocks_write_to_pipe transocks_single_splice on_written
    modify_pipe transocks_check_normal_termination
counted = (_, refl, refl)

transocks_splicepump_free-releases_example :
    (t : State) × (transocks_splicepump_free 9 calm (both pumped both_ways still) ≡ ok tt t)
    × (t.client ≡ none)
    × (t.pump ≡ none)
    × ((fd : ℤ)
        → closes fd t.trace
          ≡ ContextReleases.one_fd (pos 5) fd
            + ContextReleases.one_fd (pos 6) fd
            + Releases.pipe_fds both_ways.inbound_pipe fd
            + Releases.pipe_fds both_ways.outbound_pipe fd
            + closes fd [])
    × ((b : Ptr)
        → count (free_of b) t.trace
          ≡ (if 9 == b then 1 else 0)
            + ContextReleases.one_ptr 20 b
            + ContextReleases.one_ptr 21 b
            + (if 50 == b then 1 else 0)
            + ContextReleases.one_ptr 70 b
            + ContextReleases.one_ptr 71 b
            + count (free_of b) [])
transocks_splicepump_free-releases_example =
    Releases.transocks_splicepump_free-releases calm 9 pumped both_ways still nine fifty refl

start_pump-outcome_example :
    Ends
      (λ r t.
        ((r ≡ pos 0) × (Outcome.is_attached t ≡ true))
        ⊎ ((r ≡ minus_one) × (t.client ≡ none) × (t.pump ≡ none))
        ⊎ ((r ≡ minus_one) × (Outcome.is_plain t ≡ true)))
      (transocks_splicepump_start_pump 9 calm met)
start_pump-outcome_example = Outcome.start_pump-outcome calm 9 met nine refl

-- The client has sent all it had.
abbrev sent : Client
sent = record pumped { client_shutdown_read = true }

half_close_frees_example :
    (t : State) × (transocks_read_from_pipe 9 outbound calm (both sent both_ways still) ≡ ok tt t)
    × (t.client ≡ none)
    × (t.pump ≡ none)
half_close_frees_example =
    Closing.half_close_frees calm 9 outbound sent both_ways still nine fifty refl refl refl refl
      refl refl

write_end_closed_twice_example :
    (t : State) × ((transocks_write_to_pipe 9 outbound >> transocks_splicepump_free 9) calm
        (both pumped both_ways still)
      ≡ ok tt t)
    × (closes (pos 13) [] + 2 ≤ closes (pos 13) t.trace)
write_end_closed_twice_example =
    Closing.write_end_closed_twice calm 9 outbound pumped both_ways still nine fifty refl refl refl
      refl refl

buffer_run-Settled_example : Ends BufferRuns.Settled (
    buffer_run 9
      (readable client_side
        ∷ happened client_side 0x11 0
        ∷ writable relay_side
        ∷ happened relay_side 0x11 0
        ∷ writable client_side
        ∷ [])
      calm
      met)
buffer_run-Settled_example =
    BufferRuns.buffer_run-Settled 9 nine calm
      (readable client_side
        ∷ happened client_side 0x11 0
        ∷ writable relay_side
        ∷ happened relay_side 0x11 0
        ∷ writable client_side
        ∷ [])
      met refl

abbrev pub both_ends : List BufferEvent
both_ends =
    readable client_side
    ∷ happened client_side 0x11 0
    ∷ writable relay_side
    ∷ happened relay_side 0x11 0
    ∷ []

buffer_run-Ordered_example :
    Ends (λ _ t. in_order (pos 5) (pos 6) t.trace ≡ true) (buffer_run 9 both_ends calm met)
unfolding in_order
buffer_run-Ordered_example =
    buffer_run-Ordered 9 nine calm both_ends guest still refl refl refl refl

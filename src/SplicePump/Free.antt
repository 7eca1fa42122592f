-- ===== src/SplicePump/Free.antt =====
-- What `transocks_splicepump_free` does, as an exact list of calls.
use mathlib.Core.List.{append_assoc}
use transocks_wong.Prelude.{false, List, [], ◌∷◌, ◌++◌, ◌≡◌, ◌≢◌, arith, none, some}
use transocks_wong.Machine.{Ptr, Call, Os, Client, SplicePipe, SplicePump, State, ok}
use transocks_wong.Machine.Log.{log, when}
use transocks_wong.Context.{is_gone}
use transocks_wong.Context.Free.{is_open, is_set, closed, free_calls, transocks_client_free-log}
use transocks_wong.SplicePump.{
  Direction, inbound, outbound, pipe_of, set_pipe, close_pipe, del_ev, del_events, free_ev,
  free_events, release, transocks_splicepump_free,
}

-- The state with its client and its pump allocated.
abbrev pub both : Client → SplicePump → State → State
both c q s = record s { client = some c; pump = some q }

unfoldable pub pipe_calls : SplicePipe → List Call
pipe_calls q =
    when (is_set q.block) (Call.free q.block ∷ [])
    ++ when (is_open q.pipe_readfd) (Call.close q.pipe_readfd ∷ [])
    ++ when (is_open q.pipe_writefd) (Call.close q.pipe_writefd ∷ [])

abbrev closed_pipe : SplicePipe → SplicePipe
closed_pipe q = record q {
  block = 0;
  pipe_readfd = closed q.pipe_readfd;
  pipe_writefd = closed q.pipe_writefd;
}

close_pipe-log :
    (d : Direction) (os : Os) (c : Client) (q : SplicePump) (s : State)
    → close_pipe d os (both c q s)
      ≡ ok tt (log (pipe_calls (pipe_of d q)) (both c (set_pipe d (closed_pipe (pipe_of d q)) q) s))
unfolding close_pipe pipe_calls
close_pipe-log inbound os c q s = ground arith
close_pipe-log outbound os c q s = ground arith

abbrev del_calls : Ptr → List Call
del_calls ev = when (is_set ev) (Call.event_del ev ∷ [])

del_ev-log : (ev : Ptr) (os : Os) (s : State) → del_ev ev os s ≡ ok tt (log (del_calls ev) s)
unfolding del_ev
del_ev-log ev os s = ground arith

abbrev event_free_calls : Ptr → List Call
event_free_calls ev = when (is_set ev) (Call.event_free ev ∷ [])

free_ev-log :
    (ev : Ptr) (os : Os) (s : State) → free_ev ev os s ≡ ok 0 (log (event_free_calls ev) s)
unfolding free_ev
free_ev-log ev os s = ground arith

abbrev freed_events : SplicePump → SplicePump
freed_events q = record q {
  client_read_ev = 0;
  client_write_ev = 0;
  relay_read_ev = 0;
  relay_write_ev = 0;
}

unfoldable pub del_events_calls : SplicePump → List Call
del_events_calls q =
    del_calls q.relay_write_ev
    ++ del_calls q.relay_read_ev
    ++ del_calls q.client_write_ev
    ++ del_calls q.client_read_ev

unfoldable pub free_events_calls : SplicePump → List Call
free_events_calls q =
    event_free_calls q.relay_write_ev
    ++ event_free_calls q.relay_read_ev
    ++ event_free_calls q.client_write_ev
    ++ event_free_calls q.client_read_ev

del_events-log :
    (os : Os) (c : Client) (q : SplicePump) (s : State)
    → del_events os (both c q s) ≡ ok tt (log (del_events_calls q) (both c q s))
unfolding del_events del_events_calls
del_events-log os c q s =
    rw (del_ev-log) (rw (del_ev-log) (rw (del_ev-log) (rw (del_ev-log) (simp append_assoc))))

free_events-log :
    (os : Os) (c : Client) (q : SplicePump) (s : State)
    → free_events os (both c q s) ≡ ok tt (log (free_events_calls q) (both c (freed_events q) s))
unfolding free_events free_events_calls
free_events-log os c q s =
    rw (free_ev-log) (rw (free_ev-log) (rw (free_ev-log) (rw (free_ev-log) (simp append_assoc))))

unfoldable pub splice_free_calls : Ptr → Client → SplicePump → List Call
splice_free_calls p c q =
    free_calls p c
    ++ Call.free c.user_arg ∷ free_events_calls q
    ++ del_events_calls q
    ++ pipe_calls q.outbound_pipe
    ++ pipe_calls q.inbound_pipe

release-log :
    (os : Os) (p : Ptr) (c : Client) (q : SplicePump) (s : State)
    → p ≢ 0
    → is_gone c.client_state ≡ false
    → release p c.user_arg os (both c q s)
      ≡ ok tt (log (splice_free_calls p c q) (record s { client = none; pump = none }))
unfolding release splice_free_calls del_events_calls free_events_calls
release-log os p c q s h g =
    let s₁ = log (pipe_calls q.inbound_pipe) s in
    let q₁ = set_pipe inbound (closed_pipe q.inbound_pipe) q in
    let s₂ = log (pipe_calls q.outbound_pipe) s₁ in
    let q₂ = set_pipe outbound (closed_pipe q.outbound_pipe) q₁ in
    let s₃ = log (del_events_calls q₂) s₂ in
    let s₄ = log (free_events_calls q₂) s₃ in
    rw
      (
        close_pipe-log inbound os c q s,
        close_pipe-log outbound os c q₁ s₁,
        del_events-log os c q₂ s₂,
        free_events-log os c q₂ s₃,
        transocks_client_free-log os p c
            (log (Call.free c.user_arg ∷ []) (record s₄ { pump = none })) h g,
      )
      (simp append_assoc)

pub transocks_splicepump_free-log :
    (os : Os) (p : Ptr) (c : Client) (q : SplicePump) (s : State)
    → p ≢ 0
    → c.user_arg ≢ 0
    → is_gone c.client_state ≡ false
    → transocks_splicepump_free p os (both c q s)
      ≡ ok tt (log (splice_free_calls p c q) (record s { client = none; pump = none }))
unfolding transocks_splicepump_free
transocks_splicepump_free-log os p c q s h u g = ground (arith, release-log os p c q s h g)

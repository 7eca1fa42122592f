-- ===== src/Signal/Deinit.antt =====
-- signal.c: `signal_deinit`.
use native.Mathlib.Nat.{zero-add, add-zero}
use transocks_wong.Prelude.{◌+◌, ◌≡◌, refl, some, List, [], ◌∷◌, ◌++◌, arith}
use transocks_wong.Machine.{Ptr, Call, Os, GlobalEnv, State, ok}
use transocks_wong.Machine.Log.{log, when, count, event_free_of, counting}
use transocks_wong.Context.Free.{is_set}
use transocks_wong.Context.Releases.{one_ptr}
use transocks_wong.Signal.{drop_signal, signal_deinit}

abbrev drop_calls : Ptr → List Call
drop_calls ev = when (is_set ev) (Call.event_free ev ∷ Call.event_del ev ∷ [])

abbrev pub no_signals : GlobalEnv → GlobalEnv
no_signals e = record e { sigint_ev = 0; sigterm_ev = 0; sighup_ev = 0; sigusr1_ev = 0 }

abbrev pub with_env : GlobalEnv → State → State
with_env e s = record s { env = some e }

abbrev pub signal_calls : GlobalEnv → List Call
signal_calls e =
    drop_calls e.sigusr1_ev
    ++ drop_calls e.sighup_ev
    ++ drop_calls e.sigterm_ev
    ++ drop_calls e.sigint_ev

pub signal_deinit-log :
    (os : Os) (e : GlobalEnv) (s : State)
    → signal_deinit os (with_env e s) ≡ ok tt (log (signal_calls e) (with_env (no_signals e) s))
unfolding signal_deinit drop_signal
signal_deinit-log os e s = ground arith

-- `signal_deinit` deletes and frees each signal event that is there, resets the four fields and
-- nothing else of the environment; a second `signal_deinit` changes nothing and calls nothing.
pub signal_deinit-releases :
    (os : Os) (e : GlobalEnv) (s : State)
    → (t : State) × (signal_deinit os (with_env e s) ≡ ok tt t)
      × (t ≡ log (signal_calls e) (with_env (no_signals e) s))
      × (signal_deinit os t ≡ ok tt t)
      × ((ev : Ptr)
          → count (event_free_of ev) t.trace
            ≡ one_ptr e.sigint_ev ev
              + one_ptr e.sigterm_ev ev
              + one_ptr e.sighup_ev ev
              + one_ptr e.sigusr1_ev ev
              + count (event_free_of ev) s.trace)
signal_deinit-releases os e s = (
  log (signal_calls e) (with_env (no_signals e) s),
  signal_deinit-log os e s,
  refl,
  signal_deinit-log os (no_signals e) (log (signal_calls e) s),
  λ ev. simp (counting, zero-add, add-zero) (omega arith),
)

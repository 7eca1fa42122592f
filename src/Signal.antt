-- ===== src/Signal.antt =====
-- signal.c: the events of the four signals.
pub mod Deinit
use transocks_wong.Prelude.{Bool, ◌||◌, ◌==◌, if◌then◌else◌, ℤ, minus_one}
use transocks_wong.Machine.{
  Ptr, Call, Callback, Signal, M, pure, call, call_, succeeds, ◌>>=◌, ◌>>◌, ◌>>?◌, get_env,
  modify_env,
}
use transocks_wong.Macros.{transocks_free}

unfoldable pub new_signals : M (Unit {0})
new_signals = do
  term ← call (Call.evsignal_new Signal.sigterm Callback.terminate_signal_cb)
  modify_env (λ e. record e { sigterm_ev = term.ptr })
  int ← call (Call.evsignal_new Signal.sigint Callback.terminate_signal_cb)
  modify_env (λ e. record e { sigint_ev = int.ptr })
  hup ← call (Call.evsignal_new Signal.sighup Callback.dump_client_info_signal_cb)
  modify_env (λ e. record e { sighup_ev = hup.ptr })
  usr1 ← call (Call.evsignal_new Signal.sigusr1 Callback.drop_all_clients_signal_cb)
  modify_env (λ e. record e { sigusr1_ev = usr1.ptr })

unfoldable pub add_signals : M Bool
add_signals = do
  e ← get_env
  succeeds (Call.event_add e.sigterm_ev)
      >>? succeeds (Call.event_add e.sigint_ev)
      >>? succeeds (Call.event_add e.sighup_ev)
      >>? succeeds (Call.event_add e.sigusr1_ev)

unfoldable pub signal_init : M ℤ
unfolding new_signals add_signals
signal_init = do
  new_signals
  e ← get_env
  if e.sigterm_ev == 0 || e.sigint_ev == 0 || e.sighup_ev == 0 || e.sigusr1_ev == 0
      then pure minus_one
      else (do added ← add_signals; if added then pure (ℤ.pos 0) else pure minus_one)

-- One event is deleted and freed; the result is what its field holds afterwards.
unfoldable pub drop_signal : Ptr → M Ptr
unfolding transocks_free
drop_signal ev =
    if ev == 0
    then pure ev
    else do call_ (Call.event_del ev); transocks_free (λ ev. call_ (Call.event_free ev)) ev

unfoldable pub signal_deinit : M (Unit {0})
unfolding drop_signal
signal_deinit = do
  e ← get_env
  ev ← drop_signal e.sigint_ev
  modify_env (λ e. record e { sigint_ev = ev })
  ev ← drop_signal e.sigterm_ev
  modify_env (λ e. record e { sigterm_ev = ev })
  ev ← drop_signal e.sighup_ev
  modify_env (λ e. record e { sighup_ev = ev })
  ev ← drop_signal e.sigusr1_ev
  modify_env (λ e. record e { sigusr1_ev = ev })

-- SIGTERM and SIGINT end the event loop.
unfoldable pub terminate_signal_cb : M (Unit {0})
terminate_signal_cb = do e ← get_env; call_ (Call.event_base_loopbreak e.event_base_loop)

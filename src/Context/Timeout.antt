-- ===== src/Context/Timeout.antt =====
-- context.c: `transocks_client_set_timeout`.
use transocks_wong.Prelude.{
  ℕ, ◌≡◌, ℤ, pos, minus_one, ◌==◌, if◌then◌else◌, nonzero, List, [], ◌∷◌, arith,
}
use transocks_wong.Machine.{Ptr, Call, Callback, Os, Client, State, ok}
use transocks_wong.Machine.Log.{live, log}
use transocks_wong.Context.{transocks_client_set_timeout}

abbrev pub timer : Callback → Client → Os → State → Ptr
timer fn c os s = if c.timeout_ev == 0 then (os s.trace (Call.evtimer_new fn)).ptr else c.timeout_ev

-- What makes the timer ready, the latest first.
abbrev pub prepared : Callback → Client → List Call
prepared fn c =
    if c.timeout_ev == 0
    then Call.evtimer_new fn ∷ []
    else Call.evtimer_assign c.timeout_ev fn ∷ Call.event_del c.timeout_ev ∷ []

-- A timer that was not there, or that could not be assigned, leaves -1, or the result of the call.
abbrev pub prepare_result : Callback → Client → Os → State → ℤ
prepare_result fn c os s =
    if c.timeout_ev == 0
    then (if (os s.trace (Call.evtimer_new fn)).ptr == 0 then minus_one else pos 0)
    else (os (Call.event_del c.timeout_ev ∷ s.trace) (Call.evtimer_assign c.timeout_ev fn)).ret

-- `transocks_client_set_timeout` makes the client's timer at the first call, and otherwise stops it and
-- assigns it again. If that fails, its result is returned and no timer is started; otherwise the
-- timer is started with the timeout, whose result is returned. The client names the timer.
pub set_timeout-arms :
    (os : Os) (timeout : ℕ) (fn : Callback) (c : Client) (s : State)
    → let ev = timer fn c os s in
      let t = log (prepared fn c) (live (record c { timeout_ev = ev }) s) in
      transocks_client_set_timeout timeout fn os (live c s) ≡ (
        if nonzero (prepare_result fn c os s)
        then ok (prepare_result fn c os s) t
        else ok
            (os t.trace (Call.evtimer_add ev timeout)).ret
            (log (Call.evtimer_add ev timeout ∷ []) t))
unfolding transocks_client_set_timeout
set_timeout-arms os timeout fn c s = ground arith

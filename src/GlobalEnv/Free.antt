-- ===== src/GlobalEnv/Free.antt =====
-- context.c: what `transocks_global_env_free` gives back.
use native.Mathlib.Nat.{zero-add, add-zero}
use mathlib.Core.List.{append_assoc}
use transocks_wong.Prelude.{
  set_of, ℕ, ◌+◌, ◌≡◌, ◌≢◌, refl, ℤ, ◌==◌, Option, if◌then◌else◌, none, some, List, [], ◌∷◌, ◌++◌,
  arith,
}
use transocks_wong.Machine.{Ptr, Call, Os, GlobalEnv, Listener, State, ok}
use transocks_wong.Machine.Log.{log, when, count, closes, free_of, close_of, counting, count-append}
use transocks_wong.Machine.Closes.{remakes, close_at}
use transocks_wong.Context.Free.{is_set, is_open}
use transocks_wong.Context.Releases.{one_fd, one_ptr}
use transocks_wong.Listener.{listener_deinit}
use transocks_wong.Signal.Deinit.{with_env, no_signals, signal_calls, signal_deinit-log}
use transocks_wong.GlobalEnv.{free_env_blocks, free_env_base, transocks_global_env_free}

abbrev pub listener_calls : Option Listener → List Call
listener_calls none = []
listener_calls (some l) =
    when (is_set l.block) (Call.free l.block ∷ [])
    ++ when (is_open l.listener_fd) (Call.close l.listener_fd ∷ [])
    ++ when (is_set l.listener_ev)
        (Call.event_free l.listener_ev ∷ Call.event_del l.listener_ev ∷ [])

pub listener_deinit-log :
    (os : Os) (e : GlobalEnv) (ol : Option Listener) (s : State)
    → listener_deinit os (with_env (record e { listener = ol }) s)
      ≡ ok tt (log (listener_calls ol) (with_env (record e { listener = none }) s))
unfolding listener_deinit
listener_deinit-log os e none s = refl
listener_deinit-log os e (some l) s = ground arith

abbrev block_calls : GlobalEnv → List Call
block_calls e =
    when (is_set e.bind_addr) (Call.free e.bind_addr ∷ [])
    ++ when (is_set e.relay_addr) (Call.free e.relay_addr ∷ [])
    ++ when (is_set e.pump_method_name) (Call.free e.pump_method_name ∷ [])

free_env_blocks-log :
    (os : Os) (e : GlobalEnv) (s : State)
    → free_env_blocks os (with_env e s)
      ≡ ok tt (
          log
            (block_calls e)
            (with_env (record e { pump_method_name = 0; relay_addr = 0; bind_addr = 0 }) s))
unfolding free_env_blocks
free_env_blocks-log os e s = ground arith

abbrev base_calls : Ptr → GlobalEnv → List Call
base_calls p e =
    Call.free p ∷ when (is_set e.event_base_loop) (Call.event_base_free e.event_base_loop ∷ [])

free_env_base-log :
    (os : Os) (p : Ptr) (e : GlobalEnv) (s : State)
    → p ≢ 0
    → free_env_base p os (with_env e s) ≡ ok tt (log (base_calls p e) (record s { env = none }))
unfolding free_env_base
free_env_base-log os p e s ne = ground arith

abbrev pub env_free_calls : Ptr → GlobalEnv → List Call
env_free_calls p e = base_calls p e ++ signal_calls e ++ listener_calls e.listener ++ block_calls e

pub env_free-log :
    (os : Os) (p : Ptr) (e : GlobalEnv) (s : State)
    → p ≢ 0
    → transocks_global_env_free p os (with_env e s)
      ≡ ok tt (log (env_free_calls p e) (record s { env = none }))
unfolding transocks_global_env_free
env_free-log os p e s ne =
    let e₁ = record e { pump_method_name = 0; relay_addr = 0; bind_addr = 0 } in
    let s₁ = log (block_calls e) s in
    let s₂ = log (listener_calls e.listener) s₁ in
    let e₂ = record e₁ { listener = none } in
    let s₃ = log (signal_calls e) s₂ in
    rw
      (
        set_of p ne,
        free_env_blocks-log os e s,
        listener_deinit-log os e₁ e.listener s₁,
        signal_deinit-log os e₂ s₂,
        free_env_base-log os p (no_signals e₂) s₃ ne,
      )
      (simp append_assoc)

-- What a listener holds.
abbrev pub listener_fds : Option Listener → ℤ → ℕ
listener_fds none fd = 0
listener_fds (some l) fd = one_fd l.listener_fd fd

abbrev pub listener_blocks : Option Listener → Ptr → ℕ
listener_blocks none b = 0
listener_blocks (some l) b = one_ptr l.block b

closes-listener_calls :
    (ol : Option Listener) (fd : ℤ) → closes fd (listener_calls ol) ≡ listener_fds ol fd
closes-listener_calls none fd = simp counting
closes-listener_calls (some l) fd = simp (counting, zero-add, add-zero)

frees-listener_calls :
    (ol : Option Listener) (b : Ptr) → count (free_of b) (listener_calls ol) ≡ listener_blocks ol b
frees-listener_calls none b = simp counting
frees-listener_calls (some l) b = simp (counting, zero-add, add-zero)

module _ (p : Ptr) (e : GlobalEnv) where
  pub closes-env_free_calls : (fd : ℤ) → closes fd (env_free_calls p e) ≡ listener_fds e.listener fd
  closes-env_free_calls fd =
      simp (counting, closes-listener_calls e.listener fd, zero-add, add-zero)

  pub frees-env_free_calls :
      (b : Ptr)
      → count (free_of b) (env_free_calls p e)
        ≡ (if p == b then 1 else 0)
          + one_ptr e.bind_addr b
          + one_ptr e.relay_addr b
          + one_ptr e.pump_method_name b
          + listener_blocks e.listener b
  frees-env_free_calls b =
      simp (counting, frees-listener_calls e.listener b, zero-add, add-zero) (omega arith)

  remakes-listener_calls : (ol : Option Listener) → count remakes (listener_calls ol) ≡ 0
  remakes-listener_calls none = simp counting
  remakes-listener_calls (some l) = simp (counting, zero-add)

  pub remakes-env_free_calls : count remakes (env_free_calls p e) ≡ 0
  remakes-env_free_calls = simp (counting, remakes-listener_calls, zero-add)

  module _ (os : Os) (fd : ℤ) (tr : List Call) where
    all_closes-listener_calls :
        (ol : Option Listener) → count (close_at os fd tr) (listener_calls ol) ≡ listener_fds ol fd
    all_closes-listener_calls none = simp counting
    all_closes-listener_calls (some l) = simp (counting, zero-add, add-zero)

    pub all_closes-env_free_calls :
        count (close_at os fd tr) (env_free_calls p e) ≡ listener_fds e.listener fd
    all_closes-env_free_calls =
        simp (counting, all_closes-listener_calls e.listener, zero-add, add-zero)

-- `transocks_global_env_free` takes the environment out of use. It closes the listening descriptor
-- once if it is open, and frees the blocks of the environment, of its two addresses, of the name of
-- the pump method and of the listener once each; nothing else is closed or freed in these ways.
pub global_env_free-releases :
    (os : Os) (p : Ptr) (e : GlobalEnv) (s : State)
    → p ≢ 0
    → (t : State) × (transocks_global_env_free p os (with_env e s) ≡ ok tt t)
      × (t.env ≡ none)
      × ((fd : ℤ) → closes fd t.trace ≡ listener_fds e.listener fd + closes fd s.trace)
      × ((b : Ptr)
          → count (free_of b) t.trace
            ≡ (if p == b then 1 else 0)
              + one_ptr e.bind_addr b
              + one_ptr e.relay_addr b
              + one_ptr e.pump_method_name b
              + listener_blocks e.listener b
              + count (free_of b) s.trace)
global_env_free-releases os p e s ne = (
  log (env_free_calls p e) (record s { env = none }),
  env_free-log os p e s ne,
  refl,
  λ fd. rw (count-append (close_of fd) (env_free_calls p e) s.trace, closes-env_free_calls p e fd),
  λ b. rw (count-append (free_of b) (env_free_calls p e) s.trace, frees-env_free_calls p e b),
)

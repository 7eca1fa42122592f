-- ===== src/GlobalEnv.antt =====
-- context.c: the global environment, and what is done to all clients.
pub mod New
pub mod Free
pub mod Balance
use transocks_wong.Prelude.{◌||◌, ◌==◌, if◌then◌else◌, none}
use transocks_wong.Machine.{
  Ptr, Call, Block, GlobalEnv, M, Fault, fail, pure, skip, call, call_, ◌>>=◌, ◌>>◌, get_env,
  modify_env, alloc_env, drop_env,
}
use transocks_wong.Macros.{transocks_free}
use transocks_wong.Signal.{signal_deinit}
use transocks_wong.Listener.{listener_deinit}

-- A block from `calloc`.
abbrev pub zero_env : GlobalEnv
zero_env = record {
  pump_method_name = 0;
  bind_addr = 0;
  relay_addr = 0;
  bind_family = 0;
  relay_family = 0;
  bind_addr_len = 0;
  relay_addr_len = 0;
  event_base_loop = 0;
  listener = none;
  sigterm_ev = 0;
  sigint_ev = 0;
  sighup_ev = 0;
  sigusr1_ev = 0;
}

-- The label `fail`, past which NULL is returned.
unfoldable pub global_env_new_fail : Ptr → M Ptr
unfolding transocks_free
global_env_new_fail env = do
  e ← get_env
  p ← transocks_free (λ p. call_ (Call.free p)) e.bind_addr
  modify_env (λ e. record e { bind_addr = p })
  p ← transocks_free (λ p. call_ (Call.free p)) e.relay_addr
  modify_env (λ e. record e { relay_addr = p })
  p ← transocks_free (λ p. call_ (Call.event_base_free p)) e.event_base_loop
  modify_env (λ e. record e { event_base_loop = p })
  transocks_free (λ p. call_ (Call.free p) >> drop_env) env

unfoldable pub transocks_global_env_new : M Ptr
transocks_global_env_new = do
  env ← call (Call.calloc Block.global_env)
  if env.ptr == 0 then fail Fault.null_deref else do
    alloc_env zero_env
    b ← call (Call.calloc Block.sockaddr_storage)
    modify_env (λ e. record e { bind_addr = b.ptr })
    r ← call (Call.calloc Block.sockaddr_storage)
    modify_env (λ e. record e { relay_addr = r.ptr })
    if b.ptr == 0 || r.ptr == 0 then global_env_new_fail env.ptr else do
      base ← call Call.event_base_new
      modify_env (λ e. record e { event_base_loop = base.ptr })
      if base.ptr == 0 then global_env_new_fail env.ptr else pure env.ptr

-- The name of the pump method and the two addresses.
unfoldable pub free_env_blocks : M (Unit {0})
unfolding transocks_free
free_env_blocks = do
  e ← get_env
  p ← transocks_free (λ p. call_ (Call.free p)) e.pump_method_name
  modify_env (λ e. record e { pump_method_name = p })
  p ← transocks_free (λ p. call_ (Call.free p)) e.relay_addr
  modify_env (λ e. record e { relay_addr = p })
  p ← transocks_free (λ p. call_ (Call.free p)) e.bind_addr
  modify_env (λ e. record e { bind_addr = p })

-- The event base, and the environment's own block.
unfoldable pub free_env_base : Ptr → M (Unit {0})
unfolding transocks_free
free_env_base pEnv = do
  e ← get_env
  p ← transocks_free (λ p. call_ (Call.event_base_free p)) e.event_base_loop
  modify_env (λ e. record e { event_base_loop = p })
  transocks_free (λ p. call_ (Call.free p) >> drop_env) pEnv
  skip

unfoldable pub transocks_global_env_free : Ptr → M (Unit {0})
transocks_global_env_free pEnv =
    if pEnv == 0
    then skip
    else do free_env_blocks; listener_deinit; signal_deinit; free_env_base pEnv

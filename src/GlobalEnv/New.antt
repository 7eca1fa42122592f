-- ===== src/GlobalEnv/New.antt =====
-- context.c: `transocks_global_env_new` on every result of the allocator.
use transocks_wong.Prelude.{◌≡◌, ◌||◌, ◌==◌, if◌then◌else◌, none, some, [], ◌∷◌, ◌++◌, arith}
use transocks_wong.Machine.{Ptr, Block, Call, Os, State, ok, fault, null_deref}
use transocks_wong.Machine.Log.{log, when}
use transocks_wong.Context.Free.{is_set}
use transocks_wong.GlobalEnv.{zero_env, global_env_new_fail, transocks_global_env_new}

abbrev storage : Call
storage = Call.calloc Block.sockaddr_storage

module _ (os : Os) (s : State) where
  abbrev pub block : Ptr
  block = (os s.trace (Call.calloc Block.global_env)).ptr

  abbrev pub with_block : State
  with_block = log (Call.calloc Block.global_env ∷ []) s

  abbrev pub bind_addr : Ptr
  bind_addr = (os with_block.trace storage).ptr

  abbrev pub with_bind : State
  with_bind = log (storage ∷ []) with_block

  abbrev pub relay_addr : Ptr
  relay_addr = (os with_bind.trace storage).ptr

  abbrev pub with_both : State
  with_both = log (storage ∷ []) with_bind

  abbrev pub event_base : Ptr
  event_base = (os with_both.trace Call.event_base_new).ptr

  abbrev pub with_base : State
  with_base = log (Call.event_base_new ∷ []) with_both

  -- `transocks_global_env_new` returns the environment with its two addresses and its event base,
  -- and nothing else set. If one of these is not to be had, it frees what it got, the environment's
  -- block too, and returns NULL; but if that block itself is not to be had, NULL is dereferenced.
  pub transocks_global_env_new-outcome : transocks_global_env_new os s ≡ (
      if block == 0
      then fault null_deref
      else if (bind_addr == 0) || (relay_addr == 0)
      then ok 0 (
          log
            (Call.free block ∷ when (is_set relay_addr) (Call.free relay_addr ∷ [])
              ++ when (is_set bind_addr) (Call.free bind_addr ∷ []))
            (record with_both { env = none }))
      else if event_base == 0
      then ok 0 (
          log
            (Call.free block ∷ Call.free relay_addr ∷ Call.free bind_addr ∷ [])
            (record with_base { env = none }))
      else ok block (record with_base {
        env = some (record zero_env {
          bind_addr = bind_addr;
          relay_addr = relay_addr;
          event_base_loop = event_base;
        });
      }))
  unfolding transocks_global_env_new global_env_new_fail
  transocks_global_env_new-outcome = ground arith

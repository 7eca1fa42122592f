-- ===== src/Context/New.antt =====
-- context.c: `transocks_client_new` on every result of the allocator.
use transocks_wong.Prelude.{◌≡◌, ◌||◌, ◌==◌, if◌then◌else◌, none, [], ◌∷◌, ◌++◌, arith}
use transocks_wong.Machine.{Ptr, Block, Call, Os, Client, State, ok, fault, null_deref}
use transocks_wong.Machine.Log.{live, log, when}
use transocks_wong.Context.{
  new_client, transocks_client_new, client_new_fail, free_addrs, free_block,
}
use transocks_wong.Context.Free.{is_set}

module _ (os : Os) (env : Ptr) (s : State) where
  abbrev block : Ptr
  block = (os s.trace (Call.malloc Block.client)).ptr

  abbrev pub with_block : State
  with_block = log (Call.malloc Block.client ∷ []) s

  abbrev pub client_addr : Ptr
  client_addr = (os with_block.trace (Call.malloc Block.sockaddr_storage)).ptr

  abbrev pub with_addr : State
  with_addr = log (Call.malloc Block.sockaddr_storage ∷ []) with_block

  abbrev pub dest_addr : Ptr
  dest_addr = (os with_addr.trace (Call.malloc Block.sockaddr_storage)).ptr

  abbrev pub with_both : State
  with_both = log (Call.malloc Block.sockaddr_storage ∷ []) with_addr

  abbrev fresh : Client
  fresh = record (new_client (os s.trace (Call.malloc Block.client)).out) {
    client_addr = client_addr;
    dest_addr = dest_addr;
  }

  pub transocks_client_new-outcome : transocks_client_new env os s ≡ (
      if block == 0
      then fault null_deref
      else if (client_addr == 0) || (dest_addr == 0)
      then ok 0 (
          log
            (Call.free block ∷ when (is_set dest_addr) (Call.free dest_addr ∷ [])
              ++ when (is_set client_addr) (Call.free client_addr ∷ []))
            (record with_both { client = none }))
      else ok block (live (record fresh { global_env = env }) with_both))
  unfolding transocks_client_new client_new_fail free_addrs free_block
  transocks_client_new-outcome = ground arith

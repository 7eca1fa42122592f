-- ===== src/Main/ShutDown.antt =====
-- transocks.c: what the end of the program gives back.
use transocks_wong.Prelude.{
  set_of, ℕ, ◌+◌, ℤ, ◌≡◌, ◌≢◌, sym, subst, ◌∙◌, true, ◌==◌, if◌then◌else◌, none, some, Option, List,
  ◌++◌, refl, arith,
}
use mathlib.Core.List.{append_assoc}
use transocks_wong.Machine.{Call, Ptr, Bytes, Sockaddr, Os, GlobalEnv, State}
use transocks_wong.Machine.Log.{count, closes, free_of, count-append, close_of}
use transocks_wong.Machine.Closes.{remakes, close_at, all_closes, all_closes-append}
use transocks_wong.Machine.Returns.{Ends, Ends-bind, Ends-both}
use transocks_wong.Context.Releases.{one_ptr}
use transocks_wong.GlobalEnv.{transocks_global_env_free}
use transocks_wong.GlobalEnv.Free.{
  listener_fds, listener_blocks, env_free_calls, env_free-log, closes-env_free_calls,
  frees-env_free_calls, remakes-env_free_calls, all_closes-env_free_calls,
}
use transocks_wong.Pump.{Method}
use transocks_wong.Clients.{Entry, transocks_drop_all_clients}
use transocks_wong.Util.Ports.{NtopLaws}
use transocks_wong.Clients.Listed.{all_listed, all_addressed}
use transocks_wong.Clients.DropAll.{left_by, drop_all_clients-left}
use transocks_wong.Clients.Releases.{
  Adds, all_calls, all_fds, all_blocks, drop_all-Adds, closes-all_calls, frees-all_calls, all_fds,
  all_blocks, all_shut, remakes-all_calls, all_closes-all_calls,
}
use transocks_wong.Main.{shut_down}

-- The blocks of the environment.
abbrev pub env_blocks : Ptr → GlobalEnv → Ptr → ℕ
env_blocks p e b =
    (if p == b then 1 else 0)
    + one_ptr e.bind_addr b
    + one_ptr e.relay_addr b
    + one_ptr e.pump_method_name b
    + listener_blocks e.listener b

-- `close` is called, and blocks are freed, once for the environment and once for each client; in all,
-- descriptors are closed with the bufferevents as well.
abbrev pub AllReleased :
    Os → Method → Ptr → GlobalEnv → List Entry → State → List Entry → State → Type 0
AllReleased os impl p e es s left t =
    (left ≡ left_by impl es)
    × (t.env ≡ none)
    × ((fd : ℤ)
        → closes fd t.trace ≡ listener_fds e.listener fd + all_fds impl fd es + closes fd s.trace)
    × ((fd : ℤ)
        → all_closes os fd t.trace
          ≡ listener_fds e.listener fd
            + all_fds impl fd es
            + all_shut impl os fd es s.trace
            + all_closes os fd s.trace)
    × ((b : Ptr)
        → count (free_of b) t.trace
          ≡ env_blocks p e b + all_blocks impl b es + count (free_of b) s.trace)

module _ (memory : Ptr → Sockaddr) (inet_ntop : ℕ → Bytes → Option Bytes) (impl : Method)
    (es : List Entry) (p : Ptr) (e : GlobalEnv) where
  -- All calls of the end of the program, from the first printed line to the environment's block.
  end_calls : List Call
  end_calls = env_free_calls p e ++ all_calls memory inet_ntop impl es

  closes-end_calls :
      (fd : ℤ) → closes fd end_calls ≡ listener_fds e.listener fd + all_fds impl fd es
  unfolding end_calls
  closes-end_calls fd =
      rw
        (
          count-append (close_of fd) (env_free_calls p e) (all_calls memory inet_ntop impl es),
          closes-env_free_calls p e fd,
          closes-all_calls memory inet_ntop impl fd es,
        )
        refl

  frees-end_calls :
      (b : Ptr) → count (free_of b) end_calls ≡ env_blocks p e b + all_blocks impl b es
  unfolding end_calls
  frees-end_calls b =
      rw
        (
          count-append (free_of b) (env_free_calls p e) (all_calls memory inet_ntop impl es),
          frees-env_free_calls p e b,
          frees-all_calls memory inet_ntop impl b es,
        )
        refl

  remakes-end_calls : count remakes end_calls ≡ 0
  unfolding end_calls
  remakes-end_calls =
      rw
        (
          count-append remakes (env_free_calls p e) (all_calls memory inet_ntop impl es),
          remakes-env_free_calls p e,
          remakes-all_calls memory inet_ntop impl es,
        )
        refl

  all_closes-end_calls :
      (os : Os) (fd : ℤ) (tr : List Call)
      → all_closes os fd (end_calls ++ tr)
        ≡ listener_fds e.listener fd
          + all_fds impl fd es
          + all_shut impl os fd es tr
          + all_closes os fd tr
  unfolding end_calls
  all_closes-end_calls os fd tr = omega (
    arith,
    all_closes-append os fd end_calls tr remakes-end_calls,
    count-append (close_at os fd tr) (env_free_calls p e) (all_calls memory inet_ntop impl es),
    all_closes-env_free_calls p e os fd tr,
    all_closes-all_calls memory inet_ntop impl os fd tr es,
  )

  env_last :
      (os : Os) (left : List Entry) (s t : State)
      → p ≢ 0
      → s.env ≡ some e
      → left ≡ left_by impl es
      → Adds (all_calls memory inet_ntop impl es) s left t
      → Ends (λ _ u. AllReleased os impl p e es s left u) (transocks_global_env_free p os t)
  unfolding end_calls
  env_last os left s t ne ee le (te, ve) =
      let onto : env_free_calls p e ++ t.trace ≡ end_calls ++ s.trace =
        rw (te, append_assoc (env_free_calls p e) (all_calls memory inet_ntop impl es) s.trace)
          refl in
      subst
        (λ x. Ends (λ _ v. AllReleased os impl p e es s left v) (transocks_global_env_free p os x))
        (λ i. record t { env = sym (ve ∙ ee) i })
        (rw (env_free-log os p e t ne) (
          le,
          refl,
          λ fd. rw (onto, count-append (close_of fd) end_calls s.trace, closes-end_calls fd) refl,
          λ fd. rw (onto, all_closes-end_calls os fd s.trace) refl,
          λ b. rw (onto, count-append (free_of b) end_calls s.trace, frees-end_calls b) refl,
        ))

-- The end of the program, with the environment and with clients that are not gone and whose addresses
-- are IPv4 or IPv6, takes the environment out of use and leaves on the list only what
-- `transocks_drop_all_clients` leaves. `close` is called once on the listening descriptor and once on
-- each of those of the clients that are dropped, with their pipes under splicepump.c, if they are
-- open; besides, a descriptor is closed with each bufferevent of these clients that has one and was
-- made with BEV_OPT_CLOSE_ON_FREE. The blocks of the environment and of these clients are freed once
-- each. Nothing else is closed or freed in these ways. `inet_ntop` has a text for each address.
pub shut_down-releases :
    (memory : Ptr → Sockaddr) (inet_ntop : ℕ → Bytes → Option Bytes) (laws : NtopLaws inet_ntop)
    (os : Os) (impl : Method) (es : List Entry) (p : Ptr) (e : GlobalEnv) (s : State)
    → p ≢ 0
    → s.env ≡ some e
    → all_listed es ≡ true
    → all_addressed memory es ≡ true
    → Ends (AllReleased os impl p e es s) (shut_down memory inet_ntop impl es p os s)
unfolding shut_down
shut_down-releases memory inet_ntop laws os impl es p e s ne ee listed addressed =
    Ends-bind
      (λ left t. (left ≡ left_by impl es) × Adds (all_calls memory inet_ntop impl es) s left t) _
      (transocks_drop_all_clients memory inet_ntop impl es os s) _ os
      (Ends-both _ _ (transocks_drop_all_clients memory inet_ntop impl es os s)
        (drop_all_clients-left memory inet_ntop laws os impl es s listed addressed)
        (drop_all-Adds memory inet_ntop laws os impl es s listed addressed))
      λ left t ht. rw (set_of p ne) (
        Ends-bind (λ _ u. AllReleased os impl p e es s left u) _ (transocks_global_env_free p os t)
          _ os (env_last memory inet_ntop impl es p e os left s t ne ee ht.0 ht.1) λ _ u hu. hu)

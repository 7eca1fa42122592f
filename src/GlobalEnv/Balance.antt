-- ===== src/GlobalEnv/Balance.antt =====
-- context.c: an environment that is made and freed leaves no block behind.
use transocks_wong.Prelude.{
  set_of, ℕ, ◌+◌, ◌++◌, refl, ◌≡◌, ◌≢◌, ◌||◌, ◌==◌, if◌then◌else◌, none, Bool-cases, inl, inr, List,
  arith,
}
use transocks_wong.Machine.{Ptr, Block, Call, GlobalEnv, Os, State, M, ◌>>=◌}
use transocks_wong.Machine.Log.{count, free_of, allocs, Balances}
use transocks_wong.Machine.Returns.{Ends}
use transocks_wong.GlobalEnv.{zero_env, transocks_global_env_new, transocks_global_env_free}
use transocks_wong.GlobalEnv.New.{
  bind_addr, relay_addr, event_base, with_base, transocks_global_env_new-outcome,
}
use transocks_wong.Signal.Deinit.{with_env}
use transocks_wong.GlobalEnv.Free.{env_free_calls, env_free-log}

-- How often an address is among the blocks of an environment that has no listener.
abbrev env_holds : Ptr → GlobalEnv → Ptr → ℕ
env_holds p e b =
    (if p == b then 1 else 0)
    + (if e.bind_addr == b then 1 else 0)
    + (if e.relay_addr == b then 1 else 0)

-- An environment is made, and freed.
abbrev pub env_life : M (Unit {0})
env_life = transocks_global_env_new >>= λ p. transocks_global_env_free p

unfoldable pub LeavesNothing : Os → State → {A : Type 0} → A → State → Type 0
LeavesNothing os s _ t = (t.env ≡ none) × Balances os s (λ _. 0) t

null_env :
    (os : Os) (s t : State)
    → t.env ≡ none
    → Balances os s (λ _. 0) t
    → Ends (LeavesNothing os s) (transocks_global_env_free 0 os t)
unfolding transocks_global_env_free LeavesNothing
null_env os s t gone bal = (gone, bal)

abbrev made : Ptr → Ptr → Ptr → GlobalEnv
made bind relay base = record zero_env {
  bind_addr = bind;
  relay_addr = relay;
  event_base_loop = base;
}

allocs-env_free_calls :
    (os : Os) (b p bind relay base : Ptr) (tr : List Call)
    → allocs os b (env_free_calls p (made bind relay base) ++ tr) ≡ allocs os b tr
unfolding allocs
allocs-env_free_calls os b p bind relay base tr = ground arith

frees-env_free_calls :
    (b p bind relay base : Ptr) (tr : List Call)
    → b ≢ 0
    → count (free_of b) (env_free_calls p (made bind relay base) ++ tr)
      ≡ env_holds p (made bind relay base) b + count (free_of b) tr
unfolding count
frees-env_free_calls b p bind relay base tr nb = ground arith

freed_again :
    (os : Os) (p bind relay base : Ptr) (s t : State)
    → p ≢ 0
    → Balances os s (env_holds p (made bind relay base)) t
    → Ends (LeavesNothing os s) (transocks_global_env_free p os (with_env (made bind relay base) t))
unfolding LeavesNothing
freed_again os p bind relay base s t ne bal = rw (env_free-log os p (made bind relay base) t ne) (
  refl,
  λ b nb. omega (
    arith,
    bal b nb,
    allocs-env_free_calls os b p bind relay base t.trace,
    frees-env_free_calls b p bind relay base t.trace nb,
  ),
)

-- An environment that `transocks_global_env_new` makes and `transocks_global_env_free` frees, or that is
-- not made, leaves nothing behind: of the blocks that the allocator gave out, each is freed as often as
-- it was given. The allocator has a block for the environment itself.
pub env_life-Balances :
    (os : Os) (s : State)
    → (os s.trace (Call.calloc Block.global_env)).ptr ≢ 0
    → Ends (LeavesNothing os s) (env_life os s)
unfolding count allocs
env_life-Balances os s h =
    rw (transocks_global_env_new-outcome os s, set_of _ h)
      (elim (Bool-cases ((bind_addr os s == 0) || (relay_addr os s == 0))) [
        | inl missing ↦ rw missing (null_env os s _ refl (λ b nb. ground arith))
        | inr both ↦ rw both (elim (Bool-cases (event_base os s == 0)) [
          | inl no_base ↦ rw no_base (null_env os s _ refl (λ b nb. ground arith))
          | inr all ↦ rw all (freed_again os _ _ _ _ s (with_base os s) h (λ b nb. ground arith))
        ])
      ])

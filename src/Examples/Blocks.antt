-- ===== src/Examples/Blocks.antt =====
-- A client and an environment that are made and freed, with a block of its own for each request.
use transocks_wong.Prelude.{◌+◌, ◌≡◌, pos, none, length, arith}
use transocks_wong.Machine.{Os}
use transocks_wong.Machine.Log.{Balances}
use transocks_wong.Machine.Returns.{Ends}
use transocks_wong.Context.Balance.{brief_life, brief_life-Balances}
use transocks_wong.GlobalEnv.Balance.{LeavesNothing, env_life, env_life-Balances}
use transocks_wong.Examples.World.{reply, still}

abbrev one_each : Os
one_each tr c = reply (pos 0) (length tr + 1)

brief_life-Balances_example :
    Ends
      (λ _ t. (t.client ≡ none) × Balances one_each still (λ _. 0) t)
      (brief_life 3 one_each still)
brief_life-Balances_example = brief_life-Balances one_each 3 still (λ e. absurd (omega (arith, e)))

env_life-Balances_example : Ends (LeavesNothing one_each still) (env_life one_each still)
env_life-Balances_example = env_life-Balances one_each still (λ e. absurd (omega (arith, e)))

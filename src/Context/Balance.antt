-- ===== src/Context/Balance.antt =====
-- context.c: a client that is made and freed leaves no block behind.
use transocks_wong.Prelude.{
  set_of, ℕ, ◌+◌, ◌++◌, refl, ◌≡◌, ◌≢◌, ◌||◌, false, ◌==◌, if◌then◌else◌, none, some, Bool-cases,
  inl, inr, List, arith,
}
use transocks_wong.Machine.{Ptr, Block, Call, Client, Os, State, M, ◌>>=◌}
use transocks_wong.Machine.Log.{live, count, count-append, free_of, allocs, Balances}
use transocks_wong.Machine.Returns.{Ends}
use transocks_wong.Context.{is_gone, transocks_client_new, transocks_client_free}
use transocks_wong.Context.Free.{free_calls, transocks_client_free-log}
use transocks_wong.Context.Releases.{one_ptr, frees-free_calls}
use transocks_wong.Context.New.{with_both, client_addr, dest_addr, transocks_client_new-outcome}

-- How often an address is among the blocks of a client that was returned, or none of them for NULL.
abbrev pub client_holds : Ptr → State → Ptr → ℕ
client_holds p t b = if p == 0 then 0 else elim t.client [
  | none ↦ 0
  | some c ↦
      (if p == b then 1 else 0)
      + (if c.client_addr == b then 1 else 0)
      + (if c.dest_addr == b then 1 else 0)
]

-- A client is made, and freed.
abbrev pub brief_life : Ptr → M (Unit {0})
brief_life env = transocks_client_new env >>= λ p. transocks_client_free p

-- No block is asked for in freeing a client.
allocs-free_calls :
    (os : Os) (b p : Ptr) (c : Client) (tr : List Call)
    → allocs os b (free_calls p c ++ tr) ≡ allocs os b tr
unfolding free_calls allocs
allocs-free_calls os b p c tr = ground arith

pub one_ptr-set : (a b : Ptr) → b ≢ 0 → one_ptr a b ≡ (if a == b then 1 else 0)
one_ptr-set a b nb = ground arith

null_client :
    (os : Os) (s t : State)
    → t.client ≡ none
    → Balances os s (λ _. 0) t
    → Ends (λ _ u. (u.client ≡ none) × Balances os s (λ _. 0) u) (transocks_client_free 0 os t)
unfolding transocks_client_free
null_client os s t gone bal = (gone, bal)

freed_again :
    (os : Os) (p : Ptr) (c : Client) (s t : State)
    → p ≢ 0
    → is_gone c.client_state ≡ false
    → Balances os s (client_holds p (live c t)) t
    → Ends
        (λ _ u. (u.client ≡ none) × Balances os s (λ _. 0) u)
        (transocks_client_free p os (live c t))
freed_again os p c s t ne g bal = rw (transocks_client_free-log os p c t ne g) (
  refl,
  λ b nb. omega (
    arith,
    rw (set_of p ne) at (bal b nb),
    allocs-free_calls os b p c t.trace,
    count-append (free_of b) (free_calls p c) t.trace,
    frees-free_calls p c b,
    one_ptr-set c.client_addr b nb,
    one_ptr-set c.dest_addr b nb,
  ),
)

-- A client that `transocks_client_new` makes and `transocks_client_free` frees, or that is not made,
-- leaves nothing behind: of the blocks that the allocator gave out, each is freed as often as it was
-- given. The allocator has a block for the client itself.
pub brief_life-Balances :
    (os : Os) (env : Ptr) (s : State)
    → (os s.trace (Call.malloc Block.client)).ptr ≢ 0
    → Ends (λ _ t. (t.client ≡ none) × Balances os s (λ _. 0) t) (brief_life env os s)
unfolding count allocs
brief_life-Balances os env s h =
    rw (transocks_client_new-outcome os env s, set_of _ h)
      (elim (Bool-cases ((client_addr os env s == 0) || (dest_addr os env s == 0))) [
        | inl missing ↦ rw missing (null_client os s _ refl (λ b nb. ground arith))
        | inr all ↦ rw all (
            freed_again os _ _ s (with_both os env s) h refl
              (λ b nb. rw (set_of _ h) (ground arith)))
      ])

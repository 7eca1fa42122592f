-- ===== src/Machine/Log.antt =====
-- What a run adds to the trace, and what can be read off a trace.
use transocks_wong.Prelude.{
  ℕ, ◌+◌, ◌≡◌, ◌≢◌, refl, arith, List, [], ◌∷◌, ◌++◌, ℤ, int_eq, ◌||◌, ◌==◌, if◌then◌else◌, Bool,
  true, false, some,
}
use transocks_wong.Machine.Calls.{Call, How, Ptr, Os}
use transocks_wong.Machine.Structs.{State, Client}

-- The state after more calls, the latest first.
abbrev pub log : List Call → State → State
log cs s = record s { trace = cs ++ s.trace }

-- The state with its client allocated.
abbrev pub live : Client → State → State
live c s = record s { client = some c }

abbrev pub when : Bool → List Call → List Call
when true cs = cs
when false cs = []

-- The calls of a trace, each by its weight.
unfoldable pub count : (Call → ℕ) → List Call → ℕ
count w [] = 0
count w (c ∷ cs) = w c + count w cs

-- How often a descriptor is closed, a block or a bufferevent freed, an event freed.
abbrev pub close_of : ℤ → Call → ℕ
close_of fd (Call.close a) = if int_eq a fd then 1 else 0
close_of fd _ = 0

abbrev pub free_of : Ptr → Call → ℕ
free_of p (Call.free a) = if a == p then 1 else 0
free_of p _ = 0

abbrev pub bev_free_of : Ptr → Call → ℕ
bev_free_of p (Call.bufferevent_free a) = if a == p then 1 else 0
bev_free_of p _ = 0

abbrev pub event_free_of : Ptr → Call → ℕ
event_free_of p (Call.event_free a) = if a == p then 1 else 0
event_free_of p _ = 0

abbrev pub closes : ℤ → List Call → ℕ
closes fd = count (close_of fd)

-- A side has ended: its reading was shut down.
unfoldable pub has_ended : ℤ → List Call → Bool
has_ended fd [] = false
has_ended fd (Call.shutdown a How.shut_rd ∷ tr) = int_eq a fd || has_ended fd tr
has_ended fd (_ ∷ tr) = has_ended fd tr

-- A side was told of the end: its writing was shut down.
unfoldable pub was_told : ℤ → List Call → Bool
was_told fd [] = false
was_told fd (Call.shutdown a How.shut_wr ∷ tr) = int_eq a fd || was_told fd tr
was_told fd (_ ∷ tr) = was_told fd tr

-- How often the allocator has given out a block at an address.
unfoldable pub allocs : Os → Ptr → List Call → ℕ
allocs os b [] = 0
allocs os b (Call.malloc k ∷ tr) =
    (if (os tr (Call.malloc k)).ptr == b then 1 else 0) + allocs os b tr
allocs os b (Call.calloc k ∷ tr) =
    (if (os tr (Call.calloc k)).ptr == b then 1 else 0) + allocs os b tr
allocs os b (c ∷ tr) = allocs os b tr

-- Of the blocks at an address that a run was given, it holds `held`, and has freed the others.
abbrev pub Balances : Os → State → (Ptr → ℕ) → State → Type 0
Balances os s held t =
    (b : Ptr)
    → b ≢ 0
    → allocs os b t.trace + count (free_of b) s.trace
      ≡ held b + count (free_of b) t.trace + allocs os b s.trace

abbrev pub only : Bool → ℕ → ℕ
only true n = n
only false n = 0

module _ (w : Call → ℕ) where
  pub count-cons : (c : Call) (cs : List Call) → count w (c ∷ cs) ≡ w c + count w cs
  unfolding count
  count-cons c cs = refl

  pub count-nil : count w [] ≡ 0
  unfolding count
  count-nil = refl

  pub count-append : (xs ys : List Call) → count w (xs ++ ys) ≡ count w xs + count w ys
  unfolding count
  count-append [] ys = omega arith
  count-append (x ∷ xs) ys = omega (arith, count-append xs ys)

  pub count-when : (b : Bool) (xs : List Call) → count w (when b xs) ≡ only b (count w xs)
  unfolding count
  count-when true xs = refl
  count-when false xs = refl

pub only-zero : (b : Bool) → only b 0 ≡ 0
only-zero true = refl
only-zero false = refl

pub ruleset counting = (count-cons, count-nil, count-append, count-when, only-zero)

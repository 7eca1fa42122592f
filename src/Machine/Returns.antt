-- ===== src/Machine/Returns.antt =====
-- Total correctness of a run: it does not fault, and its result and state satisfy `P`.
use transocks_wong.Prelude.{◌≡◌, refl}
use transocks_wong.Machine.Calls.{Os}
use transocks_wong.Machine.Structs.{State}
use transocks_wong.Machine.Monad.{Run, ok, fault, M, and_then}

pub data Returns {A : Type 0} (P : A → State → Type 0) : Run A → Type 0 where
  returns : {a : A} {s : State} → P a s → Returns P (ok a s)

module _ {A : Type 0} {P : A → State → Type 0} where
  pub bind :
      {B : Type 0} {Q : B → State → Type 0} {r : Run A} (k : A → M B) (os : Os)
      → Returns P r
      → ((a : A) (s : State) → P a s → Returns Q (k a os s))
      → Returns Q (and_then r k os)
  bind k os (returns p) next = next _ _ p

  pub mono :
      {Q : A → State → Type 0} {r : Run A}
      → Returns P r
      → ((a : A) (s : State) → P a s → Q a s)
      → Returns Q r
  mono (returns p) weaken = returns (weaken _ _ p)

-- The same by recursion, for handlers that are all case splits.
abbrev pub Ends : {A : Type 0} → (A → State → Type 0) → Run A → Type 0
Ends P (ok a s) = P a s
Ends P (fault f) = ⊥

pub Ends-bind :
    {A B : Type 0} (P : A → State → Type 0) (Q : B → State → Type 0) (r : Run A) (k : A → M B)
    (os : Os)
    → Ends P r
    → ((a : A) (s : State) → P a s → Ends Q (k a os s))
    → Ends Q (and_then r k os)
Ends-bind P Q (ok a s) k os h next = next a s h
Ends-bind P Q (fault f) k os h next = absurd h

pub Ends-mono :
    {A : Type 0} (P Q : A → State → Type 0) (r : Run A)
    → Ends P r
    → ((a : A) (s : State) → P a s → Q a s)
    → Ends Q r
Ends-mono P Q (ok a s) h weaken = weaken a s h
Ends-mono P Q (fault f) h weaken = absurd h

pub Ends-both :
    {A : Type 0} (P Q : A → State → Type 0) (r : Run A)
    → Ends P r
    → Ends Q r
    → Ends (λ a s. P a s × Q a s) r
Ends-both P Q (ok a s) h k = (h, k)
Ends-both P Q (fault f) h k = h

-- The result and the state of a run, which a later hypothesis names.
pub Ends-eq :
    {A : Type 0} (P : A → State → Type 0) (r : Run A)
    → Ends P r
    → Ends (λ a s. P a s × (r ≡ ok a s)) r
Ends-eq P (ok a s) h = (h, refl)
Ends-eq P (fault f) h = h

pub Ends-Returns : {A : Type 0} {P : A → State → Type 0} {r : Run A} → Returns P r → Ends P r
Ends-Returns (returns p) = p

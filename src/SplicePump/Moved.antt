-- ===== src/SplicePump/Moved.antt =====
-- What `splice` moves into and out of descriptors, read off a trace, and what is documented of it.
use transocks_wong.Prelude.{
  ℕ, suc, ◌+◌, ◌≤◌, ◌≡◌, ◌≢◌, ℤ, int_eq, int_eq_refl, false, if◌then◌else◌, List, [], ◌∷◌, arith,
}
use transocks_wong.Machine.{Call, Os}

abbrev pub transferred : ℤ → ℕ
transferred (ℤ.pos n) = n
transferred (ℤ.negsuc n) = 0

-- The bytes that `splice` has put into a descriptor, and has taken out of one.
unfoldable pub moved_in : Os → ℤ → List Call → ℕ
moved_in os w [] = 0
moved_in os w (Call.splice from to len ∷ tr) =
    (if int_eq to w then transferred (os tr (Call.splice from to len)).ret else 0)
    + moved_in os w tr
moved_in os w (_ ∷ tr) = moved_in os w tr

unfoldable pub moved_out : Os → ℤ → List Call → ℕ
moved_out os r [] = 0
moved_out os r (Call.splice from to len ∷ tr) =
    (if int_eq from r then transferred (os tr (Call.splice from to len)).ret else 0)
    + moved_out os r tr
moved_out os r (_ ∷ tr) = moved_out os r tr

-- The kernel's pipes: a read end, a write end and a capacity.
abbrev pub PipeTable : Type 1
PipeTable = ℤ → ℤ → ℕ → Type 0

-- What is documented of `splice` and of pipes: an error is -1, at most what was asked for is moved,
-- and a pipe that holds no more than its capacity is not filled beyond it.
pub record SpliceLaws (os : Os) (IsPipe : PipeTable) : Type 0 where
  pub error :
      (tr : List Call) (f t : ℤ) (len n : ℕ) → (os tr (Call.splice f t len)).ret ≢ ℤ.negsuc (suc n)
  pub amount :
      (tr : List Call) (f t : ℤ) (len : ℕ) → transferred (os tr (Call.splice f t len)).ret ≤ len
  pub capacity :
      (r w : ℤ) (cap : ℕ)
      → IsPipe r w cap
      → (tr : List Call) (f : ℤ) (len : ℕ) → moved_in os w tr ≤ moved_out os r tr + cap
      → moved_in os w tr + transferred (os tr (Call.splice f w len)).ret ≤ moved_out os r tr + cap

abbrev pub Differ : ℤ → ℤ → Type 0
Differ a b = int_eq a b ≡ false

module _ (os : Os) where
  pub moved_in-hit :
      (w f : ℤ) (tr : List Call) (len n : ℕ)
      → transferred (os tr (Call.splice f w len)).ret ≡ n
      → moved_in os w (Call.splice f w len ∷ tr) ≡ n + moved_in os w tr
  unfolding moved_in
  moved_in-hit w f tr len n e = rw (int_eq_refl w, e)

  pub moved_in-miss :
      (w f t : ℤ) (tr : List Call) (len : ℕ)
      → Differ t w
      → moved_in os w (Call.splice f t len ∷ tr) ≡ moved_in os w tr
  unfolding moved_in
  moved_in-miss w f t tr len e = rw e (omega arith)

  pub moved_out-hit :
      (r t : ℤ) (tr : List Call) (len n : ℕ)
      → transferred (os tr (Call.splice r t len)).ret ≡ n
      → moved_out os r (Call.splice r t len ∷ tr) ≡ n + moved_out os r tr
  unfolding moved_out
  moved_out-hit r t tr len n e = rw (int_eq_refl r, e)

  pub moved_out-miss :
      (r f t : ℤ) (tr : List Call) (len : ℕ)
      → Differ f r
      → moved_out os r (Call.splice f t len ∷ tr) ≡ moved_out os r tr
  unfolding moved_out
  moved_out-miss r f t tr len e = rw e (omega arith)

-- ===== src/SplicePump/Descriptors.antt =====
-- The descriptors that a trace leaves open, and what is documented of new ones.
use transocks_wong.Prelude.{
  ℕ, ◌^◌, ◌<◌, ◌≡◌, refl, ℤ, pos, negsuc, minus_one, is_neg, ◌⊎◌, ◌++◌, int_eq, nonzero, Bool, true,
  false, not, ◌&&◌, ◌||◌, Bool-cases, inl, inr, Option, none, some, List, [], ◌∷◌, get_or, arith,
}
use transocks_wong.Machine.{Call, Os, State}
use transocks_wong.Machine.Log.{log}
use transocks_wong.Machine.Returns.{Ends, Ends-bind}
use transocks_wong.Util.{createpipe, setnonblocking, set_nonblock_bit, int_bits}
use transocks_wong.SplicePump.Moved.{Differ, PipeTable, moved_in, moved_out}
use transocks_wong.SplicePump.Start.{size_of_int}

-- The ends of the pipe that the kernel makes after a trace.
abbrev pub read_end : Os → List Call → ℤ
read_end os tr = pos (get_or (os tr Call.pipe).out 0 0)

abbrev pub write_end : Os → List Call → ℤ
write_end os tr = pos (get_or (os tr Call.pipe).out 1 0)

-- A descriptor that a call has handed out, and that was not closed since.
unfoldable pub is_open_in : Os → ℤ → List Call → Bool
is_open_in os fd [] = false
is_open_in os fd (Call.close a ∷ tr) = not (int_eq a fd) && is_open_in os fd tr
is_open_in os fd (Call.accept l ∷ tr) = int_eq (os tr (Call.accept l)).ret fd || is_open_in os fd tr
is_open_in os fd (Call.socket f ∷ tr) = int_eq (os tr (Call.socket f)).ret fd || is_open_in os fd tr
is_open_in os fd (Call.pipe ∷ tr) =
    int_eq (read_end os tr) fd || int_eq (write_end os tr) fd || is_open_in os fd tr
is_open_in os fd (_ ∷ tr) = is_open_in os fd tr

unfoldable pub no_splice : List Call → Bool
no_splice [] = true
no_splice (Call.splice f t len ∷ tr) = false
no_splice (_ ∷ tr) = no_splice tr

-- What is documented of pipes: a new pipe's ends are no descriptors that are open, and the size of a
-- pipe is an `int`.
pub record PipeLaws (os : Os) : Type 0 where
  pub fresh :
      (tr : List Call) (fd : ℤ)
      → int_eq (os tr Call.pipe).ret minus_one ≡ false
      → is_open_in os fd tr ≡ true
      → Differ fd (read_end os tr) × Differ fd (write_end os tr)
  pub int_size :
      (tr : List Call) (fd : ℤ) (n : ℕ)
      → (os tr (Call.fcntl_getpipe_sz fd)).ret ≡ pos n
      → n < 2 ^ 31

-- The pipes that the kernel makes, with the sizes that it tells.
abbrev pub Made : Os → PipeTable
Made os r w cap =
    (made : List Call) × (asked : List Call) × (r ≡ read_end os made)
    × (w ≡ write_end os made)
    × (size_of_int (os asked (Call.fcntl_getpipe_sz r)).ret ≡ cap)

pub moved_in-none : (os : Os) (w : ℤ) (tr : List Call) → no_splice tr ≡ true → moved_in os w tr ≡ 0
unfolding moved_in no_splice
moved_in-none os w [] h = refl
moved_in-none os w (Call.splice f t len ∷ tr) h = cc
moved_in-none os w (c ∷ tr) h = moved_in-none os w tr h

pub moved_out-none :
    (os : Os) (r : ℤ) (tr : List Call) → no_splice tr ≡ true → moved_out os r tr ≡ 0
unfolding moved_out no_splice
moved_out-none os r [] h = refl
moved_out-none os r (Call.splice f t len ∷ tr) h = cc
moved_out-none os r (c ∷ tr) h = moved_out-none os r tr h

pub Differ-sym : (a b : ℤ) → Differ a b → Differ b a
Differ-sym (pos n) (pos m) h = ground arith
Differ-sym (negsuc n) (negsuc m) h = ground arith
Differ-sym (pos n) (negsuc m) h = refl
Differ-sym (negsuc n) (pos m) h = refl

-- The calls with which `createpipe` makes a pipe, the latest first.
abbrev pub flag_calls : Os → ℤ → List Call → List Call
flag_calls os fd tr =
    Call.fcntl_setfl fd (set_nonblock_bit true (int_bits (os tr (Call.fcntl_getfl fd)).ret))
    ∷ Call.fcntl_getfl fd
    ∷ []

abbrev pub pipe_calls : Os → List Call → List Call
pipe_calls os tr =
    flag_calls os (write_end os tr)
      (flag_calls os (read_end os tr) (Call.pipe ∷ tr) ++ Call.pipe ∷ tr)
    ++ flag_calls os (read_end os tr) (Call.pipe ∷ tr)
    ++ Call.pipe ∷ []

abbrev pub Opened : Os → State → Option (ℤ × ℤ) → State → Type 0
Opened os s none t = Unit {0}
Opened os s (some (rd, wr)) t =
    (rd ≡ read_end os s.trace)
    × (wr ≡ write_end os s.trace)
    × (int_eq (os s.trace Call.pipe).ret minus_one ≡ false)
    × (t ≡ log (pipe_calls os s.trace) s)

nonblocking-log :
    (os : Os) (fd : ℤ) (s : State)
    → is_neg fd ≡ false
    → Ends
        (λ e t. (nonzero e ≡ true) ⊎ ((nonzero e ≡ false) × (t ≡ log (flag_calls os fd s.trace) s)))
        (setnonblocking fd true os s)
unfolding setnonblocking
nonblocking-log os fd s h = ground arith

pub createpipe-Opened : (os : Os) (s : State) → Ends (Opened os s) (createpipe os s)
unfolding createpipe
createpipe-Opened os s = elim (Bool-cases (int_eq (os s.trace Call.pipe).ret minus_one)) [
  | inl failed ↦ rw failed tt
  | inr made ↦ rw made (
      Ends-bind _ (Opened os s) (setnonblocking (read_end os s.trace) true os _) _ os
        (nonblocking-log os (read_end os s.trace) _ refl)
        λ e t ht. elim ht [
          | inl bad ↦ rw bad tt
          | inr (fine, te) ↦
              rw (fine, te)
                (Ends-bind _ (Opened os s) (setnonblocking (write_end os s.trace) true os _) _ os
                  (nonblocking-log os (write_end os s.trace) _ refl)
                  λ e' u hu. elim hu [
                    | inl bad ↦ rw bad tt
                    | inr (fine', ue) ↦ rw fine' (refl, refl, made, ue)
                  ])
        ])
]

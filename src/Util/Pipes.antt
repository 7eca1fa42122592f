-- ===== src/Util/Pipes.antt =====
-- util.c: `createpipe` and the descriptors that it makes.
use transocks_wong.Prelude.{
  ℕ, ◌≡◌, ℤ, minus_one, int_eq, nonzero, Bool, true, false, ◌&&◌, ◌||◌, not, ◌==◌, bit_or,
  if◌then◌else◌, ◌⊎◌, none, some, Option, List, [], ◌∷◌,
}
use transocks_wong.Machine.{Call, Os, State}
use transocks_wong.Machine.Log.{closes}
use transocks_wong.Util.{o_nonblock, int_bits}

-- The flags of a descriptor, as `fcntl` gave them last.
abbrev flags_of : Os → ℤ → List Call → ℕ
flags_of os fd [] = 0
flags_of os fd (Call.fcntl_getfl a ∷ tr) =
    if int_eq a fd then int_bits (os tr (Call.fcntl_getfl a)).ret else flags_of os fd tr
flags_of os fd (_ ∷ tr) = flags_of os fd tr

-- `fcntl` has added O_NONBLOCK to these flags, and has answered 0.
abbrev pub made_nonblocking : Os → ℤ → List Call → Bool
made_nonblocking os fd [] = false
made_nonblocking os fd (Call.fcntl_setfl a flags ∷ tr) =
    (int_eq a fd
      && flags == bit_or (flags_of os fd tr) o_nonblock
      && not (nonzero (os tr (Call.fcntl_setfl a flags)).ret))
    || made_nonblocking os fd tr
made_nonblocking os fd (_ ∷ tr) = made_nonblocking os fd tr

-- The kernel has refused to make a pipe, or to give or set the flags of a descriptor.
abbrev pub has_refused : Os → List Call → Bool
has_refused os [] = false
has_refused os (Call.pipe ∷ tr) = int_eq (os tr Call.pipe).ret minus_one || has_refused os tr
has_refused os (Call.fcntl_getfl a ∷ tr) =
    int_eq (os tr (Call.fcntl_getfl a)).ret minus_one || has_refused os tr
has_refused os (Call.fcntl_setfl a flags ∷ tr) =
    nonzero (os tr (Call.fcntl_setfl a flags)).ret || has_refused os tr
has_refused os (_ ∷ tr) = has_refused os tr

abbrev pub PipeMade : Os → State → Option (ℤ × ℤ) → State → Type 0
PipeMade os s r t =
    ((fd : ℤ) → closes fd t.trace ≡ closes fd s.trace)
    × (((r ≡ none) × (has_refused os t.trace ≡ true))
        ⊎ ((rd : ℤ) × (wr : ℤ) × (r ≡ some (rd, wr))
            × (made_nonblocking os rd t.trace ≡ true)
            × (made_nonblocking os wr t.trace ≡ true)))

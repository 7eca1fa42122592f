-- ===== src/Examples/Kernel.antt =====
-- A kernel that makes new pipes, and a splice pump on it from its start on.
use transocks_wong.Prelude.{
  ℕ, suc, ◌+◌, ◌*◌, ◌≤◌, ◌<◌, ◌≡◌, ◌≢◌, refl, ℤ, pos, negsuc, minus_one, int_eq, Bool, true, false,
  Bool-cases, inl, inr, ◌⊎◌, ◌||◌, if◌then◌else◌, ltb, List, [], ◌∷◌, length, arith,
}
use transocks_wong.Machine.{Call, Os, State}
use transocks_wong.Machine.Log.{live}
use transocks_wong.Machine.Returns.{Ends}
use transocks_wong.SplicePump.{client_readcb, client_writecb, relay_readcb, relay_writecb}
use transocks_wong.SplicePump.Moved.{transferred, moved_in, moved_out, SpliceLaws}
use transocks_wong.SplicePump.Invariant.{IsHealthy}
use transocks_wong.SplicePump.Outcome.{is_plain}
use transocks_wong.SplicePump.Descriptors.{
  is_open_in, no_splice, PipeLaws, Made, moved_in-none, moved_out-none,
}
use transocks_wong.SplicePump.Life.{start_and_run}
use transocks_wong.SplicePump.Life
use transocks_wong.Examples.World.{reply, guest, still, nine}

-- Sockets are 5 and 6, and the ends of a pipe are numbered by the calls so far; the first `splice`
-- moves up to 5 bytes, and later ones none.
abbrev kernel : Os
kernel tr Call.pipe = record (reply (pos 0) 7) {
  out = (100 + 2 * length tr) ∷ (101 + 2 * length tr) ∷ [];
}
kernel tr (Call.accept l) = reply (pos 5) 7
kernel tr (Call.socket f) = reply (pos 6) 7
kernel tr (Call.fcntl_getpipe_sz fd) = reply (pos 65536) 7
kernel tr (Call.splice f t len) =
    if no_splice tr then reply (pos (if ltb len 5 then len else 5)) 7 else reply minus_one 7
kernel tr c = reply (pos 0) 7

abbrev Below : ℤ → ℕ → Type 0
Below (pos n) m = n < m
Below (negsuc n) m = Unit {0}

Below-mono : (fd : ℤ) (n m : ℕ) → Below fd n → n ≤ m → Below fd m
Below-mono (pos n) a b h le = omega arith
Below-mono (negsuc n) a b h le = tt

Below-eq : (fd : ℤ) (n m : ℕ) → int_eq (pos n) fd ≡ true → n < m → Below fd m
Below-eq (pos k) n m e lt = ground arith
Below-eq (negsuc k) n m e lt = tt

or_cases : (a b : Bool) → (a || b) ≡ true → (a ≡ true) ⊎ (b ≡ true)
or_cases true b h = inl refl
or_cases false b h = inr h

open-Below :
    (fd : ℤ) (tr : List Call) → is_open_in kernel fd tr ≡ true → Below fd (100 + 2 * length tr)
unfolding is_open_in
open-Below fd [] h = cc
open-Below fd (Call.pipe ∷ tr) h =
    elim (or_cases (int_eq (pos (100 + 2 * length tr)) fd || int_eq (pos (101 + 2 * length tr)) fd)
      (is_open_in kernel fd tr) h) [
        | inl new ↦
            elim (or_cases (int_eq (pos (100 + 2 * length tr)) fd)
              (int_eq (pos (101 + 2 * length tr)) fd) new) [
                | inl rd ↦ Below-eq fd (100 + 2 * length tr) _ rd (omega arith)
                | inr wr ↦ Below-eq fd (101 + 2 * length tr) _ wr (omega arith)
              ]
        | inr older ↦ Below-mono fd _ _ (open-Below fd tr older) (omega arith)
      ]
open-Below fd (Call.close a ∷ tr) h =
    Below-mono fd _ _ (open-Below fd tr (ground arith)) (omega arith)
open-Below fd (Call.accept l ∷ tr) h =
    elim (or_cases (int_eq (pos 5) fd) (is_open_in kernel fd tr) h) [
      | inl new ↦ Below-eq fd 5 _ new (omega arith)
      | inr older ↦ Below-mono fd _ _ (open-Below fd tr older) (omega arith)
    ]
open-Below fd (Call.socket f ∷ tr) h =
    elim (or_cases (int_eq (pos 6) fd) (is_open_in kernel fd tr) h) [
      | inl new ↦ Below-eq fd 6 _ new (omega arith)
      | inr older ↦ Below-mono fd _ _ (open-Below fd tr older) (omega arith)
    ]
open-Below fd (c ∷ tr) h = Below-mono fd _ _ (open-Below fd tr h) (omega arith)

Below-differs : (fd : ℤ) (n m : ℕ) → Below fd n → n ≤ m → int_eq fd (pos m) ≡ false
Below-differs (pos k) n m h le = ground arith
Below-differs (negsuc k) n m h le = refl

kernel-PipeLaws : PipeLaws kernel
kernel-PipeLaws = record {
  fresh = λ tr fd made h. (
    Below-differs fd _ _ (open-Below fd tr h) (omega arith),
    Below-differs fd _ _ (open-Below fd tr h) (omega arith),
  );
  int_size = λ tr fd n e. ground arith;
}

kernel-error :
    (tr : List Call) (f t : ℤ) (len n : ℕ) → (kernel tr (Call.splice f t len)).ret ≢ negsuc (suc n)
kernel-error tr f t len n = elim (Bool-cases (no_splice tr)) [
  | inl first ↦ rw first (ground arith)
  | inr later ↦ rw later (ground arith)
]

kernel-amount :
    (tr : List Call) (f t : ℤ) (len : ℕ) → transferred (kernel tr (Call.splice f t len)).ret ≤ len
kernel-amount tr f t len = elim (Bool-cases (no_splice tr)) [
  | inl first ↦ rw first (ground arith)
  | inr later ↦ rw later (omega arith)
]

kernel-capacity :
    (r w : ℤ) (cap : ℕ)
    → Made kernel r w cap
    → (tr : List Call) (f : ℤ) (len : ℕ) → moved_in kernel w tr ≤ moved_out kernel r tr + cap
    → moved_in kernel w tr + transferred (kernel tr (Call.splice f w len)).ret
      ≤ moved_out kernel r tr + cap
kernel-capacity r w cap made tr f len h = elim (Bool-cases (no_splice tr)) [
  | inl first ↦
      rw (first, moved_in-none kernel w tr first, moved_out-none kernel r tr first)
        (room cap made.4 len)
  | inr later ↦ rw later (omega arith)
]
  where
    room :
        (cap : ℕ)
        → 65536 ≡ cap
        → (len : ℕ) → 0 + transferred (pos (if ltb len 5 then len else 5)) ≤ 0 + cap
    room cap e len = ground arith

kernel-SpliceLaws : SpliceLaws kernel (Made kernel)
kernel-SpliceLaws = record {
  error = kernel-error;
  amount = kernel-amount;
  capacity = kernel-capacity;
}

-- The client's socket was accepted, and the relay's made.
abbrev arrived : State
arrived = record still { trace = Call.socket 2 ∷ Call.accept (pos 4) ∷ [] }

start_and_run-IsHealthy_example :
    Ends
      (λ _ t. IsHealthy kernel (Made kernel) t ⊎ (is_plain t ≡ true))
      (start_and_run 9
        (client_readcb ∷ relay_writecb ∷ relay_readcb ∷ client_writecb ∷ [])
        kernel
        (live guest arrived))
unfolding is_open_in no_splice
start_and_run-IsHealthy_example =
    Life.start_and_run-IsHealthy kernel kernel-PipeLaws 9
      (client_readcb ∷ relay_writecb ∷ relay_readcb ∷ client_writecb ∷ []) guest arrived
      kernel-SpliceLaws nine refl (refl, refl, refl, refl)

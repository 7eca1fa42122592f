-- ===== src/Context/Releases.antt =====
-- What a client gives back, counted: descriptors, blocks and bufferevents.
use native.Mathlib.Nat.{zero-add, add-zero}
use transocks_wong.Prelude.{
  List, ℕ, ◌+◌, ◌≡◌, ◌≢◌, refl, ℤ, int_eq, ◌==◌, true, false, if◌then◌else◌, none, arith,
}
use transocks_wong.Machine.{Ptr, Call, How, Os, Client, State, ok}
use transocks_wong.Machine.Log.{
  live, log, count, only, close_of, free_of, bev_free_of, closes, counting, count-append,
}
use transocks_wong.Machine.Closes.{shut_by, all_closes, remakes, close_at, all_closes-append}
use transocks_wong.Context.{is_gone, transocks_client_free}
use transocks_wong.Context.Free.{is_open, is_set, free_calls, transocks_client_free-log}

-- 1 for a descriptor that is open and is `fd`, and for an address that is set and is `b`.
abbrev pub one_fd : ℤ → ℤ → ℕ
one_fd a fd = only (is_open a) (if int_eq a fd then 1 else 0)

abbrev pub one_ptr : Ptr → Ptr → ℕ
one_ptr a b = only (is_set a) (if a == b then 1 else 0)

module _ (p : Ptr) (c : Client) where
  pub closes-free_calls :
      (fd : ℤ) → closes fd (free_calls p c) ≡ one_fd c.client_fd fd + one_fd c.relay_fd fd
  unfolding free_calls
  closes-free_calls fd = simp (counting, zero-add, add-zero) (omega arith)

  pub frees-free_calls :
      (b : Ptr)
      → count (free_of b) (free_calls p c)
        ≡ (if p == b then 1 else 0) + one_ptr c.client_addr b + one_ptr c.dest_addr b
  unfolding free_calls
  frees-free_calls b = simp (counting, zero-add, add-zero) (omega arith)

  pub bev_frees-free_calls :
      (b : Ptr)
      → count (bev_free_of b) (free_calls p c) ≡ one_ptr c.client_bev b + one_ptr c.relay_bev b
  unfolding free_calls
  bev_frees-free_calls b = simp (counting, zero-add, add-zero)

-- The call tells a side of the end.
abbrev pub shut_wr_of : Call → ℕ
shut_wr_of (Call.shutdown fd How.shut_wr) = 1
shut_wr_of _ = 0

pub shut_wr-free_calls : (p : Ptr) (c : Client) → count shut_wr_of (free_calls p c) ≡ 0
unfolding free_calls
shut_wr-free_calls p c = simp (counting, zero-add)

-- What is closed with a bufferevent, if there is one.
abbrev pub shut_with : Os → ℤ → Ptr → List Call → ℕ
shut_with os fd bev tr = only (is_set bev) (shut_by os fd bev tr)

module _ (p : Ptr) (c : Client) where
  pub remakes-free_calls : count remakes (free_calls p c) ≡ 0
  unfolding free_calls
  remakes-free_calls = simp (counting, zero-add)

  pub all_closes-free_calls :
      (os : Os) (fd : ℤ) (tr : List Call)
      → count (close_at os fd tr) (free_calls p c)
        ≡ one_fd c.client_fd fd
          + one_fd c.relay_fd fd
          + shut_with os fd c.client_bev tr
          + shut_with os fd c.relay_bev tr
  unfolding free_calls
  all_closes-free_calls os fd tr = simp (counting, zero-add, add-zero) (omega arith)

-- `transocks_client_free` on a client that is not yet gone frees the client's block and takes it out
-- of use. It calls `close` on each open descriptor of the client once, and `bufferevent_free` on each of
-- its two bufferevents once, which closes a bufferevent's own descriptor too, if it was made with
-- BEV_OPT_CLOSE_ON_FREE: a descriptor that the client and a bufferevent have is closed twice. Each of
-- the two address blocks is freed once; nothing else is closed or freed in these ways.
pub transocks_client_free-releases :
    (os : Os) (p : Ptr) (c : Client) (s : State)
    → p ≢ 0
    → is_gone c.client_state ≡ false
    → (t : State) × (transocks_client_free p os (live c s) ≡ ok tt t)
      × (t.client ≡ none)
      × ((fd : ℤ)
          → closes fd t.trace ≡ one_fd c.client_fd fd + one_fd c.relay_fd fd + closes fd s.trace)
      × ((fd : ℤ)
          → all_closes os fd t.trace
            ≡ one_fd c.client_fd fd
              + one_fd c.relay_fd fd
              + shut_with os fd c.client_bev s.trace
              + shut_with os fd c.relay_bev s.trace
              + all_closes os fd s.trace)
      × ((b : Ptr)
          → count (free_of b) t.trace
            ≡ (if p == b then 1 else 0)
              + one_ptr c.client_addr b
              + one_ptr c.dest_addr b
              + count (free_of b) s.trace)
      × ((b : Ptr)
          → count (bev_free_of b) t.trace
            ≡ one_ptr c.client_bev b + one_ptr c.relay_bev b + count (bev_free_of b) s.trace)
transocks_client_free-releases os p c s h g = (
  log (free_calls p c) (record s { client = none }),
  transocks_client_free-log os p c s h g,
  refl,
  λ fd. rw (count-append (close_of fd) (free_calls p c) s.trace, closes-free_calls p c fd),
  λ fd. rw (
    all_closes-append os fd (free_calls p c) s.trace (remakes-free_calls p c),
    all_closes-free_calls p c os fd s.trace,
  ),
  λ b. rw (count-append (free_of b) (free_calls p c) s.trace, frees-free_calls p c b),
  λ b. rw (count-append (bev_free_of b) (free_calls p c) s.trace, bev_frees-free_calls p c b),
)

-- A client that is being freed, or was, is left alone, and so is NULL.
pub transocks_client_free_gone :
    (os : Os) (p : Ptr) (c : Client) (s : State)
    → is_gone c.client_state ≡ true
    → transocks_client_free p os (live c s) ≡ ok tt (live c s)
unfolding transocks_client_free
transocks_client_free_gone os p c s g = ground arith

-- ===== src/Machine/Closes.antt =====
-- Which descriptors libevent closes with a bufferevent that was made with BEV_OPT_CLOSE_ON_FREE.
use transocks_wong.Prelude.{
  ℕ, ◌+◌, ◌≡◌, refl, arith, List, [], ◌∷◌, ◌++◌, ℤ, int_eq, is_neg, minus_one, ◌==◌, if◌then◌else◌,
}
use transocks_wong.Machine.Calls.{Call, Ptr, Os}
use transocks_wong.Machine.Log.{count}
use transocks_wong.Macros.{transocks_chkbit, bev_opt_close_on_free}

-- The options of a bufferevent, and the descriptor that it has.
unfoldable pub options_of : Os → Ptr → List Call → ℕ
options_of os bev [] = 0
options_of os bev (Call.bufferevent_socket_new fd options ∷ tr) =
    if (os tr (Call.bufferevent_socket_new fd options)).ptr == bev
    then options
    else options_of os bev tr
options_of os bev (_ ∷ tr) = options_of os bev tr

unfoldable pub held_by : Os → Ptr → List Call → ℤ
held_by os bev [] = minus_one
held_by os bev (Call.bufferevent_socket_new fd options ∷ tr) =
    if (os tr (Call.bufferevent_socket_new fd options)).ptr == bev then fd else held_by os bev tr
held_by os bev (Call.bufferevent_setfd b fd ∷ tr) = if b == bev then fd else held_by os bev tr
held_by os bev (_ ∷ tr) = held_by os bev tr

-- 1 if `bufferevent_free` closes the descriptor with the bufferevent.
abbrev pub shut_by : Os → ℤ → Ptr → List Call → ℕ
shut_by os fd bev tr =
    if transocks_chkbit (options_of os bev tr) bev_opt_close_on_free
    then (if is_neg (held_by os bev tr) then 0 else if int_eq (held_by os bev tr) fd then 1 else 0)
    else 0

-- How often a descriptor is closed, by `close` or with a bufferevent.
unfoldable pub all_closes : Os → ℤ → List Call → ℕ
all_closes os fd [] = 0
all_closes os fd (Call.close a ∷ tr) = (if int_eq a fd then 1 else 0) + all_closes os fd tr
all_closes os fd (Call.bufferevent_free b ∷ tr) = shut_by os fd b tr + all_closes os fd tr
all_closes os fd (_ ∷ tr) = all_closes os fd tr

-- The calls that give a bufferevent a descriptor.
abbrev pub remakes : Call → ℕ
remakes (Call.bufferevent_socket_new _ _) = 1
remakes (Call.bufferevent_setfd _ _) = 1
remakes _ = 0

-- The closes of a call, if the bufferevents are as they are after `tr`.
abbrev pub close_at : Os → ℤ → List Call → Call → ℕ
close_at os fd tr (Call.close a) = if int_eq a fd then 1 else 0
close_at os fd tr (Call.bufferevent_free b) = shut_by os fd b tr
close_at os fd tr _ = 0

module _ (os : Os) where
  options_of-append :
      (bev : Ptr) (cs tr : List Call)
      → count remakes cs ≡ 0
      → options_of os bev (cs ++ tr) ≡ options_of os bev tr
  unfolding options_of count
  options_of-append bev [] tr z = refl
  options_of-append bev (Call.bufferevent_socket_new fd options ∷ cs) tr z = absurd (omega arith)
  options_of-append bev (Call.bufferevent_setfd b fd ∷ cs) tr z = absurd (omega arith)
  options_of-append bev (c ∷ cs) tr z = options_of-append bev cs tr (omega arith)

  held_by-append :
      (bev : Ptr) (cs tr : List Call)
      → count remakes cs ≡ 0
      → held_by os bev (cs ++ tr) ≡ held_by os bev tr
  unfolding held_by count
  held_by-append bev [] tr z = refl
  held_by-append bev (Call.bufferevent_socket_new fd options ∷ cs) tr z = absurd (omega arith)
  held_by-append bev (Call.bufferevent_setfd b fd ∷ cs) tr z = absurd (omega arith)
  held_by-append bev (c ∷ cs) tr z = held_by-append bev cs tr (omega arith)

  shut_by-append :
      (fd : ℤ) (bev : Ptr) (cs tr : List Call)
      → count remakes cs ≡ 0
      → shut_by os fd bev (cs ++ tr) ≡ shut_by os fd bev tr
  shut_by-append fd bev cs tr z = rw (options_of-append bev cs tr z, held_by-append bev cs tr z)

  -- What calls that give no bufferevent a descriptor add to the closes.
  pub all_closes-append :
      (fd : ℤ) (cs tr : List Call)
      → count remakes cs ≡ 0
      → all_closes os fd (cs ++ tr) ≡ count (close_at os fd tr) cs + all_closes os fd tr
  unfolding all_closes count
  all_closes-append fd [] tr z = omega arith
  all_closes-append fd (Call.bufferevent_socket_new a options ∷ cs) tr z = absurd (omega arith)
  all_closes-append fd (Call.bufferevent_setfd b a ∷ cs) tr z = absurd (omega arith)
  all_closes-append fd (Call.close a ∷ cs) tr z =
      omega (arith, all_closes-append fd cs tr (omega arith))
  all_closes-append fd (Call.bufferevent_free b ∷ cs) tr z =
      omega
        (arith, all_closes-append fd cs tr (omega arith), shut_by-append fd b cs tr (omega arith))
  all_closes-append fd (c ∷ cs) tr z = omega (arith, all_closes-append fd cs tr (omega arith))

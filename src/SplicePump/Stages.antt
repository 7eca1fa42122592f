-- ===== src/SplicePump/Stages.antt =====
-- splicepump.c: what is known after each step of the start of a pump.
use transocks_wong.Prelude.{
  ◌<◌, ◌≡◌, ◌≢◌, refl, sym, subst, ℤ, int_eq, Bool, true, false, ◌||◌, ◌⊎◌, inl, inr, some, List,
  ◌++◌,
}
use transocks_wong.Machine.{Call, Os, Client, SplicePipe, SplicePump, State, M, ◌>>?◌}
use transocks_wong.Machine.Returns.{Ends, Ends-bind}
use transocks_wong.Context.{is_gone}
use transocks_wong.SplicePump.{size_mod}
use transocks_wong.SplicePump.Start.{size_of_int}
use transocks_wong.SplicePump.Free.{both}
use transocks_wong.SplicePump.Results.{State-both}
use transocks_wong.SplicePump.Moved.{Differ}
use transocks_wong.SplicePump.Descriptors.{read_end, write_end, is_open_in, no_splice, pipe_calls}

-- What is known of the client, its pump and the trace after each step.
abbrev pub Begun : Os → Client → SplicePump → List Call → Type 0
Begun os c q tr =
    (c.user_arg ≢ 0)
    × (is_gone c.client_state ≡ false)
    × (q.inbound_pipe.data_in_pipe ≡ 0)
    × (q.outbound_pipe.data_in_pipe ≡ 0)
    × (no_splice tr ≡ true)
    × (is_open_in os c.client_fd tr ≡ true)
    × (is_open_in os c.relay_fd tr ≡ true)

-- A pipe whose ends are open and are not the sockets.
abbrev pub Piped : Os → Client → SplicePipe → List Call → Type 0
Piped os c pipe tr =
    ((made : List Call) × (pipe.pipe_readfd ≡ read_end os made)
      × (pipe.pipe_writefd ≡ write_end os made))
    × (Differ c.client_fd pipe.pipe_readfd)
    × (Differ c.client_fd pipe.pipe_writefd)
    × (Differ c.relay_fd pipe.pipe_readfd)
    × (Differ c.relay_fd pipe.pipe_writefd)
    × (is_open_in os pipe.pipe_readfd tr ≡ true)
    × (is_open_in os pipe.pipe_writefd tr ≡ true)

abbrev pub Crossed : SplicePump → Type 0
Crossed q =
    (Differ q.inbound_pipe.pipe_readfd q.outbound_pipe.pipe_readfd)
    × (Differ q.inbound_pipe.pipe_writefd q.outbound_pipe.pipe_writefd)

abbrev pub Sized : Os → SplicePipe → Type 0
Sized os pipe =
    (asked : List Call) × (size_of_int (os asked (Call.fcntl_getpipe_sz pipe.pipe_readfd)).ret
      ≡ pipe.capacity)
    × (pipe.capacity < size_mod)

abbrev pub Stage : Type 1
Stage = Client → SplicePump → List Call → Type 0

abbrev pub OnePiped : Os → Stage
OnePiped os c q tr = Begun os c q tr × Piped os c q.inbound_pipe tr

abbrev pub TwoPiped : Os → Stage
TwoPiped os c q tr =
    Begun os c q tr × Piped os c q.inbound_pipe tr × Piped os c q.outbound_pipe tr × Crossed q

abbrev pub OneSized : Os → Stage
OneSized os c q tr = TwoPiped os c q tr × Sized os q.inbound_pipe

abbrev pub TwoSized : Os → Stage
TwoSized os c q tr = TwoPiped os c q tr × Sized os q.inbound_pipe × Sized os q.outbound_pipe

abbrev pub At : Stage → State → Type 0
At K s = (c : Client) × (q : SplicePump) × (s.client ≡ some c) × (s.pump ≡ some q) × K c q s.trace

abbrev pub Unless : Stage → Bool → State → Type 0
Unless K good t = (good ≡ false) ⊎ At K t

unfoldable pub Passes : Os → Stage → Stage → M Bool → Type 0
Passes os K L m =
    (c : Client) (q : SplicePump) (s : State) → K c q s.trace → Ends (Unless L) (m os (both c q s))

pub then-Passes :
    (os : Os) (K L N : Stage) (m k : M Bool)
    → Passes os K L m
    → Passes os L N k
    → Passes os K N (m >>? k)
unfolding Passes
then-Passes os K L N m k hm hk c q s h =
    Ends-bind (Unless L) (Unless N) (m os (both c q s)) _ os (hm c q s h) (elim [
      | false ↦ λ t ht. inl refl
      | true ↦ λ t ht. elim ht [
        | inl e ↦ cc
        | inr (c', q', ce, pe, l) ↦
            subst (λ u. Ends (Unless N) (k os u)) (sym (State-both t ce pe)) (hk c' q' t l)
      ]
    ])

pub any_of_three : (a b x : Bool) → x ≡ true → (a || b || x) ≡ true
any_of_three true b x h = refl
any_of_three false true x h = refl
any_of_three false false x h = h

-- A descriptor stays open while a pipe is made.
pub open_kept :
    (os : Os) (fd : ℤ) (tr : List Call)
    → is_open_in os fd tr ≡ true
    → is_open_in os fd (pipe_calls os tr ++ tr) ≡ true
unfolding is_open_in
open_kept os fd tr h = any_of_three (int_eq (read_end os tr) fd) (int_eq (write_end os tr) fd) _ h

abbrev pub opened : Os → List Call → SplicePipe → SplicePipe
opened os tr pipe = record pipe { pipe_readfd = read_end os tr; pipe_writefd = write_end os tr }

pub Begun-kept :
    (os : Os) (c : Client) (q : SplicePump) (tr : List Call)
    → Begun os c q tr
    → Begun os c q (pipe_calls os tr ++ tr)
unfolding no_splice
Begun-kept os c q tr (u, g, i, o, n, co, ro) =
    (u, g, i, o, n, open_kept os c.client_fd tr co, open_kept os c.relay_fd tr ro)

pub Piped-kept :
    (os : Os) (c : Client) (pipe : SplicePipe) (tr : List Call)
    → Piped os c pipe tr
    → Piped os c pipe (pipe_calls os tr ++ tr)
Piped-kept os c pipe tr (m, a, b, d, e, ro, wo) =
    (m, a, b, d, e, open_kept os pipe.pipe_readfd tr ro, open_kept os pipe.pipe_writefd tr wo)

-- The client before its pump starts.
abbrev pub Waits : Os → Client → List Call → Type 0
Waits os c tr =
    (is_gone c.client_state ≡ false)
    × (no_splice tr ≡ true)
    × (is_open_in os c.client_fd tr ≡ true)
    × (is_open_in os c.relay_fd tr ≡ true)

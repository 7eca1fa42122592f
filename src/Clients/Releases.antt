-- ===== src/Clients/Releases.antt =====
-- context.c: what `transocks_drop_all_clients` gives back of all clients together.
use native.Mathlib.Nat.{zero-add, add-zero}
use mathlib.Core.List.{append_assoc}
use transocks_wong.Prelude.{
  ℕ, ◌+◌, ℤ, ◌≡◌, refl, ◌∙◌, ap, true, false, ◌==◌, if◌then◌else◌, Bool-cases, Option, none, some,
  List, [], ◌∷◌, ◌++◌, arith, inl, inr,
}
use transocks_wong.Machine.{Ptr, Bytes, Sockaddr, Call, Os, Client, SplicePump, State}
use transocks_wong.Machine.Log.{
  log, count, closes, free_of, counting, count-append, count-nil, close_of,
}
use transocks_wong.Machine.Closes.{remakes, close_at}
use transocks_wong.Machine.Returns.{Ends, Ends-bind}
use transocks_wong.Macros.{ev_read_write}
use transocks_wong.Context.Free.{free_calls, transocks_client_free-log}
use transocks_wong.Context.Releases.{
  one_fd, one_ptr, closes-free_calls, frees-free_calls, shut_with, remakes-free_calls,
  all_closes-free_calls,
}
use transocks_wong.Pump.{Method, splicepump, bufferpump, transocks_pump_free}
use transocks_wong.BufferPump.{transocks_bufferpump_free}
use transocks_wong.SplicePump.{transocks_splicepump_free}
use transocks_wong.SplicePump.Free.{splice_free_calls, transocks_splicepump_free-log}
use transocks_wong.SplicePump.Releases.{
  pipe_fds, closes-splice_free_calls, frees-splice_free_calls, remakes-splice_free_calls,
  all_closes-splice_free_calls,
}
use transocks_wong.Clients.{Entry, transocks_drop_all_clients}
use transocks_wong.Util.Texts.{codes}
use transocks_wong.Util.Ports.{NtopLaws}
use transocks_wong.Clients.Listed.{is_listed, all_listed, all_addressed}
use transocks_wong.Clients.Lines.{
  printed, printed-onto, count-printed, dump_lines, pump_dump-prints,
}
use transocks_wong.Clients.DropAll.{announced}

abbrev entry : Ptr → Option Client → Option SplicePump → Entry
entry a oc oq = record { address = a; client = oc; pump = oq }

-- A client gives back its own resources, under splicepump.c only with those of its pump.
abbrev pub spliced : {A : Type 0} → A → Client → Option SplicePump → (SplicePump → A) → A
spliced nothing c none f = nothing
spliced nothing c (some q) f = if c.user_arg == 0 then nothing else f q

abbrev pub buffer_free_calls : Ptr → Client → List Call
buffer_free_calls p c =
    free_calls p c
    ++ Call.bufferevent_disable c.relay_bev ev_read_write
      ∷ Call.bufferevent_disable c.client_bev ev_read_write
      ∷ []

abbrev pub entry_calls : Method → Ptr → Option Client → Option SplicePump → List Call
entry_calls impl a none oq = []
entry_calls bufferpump a (some c) oq = buffer_free_calls a c
entry_calls splicepump a (some c) oq = spliced [] c oq (splice_free_calls a c)

-- The trace of the entry's end, with the environment as it was.
abbrev pub Adds : List Call → State → {A : Type 0} → A → State → Type 0
Adds cs s _ t = (t.trace ≡ cs ++ s.trace) × (t.env ≡ s.env)

plain-Adds :
    (os : Os) (a : Ptr) (c : Client) (oq : Option SplicePump) (s : State)
    → (a == 0) ≡ false
    → (c.user_arg == 0) ≡ true
    → Ends (Adds [] s) (transocks_splicepump_free a os (record s { client = some c; pump = oq }))
unfolding transocks_splicepump_free
plain-Adds os a c oq s h plain = rw (h, plain) (refl, refl)

entry-Adds :
    (os : Os) (impl : Method) (a : Ptr) (oc : Option Client) (oq : Option SplicePump) (s : State)
    → is_listed (entry a oc oq) ≡ true
    → Ends
        (Adds (entry_calls impl a oc oq) s)
        (transocks_pump_free impl a os (record s { client = oc; pump = oq }))
unfolding transocks_pump_free transocks_bufferpump_free
entry-Adds os impl a none oq s h = absurd (ground arith)
entry-Adds os bufferpump a (some c) oq s h =
    let t =
      log
        (Call.bufferevent_disable c.relay_bev ev_read_write
          ∷ Call.bufferevent_disable c.client_bev ev_read_write
          ∷ [])
        (record s { pump = oq }) in
    let zero : (a == 0) ≡ false = ground arith in
    rw (zero, transocks_client_free-log os a c t (ground arith) (ground arith))
      (simp append_assoc (refl, refl))
entry-Adds os splicepump a (some c) none s h =
    plain-Adds os a c none s (ground arith) (ground arith)
entry-Adds os splicepump a (some c) (some q) s h = elim (Bool-cases (c.user_arg == 0)) [
  | inl plain ↦ rw plain (plain-Adds os a c (some q) s (ground arith) plain)
  | inr pumped ↦
      rw (transocks_splicepump_free-log os a c q s (ground arith) (ground arith) (ground arith))
        (rw pumped (refl, refl))
]

module _ (memory : Ptr → Sockaddr) (inet_ntop : ℕ → Bytes → Option Bytes) where
  -- What is printed of an entry, the latest line first.
  abbrev print_calls : Method → Entry → List Call
  print_calls impl e =
      printed (dump_lines memory inet_ntop impl (codes "close connection") e.client e.pump) []

  -- What the entries of the list print and give back, the first entry first.
  abbrev pub all_calls : Method → List Entry → List Call
  all_calls impl [] = []
  all_calls impl (e ∷ es) =
      all_calls impl es ++ (entry_calls impl e.address e.client e.pump ++ print_calls impl e)

  pub drop_all-Adds :
      (laws : NtopLaws inet_ntop) (os : Os) (impl : Method) (es : List Entry) (s : State)
      → all_listed es ≡ true
      → all_addressed memory es ≡ true
      → Ends (Adds (all_calls impl es) s) (transocks_drop_all_clients memory inet_ntop impl es os s)
  unfolding transocks_drop_all_clients
  drop_all-Adds laws os impl [] s h k = (refl, refl)
  drop_all-Adds laws os impl (e ∷ es) s h k =
      let v = announced memory inet_ntop impl e s in
      rw
        (pump_dump-prints memory inet_ntop laws os impl (codes "close connection") e.address
          e.client e.pump s (ground arith) (ground arith))
        (Ends-bind (Adds (entry_calls impl e.address e.client e.pump) v) _
          (transocks_pump_free impl e.address os v) _ os
          (entry-Adds os impl e.address e.client e.pump v (ground arith))
          λ _ t ht.
            Ends-bind (Adds (all_calls impl es) t) _
              (transocks_drop_all_clients memory inet_ntop impl es os t) _ os
              (drop_all-Adds laws os impl es t (ground arith) (ground arith))
              λ left u hu. (
                hu.0
                    ∙ ap (λ tr. all_calls impl es ++ tr) ht.0
                    ∙ simp (
                      append_assoc,
                      printed-onto
                          (dump_lines memory inet_ntop impl (codes "close connection") e.client
                            e.pump)
                          s.trace,
                    ),
                hu.1 ∙ ht.1,
              ))

-- How often a descriptor is among those of the entries, and a block among theirs.
abbrev pub client_fds : Client → ℤ → ℕ
client_fds c fd = one_fd c.client_fd fd + one_fd c.relay_fd fd

abbrev pub client_blocks : Ptr → Client → Ptr → ℕ
client_blocks p c b = (if p == b then 1 else 0) + one_ptr c.client_addr b + one_ptr c.dest_addr b

abbrev pub entry_fds : Method → ℤ → Ptr → Option Client → Option SplicePump → ℕ
entry_fds impl fd a none oq = 0
entry_fds bufferpump fd a (some c) oq = client_fds c fd
entry_fds splicepump fd a (some c) oq =
    spliced 0 c oq (λ q. client_fds c fd + pipe_fds q.inbound_pipe fd + pipe_fds q.outbound_pipe fd)

abbrev pub entry_blocks : Method → Ptr → Ptr → Option Client → Option SplicePump → ℕ
entry_blocks impl b a none oq = 0
entry_blocks bufferpump b a (some c) oq = client_blocks a c b
entry_blocks splicepump b a (some c) oq = spliced 0 c oq (λ q.
    client_blocks a c b
    + (if c.user_arg == b then 1 else 0)
    + one_ptr q.inbound_pipe.block b
    + one_ptr q.outbound_pipe.block b)

abbrev sum_of : (Entry → ℕ) → List Entry → ℕ
sum_of of [] = 0
sum_of of (e ∷ es) = of e + sum_of of es

sum_of-zero : (es : List Entry) → sum_of (λ e. 0) es ≡ 0
sum_of-zero [] = refl
sum_of-zero (e ∷ es) = omega (arith, sum_of-zero es)

sum_of-add :
    (f g : Entry → ℕ) (es : List Entry) → sum_of (λ e. f e + g e) es ≡ sum_of f es + sum_of g es
sum_of-add f g [] = refl
sum_of-add f g (e ∷ es) = omega (arith, sum_of-add f g es)

abbrev pub all_fds : Method → ℤ → List Entry → ℕ
all_fds impl fd = sum_of (λ e. entry_fds impl fd e.address e.client e.pump)

abbrev pub all_blocks : Method → Ptr → List Entry → ℕ
all_blocks impl b = sum_of (λ e. entry_blocks impl b e.address e.client e.pump)

-- What is closed with the bufferevents of the entries.
abbrev pub client_shut : Os → ℤ → Client → List Call → ℕ
client_shut os fd c tr = shut_with os fd c.client_bev tr + shut_with os fd c.relay_bev tr

abbrev pub entry_shut : Method → Os → ℤ → Option Client → Option SplicePump → List Call → ℕ
entry_shut impl os fd none oq tr = 0
entry_shut bufferpump os fd (some c) oq tr = client_shut os fd c tr
entry_shut splicepump os fd (some c) oq tr = spliced 0 c oq (λ q. client_shut os fd c tr)

abbrev pub all_shut : Method → Os → ℤ → List Entry → List Call → ℕ
all_shut impl os fd es tr = sum_of (λ e. entry_shut impl os fd e.client e.pump tr) es

closes-entry_calls :
    (impl : Method) (fd : ℤ) (a : Ptr) (oc : Option Client) (oq : Option SplicePump)
    → closes fd (entry_calls impl a oc oq) ≡ entry_fds impl fd a oc oq
closes-entry_calls impl fd a none oq = simp counting
closes-entry_calls bufferpump fd a (some c) oq =
    simp (counting, closes-free_calls, zero-add, add-zero)
closes-entry_calls splicepump fd a (some c) none = simp counting
closes-entry_calls splicepump fd a (some c) (some q) = elim (Bool-cases (c.user_arg == 0)) [
  | inl plain ↦ rw plain (simp counting)
  | inr pumped ↦ rw pumped (closes-splice_free_calls a c q fd)
]

frees-entry_calls :
    (impl : Method) (b a : Ptr) (oc : Option Client) (oq : Option SplicePump)
    → count (free_of b) (entry_calls impl a oc oq) ≡ entry_blocks impl b a oc oq
frees-entry_calls impl b a none oq = simp counting
frees-entry_calls bufferpump b a (some c) oq = simp (counting, frees-free_calls, zero-add, add-zero)
frees-entry_calls splicepump b a (some c) none = simp counting
frees-entry_calls splicepump b a (some c) (some q) = elim (Bool-cases (c.user_arg == 0)) [
  | inl plain ↦ rw plain (simp counting)
  | inr pumped ↦ rw pumped (frees-splice_free_calls a c q b)
]

remakes-entry_calls :
    (impl : Method) (a : Ptr) (oc : Option Client) (oq : Option SplicePump)
    → count remakes (entry_calls impl a oc oq) ≡ 0
remakes-entry_calls impl a none oq = simp counting
remakes-entry_calls bufferpump a (some c) oq = simp (counting, remakes-free_calls, zero-add)
remakes-entry_calls splicepump a (some c) none = simp counting
remakes-entry_calls splicepump a (some c) (some q) = elim (Bool-cases (c.user_arg == 0)) [
  | inl plain ↦ rw plain (simp counting)
  | inr pumped ↦ rw pumped (remakes-splice_free_calls a c q)
]

all_closes-entry_calls :
    (impl : Method) (os : Os) (fd : ℤ) (tr : List Call) (a : Ptr) (oc : Option Client)
    (oq : Option SplicePump)
    → count (close_at os fd tr) (entry_calls impl a oc oq)
      ≡ entry_fds impl fd a oc oq + entry_shut impl os fd oc oq tr
all_closes-entry_calls impl os fd tr a none oq = simp counting
all_closes-entry_calls bufferpump os fd tr a (some c) oq =
    simp (counting, all_closes-free_calls, zero-add, add-zero) (omega arith)
all_closes-entry_calls splicepump os fd tr a (some c) none = simp counting
all_closes-entry_calls splicepump os fd tr a (some c) (some q) =
    elim (Bool-cases (c.user_arg == 0)) [
      | inl plain ↦ rw plain (simp counting)
      | inr pumped ↦ rw (pumped, all_closes-splice_free_calls a c q os fd tr) (omega arith)
    ]

module _ (memory : Ptr → Sockaddr) (inet_ntop : ℕ → Bytes → Option Bytes) where
  -- What a weight that printing does not have comes to over all entries.
  count-all_calls :
      (w : Call → ℕ) (of : Entry → ℕ) (impl : Method)
      → ((l : Bytes) → w (Call.fprintf l) ≡ 0)
      → ((e : Entry) → count w (entry_calls impl e.address e.client e.pump) ≡ of e)
      → (es : List Entry) → count w (all_calls memory inet_ntop impl es) ≡ sum_of of es
  count-all_calls w of impl quiet each [] = simp counting
  count-all_calls w of impl quiet each (e ∷ es) = omega (
    arith,
    count-append w (all_calls memory inet_ntop impl es)
        (entry_calls impl e.address e.client e.pump ++ print_calls memory inet_ntop impl e),
    count-append w (entry_calls impl e.address e.client e.pump)
        (print_calls memory inet_ntop impl e),
    count-printed w quiet
        (dump_lines memory inet_ntop impl (codes "close connection") e.client e.pump) [],
    count-nil w,
    count-all_calls w of impl quiet each es,
    each e,
  )

  pub closes-all_calls :
      (impl : Method) (fd : ℤ) (es : List Entry)
      → closes fd (all_calls memory inet_ntop impl es) ≡ all_fds impl fd es
  closes-all_calls impl fd es =
      count-all_calls (close_of fd) (λ e. entry_fds impl fd e.address e.client e.pump) impl
        (λ _. refl) (λ e. closes-entry_calls impl fd e.address e.client e.pump) es

  pub frees-all_calls :
      (impl : Method) (b : Ptr) (es : List Entry)
      → count (free_of b) (all_calls memory inet_ntop impl es) ≡ all_blocks impl b es
  frees-all_calls impl b es =
      count-all_calls (free_of b) (λ e. entry_blocks impl b e.address e.client e.pump) impl
        (λ _. refl) (λ e. frees-entry_calls impl b e.address e.client e.pump) es

  pub remakes-all_calls :
      (impl : Method) (es : List Entry) → count remakes (all_calls memory inet_ntop impl es) ≡ 0
  remakes-all_calls impl es =
      count-all_calls remakes (λ e. 0) impl (λ _. refl)
        (λ e. remakes-entry_calls impl e.address e.client e.pump) es
      ∙ sum_of-zero es

  pub all_closes-all_calls :
      (impl : Method) (os : Os) (fd : ℤ) (tr : List Call) (es : List Entry)
      → count (close_at os fd tr) (all_calls memory inet_ntop impl es)
        ≡ all_fds impl fd es + all_shut impl os fd es tr
  all_closes-all_calls impl os fd tr es =
      count-all_calls (close_at os fd tr)
        (λ e.
          entry_fds impl fd e.address e.client e.pump + entry_shut impl os fd e.client e.pump tr)
        impl (λ _. refl) (λ e. all_closes-entry_calls impl os fd tr e.address e.client e.pump) es
      ∙ sum_of-add (λ e. entry_fds impl fd e.address e.client e.pump)
          (λ e. entry_shut impl os fd e.client e.pump tr) es

-- ===== src/Clients/DropAll.antt =====
-- context.c: `transocks_drop_all_clients` under each pump method.
use transocks_wong.Prelude.{
  ℕ, ◌≡◌, refl, ◌∙◌, ap, true, ◌==◌, if◌then◌else◌, Bool-cases, Option, none, some, List, [], ◌∷◌,
  arith, inl, inr,
}
use transocks_wong.Machine.{Ptr, Bytes, Sockaddr, Call, Os, Client, SplicePump, State}
use transocks_wong.Machine.Log.{log}
use transocks_wong.Machine.Returns.{Ends, Ends-bind}
use transocks_wong.Macros.{ev_read_write}
use transocks_wong.Context.Free.{transocks_client_free-log}
use transocks_wong.Pump.{Method, splicepump, bufferpump, transocks_pump_free}
use transocks_wong.BufferPump.{transocks_bufferpump_free}
use transocks_wong.SplicePump.{transocks_splicepump_free}
use transocks_wong.SplicePump.Free.{transocks_splicepump_free-log}
use transocks_wong.Util.Texts.{codes}
use transocks_wong.Util.Ports.{NtopLaws}
use transocks_wong.Clients.Listed.{is_listed, all_listed, has_pump, all_addressed}
use transocks_wong.Clients.Lines.{printed, dump_lines, pump_dump-prints}
use transocks_wong.Clients.{Entry, keep, transocks_drop_all_clients}

abbrev pub without_pump : List Entry → List Entry
without_pump [] = []
without_pump (e ∷ es) = if has_pump e then without_pump es else e ∷ without_pump es

abbrev pub left_by : Method → List Entry → List Entry
left_by bufferpump es = []
left_by splicepump es = without_pump es

abbrev LeavesIt : Method → Entry → Unit {0} → State → Type 0
LeavesIt bufferpump e _ t = t.client ≡ none
LeavesIt splicepump e _ t =
    if has_pump e then t.client ≡ none else ((t.client ≡ e.client) × (t.pump ≡ e.pump))

abbrev entry : Ptr → Option Client → Option SplicePump → Entry
entry a oc oq = record { address = a; client = oc; pump = oq }

plain-entry :
    (os : Os) (a : Ptr) (c : Client) (oq : Option SplicePump) (s : State)
    → is_listed (entry a (some c) oq) ≡ true
    → (c.user_arg == 0) ≡ true
    → Ends
        (LeavesIt splicepump (entry a (some c) oq))
        (transocks_splicepump_free a os (record s { client = some c; pump = oq }))
unfolding transocks_splicepump_free
plain-entry os a c oq s h plain = ground arith

free-entry :
    (os : Os) (impl : Method) (a : Ptr) (oc : Option Client) (oq : Option SplicePump) (s : State)
    → is_listed (entry a oc oq) ≡ true
    → Ends
        (LeavesIt impl (entry a oc oq))
        (transocks_pump_free impl a os (record s { client = oc; pump = oq }))
unfolding transocks_pump_free transocks_bufferpump_free
free-entry os impl a none oq s h = absurd (ground arith)
free-entry os bufferpump a (some c) oq s h =
    let t =
      log
        (Call.bufferevent_disable c.relay_bev ev_read_write
          ∷ Call.bufferevent_disable c.client_bev ev_read_write
          ∷ [])
        (record s { pump = oq }) in
    ground (arith, transocks_client_free-log os a c t (ground arith) (ground arith))
free-entry os splicepump a (some c) none s h = plain-entry os a c none s h (ground arith)
free-entry os splicepump a (some c) (some q) s h = elim (Bool-cases (c.user_arg == 0)) [
  | inl plain ↦ plain-entry os a c (some q) s h plain
  | inr pumped ↦
      rw (transocks_splicepump_free-log os a c q s (ground arith) (ground arith) (ground arith))
        (rw pumped refl)
]

kept :
    (a : Ptr) (oc : Option Client) (oq : Option SplicePump) (t : State) (left : List Entry)
    → is_listed (entry a oc oq) ≡ true
    → t.client ≡ oc
    → t.pump ≡ oq
    → keep (entry a t.client t.pump) left ≡ entry a oc oq ∷ left
kept a none oq t left h ce pe = absurd (ground arith)
kept a (some c) oq t left h ce pe = simp (ce, pe)

keep-left :
    (impl : Method) (e : Entry) (t : State) (left es : List Entry)
    → is_listed e ≡ true
    → LeavesIt impl e tt t
    → left ≡ left_by impl es
    → keep (entry e.address t.client t.pump) left ≡ left_by impl (e ∷ es)
keep-left bufferpump e t left es listed l h = simp l h
keep-left splicepump e t left es listed l h = elim (Bool-cases (has_pump e)) [
  | inl pumped ↦ simp (rw pumped at l) (rw pumped h)
  | inr plain ↦
      let (ce, pe) = rw plain at l in
      rw plain (kept e.address e.client e.pump t left listed ce pe ∙ ap (λ es. e ∷ es) h)
]

-- The state in which a client is freed: what it is known by has been printed.
abbrev pub announced :
    (Ptr → Sockaddr) → (ℕ → Bytes → Option Bytes) → Method → Entry → State → State
announced memory inet_ntop impl e s = record s {
  client = e.client;
  pump = e.pump;
  trace =
      printed (dump_lines memory inet_ntop impl (codes "close connection") e.client e.pump) s.trace;
}

-- `transocks_drop_all_clients` on a list of clients that are not gone and whose addresses are IPv4 or
-- IPv6, with an `inet_ntop` that has a text for each address: under bufferpump.c no client is left on
-- the list; under splicepump.c exactly the clients without a pump are left, in their order.
pub drop_all_clients-left :
    (memory : Ptr → Sockaddr) (inet_ntop : ℕ → Bytes → Option Bytes) (laws : NtopLaws inet_ntop)
    (os : Os) (impl : Method) (es : List Entry) (s : State)
    → all_listed es ≡ true
    → all_addressed memory es ≡ true
    → Ends
        (λ left t. left ≡ left_by impl es)
        (transocks_drop_all_clients memory inet_ntop impl es os s)
unfolding transocks_drop_all_clients
drop_all_clients-left memory inet_ntop laws os bufferpump [] s h k = refl
drop_all_clients-left memory inet_ntop laws os splicepump [] s h k = refl
drop_all_clients-left memory inet_ntop laws os impl (e ∷ es) s h k =
    rw
      (pump_dump-prints memory inet_ntop laws os impl (codes "close connection") e.address e.client
        e.pump s (ground arith) (ground arith))
      (Ends-bind (LeavesIt impl e) _
        (transocks_pump_free impl e.address os (announced memory inet_ntop impl e s)) _ os
        (free-entry os impl e.address e.client e.pump (announced memory inet_ntop impl e s)
          (ground arith))
        λ _ t ht.
          Ends-bind (λ left _. left ≡ left_by impl es) _
            (transocks_drop_all_clients memory inet_ntop impl es os t) _ os
            (drop_all_clients-left memory inet_ntop laws os impl es t (ground arith) (ground arith))
            λ left u eq. keep-left impl e t left es (ground arith) ht eq)

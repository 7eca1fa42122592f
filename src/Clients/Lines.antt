-- ===== src/Clients/Lines.antt =====
-- context.c: what is printed of one client.
use mathlib.Core.List.{append_assoc}
use transocks_wong.Prelude.{
  ℕ, ◌≡◌, refl, sym, ap, ◌∙◌, true, false, ◌==◌, if◌then◌else◌, Bool-cases, inl, inr, Option, none,
  some, List, [], ◌∷◌, ◌++◌, arith,
}
use transocks_wong.Machine.{Ptr, Bytes, Call, Os, Sockaddr, Client, SplicePump, State, ok}
use transocks_wong.Machine.Log.{live, count}
use transocks_wong.Util.Texts.{
  codes, int_text, transocks_inet_addrportstrlen, generate_sockaddr_port_str,
}
use transocks_wong.Util.Ports.{NtopLaws, is_internet}
use transocks_wong.Pump.{Method, splicepump, bufferpump}
use transocks_wong.Clients.Listed.{is_listed, is_addressed}
use transocks_wong.Info.{
  transocks_client_state_str, bool_text, pipe_line, transocks_client_dump_info,
  transocks_splicepump_dump_info, dump_info_fn, transocks_pump_dump_info,
}

-- The trace after lines that were printed, the first of them first.
abbrev pub printed : List Bytes → List Call → List Call
printed [] tr = tr
printed (l ∷ ls) tr = printed ls (Call.fprintf l ∷ tr)

pub printed-append :
    (xs ys : List Bytes) (tr : List Call) → printed (xs ++ ys) tr ≡ printed ys (printed xs tr)
printed-append [] ys tr = refl
printed-append (x ∷ xs) ys tr = printed-append xs ys (Call.fprintf x ∷ tr)

-- The lines on top of what was called before, and of no weight if a line has none.
pub printed-onto : (ls : List Bytes) (tr : List Call) → printed ls tr ≡ printed ls [] ++ tr
printed-onto [] tr = refl
printed-onto (l ∷ ls) tr =
    printed-onto ls (Call.fprintf l ∷ tr)
    ∙ sym (
        ap (λ cs. cs ++ tr) (printed-onto ls (Call.fprintf l ∷ []))
        ∙ append_assoc (printed ls []) (Call.fprintf l ∷ []) tr)

pub count-printed :
    (w : Call → ℕ)
    → ((l : Bytes) → w (Call.fprintf l) ≡ 0)
    → (ls : List Bytes) (tr : List Call) → count w (printed ls tr) ≡ count w tr
unfolding count
count-printed w none_of [] tr = refl
count-printed w none_of (l ∷ ls) tr =
    omega (arith, count-printed w none_of ls (Call.fprintf l ∷ tr), none_of l)

abbrev text_of : Option Bytes → Bytes
text_of none = []
text_of (some text) = text

module _ (memory : Ptr → Sockaddr) (inet_ntop : ℕ → Bytes → Option Bytes) where
  abbrev address_text : Ptr → ℕ → Bytes
  address_text p len =
      text_of (generate_sockaddr_port_str inet_ntop transocks_inet_addrportstrlen (memory p) len)

  abbrev pub client_lines : Client → List Bytes
  client_lines c =
      (codes "\n\t"
        ++ address_text c.client_addr c.client_addr_len
        ++ codes " -> "
        ++ address_text c.dest_addr c.dest_addr_len)
      ∷ (codes "\n\tfd: client " ++ int_text c.client_fd ++ codes " relay " ++ int_text c.relay_fd)
      ∷ (codes "\n\tclient shut R "
          ++ bool_text c.client_shutdown_read
          ++ codes " W "
          ++ bool_text c.client_shutdown_write)
      ∷ (codes "\n\trelay shut R "
          ++ bool_text c.relay_shutdown_read
          ++ codes " W "
          ++ bool_text c.relay_shutdown_write)
      ∷ (codes "\n\tclient state: " ++ transocks_client_state_str c.client_state)
      ∷ codes "\n----------\n"
      ∷ []

  abbrev pub pump_lines : SplicePump → List Bytes
  pump_lines q =
      codes "\n\tpipe:"
      ∷ pipe_line (codes "IN") q.inbound_pipe
      ∷ pipe_line (codes "OUT") q.outbound_pipe
      ∷ []

  -- Under splicepump.c a client whose pump is not there yet has no lines.
  abbrev pub entry_lines : Method → Option Client → Option SplicePump → List Bytes
  entry_lines bufferpump none oq = []
  entry_lines bufferpump (some c) oq = client_lines c
  entry_lines splicepump none oq = []
  entry_lines splicepump (some c) none = []
  entry_lines splicepump (some c) (some q) =
      if c.user_arg == 0 then [] else pump_lines q ++ client_lines c

  abbrev tag_lines : Bytes → List Bytes
  tag_lines tag = codes "\n----------\n" ∷ tag ∷ codes ":\n" ∷ []

  abbrev pub dump_lines : Method → Bytes → Option Client → Option SplicePump → List Bytes
  dump_lines impl tag oc oq = tag_lines tag ++ entry_lines impl oc oq

  module _ (laws : NtopLaws inet_ntop) (os : Os) where
    address-text :
        (size : ℕ) (sa : Sockaddr) (len : ℕ)
        → is_internet sa len ≡ true
        → generate_sockaddr_port_str inet_ntop size sa len
          ≡ some (text_of (generate_sockaddr_port_str inet_ntop size sa len))
    unfolding generate_sockaddr_port_str
    address-text size sa len h =
        let (t4, e4, b4) = laws.ipv4 sa.sin_addr in
        let (t6, e6, b6) = laws.ipv6 sa.sin6_addr in rw (e4, e6) (ground arith)

    client_dump-lines :
        (c : Client) (s : State)
        → is_internet (memory c.client_addr) c.client_addr_len ≡ true
        → is_internet (memory c.dest_addr) c.dest_addr_len ≡ true
        → transocks_client_dump_info memory inet_ntop os (live c s)
          ≡ ok tt (record (live c s) { trace = printed (client_lines c) s.trace })
    unfolding transocks_client_dump_info
    client_dump-lines c s h k =
        rw
          (
            address-text transocks_inet_addrportstrlen (memory c.client_addr) c.client_addr_len h,
            address-text transocks_inet_addrportstrlen (memory c.dest_addr) c.dest_addr_len k,
          )
          refl

    with_pump :
        (a : Ptr) (c : Client) (q : SplicePump) (s : State)
        → (a == 0) ≡ false
        → (c.user_arg == 0) ≡ false
        → transocks_splicepump_dump_info memory inet_ntop a os
            (record s { client = some c; pump = some q })
          ≡ transocks_client_dump_info memory inet_ntop os
              (live c (record s { pump = some q; trace = printed (pump_lines q) s.trace }))
    unfolding transocks_splicepump_dump_info
    with_pump a c q s na nu = rw (na, nu) refl

    without_pump :
        (a : Ptr) (c : Client) (oq : Option SplicePump) (s : State)
        → (a == 0) ≡ false
        → (c.user_arg == 0) ≡ true
        → transocks_splicepump_dump_info memory inet_ntop a os
            (record s { client = some c; pump = oq })
          ≡ ok tt (record s { client = some c; pump = oq })
    unfolding transocks_splicepump_dump_info
    without_pump a c oq s na nu = rw (na, nu) refl

    Dumped : Method → Ptr → Option Client → Option SplicePump → State → Type 0
    Dumped impl a oc oq s =
        dump_info_fn memory inet_ntop impl a os (record s { client = oc; pump = oq })
        ≡ ok tt
            (record s { client = oc; pump = oq; trace = printed (entry_lines impl oc oq) s.trace })

    dump-entry :
        (impl : Method) (a : Ptr) (oc : Option Client) (oq : Option SplicePump) (s : State)
        → is_listed (record { address = a; client = oc; pump = oq }) ≡ true
        → is_addressed memory (record { address = a; client = oc; pump = oq }) ≡ true
        → Dumped impl a oc oq s
    unfolding Dumped dump_info_fn
    dump-entry impl a none oq s h k = absurd (ground arith)
    dump-entry bufferpump a (some c) oq s h k =
        client_dump-lines c (record s { pump = oq }) (ground arith) (ground arith)
    dump-entry splicepump a (some c) none s h k =
        without_pump a c none s (ground arith) (ground arith)
    dump-entry splicepump a (some c) (some q) s h k = elim (Bool-cases (c.user_arg == 0)) [
      | inl plain ↦ rw plain (without_pump a c (some q) s (ground arith) plain)
      | inr pumped ↦ rw pumped (
          with_pump a c q s (ground arith) pumped
          ∙ client_dump-lines c (record s { pump = some q; trace = printed (pump_lines q) s.trace })
              (ground arith) (ground arith))
    ]

    pub pump_dump-prints :
        (impl : Method) (tag : Bytes) (a : Ptr) (oc : Option Client) (oq : Option SplicePump)
        (s : State)
        → is_listed (record { address = a; client = oc; pump = oq }) ≡ true
        → is_addressed memory (record { address = a; client = oc; pump = oq }) ≡ true
        → transocks_pump_dump_info memory inet_ntop impl a tag os
            (record s { client = oc; pump = oq })
          ≡ ok tt (record s {
            client = oc;
            pump = oq;
            trace = printed (dump_lines impl tag oc oq) s.trace;
          })
    unfolding transocks_pump_dump_info Dumped
    pump_dump-prints impl tag a oc oq s h k =
        dump-entry impl a oc oq (record s { trace = printed (tag_lines tag) s.trace }) h k

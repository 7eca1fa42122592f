-- ===== src/BufferPump/Order.antt =====
-- bufferpump.c: in which order the ends of the two directions are passed on.
use transocks_wong.Prelude.{
  set_of, ℕ, ℤ, int_eq, int_eq_refl, ◌≡◌, ◌≢◌, refl, sym, subst, Bool, true, false, not, ◌&&◌, ◌||◌,
  Bool-cases, ◌⊎◌, inl, inr, none, some, List, [], ◌∷◌, ◌++◌, if◌then◌else◌, arith, ◌==◌,
}
use transocks_wong.Machine.{Ptr, Call, How, Os, Client, State, M, skip, ◌>>=◌, ◌>>◌, has_client}
use transocks_wong.Machine.Log.{has_ended, live, log, count}
use transocks_wong.Machine.Returns.{Ends, Ends-bind, Ends-mono}
use transocks_wong.Macros.{transocks_chkbit, bev_event_error, ev_read_write}
use transocks_wong.Context.{is_gone}
use transocks_wong.Context.Free.{free_calls, transocks_client_free-log}
use transocks_wong.Context.Live.{State-live}
use transocks_wong.Context.Releases.{shut_wr_of, shut_wr-free_calls}
use transocks_wong.SplicePump.Descriptors.{Differ-sym}
use transocks_wong.BufferPump.{
  Side, client_side, relay_side, BufferEvent, readable, writable, happened, transocks_check_close,
  transocks_bufferpump_free, readcb, check_close, finish_write, writecb, eventcb, on_read_eof,
  is_read_eof, is_write_eof, bufferpump_cb, buffer_run, set_write_flag, set_read_flag,
}

-- A side's writing was shut down only after the other side had ended.
unfoldable pub in_order : ℤ → ℤ → List Call → Bool
in_order client_fd relay_fd [] = true
in_order client_fd relay_fd (Call.shutdown fd How.shut_wr ∷ tr) =
    (not (int_eq fd client_fd) || has_ended relay_fd tr)
    && (not (int_eq fd relay_fd) || has_ended client_fd tr)
    && in_order client_fd relay_fd tr
in_order client_fd relay_fd (_ ∷ tr) = in_order client_fd relay_fd tr

-- So far all is in order, and a side that is flagged as ended has ended.
abbrev pub is_ordered : Client → List Call → Bool
is_ordered c tr =
    in_order c.client_fd c.relay_fd tr
    && (not c.client_shutdown_read || has_ended c.client_fd tr)
    && (not c.relay_shutdown_read || has_ended c.relay_fd tr)

-- The event does not tell of a failed or ended write.
abbrev pub no_write_eof : BufferEvent → Bool
no_write_eof (happened a bevs errno) = is_read_eof bevs || not (is_write_eof bevs errno)
no_write_eof _ = true

abbrev pub all_reads : List BufferEvent → Bool
all_reads [] = true
all_reads (e ∷ es) = no_write_eof e && all_reads es

-- The client is there, with the two descriptors.
abbrev InOrder : ℤ → ℤ → {A : Type 0} → A → State → Type 0
InOrder f g _ t =
    (c : Client) × (t.client ≡ some c)
    × (is_gone c.client_state ≡ false)
    × (c.client_fd ≡ f)
    × (c.relay_fd ≡ g)
    × (is_ordered c t.trace ≡ true)

abbrev Ordered : ℤ → ℤ → {A : Type 0} → A → State → Type 0
Ordered f g x t = ((t.client ≡ none) × (in_order f g t.trace ≡ true)) ⊎ InOrder f g x t

no_write : (r w : Bool) → r ≡ false → (r || not w) ≡ true → w ≡ false
no_write r w e h = ground arith

in_order-append :
    (f g : ℤ) (cs tr : List Call)
    → count shut_wr_of cs ≡ 0
    → in_order f g tr ≡ true
    → in_order f g (cs ++ tr) ≡ true
unfolding in_order count
in_order-append f g [] tr z h = h
in_order-append f g (Call.shutdown fd How.shut_wr ∷ cs) tr z h = absurd (omega arith)
in_order-append f g (c ∷ cs) tr z h = in_order-append f g cs tr (omega arith) h

InOrder-in_order : (f g : ℤ) (t : State) → InOrder f g tt t → in_order f g t.trace ≡ true
InOrder-in_order f g t (c, e, gone, cf, rg, o) =
    subst (λ x. in_order x g t.trace ≡ true) cf
      (subst (λ y. in_order c.client_fd y t.trace ≡ true) rg (ground arith))

-- A handler is looked at where its client is known.
at_client :
    (Q : ℤ → ℤ → Unit {0} → State → Type 0) (m : M (Unit {0})) (os : Os) (f g : ℤ)
    → int_eq f g ≡ false
    → ((c : Client) (s : State)
        → is_gone c.client_state ≡ false
        → int_eq c.client_fd c.relay_fd ≡ false
        → is_ordered c s.trace ≡ true
        → Ends (Q c.client_fd c.relay_fd) (m os (live c s)))
    → (t : State) → InOrder f g tt t
    → Ends (Q f g) (m os t)
at_client Q m os f g apart k t (c, e, gone, cf, rg, h) =
    subst (λ t'. Ends (Q f g) (m os t')) (sym (State-live t e))
      (subst (λ x. Ends (Q x g) (m os (live c t))) cf
        (subst (λ y. Ends (Q c.client_fd y) (m os (live c t))) rg
          (k c t gone
            (subst (λ x. int_eq x c.relay_fd ≡ false) (sym cf)
              (subst (λ y. int_eq f y ≡ false) (sym rg) apart))
            h)))

module _ (p : Ptr) (ne : p ≢ 0) (os : Os) where
  Keeps : (ℤ → ℤ → Unit {0} → State → Type 0) → M (Unit {0}) → Type 0
  Keeps Q m =
      (f g : ℤ) → int_eq f g ≡ false → (t : State) → InOrder f g tt t → Ends (Q f g) (m os t)

  keeping :
      (Q : ℤ → ℤ → Unit {0} → State → Type 0) (m : M (Unit {0}))
      → ((c : Client) (s : State)
          → is_gone c.client_state ≡ false
          → int_eq c.client_fd c.relay_fd ≡ false
          → is_ordered c s.trace ≡ true
          → Ends (Q c.client_fd c.relay_fd) (m os (live c s)))
      → Keeps Q m
  unfolding Keeps
  keeping Q m k f g apart = at_client Q m os f g apart k

  free-Ordered : Keeps (λ f g. Ordered f g) (transocks_bufferpump_free p)
  unfolding transocks_bufferpump_free in_order
  free-Ordered =
      keeping (λ f g. Ordered f g) (transocks_bufferpump_free p)
        λ c s gone apart h.
          let u =
            log
              (Call.bufferevent_disable c.relay_bev ev_read_write
                ∷ Call.bufferevent_disable c.client_bev ev_read_write
                ∷ [])
              s in
          rw (set_of p ne, transocks_client_free-log os p c u ne gone)
            (inl (
              refl,
              in_order-append c.client_fd c.relay_fd (free_calls p c) u.trace
                  (shut_wr-free_calls p c) (ground arith),
            ))

  check_close-Ordered : Keeps (λ f g. Ordered f g) (check_close p)
  unfolding check_close Keeps
  check_close-Ordered =
      keeping (λ f g. Ordered f g) (check_close p)
        λ c s gone apart h. elim (Bool-cases (transocks_check_close c)) [
          | inl all ↦
              rw all (
                free-Ordered c.client_fd c.relay_fd apart (live c s) (c, refl, gone, refl, refl, h))
          | inr some_flag ↦ rw some_flag (inr (c, refl, gone, refl, refl, h))
        ]

  readcb-InOrder : (a : Side) → Keeps (λ f g. InOrder f g) (readcb a)
  unfolding readcb in_order has_ended
  readcb-InOrder a =
      keeping (λ f g. InOrder f g) (readcb a) λ c s gone apart h. (c, refl, gone, refl, refl, h)

  finish_write-InOrder : (b : Side) → Keeps (λ f g. InOrder f g) (finish_write b)
  unfolding finish_write in_order has_ended
  finish_write-InOrder client_side =
      keeping (λ f g. InOrder f g) (finish_write client_side)
        λ c s gone apart h.
          let len = os s.trace (Call.output_length c.client_bev) in
          elim (Bool-cases (len.size == 0 && c.relay_shutdown_read)) [
            | inl last ↦
                rw last (set_write_flag client_side c, refl, gone, refl, refl, ground arith)
            | inr more ↦ rw more (c, refl, gone, refl, refl, h)
          ]
  finish_write-InOrder relay_side =
      keeping (λ f g. InOrder f g) (finish_write relay_side)
        λ c s gone apart h.
          let len = os s.trace (Call.output_length c.relay_bev) in
          let apart' = Differ-sym c.client_fd c.relay_fd apart in
          elim (Bool-cases (len.size == 0 && c.client_shutdown_read)) [
            | inl last ↦ rw last (set_write_flag relay_side c, refl, gone, refl, refl, ground arith)
            | inr more ↦ rw more (c, refl, gone, refl, refl, h)
          ]

  read_eof-InOrder : (a : Side) → Keeps (λ f g. InOrder f g) (on_read_eof a)
  unfolding on_read_eof in_order has_ended Keeps
  read_eof-InOrder client_side =
      keeping (λ f g. InOrder f g) (on_read_eof client_side)
        λ c s gone apart h.
          let same = int_eq_refl c.client_fd in
          finish_write-InOrder relay_side c.client_fd c.relay_fd apart _
            (set_read_flag client_side c, refl, gone, refl, refl, ground arith)
  read_eof-InOrder relay_side =
      keeping (λ f g. InOrder f g) (on_read_eof relay_side)
        λ c s gone apart h.
          let same = int_eq_refl c.relay_fd in
          finish_write-InOrder client_side c.client_fd c.relay_fd apart _
            (set_read_flag relay_side c, refl, gone, refl, refl, ground arith)

  module _ (f g : ℤ) (apart : int_eq f g ≡ false) where
    then_check :
        (m : M (Unit {0})) (t : State)
        → Ends (InOrder f g) (m os t)
        → Ends (Ordered f g) ((m >> check_close p) os t)
    unfolding Keeps
    then_check m t h =
        Ends-bind (InOrder f g) (Ordered f g) (m os t) _ os h
          λ _ u hu. check_close-Ordered f g apart u hu

    eventcb-Ordered :
        (a : Side) (bevs errno : ℕ) (t : State)
        → no_write_eof (happened a bevs errno) ≡ true
        → InOrder f g tt t
        → Ends (Ordered f g) (eventcb p a bevs errno os t)
    unfolding eventcb Keeps
    eventcb-Ordered a bevs errno t reads h = elim (Bool-cases (is_read_eof bevs)) [
      | inl read ↦ rw read (then_check (on_read_eof a) t (read_eof-InOrder a f g apart t h))
      | inr not_read ↦
          rw (not_read, no_write (is_read_eof bevs) (is_write_eof bevs errno) not_read reads)
            (elim (Bool-cases (transocks_chkbit bevs bev_event_error)) [
              | inl error ↦ rw error (free-Ordered f g apart t h)
              | inr other ↦ rw other (check_close-Ordered f g apart t h)
            ])
    ]

    cb-Ordered :
        (e : BufferEvent) (t : State)
        → no_write_eof e ≡ true
        → InOrder f g tt t
        → Ends (Ordered f g) (bufferpump_cb p e os t)
    unfolding bufferpump_cb writecb Keeps
    cb-Ordered (readable a) t reads h =
        Ends-mono (InOrder f g) (Ordered f g) (readcb a os t) (readcb-InOrder a f g apart t h)
          λ _ u hu. inr hu
    cb-Ordered (writable b) t reads h =
        then_check (finish_write b) t (finish_write-InOrder b f g apart t h)
    cb-Ordered (happened a bevs errno) t reads h = eventcb-Ordered a bevs errno t reads h

    go_on :
        (m : M (Unit {0})) (t : State)
        → Ordered f g tt t
        → (InOrder f g tt t → Ends (Ordered f g) (m os t))
        → Ends (Ordered f g) ((has_client >>= λ live. if live then m else skip) os t)
    go_on m t (inl (e, o)) next = simp e (inl (refl, o))
    go_on m t (inr (c, e, gone, cf, rg, o)) next = simp e (next (c, e, gone, cf, rg, o))

    run-Ordered :
        (es : List BufferEvent) (t : State)
        → all_reads es ≡ true
        → InOrder f g tt t
        → Ends (Ordered f g) (buffer_run p es os t)
    unfolding buffer_run
    run-Ordered [] t reads h = inr h
    run-Ordered (e ∷ es) t reads h =
        Ends-bind (Ordered f g) (Ordered f g) (bufferpump_cb p e os t) _ os
          (cb-Ordered e t (ground arith) h)
          λ _ u hu. go_on (buffer_run p es) u hu (λ h'. run-Ordered es u (ground arith) h')

  -- Over any sequence of callbacks of bufferpump.c none of which tells of a failed or ended write, each
  -- `shutdown` that tells a side of the end, by SHUT_WR, comes after the `shutdown` by SHUT_RD with which
  -- the end of the other side was noted, also if the client is freed on the way. This holds if the
  -- client's two descriptors differ, if all was in order at the start, and if the reading of each side
  -- that was flagged as ended then had been shut down.
  pub buffer_run-Ordered :
      (es : List BufferEvent) (c : Client) (s : State)
      → all_reads es ≡ true
      → is_gone c.client_state ≡ false
      → int_eq c.client_fd c.relay_fd ≡ false
      → is_ordered c s.trace ≡ true
      → Ends (λ _ t. in_order c.client_fd c.relay_fd t.trace ≡ true) (buffer_run p es os (live c s))
  buffer_run-Ordered es c s reads gone apart h =
      Ends-mono (Ordered c.client_fd c.relay_fd) _ (buffer_run p es os (live c s))
        (run-Ordered c.client_fd c.relay_fd apart es (live c s) reads
          (c, refl, gone, refl, refl, h))
        λ _ t ht. elim ht [ inl o ↦ o.1 | inr o ↦ InOrder-in_order c.client_fd c.relay_fd t o ]

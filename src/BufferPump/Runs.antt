-- ===== src/BufferPump/Runs.antt =====
-- The callbacks of bufferpump.c in any sequence.
use transocks_wong.Prelude.{
  set_of, ℕ, ◌≡◌, ◌≢◌, refl, Bool, true, false, not, ◌&&◌, Bool-cases, ◌⊎◌, inl, inr, none, some,
  List, [], ◌∷◌, if◌then◌else◌, arith,
}
use transocks_wong.Machine.{Ptr, Call, Os, State, M, skip, ◌>>=◌, ◌>>◌, has_client}
use transocks_wong.Machine.Log.{live, log}
use transocks_wong.Machine.Returns.{Ends, Ends-bind, Ends-mono}
use transocks_wong.Macros.{transocks_chkbit, bev_event_error, ev_read_write}
use transocks_wong.Context.{is_gone}
use transocks_wong.Context.Live.{is_live, live-parts, at_live}
use transocks_wong.Context.Free.{transocks_client_free-log}
use transocks_wong.BufferPump.{
  Side, client_side, relay_side, BufferEvent, readable, writable, happened, transocks_check_close,
  transocks_bufferpump_free, readcb, check_close, finish_write, writecb, eventcb, on_read_eof,
  on_write_eof, is_read_eof, is_write_eof, bufferpump_cb, buffer_run,
}

-- A client that is there and not gone, with a flag that is not yet set.
abbrev pub is_half_open : State → Bool
is_half_open s = elim s.client [
  | none ↦ false
  | some c ↦ not (is_gone c.client_state) && not (transocks_check_close c)
]

abbrev Live : {A : Type 0} → A → State → Type 0
Live _ t = is_live t ≡ true

abbrev pub Settled : {A : Type 0} → A → State → Type 0
Settled _ t = (t.client ≡ none) ⊎ (is_half_open t ≡ true)

abbrev pub Freed : {A : Type 0} → A → State → Type 0
Freed _ t = t.client ≡ none

module _ (p : Ptr) (ne : p ≢ 0) (os : Os) where
  pub bufferpump_free-Freed :
      (s : State) → is_live s ≡ true → Ends Freed (transocks_bufferpump_free p os s)
  unfolding transocks_bufferpump_free
  bufferpump_free-Freed = at_live Freed (transocks_bufferpump_free p) os λ c s g.
      let disable = λ (b : Ptr). Call.bufferevent_disable b ev_read_write in
      let t = log (disable c.relay_bev ∷ disable c.client_bev ∷ []) s in
      rw (set_of p ne, transocks_client_free-log os p c t ne g) refl

  bufferpump_free-Settled :
      (s : State) → is_live s ≡ true → Ends Settled (transocks_bufferpump_free p os s)
  bufferpump_free-Settled s h =
      Ends-mono Freed Settled (transocks_bufferpump_free p os s) (bufferpump_free-Freed s h)
        λ _ t e. inl e

  check_close-Settled : (s : State) → is_live s ≡ true → Ends Settled (check_close p os s)
  unfolding check_close
  check_close-Settled = at_live Settled (check_close p) os λ c s g.
      elim (Bool-cases (transocks_check_close c)) [
        | inl all ↦ rw all (bufferpump_free-Settled (live c s) (rw g))
        | inr some_flag ↦ rw some_flag (inr (rw (g, some_flag)))
      ]

  finish_write-Live : (b : Side) (s : State) → is_live s ≡ true → Ends Live (finish_write b os s)
  unfolding finish_write
  finish_write-Live client_side s h = ground arith
  finish_write-Live relay_side s h = ground arith

  then_check :
      (m : M (Unit {0})) (s : State) → Ends Live (m os s) → Ends Settled ((m >> check_close p) os s)
  then_check m s h = Ends-bind Live Settled (m os s) _ os h λ _ t ht. check_close-Settled t ht

  writecb-Settled : (b : Side) (s : State) → is_live s ≡ true → Ends Settled (writecb p b os s)
  unfolding writecb
  writecb-Settled b s h = then_check (finish_write b) s (finish_write-Live b s h)

  readcb-Settled : (a : Side) (s : State) → is_half_open s ≡ true → Ends Settled (readcb a os s)
  unfolding readcb
  readcb-Settled client_side s h = ground arith
  readcb-Settled relay_side s h = ground arith

  on_read_eof-Live : (a : Side) (s : State) → is_live s ≡ true → Ends Live (on_read_eof a os s)
  unfolding on_read_eof
  on_read_eof-Live client_side s h =
      at_live Live (on_read_eof client_side) os (λ c s g. finish_write-Live relay_side _ (rw g)) s h
  on_read_eof-Live relay_side s h =
      at_live Live (on_read_eof relay_side) os (λ c s g. finish_write-Live client_side _ (rw g)) s h

  on_write_eof-Live : (a : Side) (s : State) → is_live s ≡ true → Ends Live (on_write_eof a os s)
  unfolding on_write_eof
  on_write_eof-Live client_side s h = ground arith
  on_write_eof-Live relay_side s h = ground arith

  eventcb-Settled :
      (a : Side) (bevs errno : ℕ) (s : State)
      → is_live s ≡ true
      → Ends Settled (eventcb p a bevs errno os s)
  unfolding eventcb
  eventcb-Settled a bevs errno s h = elim (Bool-cases (is_read_eof bevs)) [
    | inl read ↦ rw read (then_check (on_read_eof a) s (on_read_eof-Live a s h))
    | inr not_read ↦ rw not_read (elim (Bool-cases (is_write_eof bevs errno)) [
      | inl write ↦ rw write (then_check (on_write_eof a) s (on_write_eof-Live a s h))
      | inr not_write ↦ rw not_write (elim (Bool-cases (transocks_chkbit bevs bev_event_error)) [
        | inl error ↦ rw error (bufferpump_free-Settled s h)
        | inr other ↦ rw other (check_close-Settled s h)
      ])
    ])
  ]

  half_open-live : (s : State) → is_half_open s ≡ true → is_live s ≡ true
  half_open-live s h = ground arith

  cb-Settled :
      (e : BufferEvent) (s : State) → is_half_open s ≡ true → Ends Settled (bufferpump_cb p e os s)
  unfolding bufferpump_cb
  cb-Settled (readable a) s h = readcb-Settled a s h
  cb-Settled (writable a) s h = writecb-Settled a s (half_open-live s h)
  cb-Settled (happened a bevs errno) s h = eventcb-Settled a bevs errno s (half_open-live s h)

  go_on :
      (m : M (Unit {0})) (t : State)
      → Settled tt t
      → (is_half_open t ≡ true → Ends Settled (m os t))
      → Ends Settled ((has_client >>= λ live. if live then m else skip) os t)
  go_on m t (inl e) next = simp e (inl refl)
  go_on m t (inr h) next = let (c, e, g) = live-parts t (half_open-live t h) in simp e (next h)

  -- Over any sequence of callbacks on a client with a flag not yet set, bufferpump.c never touches a
  -- client that it has freed, and leaves none open once all four flags are set: at the end the client
  -- is freed, or one of its flags is still unset.
  pub buffer_run-Settled :
      (es : List BufferEvent) (s : State)
      → is_half_open s ≡ true
      → Ends Settled (buffer_run p es os s)
  unfolding buffer_run
  buffer_run-Settled [] s h = inr h
  buffer_run-Settled (e ∷ es) s h =
      Ends-bind Settled Settled (bufferpump_cb p e os s) _ os (cb-Settled e s h)
        λ _ t ht. go_on (buffer_run p es) t ht (λ h'. buffer_run-Settled es t h')

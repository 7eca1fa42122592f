-- ===== src/BufferPump/Flags.antt =====
-- bufferpump.c: what the callbacks cannot undo goes on to hold, until the client is freed.
use transocks_wong.Prelude.{
  ℕ, ◌≡◌, ◌≢◌, refl, Bool, true, false, Bool-cases, inl, inr, List, [], ◌∷◌, if◌then◌else◌,
}
use transocks_wong.Machine.{
  Ptr, Call, How, Os, modify_client, Client, State, M, skip, ◌>>=◌, ◌>>◌, has_client,
}
use transocks_wong.Machine.Log.{live, log}
use transocks_wong.Machine.Returns.{Ends, Ends-bind, Ends-mono}
use transocks_wong.Macros.{transocks_shutdown, transocks_chkbit, bev_event_error}
use transocks_wong.Context.{is_gone}
use transocks_wong.BufferPump.{
  Side, client_side, relay_side, BufferEvent, readable, writable, happened, transocks_check_close,
  transocks_bufferpump_free, readcb, check_close, finish_write, writecb, eventcb, on_read_eof,
  on_write_eof, is_read_eof, is_write_eof, bufferpump_cb, buffer_run, set_write_flag, bev_of, fd_of,
}
use transocks_wong.BufferPump.Runs.{Freed, bufferpump_free-Freed}
use transocks_wong.BufferPump.Facts.{
  Fact, holds, IsStable, holds-live, Holds, FreedOr, at_held, runs_on,
}

module _ (f : Fact) (stable : IsStable f) (p : Ptr) (ne : p ≢ 0) (os : Os) where
  free-FreedOr :
      (s : State) → holds f s ≡ true → Ends (FreedOr f) (transocks_bufferpump_free p os s)
  free-FreedOr s h =
      Ends-mono Freed (FreedOr f) (transocks_bufferpump_free p os s)
        (bufferpump_free-Freed p ne os s (holds-live f s h)) λ _ t e. inl e

  check_close-FreedOr : (s : State) → holds f s ≡ true → Ends (FreedOr f) (check_close p os s)
  unfolding check_close
  check_close-FreedOr = at_held f (FreedOr f) (check_close p) os λ c s g fc.
      elim (Bool-cases (transocks_check_close c)) [
        | inl all ↦ rw all (free-FreedOr (live c s) (rw (g, fc) refl))
        | inr some_flag ↦ rw some_flag (inr (rw (g, fc) refl))
      ]

  readcb-Holds : (a : Side) (s : State) → holds f s ≡ true → Ends (Holds f) (readcb a os s)
  unfolding readcb
  readcb-Holds a =
      at_held f (Holds f) (readcb a) os
        λ c s g fc. rw (g, stable.calls _ c _ refl (stable.calls _ c _ refl fc)) refl

  told :
      (b : Side) (last : Bool) (c : Client) (s : State)
      → is_gone c.client_state ≡ false
      → f c s.trace ≡ true
      → Ends (Holds f) (
          (if last
              then (modify_client (set_write_flag b) >> transocks_shutdown (fd_of b c) How.shut_wr)
              else skip)
            os
            (live c s))
  told client_side true c s g fc =
      rw (g, stable.calls _ _ _ refl (stable.writes client_side c s.trace fc)) refl
  told relay_side true c s g fc =
      rw (g, stable.calls _ _ _ refl (stable.writes relay_side c s.trace fc)) refl
  told b false c s g fc = rw (g, fc) refl

  finish_write-Holds :
      (b : Side) (s : State) → holds f s ≡ true → Ends (Holds f) (finish_write b os s)
  unfolding finish_write
  finish_write-Holds b = at_held f (Holds f) (finish_write b) os λ c s g fc.
      told b _ c (log (Call.output_length (bev_of b c) ∷ []) s) g (stable.calls _ c s.trace refl fc)

  on_read_eof-Holds :
      (a : Side) (s : State) → holds f s ≡ true → Ends (Holds f) (on_read_eof a os s)
  unfolding on_read_eof
  on_read_eof-Holds client_side = at_held f (Holds f) (on_read_eof client_side) os λ c s g fc.
      finish_write-Holds relay_side _ (
        rw
          (
            g,
            stable.calls _ _ _ refl
                (stable.calls _ _ _ refl (stable.reads client_side c s.trace fc)),
          )
          refl)
  on_read_eof-Holds relay_side = at_held f (Holds f) (on_read_eof relay_side) os λ c s g fc.
      finish_write-Holds client_side _ (
        rw
          (
            g,
            stable.calls _ _ _ refl
                (stable.calls _ _ _ refl (stable.reads relay_side c s.trace fc)),
          )
          refl)

  on_write_eof-Holds :
      (a : Side) (s : State) → holds f s ≡ true → Ends (Holds f) (on_write_eof a os s)
  unfolding on_write_eof
  on_write_eof-Holds client_side = at_held f (Holds f) (on_write_eof client_side) os λ c s g fc.
      rw
        (
          g,
          stable.calls _ _ _ refl
              (stable.calls _ _ _ refl (stable.writes client_side c s.trace fc)),
        )
        refl
  on_write_eof-Holds relay_side = at_held f (Holds f) (on_write_eof relay_side) os λ c s g fc.
      rw
        (
          g,
          stable.calls _ _ _ refl (stable.calls _ _ _ refl (stable.writes relay_side c s.trace fc)),
        )
        refl

  pub then_check :
      (m : M (Unit {0})) (s : State)
      → Ends (Holds f) (m os s)
      → Ends (FreedOr f) ((m >> check_close p) os s)
  then_check m s h =
      Ends-bind (Holds f) (FreedOr f) (m os s) _ os h λ _ t ht. check_close-FreedOr t ht

  eventcb-FreedOr :
      (a : Side) (bevs errno : ℕ) (s : State)
      → holds f s ≡ true
      → Ends (FreedOr f) (eventcb p a bevs errno os s)
  unfolding eventcb
  eventcb-FreedOr a bevs errno s h = elim (Bool-cases (is_read_eof bevs)) [
    | inl read ↦ rw read (then_check (on_read_eof a) s (on_read_eof-Holds a s h))
    | inr not_read ↦ rw not_read (elim (Bool-cases (is_write_eof bevs errno)) [
      | inl write ↦ rw write (then_check (on_write_eof a) s (on_write_eof-Holds a s h))
      | inr not_write ↦ rw not_write (elim (Bool-cases (transocks_chkbit bevs bev_event_error)) [
        | inl error ↦ rw error (free-FreedOr s h)
        | inr other ↦ rw other (check_close-FreedOr s h)
      ])
    ])
  ]

  pub cb-FreedOr :
      (e : BufferEvent) (s : State) → holds f s ≡ true → Ends (FreedOr f) (bufferpump_cb p e os s)
  unfolding bufferpump_cb writecb
  cb-FreedOr (readable a) s h =
      Ends-mono (Holds f) (FreedOr f) (readcb a os s) (readcb-Holds a s h) λ _ t ht. inr ht
  cb-FreedOr (writable b) s h = then_check (finish_write b) s (finish_write-Holds b s h)
  cb-FreedOr (happened a bevs errno) s h = eventcb-FreedOr a bevs errno s h

  pub go_on :
      (m : M (Unit {0})) (t : State)
      → (FreedOr f) tt t
      → (holds f t ≡ true → Ends (FreedOr f) (m os t))
      → Ends (FreedOr f) ((has_client >>= λ live. if live then m else skip) os t)
  go_on m t (inl e) next = simp e (inl refl)
  go_on m t (inr h) next = runs_on f (FreedOr f) m os t h (next h)

  -- What holds of the client goes on to hold, until it is freed.
  pub buffer_run-FreedOr :
      (es : List BufferEvent) (s : State)
      → holds f s ≡ true
      → Ends (FreedOr f) (buffer_run p es os s)
  unfolding buffer_run
  buffer_run-FreedOr [] s h = inr h
  buffer_run-FreedOr (e ∷ es) s h =
      Ends-bind (FreedOr f) (FreedOr f) (bufferpump_cb p e os s) _ os (cb-FreedOr e s h)
        λ _ t ht. go_on (buffer_run p es) t ht (λ h'. buffer_run-FreedOr es t h')

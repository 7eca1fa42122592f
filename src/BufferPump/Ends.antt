-- ===== src/BufferPump/Ends.antt =====
-- bufferpump.c: a connection both of whose sides have ended is freed.
use transocks_wong.Prelude.{
  ◌≡◌, ◌≢◌, refl, sym, subst, true, false, Bool-cases, ◌⊎◌, inl, inr, none, some, Option, List, [],
  ◌∷◌, ◌++◌, if◌then◌else◌, arith,
}
use transocks_wong.Machine.{
  Ptr, Call, How, and_then, Os, Client, State, Run, ok, fault, M, skip, ◌>>=◌, ◌>>◌, has_client,
}
use transocks_wong.Machine.Log.{live, log}
use transocks_wong.Machine.Returns.{Ends, Ends-bind, Ends-mono, Ends-both, Ends-eq}
use transocks_wong.Context.{is_gone}
use transocks_wong.Context.Live.{is_live, live-parts, State-live}
use transocks_wong.BufferPump.{
  client_side, relay_side, BufferEvent, writable, transocks_bufferpump_free, check_close,
  finish_write, writecb, bufferpump_cb, buffer_run,
}
use transocks_wong.BufferPump.Runs.{Freed, bufferpump_free-Freed}
use transocks_wong.BufferPump.Facts.{Fact, holds, FreedOr, holds-live}
use transocks_wong.BufferPump.Ended.{tells_end, ended, any, run_ends}

-- From now on nothing is left in an output buffer.
abbrev pub IsFlushed : Os → State → Type 0
IsFlushed os s =
    (more : List Call) (bev : Ptr) → (os (more ++ s.trace) (Call.output_length bev)).size ≡ 0

module _ (p : Ptr) (ne : p ≢ 0) (os : Os) where
  last_write :
      (c : Client) (s : State)
      → is_gone c.client_state ≡ false
      → c.client_shutdown_read ≡ true
      → c.relay_shutdown_read ≡ true
      → c.client_shutdown_write ≡ true
      → (os s.trace (Call.output_length c.relay_bev)).size ≡ 0
      → Ends Freed (writecb p relay_side os (live c s))
  unfolding writecb finish_write check_close
  last_write c s g r r' w e = rw (e, r', r, w) (bufferpump_free-Freed p ne os _ (rw g refl))

  after_last :
      (m k : M (Unit {0})) (s : State)
      → Ends Freed (m os s)
      → Ends Freed ((m >> (has_client >>= λ live. if live then k else skip)) os s)
  after_last m k s h = Ends-bind Freed Freed (m os s) _ os h λ _ t e. simp e refl

  -- What the client's write callback leaves, if it does not free it.
  abbrev told : Client → State → State
  told c s =
      log (Call.shutdown c.client_fd How.shut_wr ∷ Call.output_length c.client_bev ∷ [])
        (live (record c { client_shutdown_write = true }) s)

  first_write :
      (c : Client) (s : State)
      → is_gone c.client_state ≡ false
      → c.client_shutdown_read ≡ true
      → c.relay_shutdown_read ≡ true
      → IsFlushed os s
      → Ends (λ _ t. (t.client ≡ none) ⊎ (t ≡ told c s)) (writecb p client_side os (live c s))
  unfolding writecb finish_write check_close
  first_write c s g r r' flushed =
      rw (flushed [] c.client_bev, r', r)
        (elim (Bool-cases c.relay_shutdown_write) [
          | inl all ↦ rw all (
              Ends-mono Freed _ (transocks_bufferpump_free p os _)
                (bufferpump_free-Freed p ne os _ (rw g refl)) λ _ t e. inl e)
          | inr three ↦ rw three (inr refl)
        ])

  -- With both sides ended and nothing left to write, the two write callbacks free the client.
  closing :
      (c : Client) (s : State)
      → is_gone c.client_state ≡ false
      → c.client_shutdown_read ≡ true
      → c.relay_shutdown_read ≡ true
      → IsFlushed os s
      → Ends Freed (buffer_run p (writable client_side ∷ writable relay_side ∷ []) os (live c s))
  unfolding buffer_run bufferpump_cb
  closing c s g r r' flushed =
      Ends-bind (λ _ t. (t.client ≡ none) ⊎ (t ≡ told c s)) Freed
        (writecb p client_side os (live c s)) _ os (first_write c s g r r' flushed)
        λ _ t ht. elim ht [
          | inl e ↦ simp e refl
          | inr e ↦ rw e (
              after_last (writecb p relay_side) skip (told c s) (
                last_write (record c { client_shutdown_write = true })
                  (log
                    (Call.shutdown c.client_fd How.shut_wr ∷ Call.output_length c.client_bev ∷ [])
                    s)
                  g r r' refl
                  (flushed
                    (Call.shutdown c.client_fd How.shut_wr ∷ Call.output_length c.client_bev ∷ [])
                    c.relay_bev)))
        ]

  go_after :
      (es es' : List BufferEvent) (t : State) (oc : Option Client)
      → t.client ≡ oc
      → Ends
          (λ _ u. (u.client ≡ none) ⊎ Ends Freed (buffer_run p es' os u))
          ((has_client >>= λ live. if live then buffer_run p es else skip) os t)
      → ((c : Client)
          → t.client ≡ some c
          → Ends
              (λ _ u. (u.client ≡ none) ⊎ Ends Freed (buffer_run p es' os u))
              (buffer_run p es os t)
          → Ends Freed (buffer_run p (es ++ es') os t))
      → Ends Freed ((has_client >>= λ live. if live then buffer_run p (es ++ es') else skip) os t)
  go_after es es' t none e h next = simp e refl
  go_after es es' t (some c) e h next = simp e (next c e (simp e at h))

  run_after :
      (es es' : List BufferEvent) (c : Client) (s : State)
      → s.client ≡ some c
      → Ends (λ _ t. (t.client ≡ none) ⊎ Ends Freed (buffer_run p es' os t)) (buffer_run p es os s)
      → Ends Freed (buffer_run p (es ++ es') os s)
  unfolding buffer_run
  run_after [] es' c s e h = elim h [ inl gone ↦ cc | inr rest ↦ rest ]
  run_after (x ∷ es) es' c s e h =
      go (bufferpump_cb p x os s) h λ t c' e' h'. run_after es es' c' t e' h'
    where
      go :
          (r : Run (Unit {0}))
          → Ends
              (λ _ t. (t.client ≡ none) ⊎ Ends Freed (buffer_run p es' os t))
              (and_then r (λ _. has_client >>= λ live. if live then buffer_run p es else skip) os)
          → ((t : State) (c' : Client)
              → t.client ≡ some c'
              → Ends
                  (λ _ u. (u.client ≡ none) ⊎ Ends Freed (buffer_run p es' os u))
                  (buffer_run p es os t)
              → Ends Freed (buffer_run p (es ++ es') os t))
          → Ends Freed (
              and_then r
                (λ _. has_client >>= λ live. if live then buffer_run p (es ++ es') else skip)
                os)
      go (ok a t) h next = go_after es es' t t.client refl h (next t)
      go (fault f) h next = h

  both_held :
      (t : State)
      → FreedOr (ended client_side) tt t × FreedOr (ended relay_side) tt t
      → (holds (ended client_side) t ≡ true
          → holds (ended relay_side) t ≡ true
          → Ends Freed (buffer_run p (writable client_side ∷ writable relay_side ∷ []) os t))
      → (t.client ≡ none)
        ⊎ Ends Freed (buffer_run p (writable client_side ∷ writable relay_side ∷ []) os t)
  both_held t (inl e, _) next = inl e
  both_held t (inr h, inl e) next = inl e
  both_held t (inr h, inr k) next = inr (next h k)

  held_closing :
      (t : State)
      → IsFlushed os t
      → holds (ended client_side) t ≡ true
      → holds (ended relay_side) t ≡ true
      → Ends Freed (buffer_run p (writable client_side ∷ writable relay_side ∷ []) os t)
  held_closing t flushed h k =
      let (c, e, g) = live-parts t (holds-live (ended client_side) t h) in
      subst (λ u. Ends Freed (buffer_run p (writable client_side ∷ writable relay_side ∷ []) os u))
        (sym (State-live t e))
        (closing c t g (known_flag (ended client_side) t e h) (known_flag (ended relay_side) t e k)
          flushed)
    where
      known_flag :
          (f : Fact) (t : State) {c : Client}
          → t.client ≡ some c
          → holds f t ≡ true
          → f c t.trace ≡ true
      known_flag f t e h = ground arith

  -- If both sides of a client that is not gone have told bufferpump.c of their end, in any sequence of
  -- callbacks, and nothing is left in the output buffers from then on, the write callbacks of the two
  -- sides free the client at the latest.
  pub buffer_run-ends :
      (es : List BufferEvent) (s : State)
      → is_live s ≡ true
      → tells_end client_side es ≡ true
      → tells_end relay_side es ≡ true
      → ((t : State) → buffer_run p es os s ≡ ok tt t → IsFlushed os t)
      → Ends Freed (buffer_run p (es ++ writable client_side ∷ writable relay_side ∷ []) os s)
  buffer_run-ends es s live ct rt flushed =
      let (c, e, g) = live-parts s live in
      let h : holds any s ≡ true = ground arith in
      run_after es (writable client_side ∷ writable relay_side ∷ []) c s e (
        Ends-mono _ _ (buffer_run p es os s)
          (Ends-eq _ (buffer_run p es os s) (
            Ends-both (FreedOr (ended client_side)) (FreedOr (ended relay_side))
              (buffer_run p es os s) (run_ends p ne os client_side es s ct h)
              (run_ends p ne os relay_side es s rt h)))
          λ _ t ht. both_held t ht.0 (held_closing t (flushed t ht.1)))

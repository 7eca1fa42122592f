-- ===== src/BufferPump/Ended.antt =====
-- bufferpump.c: an end that a side has told of is kept.
use transocks_wong.Prelude.{
  ◌≡◌, ◌≢◌, refl, Bool, true, false, ◌||◌, Bool-cases, inl, inr, List, [], ◌∷◌, if◌then◌else◌,
  arith,
}
use transocks_wong.Machine.{Ptr, Os, State, skip, ◌>>=◌, has_client}
use transocks_wong.Machine.Returns.{Ends, Ends-bind}
use transocks_wong.Context.Live.{live-parts}
use transocks_wong.BufferPump.{
  Side, client_side, relay_side, BufferEvent, readable, writable, happened, finish_write, eventcb,
  on_read_eof, is_read_eof, bufferpump_cb, buffer_run, read_flag,
}
use transocks_wong.BufferPump.Facts.{Fact, holds, IsStable, Holds, FreedOr, holds-live}
use transocks_wong.BufferPump.Flags.{then_check, buffer_run-FreedOr, cb-FreedOr, go_on}

-- An event that tells of the end of what a side sends.
abbrev pub ends_side : Side → BufferEvent → Bool
ends_side client_side (happened client_side bevs errno) = is_read_eof bevs
ends_side relay_side (happened relay_side bevs errno) = is_read_eof bevs
ends_side _ _ = false

abbrev pub tells_end : Side → List BufferEvent → Bool
tells_end a [] = false
tells_end a (e ∷ es) = ends_side a e || tells_end a es

abbrev pub ended : Side → Fact
ended a c tr = read_flag a c

pub ended-IsStable : (a : Side) → IsStable (ended a)
ended-IsStable client_side = record {
  reads = elim [ client_side ↦ λ c tr h. refl | relay_side ↦ λ c tr h. h ];
  writes = elim [ client_side ↦ λ c tr h. h | relay_side ↦ λ c tr h. h ];
  calls = λ k c tr q h. h;
}
ended-IsStable relay_side = record {
  reads = elim [ client_side ↦ λ c tr h. h | relay_side ↦ λ c tr h. refl ];
  writes = elim [ client_side ↦ λ c tr h. h | relay_side ↦ λ c tr h. h ];
  calls = λ k c tr q h. h;
}

abbrev pub any : Fact
any c tr = true

any-IsStable : IsStable any
any-IsStable = record {
  reads = λ a c tr h. refl;
  writes = λ a c tr h. refl;
  calls = λ k c tr q h. refl;
}

module _ (p : Ptr) (ne : p ≢ 0) (os : Os) where
  ended-Holds :
      (a : Side) (s : State) → holds any s ≡ true → Ends (Holds (ended a)) (on_read_eof a os s)
  unfolding on_read_eof finish_write
  ended-Holds client_side s h = ground arith
  ended-Holds relay_side s h = ground arith

  end_event :
      (a : Side) (e : BufferEvent) (s : State)
      → ends_side a e ≡ true
      → holds any s ≡ true
      → Ends (FreedOr (ended a)) (bufferpump_cb p e os s)
  unfolding bufferpump_cb eventcb
  end_event client_side (happened client_side bevs errno) s t h = rw t (
      then_check (ended client_side) (ended-IsStable client_side) p ne os (on_read_eof client_side)
        s (ended-Holds client_side s h))
  end_event relay_side (happened relay_side bevs errno) s t h = rw t (
      then_check (ended relay_side) (ended-IsStable relay_side) p ne os (on_read_eof relay_side) s
        (ended-Holds relay_side s h))
  end_event client_side (happened relay_side bevs errno) s t h = cc
  end_event relay_side (happened client_side bevs errno) s t h = cc
  end_event client_side (readable a) s t h = cc
  end_event relay_side (readable a) s t h = cc
  end_event client_side (writable a) s t h = cc
  end_event relay_side (writable a) s t h = cc

  pub run_ends :
      (a : Side) (es : List BufferEvent) (s : State)
      → tells_end a es ≡ true
      → holds any s ≡ true
      → Ends (FreedOr (ended a)) (buffer_run p es os s)
  unfolding buffer_run
  run_ends a [] s tells h = cc
  run_ends a (e ∷ es) s tells h = elim (Bool-cases (ends_side a e)) [
    | inl ends ↦
        Ends-bind (FreedOr (ended a)) (FreedOr (ended a)) (bufferpump_cb p e os s) _ os
          (end_event a e s ends h)
          λ _ t ht.
            go_on (ended a) (ended-IsStable a) p ne os (buffer_run p es) t ht
              (λ h'. buffer_run-FreedOr (ended a) (ended-IsStable a) p ne os es t h')
    | inr later ↦
        Ends-bind (FreedOr any) (FreedOr (ended a)) (bufferpump_cb p e os s) _ os
          (cb-FreedOr any any-IsStable p ne os e s h)
          λ _ t ht. later_ends a es t (ground arith) ht (run_ends a es t)
  ]
    where
      later_ends :
          (a : Side) (es : List BufferEvent) (t : State)
          → tells_end a es ≡ true
          → FreedOr any tt t
          → (tells_end a es ≡ true
              → holds any t ≡ true
              → Ends (FreedOr (ended a)) (buffer_run p es os t))
          → Ends
              (FreedOr (ended a))
              ((has_client >>= λ live. if live then buffer_run p es else skip) os t)
      later_ends a es t tells (inl e) next = simp e (inl refl)
      later_ends a es t tells (inr h) next =
          let (c, e, g) = live-parts t (holds-live any t h) in simp e (next tells h)

-- ===== src/Machine/Monad.antt =====
-- A handler: from the world and a state to a result and the next state, or to a fault.
use transocks_wong.Prelude.{Bool, true, false, not, none, some, ◌∷◌, if◌then◌else◌, nonzero}
use transocks_wong.Machine.Calls.{Call, Reply, Os}
use transocks_wong.Machine.Structs.{State, Client, SplicePump, Sockaddr, GlobalEnv}

pub data Fault : Type 0 where
  null_deref use_after_free out_of_bounds uninitialised : Fault

pub data Run (A : Type 0) : Type 0 where
  ok : A → State → Run A
  fault : Fault → Run A

abbrev pub M : Type 0 → Type 0
M A = Os → State → Run A

module _ {A : Type 0} where
  abbrev pub pure : A → M A
  pure a os s = ok a s

  abbrev pub fail : Fault → M A
  fail f os s = fault f

module _ {A B : Type 0} where
  abbrev pub and_then : Run A → (A → M B) → Os → Run B
  and_then (ok a s) k os = k a os s
  and_then (fault f) k os = fault f

  infixl 5 ◌>>=◌ ◌>>◌
  abbrev pub ◌>>=◌ : M A → (A → M B) → M B
  ◌>>=◌ m k os s = and_then (m os s) k os

  abbrev pub ◌>>◌ : M A → M B → M B
  ◌>>◌ m k os s = and_then (m os s) (λ _. k) os

abbrev pub skip : M (Unit {0})
skip = pure tt

-- A call of the outside world.
abbrev pub call : Call → M Reply
call c os s = ok (os s.trace c) (record s { trace = c ∷ s.trace })

abbrev pub call_ : Call → M (Unit {0})
call_ c os s = ok tt (record s { trace = c ∷ s.trace })

-- Every access to the client goes through its block, and is a fault once that is freed.
abbrev pub get_client : M Client
get_client os s = elim s.client [ none ↦ fault use_after_free | some c ↦ ok c s ]

abbrev pub set_client : Client → M (Unit {0})
set_client c os s = elim s.client [
  | none ↦ fault use_after_free
  | some _ ↦ ok tt (record s { client = some c })
]

abbrev pub get_pump : M SplicePump
get_pump os s = elim s.pump [ none ↦ fault use_after_free | some p ↦ ok p s ]

abbrev pub set_pump : SplicePump → M (Unit {0})
set_pump p os s = elim s.pump [
  | none ↦ fault use_after_free
  | some _ ↦ ok tt (record s { pump = some p })
]

-- `goto fail` on the first step that does not succeed.
infixr 4 ◌>>?◌
abbrev pub ◌>>?◌ : M Bool → M Bool → M Bool
◌>>?◌ m k os s = and_then (m os s) (λ good. if good then k else pure false) os

-- A call whose result is tested against 0.
abbrev pub succeeds : Call → M Bool
succeeds c = call c >>= λ r. pure (not (nonzero r.ret))

-- A block enters and leaves the heap.
abbrev pub alloc_client : Client → M (Unit {0})
alloc_client c os s = ok tt (record s { client = some c })

abbrev pub drop_client : M (Unit {0})
drop_client os s = ok tt (record s { client = none })

abbrev pub alloc_pump : SplicePump → M (Unit {0})
alloc_pump p os s = ok tt (record s { pump = some p })

abbrev pub drop_pump : M (Unit {0})
drop_pump os s = ok tt (record s { pump = none })

abbrev pub set_dest : Sockaddr → M (Unit {0})
set_dest d os s = ok tt (record s { dest = d })

abbrev pub get_dest : M Sockaddr
get_dest os s = ok s.dest s

abbrev pub get_env : M GlobalEnv
get_env os s = elim s.env [ none ↦ fault use_after_free | some e ↦ ok e s ]

abbrev pub modify_env : (GlobalEnv → GlobalEnv) → M (Unit {0})
modify_env f os s = elim s.env [
  | none ↦ fault use_after_free
  | some e ↦ ok tt (record s { env = some (f e) })
]

abbrev pub alloc_env : GlobalEnv → M (Unit {0})
alloc_env e os s = ok tt (record s { env = some e })

abbrev pub drop_env : M (Unit {0})
drop_env os s = ok tt (record s { env = none })

abbrev pub modify_client : (Client → Client) → M (Unit {0})
modify_client f os s = elim s.client [
  | none ↦ fault use_after_free
  | some c ↦ ok tt (record s { client = some (f c) })
]

abbrev pub modify_pump : (SplicePump → SplicePump) → M (Unit {0})
modify_pump f os s = elim s.pump [
  | none ↦ fault use_after_free
  | some p ↦ ok tt (record s { pump = some (f p) })
]

abbrev pub has_client : M Bool
has_client os s = ok (elim s.client [ none ↦ false | some _ ↦ true ]) s

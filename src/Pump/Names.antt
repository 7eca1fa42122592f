-- ===== src/Pump/Names.antt =====
-- pump.c: the choice of the pump method.
use Prim.Native.String.{String}
use text.Mathlib.Text.{◌==◌ as str_eq}
use text.Mathlib.TextEquality.{eq_iff}
use transocks_wong.Prelude.{subst, ◌≡◌, refl, true, Bool-cases, some, List, [], ◌∷◌, ◌↔◌, inl, inr}
use transocks_wong.Pump.{
  Method, splicepump, bufferpump, name, transocks_pumps, find_pump, transocks_pump_init,
}

eq-path : (s t : String) → str_eq s t ≡ true → s ≡ t
eq-path s t h = (eq_iff s t).0 h

pump_init-name : (m : Method) → transocks_pump_init (name m) ≡ some m
unfolding transocks_pump_init find_pump
pump_init-name splicepump = refl
pump_init-name bufferpump = refl

some-path : {a b : Method} → some a ≡ some b → a ≡ b
some-path h = cc

found-name :
    (s : String) (ms : List Method) (m : Method)
    → find_pump s ms ≡ some m
    → str_eq s (name m) ≡ true
unfolding find_pump
found-name s [] m h = cc
found-name s (n ∷ ms) m h = elim (Bool-cases (str_eq s (name n))) [
  | inl same ↦ subst (λ k. str_eq s (name k) ≡ true) (some-path (rw same at h)) same
  | inr differ ↦ found-name s ms m (rw differ at h)
]

-- `transocks_pump_init` takes a name exactly if it is that of one of the two methods, and takes that
-- method.
pub pump_init_iff : (s : String) (m : Method) → (transocks_pump_init s ≡ some m) ↔ (s ≡ name m)
unfolding transocks_pump_init
pump_init_iff s m =
    (λ h. eq-path s (name m) (found-name s transocks_pumps m h), λ e. rw e (pump_init-name m))

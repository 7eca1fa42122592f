-- ===== src/Pump.antt =====
-- pump.c: the method by which a client's data is pumped.
pub mod Names
use transocks_wong.Prelude.{ℤ, if◌then◌else◌, nonzero, minus_one, Option, none, some, List, [], ◌∷◌}
use transocks_wong.Machine.{Ptr, ClientState, M, pure, ◌>>=◌, ◌>>◌, modify_client}
use transocks_wong.SplicePump.{transocks_splicepump_free}
use transocks_wong.SplicePump.Start.{transocks_splicepump_start_pump}
use transocks_wong.BufferPump.{transocks_bufferpump_free, transocks_bufferpump_start_pump}
use Prim.Native.String.{String}
use text.Mathlib.Text.{◌==◌ as str_eq}

-- The entries of `transocks_pumps`, in its order; each has all of its functions.
pub data Method : Type 0 where
  splicepump bufferpump : Method

abbrev pub name : Method → String
name splicepump = "splicepump"
name bufferpump = "bufferpump"

abbrev pub transocks_pumps : List Method
transocks_pumps = splicepump ∷ bufferpump ∷ []

find_pump : String → List Method → Option Method
find_pump pump_method_name [] = none
find_pump pump_method_name (m ∷ ms) =
    if str_eq pump_method_name (name m) then some m else find_pump pump_method_name ms

-- `none` is -1: no such method. Otherwise it is the new `pumpMethodImpl`.
unfoldable pub transocks_pump_init : String → Option Method
unfolding find_pump
transocks_pump_init pump_method_name = find_pump pump_method_name transocks_pumps

unfoldable pub start_pump_fn : Method → Ptr → M ℤ
start_pump_fn splicepump = transocks_splicepump_start_pump
start_pump_fn bufferpump = transocks_bufferpump_start_pump

unfoldable pub transocks_start_pump : Method → Ptr → M ℤ
unfolding start_pump_fn
transocks_start_pump impl pclient = do
  e ← start_pump_fn impl pclient
  if nonzero e then pure minus_one else do
    modify_client (λ c. record c { client_state = ClientState.pumping_data })
    pure (ℤ.pos 0)

unfoldable pub transocks_pump_free : Method → Ptr → M (Unit {0})
transocks_pump_free splicepump = transocks_splicepump_free
transocks_pump_free bufferpump = transocks_bufferpump_free

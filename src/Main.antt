-- ===== src/Main.antt =====
-- transocks.c: the command line, the start of the program and its end.
pub mod CommandLine
pub mod StartUp
pub mod ShutDown
use Prim.Native.String.{String}
use transocks_wong.Prelude.{ℕ, ◌==◌, if◌then◌else◌, nonzero, Option, none, some, List, [], ◌∷◌}
use transocks_wong.Machine.{
  Ptr, Bytes, Call, Sockaddr, M, pure, skip, call, ◌>>=◌, ◌>>◌, modify_env,
}
use transocks_wong.Util.{validate_addr_port, transocks_parse_sockaddr_port}
use transocks_wong.Pump.{Method, bufferpump, transocks_pump_init}
use transocks_wong.Signal.{signal_init}
use transocks_wong.Listener.{listener_init}
use transocks_wong.GlobalEnv.{transocks_global_env_new, transocks_global_env_free}
use transocks_wong.Clients.{Entry, transocks_drop_all_clients}

-- What `getopt_long` gives, with `optarg`.
pub data Opt : Type 0 where
  listener_addr_port socks5_addr_port : String → Opt
  pump_method : Option String → Opt
  help unknown : Opt

pub record Args : Type 0 where
  pub listener : Option String
  pub socks5 : Option String
  pub pump : Option String

abbrev pub no_args : Args
no_args = record { listener = none; socks5 = none; pump = none }

-- `none` is `PRINTHELP_EXIT`.
unfoldable pub parse_args : List Opt → Args → Option Args
parse_args [] a = some a
parse_args (listener_addr_port s ∷ os) a = parse_args os (record a { listener = some s })
parse_args (socks5_addr_port s ∷ os) a = parse_args os (record a { socks5 = some s })
parse_args (pump_method s ∷ os) a = parse_args os (record a { pump = s })
parse_args (help ∷ os) a = none
parse_args (unknown ∷ os) a = none

pub record Config : Type 0 where
  pub bind : Sockaddr × ℕ
  pub relay : Sockaddr × ℕ
  pub pump_method : String

-- `help_exit` and `fatal` end the program with a failure.
pub data Outcome : Type 0 where
  help_exit fatal : Outcome
  run : Config → Outcome

abbrev pub pump_or_default : Option String → String
pump_or_default none = "bufferpump"
pump_or_default (some s) = s

module _ (evutil_parse : String → ℕ → Option (Sockaddr × ℕ)) where
  unfoldable pub check_config : String → String → Option String → Outcome
  check_config listener socks5 pump = elim (transocks_parse_sockaddr_port evutil_parse listener) [
    | none ↦ fatal
    | some l ↦ elim (transocks_parse_sockaddr_port evutil_parse socks5) [
      | none ↦ fatal
      | some r ↦
          if validate_addr_port l.0
          then (if validate_addr_port r.0
              then run (record { bind = l; relay = r; pump_method = pump_or_default pump })
              else fatal)
          else fatal
    ]
  ]

  unfoldable pub require_args : Option String → Option String → Option String → Outcome
  require_args none _ pump = help_exit
  require_args (some l) none pump = help_exit
  require_args (some l) (some r) pump = check_config l r pump

  -- `main` up to the global environment.
  unfoldable pub configure : List Opt → Outcome
  unfolding require_args
  configure opts = elim (parse_args opts no_args) [
    | none ↦ help_exit
    | some a ↦ require_args a.listener a.socks5 a.pump
  ]

-- `main` from the global environment to the event loop: the environment's address (NULL is
-- `bareExit`), and the pump method, or `none` for `goto shutdown`.
unfoldable pub start_up : Config → M (Ptr × Option Method)
start_up cfg = do
  env ← transocks_global_env_new
  if env == 0 then pure (0, none) else do
    e ← signal_init
    if nonzero e then pure (env, none) else do
      modify_env (λ g. record g {
        bind_family = cfg.bind.0.ss_family;
        bind_addr_len = cfg.bind.1;
        relay_family = cfg.relay.0.ss_family;
        relay_addr_len = cfg.relay.1;
      })
      e ← listener_init
      if nonzero e then pure (env, none) else do
        name ← call Call.strdup
        modify_env (λ g. record g { pump_method_name = name.ptr })
        if name.ptr == 0 then pure (env, none) else pure (env, transocks_pump_init cfg.pump_method)

-- The label `shutdown`: what is left of the clients, and the environment's end.
unfoldable pub shut_down :
    (Ptr → Sockaddr) → (ℕ → Bytes → Option Bytes) → Method → List Entry → Ptr → M (List Entry)
shut_down memory inet_ntop impl clients env = do
  left ← transocks_drop_all_clients memory inet_ntop impl clients
  if env == 0 then skip else transocks_global_env_free env
  pure left

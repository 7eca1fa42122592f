-- ===== src/Examples/Life.antt =====
-- The life of a client, of the environment and of the listener on concrete answers.
use transocks_wong.Prelude.{
  ℕ, ◌+◌, ◌≤◌, ◌≡◌, refl, ℤ, pos, minus_one, true, ◌==◌, if◌then◌else◌, none, some, Option, List,
  [], ◌∷◌, ◌↔◌,
}
use Prim.Native.String.{String}
use transocks_wong.Machine.{
  Ptr, Call, Callback, Os, GlobalEnv, Sockaddr, State, ok, fault, null_deref,
}
use transocks_wong.Machine.Log.{closes, count, free_of, bev_free_of, event_free_of, live, log}
use transocks_wong.Machine.Returns.{Ends}
use transocks_wong.Context.{transocks_client_free, transocks_client_set_timeout}
use transocks_wong.Context.Releases
use transocks_wong.Context.New as ClientNew
use transocks_wong.Context.Timeout
use transocks_wong.GlobalEnv.{zero_env, transocks_global_env_new}
use transocks_wong.GlobalEnv.New as EnvNew
use transocks_wong.GlobalEnv.Free as EnvFree
use transocks_wong.GlobalEnv.{transocks_global_env_free}
use transocks_wong.Signal.{signal_deinit}
use transocks_wong.Signal.Deinit
use transocks_wong.Util.{validate_addr_port, transocks_parse_sockaddr_port}
use transocks_wong.Util.Pipes
use transocks_wong.Util.Addresses
use transocks_wong.Listener.{start_client, add_listener, listener_cb}
use transocks_wong.Listener.Failures
use transocks_wong.Listener.Accepts
use transocks_wong.Listener.Safety
use transocks_wong.Pump.{splicepump, name, transocks_pump_init}
use transocks_wong.Pump.Names
use transocks_wong.Clients.{Entry, transocks_drop_all_clients}
use transocks_wong.Clients.DropAll
use transocks_wong.Main.{
  Opt, listener_addr_port, socks5_addr_port, Config, run, require_args, parse_args, check_config,
  configure,
}
use transocks_wong.Main.CommandLine
use transocks_wong.Main.StartUp
use transocks_wong.Main.{start_up}
use transocks_wong.Prelude.{arith}
use transocks_wong.Machine.{Listener}
use transocks_wong.Machine.Closes.{all_closes, options_of, held_by}
use transocks_wong.Macros.{bev_opt_close_on_free}
use transocks_wong.Machine.{State}
use transocks_wong.Examples.World.{
  homes, ntop, ntop-laws, reply, calm, poor, guest, pumped, both_ways, still, destination, nine,
}

-- The client's bufferevent is at address 30, and has its descriptor.
abbrev opener : Os
opener tr c = reply (pos 0) 30

abbrev opened : State
opened = record still {
  trace =
      Call.bufferevent_setfd 30 (pos 5)
      ∷ Call.bufferevent_socket_new minus_one bev_opt_close_on_free
      ∷ [];
}

transocks_client_free-releases_example :
    (t : State) × (transocks_client_free 9 opener (live guest opened) ≡ ok tt t)
    × (t.client ≡ none)
    × ((fd : ℤ)
        → closes fd t.trace
          ≡ Releases.one_fd (pos 5) fd + Releases.one_fd (pos 6) fd + closes fd opened.trace)
    × ((fd : ℤ)
        → all_closes opener fd t.trace
          ≡ Releases.one_fd (pos 5) fd
            + Releases.one_fd (pos 6) fd
            + Releases.shut_with opener fd 30 opened.trace
            + Releases.shut_with opener fd 31 opened.trace
            + all_closes opener fd opened.trace)
    × ((b : Ptr)
        → count (free_of b) t.trace
          ≡ (if 9 == b then 1 else 0)
            + Releases.one_ptr 20 b
            + Releases.one_ptr 21 b
            + count (free_of b) opened.trace)
    × ((b : Ptr)
        → count (bev_free_of b) t.trace
          ≡ Releases.one_ptr 30 b + Releases.one_ptr 31 b + count (bev_free_of b) opened.trace)
transocks_client_free-releases_example =
    Releases.transocks_client_free-releases opener 9 guest opened nine refl

-- So its descriptor is closed once with it, besides once by `close`.
shut_once : Releases.shut_with opener (pos 5) 30 opened.trace ≡ 1
unfolding options_of held_by
shut_once = refl

transocks_global_env_new-outcome_example : transocks_global_env_new poor still ≡ fault null_deref
transocks_global_env_new-outcome_example = EnvNew.transocks_global_env_new-outcome poor still

set_timeout-arms_example :
    transocks_client_set_timeout 60 Callback.socks5_timeout_cb calm (live guest still)
    ≡ ok (pos 0) (
        log
          (Call.evtimer_add 40 60
            ∷ Call.evtimer_assign 40 Callback.socks5_timeout_cb
            ∷ Call.event_del 40
            ∷ [])
          (live guest still))
set_timeout-arms_example = Timeout.set_timeout-arms calm 60 Callback.socks5_timeout_cb guest still

abbrev pub set_up : GlobalEnv
set_up = record zero_env { bind_family = 2; sigterm_ev = 80; sigint_ev = 81; sighup_ev = 82 }

signal_deinit-releases_example :
    (t : State) × (signal_deinit calm (Deinit.with_env set_up still) ≡ ok tt t)
    × (t ≡ log (Deinit.signal_calls set_up) (Deinit.with_env (Deinit.no_signals set_up) still))
    × (signal_deinit calm t ≡ ok tt t)
    × ((ev : Ptr)
        → count (event_free_of ev) t.trace
          ≡ Releases.one_ptr 81 ev
            + Releases.one_ptr 80 ev
            + Releases.one_ptr 82 ev
            + Releases.one_ptr 0 ev
            + count (event_free_of ev) [])
signal_deinit-releases_example = Deinit.signal_deinit-releases calm set_up still

-- `fcntl` fails.
abbrev flagless : Os
flagless tr (Call.fcntl_getfl fd) = reply minus_one 0
flagless tr c = reply (pos 0) 7

validate_addr_port_iff_example :
    (validate_addr_port destination ≡ true) ↔ Addresses.IsUsable destination
validate_addr_port_iff_example = Addresses.validate_addr_port_iff destination

start_client-closes_twice_example :
    (t : State) × (start_client 9 (pos 5) poor (live guest still) ≡ ok tt t)
    × (t.client ≡ none)
    × (closes (pos 5) [] + 2 ≤ closes (pos 5) t.trace)
start_client-closes_twice_example =
    Failures.start_client-closes_twice poor 9 (pos 5) guest still nine refl refl refl

-- `event_add` fails.
abbrev unadded : Os
unadded tr (Call.event_add ev) = reply minus_one 0
unadded tr c = reply (pos 0) 9

add_listener-closes_twice_example :
    (t : State) × (add_listener (pos 4) unadded (record still { env = some set_up })
      ≡ ok minus_one t)
    × (t.env ≡ some (record set_up { listener = none }))
    × (closes (pos 4) t.trace ≡ 2 + closes (pos 4) [])
add_listener-closes_twice_example =
    Failures.add_listener-closes_twice unadded (pos 4) set_up still refl nine nine refl

pump_init_iff_example :
    (transocks_pump_init "splicepump" ≡ some splicepump) ↔ ("splicepump" ≡ name splicepump)
pump_init_iff_example = Names.pump_init_iff "splicepump" splicepump

abbrev pub waiting : Entry
waiting = record { address = 9; client = some guest; pump = none }

abbrev pub busy : Entry
busy = record { address = 9; client = some pumped; pump = some both_ways }

drop_all_clients-left_example :
    Ends
      (λ left t. left ≡ waiting ∷ [])
      (transocks_drop_all_clients homes ntop splicepump (busy ∷ waiting ∷ busy ∷ []) calm still)
drop_all_clients-left_example =
    DropAll.drop_all_clients-left homes ntop ntop-laws calm splicepump (busy ∷ waiting ∷ busy ∷ [])
      still refl refl

abbrev always : String → ℕ → Option (Sockaddr × ℕ)
always s len = if len == 16 then some (destination, 16) else none

abbrev options : List Opt
options = listener_addr_port "0.0.0.0:1212" ∷ socks5_addr_port "127.0.0.1:1080" ∷ []

abbrev pub configured : Config
configured = record {
  bind = (destination, 16);
  relay = (destination, 16);
  pump_method = "bufferpump";
}

runs : configure always options ≡ run configured
unfolding configure require_args parse_args check_config validate_addr_port
    transocks_parse_sockaddr_port
runs = refl

configure-IsChecked_example : CommandLine.IsChecked always options configured
configure-IsChecked_example = CommandLine.configure-IsChecked always options configured runs

-- A connection is accepted on descriptor 5, from an address of 16 bytes.
abbrev knocking : Os
knocking tr (Call.accept fd) = record (reply (pos 5) 7) { size = 16 }
knocking tr c = reply (pos 0) 7

abbrev pub ear : Listener
ear = record { block = 90; listener_fd = pos 4; listener_ev = 91 }

abbrev pub hearing : GlobalEnv
hearing = record set_up { listener = some ear }

listener_cb-Answered_example :
    Ends (Safety.Answered knocking) (listener_cb 3 knocking (record still { env = some hearing }))
listener_cb-Answered_example =
    Accepts.listener_cb-Answered knocking (λ tr e. absurd (omega arith)) 3 hearing ear
      (record still { env = some hearing }) refl refl refl

start_up-IsStarted_example : Ends (StartUp.IsStarted calm) (start_up configured calm still)
start_up-IsStarted_example =
    StartUp.start_up-IsStarted calm configured still λ e. absurd (omega arith)

global_env_free-releases_example :
    (t : State) × (transocks_global_env_free 3 calm (Deinit.with_env hearing still) ≡ ok tt t)
    × (t.env ≡ none)
    × ((fd : ℤ) → closes fd t.trace ≡ Releases.one_fd (pos 4) fd + closes fd [])
    × ((b : Ptr)
        → count (free_of b) t.trace
          ≡ (if 3 == b then 1 else 0)
            + Releases.one_ptr 0 b
            + Releases.one_ptr 0 b
            + Releases.one_ptr 0 b
            + Releases.one_ptr 90 b
            + count (free_of b) [])
global_env_free-releases_example =
    EnvFree.global_env_free-releases calm 3 hearing still λ e. absurd (omega arith)

-- ===== src/Lib.antt =====
-- transocks-wong, a transparent proxy: a connection that the kernel redirects is accepted, its
-- original destination is asked for, a SOCKS5 relay is told to connect to it, and from then on
-- bytes go both ways. The sources are src/*.c and src/*.h.
--
-- The parts, and the files that model them:
--   Macros          src/util.h: the macros that free, close and test.
--   Util            src/util.c: socket options, pipes, addresses.
--   Context         src/context.c: a client's start, timer and end (transocks_client_new,
--                   transocks_client_set_timeout, transocks_client_free).
--   GlobalEnv       src/context.c: the environment.
--   Clients         src/context.c: what is done to all clients; SIGHUP and SIGUSR1 of
--                   src/signal.c.
--   Listener        src/listener.c: accepted connections and the listening socket.
--   Socks5          src/socks5.c, src/socks5.h: the handshake, one definition per callback;
--                   Socks5.Connect is transocks_start_connect_relay.
--   Pump            src/pump.c: the choice between the two pumps.
--   SplicePump      src/splicepump.c: a pipe for each direction and splice; SplicePump.Start is
--                   transocks_splicepump_start_pump.
--   BufferPump      src/bufferpump.c: from one bufferevent to the other.
--   Signal          src/signal.c.
--   Info            what is printed of a client: the dump functions of src/context.c, src/pump.c,
--                   src/splicepump.c and src/bufferpump.c; Util.Texts has the text of an address.
--   Connection      a connection from its accept to its end: which callbacks libevent may run, by the
--                   calls of bufferevent_setcb, with the handlers of Listener, Socks5 and BufferPump.
--   Main            src/transocks.c: options, start and shutdown.
-- Their children prove things, and are named for what they prove; SplicePump.Moved and
-- SplicePump.Invariant say what the counters of the pipes are measured against, Socks5.Codec
-- decodes the connect request by RFC 1928, Socks5.Relay is a relay that answers in full;
-- Connection.Protocol is the protocol of a connection apart from the code; SplicePump.Descriptors
-- reads off a trace which descriptors are open, SplicePump.Stages says what is known after each
-- step of a pump's start, and BufferPump.Facts with BufferPump.Flags
-- is the rule for facts that the callbacks keep. Prelude and Machine are shared; Examples runs the
-- handlers on concrete clients.
--
-- The listener makes a client and starts the connection to the relay. The callbacks of Socks5 lead
-- to the pump, whose callbacks go on until it frees the client. Every error path ends in
-- transocks_client_free, or in transocks_splicepump_free, which calls it.
--
-- The model. A handler is a function from the outside world and a state to a result and a state,
-- or to a fault: a use of the client, pump or environment after its block was freed, a NULL
-- dereference, a read past the input, a text that was never written. The state has the
-- environment, one client, its pump, and the trace of the calls that left the program, from which
-- Machine.Closes reads what libevent closes with a bufferevent that was made with
-- BEV_OPT_CLOSE_ON_FREE. The outside world, libc, the kernel, libevent and list.h, is a
-- parameter (Os): it answers each call from the calls so far and the call itself, so any behaviour
-- is covered, and what a theorem relies on is among its hypotheses (SplicePump.Moved.SpliceLaws:
-- splice moves at most what is asked and never overfills a pipe; SplicePump.Delivered.EndLaws:
-- splice takes nothing only if nothing was asked for or nothing is there;
-- SplicePump.Descriptors.PipeLaws: the ends of a new pipe are no open descriptors, and its size is
-- an int; Socks5.Handshake.PullsUp: evbuffer_pullup gives what it is asked for;
-- Connection.Life.MakesTimers: evtimer_new gives a timer;
-- Util.Ports.NtopLaws: inet_ntop has a short text for each address). A structure is a record with
-- the source's fields, in which a pointer is a number and 0 is NULL. A descriptor is an int, which
-- may be negative. size_t counters wrap at 2 ^ 64. The event loop is any sequence of callbacks,
-- and goes on until the client is freed; the sequence is a list, so no fuel is needed. The sides
-- of bufferpump.c and the directions of splicepump.c, which the source writes out twice or selects
-- in a branch, are arguments.
--
-- Not modelled: the lifetime of libevent's events and bufferevents, so that the use of one that was
-- freed is a call in the trace and no fault (src/socks5.c uses one where a connect fails); logging;
-- list.h, a copy of the Linux kernel's list; the callbacks of other clients between those of one,
-- which share only the list with it; evutil_parse_sockaddr_port and inet_ntop, which are
-- parameters, and so is what stands in the address blocks that are printed; event_base_dispatch.
pub mod Prelude
pub mod Machine
pub mod Macros
pub mod Context
pub mod Util
pub mod SplicePump
pub mod BufferPump
pub mod Pump
pub mod Socks5
pub mod Signal
pub mod Listener
pub mod GlobalEnv
pub mod Clients
pub mod Connection
pub mod Info
pub mod Main
pub mod Examples

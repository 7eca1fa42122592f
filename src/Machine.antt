-- ===== src/Machine.antt =====
-- The machine that the handlers run on: the structures of context.h and splicepump.h, the calls
-- that leave the program, and a state monad whose faults are the C program's invalid accesses.
-- The kernel, libc, libevent and list.h are a parameter: `Os` gives the reply to a call, from
-- everything that was called before it. One client and its pump are in view; `trace` lists the
-- calls, the latest first.
mod Calls
mod Structs
mod Monad
pub mod Log
pub mod Closes
pub mod Returns
pub use Calls.*
pub use Structs.*
pub use Monad.*

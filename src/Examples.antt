-- ===== src/Examples.antt =====
-- Runs of the handlers of context.c, socks5.c, listener.c, bufferpump.c and splicepump.c on concrete
-- clients, with concrete answers of the outside world.
pub mod World
pub mod Pumps
pub mod Handshake
pub mod Life
pub mod Kernel
pub mod Endings
pub mod Texts
pub mod Blocks

-- ===== src/Main.antt =====
-- src/main.rs, src/lib.rs and boot/src/main.rs: what the kernel does once it is set up, the run of the tests,
-- and the program that starts the emulator. The task `tetris`, which nothing starts, is left out, and so
-- is the output on the console.
pub mod Announce
pub mod Ping
pub mod Selftest
pub mod Image

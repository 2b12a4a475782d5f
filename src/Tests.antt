-- ===== src/Tests.antt =====
-- Runs of the theorems at concrete inputs, and tests of the definitions.
mod Frames
mod Messages
mod Tasks
mod Machine
mod Driver
mod Firmware
mod Output
mod Startup
mod Setup
mod Flow

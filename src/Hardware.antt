-- ===== src/Hardware.antt =====
-- src/hardware: the network card, the PCI bus, memory and interrupts.
pub mod Memory
pub mod Random
pub mod Loop
pub mod Driver
pub mod Registers
pub mod Pci
pub mod Coms
pub mod Boot
pub mod Interrupts
pub mod Instance

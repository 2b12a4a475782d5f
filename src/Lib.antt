-- ===== src/Lib.antt =====
-- rucoonos: an operating system kernel with networking.
--
-- The parts, and where they are modelled. Paths are from the root of the repository.
-- Net: src/extensions/networking. `Net.Wire` has the byte slices and fixed arrays of the packet code,
--   `Net.Buffer` protocols/buffer.rs, `Net.Ethernet` protocols/ethernet.rs, `Net.Arp` protocols/arp.rs,
--   `Net.Ipv4` (with `Net.Ipv4.Builder` for the states of its builder) protocols/ipv4.rs, `Net.Udp`
--   protocols/udp.rs, `Net.Icmp` protocols/icmp.rs, `Net.Dhcp` protocols/dhcp.rs, `Net.IpMap` the map of
--   protocols.rs, and `Net.Handler` handler.rs, with the types of src/extensions/networking.rs and
--   src/hardware/device.rs that it works on in `Net.Handler.State`. `Net.Api` has the ping of api.rs and
--   in `Net.Api.GetMac` its search for a hardware address, and `Net.Extension` the set-up of
--   src/extensions/networking.rs, of src/hardware/device.rs and of interrupt.rs, with the statics in
--   `Net.Extension.Statics`. `Net.Flow` joins the driver of a card and the handler over the queues that
--   they share.
-- Kernel: kernel/src, the executor, and in `Kernel.Wakers` the boxes behind the wakers of its task.rs.
-- Hardware: `Hardware.Registers` src/hardware/device/e1000/regs.rs, `Hardware.Driver`
--   src/hardware/device/e1000.rs (with `Hardware.Driver.Start` for the set-up), `Hardware.Coms` its coms.rs
--   and the typed registers of regs.rs, `Hardware.Pci`
--   src/hardware/pci.rs, `Hardware.Memory` the frame allocator of src/memory.rs (with
--   `Hardware.Memory.Heap` for src/hardware/allocator.rs), `Hardware.Random` src/hardware/rng.rs,
--   `Hardware.Instance` and `Hardware.Boot` src/hardware.rs, `Hardware.Interrupts` src/interrupts.rs
--   with its timer.rs (the table of the handlers in `Hardware.Interrupts.Table`), and `Hardware.Loop`
--   the loops of the drivers.
-- Acpi: src/acpi.rs, src/acpi/ptr.rs and src/acpi/acpi.rs, and in `Acpi.Aml` src/acpi/acpi/aml.rs.
-- Logging: src/extensions/logging/level.rs, and in `Logging.Spans` src/extensions/logging.rs.
-- Screen: src/vga.rs, src/video.rs and src/interrupts/keyboard.rs.
-- Main: src/main.rs (`Main.Announce` and `Main.Ping`), in `Main.Selftest` the run of the tests of
--   src/lib.rs, and in `Main.Image` boot/src/main.rs, which builds the image and starts the emulator.
-- Prelude: names, lists, arrays, numbers and outcomes that the parts share; `Tests`: concrete runs.
--
-- How they interact. A packet of one layer holds the packet of the layer below, and each builder
-- hands a closure to the builder of the layer below, which gives it the rest of its buffer. The
-- handler takes raw packets and actions from its queue, finds the device, takes the packet apart
-- layer by layer, and puts answers into the device's packet queue. The driver of the card gives the
-- handler the raw packets of its receiving ring, and takes the frames of the packet queue to its sending
-- ring; it works when the card or a sender of frames raises an interrupt.
--
-- How the code is read. A function of the source has the same name here, in the module of its file;
-- `From` and `Into` are `from_u8`, `into_u8` and the like, and a builder `PacketBuilder<S>` is its
-- state. What can fail is an `Outcome`: a value, the `Err(())` of the source, or a panic. A slice out
-- of range, an `unwrap`, an `assert_eq!` and a `todo!` panic. Where a debug build checks an overflow
-- and a release build wraps, the `Profile` says which is meant. A closure that fills a buffer is a
-- function from the buffer to its outcome and to the buffer as it left it (`Fill`).
-- The drivers and the tables of the firmware give an `Exec`: a value, a panic, or code that still runs when
-- the fuel is used up. The card's state and the memory that it shares are passed on explicitly, and its
-- registers are the list of the writes to them.
-- Numbers are natural numbers; casts and shifts that lose bits have their remainder written out.
--
-- Bounds and fuel. A frame has 1500 bytes, 14 of them header, so an IPv4 payload has at most 1466
-- bytes and a UDP or ICMP payload at most 1458. The loop over the DHCP options goes down the
-- message. The loops of the handler and of the executor, which do not end, are run for a given list of
-- messages or number of rounds. The loops of the interrupt handler have fuel of 33 rounds, one more than the
-- 32 descriptors that the receiving loop can pass; the loops over the tables of the firmware have fuel of
-- one round more than there are entries. That this is enough is among the results.
--
-- Not modelled. The queues of the `nolock` crate are lists, and whether a bounded one takes one more
-- element is the parameter `accepts`. What the polls of a task do is the parameter `poll`, and what the
-- ports of the PCI bus give is the parameter `config`. The memory that the card writes and the page table
-- are the parameters `memory` and `translate_addr` (`map_to` where pages are mapped), the memory of the
-- firmware is `memory`, and the frame that contains an address is `containing_address`. While the
-- interrupt handler runs, the card is taken not to fill further descriptors. Taking back the buffer of a
-- null pointer, which the source leaves undefined, is recorded as a 0 among the dropped pointers. Where a frame's buffer lies
-- is `data_ptr`, and where a new table of interrupt handlers is allocated is `box`. Console output, locks
-- and the memory behind buffers are left out, and so are the parts that only call the
-- processor's instructions and other crates: the segments, the serial port, and the boot
-- loader.
pub mod Prelude
pub mod Net
pub mod Kernel
pub mod Hardware
pub mod Logging
pub mod Screen
pub mod Acpi
pub mod Main
mod Tests

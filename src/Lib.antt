-- ===== src/Lib.antt =====
-- OpenMac for Linux emulates Macintosh computers: a 68000 machine, the IIfx and the Quadra. This
-- library models the 68000, the R65C02, eight of the chips around them, and the formats of floppy
-- disks and their images, translated from the C++ of core/.
--
-- The processor (core/src/cpu.cpp, core/src/cpu_ops*.cpp, core/include/openmac/cpu.hpp):
--   Cpu/Flags    the condition codes: `setFlag`, `setNZ`, `addFlags`, `subFlags`, `cmpFlags`,
--                `testCond`. They touch the status register alone and are functions of it.
--   Cpu/Machine  the registers, the bus accesses `rd8` to `pop32`, `setSR`, `exception`,
--                `doInterrupt`, `enterAddressError`; its children hold the laws of the stacks. An
--                operation is a function from the processor to an outcome: a value and the new
--                processor, or the thrown `AddressError` with the processor as the throw left it.
--                The bus (`IBus`) is a record of operations on a state of its own, taken as an
--                instance argument.
--   Cpu/Address  `calcEA`, `readEA`, `readAt`, `writeAt`, `jumpTo`, the timing tables.
--   Cpu/Alu, Cpu/Shift, Cpu/MulDiv, Cpu/Flow, Cpu/Move and their children: one function for each
--                handler of the cpu_ops_*.cpp files, named after it (`opAddSub` is `op_add_sub`);
--                it takes the opcode and returns its cycles.
--   Cpu/Step     `M68000::step`, for any dispatch table.
--   Cpu/Decode   the table of core/src/cpu_decode.cpp as a function from opcodes to handlers, and the
--                step with it; its children say which operands and modes the handlers see.
-- The processor of the IIfx's I/O processors:
--   R65c02       core/include/openmac/r65c02.hpp and core/src/r65c02.cpp. An operation is a function
--                from the processor to a result and the new processor; the two functions `read` and
--                `write` that the chip around it supplies are a record on a state of their own, taken
--                as an instance argument. R65c02/Matrix is the table of the opcodes that the `switch` of
--                `step` spells out, R65c02/Execute the bodies of its cases and the step; the other
--                children hold the laws of the arithmetic, the stack, the cycles and the registers.
-- The chips:
--   Rtc          core/src/machine/rtc.hpp and rtc.cpp: the clock and its RAM, on the wires.
--   Via          core/src/machine/via.hpp and via.cpp: the VIA 6522.
--   Oss          core/src/machine/iifx/oss.hpp: the interrupt controller of the IIfx.
--   Adb          core/src/machine/adb.hpp: the ADB transceiver with its keyboard and mouse.
--   AdbBus       core/src/machine/iifx/adb_bus.cpp and adb_bus.hpp: the serial bus of the IIfx, in front
--                of the transceiver of Adb.
--   Iop          core/src/machine/iifx/iop.hpp and iop.cpp: the I/O processors of the IIfx. Its shared
--                memory and registers are the bus of the processor of R65c02; Iop/Machine is the host's
--                window, DMA, the timer and `tick`. The chips around it are a record of operations on a
--                state of their own. `onDmaWrite` may set the requests of the channels, as the IIfx
--                wires it (core/src/machine/iifx/iifx.cpp, updateSccDmaRequests); a request that the
--                serial chip changes while it is accessed comes with the next `setDmaRequest`.
--   Scc          core/src/machine/quadra/scc.hpp: the serial controller on an empty wire.
--   PseudoVia    core/src/machine/quadra/pseudovia.hpp: the second VIA of the Quadra.
-- Disks:
--   Disk/Gcr        core/src/machine/gcr.hpp: the alphabet, the scrambled data with its checksum, the
--                   nibbles; Disk/Gcr/Track builds and decodes whole tracks with these.
--   Disk/Crc        the check shared by core/src/machine/mfm.hpp and macbinary.hpp.
--   Disk/Mfm        core/src/machine/mfm.hpp: the tracks of high-density disks, built and decoded.
--   Disk/DiskCopy   core/src/machine/dc42.hpp: DiskCopy 4.2 images, on the words of Disk/Bytes.
--   Disk/MacBinary  core/src/machine/macbinary.hpp: MacBinary containers around such files.
-- A vector of bytes is a list; a function that changes its argument returns the new list.
-- A chip is a record of its fields; an operation returns the new chip, with its result and the
-- calls of its callbacks as values where it has them. Each chip's children hold its invariants and
-- laws. In the machines the chips' interrupt outputs give the level that `setIrqLevel` receives.
--
-- Base holds what all parts share: machine words (Base/Word), lists read and written at a position
-- (Base/Lists), and the digits of numbers under and, or, xor and complement (Base/Bits).
--
-- Numbers are natural numbers and words wrap by `% 2 ^ w` where the source's types do; a signed
-- word is its two's complement. Loops of the source are recursion on their count or on a list:
-- shifts on the count (at most 63), the dividers on 15 steps, MOVEM on the registers of its mask.
-- Two loops of the GCR codec run on fuel: the search for a free slot of a track, on as many rounds
-- as the track has slots, and the decoder of a track, on as many as the stream has bytes, of which
-- every round takes one at least. Two loops of the I/O processors do: the one on instructions, on the
-- cycles that the clock holds, of which each spends one at least, and the one on a timer that has run
-- out, on a round for every 16 ticks, since a period has no fewer.
--
-- Not modelled: the hooks that report to a debugger, the 68030 and 68040, the Am29000, HFS
-- volumes, the floppy drive, SCSI, video, sound, the machines' address decoding,
-- and the user interfaces.
pub mod Adb
pub mod AdbBus
pub mod Base
pub mod Cpu
pub mod Disk
pub mod Iop
pub mod Oss
pub mod PseudoVia
pub mod R65c02
pub mod Rtc
pub mod Scc
pub mod Via

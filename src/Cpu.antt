-- ===== src/Cpu.antt =====
-- The 68000 of core/include/openmac/cpu.hpp, core/src/cpu.cpp and core/src/cpu_ops*.cpp.
-- Its bus is the abstract class of core/include/openmac/bus.hpp: a record of operations on a state
-- that the machine supplies.
pub mod Flags
pub mod Machine
pub mod Address
pub mod Alu
pub mod Shift
pub mod MulDiv
pub mod Flow
pub mod Move
pub mod Step
pub mod Decode
pub mod Tests

-- ===== src/Cpu.antt =====
-- The processor: src/cpu. `Scheduler` stands above `Process` and is a module of its own.
pub mod Alu
pub mod Registers
pub mod Mapper

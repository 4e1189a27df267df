-- ===== src/Control.antt =====
-- The processor's control unit, src/cpu/CONTROL_UNIT.hpp and CONTROL_UNIT.cpp: instruction words and
-- bit strings, the five stages of the pipeline, and the loop of a core.
pub mod Bits
pub mod Decode
pub mod Core
pub mod Execute

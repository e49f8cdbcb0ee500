-- ===== src/Dev.antt =====
-- The devices of src/dev, which are driven through registers in memory.
pub mod Registers
pub mod Base
pub mod IoApic
pub mod LocalApic
pub mod Hpet

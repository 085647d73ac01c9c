-- ===== src/Drivers.antt =====
-- The drivers of include/drivers, on registers as a memory of words.
pub mod Ethernet
pub mod Registers
pub mod Clock
pub mod Power
pub mod Uart

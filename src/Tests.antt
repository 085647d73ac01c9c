-- ===== src/Tests.antt =====
-- The theorems at concrete inputs.
mod Threads
mod Memory
mod Collections
mod Network
mod Hypervisor
mod Riscv64
mod Drivers
mod Utility

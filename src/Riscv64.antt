-- ===== src/Riscv64.antt =====
-- architecture/riscv64: the virtual processors and the calls of their supervisors.
pub mod Vcpu
pub mod Sbi
pub mod Decoder
pub mod Traps
pub mod Faults
pub mod Mmu

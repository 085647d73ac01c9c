-- ===== src/Hypervisor.antt =====
-- The parts that a virtual machine sees: architecture/riscv64/VirtualPLIC.hpp and
-- include/hypervisor/virtio.
pub mod Words
pub mod Plic
pub mod Queue
pub mod Virtio
pub mod Machine
pub mod Switch
pub mod Devices
pub mod Fdt

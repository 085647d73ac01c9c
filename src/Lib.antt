-- ===== src/Lib.antt =====
-- The core of the kernel and hypervisor DEPOS (namespace QUARK), as definitions that compute.
--
-- Parts, with the files that model them:
--   Collections: include/utility/collections. The intrusive lists on a memory of `next` links
--     (UnorderedList.hpp, FIFO.hpp), the sorted list with links both ways (OrderedList.hpp), and
--     CircularBuffer.hpp.
--   Memory: include/memory/Chunk.hpp, the allocator include/memory/allocators/Buddy.hpp on its free
--     lists, src/memory/Memory.cpp and the header of include/memory/Heap.hpp.
--   Threads: src/Thread.cpp with include/scheduler (Scheduler.hpp, FixedCore.hpp), and the semaphores
--     and mutexes of include/Semaphore.hpp and include/Mutex.hpp that put threads to sleep, and the
--     alarms of src/Alarm.cpp and the variables of include/ConditionalVariable.hpp, and the periodic threads of
--     include/PeriodicThread.hpp. Threads/Processors interleaves several processors.
--   Network: include/network/protocols, the transfer of a file (TFTP.hpp), addresses (ARP.hpp with
--     include/utility/collections/Hash.hpp), the link of include/network/link (Link), packets (IPv4.hpp, UDP.hpp, InternetChecksum.hpp),
--     and the positions of include/network/NetworkBuffer.hpp.
--   Hypervisor: what a guest sees, architecture/riscv64/VirtualPLIC.hpp, the register file, the queues,
--     the console and the network card of include/hypervisor/virtio (Virtio, Queue, Devices), the dispatch of
--     include/hypervisor/GenericVirtualMachine.hpp, and the builder of device trees in
--     include/hypervisor/dtb/FDT_Builder.hpp (Fdt), and include/hypervisor/VirtualSwitch.hpp (Switch).
--   Riscv64: architecture/riscv64/VirtualCPU.hpp, the calls and the faults of architecture/riscv64/sbi (Sbi,
--     Faults), Decoder.hpp, the table of TrapHandler.hpp (Traps), and the page tables of MMU.hpp.
--   Drivers: include/drivers, the Ethernet card (ethernet/DWC_Ether_QoS.hpp) and its rings under the worker of
--     src/network/NetworkDevice.cpp, UARTs (uart/UART16550.hpp), clocks (clock/JH7110_Clock_Controller.hpp), and voltages and
--     frequencies (pmic/AXP15060_Controller.hpp, dvfs/JH7110_DVFS_Controller.hpp).
--   Utility: src/libraries/libc, the numbers that include/utility/Console.hpp prints, include/types.hpp,
--     include/utility/Ticker.hpp and include/utility/Observer.hpp.
--   Base: the shared tests, lists, memories and facts about bits. Tests: the theorems at concrete inputs.
--
-- How they correspond: a record stands for the fields of a class, and a definition has the name of its
-- function in snake case, with the state it changes as its last argument and in its answer. `none` is a
-- failed `assert`, the answer false or the null pointer, as the comment of the definition says.
-- The parts use each other as in the code: the free lists of the allocator and the queues of the
-- scheduler are lists of addresses, which Collections shows the intrusive lists to be, and a device's
-- queue lies in a chunk of Memory.
--
-- Numbers are native and wrap where the width of the code can be left, and a signed overflow of a number
-- that is printed or read is `none`; a semaphore's counter is the word of its `int`. Loops are recursions on what they run through, or have fuel: 64 rounds for a logarithm, one
-- more than the nodes of a list or the pages of the RAM, three rounds for the carries of a checksum, and
-- the number itself for its digits. The theorems of these parts say that this fuel is enough.
--
-- An operation under a lock, or with interrupts disabled, is one step, and a switch of contexts is
-- followed by the `epilogue` of the other thread. In Threads/Processors the two halves of a switch are
-- steps of their own, between which the other processors go on; the use of a list of sleeping threads under
-- its lock is one step there.
--
-- A driver waits for its device in rounds of fuel, and what the device and other threads do meanwhile is a
-- parameter; registers that only the driver writes are a memory of words.
--
-- Not modelled: the other drivers, the assembly of contexts and traps, the payloads
-- and the copy of a library in payload/RTCSA2026/smartdata. TraceIn, TraceOut and the console's
-- characters are output.
mod Base
pub mod Collections
pub mod Memory
pub mod Threads
pub mod Network
pub mod Hypervisor
pub mod Riscv64
pub mod Drivers
pub mod Utility
pub mod Tests

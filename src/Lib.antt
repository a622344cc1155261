-- ===== src/Lib.antt =====
-- eVisor, a bare-metal hypervisor for ARMv8-A: a model of its core and what holds of it.
--
-- The program boots at EL2, gives each guest (a task) a page of control data and an address space,
-- and switches between the guests on a timer tick. A guest's access to a device it does not own is
-- trapped, decoded, and emulated by the board it runs on: by a virtual serial port, over two queues
-- that join it to the console, and by a virtual interrupt distributor. What is typed at the serial
-- port of the machine reaches the hypervisor by the interrupt controller, and is a command or goes
-- to the guest that has the console. The images of the guests are read from a FAT32 volume on a
-- block device. The hypervisor has page tables of its own, which are set up before anything else.
--
-- Which file models which part (paths of the sources from the repository's root):
--   Common/Queue      src/common/queue.cc: Queue::Push, Pop, Empty, Full as push, pop, is_empty,
--                     is_full. Common/Queue/Fifo is the queue a client sees, Common/Queue/Refine
--                     shows that the ring buffer implements it.
--   Common/Printf     src/common/cstdio/printf.cc: the conversions as to_digits (ulitoa at 64 bits,
--                     uitoa at 32), vfprintf as print_loop over a format and a list of arguments.
--   Common/LinkedList src/common/list.cc: the list over a heap of nodes, one function per method.
--   Common/Cstring    src/common/cstring and cctype: memcpy, memset, memzero, strlen, strncmp and
--                     isdigit over a memory of bytes. Blocks and Strings say what they do.
--   Kernel/Task       src/kernel/task/task.h: the task control block with its vCPU context.
--   Kernel/Sched      src/kernel/sched/sched_core.cc: Sched::Init, AddTask, ExitTask, GetTask,
--                     Schedule, SchedTimerHandler, ScheduleInternal (its two inner loops are select
--                     and refill, its endless loop is pick) and SwitchTaskTo. Kernel/Sched/Fair
--                     takes timer interrupts in a row.
--   Kernel/Vm         src/kernel/vm/vm.cc: VmEnter, with FlushConsole and SetCpuVirtualInterrupt of
--                     src/kernel/sched, over the scheduler, the board and HCR_EL2.
--   Kernel/Create     src/kernel/sched/sched_create_task.cc: CreateTask, with Init of
--                     src/platforms/board.h. Kernel/Create/Guest is about the guest it leaves.
--   Mm/KernelHeap     src/mm/heap/kmm_malloc.cc: kmm_malloc and kmm_free over a map of pages.
--   Mm/New            src/mm/new.cc: the operators of C++ over that heap.
--   Mm/UserHeap       src/mm/user_heap/umm_malloc.cc: umm_malloc and umm_free over a bit map and the
--                     index at which the search starts. Mm/UserHeap/Reuse takes sequences of calls
--                     as steps.
--   Mm/Uncached       src/mm/uncached/kmm_uncached_malloc.cc: kmm_uncached_malloc and
--                     kmm_uncached_free over the sizes and the reference counts of the pages.
--   Mm/PgTable        src/mm/pgtable_stage2.cc and src/mm/heap/kmm_zalloc.cc: MapPage,
--                     CreatePageTable (its branch that makes a table is link_table) and
--                     SetPageTableEntry over the words of the heap's pages. Forest is the walk of
--                     the hardware and the shape of the tables of all guests; Link, Extend, Create,
--                     First, Room and Route are the steps of MapPage, Map is the whole, Space is what
--                     one guest sees.
--   Mm/Fault          src/mm/kmm_trap.cc, src/mm/pgtable_stage1.cc and
--                     src/mm/user_heap/umm_zalloc.cc: HandleMmTrapMemoryAccessFault, PageAllocate,
--                     PageDeallocate and PageMap over both heaps and the tables.
--   Platforms/VirtioUart, Platforms/VirtioGic
--                     src/platforms/virtio: Read and Write of the two virtual devices.
--                     VirtioGic/Registers gives the registers their addresses.
--   Platforms/Board   src/platforms/board.h, the boards under qemu and bcm2711, and
--                     src/mm/kmm_trap.cc: MmioRead, MmioWrite, VmEnter and
--                     HandleMmTrapRegisterAccess. Platforms/Board/Init is Init, by its three
--                     ranges of pages.
--   Platforms/Serial  src/platforms/serial.cc: SerialPort, over the driver, the controller, the
--                     scheduler and the consoles. Command is about its commands, Forward about the
--                     way of a byte from the interrupt to the guest.
--   Arch/Sysregs, Arch/Trap
--                     src/arch/arm64/cpu_regs.h and src/arch/arm64/irq/trap.cc: the registers kept
--                     of a guest, TrapMcrMrcInstructions, HandleTrapSystem, HandleTrapMemAbort and
--                     TrapHandleLowerElAarch64Sync. System is HandleTrapSystem as a whole.
--   Arch/Mmu          src/arch/arm64/mmu.cc: InitXlatTables, SplitPteBlockDesc and what they call,
--                     over the words of memory. Arch/Mmu/Walk is the walk of the hardware.
--   Arch/Gic, Arch/Timer
--                     src/arch/arm64/irq/gic_v2.cc and gic.cc, src/arch/arm64/arm_generic_timer.cc:
--                     the interrupt controller and the timer, over the registers they write.
--   Drivers/Pl011     src/drivers/uart/pl011_uart.cc: the serial port of the machine.
--   Drivers/VirtioBlk src/drivers/virtio/virtio-blk.cc: the block device of QEMU. Request is the
--                     request that the driver leaves for the device, Device what the device answers.
--   Fs/Fat32          src/fs/fat/fat32.cc: Init (mount), CalcSector, IsValidCluster (Cluster),
--                     CalcCluster, CalcNextCluster, CalcNextSector (Chain), CreateLfnSum, GetSfn
--                     (Name), GetLfn (Lfn), Read, InitFile, GetFileSize, IsDirectory (Read), Open
--                     (Open).
--   Fs/Loader         src/fs/loader.cc as built for QEMU, LoaderLoadFile and LoaderLoadVcpu, and
--                     LoadTaskImage of src/kernel/sched/sched_create_task.cc.
-- Prelude holds the library's names, Boolean tests, lists by native numbers, integers, facts about
-- the bits of a byte and of a word, words of bytes in a memory, and Outcome, how a call ends: it returns, stops in PANIC, or is undefined.
--
-- Numbers are natural; a machine word keeps its wrap-around as a remainder. A pointer to a task is
-- the slot of the table, a pointer to a heap page its address, and the start of each heap is a
-- parameter. The block device is a parameter of the file system: a function from sectors to bytes,
-- at the position that ReadSector computes in 32 bits.
-- The device behind the driver of virtio is a parameter too: the hypotheses on it say that it serves
-- a request as the specification of virtio lays down.
-- How the compiler rounds the `float` in Read is a parameter, too.
-- All guests share one board, the one of GetPlatformBoard, and so its devices and its console.
-- Loops run on the structure they traverse or on the number of turns that their bounds give, except
-- these on fuel: the endless loop of ScheduleInternal, for which two rounds are enough; the loops
-- that print a number, for which one more turn than the word has bits is; the loop over a format,
-- whose fuel is the length of the format; that of GetLfn, whose sequence number cannot pass 32; that
-- of Read, which gets one turn for each byte and one more; strlen, for which the length and one is
-- enough; that of FlushConsole, which gets a turn for each word of the buffer; that of InitXlatTables,
-- for which four turns for each page of the region and three more are enough; that of the
-- loader, for which a turn for each page and one more is; and that of Open over the sectors of a
-- directory, whose fuel is an argument.
--
-- Not modelled: logging, assembly code, the registers of the MMU and the flushes of its caches, the
-- drivers of the eMMC, the mailbox, the pins and the clocks, and the branch of the loader
-- that reads a file of the FAT32 volume.
-- ASSERT is taken as it is without NDEBUG, where a condition that fails ends in PANIC.
pub mod Arch
pub mod Common
pub mod Drivers
pub mod Fs
pub mod Kernel
pub mod Mm
pub mod Platforms
pub mod Prelude

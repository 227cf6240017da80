-- ===== src/Lib.antt =====
-- A small 32-bit kernel for the PC, in C with some assembly, modelled function by function over the
-- native numbers. A `u_32` is a number below 2 ^ 32 whose sums and differences are reduced (Common/Word),
-- a signed `t_32` that can be negative is an integer (Common/Int), `|` and `&` are the operations on
-- binary digits (Common/Bits). Arrays are lists; what the C code reads or writes outside an array is said
-- at the definition. A pointer into a table is an index, and NULL is `none`.
--
-- The parts, and where they are modelled:
--   * Time: kernel/time.c and include/time.h. initTime reads the CMOS clock (the port reads are a
--     parameter) and mkTime turns it into seconds since 1970.
--   * Sched: kernel/process.c (schedule, findEmptyProcess) and timerHandler of kernel/time.c. The table
--     TASKS is a list of slots; a process has the fields that these functions use. timerHandler calls
--     schedule() when the time slice is over.
--   * Wait: sleepOn and wakeUp of kernel/process.c. sleepOn is cut in two at the switch to another process
--     inside schedule(), so that an interleaving is a sequence of halves.
--   * Mem: mm/memory.c and include/mm.h, with memcpy of lib/memlib.asm: the page map, getFreePage and
--     freePage, copying and freeing page tables, and copy on write. Physical memory is a function from
--     addresses to words; the loads of CR3 have no state.
--   * Console: kernel/chr_drv/console.c. The stores to the video memory and the bytes written to the ports
--     are recorded in lists, the last first.
--   * Tty: kernel/chr_drv/tty.c, include/chr_drv/tty.h, kernel/chr_drv/serial.c and conWrite. ttyWrite fills
--     the write queue of 1024 bytes and calls the terminal's driver, which for the console is Console's
--     put_char on each byte.
--   * Keyboard: kernel/chr_drv/keyboard.c and include/chr_drv/keyboard.h. The handler is a step on the state of
--     the shift and lock keys, and puts a byte into the terminal's read queue. The table keymap is whole, its
--     rows of words read as rows of bytes as the code does.
--   * Protect: kernel/protect.c with include/protect.h and include/int.h: segment descriptors, interrupt
--     gates and the table IDT that initIdtDesc fills. The addresses of the assembly routines are a parameter.
--   * Block: kernel/blk_drv/ll_rw_blk.c with include/blk_drv/blk.h. The requests are a function from indices,
--     linked by indices; the loop of addRequest runs on rounds, of which one more than there are queued
--     requests is enough. Block/Transfer has makeRequest and ll_rw_block, with sleepOn and wakeUp as a
--     parameter. A buffer is here the flags that requests touch.
--   * Disk: kernel/blk_drv/harddisk.c, all of it, over the requests of Block. The place of a sector is in Disk,
--     the dealings with the controller (winResult, hdOut, resets) in Disk/Controller, harddiskRequest and the
--     interrupt handlers in Disk/Driver, initHarddisk and sysSetup in Disk/Setup. The controller is the
--     sequence of the bytes that inByte returns; what leaves the driver is a list, the last first.
--   * Fork: the rest of kernel/process.c (initSchedule, copyMem, copyProcess) with setTss of kernel/protect.c,
--     setSignal of kernel/signal.c and sysFork of kernel/syscall.asm: whole PCBs at their addresses, the GDT of
--     Protect, the page tables of Mem and the pids of Sched. getDescLimit is a parameter.
--   * Start: init/cinit.c, which starts Protect, Time, Mem, Buffer, Fork, Block, Disk and the terminals in turn.
--   * Exceptions: syserrHandler of kernel/int_handler.c, six calls of Print's printk.
--   * Buffer: fs/buffer.c with include/fs.h, all of it. The heads are a function from addresses, NULL among
--     them. The free list and the hash chains are stores through links (Buffer), the operations on blocks are
--     in Buffer/Cached; sleepOn, wakeUp, ll_rw_block and syncInodes are the record Outside, which also
--     stands for what other processes do while one sleeps.
--   * Print: kernel/print.c and include/print.h. vsprintf and number give the list of the bytes that they
--     store; what lies on the stack and in memory is a parameter. printk passes them to Tty's ttyWrite.
--   * Inodes: fs/inode.c and fs/super.c over Buffer's bread and brelse. The mutual recursion of syncDev and
--     syncInodes is tied by `joined`, to a depth that is given.
--   * Files: sysWrite of fs/read_write.c and fs/char_dev.c, from a process's descriptors to Tty's ttyWrite, with
--     printk's message where the file is of another kind.
--
-- Loops. `while (1)` of schedule(), the search for a pid and the loops of ttyWrite run on a number of
-- rounds and give `none` when it is used up. Two are enough for schedule(), whose first round without a
-- choice refills the time slices; one more than there are slots for a pid, since each slot rules out one;
-- twice the bytes and two for ttyWrite, where a byte takes one round or, with its return, two; one more
-- than the format is long for vsprintf, which takes a byte or more each round. In the buffer cache the
-- rounds bound a chain or the free list, of which one more than there are heads is enough, and the sleeps,
-- of which a cache without locks has none; initBuffer takes one more than the blocks that fit in. Where the
-- code hangs on purpose (`while (1);`) the model gives `none` as well.
--
-- harddiskRequest goes back to its label on rounds as well: a request inside its partition needs one, and
-- one that it rejects takes them all, whatever their number. The waits for the controller have the
-- code's own bounds of 10000, 100000 and 3000 reads.
--
-- Not modelled: the interrupt flag, since no function is interrupted in the model; the size of vsprintf's
-- buffer of 512 bytes; ttyRead (kernel/chr_drv/tty.c), which is empty; the loads of GDTR, IDTR, LDTR, the
-- task register and CR3; kernel/main.c, which makes system calls and loops; the dispatch of system calls,
-- the boot sectors and the other assembly, but for memcpy and sysFork.
pub mod Block
pub mod Buffer
pub mod Common
pub mod Console
pub mod Disk
pub mod Exceptions
pub mod Files
pub mod Fork
pub mod Inodes
pub mod Keyboard
pub mod Mem
pub mod Print
pub mod Protect
pub mod Sched
pub mod Start
pub mod Time
pub mod Tty
pub mod Wait

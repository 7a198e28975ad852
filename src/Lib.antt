-- ===== src/Lib.antt =====
-- Verification models of the kernel modules of this repository.
--
-- The repository holds separate loadable kernel modules, each one C file; only the two of ex8
-- share variables. Each modelled file has its own module here, with the functions and variables
-- of that file, and the parts of the kernel that it calls as parameters:
--
--   rss.c (also rss1.c)    Rss         counts the resident pages of a process; Resetting is rss2.c
--                                      (also rss3.c), Delayed assi22.c
--   workingwss.c           Wss         estimates the working set of a process by page faults
--   char.c                 CharDevice  a character device over a queue, with a /proc entry
--   assg4/assg4.c, and the lines of assg4/core.c that call its hooks
--                          SchedStats  statistics of the scheduler, fed by hooks
--   ex6_ver2.c (also exx6.c, exx66.c)
--                          SharedFile  a device that gives every open file a page to map;
--                                      TwoPages is ex6.c
--   prod_cons.c (also fifo13.c)
--                          ProdCons    puts the pids of all processes through a queue; Fifo8 is
--                                      fifo8.c (also fifo.c, fifo7.c), Fifo10 to Fifo12 fifo10.c to
--                                      fifo12.c
--   wssdemo3.c             WssZero     workingwss.c with the count set to 0 each second
--   wss3.c, wss4.c, wss5.c WssKeep     workingwss.c without its list, with other numbers of rounds
--   wssdemo.c              WssStuck    a version that hides a page again when it is used
--   wss.c (also wss1.c, rbb.c, copy1.c)
--                          WssNull     an early version of workingwss.c
--   ex7.c (also static_ex6_ver6.c), new_st.c
--                          KmallocMap  users map pages from kmalloc; Printing is ex7.c, Clearing
--                                      new_st.c
--   ex7_ver2.c, ex77.c     SharedPage  one page for all processes, with a lock, and attributes in
--                                      sysfs; Paged is ex7_ver2.c, Counted ex77.c
--   ex9/exer9_ver3.c       OpenFiles   finds an open file of a process by its name
--   ttt.c                  RecordDevice
--                                      a device over a queue of records, with a /proc entry
--   ex5.c                  TaskList    a doubly linked list of the tasks; ListHead is ex5list3.c
--   hrtimer.c              Timer       a timer that starts itself again
--   vm.c, vm_all_process.c VmAreas     prints the areas of a process's memory
--   ex8/ex8_13.c, ex8/ex8_13_module2.c
--                          PageDemo    where kmalloc and vmalloc memory lies; First exports the
--                                      addresses, Second reads them
--
-- A function of the C code is a definition of the same name that takes the module's variables as
-- a record and returns them changed, in the type Run of Kernel.Run: a value, a fault (a null or
-- dangling pointer, an index outside an array), a wait that nothing ends, or the end of the fuel.
-- A loop that C writes with while or for over addresses or pointers runs on fuel, one unit a
-- turn; the theorems name the fuel that they need (the pages of an area and one more, the nodes
-- of the list and one more), and state with Ends that the run then ends with a value. Numbers are
-- natural numbers; an int counter is kept as its 32-bit pattern and an unsigned long or an
-- address as a number below 2 ^ 64, with the wrap-around written out.
--
-- The kernel is not part of the repository. Its page tables are the record Paging of
-- Kernel.Paging (the levels of the walk, the entries with their flags, and the documented laws of
-- the flags), its kfifo is the record Kfifo of Kernel.Fifo (RecordFifo of Kernel.Records where it
-- holds records), the paths of its open files are the record Vfs of Kernel.Files, its semaphores
-- are the record Semaphores of Kernel.Semaphore, its timers are the record Timers of
-- Kernel.Timers, its lists the record ListHeads of Kernel.Lists, and malloc is an Allocator of
-- Wss.Memory. Kernel.Flat, list_fifo, list_records, counting, plain_timers and plain_lists are
-- small concrete instances that show that the laws can hold; the witnesses use them. In
-- SharedFile the memory in use is a map from addresses to objects and pages, with the documented
-- behaviour of memcpy, get_page, free_page, kfree and %s written out (a page is free when its
-- last holder gives it back; reading what is free is a fault). SharedPage does the same, and its
-- mutex is a Boolean. In KmallocMap the memory is a map from addresses to bytes, and memcpy,
-- memset and %s outside the memory that kmalloc gave are faults. The state of other processes,
-- what happens during a sleep, whether a signal breaks a wait off and which user addresses can be
-- written are arguments. Kernel.Areas lists the page addresses that the loops over areas visit,
-- and Kernel.Copy has the copy of bytes into an array and strlen, which faults where an array
-- holds no NUL; Kernel.Walks is the loop itself, as the versions of the working set share it.
--
-- Prelude holds the shared names: Boolean tests, lists over the native numbers, integers, words.
--
-- Not modelled: printing, except for the values printed; what two calls that run at the same time
-- do to each other between their steps; the memory and instruction ordering of the processor; and
-- the other files of the repository, among them the generated *.mod.c, the rest of assg4/core.c,
-- which is the Linux scheduler, and the copies of kernel samples.
pub mod CharDevice
pub mod Kernel
pub mod KmallocMap
pub mod OpenFiles
pub mod PageDemo
pub mod Prelude
pub mod ProdCons
pub mod RecordDevice
pub mod Rss
pub mod SchedStats
pub mod SharedFile
pub mod SharedPage
pub mod TaskList
pub mod Timer
pub mod VmAreas
pub mod Wss
pub mod WssKeep
pub mod WssNull
pub mod WssStuck
pub mod WssZero

-- ===== src/Lib.antt =====
-- HalOS, a kernel for 32-bit x86 machines: its memory management, its network stack, the files of
-- its disk, its keyboard, its text console, its string library and the rules of a game.
--
-- The parts and how they interact:
--   * The physical memory manager, src/mm/pmm.c, keeps one bit per block of 4096 bytes and a count
--     of the blocks in use. Pmm.antt has its state, the static variables of the file, as the record
--     `Pmm`, and each function `pmm_f` as `f`. Bitmap.antt and its children hold the bits, the count
--     of the bits that are set, and the two searches for a run of free blocks that the managers use.
--   * Paging, src/mm/paging.c, takes blocks from it for its tables. Paging.antt has memory as a word
--     per physical address and each function `paging_f` as `f`, with `virt_to_phys` of src/mm/vmm.c.
--     `phys_of` is the processor: with paging on, it translates each pointer of the code by the
--     tables that the code edits.
--     `Paging` holds the state of the physical memory manager.
--   * The virtual memory manager, src/mm/vmm.c, keeps a bit per page of the kernel's addresses,
--     takes blocks and maps them. Vmm.antt has each function `vmm_f` as `f`, and `dma_alloc` and
--     `dma_free`; `Vmm` holds the state of `Paging`.
--   * The heap of src/mm/liballoc.c, which is another project's code, asks src/mm/liballoc_hook.c
--     for pages. Heap.antt has `liballoc_alloc` and `liballoc_free`.
--   * The network stack, src/drivers/net: Net.antt has its state, the variables of all the files, as
--     the record `Net`. Net/Eth, Net/Arp, Net/Ipv4, Net/Icmp and Net/Receive are the files eth.c,
--     arp.c, ipv4.c, icmp.c and network.c; Net/Checksum and Net/Address are `ip_checksum` and
--     `inet_addr` of ipv4.c, and Net/Bytes the macros of include/network.h. A frame that is sent is
--     added to a list.
--   * src/drivers/net/tcp.c: Net/Tcp has its lists and the options of a segment, Net/Segment sending
--     and the checksum, Net/Session the handlers of the states, and its children the timers
--     (`check_tcp_timers`) and the web page that is served (`handle_http_request`). A function
--     `tcp_f`, `process_tcp_f` or `handle_f_state` is `f`, `process_f` or `handle_f`. A pointer to a
--     connection is an address, which `load` follows.
--   * src/drivers/fat.c: Fat.antt reads files and the entries of directories, and Fat/Names has
--     the names of entries; `fat32_f` is `f`. The
--     disk is a function from sectors to their bytes.
--   * src/drivers/keyboard.c is Keyboard.antt; the scan code is an argument of `keyboard_handler`.
--   * src/drivers/vesa.c: Screen.antt has the back buffer and the front buffer, and the operations on
--     pixels.
--   * src/drivers/console.c: Console.antt has the cursor, the characters on the screen and the
--     dirty rectangle, Console/Input the two functions that read a line, and Console/Format
--     `console_printf`. A function `console_f` is `f`. The characters that `kb_getchar` returns
--     are a list.
--   * src/shell/snake.c is Snake.antt: the rules of the game, and the rounds of its loop.
-- Where the code copies past the end of a buffer, uses what was freed, or faults on a page, the model
-- sets a flag (`overrun`, `fault`) or goes on behind all of memory (`phys_of`): from there on its
-- state stands for nothing.
--   * src/libs/string.c is Str.antt, over memory with a byte at each address.
-- Base.antt passes on the names that all of them share. Tests has concrete runs of the code.
--
-- Integers are natural numbers with the wrap-around of their type written out where a value can
-- reach it. Block and page numbers stay below 2 ^ 20, since addresses have 32 bits. Loops over a
-- known range recurse on the number of rounds that are left. The loops of the string functions that
-- run to a final 0 take fuel, a unit a round: one more than the length of the text is enough.
-- `read_file` takes a unit of fuel a cluster, and each cluster gives a byte at least;
-- `process_options` takes one a round, and each round takes a byte. `vprintf` takes one for each
-- character of the format, and the digits of a word are 32 at most.
--
-- Arguments of the model: whether `malloc` succeeds, the file that src/drivers/fat.c finds as
-- /index.html (`index`), what `snprintf` makes of its size (`headers`), the handler of TCP segments
-- in `net_process_packet`, the linker's symbols and what lies in memory where a bitmap is put. The
-- length of the ARP cache's list stands for its 32 entries.
--
-- Not modelled: messages on the serial line, what other files print, assembler and device
-- registers, the TLB; src/libs/printf.c and src/mm/liballoc.c, which are
-- other projects' code; src/libs/math.c, which computes with floating point for the most part; the
-- search for a path and the initialisation of src/drivers/fat.c; what src/shell/snake.c draws, and
-- its delays; the other drivers, src/cpu, the rest of src/shell and src/kernel.c.
pub mod Base
pub mod Bitmap
pub mod Pmm
pub mod Paging
pub mod Vmm
pub mod Heap
pub mod Net
pub mod Keyboard
pub mod Screen
pub mod Console
pub mod Snake
pub mod Fat
pub mod Str
pub mod Tests

-- ===== src/Lib.antt =====
-- torOS, a small kernel for AArch64 in C: a verification library for its logic.
--
-- The program's parts, and the file that models each:
-- - kernel/mm.c: Mm.antt. `Mem` holds the static variables; `page_alloc`, `page_free`, `kmalloc` and
--   `mm_init` keep their names. Bitmap.antt and Bitmap/Scan.antt hold the byte-wise bitmap that it
--   shares with kernel/fs.c and kernel/input_event.c.
-- - libc/string.c: Libc.antt, and Libc/Format.antt for `vsnprintf`. A `char *` is
--   the list of the bytes from it on.
-- - kernel/sched.c and `user_proc_create` of kernel/user.c: Sched.antt. It takes its stacks from Mm.
-- - kernel/security.c: Security.antt, Security/Rules.antt for the sandboxes, Security/Audit.antt for
--   the audit log. The rules match by `strstr` of Libc.
-- - kernel/virtual_desktop.c: VirtualDesktop.antt.
-- - kernel/fs.c: Fs.antt for blocks and the file table, Fs/Io.antt for reading and writing.
-- - kernel/init.c: Init.antt for services, Init/Drivers.antt for drivers, Init/Defaults.antt for those
--   registered at boot, Init/Login.antt for accounts, Init/Login/Sessions.antt for sessions.
-- - kernel/dmabuf.c: DmaBuf.antt, over the pages and the heap of Mm.
-- - kernel/input_event.c: Input.antt, the event buffer, devices and handlers;
--   Input/Keyboard.antt, the keyboard.
-- - kernel/clip.c: Clip.antt, regions as lists of rectangles with integer coordinates, over the heap of
--   Mm; `wm_compute_visible_region` stands in Wm/Visible.antt, since it reads the window list.
-- - kernel/window.c: Wm.antt for the data and the list, Wm/Stack.antt for creating, destroying,
--   stacking and finding windows, Wm/Geometry.antt for the operations on one window and the hit test.
-- - kernel/fs_advanced.c: Block.antt, the block devices and the cache of sectors; a driver is a pair of
--   parameters, and Block/Io.antt states what a driver that works does. Vfs.antt: the descriptors that
--   `vfs_open` and `vfs_close` hand out, without reading, seeking and mounting.
-- - kernel/vm.c: Vm.antt, the page tables over the pages of Mm; Vm/Tables.antt states what a valid tree
--   of tables is, and Prelude/Bits.antt holds the facts about `|` that its entries need.
-- - kernel/network.c: Net.antt, byte order, addresses as text, the checksum, ARP and sending IP;
--   Net/Layout.antt has the bytes on the wire that what is sent is compared with, and
--   Net/Sockets.antt the sockets, without receiving.
-- - kernel/rtc.c: Rtc.antt, seconds as a date and a time; Rtc/Gregorian.antt holds the calendar that
--   the date is compared with.
-- The children of these files prove. Search.antt is the search loop over a table that kernel/fs.c and
-- kernel/init.c repeat, Ring.antt the ring that the audit log fills. Prelude.antt passes the library's
-- names on, with lists indexed by native numbers and signed integers; Tests.antt runs the theorems at
-- concrete inputs.
--
-- How the code is written here: a handler is a function from the state to its result and the new
-- state, and a pointer into a table is its index. An operation under a spin lock is one step. A
-- `uintN` keeps its wrap-around, `% 2 ^ N`; a C `int` is an integer without bounds where the code
-- relies on no overflow. A NULL pointer is `none`. Printing is left out. What the code takes from
-- outside (`_kernel_end`, clocks, the network card's queues, the timer register, function pointers
-- of drivers, the window calls of the login manager) is a parameter.
--
-- Fuel: `format_loop` has a unit for each byte of the format, `put_digits` one for each bit; the
-- first loop of `seconds_to_dt` has a unit for each 365 days and one more, the second twelve; the
-- merging loop of `clip_region_add_rect` has a unit for each rectangle of the region and one more;
-- the loop of `map_region` has a unit for each page of the region and two more; `tfs_write` and
-- `tfs_read` run their loops on 6 rounds, for four blocks and the round that ends the loop;
-- `init_start_service` has one unit for each level of its recursion over dependencies, and one is
-- enough as nothing sets a dependency.
--
-- Not modelled: drivers, interrupts, of the network ICMP, receiving, DNS and HTTP, drawing,
-- widgets, printing and the shell, since they talk to hardware or draw; of kernel/security.c the NX
-- bit, of kernel/fs.c the listings, of kernel/input_event.c the mouse and the key maps, of
-- kernel/fs_advanced.c the partition tables, the mounts and the stubs of the file systems.
pub mod Prelude
pub mod Bitmap
pub mod Search
pub mod Mm
pub mod Libc
pub mod Sched
pub mod Ring
pub mod Security
pub mod VirtualDesktop
pub mod Fs
pub mod Init
pub mod DmaBuf
pub mod Input
pub mod Clip
pub mod Wm
pub mod Block
pub mod Vfs
pub mod Vm
pub mod Net
pub mod Rtc
pub mod Tests

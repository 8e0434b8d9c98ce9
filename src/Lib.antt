-- ===== src/Lib.antt =====
-- Verification of the xv6 kernel and its user programs, as kept in xv6/.
--
-- The development models the program part by part; a C function becomes a function on the part's
-- state, with the same guards and early returns, and `panic` becomes `none`. Pointers into a table
-- are indices, arrays are functions of the index, 32-bit wrap-around is written `% 2 ^ 32`.
--
-- Base: Boolean tests, lists, arrays, and the loops `for` and "first entry that ...".
-- Disk: blocks and the buffers of xv6/bio.c as their users see them, with the history of the disk.
-- Log: xv6/log.c. `Log` has the functions; Header, Install, Recover, Commit follow the disk writes of
--   a commit one by one, Crash is about `initlog` after a power failure, Write and Transaction about
--   `log_write`, Durable about a commit that ends, Dirty about
--   the flag B_DIRTY, Reserve about `begin_op` and `end_op`.
-- Pipe: xv6/pipe.c. Ring shows the ring as a queue, Fifo what one call does, Traffic a history until the page is freed.
-- Proc: xv6/proc.c. Invariant is about the process table, Lifecycle, Exit and Wait about the calls,
--   Steps about all processes together.
-- Grep: the matcher of xv6/grep.c. Meaning says what a pattern means, Decides that the matcher finds it.
-- Kalloc: xv6/kalloc.c. FreeList is the chain of pages, Owners any use of the allocator by owners that
--   keep to their pages, Range and Boot how it is filled.
-- Memory: xv6/string.c. Move is about memmove, Compare about memcmp and strncmp, Copy about safestrcpy
--   and strlen, Pad about strncpy. The rounds of a loop on a string are counted by fuel; one more than
--   the length is enough.
-- Files: the table of xv6/file.c. Counts compares the reference counts with the references.
-- Spin: xv6/spinlock.c on one processor. Nesting is about matched calls.
-- Number: printint of xv6/printf.c and atoi of xv6/ulib.c. The loop of printint has the 16 bytes of its
--   buffer as fuel; RoundTrip shows that they are enough for base 10.
-- Bytes: bits and little-endian integers in a block.
-- Fs: the block allocator of xv6/fs.c. Bitmap shows the bitmap as a set, Balloc what balloc and bfree do
--   to it. Every write goes through the log: Logged says that it panics where log_write of Log does.
-- Inode: the block map of xv6/fs.c. Slots has the invariant of an inode's blocks, Direct, Indirect and
--   Bmap what bmap does; Free, Clean and Truncate are about itrunc,
--   Dinode about the inode in its block.
-- Contents: readi and writei of xv6/fs.c. Write and Rounds are about one block, Loop about the loop, Low
--   about the inode's own block, File and Read about whole calls. A round moves at least one byte, so
--   `n` rounds are enough.
-- Path: skipelem of xv6/fs.c. Elements has paths as names with their slashes.
-- Sleeplock: xv6/sleeplock.c. Exclusion is about who holds the lock.
-- Vm: page tables of xv6/vm.c, in the memory of Kalloc. Tables has what a directory needs, Grow and Write
--   what its stores do, Walk is about walkpgdir, Maps, Store and Loop about mappages, Flags and User about
--   uva2ka. The loop of mappages has a round for each of the 2 ^ 20 pages.
-- Shell: the parser of xv6/sh.c. Print has command lines as trees and their text; Lex, Commands and Steps
--   follow the parser on that text, Means says what a line means, RoundTrip
--   puts them together, Total is about any text. The fuel, four
--   for each character and eight more, is enough for every text.
--
-- Not modelled: the inode cache, directories and the walk of paths of xv6/fs.c, xv6/sysfile.c, the growth and the
-- copying of address spaces in xv6/vm.c, exec, the execution of commands by the shell, the console, mkfs
-- and the course examples of the weeks; drivers, traps and the start of the machine, which are
-- instructions and registers of the hardware; programs that only call the kernel.
pub mod Base
pub mod Bytes
pub mod Contents
pub mod Disk
pub mod Fs
pub mod Files
pub mod Log
pub mod Number
pub mod Path
pub mod Pipe
pub mod Proc
pub mod Shell
pub mod Sleeplock
pub mod Spin
pub mod Vm
pub mod Grep
pub mod Inode
pub mod Kalloc
pub mod Memory

-- ===== src/Lib.antt =====
-- A teaching operating system for AArch64: what its storage, synchronisation and memory code does.
--
-- Parts. User programs call the kernel (src/kernel), which runs processes under a scheduler and
-- synchronises them with semaphores (src/common/sem.c). Inodes, files and pipes (src/fs) stand on the block
-- cache (src/fs/cache.c), which turns the writes of an operation into one crash-safe commit on the
-- block device. Directories are files, and namex walks along them. The shell (src/user/sh) parses the
-- lines that it runs.
--
-- Files:
--   Fs/Disk.antt            the block device as the cache uses it (src/fs/block_device.h): numbered
--                           blocks of 64 words, and the order of writes
--   Fs/Bitmap.antt          src/common/bitmap.h
--   Fs/Cache.antt           src/fs/cache.c up to copy_block: Cache holds the static variables; acquire,
--                           release, manage_block_num, write_header, copy_block
--   Fs/Cache/Log.antt       the rest of src/fs/cache.c: begin_op, sync, end_op, init_bcache, alloc, free
--   Fs/Cache/{Blocks,Access,Copy,Writes,Atomic,Batch,Commit,Recovery,Budget}.antt   their proofs
--   Fs/Pipe.antt            src/fs/pipe.c; Fs/Pipe/{Inv,Refine}.antt its proofs
--   Kernel/Sem.antt         src/common/sem.c; Kernel/Sem/{Inv,Lock}.antt its proofs
--   Common/Memory.antt      src/common/string.c; Common/Memory/{Move,Strings}.antt its proofs
--   Kernel/Sched.antt       src/kernel/sched.c; Kernel/Sched/{Queue,Pick,Inv,Run}.antt its proofs
--   Fs/File.antt            src/fs/file.c and the descriptors of src/kernel/sysfile.c and proc.c;
--                           Fs/File/{Count,Run}.antt its proofs; Fs/File/Io.antt file_read and file_write on
--                           the calls that they make
--   Fs/Path.antt            skipelem of src/fs/inode.c; Fs/Path/Split.antt its proofs. Fs/Path/Walk.antt
--                           namex with the references and locks of inodes, the inodes in memory and the
--                           block cache; Fs/Path/Walk/{Child,Steps,Round,Reach}.antt its proofs
--   Kernel/Mem.antt         src/kernel/mem.c; Kernel/Mem/{Cover,Alloc,Run}.antt its proofs
--   Common/Format.antt      _print_int of src/common/format.c; Common/Format/Digits.antt its proofs
--   Kernel/User.antt        the checks of user addresses in src/kernel/syscall.c;
--                           Kernel/User/Checked.antt its proofs
--   Common/ListNode.antt    src/common/list.c: circular lists and queues;
--                           Common/ListNode/{Ring,Fifo,Run}.antt its proofs
--   Common/RbTree.antt      src/common/rbtree.c up to insertion, lookup and the first node;
--                           Common/RbTree/Erase.antt its erasure, and
--                           Common/RbTree/{Balance,Insert,Repair,Remove,Members,Order}.antt
--                           their proofs
--   Fs/Inode.antt           src/fs/inode.c on the cache: inode_sync, inode_map, inode_read; inode_write is in
--                           Fs/Inode/Write.antt, with Fs/Inode/Write/{Bytes,Wrote,Loop}.antt, inode_alloc in
--                           Fs/Inode/Alloc.antt; Fs/Inode/{Packed,Layout,Map,Read}.antt the proofs, on
--                           Fs/Cache/{Use,Edit}.antt, which acquire, change and release one block;
--                           Fs/Inode/Grow.antt a file that gets new blocks, with its children
--                           Taken, Content (what it holds), Steps, Round, Fill, Rounds and
--                           Grows;
--                           Fs/Inode/Clear.antt inode_clear and inode_put, with Fs/Inode/Clear/{Shrunk,Direct,Empties}.antt;
--                           Fs/Cache/{Spent,Search,Alloc,Free}.antt the allocation of blocks against the set of
--                           blocks in use, by the laws of Fs/Bitmap/{Bits,Laws}.antt
--   Fs/Dir.antt             the directories of src/fs/inode.c: inode_lookup, inode_insert, inode_remove;
--                           Fs/Dir/{Find,Entry,Slot,Insert}.antt its proofs
--   Kernel/Pt.antt          get_pte, init_pgdir and vmmap of src/kernel/pt.c on the pages of Kernel/Mem.antt;
--                           Kernel/Pt/{Bits,Tree,Attach,Grow,Map}.antt its proofs
--   Kernel/Console.antt     console_intr of src/kernel/console.c; Kernel/Console/{Ring,Edit}.antt its proofs
--   Kernel/Proc.antt        src/kernel/proc.c; Kernel/Proc/{Counts,Inv,Exit,Find,Run,Wait}.antt its proofs
--   Shell.antt              the parser of src/user/sh/main.c; Shell/{Print,Text}.antt a printer of commands,
--                           Shell/{Shorter,Total,Lex,Args,RoundTrip}.antt the proofs
--   Prelude*.antt           lists, integers, and the monad of code that changes a state, panics or sleeps
--
-- How they interact. The cache uses the device and the bitmap; the log recovers with the same
-- copy_block; an inode reads and writes its blocks by acquiring, changing and releasing them in the
-- cache; a directory is a file whose
-- bytes are entries; a page table takes its pages from kernel memory; the run queue is a list that the semaphores'
-- detach is shared with; open files say when a pipe or an inode is given back.
--
-- State and errors. A function that changes a state `S` and returns an `A` is `S → Result (A × S)`:
-- `done`, `panic` (PANIC or a failed ASSERT), or `sleep`, when it gives its locks up to wait and starts
-- over. A spinlock is not a field: what runs while it is held is one step.
-- Integers. Numbers are natural numbers; 32-bit counters wrap (`% 2 ^ 32`) in the pipe, and `int` is ℤ
-- in the semaphore. Block numbers and counts of the cache are far below 2 ^ 32 and do not wrap.
-- Fuel. The loop of post_all_sem takes one round more than there are sleepers; strlen takes one more
-- than the length of the string; the theorems that they return have these bounds as hypotheses. print_int
-- takes 64 rounds, the size of its buffer, which is enough for 64 bits in any base. The loops of inode_read
-- and inode_write and of file_write take as many rounds as there are bytes, and a round does at least one. The loops over a
-- directory take as many rounds as it has bytes, and a round goes 16 bytes on; namex takes a round
-- more than its path has characters. The loop of C('U')
-- in console_intr takes 128 rounds, the size of the ring, and a line has fewer characters. find_proc goes as
-- deep as there are pids, and a child has a higher pid than its parent. The parser of the shell gets four rounds for each character
-- and four more; every turn through its four functions takes at least one character.
-- The shell. PANIC of the shell ends its child and so does malloc1 when its pool is used up: both are the outcome `exits`.
-- A command is read as a value and a word as the list of its characters, so nulterminate has nothing to do. The checks of
-- malloc1 are made once, over all nodes of the command.
-- A call on a pipe is modelled up to the point where it returns or gives the lock up to sleep; the code never takes the lock
-- again, and what a woken call then does without it is not modelled.
-- Interleaving. Scheduling, semaphores, open files, the process tree and kernel memory are run over any sequence of
-- steps of any number of threads. In cache.c a call of end_op is one step;
-- the code gives log_lock up while it installs blocks, and what can happen there is not modelled. Crashes are modelled between any two device writes.
-- A block is written as a whole, as the code relies on.
-- Trees. A red-black tree is a value and its parent pointers are the path to the root; what the code
-- does to pointers in place is the rebuilding of the tree around that path. Inode locks are held by the
-- callers and are not fields, but in namex, which takes and gives up the locks and references it uses. There
-- an inode in memory is found by its number, where the code goes through its list of objects.
-- Not modelled: hardware access (src/driver, src/aarch64), the bytes that kernel memory holds but for
-- the entries of page tables, and the parts of the kernel and the user programs that no file above names.
-- inode_clear reads addresses in a block that it has given up; where the block has been evicted in between, its memory is freed and the model stops.
pub mod Common
pub mod Fs
pub mod Kernel
pub mod Prelude
pub mod Shell

-- ===== src/Lib.antt =====
-- cpp-ipc: channels between processes over shared memory.
--
-- A channel is an array of 256 elements in shared memory (circ/elem_array.h) with the connections of its
-- receivers (circ/elem_def.h). One of the algorithms of prod_cons.h moves elements through it, and a handle
-- of each process (queue.h) attaches to it. ipc.cpp cuts messages into elements of 64 bytes, or keeps a large
-- one in a chunk of shared memory whose number is sent, and puts them together again. Chunk numbers come from
-- utility/id_pool.h; rw_lock.h has the locks.
--
-- The files, by part of src/libipc and include/libipc:
-- - Prelude: what the others share: tests, lists over native numbers, bits of words, signed integers.
-- - RwLock: include/libipc/rw_lock.h. `Access` is one atomic access of a thread in `rw_lock`; Spin is `spin_lock`.
-- - IdPool: src/libipc/utility/id_pool.h. `prepare`, `acquire` and `release` are the methods; `next` is `next_`.
-- - Circ: src/libipc/circ/elem_def.h. Broadcast and Unicast are the two `conn_head`s. A loop with a
--   compare-exchange takes a list of `Attempt`s: what a turn loads and what it finds at the exchange.
-- - ProdCons: src/libipc/prod_cons.h. Single is single/single/unicast; Shared is single/multi/unicast, with one
--   shared access a step; Multi is multi/multi/unicast, by whole calls, and Multi/Threads by single accesses of
--   any number of threads; Broadcast is single/multi/broadcast and Many multi/multi/broadcast, each with its
--   Threads, where single accesses interleave (of Many only those of `push`). But for Shared and the Threads, a
--   call runs without another call between its parts.
-- - Queue: src/libipc/queue.h and circ/elem_array.h, with `reconnect` and `disconnect` of src/libipc/ipc.cpp.
-- - Ipc: src/libipc/ipc.cpp. Send is `detail_impl::send`, Recv `detail_impl::recv`, Cache `cache_t`; Chunks are
--   the storage functions; RoundTrip joins `send` and `recv`.
-- - Fmt: src/libipc/imp/fmt.cpp with `fmt` of include/libipc/imp/fmt.h. `Context` is `fmt_context`; Format has the
--   formats that `to_string` puts together.
-- - Mem: include/libipc/mem and src/libipc/mem. Monotonic is `monotonic_buffer_resource`, Cache `central_cache_pool`
--   (Threads has its calls by single accesses), Pool `block_pool`,
--   Sizes `get_regular_resource` with `alloc`, `free` and `$new` and `$delete` of bytes (mem/new.h), Stack `intrusive_stack` of include/libipc/concur, and Stack/Once its runs in which no node is pushed twice.
-- - Shm: src/libipc/platform/posix/shm_posix.cpp; Handle is `handle` of src/libipc/shm.cpp, Users any number of
--   handles.
-- - Sync: src/libipc/platform/linux/mutex.h. Lock is `robust_mutex`, Registry `curr_prog` with the handles, whose
--   calls are whole: the lock of the registry and the threads that wait for it are not modelled.
-- - Wait: src/libipc/waiter.h with `wait_for` of src/libipc/ipc.cpp and what `send` and `recv` do while they wait.
-- - Codecvt: `cvt_char` of src/libipc/imp/codecvt.cpp; Strings are the loops `cvt_cstr_utf` from and to UTF-32 and
--   between UTF-8 and UTF-16.
-- - Buffer: src/libipc/buffer.cpp. `drop` is the destructor of a buffer, `destroy` that of what it owns.
--
-- Conventions. Accesses of memory are sequentially consistent, one after the other. A word of w bits is a
-- number with its wrap-around written out. What the operating system decides is a parameter: whether shared
-- memory opens, what a fresh block of memory holds, what system calls, `snprintf` and an allocator return, whether a chunk is found, the order of accesses.
--
-- Fuel. `conn_count` has 33 turns for 32 bits; `init` of the pool one more than its ids; `settle` 257
-- for the 255 elements that a ring holds; `pop` of many producers 2, since a turn that moves the write
-- index makes the ring not empty; `to32` one turn more than there are characters; `sprintf` 2, since its second
-- turn asks for room for the whole text; `wait_if` one more than the condition variable wakes in time; `lock` one more
-- than there are holders that are found dead.
--
-- Not modelled: `clear` and `unlock` of the Linux mutex and its time-outs, the POSIX mutex, conditions and
-- semaphores, `$new` of objects, the log, strings of
-- codecvt.cpp with a null destination, Windows, and the third-party copies, with
-- src/libipc/platform/linux/a0 among them.
pub mod Prelude
pub mod RwLock
pub mod IdPool
pub mod Circ
pub mod ProdCons
pub mod Queue
pub mod Ipc
pub mod Codecvt
pub mod Buffer
pub mod Fmt
pub mod Mem
pub mod Shm
pub mod Sync
pub mod Wait

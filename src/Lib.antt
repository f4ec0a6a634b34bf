-- ===== src/Lib.antt =====
-- TriCache: a user-space page cache that replaces the virtual memory of a program by pages kept on
-- block devices. Every page of the virtual space belongs to one partition; a server thread owns a
-- partition with its frames of memory, its page table and its replacement policy, and client threads
-- pin and unpin pages. A client that finds a page mapped pins it in the page table by itself, and asks
-- the server over a message queue where it is not; so the page table is what server and clients share.
--
-- Parts, and the files that model them:
-- - include/compact_hash_page_table.hpp, struct pte_header: PageTable/Header.antt has the 16-bit word
--   of a page and the bodies of the compare-exchange loops of `inc_ref_count`, `dec_ref_count`, `lock`
--   and `unlock`; PageTable/Header/Packing.antt relates the word and its bit-fields. A word is a header
--   with the values of its fields; the counter has 13 bits and wraps by `% 2 ^ 13`.
-- - the same file, one page under any number of threads: PageTable/Race.antt. Each load, each
--   compare-exchange and each half of a plain write of a bit-field is a step of its own, `Move`. A thread
--   may take any number of references and give back those of others, as a client does with what its server
--   pins; the frames that `pin` returned are in `held`. `Reach` has the states of the runs in which fewer than 2^13
--   references are taken at once; with more the counter wraps. PageTable/Race/Invariant.antt has the invariant, and
--   PageTable/Race/Safety.antt what follows for `pin`, `unpin`, `create_mapping`, `delete_mapping` and
--   `release_mapping_lock`.
-- - the same file, class CompactHashPageTable as one thread runs it: PageTable/Table.antt has the data
--   (`Line` is packed_cache_line) and the loops over a chain of lines, PageTable/Mapping.antt the
--   operations under the names of the methods. PageTable/Chain.antt has what the loops find
--   (PageTable/Chain/Edit.antt: in chains that grow or shrink), PageTable/Shape.antt the shape of the table (every bucket heads a chain without cycle, every overflow
--   line is in one chain or in the pool), PageTable/Lookup.antt the entry of a page, and
--   PageTable/Slot.antt and PageTable/Place.antt the write of one slot. PageTable/Effects.antt and
--   PageTable/Release.antt have the effect of each mapping operation on the entries of all pages;
--   PageTable/Grow.antt, PageTable/Extend.antt and PageTable/Create.antt the creation of a line,
--   PageTable/Clear.antt its deletion where it is a bucket, PageTable/Shrink.antt where it is an overflow
--   line, both joined in PageTable/Delete.antt, and PageTable/Fresh.antt the constructor.
-- - include/replacement.hpp, class Clock: Replacement/Clock.antt. `push`, `access`, `erase`, `pop` and
--   `size` carry the names of the methods; `sweep` and `seek` are the two loops of `pop`.
--   Replacement/Clock/Sweep.antt has the first loop, Replacement/Clock/Laws.antt the set of resident
--   pages, Replacement/Clock/Pop.antt the choice of `pop`.
-- - the same file, class LRU: Replacement/Lru.antt, with the names of the methods. An iterator is the
--   number of its node. Replacement/Lru/Nodes.antt has the lists of nodes, Replacement/Lru/Laws.antt the
--   order of the pages. Replacement/Policy.antt has what a cache asks of a policy.
-- - include/shared_single_thread_cache.hpp: SharedSingleThreadCache.antt has the data and the frames'
--   `alloc` and `free`, SharedSingleThreadCache/Process.antt a function for each phase of `process`, and its
--   loop, SharedSingleThreadCache/Methods.antt the constructor, `pin`, `unpin` and the notices of clients,
--   SharedSingleThreadCache/Flush.antt the loops of `flush`. The cache is over the operations of
--   PageTable/Mapping.antt and a policy of Replacement/Policy.antt. SharedSingleThreadCache/Invariant.antt has what holds
--   between two calls, on the frames of SharedSingleThreadCache/Frames.antt. SharedSingleThreadCache/Begun.antt has the first phase,
--   Pinned.antt the calls on a mapped page, Allocated.antt and Missed.antt an absent one with a free frame,
--   Victim.antt and Evicted.antt without, Loaded.antt and Assigned.antt the last phases, Calls.antt the whole
--   calls, Notices.antt the notices; Drained.antt, Freed.antt and Flushed.antt have `flush`, Rounds.antt the
--   rounds of the loop, Fresh.antt the constructor. `evict_func` and `load_func` are arguments that act on a
--   world, and say whether they are done.
-- - include/single_thread_cache.hpp: SingleThreadCache.antt has the data, the frames' `alloc` and `free`, and
--   what the cache asks of its page table; SingleThreadCache/Process.antt a function for each phase of
--   `process`, and its loop, SingleThreadCache/Methods.antt the constructor, `pin`, `unpin` and `flush`. Its
--   frames are those of SharedSingleThreadCache/Frames.antt. SingleThreadCache/Invariant.antt has what holds
--   between two calls, Pinned.antt the phases on a mapped page, Allocated.antt, Victim.antt, Loaded.antt and
--   Missed.antt on an absent one, Calls.antt the whole calls, Tables.antt the direct page table
--   as its page table, and the constructor. The width of the counter is an argument, for both forms of the
--   state, and so is the memory of a state that is declared without a value.
-- - include/partitioner.hpp: Partitioner.antt, `locate` and `page_at` are the two call operators;
--   Partitioner/Laws.antt has their round trips.
-- - include/memory_pool.hpp: MemoryPool.antt, with the names of the methods; MemoryPool/Laws.antt has the
--   places of the frames. The address and the bytes that `mmap_alloc` returns are arguments.
-- - include/direct_cache.hpp, the pages a thread keeps pinned: DirectCache.antt, over any cache with `pin`,
--   which may throw, and `unpin`, and DirectCache/Laws.antt.
-- - include/page_table.hpp, class DirectPageTable: DirectTable.antt, with the names of the methods, and
--   DirectTable/Laws.antt.
-- - include/partition_type.hpp, include/partition_client.hpp and include/partition_server.hpp: Messages.antt has
--   the messages and the copy of one, Messages/Client.antt and Messages/Server.antt the parts of the methods
--   between two accesses of shared memory, and Messages/Link.antt one client and one server at their two
--   mailboxes, each word group that a copy writes being a step of its own (`Step`, `Reach`); the toggles are those of
--   two mailboxes, not of `USING_SINGLE_CACHELINE`. Messages/Link/Invariant.antt has the phases of a
--   message, Steps.antt and Kept.antt that each step keeps them (Places.antt reads the phase from how far
--   the two have come, Batch.antt has the requests of a message), Safety.antt and Progress.antt what follows.
--   Messages/Ids.antt has the numbers of clients, Messages/Ids/Owned.antt that no two clients have one.
-- - include/shared_cache.hpp: SharedCache.antt has what a server does with a request (`first_processing`,
--   `processing`), and `pin` and `unpin` of a client; SharedCache/Answers.antt has the answers to a request for a
--   pin, Direct.antt and Hits.antt the calls on a mapped page, Misses.antt on an absent one.
--   SharedCache/Backend.antt has `evict_func` and `load_func` over a backend, and Backend/Evictions.antt the
--   calls that write a page.
-- - include/private_cache.hpp: PrivateCache.antt, over what is called of the shared cache, has `evict_func` and
--   `load_func` (`evict_reference`, `load_reference`), the constructor, `pin`, `unpin` and `flush`. PrivateCache/Shared.antt
--   has what is relied on in the shared cache (its pins may throw; then the call is `none`), Holds.antt the pages that are pinned there, Gained.antt and
--   Loads.antt a pin in the cache of one partition, Calls.antt the whole calls, Bytes.antt `get`, `set` and `check_addr` over
--   what `memcpy` does, Fresh.antt the constructor.
-- - include/mmap_allocator.hpp and include/cached_allocator.hpp: BlockAllocator.antt, with the names of the methods;
--   BlockAllocator/Orders.antt has the orders of sizes, Tiles.antt the addresses that blocks cover, Sizes.antt
--   the calls for a number of bytes.
-- - include/cached_ptr.hpp: CachedPtr.antt has a function for each operator, over the calls of a cache;
--   CachedPtr/Arithmetic.antt has the arithmetic of pointers, CachedPtr/Access.antt the places of elements.
-- - Base.antt has what the parts share: Boolean tests, options, lists with native indices, counting
--   and weighted sums.
--
-- Pointers to cache lines are indices into `store`, and `nullptr` is `none`. A failed assertion is the
-- value `none`, as is a read through a null pointer. All numbers are natural numbers; where a field is
-- narrower and a value may not fit, the wrap is written out. A tag has 58 bits, and those below the empty
-- one are of pages below 2^61 - 8; a request has 52 bits for a page, which every page of 4096 bytes of a space
-- of 2^64 bytes has.
--
-- Fuel: a loop over a chain of lines has the number of lines of the store, and one, which no chain
-- exceeds in a table in good shape (PageTable/Shape.antt); the retries of `find_cacheline` have the
-- 2^30 rounds of the source; `sweep` has two turns of the hand, which is enough when a page is resident
-- (Replacement/Clock/Pop.antt); `seek` has the 1024 rounds of the source. The loop of `process` has four
-- rounds (SharedSingleThreadCache/Rounds.antt), and the search for a page to evict one for each frame and one
-- more: in good shape the first page that the policy says can be evicted. The second loop of `flush` has
-- a round for each page of the policy and one more; the third waits for `evict_func` and its fuel is an argument. `halve` has 64 rounds for
-- 64 bits. `pin_again` has the 2^20 + 1 rounds after which the source throws "oom". `pin_until` has the 2^30 rounds after which the private cache does. The fuel of `finish`,
-- `settle`, `ask_again` and `poll`, which wait for a backend, is an argument.
--
-- Not modelled: the memory ordering of the atomics (the interleaving is sequentially consistent),
-- `prefetch`, `max_vpage_id` of the compact page table, which it stores and never reads, the messages
-- printed before an error, class HashPageTable, the bit-fields of the compact state of the single-thread
-- cache but its counter, the access counters, the number of slots of the direct cache (an argument here),
-- the integrated cache, `get` and `set` of the shared cache, which are those of the private one over its own `pin` and `unpin`, and its
-- constructor, the start of the
-- server threads on the nodes of the machine, the timer of a client, the pre-processing of
-- messages (a prefetch), what the fiber of a server does in a turn (an argument, `Fiber`: each turn is a step `late`), the counting of operations for
-- each second, mapping and closing files, the storage backends, the bindings and the compiler plugin.
pub mod Base
pub mod BlockAllocator
pub mod CachedPtr
pub mod DirectCache
pub mod DirectTable
pub mod MemoryPool
pub mod Messages
pub mod Replacement
pub mod PageTable
pub mod Partitioner
pub mod PrivateCache
pub mod SharedCache
pub mod SharedSingleThreadCache
pub mod SingleThreadCache
mod Tests

-- ===== src/SharedCache.antt =====
-- include/shared_cache.hpp, class `SharedCache`: what a server does with a request for its partition, and
-- `pin` and `unpin` of a client. The backend is behind `evict_func` and `load_func`, and `fresh` is the memory
-- of a new context. Where a client waits for its response, the server has handled the request at once.
pub mod Direct
pub mod Answers
pub mod Backend
pub mod Misses
pub mod Hits
use tri_cache.SharedSingleThreadCache.{
  Phase, begin, initing, evicting, loading, ended, Context, Functions, Cache, no_ppage_id,
}
use tri_cache.SharedSingleThreadCache.Methods
use tri_cache.Replacement.Policy.{Operations}
use tri_cache.PageTable.Mapping
use tri_cache.MemoryPool.{MemoryPool, from_page_id}
use tri_cache.Partitioner.{RoundRobin, locate}
use tri_cache.Messages.{
  RequestType, no_type, pin, unpin, dirty_unpin, notify_direct_pin, notify_direct_unpin, Request,
}
use tri_cache.Base.{
  ℕ, zero, suc, ◌+◌, ◌-◌, ◌^◌, ◌==◌, if◌then◌else◌, ltb, Bool, true, false, Option, none, some,
  ◌>>=◌,
}

-- `EMPTY_POINTER`
abbrev pub empty_pointer : ℕ
empty_pointer = 2 ^ 64 - 1

-- The context of a server; `virt_io_backend` is in the world of the cache.
pub record Partition (E S W : Type 0) : Type 0 where
  pub phy_memory_pool : MemoryPool
  pub single_thread_cache : Cache E S W

-- What a call of a client comes to.
pub data Outcome : Type 0 where
  pointer : ℕ → Outcome
  unpinned : Outcome
  page_error : Outcome  -- "Virtual Page ID Error"
  oom : Outcome

pub record SharedCache (E S W : Type 0) : Type 0 where
  pub num_vpages : ℕ
  pub partitioner : RoundRobin
  pub partitions : ℕ → Partition E S W

abbrev pub is_ended : Phase → Bool
is_ended ended = true
is_ended _ = false

module _ {E X S W : Type 0} (ops : Operations S) (f : Functions E X W) (fresh : Context E X) where
  -- The response to a pin that has ended.
  abbrev pub pin_response : Context E X → Partition E S W → Option ℕ
  pin_response x p =
      if x.ppage_id == no_ppage_id
      then some empty_pointer
      else from_page_id p.phy_memory_pool x.ppage_id

  abbrev pub first_unpin :
      ℕ → Bool → Partition E S W → Option (Option (Context E X) × ℕ × Partition E S W)
  first_unpin vpage_id is_write p = do
    (x, c) ← Methods.unpin ops f vpage_id is_write fresh p.single_thread_cache
    let q = record p { single_thread_cache = c }
    if is_ended x.phase then some (none, 1, q) else some (some x, 0, q)

  -- The context of a request that has not ended, and the response.
  abbrev pub first_by_type :
      RequestType → ℕ → Partition E S W → Option (Option (Context E X) × ℕ × Partition E S W)
  first_by_type pin vpage_id p = do
    (x, c) ← Methods.pin ops f vpage_id fresh p.single_thread_cache
    let q = record p { single_thread_cache = c }
    if is_ended x.phase then (do a ← pin_response x q; some (none, a, q)) else some (some x, 0, q)
  first_by_type unpin vpage_id p = first_unpin vpage_id false p
  first_by_type dirty_unpin vpage_id p = first_unpin vpage_id true p
  first_by_type notify_direct_pin vpage_id p = do
    c ← Methods.notify_pin ops f vpage_id p.single_thread_cache
    some (none, 1, record p { single_thread_cache = c })
  first_by_type notify_direct_unpin vpage_id p = do
    c ← Methods.notify_unpin ops f vpage_id p.single_thread_cache
    some (none, 1, record p { single_thread_cache = c })
  first_by_type no_type vpage_id p = none

  unfoldable pub first_processing :
      RoundRobin → Request → Partition E S W → Option (Option (Context E X) × ℕ × Partition E S W)
  first_processing r req p = first_by_type req.type (locate r req.page_id).1 p

  -- What `processing_func` stores for a request with a place for its response.
  abbrev pub late_response : RequestType → Context E X → Partition E S W → Option ℕ
  late_response pin x p = pin_response x p
  late_response unpin x p = some 1
  late_response dirty_unpin x p = some 1
  late_response _ x p = none

  -- Whether the request is done, and what is stored for it.
  unfoldable pub processing :
      Context E X
      → Request
      → Partition E S W
      → Option (Bool × Option ℕ × Context E X × Partition E S W)
  processing x req p = do
    (y, c) ← Methods.process ops f x p.single_thread_cache
    let q = record p { single_thread_cache = c }
    if is_ended y.phase
        then elim req.resp [
          | none ↦ some (true, none, y, q)
          | some place ↦ (do a ← late_response req.type y q; some (true, some a, y, q))
        ]
        else some (false, none, y, q)

  -- `processing_func` until the request is done.
  unfoldable pub finish : ℕ → Context E X → Request → Partition E S W → Option (ℕ × Partition E S W)
  finish zero x req p = none
  finish (suc n) x req p = do
    (done, response, y, q) ← processing x req p
    elim done [
      | true ↦ some (elim response [ none ↦ 0 | some a ↦ a ], q)
      | false ↦ finish n y req q
    ]

  -- A request and its response.
  unfoldable pub answer : ℕ → RoundRobin → Request → Partition E S W → Option (ℕ × Partition E S W)
  answer fuel r req p = do
    (waiting, response, q) ← first_processing r req p
    elim waiting [ none ↦ some (response, q) | some x ↦ finish fuel x req q ]

  -- `pin` by the page table. `none` for the result: the page is asked of the server.
  unfoldable pub direct_pin : RoundRobin → ℕ → Partition E S W → Option (Option ℕ × Partition E S W)
  direct_pin r vpage_id p = do
    let c = p.single_thread_cache
    ((success, ppage_id, pre_ref_count), t) ← Mapping.pin c.page_table (locate r vpage_id).1 none
    let q = record p { single_thread_cache = record c { page_table = t } }
    if success
        then (do
          notified ←
              if pre_ref_count == 0
              then first_processing r
                  (record { type = notify_direct_pin; page_id = vpage_id; resp = none }) q
              else some (none, 0, q)
          a ← from_page_id p.phy_memory_pool ppage_id
          some (some a, notified.2))
        else some (none, q)

  -- The loop over the requests of `pin`.
  unfoldable pub pin_again :
      ℕ → ℕ → RoundRobin → ℕ → Partition E S W → Option (Outcome × Partition E S W)
  pin_again zero fuel r vpage_id p = some (oom, p)
  pin_again (suc n) fuel r vpage_id p = do
    (a, q) ← answer fuel r (record { type = pin; page_id = vpage_id; resp = some 0 }) p
    elim (a == empty_pointer) [ true ↦ pin_again n fuel r vpage_id q | false ↦ some (pointer a, q) ]

  abbrev pub put_partition : SharedCache E S W → ℕ → Partition E S W → SharedCache E S W
  put_partition s sid p = record s { partitions = λ k. if k == sid then p else s.partitions k }

  unfoldable pub shared_pin : ℕ → ℕ → SharedCache E S W → Option (Outcome × SharedCache E S W)
  shared_pin fuel vpage_id s =
      if ltb vpage_id s.num_vpages
      then (do
        let r = s.partitioner
        let sid = (locate r vpage_id).0
        (found, p) ← direct_pin r vpage_id (s.partitions sid)
        elim found [
          | some a ↦ some (pointer a, put_partition s sid p)
          | none ↦ (do
            (o, q) ← pin_again (2 ^ 20 + 1) fuel r vpage_id p
            some (o, put_partition s sid q))
        ])
      else some (page_error, s)

  unfoldable pub shared_unpin : ℕ → Bool → SharedCache E S W → Option (Outcome × SharedCache E S W)
  shared_unpin vpage_id is_write s =
      if ltb vpage_id s.num_vpages
      then (do
        let r = s.partitioner
        let (sid, block_id) = locate r vpage_id
        let p = s.partitions sid
        let c = p.single_thread_cache
        (pre_ref_count, t) ← Mapping.unpin c.page_table block_id is_write none
        let q = record p { single_thread_cache = record c { page_table = t } }
        notified ←
            if pre_ref_count == 1
            then first_processing r
                (record { type = notify_direct_unpin; page_id = vpage_id; resp = none }) q
            else some (none, 0, q)
        some (unpinned, put_partition s sid notified.2))
      else some (page_error, s)

-- ===== src/PrivateCache.antt =====
-- include/private_cache.hpp, class `PrivateCache`: the pages that one thread has pinned in the shared cache,
-- in a cache of references for each partition. What is called of the shared cache is a parameter, its state is
-- in `world`, and `SharedCacheContext` is the number of the partition.
pub mod Shared
pub mod Holds
pub mod Gained
pub mod Loads
pub mod Calls
pub mod Fresh
pub mod Bytes
use tri_cache.SharedCache.{is_ended}
use tri_cache.SharedSingleThreadCache.{Context, Functions, Cache, no_ppage_id}
use tri_cache.SharedSingleThreadCache.Process.{state_at}
use tri_cache.SharedSingleThreadCache.Methods
use tri_cache.SharedSingleThreadCache.Flush
use tri_cache.DirectCache.{Below}
use tri_cache.Replacement.Policy.{Operations}
use tri_cache.Partitioner.{RoundRobin, locate, page_at}
use tri_cache.Base.{
  ℕ, zero, suc, ◌+◌, ◌^◌, ◌==◌, if◌then◌else◌, ltb, Bool, true, false, Option, none, some, ◌>>=◌,
  ◌>>◌, assert, not,
}

-- What a call comes to.
pub data PrivateOutcome (P : Type 0) : Type 0 where
  answered : P → PrivateOutcome P
  released : PrivateOutcome P
  no_page_error : PrivateOutcome P  -- "Virtual Page ID Error"
  no_frame : PrivateOutcome P  -- "oom"

-- `private_caches[pid]` is without its world, which all of them share.
pub record PrivateCache (P S W : Type 0) : Type 0 where
  pub num_vpages : ℕ
  pub partitioner : RoundRobin
  pub num_local_ppages_per_partition : ℕ
  pub private_caches : ℕ → Cache P S W
  pub world : W

module _ {P S W : Type 0} where
  abbrev pub cache_of : PrivateCache P S W → ℕ → Cache P S W
  cache_of s pid = record (s.private_caches pid) { world = s.world }

  abbrev pub put_cache : PrivateCache P S W → ℕ → Cache P S W → PrivateCache P S W
  put_cache s pid c = record s {
    private_caches = λ k. if k == pid then c else s.private_caches k;
    world = c.world;
  }

module _ {P W : Type 0} (below : Below P W) (null : P) where
  abbrev pub evict_reference : RoundRobin → ℕ → ℕ → ℕ → Bool → P → W → Bool × ℕ × W
  evict_reference r pid vpage_id ppage_id dirty state w =
      (true, pid, below.unpin (page_at r pid vpage_id) dirty w)

  abbrev pub load_reference : RoundRobin → ℕ → ℕ → ℕ → P → W → Bool × P × ℕ × W
  load_reference r pid vpage_id ppage_id state w =
      let (pointer, v) = below.pin (page_at r pid vpage_id) w in (true, pointer, pid, v)

  -- What the cache of a partition calls.
  abbrev pub functions : RoundRobin → ℕ → Functions P ℕ W
  functions r pid = record {
    evict = evict_reference r;
    load = load_reference r;
    new_external = null;
    default_context = pid;
  }

module _ {P S W : Type 0} (ops : Operations S) (below : Below P W) (null : P)
    (fresh : Context P ℕ) where
  -- `process` until the context is at its end.
  unfoldable pub settle :
      ℕ → Functions P ℕ W → Context P ℕ → Cache P S W → Option (Context P ℕ × Cache P S W)
  settle zero f x c = none
  settle (suc n) f x c = elim (is_ended x.phase) [
    | true ↦ some (x, c)
    | false ↦ do (y, d) ← Methods.process ops f x c; settle n f y d
  ]

  -- `ret.external_state->pointer`
  abbrev pub pointer_at : Functions P ℕ W → Context P ℕ → Cache P S W → Option P
  pointer_at f x c = do p ← x.external_state; some (state_at ops f c p).external

  -- The loop of `pin`, whose last round throws. An error that the pin of the shared cache throws in
  -- `load_func` leaves the loop; nothing is said of what it leaves, and it is `none`.
  unfoldable pub pin_until :
      ℕ → ℕ → Functions P ℕ W → ℕ → Cache P S W → Option (PrivateOutcome P × Cache P S W)
  pin_until zero fuel f v c = do
    (x, d) ← Methods.pin ops f v fresh c
    (y, e) ← settle fuel f x d
    assert (not (below.thrown e.world))
    some (no_frame, e)
  pin_until (suc n) fuel f v c = do
    (x, d) ← Methods.pin ops f v fresh c
    (y, e) ← settle fuel f x d
    assert (not (below.thrown e.world))
    elim (y.ppage_id == no_ppage_id) [
      | true ↦ pin_until n fuel f v e
      | false ↦ (do pointer ← pointer_at f y e; some (answered pointer, e))
    ]

  unfoldable pub private_pin :
      ℕ → ℕ → PrivateCache P S W → Option (PrivateOutcome P × PrivateCache P S W)
  private_pin fuel vpage_id s =
      if ltb vpage_id s.num_vpages
      then (do
        let (pid, v) = locate s.partitioner vpage_id
        (o, c) ← pin_until (2 ^ 30) fuel (functions below null s.partitioner pid) v (cache_of s pid)
        some (o, put_cache s pid c))
      else some (no_page_error, s)

  unfoldable pub private_unpin :
      ℕ → ℕ → Bool → PrivateCache P S W → Option (PrivateOutcome P × PrivateCache P S W)
  private_unpin fuel vpage_id is_write s =
      if ltb vpage_id s.num_vpages
      then (do
        let (pid, v) = locate s.partitioner vpage_id
        let f = functions below null s.partitioner pid
        (x, c) ← Methods.unpin ops f v is_write fresh (cache_of s pid)
        (y, d) ← settle fuel f x c
        some (released, put_cache s pid d))
      else some (no_page_error, s)

module _ {P S W : Type 0} (ops : Operations S) (below : Below P W) (null : P) (fresh : Context P ℕ)
    (new_policy : ℕ → S) where
  -- The caches of the constructor, which `flush` makes again.
  abbrev pub new_private_caches : RoundRobin → ℕ → W → ℕ → Cache P S W
  new_private_caches r num_local world pid =
      Methods.new_cache ops (functions below null r pid) num_local (new_policy num_local) world

  -- The constructor; the number of frames, a product with the ratio, is an argument.
  unfoldable pub new_private_cache : ℕ → RoundRobin → ℕ → W → PrivateCache P S W
  new_private_cache num_vpages r num_local world = record {
    num_vpages = num_vpages;
    partitioner = r;
    num_local_ppages_per_partition = num_local;
    private_caches = new_private_caches r num_local world;
    world = world;
  }

  -- The loop of `flush`, on `n` partitions from partition `i` on; `rounds` is the fuel of each.
  unfoldable pub flush_caches : ℕ → ℕ → ℕ → PrivateCache P S W → Option (PrivateCache P S W)
  flush_caches rounds zero i s = some s
  flush_caches rounds (suc n) i s = do
    c ← Flush.flush ops (functions below null s.partitioner i) rounds fresh (cache_of s i)
    flush_caches rounds n (i + 1) (put_cache s i c)

  unfoldable pub private_flush : ℕ → PrivateCache P S W → Option (PrivateCache P S W)
  private_flush rounds s = do
    t ← flush_caches rounds s.partitioner.num_partitions 0 s
    some (record t {
      private_caches = new_private_caches t.partitioner t.num_local_ppages_per_partition t.world;
    })

-- ===== src/PrivateCache/Bytes.antt =====
-- `get` and `set` of include/private_cache.hpp. What `memcpy` reads and writes at a pointer is a parameter, and a
-- thrown error is `none` for the bytes.
use tri_cache.PrivateCache.{
  PrivateCache, answered, released, no_page_error, no_frame, private_pin, private_unpin,
}
use tri_cache.PrivateCache.Shared.{IsShared}
use tri_cache.PrivateCache.Holds.{Keeps, elsewhere}
use tri_cache.PrivateCache.Calls.{private_pin-Keeps, private_unpin-Keeps}
use tri_cache.SharedSingleThreadCache.{Context, full_pin}
use tri_cache.SharedSingleThreadCache.Frames.{IsPage}
use tri_cache.MemoryPool.{cache_page_size}
use tri_cache.DirectCache.{Below}
use tri_cache.Replacement.Policy.{Operations, IsPolicy}
use mathlib.Core.Path.{subst}
use tri_cache.Partitioner.{RoundRobin, locate}
use tri_cache.Partitioner.Laws.{page_at-locate}
use tri_cache.PrivateCache.{cache_of}
use tri_cache.PageTable.Table.{Pte}
use tri_cache.Base.{
  ℕ, suc, ◌+◌, ◌*◌, ◌/◌, ◌%◌, ◌^◌, ◌<◌, ◌≤◌, ◌≡◌, ◌&&◌, ltb, leb, Bool, true, false, Option, none,
  some, List, Returns, length, arith, refl, ap, sym, ==_refl, ◌>>=◌, ◌>>◌, assert, ◌∙◌,
}

-- `check_addr`, of the shared cache
unfoldable pub check_addr : ℕ → ℕ → ℕ → Bool
check_addr virt_size addr size =
    ltb ((addr + size) % 2 ^ 64) virt_size && leb (addr % cache_page_size + size) cache_page_size

-- An access that passes lies in one page of the space.
checked_page :
    (virt_size addr size n : ℕ)
    → virt_size ≡ n * cache_page_size
    → addr + size < 2 ^ 64
    → check_addr virt_size addr size ≡ true
    → addr / cache_page_size < n
unfolding check_addr
checked_page virt_size addr size n whole whole_end checks =
    let same : (addr + size) % 2 ^ 64 ≡ addr + size = omega (arith, whole_end) in
    ground (arith, whole, checks, same)

module _ {P S W : Type 0} (ops : Operations S) (below : Below P W) (null : P) (fresh : Context P ℕ)
    (read : P → ℕ → ℕ → W → List ℕ) where
  unfoldable pub private_get :
      ℕ → ℕ → ℕ → ℕ → PrivateCache P S W → Option (Option (List ℕ) × PrivateCache P S W)
  private_get fuel virt_size addr size s = do
    assert (check_addr virt_size addr size)
    let vpage_id = addr / cache_page_size
    (o, t) ← private_pin ops below null fresh fuel vpage_id s
    elim o [
      | answered page_pointer ↦ do
        let bytes = read page_pointer (addr % cache_page_size) size t.world
        (_, u) ← private_unpin ops below null fresh fuel vpage_id false t
        some (some bytes, u)
      | released ↦ none
      | no_page_error ↦ some (none, t)
      | no_frame ↦ some (none, t)
    ]

module _ {P S W : Type 0} (ops : Operations S) (below : Below P W) (null : P) (fresh : Context P ℕ)
    (write : P → ℕ → List ℕ → W → W) where
  -- Whether the bytes are written.
  unfoldable pub private_set :
      ℕ → ℕ → ℕ → List ℕ → PrivateCache P S W → Option (Bool × PrivateCache P S W)
  private_set fuel virt_size addr bytes s = do
    assert (check_addr virt_size addr (length bytes))
    let vpage_id = addr / cache_page_size
    (o, t) ← private_pin ops below null fresh fuel vpage_id s
    elim o [
      | answered page_pointer ↦ do
        let w = write page_pointer (addr % cache_page_size) bytes t.world
        (_, u) ← private_unpin ops below null fresh fuel vpage_id true (record t { world = w })
        some (true, u)
      | released ↦ none
      | no_page_error ↦ some (false, t)
      | no_frame ↦ some (false, t)
    ]

module _ {P S W : Type 0} (ops : Operations S) (below : Below P W) (null : P) (valid : S → Type 0)
    (bound : S → ℕ) (holds : S → ℕ → Bool) (shared : IsShared below)
    (policy : IsPolicy ops valid bound holds) (fresh : Context P ℕ)
    (read : P → ℕ → ℕ → W → List ℕ) where
  pub private_get-Keeps :
      (m virt_size addr size : ℕ) (s : PrivateCache P S W) (view : ℕ → ℕ → Pte)
      → 0 < s.partitioner.num_partitions
      → s.num_vpages ≤ s.partitioner.num_vpages
      → virt_size ≡ s.num_vpages * cache_page_size
      → addr + size < 2 ^ 64
      → check_addr virt_size addr size ≡ true
      → Keeps ops below null valid bound holds shared s view
      → (let vpage_id = addr / cache_page_size in
          let (k, v) = locate s.partitioner vpage_id in
          let c = cache_of s k in
          IsPage v
          → (view k v).ref_count + 1 < 2 ^ 13
          → below.thrown s.world ≡ false
          → ((view k v).exist ≡ false
              → (0 < length c.page_table.pool)
                × (full_pin c ≡ false)
                × shared.ready vpage_id s.world)
          → Returns (private_get ops below null fresh read (suc m) virt_size addr size s) (λ a.
            (new : ℕ → ℕ → Pte) × Keeps ops below null valid bound holds shared a.1 new
            × (a.0
                ≡ some (
                    read
                      (shared.address a.1.world vpage_id)
                      (addr % cache_page_size)
                      size
                      a.1.world))
            × (shared.pins a.1.world vpage_id ≡ 1)
            × ((j b : ℕ)
                → j < s.partitioner.num_partitions
                → IsPage b
                → (new j b).ref_count ≡ (view j b).ref_count)))
  unfolding private_get
  private_get-Keeps m virt_size addr size s view some_partition few whole no_wrap checks keeps page
        room calm frames =
      let vpage_id = addr / cache_page_size in
      let (k, v) = locate s.partitioner vpage_id in
      let inside : vpage_id < s.num_vpages =
        checked_page virt_size addr size s.num_vpages whole no_wrap checks in
      let (_, lt, _) =
        page_at-locate s.partitioner some_partition vpage_id (omega (arith, few, inside)) in
      let ((o, t), pins, says) =
        private_pin-Keeps ops below null valid bound holds shared policy fresh m s view vpage_id
          some_partition few inside keeps page room calm frames in
      let (one, kept, here, gives, once, counts, same_r, same_n) = says in
      let some_left : 0 < (one k v).ref_count =
        rw (counts k v lt page, ==_refl k, ==_refl v) (omega arith) in
      let (a, unpins, says_then) =
        private_unpin-Keeps ops below null valid bound holds shared policy fresh m t one vpage_id
          false (rw same_r some_partition) (rw (same_r, same_n) few) (rw same_n inside) kept
          (rw same_r page) (rw same_r here) (rw same_r some_left) in
      (
        (some (read (shared.address t.world vpage_id) (addr % cache_page_size) size t.world), a.1),
        rw (checks, ◌>>◌, assert, pins, ◌>>=◌, gives, unpins) refl,
        (
          says_then.0,
          says_then.1,
          ap (λ (w : W). some (read (shared.address w vpage_id) (addr % cache_page_size) size w))
              (sym says_then.3),
          ap (λ (w : W). shared.pins w vpage_id) says_then.3 ∙ once,
          λ j b j_lt b_page.
              says_then.5 j b (rw same_r j_lt) b_page
              ∙ rw (same_r, counts j b j_lt b_page) (omega arith),
        ),
      )

module _ {P S W : Type 0} (ops : Operations S) (below : Below P W) (null : P) (valid : S → Type 0)
    (bound : S → ℕ) (holds : S → ℕ → Bool) (shared : IsShared below)
    (policy : IsPolicy ops valid bound holds) (fresh : Context P ℕ) (write : P → ℕ → List ℕ → W → W)
    (write_pins : (p : P) (i : ℕ) (bytes : List ℕ) (w : W) (q : ℕ)
      → shared.pins (write p i bytes w) q ≡ shared.pins w q)
    (write_address : (p : P) (i : ℕ) (bytes : List ℕ) (w : W) (q : ℕ)
      → shared.address (write p i bytes w) q ≡ shared.address w q) where
  written-Keeps :
      (s : PrivateCache P S W) (view : ℕ → ℕ → Pte) (p : P) (i : ℕ) (bytes : List ℕ)
      → Keeps ops below null valid bound holds shared s view
      → Keeps ops below null valid bound holds shared
          (record s { world = write p i bytes s.world })
          view
  written-Keeps s view p i bytes keeps = record {
    each = λ k lt.
        elsewhere ops below null valid bound holds shared s.partitioner k (cache_of s k) (view k)
          (write p i bytes s.world) (keeps.each k lt)
          (λ b page.
            (write_pins p i bytes s.world _, λ some_pins. write_address p i bytes s.world _));
  }

  -- `PrivateCache::set` of bytes that pass `check_addr`, on a space of `num_vpages` whole pages and
  -- with an end below 2^64, to a page whose counter is below 2^13 - 1 and which is mapped or finds
  -- a frame and a line in the private cache and a shared cache that is ready for its pin, where no
  -- call has thrown and writing bytes changes neither pins nor addresses: the call writes them, at
  -- the address of the page and the place in it, to a world in which the page is pinned; every
  -- mapped page is pinned once in the shared cache, the page is so and is dirty in the private
  -- cache, and all pages have as many references as before. Of the shared cache it is asked that it
  -- does not throw and counts where it is ready for a pin of a page that this thread has not
  -- pinned, stays so when the thread gives back another page, and keeps the address of a page while
  -- it is pinned.
  pub private_set-Keeps :
      (m virt_size addr : ℕ) (bytes : List ℕ) (s : PrivateCache P S W) (view : ℕ → ℕ → Pte)
      → 0 < s.partitioner.num_partitions
      → s.num_vpages ≤ s.partitioner.num_vpages
      → virt_size ≡ s.num_vpages * cache_page_size
      → addr + length bytes < 2 ^ 64
      → check_addr virt_size addr (length bytes) ≡ true
      → Keeps ops below null valid bound holds shared s view
      → (let vpage_id = addr / cache_page_size in
          let (k, v) = locate s.partitioner vpage_id in
          let c = cache_of s k in
          IsPage v
          → (view k v).ref_count + 1 < 2 ^ 13
          → below.thrown s.world ≡ false
          → ((view k v).exist ≡ false
              → (0 < length c.page_table.pool)
                × (full_pin c ≡ false)
                × shared.ready vpage_id s.world)
          → Returns (private_set ops below null fresh write (suc m) virt_size addr bytes s) (λ a.
            (new : ℕ → ℕ → Pte) × Keeps ops below null valid bound holds shared a.1 new
            × (a.0 ≡ true)
            × ((before : W) × (shared.pins before vpage_id ≡ 1)
                × (a.1.world
                    ≡ write (shared.address before vpage_id) (addr % cache_page_size) bytes before))
            × (shared.pins a.1.world vpage_id ≡ 1)
            × ((new k v).dirty ≡ true)
            × ((j b : ℕ)
                → j < s.partitioner.num_partitions
                → IsPage b
                → (new j b).ref_count ≡ (view j b).ref_count)))
  unfolding private_set
  private_set-Keeps m virt_size addr bytes s view some_partition few whole no_wrap checks keeps page
        room calm frames =
      let vpage_id = addr / cache_page_size in
      let (k, v) = locate s.partitioner vpage_id in
      let inside : vpage_id < s.num_vpages =
        checked_page virt_size addr (length bytes) s.num_vpages whole no_wrap checks in
      let (_, lt, _) =
        page_at-locate s.partitioner some_partition vpage_id (omega (arith, few, inside)) in
      let ((o, t), pins, says) =
        private_pin-Keeps ops below null valid bound holds shared policy fresh m s view vpage_id
          some_partition few inside keeps page room calm frames in
      let (one, kept, here, gives, once, counts, same_r, same_n) = says in
      let p = shared.address t.world vpage_id in
      let w = write p (addr % cache_page_size) bytes t.world in
      let some_left : 0 < (one k v).ref_count =
        rw (counts k v lt page, ==_refl k, ==_refl v) (omega arith) in
      let (a, unpins, says_then) =
        private_unpin-Keeps ops below null valid bound holds shared policy fresh m
          (record t { world = w }) one vpage_id true (rw same_r some_partition)
          (rw (same_r, same_n) few) (rw same_n inside)
          (written-Keeps t one p (addr % cache_page_size) bytes kept) (rw same_r page)
          (rw same_r here) (rw same_r some_left) in
      (
        (true, a.1),
        rw (checks, ◌>>◌, assert, pins, ◌>>=◌, gives, unpins) refl,
        (
          says_then.0,
          says_then.1,
          refl,
          (t.world, once, says_then.3),
          ap (λ (x : W). shared.pins x vpage_id) says_then.3
              ∙ write_pins p (addr % cache_page_size) bytes t.world vpage_id
              ∙ once,
          subst
              (λ (r : RoundRobin).
                (says_then.0 (locate r vpage_id).0 (locate r vpage_id).1).dirty ≡ true)
              same_r says_then.4,
          λ j b j_lt b_page.
              says_then.5 j b (rw same_r j_lt) b_page
              ∙ rw (same_r, counts j b j_lt b_page) (omega arith),
        ),
      )

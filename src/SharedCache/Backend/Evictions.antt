-- ===== src/SharedCache/Backend/Evictions.antt =====
-- `evict_func` of include/shared_cache.hpp, called until it is done, writes a dirty page once.
use tri_cache.SharedCache.Backend.{Backend, IoContext, evict_func, ask_again, poll, evict_calls}
use tri_cache.MemoryPool.{MemoryPool, from_page_id, cache_page_size}
use tri_cache.Base.{
  ℕ, zero, suc, ◌+◌, ◌*◌, ◌<◌, ◌≡◌, if◌then◌else◌, Bool, true, false, Option, some, Returns, arith,
  refl, inl, inr, Bool-cases, ◌∙◌,
}

-- `written` counts the writes of page `vpage_id` from frame `ppage_id` that the backend has taken. While such a
-- write is pending, each round of progress lowers `left` until the write is finished.
module _ {W : Type 0} (backend : Backend W) (pool : MemoryPool) (vpage_id ppage_id place fuel : ℕ)
    (pending : W → Type 0) (written left : W → ℕ) (inside : ppage_id < pool.num_pages) where
  abbrev pub ask : W → Bool × W
  ask = backend.write vpage_id (pool.pool + ppage_id * cache_page_size) place

  abbrev pub calls : Bool → (IoContext × W) → Option (Bool × (IoContext × W))
  calls = evict_calls backend fuel pool vpage_id ppage_id

  module _ (counts : (w : W) → written (ask w).1 ≡ written w + (if (ask w).0 then 1 else 0))
      (starts : (w : W) → (ask w).0 ≡ true → pending (ask w).1)
      (idles : (w : W) → written (backend.progress w) ≡ written w)
      (nears : (w : W)
        → pending w
        → backend.finish place w ≡ false
        → pending (backend.progress w) × (left (backend.progress w) < left w)) where
    asked_once :
        (n : ℕ) (w v : W)
        → ask_again backend n ask w ≡ some v
        → (written v ≡ written w + 1) × pending v
    unfolding ask_again
    asked_once zero w v e = absurd (cc)
    asked_once (suc n) w v e = elim (Bool-cases (ask w).0) [
      | inl taken ↦
          let same : v ≡ (ask w).1 = ground (arith, e, taken) in
          rw same (ground (arith, taken, counts w), starts w taken)
      | inr busy ↦
          let (one, waiting) = asked_once n (ask w).1 v (ground (arith, e, busy)) in
          (ground (arith, busy, counts w, one), waiting)
    ]

    -- What is waited for comes.
    waits :
        (n : ℕ) (w : W)
        → pending w
        → left w < n
        → Returns
            (poll n (calls true) (record { first = false; processing = true; place = place }, w))
            (λ a. (written a.1 ≡ written w) × (backend.finish place a.1 ≡ true))
    unfolding poll evict_func from_page_id
    waits zero w waiting enough = absurd (omega (arith, enough))
    waits (suc n) w waiting enough =
        let x : IoContext = record { first = false; processing = true; place = place } in
        elim (Bool-cases (backend.finish place w)) [
          | inl done ↦ ((x, w), ground (arith, inside, done), (refl, done))
          | inr more ↦
              let (still, less) = nears w waiting more in
              let (a, runs, says) =
                waits n (backend.progress w) still (omega (arith, enough, less)) in
              (a, ground (arith, inside, more, runs), (says.0 ∙ idles w, says.1))
        ]

    -- Calls of `evict_func` for a frame of the pool, where the backend takes the request within
    -- `fuel` tries, counts a write once when it takes it, and each round of progress brings a write
    -- that is pending nearer to its end, of which there are less than `n` to go: with `n + 2` calls
    -- one says that it is done; a dirty page was written once and its write is finished, a clean
    -- one was not written.
    pub evict_once :
        (n : ℕ) (dirty : Bool) (w v : W)
        → ask_again backend fuel ask w ≡ some v
        → left v < n
        → Returns
            (poll
              (n + 2)
              (calls dirty)
              (record { first = true; processing = false; place = place }, w))
            (λ a.
              (written a.1 ≡ written w + (if dirty then 1 else 0))
              × (dirty ≡ true → backend.finish place a.1 ≡ true))
    unfolding poll evict_func from_page_id
    evict_once n false w v takes bounded =
        let x : IoContext = record { first = true; processing = false; place = place } in
        ((x, w), ground (arith, inside), (omega arith, λ e. absurd (cc)))
    evict_once n true w v takes bounded =
        let (one, waiting) = asked_once fuel w v takes in
        let (a, runs, says) = waits n v waiting bounded in
        let grown : n + 2 ≡ suc (suc n) = omega arith in
        (a, rw grown (ground (arith, inside, takes, runs)), (says.0 ∙ one, λ _. says.1))

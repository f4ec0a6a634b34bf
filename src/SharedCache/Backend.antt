-- ===== src/SharedCache/Backend.antt =====
-- `evict_func` and `load_func` of include/shared_cache.hpp: a page is written to the backend, or read from it,
-- over several calls. The backend is a parameter; `place` stands for the address of `async_context.finish`,
-- which the backend sets. The counting of operations for each second is left out.
pub mod Evictions
use tri_cache.MemoryPool.{MemoryPool, from_page_id, loaded}
use tri_cache.Base.{
  ℕ, zero, suc, ◌+◌, ◌<◌, ◌≤◌, ◌≡◌, if◌then◌else◌, Bool, true, false, not, Option, none, some,
  ◌>>=◌, Returns, arith, refl, inl, inr, Bool-cases, ◌∙◌, ap,
}

-- `IOContext`, but `finish`
pub record IoContext : Type 0 where
  pub first : Bool
  pub processing : Bool
  pub place : ℕ

-- `write` and `read` say whether the backend took the request, of a block, a frame's address and a place.
pub record Backend (W : Type 0) : Type 0 where
  pub write : ℕ → ℕ → ℕ → W → Bool × W
  pub read : ℕ → ℕ → ℕ → W → Bool × W
  pub progress : W → W
  pub finish : ℕ → W → Bool

module _ {W : Type 0} (backend : Backend W) where
  -- The loop that asks until the backend takes the request, in a number of rounds.
  unfoldable pub ask_again : ℕ → (W → Bool × W) → W → Option W
  ask_again zero ask w = none
  ask_again (suc n) ask w = do
    let (taken, v) = ask w
    elim taken [ true ↦ some v | false ↦ ask_again n ask v ]

  -- What both functions do for a page that is transferred.
  abbrev pub transfer : ℕ → (W → Bool × W) → IoContext → W → Option (Bool × IoContext × W)
  transfer fuel ask x w =
      if x.first
      then some (false, record x { first = false }, w)
      else if not x.processing
      then (do v ← ask_again fuel ask w; some (false, record x { processing = true }, v))
      else if not (backend.finish x.place w)
      then some (false, x, backend.progress w)
      else some (true, x, w)

  unfoldable pub evict_func :
      ℕ → MemoryPool → ℕ → ℕ → Bool → IoContext → W → Option (Bool × IoContext × W)
  evict_func fuel pool vpage_id ppage_id dirty x w = if not dirty then some (true, x, w) else (do
    frame ← from_page_id pool ppage_id
    transfer fuel (backend.write vpage_id frame x.place) x w)

  unfoldable pub load_func :
      ℕ → MemoryPool → ℕ → ℕ → IoContext → W → Option (Bool × IoContext × MemoryPool × W)
  load_func fuel pool vpage_id ppage_id x w =
      let (was_loaded, pool') = loaded pool ppage_id in
      if not was_loaded then some (true, x, pool', w) else (do
        frame ← from_page_id pool ppage_id
        (done, y, v) ← transfer fuel (backend.read vpage_id frame x.place) x w
        some (done, y, pool', v))

-- The calls that a phase makes, one after the other, until one says that it is done.
unfoldable pub poll : {S : Type 0} → ℕ → (S → Option (Bool × S)) → S → Option S
poll zero call s = none
poll (suc n) call s = do (done, t) ← call s; elim done [ true ↦ some t | false ↦ poll n call t ]

abbrev pub evict_calls :
    {W : Type 0}
    → Backend W
    → ℕ
    → MemoryPool
    → ℕ
    → ℕ
    → Bool
    → (IoContext × W)
    → Option (Bool × (IoContext × W))
evict_calls backend fuel pool vpage_id ppage_id dirty s = do
  (done, x, w) ← evict_func backend fuel pool vpage_id ppage_id dirty s.0 s.1
  some (done, (x, w))

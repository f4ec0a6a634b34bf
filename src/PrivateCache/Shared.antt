-- ===== src/PrivateCache/Shared.antt =====
-- What include/private_cache.hpp relies on in the shared cache.
use tri_cache.DirectCache.{Below}
use tri_cache.Base.{ℕ, ◌+◌, ◌-◌, ◌<◌, ◌≡◌, ◌≢◌, ◌==◌, if◌then◌else◌, Bool, false}

-- `pins` are those of this thread. Where the shared cache is `ready` for a pin of a page that this thread has not
-- pinned, the pin does not throw, counts, and gives the address of the page; it stays ready for that page when
-- another that the thread has pinned is given back. The address of a page stays while it is pinned.
pub record IsShared {P W : Type 0} (below : Below P W) : Type 1 where
  pub pins : W → ℕ → ℕ
  pub address : W → ℕ → P
  pub ready : ℕ → W → Type 0
  pub pin_succeeds :
      (v : ℕ) (w : W) → ready v w → pins w v ≡ 0 → below.thrown (below.pin v w).1 ≡ false
  pub pin_adds :
      (v : ℕ) (w : W)
      → ready v w
      → pins w v ≡ 0
      → (q : ℕ) → pins (below.pin v w).1 q ≡ pins w q + (if v == q then 1 else 0)
  pub pin_gives :
      (v : ℕ) (w : W) → ready v w → pins w v ≡ 0 → (below.pin v w).0 ≡ address (below.pin v w).1 v
  pub pin_keeps :
      (v : ℕ) (w : W)
      → ready v w
      → pins w v ≡ 0
      → (q : ℕ) → 0 < pins w q
      → address (below.pin v w).1 q ≡ address w q
  pub unpin_ready :
      (v : ℕ) (b : Bool) (w : W) (u : ℕ)
      → ready u w
      → 0 < pins w v
      → v ≢ u
      → ready u (below.unpin v b w)
  pub unpin_takes :
      (v : ℕ) (b : Bool) (w : W) (u : ℕ)
      → ready u w
      → 0 < pins w v
      → v ≢ u
      → (q : ℕ) → pins (below.unpin v b w) q ≡ pins w q - (if v == q then 1 else 0)
  pub unpin_keeps :
      (v : ℕ) (b : Bool) (w : W) (u : ℕ)
      → ready u w
      → 0 < pins w v
      → v ≢ u
      → (q : ℕ) → v ≢ q
      → 0 < pins w q
      → address (below.unpin v b w) q ≡ address w q

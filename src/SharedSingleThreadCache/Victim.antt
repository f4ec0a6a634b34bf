-- ===== src/SharedSingleThreadCache/Victim.antt =====
-- `pin` of include/shared_single_thread_cache.hpp on a page that is not mapped, where all frames hold
-- pages: there is a page to evict.
use tri_cache.SharedSingleThreadCache.{
  Cache, Context, Functions, initing, ended, pin_call, full, full_pin,
}
use tri_cache.SharedSingleThreadCache.Process.{run}
use tri_cache.SharedSingleThreadCache.Frames.{IsPage, some_evictable}
use tri_cache.SharedSingleThreadCache.Invariant.{IsCache, pages_of}
use tri_cache.SharedSingleThreadCache.Assigned.{Missed}
use tri_cache.SharedSingleThreadCache.Evicted.{evict_frame}
use tri_cache.Replacement.Policy.{Operations, IsPolicy}
use tri_cache.PageTable.Entry.{line_of_mapped}
use tri_cache.PageTable.Mapping.{find_hint}
use tri_cache.PageTable.Table.{Pte}
use tri_cache.Base.{ℕ, ◌<◌, ◌≡◌, Bool, true, false, some, arith, Returns}

module _ {E X S W : Type 0} (ops : Operations S) (f : Functions E X W) (valid : S → Type 0)
    (bound : S → ℕ) (holds : S → ℕ → Bool) (policy : IsPolicy ops valid bound holds) where
  -- The victim is the page that the policy says, whose line is found.
  pub evicts_some :
      {c : Cache E S W} {view : ℕ → Pte} (is : IsCache ops f valid bound holds c view)
      (y : Context E X) (h : ℕ)
      → IsPage y.vpage_id
      → find_hint c.page_table y.vpage_id ≡ some h
      → (view y.vpage_id).exist ≡ false
      → y.hint ≡ some h
      → y.phase ≡ initing
      → y.kind ≡ pin_call
      → y.pte.exist ≡ false
      → ((x : X) (v p : ℕ) (d : Bool) (s : E) (w : W) → (f.evict x v p d s w).0 ≡ true)
      → ((x : X) (v p : ℕ) (s : E) (w : W) → (f.load x v p s w).0 ≡ true)
      → full_pin c ≡ false
      → full c ≡ true
      → Returns (run ops f 3 y c) (λ a.
        (a.0.phase ≡ ended)
        × Missed ops f valid bound holds c view y.vpage_id a.0.ppage_id a.1
        × (a.0.external_state ≡ some a.0.ppage_id))
  unfolding full full_pin
  evicts_some {c} is y h page lined gone hinted begins_at kind entry evicts loads room is_full =
      let (p0, inside0, held0) =
        some_evictable is.frames (ground (arith, is_full)) (ground (arith, is_full))
          (ground (arith, room, is.pinned_pos)) in
      let ((p, prefetch, r), pops, says) = policy.pops c.replacement p0 is.is_valid held0 in
      let inside : p < c.max_ppage_id =
        omega (arith, is.bounded, policy.inside c.replacement p is.is_valid says.0) in
      let owned = is.frames.owner p inside (ground (arith, is.frames.evictable p inside, says.0)) in
      let (q, at_q) =
        line_of_mapped is.table (pages_of ops f valid bound holds c p)
          (is.reads (pages_of ops f valid bound holds c p) owned.0) owned.1 in
      evict_frame ops f valid bound holds policy evicts loads is y h page lined gone hinted p
        prefetch q r inside pops says.0 says.1 at_q begins_at kind entry room is_full

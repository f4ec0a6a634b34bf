-- ===== src/SharedSingleThreadCache/Notices.antt =====
-- `notify_pin` and `notify_unpin` of include/shared_single_thread_cache.hpp: a client has written the
-- page's entry in the page table by itself.
use tri_cache.SharedSingleThreadCache.{Cache, Functions}
use tri_cache.SharedSingleThreadCache.Methods.{notify_pin, notify_unpin}
use tri_cache.SharedSingleThreadCache.Frames.{IsPage, pinned_frame}
use tri_cache.SharedSingleThreadCache.Invariant.{IsCache, pages_of}
use tri_cache.SharedSingleThreadCache.Pinned.{recounted}
use tri_cache.Replacement.Policy.{Operations, IsPolicy}
use tri_cache.PageTable.Place.{Writes}
use tri_cache.PageTable.Entry.{line_of_mapped}
use tri_cache.PageTable.Mapping.{get_pte}
use tri_cache.PageTable.Table.{Pte, Table}
use tri_cache.Base.{
  ℕ, ◌+◌, ◌-◌, ◌<◌, ◌≡◌, ◌==◌, if◌then◌else◌, Bool, true, some, none, Returns, arith, refl, pos,
  ◌+ℤ◌, ◌-ℤ◌, number_pos, ==_refl, ◌∙◌,
}

module _ {E X S W : Type 0} (ops : Operations S) (f : Functions E X W) (valid : S → Type 0)
    (bound : S → ℕ) (holds : S → ℕ → Bool) (policy : IsPolicy ops valid bound holds) where
  module _ {c : Cache E S W} {view : ℕ → Pte} (is : IsCache ops f valid bound holds c view) (v : ℕ)
      (page : IsPage v) (here : (view v).exist ≡ true) where
    -- A client has taken the first reference of a mapped page of a cache in good shape: after
    -- `notify_pin` the cache is in good shape with the new entry, so the policy has lost the page's frame
    -- and the frame is counted as pinned.
    pub notify_pin_lem :
        (t : Table)
        → (view v).ref_count ≡ 0
        → Writes c.page_table v (record (view v) { ref_count = 1 }) t
        → Returns (notify_pin ops f v (record c { page_table = t })) (λ d.
          IsCache ops f valid bound holds d
            (λ w. if w == v then record (view v) { ref_count = 1 } else view w))
    unfolding notify_pin ◌+ℤ◌
    notify_pin_lem t none_yet writes =
        let (h, found) = line_of_mapped is.table v (is.reads v page) here in
        let owned = is.frames.mapped v page here in
        let e : Pte = record (view v) { ref_count = 1 } in
        let (r, erases, becomes) =
          policy.erases c.replacement (view v).ppage_id is.is_valid (rw is.bounded owned.0) in
        let read : get_pte t v none ≡ some e = writes.reads v ∙ rw (==_refl v) refl in
        (
          record c { page_table = t; pinned_size = c.pinned_size +ℤ pos 1; replacement = r },
          rw (read, erases) refl,
          recounted ops f valid bound holds policy is v h page found here t r e _ (is.pinned + 1)
              writes here (is.frames.unlocked v page) refl (omega arith) becomes.is_valid
              becomes.same_bound (λ p lt. ground (arith, becomes.reads p))
              (ground (arith, is.pinned_pos)) (ground (arith, none_yet)),
        )

    -- A client has given back the last reference of a mapped page of a cache in good shape, setting its
    -- dirty flag at will: after `notify_unpin` the cache is in good shape with the new entry, so the
    -- policy holds the page's frame and the frame is not counted as pinned.
    pub notify_unpin_lem :
        (t : Table) (dirty : Bool)
        → (view v).ref_count ≡ 1
        → Writes c.page_table v (record (view v) { ref_count = 0; dirty = dirty }) t
        → Returns (notify_unpin ops f v (record c { page_table = t })) (λ d.
          IsCache ops f valid bound holds d
            (λ w. if w == v then record (view v) { ref_count = 0; dirty = dirty } else view w))
    unfolding notify_unpin ◌-ℤ◌
    notify_unpin_lem t dirty last writes =
        let (h, found) = line_of_mapped is.table v (is.reads v page) here in
        let owned = is.frames.mapped v page here in
        let e : Pte = record (view v) { ref_count = 0; dirty = dirty } in
        let (r, pushes, becomes) =
          policy.pushes c.replacement (view v).ppage_id is.is_valid (rw is.bounded owned.0) in
        let read : get_pte t v none ≡ some e = writes.reads v ∙ rw (==_refl v) refl in
        let some_pinned : 0 < is.pinned = rw is.frames.tallied (
          number_pos (pinned_frame (pages_of ops f valid bound holds c) view) c.max_ppage_id
            (view v).ppage_id owned.0 (ground (arith, owned, last))) in
        (
          record c { page_table = t; pinned_size = c.pinned_size -ℤ pos 1; replacement = r },
          ground (arith, read, pushes, here),
          recounted ops f valid bound holds policy is v h page found here t r e _ (is.pinned - 1)
              writes here (is.frames.unlocked v page) refl (omega arith) becomes.is_valid
              becomes.same_bound (λ p lt. ground (arith, becomes.reads p))
              (ground (arith, is.pinned_pos, some_pinned)) (ground (arith, last, some_pinned)),
        )

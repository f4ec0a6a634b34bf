-- ===== src/SharedSingleThreadCache/Calls.antt =====
-- `pin` and `unpin` of include/shared_single_thread_cache.hpp as whole calls, from one state between
-- calls to the next.
use tri_cache.SharedSingleThreadCache.{
  Cache, Context, Functions, begin, initing, ended, pin_call, unpin_call, full, full_pin,
  no_ppage_id,
}
use tri_cache.SharedSingleThreadCache.Process.{step, initing_phase, unpin_phase, miss_phase}
use tri_cache.SharedSingleThreadCache.Methods.{pin, unpin, process}
use tri_cache.SharedSingleThreadCache.Frames.{IsPage, pinned_frame}
use tri_cache.SharedSingleThreadCache.Invariant.{IsCache, pages_of}
use tri_cache.SharedSingleThreadCache.Begun.{begun, begins, to_hit, to_unpin, from_start, ends_run}
use tri_cache.SharedSingleThreadCache.Victim.{evicts_some}
use tri_cache.SharedSingleThreadCache.Assigned.{Missed}
use tri_cache.SharedSingleThreadCache.Pinned.{hit_lem, unpin_lem}
use tri_cache.SharedSingleThreadCache.Missed.{spare_frame}
use tri_cache.Replacement.Policy.{Operations, IsPolicy}
use tri_cache.PageTable.Table.{Pte}
use tri_cache.Base.{
  ℕ, ◌+◌, ◌-◌, ◌^◌, ◌==◌, ◌<◌, ◌≡◌, ◌∙◌, ◌||◌, if◌then◌else◌, Bool, true, false, some, none, arith,
  refl, length, Returns, inl, inr, Bool-cases, number_full,
}

module _ {E X S W : Type 0} (ops : Operations S) (f : Functions E X W) (valid : S → Type 0)
    (bound : S → ℕ) (holds : S → ℕ → Bool) (policy : IsPolicy ops valid bound holds) where
  module _ {c : Cache E S W} {view : ℕ → Pte} (is : IsCache ops f valid bound holds c view) (v : ℕ)
      (page : IsPage v) (x : Context E X) where
    abbrev pinning : Context E X
    pinning = record x { kind = pin_call; phase = begin; vpage_id = v; pre_external_state = none }

    -- `pin` of a mapped page with less than 2^13 - 1 references on a cache in good shape: the call
    -- ends with the page's frame and names its state, the states and the world are as before, the
    -- page has a reference more, all other pages are as before, and the cache is in good shape.
    pub pin_hit :
        (view v).exist ≡ true
        → (view v).ref_count + 1 < 2 ^ 13
        → Returns (pin ops f v x c) (λ a.
          (a.0.phase ≡ ended)
          × (a.0.ppage_id ≡ (view v).ppage_id)
          × IsCache ops f valid bound holds a.1 (λ w.
            if w == v then record (view v) { ref_count = (view v).ref_count + 1 } else view w)
          × (a.0.external_state ≡ some (view v).ppage_id)
          × (a.1.states ≡ c.states)
          × (a.1.world ≡ c.world))
    unfolding pin process
    pin_hit here room =
        let ((h, t), b) = begins ops f valid bound holds is pinning page (inr here) refl in
        let y = record pinning { hint = some h; pte = view v; phase = initing } in
        let (a, hits, says) =
          hit_lem ops f valid bound holds policy (begun ops f valid bound holds is b.keeps) v h page
            b.lined here y refl refl refl room in
        let hits_step : step ops f y (record c { page_table = t }) ≡ some a =
          to_hit ops f valid bound holds y _ refl refl here ∙ hits in
        (
          (a.1, a.2),
          b.runs 3 ∙ ends_run ops f valid bound holds 2 y _ a hits_step says.0,
          (says.1, says.2, says.3, says.4, says.5, says.6),
        )

    -- `pin` of an absent page on a cache in good shape that is full of pinned frames, with a line
    -- in the pool: the call ends with EMPTY_PPAGE_ID, every page is as before and the cache in good
    -- shape; and every frame indeed holds a page with a reference.
    pub pin_refused :
        0 < length c.page_table.pool
        → (view v).exist ≡ false
        → full_pin c ≡ true
        → Returns (pin ops f v x c) (λ a.
          (a.0.phase ≡ ended)
          × (a.0.ppage_id ≡ no_ppage_id)
          × IsCache ops f valid bound holds a.1 view
          × ((p : ℕ)
              → p < c.max_ppage_id
              → pinned_frame (pages_of ops f valid bound holds c) view p ≡ true))
    unfolding pin process step initing_phase miss_phase full_pin
    pin_refused stocked gone none_left =
        let ((h, t), b) = begins ops f valid bound holds is pinning page (inl stocked) refl in
        let y = record pinning { hint = some h; pte = view v; phase = initing } in
        let a : Bool × Context E X × Cache E S W = (
          false,
          record y { ppage_id = no_ppage_id; phase = ended },
          record c { page_table = t },
        ) in
        let refuses : step ops f y (record c { page_table = t }) ≡ some a =
          ground (arith, gone, none_left) in
        (
          (a.1, a.2),
          b.runs 3 ∙ ends_run ops f valid bound holds 2 y _ a refuses refl,
          (
            refl,
            refl,
            begun ops f valid bound holds is b.keeps,
            λ p lt.
                number_full (pinned_frame (pages_of ops f valid bound holds c) view) c.max_ppage_id
                  p (ground (arith, is.pinned_pos, is.frames.tallied, none_left)) lt,
          ),
        )

    abbrev unpinning : Bool → Context E X
    unpinning is_write = record x {
      kind = unpin_call;
      phase = begin;
      vpage_id = v;
      is_write = is_write;
      pre_external_state = none;
    }

    -- `unpin` of a mapped page with a reference on a cache in good shape: the call ends, leaves the
    -- states and the world as before, says whether the reference was the last, the page has a
    -- reference less and is dirty if it was or if it was written, all other pages are as before,
    -- and the cache is in good shape.
    pub unpin_mapped :
        (is_write : Bool)
        → (view v).exist ≡ true
        → 0 < (view v).ref_count
        → Returns (unpin ops f v is_write x c) (λ a.
          (a.0.phase ≡ ended)
          × (a.0.is_unpin ≡ ((view v).ref_count == 1))
          × IsCache ops f valid bound holds a.1 (λ w.
            if w == v
            then record (view v) {
              ref_count = (view v).ref_count - 1;
              dirty = is_write || (view v).dirty;
            }
            else view w)
          × (a.1.states ≡ c.states)
          × (a.1.world ≡ c.world))
    unfolding unpin process
    unpin_mapped is_write here some_left =
        let ((h, t), b) =
          begins ops f valid bound holds is (unpinning is_write) page (inr here) refl in
        let y = record (unpinning is_write) { hint = some h; pte = view v; phase = initing } in
        let (a, unpins, says) =
          unpin_lem ops f valid bound holds policy (begun ops f valid bound holds is b.keeps) v h
            page b.lined here y refl refl refl some_left in
        let steps : step ops f y (record c { page_table = t }) ≡ some a =
          to_unpin ops f valid bound holds y _ refl refl ∙ unpins in
        (
          (a.1, a.2),
          b.runs 3 ∙ ends_run ops f valid bound holds 2 y _ a steps says.0,
          (says.1, says.2, says.3, says.4, says.5),
        )

    -- `unpin` of an absent page on a cache in good shape, with a line in the pool: the call ends
    -- and says that nothing was unpinned, every page is as before, and the cache is in good shape.
    pub unpin_absent :
        (is_write : Bool)
        → 0 < length c.page_table.pool
        → (view v).exist ≡ false
        → Returns (unpin ops f v is_write x c) (λ a.
          (a.0.phase ≡ ended) × (a.0.is_unpin ≡ false) × IsCache ops f valid bound holds a.1 view)
    unfolding unpin process unpin_phase
    unpin_absent is_write stocked gone =
        let ((h, t), b) =
          begins ops f valid bound holds is (unpinning is_write) page (inl stocked) refl in
        let y = record (unpinning is_write) { hint = some h; pte = view v; phase = initing } in
        let a : Bool × Context E X × Cache E S W =
          (false, record y { is_unpin = false; phase = ended }, record c { page_table = t }) in
        let steps : step ops f y (record c { page_table = t }) ≡ some a =
          to_unpin ops f valid bound holds y _ refl refl ∙ ground (arith, gone) in
        (
          (a.1, a.2),
          b.runs 3 ∙ ends_run ops f valid bound holds 2 y _ a steps refl,
          (refl, refl, begun ops f valid bound holds is b.keeps),
        )

    -- `pin` of an absent page on a cache in good shape that is not full of pinned frames, with a
    -- line in the pool, where `evict_func` and `load_func` are done at once: the call ends with a
    -- frame that held no page with a reference; a page that it held is evicted first, with its
    -- external state and dirty if its entry says so, and is absent then; `load_func` runs on a
    -- fresh external state, which the frame has then and the call names; the states of other frames
    -- are as before; the page is mapped to the frame with one reference, clean and unlocked, all
    -- other pages are as before, and the cache is in good shape.
    pub pin_miss :
        0 < length c.page_table.pool
        → ((x : X) (v p : ℕ) (d : Bool) (s : E) (w : W) → (f.evict x v p d s w).0 ≡ true)
        → ((x : X) (v p : ℕ) (s : E) (w : W) → (f.load x v p s w).0 ≡ true)
        → (view v).exist ≡ false
        → full_pin c ≡ false
        → Returns (pin ops f v x c) (λ a.
          (a.0.phase ≡ ended)
          × Missed ops f valid bound holds c view v a.0.ppage_id a.1
          × (a.0.external_state ≡ some a.0.ppage_id))
    unfolding pin process full full_pin
    pin_miss stocked evicts loads gone room =
        let ((h, t), b) = begins ops f valid bound holds is pinning page (inl stocked) refl in
        let y = record pinning { hint = some h; pte = view v; phase = initing } in
        let d : Cache E S W = record c { page_table = t } in
        let start = begun ops f valid bound holds is b.keeps in
        elim (Bool-cases (full c)) [
          | inr some_free ↦
              let (a, runs, says) =
                spare_frame ops f valid bound holds policy evicts loads start y h page b.lined gone
                  refl refl refl gone room refl some_free in
              (a, b.runs 3 ∙ runs, (says.0, from_start ops f valid bound holds c t says.1, says.2))
          | inl is_full ↦
              let (a, runs, says) =
                evicts_some ops f valid bound holds policy start y h page b.lined gone refl refl
                  refl gone evicts loads room is_full in
              (a, b.runs 3 ∙ runs, (says.0, from_start ops f valid bound holds c t says.1, says.2))
        ]

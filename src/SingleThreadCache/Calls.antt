-- ===== src/SingleThreadCache/Calls.antt =====
-- `pin` and `unpin` of include/single_thread_cache.hpp as whole calls, from one state between calls to
-- the next.
use tri_cache.SingleThreadCache.{Cache, Context, Map, IsMap, full, full_pin}
use tri_cache.SingleThreadCache.Process.{
  begin_phase, initing_phase, hit_phase, miss_phase, unpin_phase, step, run,
}
use tri_cache.SingleThreadCache.Methods.{pin, unpin, process}
use tri_cache.SingleThreadCache.Invariant.{IsCache, pages_of}
use tri_cache.SingleThreadCache.Pinned.{hit_lem, unpin_lem}
use tri_cache.SingleThreadCache.Missed.{Missed}
use tri_cache.SingleThreadCache.Victim.{spare_frame, evict_frame}
use tri_cache.SharedSingleThreadCache.{
  Functions, begin, initing, ended, pin_call, unpin_call, no_ppage_id,
}
use tri_cache.SharedSingleThreadCache.Frames.{pinned_frame}
use tri_cache.Replacement.Policy.{Operations, IsPolicy}
use tri_cache.PageTable.Table.{Pte}
use tri_cache.Base.{
  ℕ, suc, ◌+◌, ◌-◌, ◌^◌, ◌<◌, ◌≡◌, ◌==◌, ◌∙◌, ◌||◌, if◌then◌else◌, Bool, true, false, some, none,
  Returns, refl, arith, inl, inr, Bool-cases, number_full,
}

module _ {E X S T W : Type 0} (ops : Operations S) (map : Map T Pte) (f : Functions E X W)
    (ref_bits : ℕ) (unset : Pte) (valid : S → Type 0) (bound : S → ℕ) (holds : S → ℕ → Bool)
    (fits : T → Type 0) (InTable : ℕ → Type 0) (policy : IsPolicy ops valid bound holds)
    (is_map : IsMap map fits InTable (λ e. e.exist ≡ true)) where
  runs_on :
      (n : ℕ) (x : Context E X) (c : Cache E S T W) (a : Bool × Context E X × Cache E S T W)
      → step ops map f ref_bits unset x c ≡ some a
      → (a.0 ≡ true
          → run ops map f ref_bits unset (suc n) x c ≡ run ops map f ref_bits unset n a.1 a.2)
        × (a.0 ≡ false → run ops map f ref_bits unset (suc n) x c ≡ some (a.1, a.2))
  unfolding run
  runs_on n x c a steps = (λ on. rw (steps, on) refl, λ last. rw (steps, last) refl)

  to_hit :
      (x : Context E X) (c : Cache E S T W) (e : Pte)
      → x.phase ≡ initing
      → x.kind ≡ pin_call
      → x.page_table_state ≡ some e
      → step ops map f ref_bits unset x c ≡ hit_phase ops map f ref_bits unset x e c
  unfolding step initing_phase
  to_hit x c e start kind entry = ground (arith, start, kind, entry)

  to_miss :
      (x : Context E X) (c : Cache E S T W)
      → x.phase ≡ initing
      → x.kind ≡ pin_call
      → x.page_table_state ≡ none
      → step ops map f ref_bits unset x c ≡ miss_phase ops map f ref_bits unset x c
  unfolding step initing_phase
  to_miss x c start kind entry = ground (arith, start, kind, entry)

  to_unpin :
      (x : Context E X) (c : Cache E S T W)
      → x.phase ≡ initing
      → x.kind ≡ unpin_call
      → step ops map f ref_bits unset x c ≡ unpin_phase ops map f ref_bits unset x c
  unfolding step initing_phase
  to_unpin x c start kind = ground (arith, start, kind)

  module _ {c : Cache E S T W} {view : ℕ → Pte}
      (is : IsCache ops map f ref_bits unset valid bound holds fits InTable c view)
      (x : Context E X) (page : InTable x.vpage_id) (start : x.phase ≡ begin) where
    begins_mapped :
        (view x.vpage_id).exist ≡ true
        → step ops map f ref_bits unset x c
          ≡ some (true, record x { page_table_state = some (view x.vpage_id); phase = initing }, c)
    unfolding step begin_phase
    begins_mapped here =
        ground (arith, start, here, is.reads x.vpage_id page, is.frames.unlocked x.vpage_id page)

    begins_absent :
        (view x.vpage_id).exist ≡ false
        → step ops map f ref_bits unset x c
          ≡ some (true, record x { page_table_state = none; phase = initing }, c)
    unfolding step begin_phase
    begins_absent gone = ground (arith, start, gone, is.reads x.vpage_id page)

  module _ {c : Cache E S T W} {view : ℕ → Pte}
      (is : IsCache ops map f ref_bits unset valid bound holds fits InTable c view) (v : ℕ)
      (page : InTable v) (x : Context E X) where
    abbrev pinning : Context E X
    pinning = record x {
      kind = pin_call;
      phase = begin;
      vpage_id = v;
      page_table_state = none;
      pre_external_state = none;
    }

    hit :
        (view v).exist ≡ true
        → (view v).ref_count + 1 < 2 ^ ref_bits
        → Returns (pin ops map f ref_bits unset v x c) (λ a.
          (a.0.phase ≡ ended)
          × (a.0.ppage_id ≡ (view v).ppage_id)
          × IsCache ops map f ref_bits unset valid bound holds fits InTable a.1 (λ w.
            if w == v then record (view v) { ref_count = (view v).ref_count + 1 } else view w))
    unfolding pin process
    hit here room =
        let y = record pinning { page_table_state = some (view v); phase = initing } in
        let (a, hits, says) =
          hit_lem ops map f ref_bits unset valid bound holds fits InTable policy is_map is v page
            here y refl room in
        (
          (a.1, a.2),
          (runs_on 3 pinning c _ (begins_mapped is pinning page refl here)).0 refl
              ∙ (runs_on 2 y c a (to_hit y c (view v) refl refl refl ∙ hits)).1 says.0,
          (says.1, says.2, says.3),
        )

    refused :
        (view v).exist ≡ false
        → full_pin c ≡ true
        → Returns (pin ops map f ref_bits unset v x c) (λ a.
          (a.0.phase ≡ ended)
          × (a.0.ppage_id ≡ no_ppage_id)
          × (a.1 ≡ c)
          × ((p : ℕ)
              → p < c.max_ppage_id
              → pinned_frame
                  (pages_of ops map f ref_bits unset valid bound holds fits InTable c)
                  view
                  p
                ≡ true))
    unfolding pin process miss_phase full_pin
    refused gone none_left =
        let y = record pinning { page_table_state = none; phase = initing } in
        let a : Bool × Context E X × Cache E S T W =
          (false, record y { ppage_id = no_ppage_id; phase = ended }, c) in
        (
          (a.1, a.2),
          (runs_on 3 pinning c _ (begins_absent is pinning page refl gone)).0 refl
              ∙ (runs_on 2 y c a (to_miss y c refl refl refl ∙ ground (arith, none_left))).1 refl,
          (
            refl,
            refl,
            refl,
            λ p lt.
                number_full
                  (pinned_frame (pages_of ops map f ref_bits unset valid bound holds fits InTable c)
                    view)
                  c.max_ppage_id p (ground (arith, is.frames.tallied, none_left)) lt,
          ),
        )

    missed :
        1 < 2 ^ ref_bits
        → ((x : X) (v p : ℕ) (d : Bool) (s : E) (w : W) → (f.evict x v p d s w).0 ≡ true)
        → ((x : X) (v p : ℕ) (s : E) (w : W) → (f.load x v p s w).0 ≡ true)
        → (view v).exist ≡ false
        → full_pin c ≡ false
        → Returns (pin ops map f ref_bits unset v x c) (λ a.
          (a.0.phase ≡ ended)
          × Missed ops map f ref_bits unset valid bound holds fits InTable c view v a.0.ppage_id
              a.1)
    unfolding pin process
    missed wide evicts loads gone room =
        let y = record pinning { page_table_state = none; phase = initing } in
        let begins = (runs_on 3 pinning c _ (begins_absent is pinning page refl gone)).0 refl in
        elim (Bool-cases (full c)) [
          | inr some_free ↦
              let (a, runs, says) =
                spare_frame ops map f ref_bits unset valid bound holds fits InTable policy is_map
                  wide evicts loads is y page gone refl refl refl refl room some_free in
              (a, begins ∙ runs, says)
          | inl is_full ↦
              let (a, runs, says) =
                evict_frame ops map f ref_bits unset valid bound holds fits InTable policy is_map
                  wide evicts loads is y page gone refl refl refl refl room is_full in
              (a, begins ∙ runs, says)
        ]

    abbrev unpinning : Bool → Context E X
    unpinning is_write = record x {
      kind = unpin_call;
      phase = begin;
      vpage_id = v;
      is_write = is_write;
      page_table_state = none;
      pre_external_state = none;
    }

    given_back :
        (is_write : Bool)
        → (view v).exist ≡ true
        → 0 < (view v).ref_count
        → Returns (unpin ops map f ref_bits unset v is_write x c) (λ a.
          (a.0.phase ≡ ended)
          × (a.0.is_unpin ≡ true)
          × IsCache ops map f ref_bits unset valid bound holds fits InTable a.1 (λ w.
            if w == v
            then record (view v) {
              ref_count = (view v).ref_count - 1;
              dirty = is_write || (view v).dirty;
            }
            else view w))
    unfolding unpin process
    given_back is_write here some_left =
        let x' = unpinning is_write in
        let y = record x' { page_table_state = some (view v); phase = initing } in
        let (a, unpins, says) =
          unpin_lem ops map f ref_bits unset valid bound holds fits InTable policy is_map is v page
            here y refl refl some_left in
        (
          (a.1, a.2),
          (runs_on 3 x' c _ (begins_mapped is x' page refl here)).0 refl
              ∙ (runs_on 2 y c a (to_unpin y c refl refl ∙ unpins)).1 says.0,
          (says.1, says.2, says.3),
        )

    not_mapped :
        (is_write : Bool)
        → (view v).exist ≡ false
        → Returns
            (unpin ops map f ref_bits unset v is_write x c)
            (λ a. (a.0.phase ≡ ended) × (a.0.is_unpin ≡ false) × (a.1 ≡ c))
    unfolding unpin process unpin_phase
    not_mapped is_write gone =
        let x' = unpinning is_write in
        let y = record x' { page_table_state = none; phase = initing } in
        let a : Bool × Context E X × Cache E S T W =
          (false, record y { is_unpin = false; phase = ended }, c) in
        (
          (a.1, a.2),
          (runs_on 3 x' c _ (begins_absent is x' page refl gone)).0 refl
              ∙ (runs_on 2 y c a (to_unpin y c refl refl ∙ refl)).1 refl,
          (refl, refl, refl),
        )

    -- `pin` on a cache in good shape over a page table that is a map, with counters of at least one
    -- bit, where `evict_func` and `load_func` are done at once, ends. A mapped page with room in
    -- its counter: the call returns the page's frame, the page has a reference more, all other
    -- pages are as before, and the cache is in good shape. An absent page where every frame is
    -- counted as pinned: EMPTY_PPAGE_ID, the cache is what it was, and every frame indeed holds a
    -- page with a reference. An absent page else: a frame that held no page with a reference; a
    -- page that it held is evicted first, with its external state and dirty if its state says so,
    -- and is absent then; `load_func` runs on a fresh external state, which the frame has then; the
    -- page is mapped to the frame with one reference, clean and unlocked, all other pages are as
    -- before, and the cache is in good shape.
    pub pin_page :
        1 < 2 ^ ref_bits
        → ((x : X) (v p : ℕ) (d : Bool) (s : E) (w : W) → (f.evict x v p d s w).0 ≡ true)
        → ((x : X) (v p : ℕ) (s : E) (w : W) → (f.load x v p s w).0 ≡ true)
        → ((view v).exist ≡ true
            → (view v).ref_count + 1 < 2 ^ ref_bits
            → Returns (pin ops map f ref_bits unset v x c) (λ a.
              (a.0.phase ≡ ended)
              × (a.0.ppage_id ≡ (view v).ppage_id)
              × IsCache ops map f ref_bits unset valid bound holds fits InTable a.1 (λ w.
                if w == v then record (view v) { ref_count = (view v).ref_count + 1 } else view w)))
          × ((view v).exist ≡ false
              → full_pin c ≡ true
              → Returns (pin ops map f ref_bits unset v x c) (λ a.
                (a.0.phase ≡ ended)
                × (a.0.ppage_id ≡ no_ppage_id)
                × (a.1 ≡ c)
                × ((p : ℕ)
                    → p < c.max_ppage_id
                    → pinned_frame
                        (pages_of ops map f ref_bits unset valid bound holds fits InTable c)
                        view
                        p
                      ≡ true)))
          × ((view v).exist ≡ false
              → full_pin c ≡ false
              → Returns (pin ops map f ref_bits unset v x c) (λ a.
                (a.0.phase ≡ ended)
                × Missed ops map f ref_bits unset valid bound holds fits InTable c view v
                    a.0.ppage_id a.1))
    pin_page wide evicts loads = (hit, refused, missed wide evicts loads)

    -- `unpin` on a cache in good shape over a page table that is a map ends. A mapped page with a
    -- reference: the call says that it was unpinned, the page has a reference less and is dirty if
    -- it was or if it was written, all other pages are as before, and the cache is in good shape.
    -- An absent page: the call says that nothing was unpinned, and the cache is what it was.
    pub unpin_page :
        (is_write : Bool)
        → ((view v).exist ≡ true
            → 0 < (view v).ref_count
            → Returns (unpin ops map f ref_bits unset v is_write x c) (λ a.
              (a.0.phase ≡ ended)
              × (a.0.is_unpin ≡ true)
              × IsCache ops map f ref_bits unset valid bound holds fits InTable a.1 (λ w.
                if w == v
                then record (view v) {
                  ref_count = (view v).ref_count - 1;
                  dirty = is_write || (view v).dirty;
                }
                else view w)))
          × ((view v).exist ≡ false
              → Returns
                  (unpin ops map f ref_bits unset v is_write x c)
                  (λ a. (a.0.phase ≡ ended) × (a.0.is_unpin ≡ false) × (a.1 ≡ c)))
    unpin_page is_write = (given_back is_write, not_mapped is_write)

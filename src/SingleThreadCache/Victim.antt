-- ===== src/SingleThreadCache/Victim.antt =====
-- The middle phases of `pin` of include/single_thread_cache.hpp on a page that is not mapped: a free frame
-- is taken, or a page evicted.
use tri_cache.SingleThreadCache.{Cache, Context, Map, IsMap, more, alloc, full, full_pin}
use tri_cache.SingleThreadCache.Process.{
  state_at, miss_phase, evict_page, call_evict, initing_phase, step, run, drop_victim,
}
use tri_cache.SingleThreadCache.Invariant.{IsCache, pages_of}
use tri_cache.SingleThreadCache.Allocated.{alloc-Takes}
use tri_cache.SingleThreadCache.Loaded.{Loads, loads_lem, run-step}
use tri_cache.SingleThreadCache.Missed.{Missed, Gives, assigned-Missed, evicted_world}
use tri_cache.SharedSingleThreadCache.{Functions, initing, evicting, ended, pin_call}
use tri_cache.SharedSingleThreadCache.Frames.{used, pinned_frame, some_evictable}
use tri_cache.Replacement.Policy.{Operations, IsPolicy, Becomes}
use tri_cache.PageTable.Table.{Pte}
use native.Mathlib.Nat.{mod-eq_of_lt}
use tri_cache.Base.{
  ℕ, ◌+◌, ◌^◌, ◌<◌, ◌≡◌, ◌≢◌, ◌==◌, ◌∙◌, ap, if◌then◌else◌, Bool, true, false, some, none, length,
  Returns, refl, arith, number-le, Option,
}

module _ {E X S T W : Type 0} (ops : Operations S) (map : Map T Pte) (f : Functions E X W)
    (ref_bits : ℕ) (unset : Pte) (valid : S → Type 0) (bound : S → ℕ) (holds : S → ℕ → Bool)
    (fits : T → Type 0) (InTable : ℕ → Type 0) (policy : IsPolicy ops valid bound holds)
    (is_map : IsMap map fits InTable (λ e. e.exist ≡ true)) (wide : 1 < 2 ^ ref_bits)
    (evicts : (x : X) (v p : ℕ) (d : Bool) (s : E) (w : W) → (f.evict x v p d s w).0 ≡ true)
    (loads : (x : X) (v p : ℕ) (s : E) (w : W) → (f.load x v p s w).0 ≡ true) where
  module _ {c : Cache E S T W} {view : ℕ → Pte}
      (is : IsCache ops map f ref_bits unset valid bound holds fits InTable c view)
      (x : Context E X) (page : InTable x.vpage_id) (gone : (view x.vpage_id).exist ≡ false)
      (start : x.phase ≡ initing) (kind : x.kind ≡ pin_call) (entry : x.page_table_state ≡ none)
      (nothing : x.pre_external_state ≡ none) (room : full_pin c ≡ false) where
    -- What the loop returns.
    abbrev pub Ran : Option (Context E X × Cache E S T W) → Type 0
    Ran o = Returns o (λ a.
        (a.0.phase ≡ ended)
        × Missed ops map f ref_bits unset valid bound holds fits InTable c view x.vpage_id
            a.0.ppage_id a.1)

    counts : more c.pinned_size ≡ c.pinned_size + 1
    counts =
        let few =
          number-le
            (pinned_frame (pages_of ops map f ref_bits unset valid bound holds fits InTable c) view)
            c.max_ppage_id in
        mod-eq_of_lt (omega (arith, few, is.small, is.frames.tallied))

    abbrev counted : Cache E S T W
    counted = record c { pinned_size = c.pinned_size + 1 }

    starts_miss : step ops map f ref_bits unset x c ≡ miss_phase ops map f ref_bits unset x c
    unfolding step initing_phase
    starts_miss = ground (arith, start, kind, entry)

    goes_on :
        (y : Context E X) (d0 d : Cache E S T W)
        → step ops map f ref_bits unset x c ≡ some (true, y, d0)
        → y.vpage_id ≡ x.vpage_id
        → y.phase ≡ evicting
        → y.processing ≡ false
        → drop_victim ops map f ref_bits unset y d0 ≡ d
        → fits d.page_table
        → Gives ops map f ref_bits unset valid bound holds fits InTable c view x.vpage_id y.ppage_id
            d
        → Ran (run ops map f ref_bits unset 3 x c)
    goes_on y d0 d steps for_v phase idle dropped d_fits gives =
        let inside : y.ppage_id < length d.states = rw (gives.same.1, is.sized) gives.inside in
        let (r, runs, ends) =
          loads_lem ops map f ref_bits unset fits InTable is_map y d0 d loads phase idle dropped
            d_fits (rw for_v page) inside in
        let l : Loads ops map f ref_bits unset fits InTable is_map d x.vpage_id y.ppage_id r.1 =
          rw (← for_v) ends.2 in
        (
          r,
          run-step ops map f ref_bits unset fits InTable is_map 2 x y c d0 steps ∙ runs,
          (
            ends.0,
            rw ends.1 (
                assigned-Missed ops map f ref_bits unset valid bound holds fits InTable is_map wide
                  is page gone gives l),
          ),
        )

    pub spare_frame : full c ≡ false → Ran (run ops map f ref_bits unset 3 x c)
    unfolding full miss_phase
    spare_frame some_free =
        let ((p, a), allocs, takes) = alloc-Takes counted is.frames some_free in
        let y = record x { ppage_id = p; phase = evicting; processing = false } in
        let d : Cache E S T W = record counted {
          cur_id = a.cur_id;
          recycle_pool = a.recycle_pool;
        } in
        let taken : alloc counted ≡ some (p, d) =
          allocs ∙ ap (λ (z : Cache E S T W). some (p, z)) takes.same in
        goes_on y d d (starts_miss ∙ rw (room, counts, some_free, taken) refl) refl refl refl
          (rw nothing refl) is.table
          (record {
            inside = takes.inside;
            idle = λ e. ground (arith, takes.was_free, e);
            same = (refl, refl);
            pinned = refl;
            world = rw takes.was_free refl;
            reads = λ w w_page other. ground (arith, is.reads w w_page, takes.was_free, other);
            is_valid = is.is_valid;
            bounded = is.bounded;
            held = λ j lt. ground (arith, is.frames.evictable j lt, takes.was_free);
            spared = takes.spared;
            recycled = takes.recycled;
            taken = takes.taken;
          })

    module _ (p prefetch : ℕ) (r : S) (inside : p < c.max_ppage_id)
        (pops : ops.pop c.replacement ≡ some (p, prefetch, r)) (held : holds c.replacement p ≡ true)
        (becomes : Becomes ops valid bound holds c.replacement
          (λ j. if p == j then false else holds c.replacement j)
          r) where
      abbrev u : ℕ
      u = pages_of ops map f ref_bits unset valid bound holds fits InTable c p

      in_use : used (pages_of ops map f ref_bits unset valid bound holds fits InTable c) p ≡ true
      in_use = ground (arith, is.frames.evictable p inside, held)

      owned : InTable u × ((view u).exist ≡ true) × ((view u).ppage_id ≡ p)
      owned = is.frames.owner p inside in_use

      abbrev locked : T
      locked = map.put u (record (view u) { busy = true }) c.page_table

      abbrev both : T
      both = map.put x.vpage_id (record unset { exist = true; busy = true; ppage_id = p }) locked

      abbrev evicted_cache : T → Cache E S T W
      evicted_cache t = record counted {
        replacement = r;
        page_table = t;
        world = evicted_world ops map f ref_bits unset valid bound holds fits InTable c view p;
      }

      abbrev evicting_context : Context E X
      evicting_context = record x {
        ppage_id = p;
        prefetch_ppage_id = prefetch;
        pre_vpage_id = u;
        pre_external_state = some (state_at ops map f ref_bits unset c p).external;
        dirty = (view u).dirty;
        phase = evicting;
        processing = false;
        external_context =
            (f.evict f.default_context u p (view u).dirty
              (state_at ops map f ref_bits unset c p).external c.world).1;
      }

      evict_steps :
          full c ≡ true
          → step ops map f ref_bits unset x c ≡ some (true, evicting_context, evicted_cache both)
      unfolding miss_phase evict_page call_evict full
      evict_steps is_full =
          let read : map.get u c.page_table ≡ some (view u) =
            is.reads u owned.0 ∙ rw owned.1 refl in
          let done =
            evicts f.default_context u p (view u).dirty
              (state_at ops map f ref_bits unset c p).external c.world in
          starts_miss ∙ rw (room, counts, is_full, pops, read, done, in_use) refl

      other : u ≢ x.vpage_id
      other = λ e. ground (arith, owned, gone, e)

      evict_victim : full c ≡ true → Ran (run ops map f ref_bits unset 3 x c)
      evict_victim is_full =
          let first =
            is_map.put-get c.page_table u (record (view u) { busy = true }) is.table owned.0
              owned.1 in
          let second =
            is_map.put-get locked x.vpage_id
              (record unset { exist = true; busy = true; ppage_id = p }) first.0 page refl in
          let third = is_map.del-get both u second.0 owned.0 in
          goes_on evicting_context (evicted_cache both) (evicted_cache (map.del u both))
            (evict_steps is_full) refl refl refl refl third.0
            (record {
              inside = inside;
              idle = λ _. ground (arith, is.frames.evictable p inside, held);
              same = (refl, refl);
              pinned = refl;
              world = refl;
              reads = λ w w_page differs.
                  ground
                    (arith, third.1 w, second.1 w, first.1 w, is.reads w w_page, in_use, differs);
              is_valid = becomes.is_valid;
              bounded = becomes.same_bound ∙ is.bounded;
              held = λ j lt. becomes.reads j;
              spared = λ j lt. ground (arith, is.frames.spare j lt, in_use);
              recycled = is.frames.recycled;
              taken = is.frames.taken;
            })

    pub evict_frame : full c ≡ true → Ran (run ops map f ref_bits unset 3 x c)
    unfolding full full_pin
    evict_frame is_full =
        let (p0, inside0, held0) =
          some_evictable is.frames (ground (arith, is_full)) (ground (arith, is_full))
            (ground (arith, room)) in
        let ((p, prefetch, r), pops, says) = policy.pops c.replacement p0 is.is_valid held0 in
        let inside : p < c.max_ppage_id =
          omega (arith, is.bounded, policy.inside c.replacement p is.is_valid says.0) in
        evict_victim p prefetch r inside pops says.0 says.1 is_full

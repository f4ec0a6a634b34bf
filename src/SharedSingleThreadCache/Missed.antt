-- ===== src/SharedSingleThreadCache/Missed.antt =====
-- `pin` of include/shared_single_thread_cache.hpp on a page that is not mapped, where `evict_func` and
-- `load_func` are done at once.
use tri_cache.SharedSingleThreadCache.{
  Cache, Context, Functions, evicting, ended, initing, pin_call, alloc, full, full_pin,
}
use tri_cache.SharedSingleThreadCache.Process.{
  miss_phase, map_page, initing_phase, run, step, release_victim,
}
use tri_cache.SharedSingleThreadCache.Frames.{IsPage}
use tri_cache.SharedSingleThreadCache.Invariant.{IsCache, pages_of}
use tri_cache.SharedSingleThreadCache.Allocated.{Takes, alloc-Takes}
use tri_cache.SharedSingleThreadCache.Loaded.{Loads, loaded_pte, loads_lem, run-step}
use tri_cache.SharedSingleThreadCache.Assigned.{Missed, Gives, assigned-IsCache}
use tri_cache.Replacement.Policy.{Operations, IsPolicy}
use tri_cache.PageTable.Place.{Writes, At}
use tri_cache.PageTable.Effects.{create_mapping-Writes}
use tri_cache.PageTable.Mapping.{get_pte, find_hint, create_mapping}
use tri_cache.PageTable.Table.{Pte, Table}
use tri_cache.Base.{
  ==_refl, Bool, ℕ, ◌+ℤ◌, pos, ◌<◌, ◌≡◌, ◌∙◌, ap, sym, true, false, some, none, arith, refl, length,
  Option, Returns, inr,
}

module _ {E X S W : Type 0} (ops : Operations S) (f : Functions E X W) (valid : S → Type 0)
    (bound : S → ℕ) (holds : S → ℕ → Bool) (policy : IsPolicy ops valid bound holds)
    (evicts : (x : X) (v p : ℕ) (d : Bool) (s : E) (w : W) → (f.evict x v p d s w).0 ≡ true)
    (loads : (x : X) (v p : ℕ) (s : E) (w : W) → (f.load x v p s w).0 ≡ true) where
  pub no_victim :
      (y : Context E X) (d : Cache E S W)
      → y.pre_external_state ≡ none
      → release_victim ops f y d ≡ some d
  unfolding release_victim
  no_victim y d nothing = rw nothing refl

  pub maps_lem :
      (y : Context E X) (d : Cache E S W) (t : Table) {h : Option ℕ}
      → y.hint ≡ h
      → create_mapping d.page_table y.vpage_id y.ppage_id 1 h ≡ some (true, t)
      → map_page ops f y d ≡ some (record d { page_table = t })
  unfolding map_page
  maps_lem y d t hinted creates = rw (hinted, creates) refl

  module _ {c : Cache E S W} {view : ℕ → Pte} (is : IsCache ops f valid bound holds c view)
      (x : Context E X) (h : ℕ) (page : IsPage x.vpage_id)
      (found : find_hint c.page_table x.vpage_id ≡ some h) (gone : (view x.vpage_id).exist ≡ false)
      (hinted : x.hint ≡ some h) where
    abbrev pub v : ℕ
    v = x.vpage_id

    abbrev pub counted : Cache E S W
    counted = record c { pinned_size = c.pinned_size +ℤ pos 1 }

    pub missed :
        {p : ℕ} {d e : Cache E S W}
        → Gives ops f valid bound holds c view v p d
        → Loads ops f d v p e
        → Missed ops f valid bound holds c view v p e
    missed gives l = record {
      inside = gives.inside;
      idle = gives.idle;
      loaded = rw (← gives.world) l.loaded;
      others = λ j other. rw (← gives.states) (l.others j other);
      same_max = l.rest.4 ∙ gives.same_max;
      is_cache = assigned-IsCache ops f valid bound holds is page gone gives l;
    }

    -- What the loop returns.
    abbrev pub Ran : Option (Context E X × Cache E S W) → Type 0
    Ran o = Returns o (λ a.
        (a.0.phase ≡ ended)
        × Missed ops f valid bound holds c view v a.0.ppage_id a.1
        × (a.0.external_state ≡ some a.0.ppage_id))

    pub absent_At : At c.page_table v h (some h)
    absent_At = record { table = is.table; real = omega arith; found = found; hinted = inr refl }

    -- From the end of the first phase on.
    pub goes_on :
        (y : Context E X) (d0 d : Cache E S W)
        → step ops f x c ≡ some (true, y, d0)
        → y.vpage_id ≡ v
        → y.hint ≡ some h
        → y.phase ≡ evicting
        → y.processing ≡ false
        → release_victim ops f y d0 ≡ some d
        → At d.page_table v h (some h)
        → get_pte d.page_table v none ≡ some (record (loaded_pte y.ppage_id) { busy = true })
        → Gives ops f valid bound holds c view v y.ppage_id d
        → Ran (run ops f 3 x c)
    goes_on y d0 d steps for_v of_h phase idle released at read gives =
        let inside : y.ppage_id < length d.states = rw (gives.states, is.sized) gives.inside in
        let (r, runs, ends) =
          loads_lem ops f y d0 d h loads phase idle released (rw for_v at) of_h inside
            (rw for_v read) in
        let l : Loads ops f d v y.ppage_id r.1 = rw (← for_v) ends.2 in
        (
          r,
          run-step ops f 2 x y c d0 steps ∙ runs,
          (ends.0, rw ends.1 (missed gives l), ends.3 ∙ ap some (sym ends.1)),
        )

    module _ (start : x.phase ≡ initing) (kind : x.kind ≡ pin_call) (entry : x.pte.exist ≡ false)
        (room : full_pin c ≡ false) where
      pub starts_miss : step ops f x c ≡ miss_phase ops f x c
      unfolding step initing_phase
      starts_miss = ground (arith, start, kind, entry)

      -- The cache where a free frame is taken and mapped.
      abbrev spare_cache : Cache E S W → Table → Cache E S W
      spare_cache a t = record counted {
        cur_id = a.cur_id;
        recycle_pool = a.recycle_pool;
        page_table = t;
      }

      spare-Gives :
          (p : ℕ) (a : Cache E S W) (t : Table)
          → Takes counted (pages_of ops f valid bound holds c) p a
          → Writes c.page_table v (record (loaded_pte p) { busy = true }) t
          → Gives ops f valid bound holds c view v p (spare_cache a t)
      spare-Gives p a t takes writes = record {
        inside = takes.inside;
        idle = λ e. ground (arith, takes.was_free);
        same_max = refl;
        pinned = refl;
        states = refl;
        world = rw takes.was_free refl;
        reads = λ w w_page other. ground (arith, writes.reads w, is.reads w w_page, takes.was_free);
        is_valid = is.is_valid;
        bounded = is.bounded;
        held = λ j lt. ground (arith, is.frames.evictable j lt, takes.was_free);
        spared = takes.spared;
        recycled = takes.recycled;
        taken = takes.taken;
      }

      spare_steps :
          (p : ℕ) (a : Cache E S W) (t : Table)
          → full c ≡ false
          → alloc counted ≡ some (p, a)
          → a ≡ spare_cache a c.page_table
          → create_mapping c.page_table v p 1 (some h) ≡ some (true, t)
          → step ops f x c
            ≡ some (
              true,
              record x { ppage_id = p; phase = evicting; processing = false },
              spare_cache a t,
            )
      unfolding miss_phase full
      spare_steps p a t some_free allocs same creates =
          let taken : alloc counted ≡ some (p, spare_cache a c.page_table) =
            allocs ∙ ap (λ (z : Cache E S W). some (p, z)) same in
          let maps =
            maps_lem (record x { ppage_id = p }) (spare_cache a c.page_table) t hinted creates in
          starts_miss ∙ rw (room, some_free, taken, maps) refl

      pub spare_frame : x.pre_external_state ≡ none → full c ≡ false → Ran (run ops f 3 x c)
      unfolding full
      spare_frame nothing some_free =
          let ((p, a), allocs, takes) = alloc-Takes counted is.frames some_free in
          let (b, creates, says) =
            create_mapping-Writes absent_At p 1 (ground (arith, takes.inside, is.small))
              (is.reads v page) gone (is.frames.unlocked v page) in
          let y = record x { ppage_id = p; phase = evicting; processing = false } in
          let d = spare_cache a b.1 in
          let created : create_mapping c.page_table v p 1 (some h) ≡ some (true, b.1) =
            ground (arith, creates, says.0) in
          goes_on y d d (spare_steps p a b.1 some_free allocs takes.same created) refl hinted refl
            refl (no_victim y d nothing)
            (record {
              table = says.1.shape;
              real = omega arith;
              found = says.1.hints v ∙ found;
              hinted = inr refl;
            })
            (says.1.reads v ∙ rw (==_refl v) refl) (spare-Gives p a b.1 takes says.1)

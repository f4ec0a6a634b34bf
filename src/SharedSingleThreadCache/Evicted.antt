-- ===== src/SharedSingleThreadCache/Evicted.antt =====
-- `pin` of include/shared_single_thread_cache.hpp on a page that is not mapped, where all frames hold
-- pages: the page that is evicted.
use tri_cache.SharedSingleThreadCache.{
  Cache, Context, Functions, evicting, initing, pin_call, full, full_pin,
}
use tri_cache.SharedSingleThreadCache.Process.{
  state_at, miss_phase, run, step, release_victim, take_victim, call_evict,
}
use tri_cache.SharedSingleThreadCache.Frames.{used, IsPage}
use tri_cache.SharedSingleThreadCache.Invariant.{IsCache, pages_of}
use tri_cache.SharedSingleThreadCache.Loaded.{loaded_pte}
use tri_cache.SharedSingleThreadCache.Assigned.{Gives, evicted_world}
use tri_cache.SharedSingleThreadCache.Missed.{goes_on, starts_miss, maps_lem, Ran}
use tri_cache.Replacement.Policy.{Operations, IsPolicy, Becomes}
use tri_cache.PageTable.Place.{Writes, At}
use tri_cache.PageTable.Release.{Frees, release_mapping_lock-Frees}
use tri_cache.PageTable.Entry.{get_pte-hint, line_of_mapped}
use tri_cache.PageTable.Effects.{create_mapping-Writes, delete_mapping-Writes}
use tri_cache.PageTable.Mapping.{
  get_pte, find_hint, create_mapping, delete_mapping, release_mapping_lock,
}
use tri_cache.PageTable.Table.{Pte, Table, empty_pte}
use tri_cache.Base.{
  flag_set, ◌⊎◌, ◌||◌, ℕ, suc, ◌+ℤ◌, pos, ◌==◌, ◌<◌, ◌≡◌, ◌≢◌, ◌∙◌, if◌then◌else◌, Bool, true,
  false, not, some, none, arith, refl, Option, inr,
}

module _ {E X S W : Type 0} (ops : Operations S) (f : Functions E X W) (valid : S → Type 0)
    (bound : S → ℕ) (holds : S → ℕ → Bool) (policy : IsPolicy ops valid bound holds)
    (evicts : (x : X) (v p : ℕ) (d : Bool) (s : E) (w : W) → (f.evict x v p d s w).0 ≡ true)
    (loads : (x : X) (v p : ℕ) (s : E) (w : W) → (f.load x v p s w).0 ≡ true) where
  none_or_some :
      (b : Bool) (q : ℕ)
      → ((if b then none else some q) ≡ none) ⊎ ((if b then none else some q) ≡ some q)
  none_or_some b q = ground arith

  module _ {c : Cache E S W} {view : ℕ → Pte} (is : IsCache ops f valid bound holds c view)
      (x : Context E X) (h : ℕ) (page : IsPage x.vpage_id)
      (found : find_hint c.page_table x.vpage_id ≡ some h) (gone : (view x.vpage_id).exist ≡ false)
      (hinted : x.hint ≡ some h) where
    -- A frame whose page has no reference, with the line of the page.
    module _ (p prefetch q : ℕ) (r : S) (inside : p < c.max_ppage_id)
        (pops : ops.pop c.replacement ≡ some (p, prefetch, r)) (held : holds c.replacement p ≡ true)
        (becomes : Becomes ops valid bound holds c.replacement
          (λ j. if p == j then false else holds c.replacement j)
          r)
        (lined : find_hint c.page_table (pages_of ops f valid bound holds c p) ≡ some q) where
      abbrev u : ℕ
      u = pages_of ops f valid bound holds c p

      owned : IsPage u × ((view u).exist ≡ true) × ((view u).ppage_id ≡ p)
      owned = is.frames.owner p inside (ground (arith, is.frames.evictable p inside))

      victim_At : At c.page_table u q (some q)
      victim_At = record {
        table = is.table;
        real = omega (arith, owned.0);
        found = lined;
        hinted = inr refl;
      }

      -- The context once the page is chosen.
      abbrev chosen_victim : Context E X
      chosen_victim = record x {
        ppage_id = p;
        prefetch_ppage_id = prefetch;
        pre_vpage_id = u;
        pre_hint = some q;
        pre_external_state = some (state_at ops f c p).external;
        dirty = (view u).dirty;
      }

      abbrev victim_cache : Table → Cache E S W
      victim_cache t = record c {
        pinned_size = c.pinned_size +ℤ pos 1;
        replacement = r;
        page_table = t;
      }

      idle : (not ((view u).ref_count == 0) || (view u).busy) ≡ false
      idle = ground (arith, is.frames.evictable p inside, is.frames.unlocked u owned.0)

      takes_victim :
          (n : ℕ) (t : Table)
          → delete_mapping c.page_table u (some q) ≡ some (true, t)
          → take_victim ops f (suc n) x (record c { pinned_size = c.pinned_size +ℤ pos 1 })
            ≡ some (chosen_victim, victim_cache t)
      unfolding take_victim
      takes_victim n t deletes =
          let read : get_pte c.page_table u (some q) ≡ some (view u) =
            get_pte-hint victim_At ∙ is.reads u owned.0 in
          ground (arith, pops, lined, read, idle, deletes)

      -- The cache once the victim's frame is the new page's, and the eviction done.
      abbrev evicted_cache : Table → Cache E S W
      evicted_cache t = record (victim_cache t) {
        world = evicted_world ops f valid bound holds c view p;
      }

      abbrev evicting_context : Context E X
      evicting_context = record chosen_victim {
        phase = evicting;
        processing = false;
        external_context =
            (f.evict f.default_context u p (view u).dirty (state_at ops f c p).external c.world).1;
      }

      evict_steps :
          (t t' : Table)
          → x.phase ≡ initing
          → x.kind ≡ pin_call
          → x.pte.exist ≡ false
          → full_pin c ≡ false
          → full c ≡ true
          → delete_mapping c.page_table u (some q) ≡ some (true, t)
          → create_mapping t x.vpage_id p 1 (some h) ≡ some (true, t')
          → step ops f x c ≡ some (true, evicting_context, evicted_cache t')
      unfolding miss_phase call_evict full
      evict_steps t t' start kind entry room is_full deletes creates =
          let takes = takes_victim c.max_ppage_id t deletes in
          let maps =
            maps_lem ops f valid bound holds policy evicts loads chosen_victim (victim_cache t) t'
              hinted creates in
          let starts =
            starts_miss ops f valid bound holds policy evicts loads is x h page found gone hinted
              start kind entry room in
          let in_use : used (pages_of ops f valid bound holds c) p ≡ true =
            ground (arith, is.frames.evictable p inside) in
          let done =
            evicts f.default_context u p (view u).dirty (state_at ops f c p).external c.world in
          starts ∙ rw (room, is_full, takes, maps, done, in_use) refl

      other : u ≢ x.vpage_id
      other = λ e. ground (arith, owned, gone, e)

      -- Once the victim's lock is released.
      victim-Gives :
          (t t' t'' : Table) (o : Option ℕ)
          → Writes c.page_table u (record empty_pte { busy = true }) t
          → Writes t x.vpage_id (record (loaded_pte p) { busy = true }) t'
          → Frees t' u empty_pte o t''
          → Gives ops f valid bound holds c view x.vpage_id p (evicted_cache t'')
      victim-Gives t t' t'' o deletes creates frees =
          let in_use : used (pages_of ops f valid bound holds c) p ≡ true =
            ground (arith, is.frames.evictable p inside) in
          record {
            inside = inside;
            idle = λ _. ground (arith, is.frames.evictable p inside);
            same_max = refl;
            pinned = refl;
            states = refl;
            world = refl;
            reads = λ w w_page differs.
                ground (
                  arith,
                  frees.reads w,
                  creates.reads w,
                  deletes.reads w,
                  is.reads w w_page,
                  in_use,
                );
            is_valid = becomes.is_valid;
            bounded = becomes.same_bound ∙ is.bounded;
            held = λ j lt. becomes.reads j;
            spared = λ j lt. ground (arith, is.frames.spare j lt, in_use);
            recycled = is.frames.recycled;
            taken = is.frames.taken;
          }

      -- The new page has its line still.
      keeps_line :
          (t' t'' : Table) (o : Option ℕ) {e : Pte}
          → Frees t' u empty_pte o t''
          → ((o ≡ none) ⊎ (o ≡ some q))
          → find_hint t' u ≡ some q
          → find_hint t' x.vpage_id ≡ some h
          → get_pte t'' x.vpage_id none ≡ some e
          → e.exist ≡ true
          → find_hint t'' x.vpage_id ≡ some h
      unfolding find_hint
      keeps_line t' t'' o frees is_line u_lined lined read here =
          let (z, at_z) = line_of_mapped frees.shape x.vpage_id read here in
          ground (arith, frees.hints x.vpage_id, at_z, is_line, u_lined, lined)

      loading_there :
          (t t' t'' : Table) (o : Option ℕ)
          → Writes t x.vpage_id (record (loaded_pte p) { busy = true }) t'
          → Frees t' u empty_pte o t''
          → get_pte t'' x.vpage_id none ≡ some (record (loaded_pte p) { busy = true })
      loading_there t t' t'' o creates frees =
          ground (arith, frees.reads x.vpage_id, creates.reads x.vpage_id, page, other)

      locked_there :
          (t t' : Table)
          → Writes c.page_table u (record empty_pte { busy = true }) t
          → Writes t x.vpage_id (record (loaded_pte p) { busy = true }) t'
          → get_pte t' u none ≡ some (record empty_pte { busy = true })
      locked_there t t' deletes creates = ground (arith, creates.reads u, deletes.reads u, other)

      releases :
          (t' t'' : Table)
          → release_mapping_lock t' u (some q) ≡ some (true, t'')
          → release_victim ops f evicting_context (evicted_cache t') ≡ some (evicted_cache t'')
      unfolding release_victim
      releases t' t'' e = rw e refl

      pub evict_frame :
          x.phase ≡ initing
          → x.kind ≡ pin_call
          → x.pte.exist ≡ false
          → full_pin c ≡ false
          → full c ≡ true
          → Ran ops f valid bound holds policy evicts loads is x h page found gone hinted
              (run ops f 3 x c)
      evict_frame start kind entry room is_full =
          let (a, deletes, first) =
            (delete_mapping-Writes victim_At (is.reads u owned.0) owned.1).0
              (is.frames.unlocked u owned.0) (ground (arith, is.frames.evictable p inside)) in
          let at : At a.1 x.vpage_id h (some h) = record {
            table = first.1.shape;
            real = omega (arith, page);
            found = first.1.hints x.vpage_id ∙ found;
            hinted = inr refl;
          } in
          let absent_there : get_pte a.1 x.vpage_id none ≡ some (view x.vpage_id) =
            ground (arith, first.1.reads x.vpage_id, is.reads x.vpage_id page, other) in
          let (b, creates, second) =
            create_mapping-Writes at p 1 (ground (arith, inside, is.small)) absent_there gone
              (is.frames.unlocked x.vpage_id page) in
          let at_u : At b.1 u q (some q) = record {
            table = second.1.shape;
            real = omega (arith, owned.0);
            found = second.1.hints u ∙ first.1.hints u ∙ lined;
            hinted = inr refl;
          } in
          let locked = locked_there a.1 b.1 first.1 second.1 in
          let (d, frees, third) = release_mapping_lock-Frees at_u locked in
          let loading_page = loading_there a.1 b.1 d.1 _ second.1 third.1 in
          let stays : find_hint d.1 x.vpage_id ≡ some h =
            keeps_line b.1 d.1 _ third.1 (none_or_some _ q) at_u.found
              (second.1.hints x.vpage_id ∙ at.found) loading_page refl in
          let deleted : delete_mapping c.page_table u (some q) ≡ some (true, a.1) =
            flag_set deletes first.0 in
          let created : create_mapping a.1 x.vpage_id p 1 (some h) ≡ some (true, b.1) =
            flag_set creates second.0 in
          goes_on ops f valid bound holds policy evicts loads is x h page found gone hinted
            evicting_context (evicted_cache b.1) (evicted_cache d.1)
            (evict_steps a.1 b.1 start kind entry room is_full deleted created) refl hinted refl
            refl (releases b.1 d.1 (flag_set frees third.0))
            (record {
              table = third.1.shape;
              real = omega (arith, page);
              found = stays;
              hinted = inr refl;
            })
            loading_page (victim-Gives a.1 b.1 d.1 _ first.1 second.1 third.1)

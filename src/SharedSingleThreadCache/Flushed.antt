-- ===== src/SharedSingleThreadCache/Flushed.antt =====
-- `flush` of include/shared_single_thread_cache.hpp, where `evict_func` is done at once and no page is
-- pinned.
use tri_cache.SharedSingleThreadCache.{Cache, Context, Functions, empty_vpage_id}
use tri_cache.SharedSingleThreadCache.Process.{state_at, call_evict}
use tri_cache.SharedSingleThreadCache.Flush.{
  flush, start_evictions, evict_again, wait, drain, free_frames,
}
use tri_cache.SharedSingleThreadCache.Frames.{used, IsPage, pinned_frame}
use tri_cache.SharedSingleThreadCache.Invariant.{IsCache, pages_of}
use tri_cache.SharedSingleThreadCache.Freed.{Evictions, Emptied, frees_frames}
use tri_cache.SharedSingleThreadCache.Drained.{drain-Drains}
use tri_cache.Replacement.Policy.{Operations, IsPolicy}
use tri_cache.PageTable.Table.{Pte, empty_pte}
use tri_cache.Base.{
  ◌||◌, ltb, ℕ, suc, zero, ◌+◌, ◌<◌, ◌≡◌, ◌==◌, ◌∙◌, sym, ap, if◌then◌else◌, Bool, true, false, not,
  some, List, [], ◌∷◌, Returns, arith, refl, inl, inr, Bool-cases, number-congr,
}

module _ {E X S W : Type 0} (ops : Operations S) (f : Functions E X W) where
  -- The world once the pages of the `n` frames from frame `i` on are passed to `evict_func`, each once,
  -- in the order of the frames.
  unfoldable pub written_back : Cache E S W → (ℕ → Pte) → ℕ → ℕ → W → W
  written_back c view zero i w = w
  written_back c view (suc n) i w =
      let s = state_at ops f c i in
      written_back c view n (i + 1) (
        if s.vpage_id == empty_vpage_id
        then w
        else (f.evict f.default_context s.vpage_id i (view s.vpage_id).dirty s.external w).2)

module _ {E X S W : Type 0} (ops : Operations S) (f : Functions E X W) (valid : S → Type 0)
    (bound : S → ℕ) (holds : S → ℕ → Bool) (policy : IsPolicy ops valid bound holds)
    (evicts : (x : X) (v p : ℕ) (d : Bool) (s : E) (w : W) → (f.evict x v p d s w).0 ≡ true) where
  module _ {c : Cache E S W} {view : ℕ → Pte} (is : IsCache ops f valid bound holds c view)
      (idle : (j : ℕ)
        → j < c.max_ppage_id
        → used (pages_of ops f valid bound holds c) j ≡ true
        → (view (state_at ops f c j).vpage_id).ref_count ≡ 0) where
    called_frame :
        (i : ℕ) (x : Context E X) (w : W)
        → (let s = state_at ops f c i in
            let called =
              f.evict f.default_context s.vpage_id i (view s.vpage_id).dirty s.external w in
            let y = record x {
              ppage_id = i;
              pre_vpage_id = s.vpage_id;
              pre_external_state = some s.external;
              dirty = (view s.vpage_id).dirty;
              external_context = f.default_context;
            } in
            call_evict ops f y (record c { world = w })
            ≡ some (
              true,
              record y { processing = false; external_context = called.1 },
              record c { world = called.2 },
            ))
    unfolding call_evict
    called_frame i x w =
        let s = state_at ops f c i in
        rw (evicts f.default_context s.vpage_id i (view s.vpage_id).dirty s.external w) refl

    starts :
        (n i : ℕ) (x : Context E X) (w : W)
        → n + i ≡ c.max_ppage_id
        → Returns (start_evictions ops f n i x (record c { world = w })) (λ a.
          Evictions ops f valid bound (pages_of ops f valid bound holds c) n i a.0
          × (a.1 ≡ record c { world = written_back ops f c view n i w }))
    unfolding start_evictions Evictions written_back
    starts zero i x w all = (([], record c { world = w }), refl, (refl, refl))
    starts (suc n) i x w all =
        let s = state_at ops f c i in
        elim (Bool-cases (s.vpage_id == empty_vpage_id)) [
          | inl unused ↦
              let (a, runs, says) = starts n (i + 1) x w (omega (arith, all)) in
              (
                a,
                rw (start_evictions, unused) runs,
                (inl (rw unused refl, says.0), rw unused says.1),
              )
          | inr in_use ↦
              let called =
                f.evict f.default_context s.vpage_id i (view s.vpage_id).dirty s.external w in
              let (a, runs, says) = starts n (i + 1) x called.2 (omega (arith, all)) in
              let inside : i < c.max_ppage_id = omega (arith, all) in
              let owned = is.frames.owner i inside (rw in_use refl) in
              let y = record x {
                ppage_id = i;
                pre_vpage_id = s.vpage_id;
                pre_external_state = some s.external;
                dirty = (view s.vpage_id).dirty;
                external_context = called.1;
                processing = false;
              } in
              (
                (y ∷ a.0, a.1),
                rw (start_evictions, in_use, is.reads s.vpage_id owned.0) rw
                    (idle i inside (rw in_use refl), called_frame i x w) rw runs refl,
                (inr (rw in_use refl, y, a.0, refl, refl, refl, refl, says.0), rw in_use says.1),
              )
        ]

  -- No context waits: the third loop ends at once.
  ready :
      (vp : ℕ → ℕ) (n i k m : ℕ) (xs : List (Context E X)) (c : Cache E S W)
      → Evictions ops f valid bound vp n i xs
      → evict_again ops f 0 k m xs c ≡ some (m, xs, c)
  unfolding Evictions evict_again
  ready vp zero i k m xs c es = rw es refl
  ready vp (suc n) i k m xs c es = elim es [
    | inl (_, more) ↦ ready vp n (i + 1) k m xs c more
    | inr (_, x, ys, e, _, _, done, more) ↦
        let rest = ready vp n (i + 1) (k + 1) m ys c more in
        let skips : (ltb k 0 || not x.processing) ≡ true = ground (arith, done) in
        rw e rw (evict_again, skips, rest) refl
  ]

  waits_not :
      (vp : ℕ → ℕ) (n i k : ℕ) (xs : List (Context E X)) (c : Cache E S W)
      → Evictions ops f valid bound vp n i xs
      → wait ops f (suc k) 0 xs c ≡ some (xs, c)
  unfolding wait
  waits_not vp n i k xs c es = ground (arith, ready vp n i 0 c.max_ppage_id xs c es)

  -- All frames are free, and the policy is empty.
  module _ {c e : Cache E S W} {h : ℕ → Bool} (s : Emptied ops f valid bound c e h)
      (empty : (j : ℕ) → j < c.max_ppage_id → holds e.replacement j ≡ false) where
    no_frames : (j : ℕ) → j < e.max_ppage_id → used (pages_of ops f valid bound holds e) j ≡ false
    no_frames j lt = s.unused j (omega (arith, lt, s.rest.2))

    gone : (v : ℕ) → IsPage v → s.view v ≡ empty_pte
    gone v page = elim (Bool-cases (s.view v).exist) [
      | inr absent ↦ s.is_cache.frames.absent v page absent
      | inl here ↦
          let mine = s.is_cache.frames.mapped v page here in
          absurd (ground (arith, mine, no_frames (s.view v).ppage_id mine.0, page))
    ]

    emptied-IsCache : IsCache ops f valid bound holds e (λ _. empty_pte)
    emptied-IsCache =
        let vp = pages_of ops f valid bound holds e in
        record {
          table = s.is_cache.table;
          reads = λ w page. s.is_cache.reads w page ∙ ap some (gone w page);
          sized = s.is_cache.sized;
          small = s.is_cache.small;
          is_valid = s.is_cache.is_valid;
          bounded = s.is_cache.bounded;
          pinned = s.is_cache.pinned;
          pinned_pos = s.is_cache.pinned_pos;
          frames = record {
            real = s.is_cache.frames.real;
            mapped = λ v page here. absurd cc;
            absent = λ v page here. refl;
            unlocked = λ v page. refl;
            counted = λ v page. omega arith;
            owner = λ j lt in_use. absurd (ground (arith, no_frames j lt, in_use));
            evictable =
                λ j lt. ground (arith, no_frames j lt, empty j (omega (arith, lt, s.rest.2)));
            spare = s.is_cache.frames.spare;
            recycled = s.is_cache.frames.recycled;
            taken = s.is_cache.frames.taken;
            tallied =
                s.is_cache.frames.tallied
                ∙ sym (
                    number-congr (pinned_frame vp s.view) (pinned_frame vp (λ _. empty_pte))
                      e.max_ppage_id (λ j lt. ground (arith, no_frames j lt)));
          };
        }

  flush_runs :
      (rounds : ℕ) (x : Context E X) (c : Cache E S W) (a : List (Context E X) × Cache E S W)
      (w : W) (r : S) (e : Cache E S W)
      → start_evictions ops f c.max_ppage_id 0 x c ≡ some a
      → a.1 ≡ record c { world = w }
      → drain ops f (suc (ops.size c.replacement)) c.replacement ≡ some r
      → wait ops f (suc rounds) 0 a.0 (record c { world = w; replacement = r })
        ≡ some (a.0, record c { world = w; replacement = r })
      → free_frames ops f a.0 (record c { world = w; replacement = r }) ≡ some e
      → flush ops f (suc rounds) x c ≡ some e
  unfolding flush
  flush_runs rounds x c a w r e begins same drains waits frees =
      ground (arith, begins, same, drains, waits, frees)

  -- `flush` of a cache in good shape in which no page has a reference, where `evict_func` is done
  -- at once, returns, on any fuel from 1: every mapped page was passed to `evict_func` once, in the
  -- order of the frames, with its external state and dirty if its entry says so; no page is mapped,
  -- every frame is free, and the cache is in good shape.
  pub flush_lem :
      (c : Cache E S W) (view : ℕ → Pte) (x : Context E X) (rounds : ℕ)
      → IsCache ops f valid bound holds c view
      → ((j : ℕ)
          → j < c.max_ppage_id
          → used (pages_of ops f valid bound holds c) j ≡ true
          → (view (state_at ops f c j).vpage_id).ref_count ≡ 0)
      → Returns (flush ops f (suc rounds) x c) (λ e.
        IsCache ops f valid bound holds e (λ _. empty_pte)
        × ((j : ℕ) → j < c.max_ppage_id → used (pages_of ops f valid bound holds e) j ≡ false)
        × (e.world ≡ written_back ops f c view c.max_ppage_id 0 c.world))
  flush_lem c view x rounds is idle =
      let vp = pages_of ops f valid bound holds c in
      let w = written_back ops f c view c.max_ppage_id 0 c.world in
      let (a, begins, says) = starts is idle c.max_ppage_id 0 x c.world (omega arith) in
      let (r, drains, drained) =
        drain-Drains ops f valid bound holds policy (suc (ops.size c.replacement)) c.replacement
          is.is_valid (omega arith) in
      let d : Cache E S W = record c { world = w; replacement = r } in
      let held_before : IsCache ops f valid bound (λ _. holds c.replacement) d view = record {
        table = is.table;
        reads = is.reads;
        sized = is.sized;
        small = is.small;
        is_valid = drained.is_valid;
        bounded = drained.same_bound ∙ is.bounded;
        pinned = is.pinned;
        pinned_pos = is.pinned_pos;
        frames = is.frames;
      } in
      let (e, frees, emptied) =
        frees_frames ops f valid bound c.max_ppage_id 0 vp a.0 d view (holds c.replacement)
          held_before (omega arith) says.0 (λ j ge lt. refl) (λ j lt. absurd (omega (arith, lt)))
          idle in
      (
        e,
        flush_runs rounds x c a w r e begins says.1 drains
            (waits_not vp c.max_ppage_id 0 rounds a.0 d says.0) frees,
        (
          emptied-IsCache emptied.1
              (λ j lt. rw emptied.1.rest.0 (drained.empty j (omega (arith, lt, is.bounded)))),
          emptied.1.unused,
          emptied.1.rest.1,
        ),
      )

-- ===== src/SharedSingleThreadCache/Frames.antt =====
-- The frames of include/shared_single_thread_cache.hpp between two calls: which page each frame holds,
-- which frames are free, which can be evicted, and how many are pinned.
use tri_cache.SharedSingleThreadCache.{empty_vpage_id}
use tri_cache.PageTable.Table.{Pte, tag_of, empty_tag, empty_pte}
use tri_cache.PageTable.Chain.{occ}
use tri_cache.Base.{
  ◌≢◌, ℕ, ◌+◌, ◌==◌, ◌≤◌, ◌<◌, ◌≡◌, if◌then◌else◌, ltb, leb, Bool, true, false, not, ◌&&◌, List, [],
  ◌∷◌, arith, number, number-update, number_missing,
}

-- The page's tag fits 58 bits and is not the empty one.
abbrev pub IsPage : ℕ → Type 0
IsPage v = tag_of v < empty_tag

-- A frame holds a page.
abbrev pub used : (ℕ → ℕ) → ℕ → Bool
used vp p = not (vp p == empty_vpage_id)

abbrev pub pinned_frame : (ℕ → ℕ) → (ℕ → Pte) → ℕ → Bool
pinned_frame vp view p = used vp p && ltb 0 (view (vp p)).ref_count

-- `vp` is the page of each frame, `view` the entry of each page, `held` the frames that the policy
-- holds. `InTable` says which pages are meant, and a counter is below `limit`.
pub record Frames (InTable : ℕ → Type 0) (limit max cur : ℕ) (recycle : List ℕ) (vp : ℕ → ℕ)
    (view : ℕ → Pte) (held : ℕ → Bool) (pinned : ℕ) : Type 0 where
  pub real : (v : ℕ) → InTable v → v ≢ empty_vpage_id
  pub mapped :
      (v : ℕ)
      → InTable v
      → (view v).exist ≡ true
      → ((view v).ppage_id < max) × (vp (view v).ppage_id ≡ v)
  pub absent : (v : ℕ) → InTable v → (view v).exist ≡ false → view v ≡ empty_pte
  pub unlocked : (v : ℕ) → InTable v → (view v).busy ≡ false
  pub counted : (v : ℕ) → InTable v → (view v).ref_count < limit
  pub owner :
      (p : ℕ)
      → p < max
      → used vp p ≡ true
      → InTable (vp p) × ((view (vp p)).exist ≡ true) × ((view (vp p)).ppage_id ≡ p)
  pub evictable : (p : ℕ) → p < max → held p ≡ (used vp p && (view (vp p)).ref_count == 0)
  pub spare :
      (p : ℕ)
      → p < max
      → occ p recycle + (if leb cur p then 1 else 0) ≡ (if used vp p then 0 else 1)
  pub recycled : (p : ℕ) → max ≤ p → occ p recycle ≡ 0
  pub taken : cur ≤ max
  pub tallied : pinned ≡ number (pinned_frame vp view) max

module _ {InTable : ℕ → Type 0} {limit max cur : ℕ} {recycle : List ℕ} {vp : ℕ → ℕ} {view : ℕ → Pte}
    {held : ℕ → Bool} {pinned : ℕ}
    (s : Frames InTable limit max cur recycle vp view held pinned) where
  -- The entry of a mapped page is written again: references come or go.
  pub recount-Frames :
      (v : ℕ) (e : Pte) (held' : ℕ → Bool) (pinned' : ℕ)
      → InTable v
      → (view v).exist ≡ true
      → e.exist ≡ true
      → e.busy ≡ false
      → e.ppage_id ≡ (view v).ppage_id
      → e.ref_count < limit
      → ((p : ℕ)
          → p < max
          → held' p ≡ (if (view v).ppage_id == p then e.ref_count == 0 else held p))
      → pinned' + (if ltb 0 (view v).ref_count then 1 else 0)
        ≡ pinned + (if ltb 0 e.ref_count then 1 else 0)
      → Frames InTable limit max cur recycle vp (λ w. if w == v then e else view w) held' pinned'
  recount-Frames v e held' pinned' page here exists free frame small holds sum =
      let at_v = s.mapped v page here in
      let new = λ (w : ℕ). if w == v then e else view w in
      let changed =
        number-update (pinned_frame vp view) (pinned_frame vp new) max (view v).ppage_id at_v.0
          (λ i lt d. ground (arith, s.owner i lt)) in
      record {
        real = s.real;
        mapped = λ w w_page h. ground (arith, s.real w w_page, s.mapped w w_page, at_v);
        absent = λ w w_page h. ground (arith, s.absent w w_page);
        unlocked = λ w w_page. ground (arith, s.unlocked w w_page);
        counted = λ w w_page. ground (arith, s.counted w w_page);
        owner = λ p lt h. ground (arith, s.real v page, s.owner p lt, at_v);
        evictable =
            λ p lt. ground (arith, s.real v page, s.evictable p lt, holds p lt, s.owner p lt, at_v);
        spare = s.spare;
        recycled = s.recycled;
        taken = s.taken;
        tallied = ground (arith, s.real v page, changed, s.tallied, at_v);
      }

  -- Some frame can be evicted, where all are in use and one is not pinned.
  pub some_evictable :
      (max ≤ cur) → (recycle ≡ []) → pinned < max → (p : ℕ) × (p < max) × (held p ≡ true)
  unfolding occ
  some_evictable all none_free few =
      let (p, lt, z) = number_missing (pinned_frame vp view) max (ground (arith, s.tallied)) in
      (p, lt, ground (arith, s.evictable p lt, s.spare p lt))

  -- A frame takes a page that was absent, with one reference; a page without references that it held
  -- becomes absent.
  pub assign-Frames :
      (p v : ℕ) (e : Pte) (cur' : ℕ) (recycle' : List ℕ) (vp' : ℕ → ℕ) (held' : ℕ → Bool)
      → p < max
      → InTable v
      → (view v).exist ≡ false
      → e ≡ record { exist = true; busy = false; dirty = false; ref_count = 1; ppage_id = p }
      → (used vp p ≡ true → (view (vp p)).ref_count ≡ 0)
      → ((x : ℕ) → vp' x ≡ (if p == x then v else vp x))
      → ((x : ℕ) → x < max → held' x ≡ (if p == x then false else held x))
      → ((x : ℕ)
          → x < max
          → occ x recycle' + (if leb cur' x then 1 else 0)
            ≡ (if p == x then 0 else if used vp x then 0 else 1))
      → ((x : ℕ) → max ≤ x → occ x recycle' ≡ 0)
      → cur' ≤ max
      → 1 < limit
      → Frames InTable limit max cur' recycle' vp'
          (λ w. if w == v then e else if used vp p && vp p == w then empty_pte else view w)
          held'
          (pinned + 1)
  assign-Frames p v e cur' recycle' vp' held' lt page gone is idle now holds spared recycled' taken'
        small =
      let new =
        λ (w : ℕ). if w == v then e else if used vp p && vp p == w then empty_pte else view w in
      let changed =
        number-update (pinned_frame vp view) (pinned_frame vp' new) max p lt
          (λ i l d. ground (arith, now i, s.owner i l, s.owner p lt)) in
      record {
        real = s.real;
        mapped = λ w w_page h.
            ground
              (arith, s.real w w_page, is, now p, now (view w).ppage_id, s.mapped w w_page, lt);
        absent = λ w w_page h. ground (arith, is, s.absent w w_page);
        unlocked = λ w w_page. ground (arith, is, s.unlocked w w_page);
        counted = λ w w_page. ground (arith, is, small, s.counted w w_page);
        owner = λ x l h. ground (arith, s.real v page, is, now x, s.owner x l, s.owner p lt);
        evictable = λ x l. ground (
          arith,
          s.real v page,
          is,
          now x,
          s.evictable x l,
          holds x l,
          s.owner x l,
          s.owner p lt,
        );
        spare = λ x l. ground (arith, s.real v page, now x, spared x l);
        recycled = recycled';
        taken = taken';
        tallied = ground (arith, s.real v page, is, now p, changed, s.tallied, idle);
      }

  -- A frame whose page has no reference becomes free, and the page absent.
  pub free-Frames :
      (p : ℕ) (vp' : ℕ → ℕ) (held' : ℕ → Bool)
      → p < max
      → used vp p ≡ true
      → (view (vp p)).ref_count ≡ 0
      → ((x : ℕ) → vp' x ≡ (if p == x then empty_vpage_id else vp x))
      → ((x : ℕ) → x < max → held' x ≡ (if p == x then false else held x))
      → Frames InTable limit max cur
          (p ∷ recycle)
          vp'
          (λ w. if w == vp p then empty_pte else view w)
          held'
          pinned
  unfolding occ
  free-Frames p vp' held' lt in_use idle now holds =
      let new = λ (w : ℕ). if w == vp p then empty_pte else view w in
      let mine = s.owner p lt in_use in
      let changed =
        number-update (pinned_frame vp view) (pinned_frame vp' new) max p lt
          (λ i l d. ground (arith, now i, s.owner i l, mine)) in
      record {
        real = s.real;
        mapped = λ w w_page h.
            ground (arith, s.real w w_page, now (view w).ppage_id, s.mapped w w_page, mine);
        absent = λ w w_page h. ground (arith, s.absent w w_page);
        unlocked = λ w w_page. ground (arith, s.unlocked w w_page);
        counted = λ w w_page. ground (arith, s.counted w w_page, s.counted (vp p) mine.0);
        owner = λ x l h. ground (arith, now x, s.owner x l, mine);
        evictable = λ x l. ground (arith, now x, s.evictable x l, holds x l, s.owner x l, mine);
        spare = λ x l. ground (arith, now x, s.spare x l, in_use);
        recycled = λ x ge. ground (arith, s.recycled x ge, lt);
        taken = s.taken;
        tallied = ground (arith, now p, changed, s.tallied, idle, in_use);
      }

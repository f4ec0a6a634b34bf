-- ===== src/SingleThreadCache/Allocated.antt =====
-- `alloc` of include/single_thread_cache.hpp.
use tri_cache.SingleThreadCache.{Cache, alloc, full}
use tri_cache.SharedSingleThreadCache.Frames.{Frames, used}
use tri_cache.PageTable.Table.{Pte}
use tri_cache.PageTable.Chain.{occ}
use tri_cache.Base.{
  ℕ, ◌+◌, ◌==◌, ◌≤◌, ◌<◌, ◌≡◌, if◌then◌else◌, leb, Bool, false, Returns, refl, arith, List-cases,
  inl, inr,
}

-- `d` is cache `c` with frame `p` taken, which held no page.
pub record Takes {E S T W : Type 0} (c : Cache E S T W) (vp : ℕ → ℕ) (p : ℕ) (d : Cache E S T W)
    : Type 0 where
  pub inside : p < c.max_ppage_id
  pub was_free : used vp p ≡ false
  pub same : d ≡ record c { cur_id = d.cur_id; recycle_pool = d.recycle_pool }
  pub spared :
      (x : ℕ)
      → x < c.max_ppage_id
      → occ x d.recycle_pool + (if leb d.cur_id x then 1 else 0)
        ≡ (if p == x then 0 else if used vp x then 0 else 1)
  pub recycled : (x : ℕ) → c.max_ppage_id ≤ x → occ x d.recycle_pool ≡ 0
  pub taken : d.cur_id ≤ c.max_ppage_id

pub alloc-Takes :
    {E S T W : Type 0} (c : Cache E S T W) {InTable : ℕ → Type 0} {limit : ℕ} {vp : ℕ → ℕ}
    {view : ℕ → Pte} {held : ℕ → Bool} {n : ℕ}
    → Frames InTable limit c.max_ppage_id c.cur_id c.recycle_pool vp view held n
    → full c ≡ false
    → Returns (alloc c) (λ a. Takes c vp a.0 a.1)
unfolding alloc full occ
alloc-Takes c s some_free = elim (List-cases c.recycle_pool) [
  | inl e ↦
      let below : c.cur_id < c.max_ppage_id = ground (arith, e, some_free) in
      (
        (c.cur_id, record c { cur_id = c.cur_id + 1 }),
        ground (arith, e, some_free),
        record {
          inside = below;
          was_free = ground (arith, s.spare c.cur_id below);
          same = refl;
          spared = λ x lt. ground (arith, s.spare x lt);
          recycled = s.recycled;
          taken = ground arith;
        },
      )
  | inr (p, rest, e) ↦
      let inside : p < c.max_ppage_id = ground (arith, s.recycled p, e) in
      (
        (p, record c { recycle_pool = rest }),
        ground (arith, e, some_free),
        record {
          inside = inside;
          was_free = ground (arith, s.spare p inside, e);
          same = refl;
          spared = λ x lt. ground (arith, s.spare x lt, e);
          recycled = λ x ge. ground (arith, s.recycled x ge, e);
          taken = s.taken;
        },
      )
]

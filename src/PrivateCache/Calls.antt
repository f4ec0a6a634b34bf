-- ===== src/PrivateCache/Calls.antt =====
-- `pin` and `unpin` of include/private_cache.hpp.
use tri_cache.PrivateCache.{
  PrivateCache, answered, released, functions, cache_of, put_cache, pin_until, private_pin,
  private_unpin,
}
use tri_cache.SharedSingleThreadCache.{Context, Cache, full_pin}
use tri_cache.SharedSingleThreadCache.Frames.{IsPage}
use tri_cache.SharedSingleThreadCache.Calls.{unpin_mapped}
use tri_cache.DirectCache.{Below}
use tri_cache.Replacement.Policy.{Operations, IsPolicy}
use tri_cache.Partitioner.{RoundRobin, locate, page_at}
use tri_cache.Partitioner.Laws.{page_at-locate}
use tri_cache.PageTable.Table.{Pte}
use native.Mathlib.Nat.{}
use tri_cache.Base.{
  ℕ, suc, ◌+◌, ◌-◌, ◌^◌, ◌<◌, ◌≤◌, ◌≡◌, ◌==◌, ◌&&◌, ◌||◌, ltb, if◌then◌else◌, Bool, true, false,
  Returns, arith, refl, inl, inr, Bool-cases, ◌∙◌, sym, ap, length, ==_refl, ==_iff, ◌>>=◌,
}
use tri_cache.PrivateCache.Shared.{IsShared}
use tri_cache.PrivateCache.Holds.{Holds, Keeps, put-Keeps, recounted-Holds}
use tri_cache.PrivateCache.Gained.{Gained, gains_hit, settled}
use tri_cache.PrivateCache.Loads.{gains_miss}

module _ {P S W : Type 0} (ops : Operations S) (below : Below P W) (null : P) (valid : S → Type 0)
    (bound : S → ℕ) (holds : S → ℕ → Bool) (shared : IsShared below)
    (policy : IsPolicy ops valid bound holds) (fresh : Context P ℕ) where
  module _ (r : RoundRobin) (k : ℕ) (lt : k < r.num_partitions) where
    -- The pin of a block that is mapped, with room in its counter, or that finds a frame.
    pub gains :
        (c : Cache P S W) (view : ℕ → Pte)
        → Holds ops below null valid bound holds shared r k c view
        → (v : ℕ) → IsPage v
        → (n m : ℕ) → 0 < n
        → (view v).ref_count + 1 < 2 ^ 13
        → below.thrown c.world ≡ false
        → ((view v).exist ≡ false
            → (0 < length c.page_table.pool)
              × (full_pin c ≡ false)
              × shared.ready (page_at r k v) c.world)
        → Returns (pin_until ops below null fresh n (suc m) (functions below null r k) v c) (λ a.
          Gained ops below null valid bound holds shared policy fresh r k lt c view v a.0 a.1)
    gains c view h v page n m some_rounds room calm frames = elim (Bool-cases (view v).exist) [
      | inl here ↦
          gains_hit ops below null valid bound holds shared policy fresh r k lt h v page n m
            some_rounds here room calm
      | inr gone ↦
          gains_miss ops below null valid bound holds shared policy fresh r k lt h v page n m
            some_rounds (frames gone).0 gone (frames gone).2 (frames gone).1
    ]

  -- Every page that is mapped in a private cache is pinned once in the shared cache, and its frame
  -- has the pointer that the shared cache gave: `PrivateCache::pin` keeps this for a page below
  -- `num_vpages`, which the partitioner has too, whose counter is below 2^13 - 1 and which is
  -- mapped or finds a frame and a line in the private cache and a shared cache that is ready for
  -- its pin, where no call has thrown. Of the shared cache it is asked that it does not throw and
  -- counts where it is ready for a pin of a page that this thread has not pinned, stays so when the
  -- thread gives back another page, and keeps the address of a page while it is pinned. The call
  -- returns the address of the page, which is pinned once in the shared cache then; the page has a
  -- reference more in the private cache and all others have as many as before.
  pub private_pin-Keeps :
      (m : ℕ) (s : PrivateCache P S W) (view : ℕ → ℕ → Pte) (vpage_id : ℕ)
      → 0 < s.partitioner.num_partitions
      → s.num_vpages ≤ s.partitioner.num_vpages
      → vpage_id < s.num_vpages
      → Keeps ops below null valid bound holds shared s view
      → (let (k, v) = locate s.partitioner vpage_id in
          let c = cache_of s k in
          IsPage v
          → (view k v).ref_count + 1 < 2 ^ 13
          → below.thrown s.world ≡ false
          → ((view k v).exist ≡ false
              → (0 < length c.page_table.pool)
                × (full_pin c ≡ false)
                × shared.ready vpage_id s.world)
          → Returns (private_pin ops below null fresh (suc m) vpage_id s) (λ a.
            (new : ℕ → ℕ → Pte) × Keeps ops below null valid bound holds shared a.1 new
            × ((new k v).exist ≡ true)
            × (a.0 ≡ answered (shared.address a.1.world vpage_id))
            × (shared.pins a.1.world vpage_id ≡ 1)
            × ((j b : ℕ)
                → j < s.partitioner.num_partitions
                → IsPage b
                → (new j b).ref_count ≡ (view j b).ref_count + (if j == k && b == v then 1 else 0))
            × (a.1.partitioner ≡ s.partitioner)
            × (a.1.num_vpages ≡ s.num_vpages)))
  unfolding private_pin
  private_pin-Keeps m s view vpage_id some_partition few inside keeps page room calm frames =
      let r = s.partitioner in
      let (k, v) = locate r vpage_id in
      let (whole, lt, _) = page_at-locate r some_partition vpage_id (omega (arith, few, inside)) in
      let c = cache_of s k in
      let (a, runs, g) =
        gains r k lt c (view k) (keeps.each k lt) v page (2 ^ 30) m (omega arith) room calm
          (λ gone. let (stocked, free, ready) = frames gone in (stocked, free, rw whole ready)) in
      let there : ltb vpage_id s.num_vpages ≡ true = ground (arith, inside) in
      (
        (a.0, put_cache s k a.1),
        rw (there, runs) refl,
        (
          λ j. if j == k then g.new else view j,
          put-Keeps ops below null valid bound holds shared s view k a.1 g.new keeps g.holding
              (λ j b j_lt away b_page. g.others j b j_lt away),
          rw (==_refl k) g.here,
          g.gives ∙ ap (λ (q : ℕ). answered (shared.address a.1.world q)) whole,
          ap (λ (q : ℕ). shared.pins a.1.world q) (sym whole)
              ∙ g.holding.counted v page
              ∙ rw g.here refl,
          λ j b j_lt b_page. elim (Bool-cases (j == k)) [
            | inl at ↦ let is_k : j ≡ k = (==_iff j k).0 at in rw (at, is_k) (g.counts b b_page)
            | inr other ↦ rw other (omega arith)
          ],
          refl,
          refl,
        ),
      )

  -- `PrivateCache::unpin` of a page below `num_vpages` that is mapped with a reference keeps that
  -- every mapped page is pinned once in the shared cache: the page has a reference less and is
  -- dirty if it was or if it was written, all others have as many references as before, and the
  -- shared cache is not called.
  pub private_unpin-Keeps :
      (m : ℕ) (s : PrivateCache P S W) (view : ℕ → ℕ → Pte) (vpage_id : ℕ) (is_write : Bool)
      → 0 < s.partitioner.num_partitions
      → s.num_vpages ≤ s.partitioner.num_vpages
      → vpage_id < s.num_vpages
      → Keeps ops below null valid bound holds shared s view
      → (let (k, v) = locate s.partitioner vpage_id in
          IsPage v
          → (view k v).exist ≡ true
          → 0 < (view k v).ref_count
          → Returns (private_unpin ops below null fresh (suc m) vpage_id is_write s) (λ a.
            (new : ℕ → ℕ → Pte) × Keeps ops below null valid bound holds shared a.1 new
            × (a.0 ≡ released)
            × (a.1.world ≡ s.world)
            × ((new k v).dirty ≡ is_write || (view k v).dirty)
            × ((j b : ℕ)
                → j < s.partitioner.num_partitions
                → IsPage b
                → (new j b).ref_count
                  ≡ (view j b).ref_count - (if j == k && b == v then 1 else 0))))
  unfolding private_unpin
  private_unpin-Keeps m s view vpage_id is_write some_partition few inside keeps page here
        some_left =
      let r = s.partitioner in
      let (k, v) = locate r vpage_id in
      let (_, lt, _) = page_at-locate r some_partition vpage_id (omega (arith, few, inside)) in
      let h = keeps.each k lt in
      let e = record (view k v) {
        ref_count = (view k v).ref_count - 1;
        dirty = is_write || (view k v).dirty;
      } in
      let entry = λ (w : ℕ). if w == v then e else view k w in
      let (a, runs, says) =
        unpin_mapped ops (functions below null r k) valid bound holds policy h.in_shape v page fresh
          is_write here some_left in
      let holding =
        recounted-Holds ops below null valid bound holds shared r k lt h v e here here refl says.3
          says.4 says.2 in
      let there : ltb vpage_id s.num_vpages ≡ true = ground (arith, inside) in
      let ends =
        settled ops below null valid bound holds shared policy fresh m (functions below null r k)
          a.0 a.1 says.0 in
      (
        (released, put_cache s k a.1),
        rw (there, runs, ◌>>=◌, ends) refl,
        (
          λ j. if j == k then entry else view j,
          put-Keeps ops below null valid bound holds shared s view k a.1 entry keeps holding
              (λ j b j_lt away b_page. rw says.4 (refl, λ some_pins. refl)),
          refl,
          says.4,
          rw (==_refl k, ==_refl v) refl,
          λ j b j_lt b_page. elim (Bool-cases (j == k)) [
            | inl at ↦
                let is_k : j ≡ k = (==_iff j k).0 at in
                rw (at, is_k)
                  (elim (Bool-cases (b == v)) [
                    | inl at_v ↦ let is_v : b ≡ v = (==_iff b v).0 at_v in rw (at_v, is_v) refl
                    | inr other ↦ rw other (omega arith)
                  ])
            | inr other ↦ rw other (omega arith)
          ],
        ),
      )

-- ===== src/PrivateCache/Holds.antt =====
-- The pages of the private caches of include/private_cache.hpp: each that is mapped is pinned once in the shared
-- cache, and its frame has the pointer that the shared cache gave.
use tri_cache.PrivateCache.{PrivateCache, functions, cache_of, put_cache}
use tri_cache.SharedSingleThreadCache.{Cache}
use tri_cache.SharedSingleThreadCache.Process.{state_at}
use tri_cache.SharedSingleThreadCache.Frames.{IsPage}
use tri_cache.SharedSingleThreadCache.Invariant.{IsCache}
use tri_cache.DirectCache.{Below}
use tri_cache.Replacement.Policy.{Operations}
use tri_cache.Partitioner.{RoundRobin, page_at}
use tri_cache.PageTable.Table.{Pte}
use native.Mathlib.Nat.{mul-add-mod_self_right, mod-eq_of_lt, mul-add-div_right, div-eq_of_lt}
use tri_cache.Base.{
  ℕ, ◌/◌, ◌%◌, ◌<◌, ◌≡◌, ◌≢◌, ◌==◌, if◌then◌else◌, Bool, true, false, arith, refl, inl, inr,
  Bool-cases, ◌∙◌, sym, ap, ==_eq_false, ==_iff,
}
use tri_cache.PrivateCache.Shared.{IsShared}

-- A page of a partition is located there.
pub located :
    (r : RoundRobin) (p b : ℕ)
    → p < r.num_partitions
    → (page_at r p b % r.num_partitions ≡ p) × (page_at r p b / r.num_partitions ≡ b)
unfolding page_at
located r p b lt =
    let n = r.num_partitions in
    let some_partition : 0 < n = omega (arith, lt) in
    (
      mul-add-mod_self_right b n p ∙ mod-eq_of_lt lt,
      mul-add-div_right some_partition b p ∙ rw (div-eq_of_lt lt) (omega arith),
    )

module _ {P S W : Type 0} (ops : Operations S) (below : Below P W) (null : P) (valid : S → Type 0)
    (bound : S → ℕ) (holds : S → ℕ → Bool) (shared : IsShared below) where
  abbrev pub InShape : RoundRobin → ℕ → Cache P S W → (ℕ → Pte) → Type 0
  InShape r k c view = IsCache ops (functions below null r k) valid bound holds c view

  -- The world of a cache in good shape does not matter.
  in_world :
      (r : RoundRobin) (k : ℕ) (c : Cache P S W) (view : ℕ → Pte) (w : W)
      → InShape r k c view
      → InShape r k (record c { world = w }) view
  in_world r k c view w is = record {
    table = is.table;
    reads = is.reads;
    sized = is.sized;
    small = is.small;
    is_valid = is.is_valid;
    bounded = is.bounded;
    pinned = is.pinned;
    pinned_pos = is.pinned_pos;
    frames = is.frames;
  }

  -- The pages of a partition in a world.
  pub record Holds (r : RoundRobin) (k : ℕ) (c : Cache P S W) (view : ℕ → Pte) : Type 0 where
    pub in_shape : InShape r k c view
    pub counted :
        (b : ℕ) → IsPage b → shared.pins c.world (page_at r k b) ≡ (if (view b).exist then 1 else 0)
    pub pointers :
        (b : ℕ)
        → IsPage b
        → (view b).exist ≡ true
        → (state_at ops (functions below null r k) c (view b).ppage_id).external
          ≡ shared.address c.world (page_at r k b)

  -- `view k` is the entry of each page of partition `k`.
  pub record Keeps (s : PrivateCache P S W) (view : ℕ → ℕ → Pte) : Type 0 where
    pub each :
        (k : ℕ) → k < s.partitioner.num_partitions → Holds s.partitioner k (cache_of s k) (view k)

  -- The world of another partition has changed.
  pub elsewhere :
      (r : RoundRobin) (k : ℕ) (c : Cache P S W) (view : ℕ → Pte) (w : W)
      → Holds r k c view
      → ((b : ℕ)
          → IsPage b
          → (shared.pins w (page_at r k b) ≡ shared.pins c.world (page_at r k b))
            × (0 < shared.pins c.world (page_at r k b)
                → shared.address w (page_at r k b) ≡ shared.address c.world (page_at r k b)))
      → Holds r k (record c { world = w }) view
  elsewhere r k c view w h same = record {
    in_shape = in_world r k c view w h.in_shape;
    counted = λ b page. (same b page).0 ∙ h.counted b page;
    pointers = λ b page here.
        h.pointers b page here ∙ sym ((same b page).1 (rw (h.counted b page, here) (omega arith)));
  }

  pub put-Keeps :
      (s : PrivateCache P S W) (view : ℕ → ℕ → Pte) (k : ℕ) (c : Cache P S W) (new : ℕ → Pte)
      → Keeps s view
      → Holds s.partitioner k c new
      → ((j b : ℕ)
          → j < s.partitioner.num_partitions
          → j ≢ k
          → IsPage b
          → (shared.pins c.world (page_at s.partitioner j b)
              ≡ shared.pins s.world (page_at s.partitioner j b))
            × (0 < shared.pins s.world (page_at s.partitioner j b)
                → shared.address c.world (page_at s.partitioner j b)
                  ≡ shared.address s.world (page_at s.partitioner j b)))
      → Keeps (put_cache s k c) (λ j. if j == k then new else view j)
  put-Keeps s view k c new keeps holding others = record {
    each = λ j lt. elim (Bool-cases (j == k)) [
      | inl same ↦ let at : j ≡ k = (==_iff j k).0 same in rw same rw at holding
      | inr apart ↦
          let away : j ≢ k = λ e. absurd (ground (arith, e, apart)) in
          rw apart (
            elsewhere s.partitioner j (cache_of s j) (view j) c.world (keeps.each j lt)
              (λ b page. others j b lt away page))
    ];
  }

  module _ (r : RoundRobin) (k : ℕ) (lt : k < r.num_partitions) where
    pub other_partition :
        (j b v : ℕ) → j < r.num_partitions → j ≢ k → (page_at r k v == page_at r j b) ≡ false
    other_partition j b v below_n away = ==_eq_false (page_at r k v) (page_at r j b) (λ same. away (
        sym (located r j b below_n).0
        ∙ ap (λ (q : ℕ). q % r.num_partitions) (sym same)
        ∙ (located r k v lt).0))

    pub other_block : (b v : ℕ) → b ≢ v → (page_at r k v == page_at r k b) ≡ false
    other_block b v away = ==_eq_false (page_at r k v) (page_at r k b) (λ same. away (
        sym (located r k b lt).1
        ∙ ap (λ (q : ℕ). q / r.num_partitions) (sym same)
        ∙ (located r k v lt).1))

    -- References to a mapped page come or go.
    pub recounted-Holds :
        {c d : Cache P S W} {view : ℕ → Pte}
        → Holds r k c view
        → (v : ℕ) (e : Pte) → (view v).exist ≡ true
        → e.exist ≡ true
        → e.ppage_id ≡ (view v).ppage_id
        → d.states ≡ c.states
        → d.world ≡ c.world
        → InShape r k d (λ w. if w == v then e else view w)
        → Holds r k d (λ w. if w == v then e else view w)
    recounted-Holds {c} {d} {view} h v e here exists frame same_states same_world is = record {
      in_shape = is;
      counted = λ b page. elim (Bool-cases (b == v)) [
        | inl at ↦
            let is_v : b ≡ v = (==_iff b v).0 at in
            rw (at, exists, same_world) (h.counted b page ∙ rw (is_v, here) refl)
        | inr other ↦ rw (other, same_world) (h.counted b page)
      ];
      pointers = λ b page b_here.
          let at_frame : (state_at ops (functions below null r k) d (view b).ppage_id).external
              ≡ (state_at ops (functions below null r k) c (view b).ppage_id).external =
            rw same_states refl in
          elim (Bool-cases (b == v)) [
            | inl at ↦
                let is_v : b ≡ v = (==_iff b v).0 at in
                let b_frame : e.ppage_id ≡ (view b).ppage_id = rw is_v frame in
                rw (at, b_frame, same_world) (at_frame ∙ h.pointers b page (rw is_v here))
            | inr other ↦
                rw (other, same_world)
                  (at_frame ∙ h.pointers b page (ground (arith, other, b_here)))
          ];
    }

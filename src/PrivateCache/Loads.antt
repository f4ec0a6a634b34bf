-- ===== src/PrivateCache/Loads.antt =====
-- A pin of include/private_cache.hpp of a page that is absent in the cache of its partition: another page is given
-- back where all frames are in use, and the page is pinned in the shared cache.
use tri_cache.PrivateCache.{answered, functions}
use tri_cache.SharedSingleThreadCache.{Context, Cache, State, no_ppage_id, full_pin}
use tri_cache.SharedSingleThreadCache.Process.{state_at}
use tri_cache.SharedSingleThreadCache.Frames.{IsPage, used}
use tri_cache.SharedSingleThreadCache.Invariant.{pages_of}
use tri_cache.SharedSingleThreadCache.Assigned.{Missed, assigned_view, evicted_world}
use tri_cache.SharedSingleThreadCache.Calls.{pin_miss}
use tri_cache.DirectCache.{Below}
use tri_cache.Replacement.Policy.{Operations, IsPolicy}
use tri_cache.Partitioner.{RoundRobin, page_at}
use tri_cache.PageTable.Table.{Pte}
use native.Mathlib.Nat.{}
use tri_cache.Base.{
  ℕ, ◌+◌, ◌-◌, ◌<◌, ◌≡◌, ◌≢◌, ◌==◌, ◌&&◌, if◌then◌else◌, Bool, true, false, arith, refl, inl, inr,
  Bool-cases, ◌∙◌, sym, ap, length, ==_refl, ==_iff,
}
use tri_cache.PrivateCache.Shared.{IsShared}
use tri_cache.PrivateCache.Holds.{Holds, other_partition, other_block}
use tri_cache.PrivateCache.Gained.{Gained, Pins, pins_first}

module _ {P S W : Type 0} (ops : Operations S) (below : Below P W) (null : P) (valid : S → Type 0)
    (bound : S → ℕ) (holds : S → ℕ → Bool) (shared : IsShared below)
    (policy : IsPolicy ops valid bound holds) (fresh : Context P ℕ) where
  module _ (r : RoundRobin) (k : ℕ) (lt : k < r.num_partitions) where
    module _ {c : Cache P S W} {view : ℕ → Pte}
        (h : Holds ops below null valid bound holds shared r k c view) (v : ℕ) (page : IsPage v)
        (n m : ℕ) (some_rounds : 0 < n) where
      module _ (p : ℕ) (inside : p < c.max_ppage_id) (gone : (view v).exist ≡ false)
          (ready : shared.ready (page_at r k v) c.world) where
        abbrev vp : ℕ → ℕ
        vp = pages_of ops (functions below null r k) valid bound holds c

        abbrev between : W
        between = evicted_world ops (functions below null r k) valid bound holds c view p

        abbrev leaves : ℕ → Bool
        leaves b = used vp p && vp p == b

        -- The page that leaves is pinned, and is not the one that comes.
        victim :
            used vp p ≡ true
            → (0 < shared.pins c.world (page_at r k (vp p))) × (page_at r k (vp p) ≢ page_at r k v)
        victim held =
            let (known, exists, _) = h.in_shape.frames.owner p inside held in
            let away : v ≢ vp p = λ same. absurd (ground (arith, same, exists, gone)) in
            (
              rw (h.counted (vp p) known, exists) (omega arith),
              λ same. absurd (
                  ground (
                    arith,
                    same,
                    other_block ops below null valid bound holds shared r k lt v (vp p) away,
                  )),
            )

        between_ready : shared.ready (page_at r k v) between
        between_ready = elim (Bool-cases (used vp p)) [
          | inl held ↦ rw held (
              shared.unpin_ready (page_at r k (vp p)) (view (vp p)).dirty c.world (page_at r k v)
                ready (victim held).0 (victim held).1)
          | inr unused ↦ rw unused ready
        ]

        -- The world once the page of frame `p` is given back.
        evicted_pins :
            (q : ℕ)
            → shared.pins between q
              ≡ shared.pins c.world q - (if used vp p && page_at r k (vp p) == q then 1 else 0)
        evicted_pins q = elim (Bool-cases (used vp p)) [
          | inl held ↦ rw held (
              shared.unpin_takes (page_at r k (vp p)) (view (vp p)).dirty c.world (page_at r k v)
                ready (victim held).0 (victim held).1 q)
          | inr unused ↦ rw unused (omega arith)
        ]

        evicted_address :
            (q : ℕ)
            → (used vp p && page_at r k (vp p) == q) ≡ false
            → 0 < shared.pins c.world q
            → shared.address between q ≡ shared.address c.world q
        evicted_address q away some_pins = elim (Bool-cases (used vp p)) [
          | inl held ↦ rw held (
              shared.unpin_keeps (page_at r k (vp p)) (view (vp p)).dirty c.world (page_at r k v)
                ready (victim held).0 (victim held).1 q
                (λ same. absurd (ground (arith, held, away, same))) some_pins)
          | inr unused ↦ rw unused refl
        ]

        same_block : (b : ℕ) → (used vp p && page_at r k (vp p) == page_at r k b) ≡ leaves b
        same_block b = elim (Bool-cases (vp p == b)) [
          | inl at ↦
              let is_b : vp p ≡ b = (==_iff (vp p) b).0 at in
              rw (at, is_b, ==_refl (page_at r k b)) refl
          | inr other ↦
              let away : b ≢ vp p = λ e. absurd (ground (arith, e, other)) in
              rw (other, other_block ops below null valid bound holds shared r k lt b (vp p) away)
                refl
        ]

        evicted_block :
            (b : ℕ)
            → IsPage b
            → shared.pins between (page_at r k b)
              ≡ (if leaves b then 0 else if (view b).exist then 1 else 0)
        evicted_block b b_page =
            ground (arith, evicted_pins (page_at r k b), same_block b, h.counted b b_page)

        v_stays : leaves v ≡ false
        v_stays = ground (arith, h.in_shape.frames.owner p inside, gone)

        v_free : shared.pins between (page_at r k v) ≡ 0
        v_free = ground (arith, evicted_block v page, v_stays, gone)

        -- The frame is loaded with block `v`, which was absent.
        module _ (e : Cache P S W)
            (missed : Missed ops (functions below null r k) valid bound holds c view v p e) where
          abbrev taken : ℕ → Pte
          taken = assigned_view ops (functions below null r k) valid bound holds c view v p

          loaded_pins :
              (q : ℕ)
              → shared.pins e.world q
                ≡ shared.pins between q + (if page_at r k v == q then 1 else 0)
          loaded_pins q =
              rw missed.loaded.1 (shared.pin_adds (page_at r k v) between between_ready v_free q)

          loaded_address :
              (q : ℕ)
              → 0 < shared.pins between q
              → shared.address e.world q ≡ shared.address between q
          loaded_address q some_pins =
              rw missed.loaded.1
                (shared.pin_keeps (page_at r k v) between between_ready v_free q some_pins)

          loaded_block :
              (b : ℕ)
              → IsPage b
              → shared.pins e.world (page_at r k b) ≡ (if (taken b).exist then 1 else 0)
          loaded_block b b_page = elim (Bool-cases (b == v)) [
            | inl at ↦
                let is_v : b ≡ v = (==_iff b v).0 at in
                let first = loaded_pins (page_at r k v) in
                let before = evicted_block v page in
                rw (at, is_v) (ground (arith, first, before, v_stays, gone))
            | inr other ↦
                let away : b ≢ v = λ same. absurd (ground (arith, same, other)) in
                rw other (
                  ground (
                    arith,
                    loaded_pins (page_at r k b),
                    other_block ops below null valid bound holds shared r k lt b v away,
                    evicted_block b b_page,
                  ))
          ]

          -- The pages that stay keep their frames.
          stays_there :
              (b : ℕ) → IsPage b → (view b).exist ≡ true → leaves b ≡ false → p ≢ (view b).ppage_id
          stays_there b b_page b_here stays same = ground (
            arith,
            h.in_shape.frames.mapped b b_page b_here,
            h.in_shape.frames.real b b_page,
            same,
            stays,
          )

          given :
              (state_at ops (functions below null r k) e p).external
              ≡ shared.address e.world (page_at r k v)
          given =
              missed.loaded.0
              ∙ shared.pin_gives (page_at r k v) between between_ready v_free
              ∙ ap (λ (w : W). shared.address w (page_at r k v)) (sym missed.loaded.1)

          loaded_pointer :
              (b : ℕ)
              → IsPage b
              → (taken b).exist ≡ true
              → (state_at ops (functions below null r k) e (taken b).ppage_id).external
                ≡ shared.address e.world (page_at r k b)
          loaded_pointer b b_page b_here = elim (Bool-cases (b == v)) [
            | inl at ↦ let is_v : b ≡ v = (==_iff b v).0 at in rw (at, is_v) given
            | inr other ↦ elim (Bool-cases (leaves b)) [
              | inl left ↦ absurd (ground (arith, other, left, b_here))
              | inr stays ↦
                  let was_here : (view b).exist ≡ true = ground (arith, other, stays, b_here) in
                  let some_pins : 0 < shared.pins between (page_at r k b) =
                    ground (arith, evicted_block b b_page, stays, was_here) in
                  let had_pins : 0 < shared.pins c.world (page_at r k b) =
                    ground (arith, h.counted b b_page, was_here) in
                  let frame = stays_there b b_page was_here stays in
                  rw (other, stays)
                    (ap (λ (x : State P). x.external) (missed.others (view b).ppage_id frame)
                      ∙ h.pointers b b_page was_here
                      ∙ sym (
                          loaded_address (page_at r k b) some_pins
                          ∙ evicted_address (page_at r k b) (same_block b ∙ stays) had_pins))
            ]
          ]

          taken_counts :
              (b : ℕ)
              → IsPage b
              → (taken b).ref_count ≡ (view b).ref_count + (if b == v then 1 else 0)
          taken_counts b b_page = elim (Bool-cases (b == v)) [
            | inl at ↦
                let is_v : b ≡ v = (==_iff b v).0 at in
                let no_references : (view v).ref_count ≡ 0 =
                  ap (λ (x : Pte). x.ref_count) (h.in_shape.frames.absent v page gone) in
                rw (at, is_v) rw no_references refl
            | inr other ↦ elim (Bool-cases (leaves b)) [
              | inl left ↦
                  let in_use : used vp p ≡ true = ground (arith, left) in
                  let is_b : vp p ≡ b = ground (arith, left) in
                  let idle : (view b).ref_count ≡ 0 = rw (← is_b) (missed.idle in_use) in
                  ground (arith, other, left, idle)
              | inr stays ↦ ground (arith, other, stays)
            ]
          ]

          loaded_elsewhere :
              (j b : ℕ)
              → j < r.num_partitions
              → j ≢ k
              → (shared.pins e.world (page_at r j b) ≡ shared.pins c.world (page_at r j b))
                × (0 < shared.pins c.world (page_at r j b)
                    → shared.address e.world (page_at r j b)
                      ≡ shared.address c.world (page_at r j b))
          loaded_elsewhere j b j_lt away =
              let q = page_at r j b in
              let not_victim : (used vp p && page_at r k (vp p) == q) ≡ false = ground (
                arith,
                other_partition ops below null valid bound holds shared r k lt j b (vp p) j_lt away,
              ) in
              let same : shared.pins between q ≡ shared.pins c.world q =
                ground (arith, evicted_pins q, not_victim) in
              (
                ground (
                  arith,
                  loaded_pins q,
                  other_partition ops below null valid bound holds shared r k lt j b v j_lt away,
                  same,
                ),
                λ some_pins.
                    loaded_address q (rw same some_pins) ∙ evicted_address q not_victim some_pins,
              )

          missed-Holds : Holds ops below null valid bound holds shared r k e taken
          missed-Holds = record {
            in_shape = missed.is_cache;
            counted = loaded_block;
            pointers = loaded_pointer;
          }

          missed_calm : below.thrown e.world ≡ false
          missed_calm =
              rw missed.loaded.1 (shared.pin_succeeds (page_at r k v) between between_ready v_free)

          missed-Gained :
              Gained ops below null valid bound holds shared policy fresh r k lt c view v
                (answered (state_at ops (functions below null r k) e p).external)
                e
          missed-Gained = record {
            new = taken;
            holding = missed-Holds;
            here = rw (==_refl v) refl;
            calm = missed_calm;
            gives = ap answered given;
            counts = taken_counts;
            others = loaded_elsewhere;
          }

      pub gains_miss :
          0 < length c.page_table.pool
          → (view v).exist ≡ false
          → shared.ready (page_at r k v) c.world
          → full_pin c ≡ false
          → Pins ops below null valid bound holds shared policy fresh r k lt h v page n m
              some_rounds
      gains_miss stocked gone ready room =
          let (a, runs, says) =
            pin_miss ops (functions below null r k) valid bound holds policy h.in_shape v page fresh
              stocked (λ x v p d s w. refl) (λ x v p s w. refl) gone room in
          let p = a.0.ppage_id in
          let real : p ≢ no_ppage_id = λ e. omega (arith, says.1.inside, h.in_shape.small, e) in
          (
            (answered (state_at ops (functions below null r k) a.1 p).external, a.1),
            pins_first ops below null valid bound holds shared policy fresh n m
                (functions below null r k) v p c a some_rounds runs says.0 real says.2
                (missed_calm p says.1.inside gone ready a.1 says.1),
            missed-Gained p says.1.inside gone ready a.1 says.1,
          )

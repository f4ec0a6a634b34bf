-- ===== src/PrivateCache/Gained.antt =====
-- What a pin of include/private_cache.hpp leaves of a partition, and the pin of a page that is mapped.
use tri_cache.PrivateCache.{PrivateOutcome, answered, functions, settle, pin_until}
use tri_cache.SharedSingleThreadCache.{Context, Functions, Cache, no_ppage_id, ended}
use tri_cache.SharedSingleThreadCache.Process.{state_at}
use tri_cache.SharedSingleThreadCache.Methods
use tri_cache.SharedSingleThreadCache.Frames.{IsPage}
use tri_cache.SharedSingleThreadCache.Calls.{pin_hit}
use tri_cache.DirectCache.{Below}
use tri_cache.Replacement.Policy.{Operations, IsPolicy}
use tri_cache.Partitioner.{RoundRobin, page_at}
use tri_cache.PageTable.Table.{Pte}
use native.Mathlib.Nat.{}
use tri_cache.Base.{
  false, not, ◌>>◌, assert, ℕ, zero, suc, ◌+◌, ◌^◌, ◌<◌, ◌≡◌, ◌≢◌, ◌==◌, if◌then◌else◌, Bool, true,
  some, Returns, arith, refl, ap, ==_refl, ==_eq_false, ◌>>=◌,
}
use tri_cache.PrivateCache.Shared.{IsShared}
use tri_cache.PrivateCache.Holds.{Holds, recounted-Holds}

module _ {P S W : Type 0} (ops : Operations S) (below : Below P W) (null : P) (valid : S → Type 0)
    (bound : S → ℕ) (holds : S → ℕ → Bool) (shared : IsShared below)
    (policy : IsPolicy ops valid bound holds) (fresh : Context P ℕ) where
  -- A call that ended is not continued.
  pub settled :
      (n : ℕ) (f : Functions P ℕ W) (x : Context P ℕ) (c : Cache P S W)
      → x.phase ≡ ended
      → settle ops below null fresh (suc n) f x c ≡ some (x, c)
  unfolding settle
  settled n f x c over = rw over refl

  -- The first round returns.
  pub pins_first :
      (n m : ℕ) (f : Functions P ℕ W) (v p : ℕ) (c : Cache P S W) (a : Context P ℕ × Cache P S W)
      → 0 < n
      → Methods.pin ops f v fresh c ≡ some a
      → a.0.phase ≡ ended
      → a.0.ppage_id ≢ no_ppage_id
      → a.0.external_state ≡ some p
      → below.thrown a.1.world ≡ false
      → pin_until ops below null fresh n (suc m) f v c
        ≡ some (answered (state_at ops f a.1 p).external, a.1)
  unfolding pin_until
  pins_first zero m f v p c a some_rounds pins over real found calm =
      absurd (omega (arith, some_rounds))
  pins_first (suc n) m f v p c a some_rounds pins over real found calm =
      rw
        (
          pins,
          ◌>>=◌,
          settled m f a.0 a.1 over,
          calm,
          ◌>>◌,
          assert,
          not,
          ==_eq_false a.0.ppage_id no_ppage_id real,
          found,
        )
        refl

  module _ (r : RoundRobin) (k : ℕ) (lt : k < r.num_partitions) where
    -- What a pin of block `v` leaves of the partition.
    pub record Gained (c : Cache P S W) (view : ℕ → Pte) (v : ℕ) (o : PrivateOutcome P)
        (d : Cache P S W) : Type 0 where
      pub new : ℕ → Pte
      pub holding : Holds ops below null valid bound holds shared r k d new
      pub here : (new v).exist ≡ true
      pub calm : below.thrown d.world ≡ false
      pub gives : o ≡ answered (shared.address d.world (page_at r k v))
      pub counts :
          (b : ℕ) → IsPage b → (new b).ref_count ≡ (view b).ref_count + (if b == v then 1 else 0)
      pub others :
          (j b : ℕ)
          → j < r.num_partitions
          → j ≢ k
          → (shared.pins d.world (page_at r j b) ≡ shared.pins c.world (page_at r j b))
            × (0 < shared.pins c.world (page_at r j b)
                → shared.address d.world (page_at r j b) ≡ shared.address c.world (page_at r j b))

    module _ {c : Cache P S W} {view : ℕ → Pte}
        (h : Holds ops below null valid bound holds shared r k c view) (v : ℕ) (page : IsPage v)
        (n m : ℕ) (some_rounds : 0 < n) where
      abbrev pub Pins : Type 0
      Pins =
          Returns (pin_until ops below null fresh n (suc m) (functions below null r k) v c)
            (λ a. Gained c view v a.0 a.1)

      pub gains_hit :
          (view v).exist ≡ true
          → (view v).ref_count + 1 < 2 ^ 13
          → below.thrown c.world ≡ false
          → Pins
      gains_hit here room calm =
          let (a, runs, says) =
            pin_hit ops (functions below null r k) valid bound holds policy h.in_shape v page fresh
              here room in
          let p = (view v).ppage_id in
          let small = (h.in_shape.frames.mapped v page here).0 in
          let real : a.0.ppage_id ≢ no_ppage_id =
            λ e. omega (arith, says.1, small, h.in_shape.small, e) in
          let same : (j : ℕ)
              → state_at ops (functions below null r k) a.1 j
                ≡ state_at ops (functions below null r k) c j =
            λ j. rw says.4 refl in
          (
            (answered (state_at ops (functions below null r k) a.1 p).external, a.1),
            pins_first n m (functions below null r k) v p c a some_rounds runs says.0 real says.3
                (rw says.5 calm),
            record {
              new = λ w.
                  if w == v then record (view v) { ref_count = (view v).ref_count + 1 } else view w;
              holding =
                  recounted-Holds ops below null valid bound holds shared r k lt h v
                    (record (view v) { ref_count = (view v).ref_count + 1 }) here here refl says.4
                    says.5 says.2;
              here = rw (==_refl v) here;
              calm = rw says.5 calm;
              gives = ap answered (rw (says.4, says.5) (h.pointers v page here));
              counts = λ b b_page. ground arith;
              others = λ j b j_lt away. rw says.5 (refl, λ some_pins. refl);
            },
          )

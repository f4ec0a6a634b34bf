-- ===== src/Replacement/Clock/Laws.antt =====
-- The operations of class `Clock` of include/replacement.hpp on the set of resident pages.
use tri_cache.Base.{
  ℕ, ◌+◌, ◌-◌, ◌≤◌, ◌<◌, ◌==◌, if◌then◌else◌, length, set, length-set, get_or-set, count-set, Bool,
  true, false, Returns, Bool-cases, ◌≡◌, refl, inl, inr, arith, ◌∙◌, length-replicate,
  get_or-replicate, count-replicate, count_witness,
}
use tri_cache.Replacement.Clock.{Clock, new, state, access, push, erase}
use tri_cache.Replacement.Clock.Sweep.{resident, IsValid}

pub new-IsValid : (max : ℕ) → 0 < max → IsValid (new max)
unfolding new
new-IsValid max h = record {
  hand_lt = h;
  sized = length-replicate max 0;
  counted = count-replicate resident max 0 refl;
  small = λ i. ground (arith, get_or-replicate {A = ℕ} max i 0);
}

-- `c'` is a valid clock over the same pages, and page `i` is resident in it exactly when `f i`.
pub record Holds (c : Clock) (f : ℕ → Bool) (total : ℕ) (c' : Clock) : Type 0 where
  pub valid : IsValid c'
  pub same_max : c'.max_ppage_id ≡ c.max_ppage_id
  pub total_lem : c'.count ≡ total
  pub reads : (i : ℕ) → resident (state c' i) ≡ f i

module _ (c : Clock) (valid : IsValid c) (p : ℕ) (lt : p < c.max_ppage_id) where
  in_states : p < length c.states
  in_states = omega (arith, valid.sized)

  -- All writes of a state are by one rule.
  pub write-Holds :
      (v total : ℕ)
      → v ≤ 2
      → total + (if resident (state c p) then 1 else 0) ≡ c.count + (if resident v then 1 else 0)
      → Holds c
          (λ i. if p == i then resident v else resident (state c i))
          total
          (record c { states = set c.states p v; count = total })
  write-Holds v total small h = record {
    valid = record {
      hand_lt = valid.hand_lt;
      sized = length-set c.states p v ∙ valid.sized;
      counted = omega (arith, count-set resident c.states p v 0 in_states, valid.counted);
      small = λ i. ground (arith, get_or-set c.states p i v 0 in_states, valid.small i);
    };
    same_max = refl;
    total_lem = refl;
    reads = λ i. ground (arith, get_or-set c.states p i v 0 in_states);
  }

  -- `push` of a page in bounds on a valid clock returns a valid clock in which that page is resident
  -- too, and nothing else changed residence; the count grows by 1 if the page was not resident.
  pub push-Holds : Returns (push p c) (
      Holds c
        (λ i. if p == i then true else resident (state c i))
        (if resident (state c p) then c.count else c.count + 1))
  unfolding push access
  push-Holds = elim (Bool-cases (state c p == 0)) [
    | inl e ↦ (
      record c { states = set c.states p 2; count = c.count + 1 },
      rw e,
      rw e (write-Holds 2 (c.count + 1) (omega arith) (ground arith)),
    )
    | inr e ↦ (
      record c { states = set c.states p 2 },
      rw e,
      rw e (write-Holds 2 c.count (omega arith) (ground arith)),
    )
  ]

  -- `access` of a resident page in bounds of a valid clock meets its assertion and returns a valid clock
  -- with the same resident pages and count.
  pub access-Holds :
      resident (state c p) ≡ true
      → Returns (access p c) (Holds c (λ i. resident (state c i)) c.count)
  unfolding access
  access-Holds r =
      let e : (state c p == 0) ≡ false = ground arith in
      let w = write-Holds 2 c.count (omega arith) (ground arith) in
      (
        record c { states = set c.states p 2 },
        rw e,
        record {
          valid = w.valid;
          same_max = refl;
          total_lem = refl;
          reads = λ i. ground (arith, w.reads i);
        },
      )

  -- `erase` of a page in bounds of a valid clock leaves a valid clock in which that page is not resident,
  -- and nothing else changed residence; the count shrinks by 1 if the page was resident.
  pub erase-Holds :
      Holds c
        (λ i. if p == i then false else resident (state c i))
        (if resident (state c p) then c.count - 1 else c.count)
        (erase p c)
  unfolding erase
  erase-Holds = elim (Bool-cases (state c p == 0)) [
    | inl e ↦
        rw e record { valid = valid; same_max = refl; total_lem = refl; reads = λ i. ground arith }
    | inr e ↦ rw e (
        write-Holds 0 (c.count - 1) (omega arith)
          (ground (arith, count_witness resident c.states p 0 in_states, valid.counted)))
  ]

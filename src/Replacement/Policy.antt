-- ===== src/Replacement/Policy.antt =====
-- What a cache asks of a replacement policy of include/replacement.hpp, as a set of pages, for `Clock`
-- and `LRU`.
use tri_cache.Replacement.Size.{pages_once, length-pages, number-count, number-occ}
use tri_cache.Replacement.Clock.{Clock, state}
use tri_cache.Replacement.Clock
use tri_cache.Replacement.Clock.Sweep.{IsValid, resident}
use tri_cache.Replacement.Clock.Laws.{Holds, push-Holds, access-Holds, erase-Holds}
use tri_cache.Replacement.Clock.Pop.{pop-Pops}
use tri_cache.Replacement.Lru.{Lru, position}
use tri_cache.Replacement.Lru
use tri_cache.Replacement.Lru.Nodes.{pages}
use tri_cache.Replacement.Lru.Laws.{
  IsLru, Follows, held-occ, push-IsLru, access-IsLru, erase-IsLru, pop-IsLru,
}
use tri_cache.PageTable.Chain.{occ}
use tri_cache.PageTable.Chain.Edit.{occ-without_other, occ-append}
use tri_cache.Base.{
  number-congr, sym, number, none, [], ◌∷◌, ap, ◌+◌, List-cases, Option-cases, ◌∙◌, ltb, ℕ, ◌<◌,
  ◌≡◌, ◌==◌, if◌then◌else◌, Bool, true, false, not, Option, some, is_null, length, get_or_outside,
  count_witness, dec_lt, Returns, arith, refl, inl, inr,
}

-- The operations that a cache calls.
pub record Operations (S : Type 0) : Type 0 where
  pub push : ℕ → S → Option S
  pub access : ℕ → S → Option S
  pub erase : ℕ → S → Option S
  pub pop : S → Option (ℕ × ℕ × S)
  pub size : S → ℕ

module _ {S : Type 0} (operations : Operations S) (valid : S → Type 0) (bound : S → ℕ)
    (holds : S → ℕ → Bool) where
  -- `t` is a valid state for as many pages as `s`, and holds the pages of `f`.
  pub record Becomes (s : S) (f : ℕ → Bool) (t : S) : Type 0 where
    pub is_valid : valid t
    pub same_bound : bound t ≡ bound s
    pub reads : (j : ℕ) → holds t j ≡ f j

  pub record IsPolicy : Type 0 where
    pub inside : (s : S) (i : ℕ) → valid s → holds s i ≡ true → i < bound s
    pub sizes : (s : S) → valid s → operations.size s ≡ number (holds s) (bound s)
    pub pushes :
        (s : S) (i : ℕ)
        → valid s
        → i < bound s
        → Returns (operations.push i s) (Becomes s (λ j. if i == j then true else holds s j))
    pub accesses :
        (s : S) (i : ℕ)
        → valid s
        → i < bound s
        → holds s i ≡ true
        → Returns (operations.access i s) (Becomes s (holds s))
    pub erases :
        (s : S) (i : ℕ)
        → valid s
        → i < bound s
        → Returns (operations.erase i s) (Becomes s (λ j. if i == j then false else holds s j))
    pub pops :
        (s : S) (i : ℕ)
        → valid s
        → holds s i ≡ true
        → Returns
            (operations.pop s)
            (λ r. (holds s r.0 ≡ true) × Becomes s (λ j. if r.0 == j then false else holds s j) r.2)

abbrev pub clock : Operations Clock
clock = record {
  push = Clock.push;
  access = Clock.access;
  erase = λ i c. some (Clock.erase i c);
  pop = Clock.pop;
  size = Clock.size;
}

abbrev pub lru : Operations Lru
lru = record {
  push = Lru.push;
  access = Lru.access;
  erase = Lru.erase;
  pop = Lru.pop;
  size = Lru.size;
}

abbrev pub clock_holds : Clock → ℕ → Bool
clock_holds c j = resident (state c j)

clock-Becomes :
    {c d : Clock} {f : ℕ → Bool} {n : ℕ}
    → Holds c f n d
    → Becomes clock IsValid (λ c. c.max_ppage_id) clock_holds c f d
clock-Becomes h = record { is_valid = h.valid; same_bound = h.same_max; reads = h.reads }

clock_inside : (c : Clock) (i : ℕ) → IsValid c → clock_holds c i ≡ true → i < c.max_ppage_id
clock_inside c i valid held = elim (dec_lt i (length c.states)) [
  | yes lt ↦ rw (← valid.sized) lt
  | no ge ↦ absurd (ground (arith, get_or_outside c.states i 0 (omega arith)))
]

clock_sizes : (c : Clock) → IsValid c → Clock.size c ≡ number (clock_holds c) c.max_ppage_id
unfolding Clock.size
clock_sizes c valid =
    sym valid.counted
    ∙ sym (number-count resident c.states 0)
    ∙ ap (number (clock_holds c)) valid.sized

clock_counts : (c : Clock) (i : ℕ) → IsValid c → clock_holds c i ≡ true → 0 < c.count
clock_counts c i valid held = elim (dec_lt i (length c.states)) [
  | yes lt ↦ omega (arith, valid.counted, count_witness resident c.states i 0 lt held)
  | no ge ↦ absurd (ground (arith, get_or_outside c.states i 0 (omega arith)))
]

-- Class `Clock`, on its valid states, is a policy for the pages that are resident: `push`, `access`,
-- `erase` and `pop` act on them as on a set, `pop` taking a page of the set.
pub clock-IsPolicy : IsPolicy clock IsValid (λ c. c.max_ppage_id) clock_holds
clock-IsPolicy = record {
  inside = clock_inside;
  sizes = clock_sizes;
  pushes = λ c i valid lt. let r = push-Holds c valid i lt in (r.0, r.1, clock-Becomes r.2);
  accesses =
      λ c i valid lt held. let r = access-Holds c valid i lt held in (r.0, r.1, clock-Becomes r.2);
  erases = λ c i valid lt. (Clock.erase i c, refl, clock-Becomes (erase-Holds c valid i lt));
  pops = λ c i valid held.
      let r = pop-Pops c valid (clock_counts c i valid held) in
      (r.0, r.1, (r.2.taken.1, clock-Becomes r.2.holds));
}

abbrev pub lru_holds : Lru → ℕ → Bool
lru_holds l j = not (is_null (position l j))

-- The list of pages says which pages are held.
lru_holds-occ : (l : Lru) → IsLru l → (j : ℕ) → lru_holds l j ≡ ltb 0 (occ j (pages l.list))
lru_holds-occ l valid j = elim (Option-cases (position l j)) [
  | inl e ↦ let m = (held-occ l valid j).1 in ground (arith, m)
  | inr (k, e) ↦ let m = (held-occ l valid j).0 (λ z. ground (arith, e, z)) in ground (arith, m)
]

lru_size : (l : Lru) (i : ℕ) → IsLru l → lru_holds l i ≡ true → 0 < Lru.size l
unfolding occ pages Lru.size
lru_size l i valid held = elim (List-cases l.list) [
  | inl e ↦ absurd (ground (arith, lru_holds-occ l valid i, ap (λ xs. occ i (pages xs)) e))
  | inr (x, xs, e) ↦ omega (arith, ap length e)
]

lru_inside : (l : Lru) (i : ℕ) → IsLru l → lru_holds l i ≡ true → i < l.max_ppage_id
lru_inside l i valid held = elim (dec_lt i (length l.states)) [
  | yes lt ↦ rw (← valid.sized) lt
  | no ge ↦ absurd (ground (arith, get_or_outside l.states i none (omega arith)))
]

lru_sizes : (l : Lru) → IsLru l → Lru.size l ≡ number (lru_holds l) l.max_ppage_id
unfolding Lru.size
lru_sizes l valid =
    let held = λ (j : ℕ). lru_holds-occ l valid j in
    let all =
      number-occ l.max_ppage_id (pages l.list)
        (λ j.
          pages_once j l.list valid.once
            (λ k m e e'. ground (arith, valid.pointed j k e, valid.pointed j m e')))
        (λ j m. lru_inside l j valid (ground (arith, held j, m))) in
    let same =
      number-congr (λ j. ltb 0 (occ j (pages l.list))) (lru_holds l) l.max_ppage_id
        (λ j lt. held j) in
    sym (same ∙ all ∙ length-pages l.list)

lru-Becomes :
    {l m : Lru} {f : ℕ → Bool}
    → IsLru l
    → Follows l m
    → ((j : ℕ) → ltb 0 (occ j (pages m.list)) ≡ f j)
    → Becomes lru IsLru (λ l. l.max_ppage_id) lru_holds l f m
lru-Becomes {m} valid follows same = record {
  is_valid = follows.valid;
  same_bound = follows.same_max;
  reads = λ j. lru_holds-occ m follows.valid j ∙ same j;
}

-- Class `LRU`, on its valid states, is a policy for the pages that its list holds: `push`, `access`,
-- `erase` and `pop` act on them as on a set, `pop` taking a page of the set.
pub lru-IsPolicy : IsPolicy lru IsLru (λ l. l.max_ppage_id) lru_holds
unfolding occ
lru-IsPolicy = record {
  inside = lru_inside;
  sizes = lru_sizes;
  pushes = λ l i valid lt.
      let r = push-IsLru l valid i lt in
      (
        r.0,
        r.1,
        lru-Becomes valid r.2.0 (λ j.
            ground (arith, r.2.1, lru_holds-occ l valid j, occ-without_other j i (pages l.list))),
      );
  accesses = λ l i valid lt held.
      let r = (access-IsLru l valid i).0 (λ e. ground (arith, e)) in
      (
        r.0,
        r.1,
        lru-Becomes valid r.2.0 (λ j.
            ground
              (arith, r.2.1, held, lru_holds-occ l valid j, occ-without_other j i (pages l.list))),
      );
  erases = λ l i valid lt.
      let r = erase-IsLru l valid i in
      (
        r.0,
        r.1,
        lru-Becomes valid r.2.0 (λ j. ground (
          arith,
          r.2.1,
          r.2.2,
          lru_holds-occ l valid j,
          occ-without_other j i (pages l.list),
          lru_holds-occ r.0 r.2.0.valid i,
        )),
      );
  pops = λ l i valid held.
      let r = (pop-IsLru l valid).0 (lru_size l i valid held) in
      let order : (j : ℕ) → occ j (pages l.list) ≡ occ j (pages r.0.2.list) + occ j (r.0.0 ∷ []) =
        λ j. ap (occ j) r.2.1 ∙ occ-append j (pages r.0.2.list) (r.0.0 ∷ []) in
      (
        r.0,
        r.1,
        (
          ground (arith, order r.0.0, lru_holds-occ l valid r.0.0),
          lru-Becomes valid r.2.0 (λ j.
              ground (
                arith,
                order j,
                lru_holds-occ l valid j,
                r.2.2,
                lru_holds-occ r.0.2 r.2.0.valid j,
              )),
        ),
      );
}

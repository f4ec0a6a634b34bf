-- ===== src/DirectCache/Laws.antt =====
-- The pages that `DirectCache` of include/direct_cache.hpp keeps pinned.
use tri_cache.DirectCache.{
  Below, DirectCache, Slot, no_page, no_slot, slot_at, dirty_at, slot_of, mark_slot, give_back,
  empty_slot, take_slot, flush_from, flush, access, new_direct_cache,
}
use Prim.Native.Nat.{min, bit_and, digits, bit_and-bitwise}
use tri_cache.Base.{
  Option, none, some, not, ◌&&◌, true, ap, ℕ, zero, suc, ◌+◌, ◌-◌, ◌/◌, ◌≤◌, ◌<◌, ◌≡◌, ◌≢◌, ◌==◌,
  ◌∙◌, ◌||◌, if◌then◌else◌, Bool, false, get_or, set, length, get_or-set, length-set,
  get_or-replicate, length-replicate, ==_refl, ap, refl, arith, inl, inr, Bool-cases,
}

digits_le : (n a b : ℕ) → digits (λ b. zero) min n a b ≤ b
digits_le zero a b = omega arith
digits_le (suc n) zero b = omega arith
digits_le (suc n) (suc a) b = omega (arith, digits_le n (suc a / 2) (b / 2))

and_le : (a b : ℕ) → bit_and a b ≤ b
and_le a b = omega (arith, bit_and-bitwise a b, digits_le a a b)

module _ {P W : Type 0} (below : Below P W) (null : P) (pins : W → ℕ → ℕ) (valid : W → Type 0)
    (pin_valid : (v : ℕ) (w : W) → valid w → pins w v ≡ 0 → valid (below.pin v w).1)
    (unpin_valid : (v : ℕ) (b : Bool) (w : W) → valid w → 0 < pins w v → valid (below.unpin v b w))
    (pin_adds : (v : ℕ) (w : W)
      → valid w
      → pins w v ≡ 0
      → (p : ℕ)
      → pins (below.pin v w).1 p
        ≡ pins w p + (if not (below.thrown (below.pin v w).1) && v == p then 1 else 0))
    (unpin_takes : (v : ℕ) (b : Bool) (w : W)
      → valid w
      → 0 < pins w v
      → (p : ℕ) → pins (below.unpin v b w) p ≡ pins w p - (if v == p then 1 else 0)) where
  -- A page is pinned once where it is in its slot, and else not at all.
  pub record Keeps (c : DirectCache P W) : Type 0 where
    pub good : valid c.world
    pub some_slots : 0 < c.num_pinned
    pub sized : (length c.store ≡ c.num_pinned) × (length c.dirty ≡ c.num_pinned)
    pub counted :
        (p : ℕ)
        → p ≢ no_page
        → pins c.world p
          ≡ (if (slot_at below null c (slot_of below null c p)).first == p then 1 else 0)
    pub placed :
        (i : ℕ)
        → (slot_at below null c i).first ≢ no_page
        → slot_of below null c (slot_at below null c i).first ≡ i

  in_range : (c : DirectCache P W) → Keeps c → (v : ℕ) → slot_of below null c v < c.num_pinned
  in_range c k v = omega (arith, and_le v (c.num_pinned - 1), k.some_slots)

  -- The mark of a slot does not matter.
  mark-Keeps :
      (c : DirectCache P W) (i : ℕ) (b : Bool)
      → Keeps c
      → Keeps (record c { dirty = set c.dirty i b })
  mark-Keeps c i b k = record {
    good = k.good;
    some_slots = k.some_slots;
    sized = (k.sized.0, length-set c.dirty i b ∙ k.sized.1);
    counted = k.counted;
    placed = k.placed;
  }

  -- The page in a slot is pinned.
  slot_pinned :
      (c : DirectCache P W) (i : ℕ)
      → Keeps c
      → (slot_at below null c i).first ≢ no_page
      → 0 < pins c.world (slot_at below null c i).first
  slot_pinned c i k held =
      let first = (slot_at below null c i).first in
      rw (k.counted first held, k.placed i held, ==_refl first) (omega arith)

  given_back_valid :
      (c : DirectCache P W) (i : ℕ) → Keeps c → valid (give_back below null i c).world
  given_back_valid c i k =
      let first = (slot_at below null c i).first in
      elim (Bool-cases (first == no_page)) [
        | inl unused ↦ rw unused k.good
        | inr held ↦ rw held (
            unpin_valid first (dirty_at below null c i) c.world k.good
              (slot_pinned c i k (λ e. absurd (ground (arith, e, held)))))
      ]

  -- The world once the page of a slot is given back.
  given_back :
      (c : DirectCache P W) (i p : ℕ)
      → Keeps c
      → p ≢ no_page
      → i < c.num_pinned
      → pins (give_back below null i c).world p ≡ (
          if i == slot_of below null c p
          then 0
          else if (slot_at below null c (slot_of below null c p)).first == p
          then 1
          else 0)
  given_back c i p k real lt =
      let first = (slot_at below null c i).first in
      elim (Bool-cases (first == no_page)) [
        | inl unused ↦ rw unused (ground (arith, k.counted p real))
        | inr held ↦ rw held (
            ground (
              arith,
              unpin_takes first (dirty_at below null c i) c.world k.good
                  (slot_pinned c i k (λ e. absurd (ground (arith, e, held)))) p,
              k.counted p real,
              k.placed i,
            ))
      ]

  module _ (c : DirectCache P W) (v : ℕ) (real : v ≢ no_page) (k : Keeps c)
      (other : ((slot_at below null c (slot_of below null c v)).first == v) ≡ false) where
    abbrev i : ℕ
    i = slot_of below null c v

    abbrev between : W
    between = (give_back below null i c).world

    abbrev w : W
    w = (below.pin v between).1

    between_free : pins between v ≡ 0
    between_free = ground (arith, given_back c i v k real (in_range c k v))

    abbrev filled : DirectCache P W
    filled = record c {
      store = set c.store i (record { first = v; second = (below.pin v between).0 });
      dirty = set c.dirty i false;
      world = w;
    }

    filled-Keeps : below.thrown w ≡ false → Keeps filled
    filled-Keeps calm =
        let lt = in_range c k v in
        let new : Slot P = record { first = v; second = (below.pin v between).0 } in
        let read = λ (j : ℕ). get_or-set c.store i j new (no_slot below null) (rw k.sized.0 lt) in
        record {
          good = pin_valid v between (given_back_valid c i k) between_free;
          some_slots = k.some_slots;
          sized = (length-set c.store i new ∙ k.sized.0, length-set c.dirty i false ∙ k.sized.1);
          counted = λ p p_real.
              let same_slot : v ≡ p → i ≡ slot_of below null c p =
                λ e. ap (slot_of below null c) e in
              ground (
                arith,
                pin_adds v between (given_back_valid c i k) between_free p,
                calm,
                given_back c i p k p_real lt,
                read (slot_of below null c p),
                same_slot,
              );
          placed = λ j held. ground (arith, read j, k.placed j, held);
        }

    abbrev stale : DirectCache P W
    stale = record c {
      store = set c.store i (record { first = v; second = (slot_at below null c i).second });
      world = w;
    }

    takes :
        below.thrown w ≡ false → take_slot below null v c ≡ (some (below.pin v between).0, filled)
    unfolding take_slot
    takes calm = rw calm refl

    throws : below.thrown w ≡ true → take_slot below null v c ≡ (none, stale)
    unfolding take_slot
    throws thrown = rw thrown refl

    -- What `access` goes on with.
    abbrev go_on : Bool → Option P × DirectCache P W → Option P × DirectCache P W
    go_on is_write t = elim t.0 [
      | none ↦ (none, t.1)
      | some p ↦ mark_slot below null i is_write t.1
    ]

    access_takes :
        (is_write : Bool)
        → below.thrown w ≡ false
        → access below null v is_write c ≡ mark_slot below null i is_write filled
    unfolding access
    access_takes is_write calm = rw other (ap (go_on is_write) (takes calm))

    access_throws :
        (is_write : Bool) → below.thrown w ≡ true → access below null v is_write c ≡ (none, stale)
    unfolding access
    access_throws is_write thrown = rw other (ap (go_on is_write) (throws thrown))

  access_here :
      (c : DirectCache P W) (v : ℕ) (is_write : Bool)
      → ((slot_at below null c (slot_of below null c v)).first == v) ≡ true
      → access below null v is_write c ≡ mark_slot below null (slot_of below null c v) is_write c
  unfolding access
  access_here c v is_write here = rw here refl

  -- What `access` leaves where it does not throw.
  abbrev pub Accessed : DirectCache P W → ℕ → Bool → P → DirectCache P W → Type 0
  Accessed c v is_write pointer d =
      let i = slot_of below null c v in
      Keeps d
      × (slot_at below null d i ≡ record { first = v; second = pointer })
      × (dirty_at below null d i ≡ (
          (if (slot_at below null c i).first == v then dirty_at below null c i else false)
          || is_write))

  -- What it leaves where the pin has thrown.
  abbrev pub Stale : DirectCache P W → ℕ → DirectCache P W → Type 0
  Stale c v d =
      let i = slot_of below null c v in
      (below.thrown d.world ≡ true)
      × ((slot_at below null c i).first ≢ v)
      × ((slot_at below null d i).first ≡ v)
      × (pins d.world v ≡ 0)

  -- On a cache that keeps pinned the pages in its slots, each once, over a cache below in a valid
  -- world, where a `pin` of a page that is not pinned counts it or throws and an `unpin` of a
  -- pinned page takes it back, `access` of a page other than `EMPTY`: where it returns a pointer,
  -- this is kept up, and the page is in its slot with that pointer, marked dirty if it was in the
  -- slot and marked before, or if it is written; where it throws, the page was not in its slot
  -- before, and is now, though it is not pinned.
  pub access-Keeps :
      (c : DirectCache P W) (v : ℕ) (is_write : Bool)
      → v ≢ no_page
      → Keeps c
      → (let (pointer, d) = access below null v is_write c in
          (pointer ≡ none → Stale c v d) × ((p : P) → pointer ≡ some p → Accessed c v is_write p d))
  access-Keeps c v is_write real k =
      let i = slot_of below null c v in
      let lt = in_range c k v in
      elim (Bool-cases ((slot_at below null c i).first == v)) [
        | inl here ↦ rw (access_here c v is_write here) (
          λ thrown. cc,
          λ p gives. (
            mark-Keeps c i (dirty_at below null c i || is_write) k,
            ground (arith, here, gives),
            ground (
              arith,
              here,
              get_or-set c.dirty i i (dirty_at below null c i || is_write) false (rw k.sized.1 lt),
            ),
          ),
        )
        | inr other ↦ elim (Bool-cases (below.thrown (w c v real k other))) [
          | inl thrown ↦
              let pointer = (slot_at below null c i).second in
              let old : Slot P = record { first = v; second = pointer } in
              rw (access_throws c v real k other is_write thrown) (
                λ e. (
                  thrown,
                  λ same. absurd (ground (arith, same, other)),
                  ground (arith, get_or-set c.store i i old (no_slot below null) (rw k.sized.0 lt)),
                  ground (
                    arith,
                    pin_adds v (between c v real k other) (given_back_valid c i k)
                        (between_free c v real k other) v,
                    thrown,
                    between_free c v real k other,
                  ),
                ),
                λ p gives. cc,
              )
          | inr calm ↦
              let d = filled c v real k other in
              let new : Slot P = record {
                first = v;
                second = (below.pin v (between c v real k other)).0;
              } in
              let held : slot_at below null d i ≡ new =
                get_or-set c.store i i new (no_slot below null) (rw k.sized.0 lt)
                ∙ rw (==_refl i) refl in
              let clean : dirty_at below null d i ≡ false =
                get_or-set c.dirty i i false false (rw k.sized.1 lt) ∙ rw (==_refl i) refl in
              let marked : get_or (set d.dirty i (dirty_at below null d i || is_write)) i false
                  ≡ (dirty_at below null d i || is_write) =
                get_or-set d.dirty i i (dirty_at below null d i || is_write) false
                  (rw (length-set c.dirty i false, k.sized.1) lt)
                ∙ rw (==_refl i) refl in
              rw (access_takes c v real k other is_write calm) (
                λ e. cc,
                λ p gives. (
                  mark-Keeps d i _ (filled-Keeps c v real k other calm),
                  ground (arith, held, gives),
                  ground (arith, other, clean, marked),
                ),
              )
        ]
      ]

  empty-Keeps :
      (c : DirectCache P W) (i : ℕ)
      → i < c.num_pinned
      → Keeps c
      → Keeps (empty_slot below null i c)
        × ((j : ℕ)
            → (slot_at below null (empty_slot below null i c) j).first
              ≡ (if i == j then no_page else (slot_at below null c j).first))
  empty-Keeps c i lt k =
      let read = λ (j : ℕ).
        get_or-set c.store i j (no_slot below null) (no_slot below null) (rw k.sized.0 lt) in
      (
        record {
          good = given_back_valid c i k;
          some_slots = k.some_slots;
          sized = (
            length-set c.store i (no_slot below null) ∙ k.sized.0,
            length-set c.dirty i false ∙ k.sized.1,
          );
          counted = λ p p_real.
              ground (arith, given_back c i p k p_real lt, read (slot_of below null c p), p_real);
          placed = λ j held. ground (arith, read j, k.placed j, held);
        },
        λ j. ground (arith, read j),
      )

  empties :
      (n i : ℕ) (c : DirectCache P W)
      → n + i ≡ c.num_pinned
      → Keeps c
      → ((j : ℕ) → j < i → (slot_at below null c j).first ≡ no_page)
      → Keeps (flush_from below null n i c)
        × ((flush_from below null n i c).num_pinned ≡ c.num_pinned)
        × ((j : ℕ)
            → j < c.num_pinned
            → (slot_at below null (flush_from below null n i c) j).first ≡ no_page)
  unfolding flush_from
  empties zero i c all k done = (k, refl, λ j lt. done j (omega (arith, lt, all)))
  empties (suc n) i c all k done =
      let (kept, read) = empty-Keeps c i (omega (arith, all)) k in
      empties n (i + 1) (empty_slot below null i c) (omega (arith, all)) kept
        (λ j lt. ground (arith, read j, done j, lt))

  -- On a cache that keeps pinned the pages in its slots, each once, over a cache below that counts
  -- pins, `flush` keeps this up and leaves no page other than `EMPTY` pinned.
  pub flush-Keeps :
      (c : DirectCache P W)
      → Keeps c
      → Keeps (flush below null c) × ((p : ℕ) → p ≢ no_page → pins (flush below null c).world p ≡ 0)
  unfolding flush
  flush-Keeps c k =
      let (kept, same, empty) =
        empties c.num_pinned 0 c (omega arith) k (λ j lt. absurd (omega (arith, lt))) in
      (
        kept,
        λ p real. ground (
          arith,
          kept.counted p real,
          empty (slot_of below null (flush_from below null c.num_pinned 0 c) p)
              (omega (arith, same, in_range (flush_from below null c.num_pinned 0 c) kept p)),
          real,
        ),
      )

  pub new-Keeps :
      (n : ℕ) (w : W)
      → valid w
      → 0 < n
      → ((p : ℕ) → pins w p ≡ 0)
      → Keeps (new_direct_cache below null n w)
  unfolding new_direct_cache
  new-Keeps n w good some_slots none_pinned =
      let empty = λ (j : ℕ). get_or-replicate n j (no_slot below null) in
      record {
        good = good;
        some_slots = some_slots;
        sized = (length-replicate n (no_slot below null), length-replicate n false);
        counted = λ p real. ground (
          arith,
          none_pinned p,
          empty (slot_of below null (new_direct_cache below null n w) p),
          real,
        );
        placed = λ j held. absurd (held (rw (empty j) refl));
      }

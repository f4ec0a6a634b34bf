-- ===== src/BlockAllocator/Tiles.antt =====
-- The blocks of the allocators of include/mmap_allocator.hpp and include/cached_allocator.hpp do not overlap.
use mathlib.Core.Path.{subst}
use native.Mathlib.Nat.{pow-le-pow_right, one-le-pow}
use tri_cache.BlockAllocator.{
  Allocator, Recycle, new_allocator, pop, push, is_small, free_of, with_free, take_new,
  allocate_order, deallocate_order, null_offset, max_order, large_block_order_threshold,
}
use tri_cache.Base.{
  ℕ, zero, suc, ◌+◌, ◌-◌, ◌%◌, ◌^◌, ◌≤◌, ◌<◌, ◌≡◌, ◌≢◌, if◌then◌else◌, ltb, leb, ◌&&◌, refl, arith,
  inl, inr, Bool-cases, ap, ◌∙◌, List, [], ◌∷◌, Option, none, some, get_or, set, length, tally,
  tally-set, tally_two, tally_one, length-set, get_or-set, List-cases, ==_eq_false, tally-replicate,
  replicate, length-replicate,
}

-- A block: its offset and its order.
abbrev pub Block : Type 0
Block = ℕ × ℕ

abbrev pub covers : ℕ → Block → ℕ
covers x b = if leb b.0 x && ltb x (b.0 + 2 ^ b.1) then 1 else 0

-- How many free blocks cover an address, the lists being those of the orders from `k` on.
unfoldable pub orders : ℕ → ℕ → Recycle → ℕ
orders x k [] = 0
orders x k (l ∷ ls) = tally (λ o. covers x (o, k)) l + orders x (k + 1) ls

unfoldable pub remove {ℓ} : {A : Type ℓ} → List A → ℕ → List A
remove [] i = []
remove (x ∷ xs) zero = xs
remove (x ∷ xs) (suc i) = x ∷ remove xs i

pub tally-remove {ℓ} :
    {A : Type ℓ} (w : A → ℕ) (xs : List A) (i : ℕ) (d : A)
    → i < length xs
    → tally w (remove xs i) + w (get_or xs i d) ≡ tally w xs
unfolding remove tally get_or
tally-remove w [] i d h = absurd (omega (arith, h))
tally-remove w (x ∷ xs) zero d h = omega arith
tally-remove w (x ∷ xs) (suc i) d h = omega (arith, tally-remove w xs i d (omega (arith, h)))

orders-set :
    (x k : ℕ) (ls : Recycle) (i : ℕ) (l : List ℕ)
    → i < length ls
    → orders x k (set ls i l) + tally (λ o. covers x (o, k + i)) (get_or ls i [])
      ≡ orders x k ls + tally (λ o. covers x (o, k + i)) l
unfolding orders set get_or
orders-set x k [] i l h = absurd (omega (arith, h))
orders-set x k (m ∷ ls) zero l h = let here : k + 0 ≡ k = omega arith in rw here (omega arith)
orders-set x k (m ∷ ls) (suc i) l h =
    let there : k + suc i ≡ k + 1 + i = omega arith in
    rw there (omega (arith, orders-set x (k + 1) ls i l (omega (arith, h))))

-- The free blocks and those in use tile the space that has been used.
pub record Tiles (a : Allocator) (live : List Block) : Type 0 where
  pub tiled :
      (x : ℕ)
      → tally (orders x 0) a.free_blocks + orders x 0 a.large_free_blocks + tally (covers x) live
        ≡ (if leb a.base_offset x && ltb x (a.base_offset + a.used_size) then 1 else 0)
  pub large_lists : length a.large_free_blocks ≡ max_order
  pub small_lists :
      (t : ℕ)
      → t < length a.free_blocks
      → length (get_or a.free_blocks t []) ≡ large_block_order_threshold
  pub limited : (a.base_offset ≤ 2 ^ 62) × (a.total_size ≤ 2 ^ 62) × (a.used_size ≤ 2 ^ 62 + 2 ^ 61)

-- What the allocation of a block comes to.
abbrev pub Allocated : Allocator → List Block → ℕ → Option ℕ → Allocator → Type 0
Allocated a live order none b = Tiles b live × (a.total_size ≤ a.used_size)
Allocated a live order (some offset) b = Tiles b ((offset, order) ∷ live)

-- Blocks of one order.
abbrev in_list : ℕ → ℕ → List ℕ → ℕ
in_list x order l = tally (λ o. covers x (o, order)) l

orders_put :
    (x : ℕ) (ls : Recycle) (i : ℕ) (l : List ℕ)
    → i < length ls
    → orders x 0 (set ls i l) + in_list x i (get_or ls i []) ≡ orders x 0 ls + in_list x i l
orders_put x ls i l h =
    let start : 0 + i ≡ i = omega arith in
    subst
      (λ (k : ℕ).
        orders x 0 (set ls i l) + in_list x k (get_or ls i []) ≡ orders x 0 ls + in_list x k l)
      start (orders-set x 0 ls i l h)

abbrev free_cover : ℕ → Allocator → ℕ
free_cover x a = tally (orders x 0) a.free_blocks + orders x 0 a.large_free_blocks

-- `b` is `a` with the free list of an order changed from `old` to `l`.
record Changed (a : Allocator) (order : ℕ) (old l : List ℕ) (b : Allocator) : Type 0 where
  cover : (x : ℕ) → free_cover x b + in_list x order old ≡ free_cover x a + in_list x order l
  same :
      (b.base_offset ≡ a.base_offset)
      × (b.total_size ≡ a.total_size)
      × (b.used_size ≡ a.used_size)
      × (length b.free_blocks ≡ length a.free_blocks)
  large_lists : length b.large_free_blocks ≡ max_order
  small_lists :
      (t : ℕ)
      → t < length b.free_blocks
      → length (get_or b.free_blocks t []) ≡ large_block_order_threshold

pop_some :
    (free : Recycle) (order offset : ℕ) (rest : List ℕ)
    → get_or free order [] ≡ offset ∷ rest
    → pop free order ≡ (offset, set free order rest)
unfolding pop
pop_some free order offset rest is = rw (is, pop) refl

pub pop_none :
    (free : Recycle) (order : ℕ) → get_or free order [] ≡ [] → pop free order ≡ (null_offset, free)
unfolding pop
pop_none free order is = rw (is, pop) refl

module _ (a : Allocator) (live : List Block) (t : Tiles a live) (thread order : ℕ)
    (known : thread < length a.free_blocks) (medium : order ≤ 61) where
  abbrev old : List ℕ
  old = get_or (free_of a thread order) order []

  changes :
      (l : List ℕ)
      → Changed a order old l (with_free a thread order (set (free_of a thread order) order l))
  changes l = elim (Bool-cases (is_small order)) [
    | inl small ↦
        let mine = get_or a.free_blocks thread [] in
        let long = t.small_lists thread known in
        let inside : order < length mine = ground (arith, long) in
        rw small (record {
          cover = λ x. omega (
            arith,
            orders_put x mine order l inside,
            tally-set (orders x 0) a.free_blocks thread (set mine order l) [] known,
          );
          same = (refl, refl, refl, length-set a.free_blocks thread (set mine order l));
          large_lists = t.large_lists;
          small_lists = λ k lt. ground (
            arith,
            get_or-set a.free_blocks thread k (set mine order l) [] known,
            t.small_lists k,
            length-set mine order l,
            length-set a.free_blocks thread (set mine order l),
            long,
          );
        })
    | inr big ↦
        let inside : order < length a.large_free_blocks = omega (arith, t.large_lists, medium) in
        rw big (record {
          cover = λ x. omega (arith, orders_put x a.large_free_blocks order l inside);
          same = (refl, refl, refl, refl);
          large_lists = length-set a.large_free_blocks order l ∙ t.large_lists;
          small_lists = t.small_lists;
        })
  ]

  small_block : 2 ^ order ≤ 2 ^ 61
  small_block = pow-le-pow_right (omega arith) medium

  takes : (let (r, b) = take_new a order in Allocated a live order r b)
  unfolding tally
  takes =
      let block_size = 2 ^ order in
      let few : block_size ≤ 2 ^ 61 = small_block in
      let (low, total, used) = t.limited in
      let whole : 2 ^ order % 2 ^ 64 ≡ 2 ^ order = omega (arith, few) in
      let added : (a.used_size + block_size) % 2 ^ 64 ≡ a.used_size + block_size =
        omega (arith, few, used) in
      elim (Bool-cases (leb a.total_size a.used_size)) [
        | inl full ↦
            let restored : (a.used_size + block_size + 2 ^ 64 - block_size) % 2 ^ 64 ≡ a.used_size =
              omega (arith, few, used) in
            rw (whole, full, added, restored) (t, ground (arith, full))
        | inr room ↦
            let more : a.used_size < a.total_size = ground (arith, room) in
            let placed : (a.used_size + a.base_offset) % 2 ^ 64 ≡ a.used_size + a.base_offset =
              omega (arith, low, used) in
            rw (whole, room, added, placed)
              (record {
                tiled = λ x. ground (arith, t.tiled x);
                large_lists = t.large_lists;
                small_lists = t.small_lists;
                limited = (low, total, omega (arith, more, total, few));
              })
      ]

  -- A free block lies inside the space, so its offset is not `NULL_OFFSET`.
  free_real : (offset : ℕ) (rest : List ℕ) → old ≡ offset ∷ rest → offset ≢ null_offset
  unfolding tally
  free_real offset rest is same =
      let taken = (changes []).cover offset in
      let covered : covers offset (offset, order) ≡ 1 = ground (arith, one-le-pow order 2) in
      let parts : in_list offset order old
          ≡ covers offset (offset, order) + in_list offset order rest =
        ap (in_list offset order) is in
      let some_free : 0 < free_cover offset a = omega (arith, taken, covered, parts) in
      ground (arith, t.tiled offset, some_free, t.limited, same)

  pub allocate_order-Tiles :
      (let (r, b) = allocate_order thread order a in Allocated a live order r b)
  unfolding allocate_order tally
  allocate_order-Tiles = elim (List-cases old) [
    | inl none_free ↦ rw (pop_none (free_of a thread order) order none_free) takes
    | inr (offset, rest, is) ↦
        let c = changes rest in
        let other = ==_eq_false offset null_offset (free_real offset rest is) in
        let (base, total, used, threads) = c.same in
        rw (pop_some (free_of a thread order) order offset rest is, other)
          (record {
            tiled = λ x.
                let parts : in_list x order old ≡ covers x (offset, order) + in_list x order rest =
                  ap (in_list x order) is in
                rw (base, used) (omega (arith, t.tiled x, c.cover x, parts));
            large_lists = c.large_lists;
            small_lists = c.small_lists;
            limited = rw (base, total, used) t.limited;
          })
  ]

  pub deallocate_order-Tiles :
      (i offset : ℕ)
      → i < length live
      → get_or live i (0, 0) ≡ (offset, order)
      → Tiles (deallocate_order thread offset order a) (remove live i)
  unfolding deallocate_order push tally
  deallocate_order-Tiles i offset inside is =
      let c = changes (offset ∷ old) in
      let (base, total, used, threads) = c.same in
      record {
        tiled = λ x.
            let mine : covers x (get_or live i (0, 0)) ≡ covers x (offset, order) =
              ap (covers x) is in
            rw (base, used)
              (omega
                (arith, t.tiled x, c.cover x, mine, tally-remove (covers x) live i (0, 0) inside));
        large_lists = c.large_lists;
        small_lists = c.small_lists;
        limited = rw (base, total, used) t.limited;
      }

-- In an allocator whose free blocks and blocks in use cover each used address once, two different
-- blocks in use have no address in common, and every address of a block in use is inside the space
-- that has been used.
pub live_apart :
    (a : Allocator) (live : List Block) (i j x : ℕ)
    → Tiles a live
    → i < length live
    → j < length live
    → i ≢ j
    → (covers x (get_or live i (0, 0)) + covers x (get_or live j (0, 0)) ≤ 1)
      × (covers x (get_or live i (0, 0)) ≡ 1
          → (a.base_offset ≤ x) × (x < a.base_offset + a.used_size))
live_apart a live i j x t in_i in_j other =
    let two = tally_two (covers x) live i j (0, 0) in_i in_j other in
    let one = tally_one (covers x) live i (0, 0) in_i in
    (ground (arith, t.tiled x, two), λ covered. ground (arith, t.tiled x, one, covered))

orders-none : (x k n : ℕ) → orders x k (replicate n []) ≡ 0
unfolding orders replicate tally
orders-none x k zero = refl
orders-none x k (suc n) = omega (arith, orders-none x (k + 1) n)

get_or-replicate_inside {ℓ} :
    {A : Type ℓ} (n i : ℕ) (a d : A) → i < length (replicate n a) → get_or (replicate n a) i d ≡ a
unfolding replicate get_or
get_or-replicate_inside zero i a d h = absurd (omega (arith, h))
get_or-replicate_inside (suc n) zero a d h = refl
get_or-replicate_inside (suc n) (suc i) a d h = get_or-replicate_inside n i a d (omega (arith, h))

pub new-Tiles :
    (n total_size base_offset : ℕ)
    → base_offset ≤ 2 ^ 62
    → total_size ≤ 2 ^ 62
    → Tiles (new_allocator n total_size base_offset) []
unfolding new_allocator tally
new-Tiles n total_size base_offset low total = record {
  tiled = λ x. ground (
    arith,
    tally-replicate (orders x 0) n (replicate large_block_order_threshold [])
        (orders-none x 0 large_block_order_threshold),
    orders-none x 0 max_order,
  );
  large_lists = length-replicate max_order [];
  small_lists = λ t lt.
      ap length (get_or-replicate_inside n t (replicate large_block_order_threshold []) [] lt)
      ∙ length-replicate large_block_order_threshold [];
  limited = (low, total, omega arith);
}

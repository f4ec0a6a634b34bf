-- ===== src/Replacement/Lru/Laws.antt =====
-- The order of the pages in class `LRU` of include/replacement.hpp.
use tri_cache.Replacement.Lru.{
  take_node, Lru, Node, new, position, push, access, erase, pop, size, as_int, back_or_zero,
  split_last,
}
use tri_cache.Replacement.Lru.Nodes.{
  holder, page_of-occ, pages, id_count, page_of, page_of-counted, Taken, take_node-Taken, Split,
  split_last-Split,
}
use mathlib.Core.Path.{subst}
use tri_cache.PageTable.Chain.{occ, last_of}
use tri_cache.PageTable.Chain.Edit.{without}
use tri_cache.Base.{
  ◌^◌, is_null, ◌↔◌, ℕ, suc, ◌≤◌, ◌<◌, ◌≡◌, ◌≢◌, ◌==◌, if◌then◌else◌, List, [], ◌∷◌, ◌++◌, length,
  get_or, set, get_or-set, get_or_outside, get_or-replicate, length-set, length-replicate, Option,
  none, some, arith, refl, ap, sym, ◌∙◌, Option-cases, List-cases, inl, inr, Returns, dec_lt,
}

-- The iterators and the nodes agree.
pub record IsLru (l : Lru) : Type 0 where
  pub sized : length l.states ≡ l.max_ppage_id
  pub points : (i k : ℕ) → position l i ≡ some k → page_of k l.list ≡ some i
  pub pointed : (i k : ℕ) → page_of k l.list ≡ some i → position l i ≡ some k
  pub once : (k : ℕ) → id_count k l.list ≤ 1
  pub fresh : (k : ℕ) → 0 < id_count k l.list → k < l.next_id

-- `m` is a valid state for as many pages as `l`.
pub record Follows (l m : Lru) : Type 0 where
  pub valid : IsLru m
  pub same_max : m.max_ppage_id ≡ l.max_ppage_id

pub new-IsLru : (max : ℕ) → IsLru (new max)
unfolding new id_count page_of
new-IsLru max = record {
  sized = length-replicate max none;
  points = λ i k e. ground (arith, get_or-replicate {A = Option ℕ} max i none);
  pointed = λ i k e. cc;
  once = λ k. ground arith;
  fresh = λ k m. ground arith;
}

module _ (l : Lru) (valid : IsLru l) (i : ℕ) where
  held-lt : (k : ℕ) → position l i ≡ some k → i < l.max_ppage_id
  held-lt k e = elim (dec_lt i (length l.states)) [
    | yes lt ↦ omega (arith, valid.sized)
    | no ge ↦ absurd (ground (arith, get_or_outside l.states i none (omega arith)))
  ]

  -- The node of a page that is held can be taken out.
  taken :
      (k : ℕ)
      → position l i ≡ some k
      → (r : Node × List Node) × (take_node k l.list ≡ some r) × Taken k i l.list r
  taken k e =
      take_node-Taken k i l.list (valid.points i k e) valid.once
        (λ j f. ground (arith, valid.pointed i j f))

  -- In a valid state, `access` of a page that the list holds moves it to the front, keeps the others in
  -- their order and all iterators, and the state is valid; of a page that the list does not hold, its
  -- assertion fails.
  pub access-IsLru :
      (position l i ≢ none
        → Returns (access i l) (λ m.
          Follows l m × (pages m.list ≡ i ∷ without i (pages l.list)) × (m.states ≡ l.states)))
      × (position l i ≡ none → access i l ≡ none)
  unfolding access pages id_count page_of
  access-IsLru = (
    λ held. elim (Option-cases (position l i)) [
      | inl e ↦ absurd (held e)
      | inr (k, e) ↦
          let (r, runs, t) = taken k e in
          (
            record l { list = r.0 ∷ r.1 },
            ground (arith, e, runs),
            (
              record {
                valid = record {
                  sized = valid.sized;
                  points = λ j n f. ground (
                    arith,
                    valid.points j n f,
                    t.node,
                    t.finds n,
                    valid.points i k e,
                    valid.pointed j n,
                  );
                  pointed = λ j n f. ground (arith, valid.pointed j n, t.node, t.finds n);
                  once = λ n. ground (arith, t.node, t.counts n, valid.once n);
                  fresh = λ n m. ground (arith, t.node, t.counts n, valid.fresh n);
                };
                same_max = refl;
              },
              ground (arith, t.node, t.left),
              refl,
            ),
          )
    ],
    λ e. ground arith,
  )

  -- In a valid state, the iterator of a page is not `end()` exactly when the list holds the page.
  pub held-occ : (position l i ≢ none) ↔ (0 < occ i (pages l.list))
  held-occ = (
    λ held. elim (Option-cases (position l i)) [
      | inl e ↦ absurd (held e)
      | inr (k, e) ↦ page_of-occ i k l.list (valid.points i k e)
    ],
    λ m e. let (k, f) = holder i l.list m valid.once in ground (arith, valid.pointed i k f),
  )

  -- In a valid state, `push` of a page in bounds returns a valid state with that page at the front, taken
  -- from where it was if the list held it, and the others in their order.
  pub push-IsLru :
      i < l.max_ppage_id
      → Returns (push i l) (λ m.
        Follows l m
        × (pages m.list
            ≡ i ∷ (if is_null (position l i) then pages l.list else without i (pages l.list))))
  unfolding push pages id_count page_of
  push-IsLru lt = elim (Option-cases (position l i)) [
    | inr (k, e) ↦
        let a = access-IsLru.0 (λ z. ground (arith, e, z)) in
        (a.0, ground (arith, e, a.1), (a.2.0, ground (arith, e, a.2.1)))
    | inl e ↦
        let writes : (j : ℕ)
            → get_or (set l.states i (some l.next_id)) j none
              ≡ (if i == j then some l.next_id else position l j) =
          λ j. get_or-set l.states i j (some l.next_id) none (omega (arith, valid.sized)) in
        (
          record l {
            list = record { id = l.next_id; page = i } ∷ l.list;
            states = set l.states i (some l.next_id);
            next_id = suc l.next_id;
          },
          ground (arith, e),
          (
            record {
              valid = record {
                sized = length-set l.states i _ ∙ valid.sized;
                points = λ j n f.
                    ground (
                      arith,
                      writes j,
                      valid.points j n,
                      valid.fresh n,
                      page_of-counted n j l.list,
                    );
                pointed = λ j n f. ground (arith, writes j, valid.pointed j n);
                once = λ n. ground (arith, valid.once n, valid.fresh n);
                fresh = λ n m. ground (arith, valid.fresh n);
              };
              same_max = refl;
            },
            ground (arith, e),
          ),
        )
  ]

  -- In a valid state, `erase` returns a valid state that does not hold the page, with the others in their
  -- order.
  pub erase-IsLru : Returns (erase i l) (λ m.
      Follows l m
      × (position m i ≡ none)
      × (pages m.list
          ≡ (if is_null (position l i) then pages l.list else without i (pages l.list))))
  unfolding erase
  erase-IsLru = elim (Option-cases (position l i)) [
    | inl e ↦
        (l, ground (arith, e), (record { valid = valid; same_max = refl }, e, ground (arith, e)))
    | inr (k, e) ↦
        let (r, runs, t) = taken k e in
        let writes : (j : ℕ)
            → get_or (set l.states i none) j none ≡ (if i == j then none else position l j) =
          λ j. get_or-set l.states i j none none (omega (arith, valid.sized, held-lt k e)) in
        (
          record l { list = r.1; states = set l.states i none },
          ground (arith, e, runs),
          (
            record {
              valid = record {
                sized = length-set l.states i _ ∙ valid.sized;
                points = λ j n f.
                    ground (arith, writes j, valid.points j n, t.finds n, e, valid.points i k);
                pointed = λ j n f.
                    ground (arith, writes j, valid.pointed j n, t.finds n, valid.pointed i n);
                once = λ n. ground (arith, t.counts n, valid.once n);
                fresh = λ n m. ground (arith, t.counts n, valid.fresh n);
              };
              same_max = refl;
            },
            ground (arith, writes i),
            ground (arith, e, t.left),
          ),
        )
  ]

split_last-none : split_last [] ≡ none
unfolding split_last
split_last-none = refl

last_of-append : (d q : ℕ) (xs : List ℕ) → last_of d (xs ++ q ∷ []) ≡ q
unfolding last_of
last_of-append d q [] = refl
last_of-append d q (x ∷ xs) = last_of-append x q xs

back_or_zero-last_of : (xs : List Node) → back_or_zero xs ≡ last_of 0 (pages xs)
unfolding split_last last_of pages
back_or_zero-last_of [] = refl
back_or_zero-last_of (x ∷ xs) =
    let (r, runs, s) = split_last-Split x xs in
    let oldest = ap (last_of 0) s.order ∙ last_of-append 0 r.1.page (pages r.0) in
    ground (arith, runs, oldest)

as_int-same : (i : ℕ) → i < 2 ^ 31 → as_int i ≡ i
as_int-same i small = ground arith

-- In a valid state with a page, `pop` takes the page used longest ago, whose iterator is `end()`
-- after it, and returns with it the one used longest ago of those left, or 0, as an `int` holds it,
-- which is that page if it is below 2^31; the order of the others stays and the state is valid.
-- With no page, its assertion fails.
pub pop-IsLru :
    (l : Lru)
    → IsLru l
    → (0 < size l
        → Returns (pop l) (λ r.
          Follows l r.2
          × (pages l.list ≡ pages r.2.list ++ r.0 ∷ [])
          × (r.1 ≡ as_int (last_of 0 (pages r.2.list)))
          × (last_of 0 (pages r.2.list) < 2 ^ 31 → r.1 ≡ last_of 0 (pages r.2.list))
          × (position r.2 r.0 ≡ none)))
      × (size l ≡ 0 → pop l ≡ none)
unfolding pop size
pop-IsLru l valid = (
  λ some_left. elim (List-cases l.list) [
    | inl e ↦ absurd (ground (arith, e))
    | inr (x, xs, e) ↦
        let (r, runs, s) =
          subst (λ ys. (r : List Node × Node) × (split_last ys ≡ some r) × Split ys r) (sym e)
            (split_last-Split x xs) in
        let k = r.1.id in
        let i = r.1.page in
        let found : page_of k l.list ≡ some i =
          s.holds (ground (arith, s.counts k)) (valid.once k) in
        let at_i = valid.pointed i k found in
        let writes : (j : ℕ)
            → get_or (set l.states i none) j none ≡ (if i == j then none else position l j) =
          λ j.
            get_or-set l.states i j none none
              (omega (arith, valid.sized, held-lt l valid i k at_i)) in
        (
          (i, as_int (back_or_zero r.0), record l { list = r.0; states = set l.states i none }),
          ground (arith, runs),
          (
            record {
              valid = record {
                sized = length-set l.states i _ ∙ valid.sized;
                points = λ j n f.
                    ground
                      (arith, writes j, valid.points j n, s.finds n (valid.once n), at_i, found);
                pointed = λ j n f. ground (
                  arith,
                  writes j,
                  valid.pointed j n,
                  s.finds n (valid.once n),
                  valid.pointed i n,
                );
                once = λ n. ground (arith, s.counts n, valid.once n);
                fresh = λ n m. ground (arith, s.counts n, valid.fresh n);
              };
              same_max = refl;
            },
            s.order,
            ap as_int (back_or_zero-last_of r.0),
            λ small. rw (back_or_zero-last_of r.0) (as_int-same (last_of 0 (pages r.0)) small),
            ground (arith, writes i),
          ),
        )
  ],
  λ none_left. elim (List-cases l.list) [
    | inl e ↦
        let gone : split_last l.list ≡ none = ap split_last e ∙ split_last-none in
        ground (arith, gone)
    | inr (x, xs, e) ↦ absurd (omega (arith, ap length e))
  ],
)

-- ===== src/Replacement/Lru/Nodes.antt =====
-- The nodes of the list of class `LRU` in include/replacement.hpp, and the pages they hold.
use tri_cache.Replacement.Lru.{Node, take_node, split_last}
use tri_cache.PageTable.Chain.{occ}
use tri_cache.PageTable.Chain.Edit.{without}
use tri_cache.Base.{
  ℕ, ◌+◌, ◌≤◌, ◌<◌, ◌≡◌, ◌==◌, if◌then◌else◌, List, [], ◌∷◌, ◌++◌, Option, none, some, arith, refl,
  Bool-cases, inl, inr, ap,
}

-- The pages of a list, the most recent first.
unfoldable pub pages : List Node → List ℕ
pages [] = []
pages (x ∷ xs) = x.page ∷ pages xs

-- How many nodes have the number.
unfoldable pub id_count : ℕ → List Node → ℕ
id_count k [] = 0
id_count k (x ∷ xs) = (if x.id == k then 1 else 0) + id_count k xs

-- The page of the node with the number.
unfoldable pub page_of : ℕ → List Node → Option ℕ
page_of k [] = none
page_of k (x ∷ xs) = if x.id == k then some x.page else page_of k xs

pub page_of-counted : (k i : ℕ) (xs : List Node) → page_of k xs ≡ some i → 0 < id_count k xs
unfolding page_of id_count
page_of-counted k i [] e = cc
page_of-counted k i (x ∷ xs) e = ground (arith, page_of-counted k i xs)

pub page_of_absent : (k : ℕ) (xs : List Node) → id_count k xs ≡ 0 → page_of k xs ≡ none
unfolding page_of id_count
page_of_absent k [] e = refl
page_of_absent k (x ∷ xs) e = ground (arith, page_of_absent k xs)

-- What taking out node `k`, which holds page `i`, leaves.
pub record Taken (k i : ℕ) (xs : List Node) (r : Node × List Node) : Type 0 where
  pub node : (r.0.id ≡ k) × (r.0.page ≡ i)
  pub counts : (j : ℕ) → id_count j r.1 + (if k == j then 1 else 0) ≡ id_count j xs
  pub finds : (j : ℕ) → page_of j r.1 ≡ (if k == j then none else page_of j xs)
  pub left : pages r.1 ≡ without i (pages xs)

pub take_node-Taken :
    (k i : ℕ) (xs : List Node)
    → page_of k xs ≡ some i
    → ((j : ℕ) → id_count j xs ≤ 1)
    → ((j : ℕ) → page_of j xs ≡ some i → j ≡ k)
    → (r : Node × List Node) × (take_node k xs ≡ some r) × Taken k i xs r
unfolding take_node page_of id_count pages without
take_node-Taken k i [] e once only = cc
take_node-Taken k i (x ∷ xs) e once only = elim (Bool-cases (x.id == k)) [
  | inl here ↦ (
    (x, xs),
    rw here,
    record {
      node = (ground arith, ground arith);
      counts = λ j. ground (arith);
      finds = λ j. ground (arith, once k, page_of_absent k xs);
      left = ground arith;
    },
  )
  | inr there ↦
      let others : (j : ℕ) → page_of j xs ≡ some i → j ≡ k =
        λ j f. ground (arith, only j, once j, page_of-counted j i xs f) in
      let (r, runs, t) =
        take_node-Taken k i xs (ground arith) (λ j. ground (arith, once j)) others in
      (
        (r.0, x ∷ r.1),
        rw (there, runs),
        record {
          node = t.node;
          counts = λ j. ground (arith, t.counts j);
          finds = λ j. ground (arith, t.finds j);
          left = ground (arith, t.left, only x.id);
        },
      )
]

-- What taking the last node leaves.
pub record Split (xs : List Node) (r : List Node × Node) : Type 0 where
  pub counts : (j : ℕ) → id_count j r.0 + (if r.1.id == j then 1 else 0) ≡ id_count j xs
  pub holds : 0 < id_count r.1.id xs → (id_count r.1.id xs ≤ 1) → page_of r.1.id xs ≡ some r.1.page
  pub finds :
      (j : ℕ) → id_count j xs ≤ 1 → page_of j r.0 ≡ (if r.1.id == j then none else page_of j xs)
  pub order : pages xs ≡ pages r.0 ++ r.1.page ∷ []

pub split_last-Split :
    (x : Node) (xs : List Node)
    → (r : List Node × Node) × (split_last (x ∷ xs) ≡ some r) × Split (x ∷ xs) r
unfolding split_last page_of id_count pages
split_last-Split x [] = (
  ([], x),
  refl,
  record {
    counts = λ j. ground arith;
    holds = λ _ _. ground arith;
    finds = λ j _. ground arith;
    order = refl;
  },
)
split_last-Split x (y ∷ ys) =
    let (r, runs, s) = split_last-Split y ys in
    (
      (x ∷ r.0, r.1),
      rw runs,
      record {
        counts = λ j. ground (arith, s.counts j);
        holds = λ m once. ground (arith, s.holds, s.counts r.1.id);
        finds = λ j once. ground (arith, s.finds j, s.counts j);
        order = ap (◌∷◌ x.page) s.order;
      },
    )

-- A page in the list has a node.
pub holder :
    (i : ℕ) (xs : List Node)
    → 0 < occ i (pages xs)
    → ((k : ℕ) → id_count k xs ≤ 1)
    → (k : ℕ) × (page_of k xs ≡ some i)
unfolding occ pages page_of id_count
holder i [] m once = elim m [ ]
holder i (x ∷ xs) m once = elim (Bool-cases (x.page == i)) [
  | inl here ↦ (x.id, ground arith)
  | inr there ↦
      let (k, e) = holder i xs (ground arith) (λ k. ground (arith, once k)) in
      (k, ground (arith, e, once k, page_of-counted k i xs e))
]

pub page_of-occ : (i k : ℕ) (xs : List Node) → page_of k xs ≡ some i → 0 < occ i (pages xs)
unfolding occ pages page_of
page_of-occ i k [] e = cc
page_of-occ i k (x ∷ xs) e = ground (arith, page_of-occ i k xs)

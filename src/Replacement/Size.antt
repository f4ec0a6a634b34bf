-- ===== src/Replacement/Size.antt =====
-- How many pages a policy of include/replacement.hpp holds.
use tri_cache.Replacement.Lru.Nodes.{holder, page_of-counted, id_count, page_of, pages}
use tri_cache.Replacement.Lru.{Node}
use tri_cache.PageTable.Chain.{occ}
use tri_cache.Base.{
  dec_lt, inl, inr, Bool-cases, some, ℕ, zero, suc, ◌+◌, ◌≤◌, ◌<◌, ◌≡◌, ◌==◌, if◌then◌else◌, ltb,
  Bool, List, [], ◌∷◌, number, number-update, count, get_or, length, arith, refl,
}

pub number-shift :
    (f : ℕ → Bool) (n : ℕ) → number f (suc n) ≡ (if f 0 then 1 else 0) + number (λ i. f (i + 1)) n
unfolding number
number-shift f zero = refl
number-shift f (suc n) = ground (arith, number-shift f n)

pub number-count :
    {A : Type 0} (f : A → Bool) (xs : List A) (d : A)
    → number (λ j. f (get_or xs j d)) (length xs) ≡ count f xs
unfolding number count get_or
number-count f [] d = refl
number-count f (x ∷ xs) d =
    ground (arith, number-shift (λ j. f (get_or (x ∷ xs) j d)) (length xs), number-count f xs d)

number_none : (n : ℕ) → number (λ j. ltb 0 (occ j [])) n ≡ 0
unfolding number occ
number_none zero = refl
number_none (suc n) = omega (arith, number_none n)

pub number-occ :
    (n : ℕ) (xs : List ℕ)
    → ((j : ℕ) → occ j xs ≤ 1)
    → ((j : ℕ) → 0 < occ j xs → j < n)
    → number (λ j. ltb 0 (occ j xs)) n ≡ length xs
unfolding occ
number-occ n [] once below = number_none n
number-occ n (x ∷ xs) once below =
    let rest = number-occ n xs (λ j. ground (arith, once j)) (λ j m. below j (ground (arith, m))) in
    let more =
      number-update (λ j. ltb 0 (occ j xs)) (λ j. ltb 0 (occ j (x ∷ xs))) n x
        (below x (ground arith)) (λ i lt other. ground (arith, other)) in
    ground (arith, rest, more, once x)

pub length-pages : (xs : List Node) → length (pages xs) ≡ length xs
unfolding pages
length-pages [] = refl
length-pages (x ∷ xs) = ground (arith, length-pages xs)

-- A list whose nodes have their own numbers, and their own pages, holds no page twice.
pub pages_once :
    (i : ℕ) (xs : List Node)
    → ((k : ℕ) → id_count k xs ≤ 1)
    → ((k m : ℕ) → page_of k xs ≡ some i → page_of m xs ≡ some i → k ≡ m)
    → occ i (pages xs) ≤ 1
unfolding occ pages page_of id_count
pages_once i [] once own = omega arith
pages_once i (x ∷ xs) once own =
    let rest_once : (k : ℕ) → id_count k xs ≤ 1 = λ k. ground (arith, once k) in
    let stays : (k : ℕ) → page_of k xs ≡ some i → page_of k (x ∷ xs) ≡ some i =
      λ k e. ground (arith, once k, e, page_of-counted k i xs e) in
    let rest = pages_once i xs rest_once (λ k m e e'. own k m (stays k e) (stays m e')) in
    elim (Bool-cases (x.page == i)) [
      | inr other ↦ ground (arith, other, rest)
      | inl here ↦ elim (dec_lt 0 (occ i (pages xs))) [
        | no none_left ↦ ground (arith, none_left)
        | yes some_left ↦
            let (k, e) = holder i xs some_left rest_once in
            let same = own k x.id (stays k e) (ground (arith, here)) in
            absurd (ground (arith, once k, page_of-counted k i xs e, same))
      ]
    ]

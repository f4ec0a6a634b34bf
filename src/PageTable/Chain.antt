-- ===== src/PageTable/Chain.antt =====
-- Chains of cache lines in include/compact_hash_page_table.hpp: what the three loops over a chain
-- find, by recursion on the list of its lines.
pub mod Edit
use tri_cache.Base.{
  ◌∙◌, ℕ, zero, suc, ◌+◌, ◌≤◌, ◌<◌, ◌==◌, if◌then◌else◌, Bool, true, false, Option, none, some,
  List, [], ◌∷◌, ◌++◌, length, ◌≡◌, ◌≢◌, refl, arith, Bool-cases, inl, inr,
}
use tri_cache.PageTable.Table.{Table, line, empty_tag, find_from, hint_from, pre_from}

-- How often a number stands in a list.
unfoldable pub occ : ℕ → List ℕ → ℕ
occ x [] = 0
occ x (y ∷ ys) = (if y == x then 1 else 0) + occ x ys

-- Starting at `p` and following `next`, the lines are those of the list, in its order.
abbrev pub IsChain : (ℕ → Option ℕ) → Option ℕ → List ℕ → Type 0
IsChain next p [] = p ≡ none
IsChain next p (x ∷ xs) = (p ≡ some x) × IsChain next (next x) xs

-- The first line with the tag.
unfoldable pub find_line : (ℕ → ℕ) → ℕ → List ℕ → Option ℕ
find_line tag k [] = none
find_line tag k (x ∷ xs) = if tag x == k then some x else find_line tag k xs

unfoldable pub last_of : ℕ → List ℕ → ℕ
last_of x [] = x
last_of x (y ∷ ys) = last_of y ys

-- The line before `end`, in the chain `x ∷ ys`.
unfoldable pub before : ℕ → ℕ → List ℕ → Option ℕ
before end x [] = none
before end x (y ∷ ys) = if y == end then some x else before end y ys

unfoldable pub next_of : Table → ℕ → Option ℕ
next_of t x = (line t x).next

unfoldable pub tag_at : Table → ℕ → ℕ
tag_at t x = (line t x).tag

-- Fuel above the length of the chain is enough for each loop.
pub find_from-find_line :
    (n : ℕ) (t : Table) (k : ℕ) (xs : List ℕ) (p : Option ℕ)
    → IsChain (next_of t) p xs
    → length xs < n
    → find_from n t k p ≡ find_line (tag_at t) k xs
unfolding find_from find_line next_of tag_at
find_from-find_line zero t k xs p c h = elim h [ ]
find_from-find_line (suc n) t k [] p c h = ground arith
find_from-find_line (suc n) t k (x ∷ xs) p c h =
    ground (arith, find_from-find_line n t k xs (next_of t x) c.1)

unfoldable pub hint_result : Table → ℕ → ℕ → Option ℕ → ℕ → Bool × Option ℕ
hint_result t k head (some p) last = (true, some p)
hint_result t k head none last = (false, if tag_at t head == empty_tag then none else some last)

pub hint_from-find_line :
    (n : ℕ) (t : Table) (k head x : ℕ) (xs : List ℕ)
    → IsChain (next_of t) (next_of t x) xs
    → length xs + 1 < n
    → hint_from n t k head (some x)
      ≡ hint_result t k head (find_line (tag_at t) k (x ∷ xs)) (last_of x xs)
unfolding hint_from find_line hint_result next_of tag_at last_of
hint_from-find_line zero t k head x xs c h = elim h [ ]
hint_from-find_line (suc n) t k head x [] c h = ground arith
hint_from-find_line (suc n) t k head x (y ∷ ys) c h =
    ground (arith, hint_from-find_line n t k head y ys c.1)

pub pre_from-before :
    (n : ℕ) (t : Table) (end x : ℕ) (xs : List ℕ)
    → IsChain (next_of t) (next_of t x) xs
    → length xs + 1 < n
    → pre_from n t end (some x) ≡ before end x xs
unfolding pre_from before next_of
pre_from-before zero t end x xs c h = elim h [ ]
pre_from-before (suc zero) t end x xs c h = absurd (omega arith)
pre_from-before (suc (suc n)) t end x [] c h = ground arith
pre_from-before (suc (suc n)) t end x (y ∷ ys) c h =
    ground (arith, pre_from-before (suc n) t end y ys c.1)

-- A chain and a search look at the lines of the list only.
pub IsChain-congr :
    (f g : ℕ → Option ℕ) (p : Option ℕ) (xs : List ℕ)
    → ((x : ℕ) → 0 < occ x xs → g x ≡ f x)
    → IsChain f p xs
    → IsChain g p xs
unfolding occ
IsChain-congr f g p [] same c = c
IsChain-congr f g p (x ∷ xs) same c =
    (c.0, rw (same x (ground arith)) (IsChain-congr f g (f x) xs (λ y m. same y (omega arith)) c.1))

pub find_line-congr :
    (f g : ℕ → ℕ) (k : ℕ) (xs : List ℕ)
    → ((x : ℕ) → 0 < occ x xs → g x ≡ f x)
    → find_line g k xs ≡ find_line f k xs
unfolding occ find_line
find_line-congr f g k [] same = refl
find_line-congr f g k (x ∷ xs) same =
    rw (same x (ground arith), find_line-congr f g k xs (λ y m. same y (omega arith)))

-- What a search finds stands in the list and has the tag.
pub find_line_found :
    (f : ℕ → ℕ) (k p : ℕ) (xs : List ℕ) → find_line f k xs ≡ some p → (0 < occ p xs) × (f p ≡ k)
unfolding occ find_line
find_line_found f k p [] h = cc
find_line_found f k p (x ∷ xs) h = ground (arith, find_line_found f k p xs)

pub find_line_missed :
    (f : ℕ → ℕ) (k x : ℕ) (xs : List ℕ) → find_line f k xs ≡ none → 0 < occ x xs → f x ≢ k
unfolding occ find_line
find_line_missed f k x [] h m = elim m [ ]
find_line_missed f k x (y ∷ ys) h m = ground (arith, find_line_missed f k x ys)

-- The tag is found where it stands, if no other line has it.
pub find_line_at :
    (f : ℕ → ℕ) (k x : ℕ) (xs : List ℕ)
    → 0 < occ x xs
    → f x ≡ k
    → ((y : ℕ) → 0 < occ y xs → f y ≡ k → y ≡ x)
    → find_line f k xs ≡ some x
unfolding occ find_line
find_line_at f k x [] m e u = elim m [ ]
find_line_at f k x (y ∷ ys) m e u = elim (Bool-cases (y == x)) [
  | inl same ↦ ground arith
  | inr other ↦
      let rest = find_line_at f k x ys (ground arith) e (λ z n. u z (omega arith)) in
      ground (arith, u y, rest)
]

pub last_of-occ : (x : ℕ) (xs : List ℕ) → 0 < occ (last_of x xs) (x ∷ xs)
unfolding occ last_of
last_of-occ x [] = ground arith
last_of-occ x (y ∷ ys) = ground (arith, last_of-occ y ys)

-- A search sees of a tag only whether it is the one looked for.
pub find_line-congr_test :
    (f g : ℕ → ℕ) (j : ℕ) (xs : List ℕ)
    → ((x : ℕ) → 0 < occ x xs → (g x == j) ≡ (f x == j))
    → find_line g j xs ≡ find_line f j xs
unfolding occ find_line
find_line-congr_test f g j [] same = refl
find_line-congr_test f g j (x ∷ xs) same =
    rw (same x (ground arith), find_line-congr_test f g j xs (λ y m. same y (omega arith)))

pub last_of-next :
    (f : ℕ → Option ℕ) (x : ℕ) (xs : List ℕ) → IsChain f (f x) xs → f (last_of x xs) ≡ none
unfolding last_of
last_of-next f x [] c = c
last_of-next f x (y ∷ ys) c = last_of-next f y ys c.1

pub occ_head : (p : ℕ) (xs : List ℕ) → 0 < occ p (p ∷ xs)
unfolding occ
occ_head p xs = ground arith

pub find_line_nowhere :
    (f : ℕ → ℕ) (k : ℕ) (xs : List ℕ) → ((x : ℕ) → 0 < occ x xs → f x ≢ k) → find_line f k xs ≡ none
unfolding occ find_line
find_line_nowhere f k [] no_tag = refl
find_line_nowhere f k (x ∷ xs) no_tag =
    ground (arith, no_tag x, find_line_nowhere f k xs (λ y m. no_tag y (omega arith)))

-- ===== src/PageTable/Chain/Edit.antt =====
-- Chains of include/compact_hash_page_table.hpp that grow at the end or lose a line.
use tri_cache.PageTable.Chain.{
  find_line-congr, IsChain-congr, last_of-occ, occ, IsChain, find_line, last_of, before,
}
use tri_cache.Base.{
  ◌∙◌, ℕ, ◌+◌, ◌≤◌, ◌<◌, ◌==◌, if◌then◌else◌, Option, none, some, List, [], ◌∷◌, ◌++◌, length, ◌≡◌,
  ◌≢◌, refl, arith, Bool-cases, inl, inr,
}

-- The first of two results that there is.
abbrev pub first_some : Option ℕ → Option ℕ → Option ℕ
first_some none q = q
first_some (some p) q = some p

pub occ-append : (x : ℕ) (xs ys : List ℕ) → occ x (xs ++ ys) ≡ occ x xs + occ x ys
unfolding occ
occ-append x [] ys = omega arith
occ-append x (y ∷ xs) ys = omega (arith, occ-append x xs ys)

-- A chain grows at its end.
pub IsChain-append :
    (f g : ℕ → Option ℕ) (x : ℕ) (xs : List ℕ) (p : ℕ)
    → IsChain f (f x) xs
    → ((y : ℕ) → y ≢ last_of x xs → 0 < occ y (x ∷ xs) → g y ≡ f y)
    → g (last_of x xs) ≡ some p
    → g p ≡ none
    → occ (last_of x xs) (x ∷ xs) ≤ 1
    → IsChain g (g x) (xs ++ p ∷ [])
unfolding occ last_of
IsChain-append f g x [] p c same e z one = (e, z)
IsChain-append f g x (y ∷ ys) p c same e z one =
    let inside : 0 < occ (last_of y ys) (y ∷ ys) = last_of-occ y ys in
    let ne : x ≢ last_of y ys = ground arith in
    let now : g x ≡ f x = same x ne (ground arith) in
    let rest =
      IsChain-append f g y ys p c.1 (λ u n m. same u n (ground arith)) e z (ground arith) in
    (now ∙ c.0, rest)

-- The chain without one line.
unfoldable pub without : ℕ → List ℕ → List ℕ
without e [] = []
without e (y ∷ ys) = if y == e then ys else y ∷ without e ys

pub occ-without :
    (z e : ℕ) (xs : List ℕ)
    → 0 < occ e xs
    → occ z (without e xs) + (if e == z then 1 else 0) ≡ occ z xs
unfolding occ without
occ-without z e [] h = elim h [ ]
occ-without z e (y ∷ ys) h = ground (arith, occ-without z e ys)

pub length-without : (e : ℕ) (xs : List ℕ) → 0 < occ e xs → length (without e xs) + 1 ≡ length xs
unfolding occ without
length-without e [] h = elim h [ ]
length-without e (y ∷ ys) h = ground (arith, length-without e ys)

-- `find_pre_cacheline` finds a line before every line of the chain but its head.
pub before-some :
    (e x : ℕ) (xs : List ℕ)
    → 0 < occ e xs
    → (q : ℕ) × (before e x xs ≡ some q) × (0 < occ q (x ∷ xs))
unfolding occ before
before-some e x [] h = elim h [ ]
before-some e x (y ∷ ys) h = elim (Bool-cases (y == e)) [
  | inl now ↦ (x, rw now, ground arith)
  | inr on ↦ let (q, found, m) = before-some e y ys (ground arith) in (q, ground arith, omega arith)
]

pub before_inside :
    (e x q : ℕ) (xs : List ℕ) → before e x xs ≡ some q → (0 < occ q (x ∷ xs)) × (0 < occ e xs)
unfolding occ before
before_inside e x q [] h = cc
before_inside e x q (y ∷ ys) h = ground (arith, before_inside e y q ys)

pub before-none : (e x : ℕ) (xs : List ℕ) → occ e xs ≡ 0 → before e x xs ≡ none
unfolding occ before
before-none e x [] h = refl
before-none e x (y ∷ ys) h = ground (arith, before-none e y ys)

-- The line before `e` leads to `e`; led past it, the chain has lost `e` and nothing else.
pub IsChain-without :
    (f g : ℕ → Option ℕ) (e x q : ℕ) (xs : List ℕ)
    → IsChain f (f x) xs
    → before e x xs ≡ some q
    → ((y : ℕ) → y ≢ q → y ≢ e → 0 < occ y (x ∷ xs) → g y ≡ f y)
    → g q ≡ f e
    → ((y : ℕ) → occ y (x ∷ xs) ≤ 1)
    → IsChain g (g x) (without e xs) × (f q ≡ some e)
unfolding occ before without
IsChain-without f g e x q [] c b same skip once = cc
IsChain-without f g e x q (y ∷ ys) c b same skip once = elim (Bool-cases (y == e)) [
  | inl now ↦
      let at_x : q ≡ x = ground arith in
      let at_y : y ≡ e = ground arith in
      let jump : g x ≡ f y = rw (← at_x, at_y) skip in
      let rest =
        IsChain-congr f g (f y) ys
          (λ z m. same z (ground (arith, once z)) (ground (arith, once z)) (ground arith)) c.1 in
      rw (now, jump) (rest, rw (at_x, ← at_y) c.0)
  | inr on ↦
      let b' : before e y ys ≡ some q = ground arith in
      let inside = before_inside e y q ys b' in
      let now : g x ≡ f x =
        same x (ground (arith, once x)) (ground (arith, once x)) (ground arith) in
      let rest =
        IsChain-without f g e y q ys c.1 b' (λ z n k m. same z n k (ground arith)) skip
          (λ z. ground (arith, once z)) in
      rw on ((now ∙ c.0, rest.0), rest.1)
]

pub find_line-append :
    (f : ℕ → ℕ) (k : ℕ) (xs : List ℕ) (p : ℕ)
    → find_line f k (xs ++ p ∷ [])
      ≡ first_some (find_line f k xs) (if f p == k then some p else none)
unfolding find_line
find_line-append f k [] p = refl
find_line-append f k (x ∷ xs) p = ground (arith, find_line-append f k xs p)

-- The line that is taken out does not have the tag.
pub find_line-without :
    (f : ℕ → ℕ) (k e : ℕ) (xs : List ℕ) → f e ≢ k → find_line f k (without e xs) ≡ find_line f k xs
unfolding find_line without
find_line-without f k e [] ne = refl
find_line-without f k e (x ∷ xs) ne = ground (arith, find_line-without f k e xs ne)

-- A search in a chain that has grown by a line with tag `k`.
pub find_line_grown :
    (f g : ℕ → ℕ) (j k : ℕ) (xs : List ℕ) (p : ℕ)
    → ((x : ℕ) → 0 < occ x xs → g x ≡ f x)
    → g p ≡ k
    → find_line g j (xs ++ p ∷ []) ≡ first_some (find_line f j xs) (if k == j then some p else none)
find_line_grown f g j k xs p same e =
    rw (find_line-append g j xs p, find_line-congr f g j xs same, e)

pub first_some-none : (o : Option ℕ) → first_some o none ≡ o
first_some-none none = refl
first_some-none (some p) = refl

pub before_ne : (e x q : ℕ) (xs : List ℕ) → before e x xs ≡ some q → occ e (x ∷ xs) ≤ 1 → q ≢ e
unfolding occ before
before_ne e x q [] b once = cc
before_ne e x q (y ∷ ys) b once = elim (Bool-cases (y == e)) [
  | inl now ↦ ground arith
  | inr on ↦ before_ne e y q ys (ground arith) (ground arith)
]

pub occ-without_other : (z e : ℕ) (xs : List ℕ) → e ≢ z → occ z (without e xs) ≡ occ z xs
unfolding occ without
occ-without_other z e [] ne = refl
occ-without_other z e (y ∷ ys) ne = ground (arith, occ-without_other z e ys ne)

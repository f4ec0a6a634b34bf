-- ===== src/Messages/Link/Batch.antt =====
-- The calls that the slots of a message stand for.
use tri_cache.Base.{
  ℕ, zero, suc, ◌+◌, ◌<◌, ◌≤◌, Option, none, List, [], ◌∷◌, ◌++◌, get_or, set, ◌≡◌, refl, arith,
  length, get_or-set, sym,
}
use mathlib.Core.List.{append_assoc}
use tri_cache.Messages.{Request, no_request}
use tri_cache.Messages.Link.{Call, Reply}

-- The first `n` slots.
abbrev pub batch : List Request → List (Option ℕ) → ℕ → List Call
batch reqs places zero = []
batch reqs places (suc n) =
    batch reqs places n ++ (get_or reqs n no_request, get_or places n none) ∷ []

pub batch-set :
    (reqs : List Request) (places : List (Option ℕ)) (i n : ℕ) (req : Request) (place : Option ℕ)
    → i < length reqs
    → i < length places
    → n ≤ i
    → batch (set reqs i req) (set places i place) n ≡ batch reqs places n
batch-set reqs places i zero req place p q h = refl
batch-set reqs places i (suc n) req place p q h = ground (
  arith,
  batch-set reqs places i n req place p q (omega (arith, h)),
  get_or-set reqs i n req no_request p,
  get_or-set places i n place none q,
)

-- `request` in slot `n`.
pub batch-put :
    (reqs : List Request) (places : List (Option ℕ)) (n : ℕ) (req : Request) (place : Option ℕ)
    → n < length reqs
    → n < length places
    → batch (set reqs n req) (set places n place) (n + 1) ≡ batch reqs places n ++ (req, place) ∷ []
batch-put reqs places n req place p q =
    let next : n + 1 ≡ suc n = omega arith in
    rw next (
      ground (
        arith,
        batch-set reqs places n n req place p q,
        get_or-set reqs n n req no_request p,
        get_or-set places n n place none q,
      ))

-- The responses in the first `n` slots, with their places.
abbrev pub results : List (Option ℕ) → List ℕ → ℕ → List Reply
results places body zero = []
results places body (suc n) = results places body n ++ (get_or places n none, get_or body n 0) ∷ []

pub results-set :
    (places : List (Option ℕ)) (body : List ℕ) (i n pointer : ℕ)
    → i < length body
    → n ≤ i
    → results places (set body i pointer) n ≡ results places body n
results-set places body i zero pointer q h = refl
results-set places body i (suc n) pointer q h = ground (
  arith,
  results-set places body i n pointer q (omega (arith, h)),
  get_or-set body i n pointer 0 q,
)

-- A response in slot `n`.
pub results-put :
    (places : List (Option ℕ)) (body : List ℕ) (n pointer : ℕ)
    → n < length body
    → results places (set body n pointer) (n + 1)
      ≡ results places body n ++ (get_or places n none, pointer) ∷ []
results-put places body n pointer q =
    let next : n + 1 ≡ suc n = omega arith in
    rw next (ground (arith, results-set places body n n pointer q, get_or-set body n n pointer 0 q))

-- One more slot.
pub batch-next :
    (before : List Call) (reqs : List Request) (places : List (Option ℕ)) (n : ℕ)
    → before ++ batch reqs places (n + 1)
      ≡ (before ++ batch reqs places n) ++ (get_or reqs n no_request, get_or places n none) ∷ []
batch-next before reqs places n =
    let next : n + 1 ≡ suc n = omega arith in
    rw next (sym (append_assoc before (batch reqs places n) _))

pub results-next :
    (before : List Reply) (places : List (Option ℕ)) (body : List ℕ) (n : ℕ)
    → before ++ results places body (n + 1)
      ≡ (before ++ results places body n) ++ (get_or places n none, get_or body n 0) ∷ []
results-next before places body n =
    let next : n + 1 ≡ suc n = omega arith in
    rw next (sym (append_assoc before (results places body n) _))

pub results-served :
    (before : List Reply) (places : List (Option ℕ)) (body : List ℕ) (n pointer : ℕ)
    → n < length body
    → before ++ results places (set body n pointer) (n + 1)
      ≡ (before ++ results places body n) ++ (get_or places n none, pointer) ∷ []
results-served before places body n pointer q =
    rw (results-put places body n pointer q) (sym (append_assoc before (results places body n) _))

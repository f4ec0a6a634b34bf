-- ===== src/Messages/Ids/Owned.antt =====
-- No two clients have one number at once.
use tri_cache.Messages.Ids.{
  IdPool, nearest, take_from, take_id, give_id, push_ids, deal, new_id_pool,
}
use tri_cache.BlockAllocator.Tiles.{remove, tally-remove}
use tri_cache.Partitioner.{RoundRobin, num_blocks}
use tri_cache.Partitioner.Laws.{blocks_of, blocks_of-all}
use tri_cache.PageTable.Chain.{occ}
use tri_cache.PageTable.Chain.Edit.{occ-append}
use tri_cache.Base.{
  ℕ, zero, suc, ◌+◌, ◌<◌, ◌≤◌, ◌≡◌, ◌==◌, ◌&&◌, if◌then◌else◌, ltb, leb, some, List, [], ◌∷◌, ◌++◌,
  get_or, set, length, tally, tally-set, tally-replicate, length-set, length-replicate, arith, refl,
  List-cases, Option-cases, inl, inr, ◌∙◌, replicate,
}

-- How often a number is in the queues.
abbrev pub waiting : ℕ → IdPool → ℕ
waiting q pool = tally (λ l. occ q l) pool

abbrev pub held_times : ℕ → List ℕ → ℕ
held_times q held = tally (λ y. if y == q then 1 else 0) held

-- Each number below `n` is in one queue or has one client, and there is no other number.
pub record Owned (n : ℕ) (pool : IdPool) (held : List ℕ) : Type 0 where
  pub once : (q : ℕ) → waiting q pool + held_times q held ≡ (if ltb q n then 1 else 0)

inside {ℓ} :
    {A : Type ℓ} (xs : List (List A)) (i : ℕ) (y : A) (ys : List A)
    → get_or xs i [] ≡ y ∷ ys
    → i < length xs
unfolding get_or
inside [] i y ys e = absurd (cc)
inside (x ∷ xs) zero y ys e = omega arith
inside (x ∷ xs) (suc i) y ys e = omega (arith, inside xs i y ys e)

give_id-waiting :
    (cpu id : ℕ) (pool : IdPool) (q : ℕ)
    → cpu < length pool
    → waiting q (give_id cpu id pool) ≡ waiting q pool + (if id == q then 1 else 0)
unfolding give_id occ
give_id-waiting cpu id pool q lt =
    let queue = get_or pool cpu [] in
    let changed = tally-set (λ l. occ q l) pool cpu (queue ++ id ∷ []) [] lt in
    omega (arith, changed, occ-append q queue (id ∷ []))

take_from-Owned :
    (n cpu : ℕ) (pool : IdPool) (held : List ℕ) (id : ℕ) (rest : List ℕ)
    → Owned n pool held
    → get_or pool cpu [] ≡ id ∷ rest
    → Owned n (set pool cpu rest) (id ∷ held) × (id < n) × (held_times id held ≡ 0)
unfolding occ tally
take_from-Owned n cpu pool held id rest owned front =
    let lt = inside pool cpu id rest front in
    let changed : (q : ℕ)
        → waiting q (set pool cpu rest) + occ q (get_or pool cpu []) ≡ waiting q pool + occ q rest =
      λ q. tally-set (λ l. occ q l) pool cpu rest [] lt in
    let count : (q : ℕ) → occ q (get_or pool cpu []) ≡ (if id == q then 1 else 0) + occ q rest =
      λ q. rw front refl in
    let first = changed id in
    (
      record { once = λ q. omega (arith, changed q, count q, owned.once q) },
      ground (arith, changed id, count id, owned.once id),
      ground (arith, changed id, count id, owned.once id),
    )

take_from-some :
    (cpu id : ℕ) (rest : List ℕ) (pool : IdPool)
    → get_or pool cpu [] ≡ id ∷ rest
    → take_from pool cpu ≡ some (cpu, id, set pool cpu rest)
unfolding take_from
take_from-some cpu id rest pool e = rw (e, take_from) refl

nearest-some :
    (pool : IdPool) (cpus : List ℕ) (cpu : ℕ)
    → nearest pool cpus ≡ some cpu
    → (id : ℕ) × (rest : List ℕ) × (get_or pool cpu [] ≡ id ∷ rest)
unfolding nearest
nearest-some pool [] cpu e = absurd (cc)
nearest-some pool (c ∷ cpus) cpu e = elim (List-cases (get_or pool c [])) [
  | inl empty ↦ nearest-some pool cpus cpu (ground (arith, e, empty))
  | inr (id, rest, front) ↦
      let same : c ≡ cpu = ground (arith, e, front) in (id, rest, rw (← same) front)
]

-- Where the constructor finds a number.
take_id-some :
    (by_distance : ℕ → List ℕ) (cpu : ℕ) (pool : IdPool) (a : ℕ × ℕ × IdPool)
    → take_id by_distance cpu pool ≡ some a
    → (id : ℕ) × (rest : List ℕ) × (get_or pool a.0 [] ≡ id ∷ rest)
      × (a.1 ≡ id)
      × (a.2 ≡ set pool a.0 rest)
unfolding take_id
take_id-some by_distance cpu pool a e = elim (List-cases (get_or pool cpu [])) [
  | inr (id, rest, front) ↦
      let takes = take_from-some cpu id rest pool front in
      let same : a ≡ (cpu, id, set pool cpu rest) = ground (arith, e, front, takes) in
      (id, rest, rw same front, rw same refl, rw same refl)
  | inl empty ↦ elim (Option-cases (nearest pool (by_distance cpu))) [
    | inl missing ↦ absurd (ground (arith, e, empty, missing))
    | inr (near, found) ↦
        let (id, rest, front) = nearest-some pool (by_distance cpu) near found in
        let takes = take_from-some near id rest pool front in
        let same : a ≡ (near, id, set pool near rest) = ground (arith, e, empty, found, takes) in
        (id, rest, rw same front, rw same refl, rw same refl)
  ]
]

-- Where each number below `n` is in one queue or has one client, and no other number is, a client
-- that is constructed gets a number below `n` that no client has, from a queue that exists, and
-- each number is in one queue or has one client after it.
pub take_id-Owned :
    (n : ℕ) (by_distance : ℕ → List ℕ) (cpu : ℕ) (pool : IdPool) (held : List ℕ)
    (a : ℕ × ℕ × IdPool)
    → Owned n pool held
    → take_id by_distance cpu pool ≡ some a
    → Owned n a.2 (a.1 ∷ held) × (a.1 < n) × (held_times a.1 held ≡ 0) × (a.0 < length a.2)
take_id-Owned n by_distance cpu pool held a owned e =
    let (id, rest, front, is_id, is_rest) = take_id-some by_distance cpu pool a e in
    let (kept, small, new) = take_from-Owned n a.0 pool held id rest owned front in
    rw (is_id, is_rest)
      (kept, small, new, rw (length-set pool a.0 rest) (inside pool a.0 id rest front))

pub give_id-Owned :
    (n cpu : ℕ) (pool : IdPool) (held : List ℕ) (i : ℕ)
    → Owned n pool held
    → cpu < length pool
    → i < length held
    → Owned n (give_id cpu (get_or held i 0) pool) (remove held i)
give_id-Owned n cpu pool held i owned lt inside_held = record {
  once = λ q. omega (
    arith,
    give_id-waiting cpu (get_or held i 0) pool q lt,
    tally-remove (λ y. if y == q then 1 else 0) held i 0 inside_held,
    owned.once q,
  );
}

-- The numbers that `run` deals out.
push_ids-waiting :
    (m id cpu : ℕ) (pool : IdPool) (q : ℕ)
    → cpu < length pool
    → (waiting q (push_ids m id cpu pool)
        ≡ waiting q pool + (if leb id q && ltb q (id + m) then 1 else 0))
      × (length (push_ids m id cpu pool) ≡ length pool)
unfolding push_ids give_id
push_ids-waiting zero id cpu pool q lt = (ground arith, refl)
push_ids-waiting (suc m) id cpu pool q lt =
    let same_length = length-set pool cpu (get_or pool cpu [] ++ id ∷ []) in
    let (rest, long) =
      push_ids-waiting m (id + 1) cpu (give_id cpu id pool) q (rw same_length lt) in
    (ground (arith, rest, give_id-waiting cpu id pool q lt), long ∙ same_length)

blocks_next :
    (shares : RoundRobin) (m : ℕ)
    → blocks_of shares (suc m) ≡ blocks_of shares m + num_blocks shares m
unfolding blocks_of
blocks_next shares m = refl

blocks_grow : (shares : RoundRobin) (m n : ℕ) → blocks_of shares m ≤ blocks_of shares (m + n)
blocks_grow shares m zero = let same : m + 0 ≡ m = omega arith in rw same (omega arith)
blocks_grow shares m (suc n) =
    let next : m + suc n ≡ suc (m + n) = omega arith in
    rw next (omega (arith, blocks_grow shares m n, blocks_next shares (m + n)))

deal-waiting :
    (shares : RoundRobin) (cpu_mapping : ℕ → ℕ) (n cpu : ℕ) (pool : IdPool) (q : ℕ)
    → ((c : ℕ) → c < cpu + n → cpu_mapping c < length pool)
    → waiting q (deal shares cpu_mapping n cpu (blocks_of shares cpu) pool)
      ≡ waiting q pool
        + (if leb (blocks_of shares cpu) q && ltb q (blocks_of shares (cpu + n)) then 1 else 0)
unfolding deal
deal-waiting shares cpu_mapping zero cpu pool q mapped =
    let same : cpu + 0 ≡ cpu = omega arith in rw same (ground arith)
deal-waiting shares cpu_mapping (suc n) cpu pool q mapped =
    let to = cpu_mapping cpu in
    let share = num_blocks shares cpu in
    let (pushed, long) =
      push_ids-waiting share (blocks_of shares cpu) to pool q (mapped cpu (omega arith)) in
    let after : cpu + 1 ≡ suc cpu = omega arith in
    let next : blocks_of shares (cpu + 1) ≡ blocks_of shares cpu + share =
      rw after (blocks_next shares cpu) in
    let over : cpu + suc n ≡ cpu + 1 + n = omega arith in
    let rest =
      deal-waiting shares cpu_mapping n (cpu + 1) (push_ids share (blocks_of shares cpu) to pool) q
        (λ c lt. rw long (mapped c (omega (arith, lt)))) in
    let grown = blocks_grow shares (cpu + 1) n in
    let counted : waiting q (
          deal shares cpu_mapping n (cpu + 1) (blocks_of shares cpu + share)
            (push_ids share (blocks_of shares cpu) to pool))
        ≡ waiting q (push_ids share (blocks_of shares cpu) to pool)
          + (if leb (blocks_of shares (cpu + 1)) q && ltb q (blocks_of shares (cpu + 1 + n))
              then 1
              else 0) =
      rw (← next) rest in
    rw over (ground (arith, counted, pushed, next, grown))

pub new_id_pool-Owned :
    (num_clients num_cpus : ℕ) (cpu_mapping : ℕ → ℕ)
    → 0 < num_cpus
    → ((c : ℕ) → c < num_cpus → cpu_mapping c < num_cpus)
    → Owned num_clients (new_id_pool num_clients num_cpus cpu_mapping) []
unfolding new_id_pool blocks_of occ tally
new_id_pool-Owned num_clients num_cpus cpu_mapping some_cpu mapped =
    let shares : RoundRobin = record { num_partitions = num_cpus; num_vpages = num_clients } in
    let none_waiting = λ (q : ℕ). tally-replicate (λ (l : List ℕ). occ q l) num_cpus [] refl in
    let all : 0 + num_cpus ≡ num_cpus = omega arith in
    let dealt : blocks_of shares (0 + num_cpus) ≡ num_clients =
      rw all (blocks_of-all shares some_cpu) in
    let long = length-replicate {A = List ℕ} num_cpus [] in
    record {
      once = λ q. ground (
        arith,
        deal-waiting shares cpu_mapping num_cpus 0 (replicate num_cpus []) q
            (λ c lt. rw long (mapped c (omega (arith, lt)))),
        none_waiting q,
        dealt,
      );
    }

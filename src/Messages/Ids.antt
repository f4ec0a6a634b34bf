-- ===== src/Messages/Ids.antt =====
-- The numbers of clients: `client_id_pool` of include/partition_server.hpp, which `run` fills, and what the
-- constructor and the destructor of include/partition_client.hpp do with it. The CPUs by their distance, and the
-- place of each CPU, are those that the system says, and are arguments.
pub mod Owned
use tri_cache.Partitioner.{RoundRobin, num_blocks}
use tri_cache.Base.{
  ℕ, zero, suc, ◌+◌, ◌/◌, ◌%◌, ◌<◌, ◌≤◌, replicate, ◌≡◌, ◌==◌, if◌then◌else◌, ltb, Bool, true,
  false, Option, none, some, List, [], ◌∷◌, ◌++◌, get_or, set, length, tally, tally-set, length-set,
  arith, refl, ap, ◌>>=◌, List-cases, inl, inr, ◌∙◌,
}

-- The queue of each CPU, its front first.
abbrev pub IdPool : Type 0
IdPool = List (List ℕ)

-- The first CPU with a number left.
unfoldable pub nearest : IdPool → List ℕ → Option ℕ
nearest pool [] = none
nearest pool (cpu ∷ cpus) = elim (get_or pool cpu []) [
  | [] ↦ nearest pool cpus
  | id ∷ rest ↦ some cpu
]

-- `pop` of the queue of a CPU
unfoldable pub take_from : IdPool → ℕ → Option (ℕ × ℕ × IdPool)
take_from pool cpu = elim (get_or pool cpu []) [
  | [] ↦ none
  | id ∷ rest ↦ some (cpu, id, set pool cpu rest)
]

-- The constructor of a client on `cpu`: the queue, the number, and the pool; `none` where the server has no number.
unfoldable pub take_id : (ℕ → List ℕ) → ℕ → IdPool → Option (ℕ × ℕ × IdPool)
unfolding take_from
take_id by_distance cpu pool = elim (get_or pool cpu []) [
  | [] ↦ (do near ← nearest pool (by_distance cpu); take_from pool near)
  | id ∷ rest ↦ take_from pool cpu
]

-- The destructor
unfoldable pub give_id : ℕ → ℕ → IdPool → IdPool
give_id cpu id pool = set pool cpu (get_or pool cpu [] ++ id ∷ [])

-- `m` numbers from `id` on go to the queue of a CPU.
unfoldable pub push_ids : ℕ → ℕ → ℕ → IdPool → IdPool
unfolding give_id
push_ids zero id cpu pool = pool
push_ids (suc m) id cpu pool = push_ids m (id + 1) cpu (give_id cpu id pool)

-- The loop of `run` over the CPUs, `n` of them from `cpu` on; each has as many numbers as a partition has blocks.
unfoldable pub deal : RoundRobin → (ℕ → ℕ) → ℕ → ℕ → ℕ → IdPool → IdPool
unfolding push_ids
deal shares cpu_mapping zero cpu id pool = pool
deal shares cpu_mapping (suc n) cpu id pool =
    deal shares cpu_mapping n (cpu + 1) (id + num_blocks shares cpu)
      (push_ids (num_blocks shares cpu) id (cpu_mapping cpu) pool)

unfoldable pub new_id_pool : ℕ → ℕ → (ℕ → ℕ) → IdPool
unfolding deal
new_id_pool num_clients num_cpus cpu_mapping =
    deal (record { num_partitions = num_cpus; num_vpages = num_clients }) cpu_mapping num_cpus 0 0
      (replicate num_cpus [])

-- ===== src/Tests/IdsTests.antt =====
-- Three numbers for clients on two CPUs.
use tri_cache.Messages.Ids.{IdPool, new_id_pool, deal, push_ids, give_id, take_id, take_from}
use tri_cache.Messages.Ids.Owned.{Owned, take_id-Owned, new_id_pool-Owned, held_times}
use tri_cache.Partitioner.{num_blocks}
use tri_cache.Base.{ℕ, ◌<◌, ◌≡◌, List, [], ◌∷◌, get_or, set, replicate, length, arith, refl}

abbrev three_ids : IdPool
three_ids = new_id_pool 3 2 (λ c. c)

-- CPU 1 has number 2; after that the client goes to CPU 0.
dealt : three_ids ≡ (0 ∷ 1 ∷ []) ∷ (2 ∷ []) ∷ []
unfolding new_id_pool deal push_ids give_id num_blocks replicate get_or set
dealt = refl

take_id-Owned_example :
    Owned 3 ((0 ∷ 1 ∷ []) ∷ [] ∷ []) (2 ∷ [])
    × (2 < 3)
    × (held_times 2 [] ≡ 0)
    × (1 < length {A = List ℕ} ((0 ∷ 1 ∷ []) ∷ [] ∷ []))
unfolding new_id_pool deal push_ids give_id num_blocks replicate get_or set take_id take_from
take_id-Owned_example =
    take_id-Owned 3 (λ c. 0 ∷ []) 1 three_ids [] (1, 2, (0 ∷ 1 ∷ []) ∷ [] ∷ [])
      (new_id_pool-Owned 3 2 (λ c. c) (omega arith) (λ c lt. lt)) refl

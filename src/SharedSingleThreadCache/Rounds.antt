-- ===== src/SharedSingleThreadCache/Rounds.antt =====
-- How often the loop of `process` of include/shared_single_thread_cache.hpp goes round.
use tri_cache.SharedSingleThreadCache.{
  Kind, Cache, Context, Functions, Phase, begin, initing, evicting, loading, ended, pin_call,
  unpin_call, full_pin, full, alloc,
}
use tri_cache.SharedSingleThreadCache.Process.{
  run, step, begin_phase, initing_phase, hit_phase, unpin_phase, miss_phase, evicting_phase,
  loading_phase, call_evict, call_load, take_victim, map_page, release_victim,
}
use tri_cache.SharedSingleThreadCache.Methods.{process}
use tri_cache.Replacement.Policy.{Operations}
use tri_cache.Base.{
  if_true, if_false, pos, Bool-cases, ◌+ℤ◌, bind_value, ◌≢◌, ℕ, zero, suc, ◌≤◌, ◌<◌, ◌≡◌, Bool,
  true, false, some, arith, refl, Option-cases, inl, inr, if◌then◌else◌,
}

-- The rounds that are left at most.
abbrev pub rounds_of : Phase → Bool → ℕ
rounds_of begin waits = 4
rounds_of initing waits = 3
rounds_of evicting waits = if waits then 3 else 2
rounds_of loading waits = if waits then 2 else 1
rounds_of ended waits = 1

abbrev pub rounds : {E X : Type 0} → Context E X → ℕ
rounds x = rounds_of x.phase x.processing

module _ {E X S W : Type 0} (ops : Operations S) (f : Functions E X W) where
  call_evict_rounds :
      (x y : Context E X) (c d : Cache E S W)
      → call_evict ops f x c ≡ some (true, y, d)
      → (y.phase ≡ x.phase) × (y.processing ≡ false)
  unfolding call_evict
  call_evict_rounds x y c d e = elim (Option-cases x.pre_external_state) [
    | inl z ↦ absurd (ground (arith, e, z))
    | inr (s, z) ↦ ground (arith, e, z)
  ]

  call_load_rounds :
      (x y : Context E X) (c d : Cache E S W)
      → call_load ops f x c ≡ some (true, y, d)
      → (y.phase ≡ x.phase) × (y.processing ≡ false)
  unfolding call_load
  call_load_rounds x y c d e = ground (arith, e)

  begin_rounds :
      (x y : Context E X) (c d : Cache E S W)
      → begin_phase ops f x c ≡ some (true, y, d)
      → y.phase ≡ initing
  unfolding begin_phase
  begin_rounds x y c d e = ground (arith, e)

  hit_rounds : (x y : Context E X) (c d : Cache E S W) → hit_phase ops f x c ≢ some (true, y, d)
  unfolding hit_phase
  hit_rounds x y c d e = ground (arith, e)

  unpin_rounds : (x y : Context E X) (c d : Cache E S W) → unpin_phase ops f x c ≢ some (true, y, d)
  unfolding unpin_phase
  unpin_rounds x y c d e = ground (arith, e)

  miss_rounds :
      (x y : Context E X) (c d : Cache E S W)
      → miss_phase ops f x c ≡ some (true, y, d)
      → (y.phase ≡ evicting) × (y.processing ≡ false)
  unfolding miss_phase
  miss_rounds x y c d e =
      let counted = record c { pinned_size = c.pinned_size +ℤ pos 1 } in
      elim (Bool-cases (full_pin c)) [
        | inl none_left ↦ absurd (ground (arith, if_true _ _ none_left e))
        | inr room ↦ elim (Bool-cases (full counted)) [
          | inl is_full ↦
              let (a, _, maps) =
                bind_value (take_victim ops f (suc counted.max_ppage_id) x counted) _
                  (if_true _ _ is_full (if_false _ _ room e)) in
              let (m, _, last) = bind_value (map_page ops f a.0 a.1) _ maps in
              call_evict_rounds
                (record a.0 { phase = evicting; external_context = f.default_context }) y m d last
          | inr some_free ↦
              let (a, _, maps) =
                bind_value (alloc counted) _ (if_false _ _ some_free (if_false _ _ room e)) in
              let (m, _, last) =
                bind_value (map_page ops f (record x { ppage_id = a.0 }) a.1) _ maps in
              ground (arith, last)
        ]
      ]

  evicting_rounds :
      (x y : Context E X) (c d : Cache E S W)
      → evicting_phase ops f x c ≡ some (true, y, d)
      → x.processing ≡ false
      → (y.phase ≡ loading) × (y.processing ≡ false)
  unfolding evicting_phase
  evicting_rounds x y c d e idle =
      let (r, _, last) = bind_value (release_victim ops f x c) _ (if_false _ _ idle e) in
      call_load_rounds
        (record x {
          phase = loading;
          external_state = some x.ppage_id;
          external_context = f.default_context;
        })
        y _ d last

  loading_rounds :
      (x y : Context E X) (c d : Cache E S W)
      → x.processing ≡ false
      → loading_phase ops f x c ≢ some (true, y, d)
  unfolding loading_phase
  loading_rounds x y c d idle e = ground (arith, e, idle)

  initing_rounds :
      (k : Kind) (x y : Context E X) (c d : Cache E S W)
      → x.kind ≡ k
      → initing_phase ops f x c ≡ some (true, y, d)
      → (y.phase ≡ evicting) × (y.processing ≡ false)
  unfolding initing_phase
  initing_rounds unpin_call x y c d is e = absurd (unpin_rounds x y c d (ground (arith, is, e)))
  initing_rounds pin_call x y c d is e = elim (Bool-cases x.pte.exist) [
    | inl here ↦ absurd (hit_rounds x y c d (ground (arith, is, e, here)))
    | inr gone ↦ miss_rounds x y c d (ground (arith, is, e, gone))
  ]

  step-rounds :
      (p : Phase) (x y : Context E X) (c d : Cache E S W)
      → x.phase ≡ p
      → step ops f x c ≡ some (true, y, d)
      → rounds y < rounds x
  unfolding step initing_phase evicting_phase loading_phase
  step-rounds begin x y c d at e =
      let next = begin_rounds x y c d (ground (arith, at, e)) in ground (arith, at, next)
  step-rounds initing x y c d at e =
      let next = initing_rounds x.kind x y c d refl (ground (arith, at, e)) in
      ground (arith, at, next)
  step-rounds evicting x y c d at e = elim (Bool-cases x.processing) [
    | inl waits ↦
        let next = call_evict_rounds x y c d (ground (arith, at, e, waits)) in
        ground (arith, at, next, waits)
    | inr idle ↦
        let next = evicting_rounds x y c d (ground (arith, at, e)) idle in
        ground (arith, at, next, idle)
  ]
  step-rounds loading x y c d at e = elim (Bool-cases x.processing) [
    | inl waits ↦
        let next = call_load_rounds x y c d (ground (arith, at, e, waits)) in
        ground (arith, at, next, waits)
    | inr idle ↦ absurd (loading_rounds x y c d idle (ground (arith, at, e)))
  ]
  step-rounds ended x y c d at e = absurd (ground (arith, at, e))

  rounds_pos : (x : Context E X) → 0 < rounds x
  rounds_pos x = ground arith

  rounds_few : (x : Context E X) → rounds x ≤ 4
  rounds_few x = ground arith

  run_alike :
      (n m : ℕ) (x : Context E X) (c : Cache E S W)
      → rounds x ≤ n
      → rounds x ≤ m
      → run ops f n x c ≡ run ops f m x c
  unfolding run
  run_alike zero m x c few few' = absurd (omega (arith, rounds_pos x, few))
  run_alike (suc n) zero x c few few' = absurd (omega (arith, rounds_pos x, few'))
  run_alike (suc n) (suc m) x c few few' = elim (Option-cases (step ops f x c)) [
    | inl e ↦ rw e refl
    | inr ((again, y, d), e) ↦ elim (Bool-cases again) [
      | inr last ↦ rw (e, last) refl
      | inl more ↦
          let fewer = step-rounds x.phase x y c d refl (rw (← more) e) in
          rw (e, more) (run_alike n m y d (omega (arith, fewer, few)) (omega (arith, fewer, few')))
    ]
  ]

  -- The loop of `process`, from any context and cache: each round that lets it go on leaves fewer
  -- rounds than before by a measure of the phase, and on fuel of four rounds or more the loop does what
  -- it does on four, which `process` has.
  pub process-rounds :
      (x : Context E X) (c : Cache E S W)
      → ((y : Context E X) (d : Cache E S W)
          → step ops f x c ≡ some (true, y, d)
          → rounds y < rounds x)
        × ((n : ℕ) → 4 ≤ n → run ops f n x c ≡ process ops f x c)
  unfolding process
  process-rounds x c = (
    λ y d e. step-rounds x.phase x y c d refl e,
    λ n enough.
        run_alike n 4 x c (omega (arith, rounds_few x, enough)) (omega (arith, rounds_few x)),
  )

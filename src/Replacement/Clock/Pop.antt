-- ===== src/Replacement/Clock/Pop.antt =====
-- `pop` of class `Clock` of include/replacement.hpp: its end, and its choice.
use tri_cache.Base.{
  ℕ, zero, suc, ◌-◌, ◌*◌, ◌≤◌, ◌<◌, ◌==◌, if◌then◌else◌, get_or, count-pos, count_witness, true,
  false, Returns, Bool-cases, ◌≡◌, refl, ◌⊎◌, inl, inr, arith, ◌∙◌, ap,
}
use tri_cache.Replacement.Clock.{Clock, state, turn, seek, evict, finish, pop}
use tri_cache.Replacement.Clock.Sweep.{
  resident, IsValid, gap, cost, Sweeps, sweep-Sweeps, turn_hand,
}
use tri_cache.Replacement.Clock.Laws.{Holds, write-Holds}

-- The second loop of `pop` moves the hand only, and not past the first page in state 1.
record Seeks (l : ℕ) (c d : Clock) : Type 0 where
  same_max : d.max_ppage_id ≡ c.max_ppage_id
  same_count : d.count ≡ c.count
  same_states : d.states ≡ c.states
  hand_lt : d.hand < c.max_ppage_id
  found :
      (i : ℕ)
      → i < c.max_ppage_id
      → state c i ≡ 1
      → gap c.max_ppage_id c.hand i < l
      → state c d.hand ≡ 1

Seeks-stay :
    (l : ℕ) (c : Clock)
    → c.hand < c.max_ppage_id
    → (l ≡ 0 ⊎ (state c c.hand ≡ 1) ⊎ (l ≡ 1))
    → Seeks l c c
Seeks-stay l c h why = record {
  same_max = refl;
  same_count = refl;
  same_states = refl;
  hand_lt = h;
  found = λ i lt q g. ground arith;
}

seek-Seeks : (l : ℕ) (c : Clock) → c.hand < c.max_ppage_id → Seeks l c (seek l c)
unfolding seek
seek-Seeks zero c h = Seeks-stay 0 c h (inl refl)
seek-Seeks (suc l) c h = elim (Bool-cases (state c c.hand == 1)) [
  | inl e ↦ rw e (Seeks-stay (suc l) c h (ground arith))
  | inr e ↦ elim (Bool-cases (l == 0)) [
    | inl z ↦ rw (e, z) (Seeks-stay (suc l) c h (ground arith))
    | inr more ↦
        let r = seek-Seeks l (turn c) (grind arith) in
        rw (e, more)
          record {
            same_max = r.same_max;
            same_count = r.same_count;
            same_states = r.same_states;
            hand_lt = r.hand_lt;
            found = λ i lt q g. r.found i lt q (ground (arith, turn_hand c h));
          }
  ]
]

-- What `pop` returns on `c`: page `v`, the page `n` under the hand, and the clock `d`.
pub record Pops (loops : ℕ) (c : Clock) (v n : ℕ) (d : Clock) : Type 0 where
  pub holds : Holds c (λ i. if v == i then false else resident (state c i)) (c.count - 1) d
  pub taken : (v < c.max_ppage_id) × (resident (state c v) ≡ true)
  pub nearest : (i : ℕ) → i < c.max_ppage_id → resident (state c i) ≡ true → cost c v ≤ cost c i
  pub next : (n ≡ d.hand) × (n < c.max_ppage_id)
  pub hint :
      (i : ℕ) → i < c.max_ppage_id → state d i ≡ 1 → gap c.max_ppage_id v i < loops → state d n ≡ 1

module _ (loops : ℕ) (c d : Clock) (valid : IsValid c) (s : Sweeps c d) where
  evicted :
      Holds d (λ i. if d.hand == i then false else resident (state d i)) (d.count - 1) (evict d)
  unfolding evict
  evicted = write-Holds d s.valid d.hand s.valid.hand_lt 0 (d.count - 1) (omega arith) (
      ground (
        arith,
        s.stopped,
        count_witness resident d.states d.hand 0,
        s.valid.hand_lt,
        s.valid.sized,
        s.valid.counted,
      ))

  finish-Pops : Pops loops c (finish loops d).0 (finish loops d).1 (finish loops d).2
  unfolding finish
  finish-Pops =
      let w = evicted in
      let k = seek-Seeks loops (evict d) s.valid.hand_lt in
      let kept : (i : ℕ) → state (seek loops (evict d)) i ≡ state (evict d) i =
        λ i. ap (λ t. get_or t i 0) k.same_states in
      record {
        holds = record {
          valid = record {
            hand_lt = omega (arith, k.hand_lt, k.same_max);
            sized = ground (arith, k.same_states, k.same_max, w.valid.sized);
            counted = ground (arith, k.same_states, k.same_count, w.valid.counted);
            small = λ i. ground (arith, kept i, w.valid.small i);
          };
          same_max = k.same_max ∙ w.same_max ∙ s.same_max;
          total_lem = omega (arith, k.same_count, w.total_lem, s.same_count);
          reads = λ i. ground (arith, kept i, w.reads i, s.kept i);
        };
        taken =
            (omega (arith, s.valid.hand_lt, s.same_max), ground (arith, s.kept d.hand, s.stopped));
        nearest = s.nearest;
        next = (refl, omega (arith, k.hand_lt, s.same_max));
        hint = λ i lt q g.
            ground (arith, kept i, kept (seek loops (evict d)).hand, k.found i, s.same_max);
      }

-- From a valid clock that holds a page, `pop` returns a resident page, the one whose distance from the
-- hand, with a turn more if it was used, is least; it is resident no more and all others still are; the
-- second page is the one under the hand, and is resident and unused if such a page is within 1024 steps.
pub pop-Pops :
    (c : Clock) → IsValid c → 0 < c.count → Returns (pop c) (λ r. Pops 1024 c r.0 r.1 r.2)
unfolding pop
pop-Pops c valid some_left =
    let (i, lt, r) = count-pos resident c.states 0 (omega (arith, valid.counted)) in
    let (d, run, s) =
      sweep-Sweeps (2 * c.max_ppage_id) c i valid (omega (arith, valid.sized)) r
        (ground (arith, valid.sized, valid.hand_lt)) in
    let e : (c.count == 0) ≡ false = ground arith in
    (finish 1024 d, rw (e, run), finish-Pops 1024 c d valid s)

-- From a valid clock in which some page is resident and not used since the hand last passed it, `pop`
-- returns a page that is resident and not used.
pub pop_second_chance :
    (c : Clock) (i : ℕ)
    → IsValid c
    → i < c.max_ppage_id
    → state c i ≡ 1
    → Returns (pop c) (λ r. state c r.0 ≡ 1)
pop_second_chance c i valid lt one =
    let some_left : 0 < c.count = omega (
      arith,
      valid.counted,
      count_witness resident c.states i 0 (omega (arith, valid.sized)) (ground arith),
    ) in
    let (r, run, p) = pop-Pops c valid some_left in
    (r, run, ground (arith, p.nearest i, p.taken, valid.small r.0, valid.hand_lt))

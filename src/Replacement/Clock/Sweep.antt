-- ===== src/Replacement/Clock/Sweep.antt =====
-- The first loop of `Clock.pop`: how far each resident page is from being taken.
use tri_cache.Base.{
  ℕ, zero, suc, ◌+◌, ◌-◌, ◌≤◌, ◌<◌, ◌==◌, if◌then◌else◌, leb, length, length-set, get_or-set, count,
  count-set, Bool, true, not, Returns, Bool-cases, ◌≡◌, refl, ◌≢◌, inl, inr, arith, sym, ◌∙◌,
}
use tri_cache.Replacement.Clock.{Clock, state, demote, turn, sweep}

-- The pages that the policy holds are those with a state other than 0.
abbrev pub resident : ℕ → Bool
resident s = not (s == 0)

pub record IsValid (c : Clock) : Type 0 where
  pub hand_lt : c.hand < c.max_ppage_id
  pub sized : length c.states ≡ c.max_ppage_id
  pub counted : count resident c.states ≡ c.count
  pub small : (i : ℕ) → state c i ≤ 2

-- Steps of a hand at `hand` to page `i`, among `max` pages.
abbrev pub gap : ℕ → ℕ → ℕ → ℕ
gap max hand i = if leb hand i then i - hand else i + max - hand

-- Steps of the hand until page `i` would be taken: a used page is passed once.
abbrev pub cost : Clock → ℕ → ℕ
cost c i = gap c.max_ppage_id c.hand i + (if state c i == 2 then c.max_ppage_id else 0)

pub turn_hand :
    (c : Clock)
    → c.hand < c.max_ppage_id
    → (turn c).hand ≡ (if c.hand + 1 == c.max_ppage_id then 0 else c.hand + 1)
unfolding turn
turn_hand c h = grind arith

module _ (c : Clock) (valid : IsValid c) where
  state-demote :
      (i : ℕ)
      → state (demote c) i
        ≡ (if c.hand == i then if state c i == 2 then 1 else state c i else state c i)
  unfolding demote
  state-demote i = ground (arith, get_or-set c.states c.hand i 1 0, valid.hand_lt, valid.sized)

  hand-demote : (demote c).hand ≡ (if c.hand + 1 == c.max_ppage_id then 0 else c.hand + 1)
  unfolding demote
  hand-demote = ground (arith, turn_hand c valid.hand_lt)

  max-demote : (demote c).max_ppage_id ≡ c.max_ppage_id
  unfolding demote
  max-demote = ground arith

  count-demote : (demote c).count ≡ c.count
  unfolding demote
  count-demote = ground arith

  demote-IsValid : IsValid (demote c)
  unfolding demote
  demote-IsValid = record {
    hand_lt = ground (arith, turn_hand c valid.hand_lt, valid.hand_lt);
    sized = ground (arith, length-set c.states c.hand 1, valid.sized);
    counted =
        ground (
          arith,
          count-set resident c.states c.hand 1 0,
          valid.sized,
          valid.hand_lt,
          valid.counted,
        );
    small = λ i. ground (arith, state-demote i, valid.small i);
  }

  -- The round brings every resident page one step nearer.
  cost-demote :
      (i : ℕ)
      → i < c.max_ppage_id
      → state c c.hand ≢ 1
      → resident (state c i) ≡ true
      → cost c i ≡ suc (cost (demote c) i)
  cost-demote i lt live r =
      ground (arith, state-demote i, hand-demote, max-demote, valid.hand_lt, valid.small i)

  resident-demote : (i : ℕ) → resident (state (demote c) i) ≡ resident (state c i)
  resident-demote i = ground (arith, state-demote i)

-- The hand of `d` stands at the resident page nearest to the hand of `c`; only uses are forgotten.
pub record Sweeps (c d : Clock) : Type 0 where
  pub valid : IsValid d
  pub stopped : state d d.hand ≡ 1
  pub same_max : d.max_ppage_id ≡ c.max_ppage_id
  pub same_count : d.count ≡ c.count
  pub kept : (i : ℕ) → resident (state d i) ≡ resident (state c i)
  pub nearest :
      (i : ℕ) → i < c.max_ppage_id → resident (state c i) ≡ true → cost c d.hand ≤ cost c i

Sweeps-here : (c : Clock) → IsValid c → state c c.hand ≡ 1 → Sweeps c c
Sweeps-here c valid stop = record {
  valid = valid;
  stopped = stop;
  same_max = refl;
  same_count = refl;
  kept = λ i. refl;
  nearest = λ i lt r. ground arith;
}

Sweeps-later : (c d : Clock) → IsValid c → state c c.hand ≢ 1 → Sweeps (demote c) d → Sweeps c d
Sweeps-later c d valid live s = record {
  valid = s.valid;
  stopped = s.stopped;
  same_max = s.same_max ∙ max-demote c valid;
  same_count = s.same_count ∙ count-demote c valid;
  kept = λ i. s.kept i ∙ resident-demote c valid i;
  nearest = λ i lt r.
      let v = d.hand in
      let held : resident (state c v) ≡ true =
        sym (s.kept v ∙ resident-demote c valid v) ∙ ground (arith, s.stopped) in
      let in_range : v < c.max_ppage_id =
        ground (arith, s.valid.hand_lt, s.same_max, max-demote c valid) in
      omega (
        arith,
        cost-demote c valid v in_range live held,
        cost-demote c valid i lt live r,
        s.nearest i (rw max-demote lt) (resident-demote c valid i ∙ r),
      );
}

-- Fuel above the cost of some resident page is enough.
pub sweep-Sweeps :
    (f : ℕ) (c : Clock) (i : ℕ)
    → IsValid c
    → i < c.max_ppage_id
    → resident (state c i) ≡ true
    → cost c i < f
    → Returns (sweep f c) (Sweeps c)
unfolding sweep
sweep-Sweeps zero c i valid lt r h = elim h [ ]
sweep-Sweeps (suc f) c i valid lt r h = elim (Bool-cases (state c c.hand == 1)) [
  | inl stop ↦ (c, rw stop, Sweeps-here c valid (ground arith))
  | inr go ↦
      let live : state c c.hand ≢ 1 = ground arith in
      let (d, run, s) =
        sweep-Sweeps f (demote c) i (demote-IsValid c valid) (rw max-demote lt)
          (resident-demote c valid i ∙ r) (omega (arith, cost-demote c valid i lt live r)) in
      (d, rw (go, run), Sweeps-later c d valid live s)
]

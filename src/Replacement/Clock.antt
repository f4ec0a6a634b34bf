-- ===== src/Replacement/Clock.antt =====
-- include/replacement.hpp, class `Clock`. A state is 0 (not resident), 1 (resident) or 2 (resident
-- and used since the hand last passed).
pub mod Sweep
pub mod Laws
pub mod Pop
use tri_cache.Base.{
  ℕ, zero, suc, ◌+◌, ◌-◌, ◌*◌, ◌%◌, ◌==◌, if◌then◌else◌, ltb, List, get_or, set, replicate, Option,
  none, some,
}

pub record Clock : Type 0 where
  pub max_ppage_id : ℕ
  pub hand : ℕ
  pub count : ℕ
  pub states : List ℕ

-- the constructor
unfoldable pub new : ℕ → Clock
new max = record { max_ppage_id = max; hand = 0; count = 0; states = replicate max 0 }

abbrev pub state : Clock → ℕ → ℕ
state c i = get_or c.states i 0

abbrev pub set_state : Clock → ℕ → ℕ → Clock
set_state c i v = record c { states = set c.states i v }

-- `assert(states[ppage_id] != 0)`; a failed assertion is `none`.
unfoldable pub access : ℕ → Clock → Option Clock
access i c = if state c i == 0 then none else some (set_state c i 2)

unfoldable pub push : ℕ → Clock → Option Clock
unfolding access
push i c =
    if state c i == 0
    then some (record c { count = c.count + 1; states = set c.states i 2 })
    else access i c

unfoldable pub erase : ℕ → Clock → Clock
erase i c =
    if state c i == 0 then c else record c { count = c.count - 1; states = set c.states i 0 }

unfoldable pub size : Clock → ℕ
size c = c.count

-- `hand = (hand + 1) % max_ppage_id`
unfoldable pub turn : Clock → Clock
turn c = record c { hand = (c.hand + 1) % c.max_ppage_id }

-- One round of the first loop of `pop`.
unfoldable pub demote : Clock → Clock
unfolding turn
demote c = turn (if state c c.hand == 2 then set_state c c.hand 1 else c)

-- `while (states[hand] != 1)`, on fuel.
unfoldable pub sweep : ℕ → Clock → Option Clock
unfolding demote
sweep zero c = none
sweep (suc f) c = let rest = sweep f (demote c) in if state c c.hand == 1 then some c else rest

-- `while (states[hand] != 1 && --loops)`: `loops` is `suc l` at the test.
unfoldable pub seek : ℕ → Clock → Clock
unfolding turn
seek zero c = c
seek (suc l) c =
    let rest = seek l (turn c) in if state c c.hand == 1 then c else if l == 0 then c else rest

-- `states[hand] = 0; count--;`
unfoldable pub evict : Clock → Clock
evict c = record c { count = c.count - 1; states = set c.states c.hand 0 }

-- The victim, the page under the hand after the second loop, and the clock.
unfoldable pub finish : ℕ → Clock → ℕ × ℕ × Clock
unfolding evict
finish loops c = let c' = seek loops (evict c) in (c.hand, c'.hand, c')

-- `assert(count > 0)`; two turns of the hand are enough fuel.
unfoldable pub pop : Clock → Option (ℕ × ℕ × Clock)
pop c =
    if c.count == 0
    then none
    else elim (sweep (2 * c.max_ppage_id) c) [ none ↦ none | some d ↦ some (finish 1024 d) ]

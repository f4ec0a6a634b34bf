-- ===== src/Tests/ClockTests.antt =====
-- The replacement policies of include/replacement.hpp on small inputs.
use tri_cache.Base.{◌≡◌, some, [], ◌∷◌, get_or, set, replicate, count, Returns, refl, arith}
use tri_cache.Replacement.Clock.{Clock, new, push, access, erase, pop, sweep, seek, finish, demote}
use tri_cache.Replacement.Clock.Sweep.{IsValid}
use tri_cache.Replacement.Clock.Laws.{new-IsValid}
use tri_cache.Replacement.Clock.Pop.{Pops, pop-Pops}

program : Unit {0}
unfolding new push access erase pop sweep seek finish demote get_or set replicate count
program = tt

-- Pages 0 and 2 of 4 are resident; page 2 is not used.
abbrev two_pages : Clock
two_pages = record { max_ppage_id = 4; hand = 0; count = 2; states = 2 ∷ 0 ∷ 1 ∷ 0 ∷ [] }

two_pages-IsValid : IsValid two_pages
unfolding program
two_pages-IsValid = record {
  hand_lt = omega arith;
  sized = refl;
  counted = refl;
  small = λ i. ground arith;
}

pop-two_pages :
    pop two_pages
    ≡ some (2, 0, record { max_ppage_id = 4; hand = 0; count = 1; states = 1 ∷ 0 ∷ 0 ∷ 0 ∷ [] })
unfolding program
pop-two_pages = refl

pop-Pops_example : Returns (pop two_pages) (λ r. Pops 1024 two_pages r.0 r.1 r.2)
pop-Pops_example = pop-Pops two_pages two_pages-IsValid (omega arith)

new-IsValid_4 : IsValid (new 4)
new-IsValid_4 = new-IsValid 4 (omega arith)

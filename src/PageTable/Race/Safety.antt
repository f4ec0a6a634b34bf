-- ===== src/PageTable/Race/Safety.antt =====
-- The guarantees of the page table's reference counter and lock, in every interleaving.
use tri_cache.PageTable.Race.Invariant.{owns, reserved-le-owns, Reach-Inv}
use tri_cache.Base.{
  ℕ, ◌+◌, ◌<◌, ◌≡◌, ◌≢◌, Bool, true, false, none, length, get_or, refl, arith, tally, tally_one,
  tally_two, tally-le_of_le, get_or_outside, dec_lt,
}
use tri_cache.PageTable.Header.{dec_body, unlock_body, Header}
use tri_cache.PageTable.Race.{
  empty_ppage_id, System, Stage, locked, owner, idle, unpinning, unlocking, storing, Reach, pins,
  reserved,
}

-- In the runs in which fewer than 2^13 references are taken at once: while a thread owns the lock
-- of a page, nobody has a reference to the page that is not given back, no thread is about to read
-- or to give back one, and no other thread owns the lock.
pub lock_excludes :
    {n : ℕ} {s : System}
    → Reach n s
    → (i j : ℕ) → i < length s.threads
    → owns (get_or s.threads i idle) ≡ 1
    → (length s.held ≡ 0)
      × (pins (get_or s.threads j idle) ≡ 0)
      × (i ≢ j → owns (get_or s.threads j idle) ≡ 0)
lock_excludes {s} r i j lt own =
    let inv = Reach-Inv r in
    let one = tally_one owns s.threads i idle lt in
    elim (dec_lt j (length s.threads)) [
      | yes l ↦ (
        ground (arith, one, inv.owned, inv.apart),
        ground (arith, one, tally_one pins s.threads j idle l, inv.owned, inv.apart),
        λ ne. ground (arith, tally_two owns s.threads i j idle lt l ne, inv.owned),
      )
      | no l ↦
          rw (get_or_outside s.threads j idle (omega arith))
            (ground (arith, one, inv.owned, inv.apart), refl, λ ne. refl)
    ]

-- In the runs in which fewer than 2^13 references are taken at once: a page that is not locked is
-- counted exactly: `ref_count` is the number of references that are taken and not given back, and
-- that number is 0 when the page is absent.
pub ref_count-tally :
    {n : ℕ} {s : System}
    → Reach n s
    → s.cell.header.busy ≡ false
    → (s.cell.header.ref_count ≡ tally pins s.threads + length s.held)
      × (s.cell.header.exist ≡ false → tally pins s.threads + length s.held ≡ 0)
ref_count-tally {s} r free =
    let inv = Reach-Inv r in
    ground (
      arith,
      tally-le_of_le reserved owns reserved-le-owns s.threads,
      inv.owned,
      inv.referenced,
      inv.present,
    )

-- In the runs in which fewer than 2^13 references are taken at once: what `pin` returned stays the
-- page's frame until that reference is given back, by whichever thread; the mapping is there, is
-- not locked, names the same frame, and has a reference.
pub pinned_stable :
    {n : ℕ} {s : System}
    → Reach n s
    → (k : ℕ) → k < length s.held
    → (s.cell.ppage_id ≡ get_or s.held k 0)
      × (get_or s.held k 0 < empty_ppage_id)
      × (s.cell.header.exist ≡ true)
      × (s.cell.header.busy ≡ false)
      × (0 < s.cell.header.ref_count)
pinned_stable {s} r k lt =
    let inv = Reach-Inv r in
    rw (inv.frames k lt) (ground (arith, inv.referenced, inv.present, inv.apart, inv.mapped))

-- In the runs in which fewer than 2^13 references are taken at once: the assertions hold:
-- `dec_ref_count` finds a mapped, unlocked page with a reference; `unlock` finds a locked one; and
-- after `lock` the page has no reference and is clean if it is absent.
pub assertions_hold :
    {n : ℕ} {s : System}
    → Reach n s
    → (i : ℕ)
    → ((w : Bool) (old : Header)
        → get_or s.threads i idle ≡ unpinning w old
        → dec_body w old ≢ none)
      × ((t : Stage) (old : Header)
          → get_or s.threads i idle ≡ unlocking t old
          → i < length s.threads
          → unlock_body old ≢ none)
      × (get_or s.threads i idle ≡ owner locked
          → (s.cell.header.ref_count ≡ 0)
            × (s.cell.header.exist ≡ false → s.cell.header.dirty ≡ false))
unfolding dec_body unlock_body
assertions_hold {s} r i =
    let inv = Reach-Inv r in
    (
      λ w old e. ground (arith, inv.fresh i),
      λ t old e lt. ground (arith, inv.fresh i, tally_one owns s.threads i idle lt, inv.owned),
      λ e. ground (arith, inv.fresh i),
    )

-- In the runs in which fewer than 2^13 references are taken at once: the plain read-modify-write of
-- the owner loses no update: at its store the word is still the one it loaded.
pub store_loses_nothing :
    {n : ℕ} {s : System} {t : Stage} {old : Header}
    → Reach n s
    → (i : ℕ) → get_or s.threads i idle ≡ storing t old
    → s.cell.header ≡ old
store_loses_nothing r i e = let inv = Reach-Inv r in ground (arith, inv.fresh i)

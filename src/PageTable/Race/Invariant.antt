-- ===== src/PageTable/Race/Invariant.antt =====
-- What holds of one page in every state that the threads can reach.
use tri_cache.Base.{
  ap, get_or_outside, tally_two, inr, inl, dec_lt, get_or-set, inl, ◌==◌, tally_one, Bool-cases,
  tally-set, ℕ, ◌+◌, ◌^◌, ◌≤◌, ◌<◌, if◌then◌else◌, true, false, ◌≡◌, refl, ◌∙◌, sym, [], ◌∷◌, zero,
  suc, List, length, get_or, set, get_or-replicate, arith, tally, tally-replicate,
}
use tri_cache.PageTable.Header.{inc_body, dec_body, lock_body, unlock_body}
use tri_cache.PageTable.Race.{
  start, later, Reach, pick, Step, later, pick, Reach, Step, System, Cell, empty_ppage_id, Stage,
  locked, exist_set, ppage_set, created, exist_cleared, dirty_cleared, deleted, Pc, idle, pins,
  reserved, references, remove, pin_read, unpin_load, unpinning, owner, storing, unlocking, Write,
  Move, init,
}

abbrev pub owns : Pc → ℕ
owns (owner _) = 1
owns (storing _ _) = 1
owns (unlocking _ _) = 1
owns _ = 0

abbrev pub IsAbsent : Cell → Type 0
IsAbsent c = (c.header.exist ≡ false) × (c.header.dirty ≡ false) × (c.ppage_id ≡ empty_ppage_id)

abbrev pub IsMapped : Cell → Type 0
IsMapped c = (c.header.exist ≡ true) × (c.ppage_id < empty_ppage_id)

-- What the owner may rely on at each stage.
abbrev pub StageFacts : Stage → Cell → Type 0
StageFacts locked c =
    (c.header.ref_count ≡ 0)
    × (c.header.exist ≡ false → IsAbsent c)
    × (c.header.exist ≡ true → IsMapped c)
StageFacts exist_set c =
    (c.header.ref_count ≡ 0) × (c.header.exist ≡ true) × (c.header.dirty ≡ false)
StageFacts ppage_set c = (c.header.ref_count ≡ 0) × IsMapped c × (c.header.dirty ≡ false)
StageFacts created c = (c.header.ref_count ≡ 1) × IsMapped c × (c.header.dirty ≡ false)
StageFacts exist_cleared c = (c.header.ref_count ≡ 0) × (c.header.exist ≡ false)
StageFacts dirty_cleared c =
    (c.header.ref_count ≡ 0) × (c.header.exist ≡ false) × (c.header.dirty ≡ false)
StageFacts deleted c = (c.header.ref_count ≡ 0) × IsAbsent c

-- What a thread's place says about the cell.
abbrev pub IsFresh : Cell → Pc → Type 0
IsFresh c (unpinning _ old) = (old.exist ≡ true) × (old.busy ≡ false) × (0 < old.ref_count)
IsFresh c (owner s) = StageFacts s c
IsFresh c (storing s old) = (c.header ≡ old) × StageFacts s c
IsFresh c (unlocking s old) = (c.header ≡ old) × StageFacts s c
IsFresh c _ = Unit

pub record Inv (c : Cell) (ps : List Pc) (held : List ℕ) : Type 0 where
  pub referenced : c.header.ref_count ≡ tally pins ps + tally reserved ps + length held
  pub owned : tally owns ps ≡ (if c.header.busy then 1 else 0)
  pub apart : c.header.busy ≡ true → tally pins ps + length held ≡ 0
  pub present : 0 < c.header.ref_count → c.header.exist ≡ true
  pub absent : c.header.busy ≡ false → c.header.exist ≡ false → IsAbsent c
  pub mapped : c.header.busy ≡ false → c.header.exist ≡ true → IsMapped c
  pub fresh : (i : ℕ) → IsFresh c (get_or ps i idle)
  pub frames : (k : ℕ) → k < length held → get_or held k 0 ≡ c.ppage_id

Inv-init : (n : ℕ) → Inv (init n).cell (init n).threads []
Inv-init n = record {
  referenced =
      omega (arith, tally-replicate pins n idle refl, tally-replicate reserved n idle refl);
  owned = tally-replicate owns n idle refl;
  apart = λ e. cc;
  present = λ e. elim e [ ];
  absent = λ b e. (refl, refl, refl);
  mapped = λ b e. cc;
  fresh = λ i. rw get_or-replicate tt;
  frames = λ k lt. absurd (omega (arith, lt));
}

module _ {c : Cell} {ps : List Pc} {held : List ℕ} (inv : Inv c ps held) (i : ℕ) where
  -- Thread `i` goes from `p` to `p'`.
  record Mover (p p' : Pc) : Type 0 where
    here : get_or ps i idle ≡ p
    own : IsFresh c p
    pins_moved : tally pins (set ps i p') + pins p ≡ tally pins ps + pins p'
    reserved_moved : tally reserved (set ps i p') + reserved p ≡ tally reserved ps + reserved p'
    owns_moved : tally owns (set ps i p') + owns p ≡ tally owns ps + owns p'
    room : tally pins (set ps i p') + tally reserved (set ps i p') + length held < 2 ^ 13
    counts : (pins p ≤ tally pins ps) × (reserved p ≤ tally reserved ps) × (owns p ≤ tally owns ps)

  Move-totals : {p p' : Pc} {c' : Cell} → Move c p c' p' → Mover p p' → record {
    referenced :
        c'.header.ref_count ≡ tally pins (set ps i p') + tally reserved (set ps i p') + length held;
    owned : tally owns (set ps i p') ≡ (if c'.header.busy then 1 else 0);
    apart : c'.header.busy ≡ true → tally pins (set ps i p') + length held ≡ 0;
  }
  unfolding inc_body dec_body lock_body unlock_body
  Move-totals (Move.pin_win e q) f = ground arith
  Move-totals (Move.unpin_win e q) f = ground arith
  Move-totals (Move.lock_win e q) f = ground arith
  Move-totals (Move.unlock_created e q) f = ground arith
  Move-totals (Move.unlock_deleted e q) f = ground arith
  Move-totals (Move.write_store (Write.set_exist _ g)) f = ground arith
  Move-totals (Move.write_store (Write.set_ref_count _)) f = ground arith
  Move-totals (Move.write_store (Write.clear_exist _ g)) f = ground arith
  Move-totals (Move.write_store (Write.clear_dirty _)) f = ground arith
  Move-totals (Move.write_load w) f = ground arith
  Move-totals mv f = ground arith

  Move-local : {p p' : Pc} {c' : Cell} → Move c p c' p' → Mover p p' → record {
    present : 0 < c'.header.ref_count → c'.header.exist ≡ true;
    absent : c'.header.busy ≡ false → c'.header.exist ≡ false → IsAbsent c';
    mapped : c'.header.busy ≡ false → c'.header.exist ≡ true → IsMapped c';
    own : IsFresh c' p';
  }
  unfolding inc_body dec_body lock_body unlock_body
  Move-local (Move.pin_win e q) f = ground arith
  Move-local (Move.unpin_win e q) f = ground arith
  Move-local (Move.lock_win e q) f = ground arith
  Move-local (Move.unlock_created e q) f = ground arith
  Move-local (Move.unlock_deleted e q) f = ground arith
  Move-local (Move.write_store (Write.set_exist _ g)) f = ground arith
  Move-local (Move.write_store (Write.set_ref_count _)) f = ground arith
  Move-local (Move.write_store (Write.clear_exist _ g)) f = ground arith
  Move-local (Move.write_store (Write.clear_dirty _)) f = ground arith
  Move-local (Move.put_ppage k l) f = ground arith
  Move-local (Move.write_load w) f = ground arith
  Move-local mv f = ground arith

  -- A move changes nothing that another thread relies on.
  Move-others :
      {p p' : Pc} {c' : Cell} (mv : Move c p c' p')
      → Mover p p'
      → (q : Pc) → owns q + owns p ≤ tally owns ps
      → pins q ≤ tally pins ps
      → IsFresh c q
      → IsFresh c' q
  unfolding inc_body dec_body lock_body unlock_body
  Move-others (Move.pin_win e t) f q o k h = ground arith
  Move-others (Move.unpin_win e t) f q o k h = ground arith
  Move-others (Move.lock_win e t) f q o k h = ground arith
  Move-others (Move.unlock_created e t) f q o k h = ground arith
  Move-others (Move.unlock_deleted e t) f q o k h = ground arith
  Move-others (Move.write_store (Write.set_exist _ g)) f q o k h = ground arith
  Move-others (Move.write_store (Write.set_ref_count _)) f q o k h = ground arith
  Move-others (Move.write_store (Write.clear_exist _ g)) f q o k h = ground arith
  Move-others (Move.write_store (Write.clear_dirty _)) f q o k h = ground arith
  Move-others (Move.put_ppage m l) f q o k h = ground arith
  Move-others Move.clear_ppage f q o k h = ground arith
  Move-others mv f q o k h = h

  -- The page keeps its frame while a reference is held.
  Move-frame :
      {p p' : Pc} {c' : Cell}
      → Move c p c' p'
      → Mover p p'
      → 0 < length held
      → c'.ppage_id ≡ c.ppage_id
  Move-frame (Move.put_ppage k l) f some_held = ground arith
  Move-frame Move.clear_ppage f some_held = ground arith
  Move-frame mv f some_held = refl

  abbrev Room : Pc → Type 0
  Room p' = tally pins (set ps i p') + tally reserved (set ps i p') + length held < 2 ^ 13

  mover : i < length ps → (p' : Pc) → Room p' → Mover (get_or ps i idle) p'
  mover lt p' room = record {
    here = refl;
    own = inv.fresh i;
    pins_moved = tally-set pins ps i p' idle lt;
    reserved_moved = tally-set reserved ps i p' idle lt;
    owns_moved = tally-set owns ps i p' idle lt;
    room = room;
    counts =
        (tally_one pins ps i idle lt, tally_one reserved ps i idle lt, tally_one owns ps i idle lt);
  }

  Move-IsFresh :
      {p' : Pc} {c' : Cell}
      → i < length ps
      → Move c (get_or ps i idle) c' p'
      → Room p'
      → (j : ℕ) → IsFresh c' (get_or (set ps i p') j idle)
  Move-IsFresh {p'} lt mv room j = elim (Bool-cases (i == j)) [
    | inl e ↦ rw (get_or-set ps i j p' idle lt, e) (Move-local mv (mover lt p' room)).own
    | inr e ↦
        rw (get_or-set ps i j p' idle lt, e)
          (elim (dec_lt j (length ps)) [
            | yes l ↦
                Move-others mv (mover lt p' room) (get_or ps j idle)
                  (omega (arith, tally_two owns ps j i idle l lt (ground arith)))
                  (tally_one pins ps j idle l) (inv.fresh j)
            | no l ↦ rw (get_or_outside ps j idle (omega arith)) tt
          ])
  ]

  Move-Inv :
      {p' : Pc} {c' : Cell}
      → i < length ps
      → Move c (get_or ps i idle) c' p'
      → Room p'
      → Inv c' (set ps i p') held
  Move-Inv {p'} lt mv room =
      let t = Move-totals mv (mover lt p' room) in
      let l = Move-local mv (mover lt p' room) in
      record {
        referenced = t.referenced;
        owned = t.owned;
        apart = t.apart;
        present = l.present;
        absent = l.absent;
        mapped = l.mapped;
        fresh = Move-IsFresh lt mv room;
        frames =
            λ k lt'. inv.frames k lt' ∙ sym (Move-frame mv (mover lt p' room) (omega (arith, lt')));
      }

length-remove : (xs : List ℕ) (k : ℕ) → k < length xs → length xs ≡ suc (length (remove xs k))
length-remove [] k lt = absurd (omega (arith, lt))
length-remove (x ∷ xs) zero lt = refl
length-remove (x ∷ xs) (suc k) lt = ap suc (length-remove xs k (omega (arith, lt)))

frames-remove :
    {p : ℕ} (xs : List ℕ) (k : ℕ)
    → ((j : ℕ) → j < length xs → get_or xs j 0 ≡ p)
    → (j : ℕ) → j < length (remove xs k)
    → get_or (remove xs k) j 0 ≡ p
unfolding get_or
frames-remove [] k h j lt = h j lt
frames-remove (x ∷ xs) zero h j lt = h (suc j) (omega (arith, lt))
frames-remove (x ∷ xs) (suc k) h zero lt = h 0 (omega arith)
frames-remove (x ∷ xs) (suc k) h (suc j) lt =
    frames-remove xs k (λ m l. h (suc m) (omega (arith, l))) j (omega (arith, lt))

-- A reference goes from a thread to the list of held frames, or back.
handed-Inv :
    {c : Cell} {ps : List Pc} {held held' : List ℕ}
    → Inv c ps held
    → (i : ℕ) → i < length ps
    → (p' : Pc) → pins (get_or ps i idle) + length held ≡ pins p' + length held'
    → (reserved (get_or ps i idle) ≡ reserved p') × (owns (get_or ps i idle) ≡ owns p')
    → IsFresh c p'
    → ((k : ℕ) → k < length held' → get_or held' k 0 ≡ c.ppage_id)
    → Inv c (set ps i p') held'
handed-Inv {ps} inv i lt p' total same own frames =
    let e1 = tally-set pins ps i p' idle lt in
    let e2 = tally-set reserved ps i p' idle lt in
    let e3 = tally-set owns ps i p' idle lt in
    record {
      referenced = omega (arith, inv.referenced, e1, e2, total, same);
      owned = sym (omega (arith, e3, same)) ∙ inv.owned;
      apart = λ b. omega (arith, inv.apart b, e1, total);
      present = inv.present;
      absent = inv.absent;
      mapped = inv.mapped;
      fresh = λ j. elim (Bool-cases (i == j)) [
        | inl e ↦ rw (get_or-set ps i j p' idle lt, e) own
        | inr e ↦ rw (get_or-set ps i j p' idle lt, e) (inv.fresh j)
      ];
      frames = frames;
    }

frames-cons :
    {p : ℕ} (xs : List ℕ)
    → ((j : ℕ) → j < length xs → get_or xs j 0 ≡ p)
    → (j : ℕ) → j < length (p ∷ xs)
    → get_or (p ∷ xs) j 0 ≡ p
unfolding get_or
frames-cons xs h zero lt = refl
frames-cons xs h (suc j) lt = h j (omega (arith, lt))

-- Every step of every thread keeps the invariant.
pub Step-Inv :
    {s t : System}
    → Step s t
    → references t < 2 ^ 13
    → Inv s.cell s.threads s.held
    → Inv t.cell t.threads t.held
Step-Inv (pick i lt mv) room inv = Move-Inv inv i lt mv room
Step-Inv {s} (pin_read i lt at) room inv =
    handed-Inv inv i lt idle (omega (arith, ap pins at)) (ap reserved at, ap owns at) tt
      (frames-cons s.held inv.frames)
Step-Inv {s} (unpin_load i k w lt at inside) room inv =
    handed-Inv inv i lt (unpinning w s.cell.header)
      (omega (arith, ap pins at, length-remove s.held k inside)) (ap reserved at, ap owns at)
      (ground (arith, inv.referenced, inv.present, inv.apart, inside))
      (frames-remove s.held k inv.frames)

pub Reach-Inv : {n : ℕ} {s : System} → Reach n s → Inv s.cell s.threads s.held
Reach-Inv {n} start = Inv-init n
Reach-Inv (later r st room) = Step-Inv st room (Reach-Inv r)

pub reserved-le-owns : (p : Pc) → reserved p ≤ owns p
reserved-le-owns p = ground arith

-- ===== src/DirectCache.antt =====
-- include/direct_cache.hpp, class `DirectCache`: pages that stay pinned in the cache below, one at most in
-- each slot. The cache below is a parameter, and so is the type of the pointers it returns; the access
-- counters are left out.
pub mod Laws
use Prim.Native.Nat.{bit_and}
use tri_cache.Base.{
  ℕ, zero, suc, ◌+◌, ◌-◌, ◌^◌, ◌==◌, if◌then◌else◌, Bool, false, ◌||◌, Option, none, some, List,
  get_or, set, replicate,
}

-- What is called of the cache below.
pub record Below (P W : Type 0) : Type 0 where
  pub pin : ℕ → W → P × W
  pub unpin : ℕ → Bool → W → W
  pub thrown : W → Bool  -- whether the last `pin` has thrown

-- `EMPTY`
abbrev pub no_page : ℕ
no_page = 2 ^ 64 - 1

-- `std::pair<vpage_id_type, void *>`
pub record Slot (P : Type 0) : Type 0 where
  pub first : ℕ
  pub second : P

pub record DirectCache (P W : Type 0) : Type 0 where
  pub num_pinned : ℕ
  pub store : List (Slot P)
  pub dirty : List Bool
  pub world : W

module _ {P W : Type 0} (below : Below P W) (null : P) where
  abbrev pub no_slot : Slot P
  no_slot = record { first = no_page; second = null }

  -- The constructor, for a number of slots.
  unfoldable pub new_direct_cache : ℕ → W → DirectCache P W
  new_direct_cache num_pinned world = record {
    num_pinned = num_pinned;
    store = replicate num_pinned no_slot;
    dirty = replicate num_pinned false;
    world = world;
  }

  abbrev pub slot_at : DirectCache P W → ℕ → Slot P
  slot_at c i = get_or c.store i no_slot

  abbrev pub dirty_at : DirectCache P W → ℕ → Bool
  dirty_at c i = get_or c.dirty i false

  -- `vpage_id & num_pinned_mask`
  abbrev pub slot_of : DirectCache P W → ℕ → ℕ
  slot_of c vpage_id = bit_and vpage_id (c.num_pinned - 1)

  -- `cache.unpin` of the page in a slot, if there is one.
  abbrev pub give_back : ℕ → DirectCache P W → DirectCache P W
  give_back i c = record c {
    world =
        if (slot_at c i).first == no_page
        then c.world
        else below.unpin (slot_at c i).first (dirty_at c i) c.world;
  }

  -- The body of the loop of `flush`.
  abbrev pub empty_slot : ℕ → DirectCache P W → DirectCache P W
  empty_slot i c =
      let d = give_back i c in
      record d { store = set d.store i no_slot; dirty = set d.dirty i false }

  -- The loop of `flush`, on `n` slots from slot `i` on.
  unfoldable pub flush_from : ℕ → ℕ → DirectCache P W → DirectCache P W
  flush_from zero i c = c
  flush_from (suc n) i c = flush_from n (i + 1) (empty_slot i c)

  unfoldable pub flush : DirectCache P W → DirectCache P W
  unfolding flush_from
  flush c = flush_from c.num_pinned 0 c

  -- The page takes its slot, whose page has been given back. Where the pin of it throws, the slot
  -- has the number of the new page with the pointer and the mark of the old one.
  unfoldable pub take_slot : ℕ → DirectCache P W → Option P × DirectCache P W
  take_slot vpage_id c =
      let i = slot_of c vpage_id in
      let d = give_back i c in
      let (pointer, w) = below.pin vpage_id d.world in
      if below.thrown w
      then (
        none,
        record d {
          store = set d.store i (record { first = vpage_id; second = (slot_at d i).second });
          world = w;
        },
      )
      else (
        some pointer,
        record d {
          store = set d.store i (record { first = vpage_id; second = pointer });
          dirty = set d.dirty i false;
          world = w;
        },
      )

  -- What follows where the page is in its slot.
  abbrev pub mark_slot : ℕ → Bool → DirectCache P W → Option P × DirectCache P W
  mark_slot i is_write d =
      (some (slot_at d i).second, record d { dirty = set d.dirty i (dirty_at d i || is_write) })

  -- A thrown error is `none` for the pointer.
  unfoldable pub access : ℕ → Bool → DirectCache P W → Option P × DirectCache P W
  access vpage_id is_write c =
      let i = slot_of c vpage_id in
      if (slot_at c i).first == vpage_id
      then mark_slot i is_write c
      else (let (pointer, d) = take_slot vpage_id c in
          elim pointer [ none ↦ (none, d) | some p ↦ mark_slot i is_write d ])

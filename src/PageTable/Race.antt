-- ===== src/PageTable/Race.antt =====
-- One page of include/compact_hash_page_table.hpp under the threads that pin, unpin, map and unmap
-- it: `inc_ref_count`, `dec_ref_count`, `lock`, `unlock` with their loads and compare-exchanges as
-- separate steps, and the plain writes of `create_mapping` and `delete_mapping` under the lock. A
-- plain write of a bit-field loads the word and stores it back, in two steps.
-- `create_mapping` counts one reference, as every call in include/ asks. A thread may take any number of
-- references, and one thread may give back what another has taken, as a client does with a pin of its server.
pub mod Invariant
pub mod Safety
use tri_cache.Base.{
  ℕ, zero, suc, ◌+◌, [], ◌∷◌, tally, ◌^◌, ◌-◌, ◌<◌, Bool, true, false, none, some, ◌≡◌, List,
  length, get_or, set, replicate,
}
use tri_cache.PageTable.Header.{Header, empty_header, inc_body, dec_body, lock_body, unlock_body}

-- `headers[offset]` and `ppage_ids[offset]`
pub record Cell : Type 0 where
  pub header : Header
  pub ppage_id : ℕ

-- `EMPTY_PPAGE_ID`
abbrev pub empty_ppage_id : ℕ
empty_ppage_id = 2 ^ 32 - 1

-- How far the owner of the lock has come.
pub data Stage : Type 0 where
  locked : Stage  -- `lock` has returned true
  exist_set : Stage
  ppage_set : Stage
  created : Stage  -- `create_mapping` is done
  exist_cleared : Stage
  dirty_cleared : Stage
  deleted : Stage  -- `delete_mapping` is done

pub data Pc : Type 0 where
  idle : Pc
  pinning : (old : Header) → Pc  -- before the compare-exchange of `inc_ref_count`
  counted : Pc  -- before `pin` reads `ppage_ids[offset]`
  unpinning : (is_write : Bool) (old : Header) → Pc
  locking : (old : Header) → Pc
  owner : (s : Stage) → Pc
  storing : (s : Stage) (old : Header) → Pc  -- in a write of the header, before the store
  unlocking : (s : Stage) (old : Header) → Pc

-- The writes of the header, by the stage they start at: the header after, and the next stage.
pub data Write : Stage → Header → Header → Stage → Type 0 where
  set_exist : (h : Header) → h.exist ≡ false → Write locked h (record h { exist = true }) exist_set
  set_ref_count : (h : Header) → Write ppage_set h (record h { ref_count = 1 }) created
  clear_exist :
      (h : Header) → h.exist ≡ true → Write locked h (record h { exist = false }) exist_cleared
  clear_dirty : (h : Header) → Write exist_cleared h (record h { dirty = false }) dirty_cleared

-- The stages that a write of the header starts at.
abbrev pub writes : Stage → Bool
writes locked = true
writes ppage_set = true
writes exist_cleared = true
writes _ = false

-- One step of one thread. The order in which it pins, locks and maps is left open, within what the
-- functions assert of their caller: `create_mapping` of an absent page, `delete_mapping` of a
-- present one, `release_mapping_lock` after either.
pub data Move (c : Cell) : Pc → Cell → Pc → Type 0 where
  pin_load : Move c idle c (pinning c.header)
  pin_fail : {old : Header} → inc_body old ≡ none → Move c (pinning old) c idle
  pin_win :
      {old new : Header} {pre : ℕ}
      → inc_body old ≡ some (new, pre)
      → c.header ≡ old
      → Move c (pinning old) (record c { header = new }) counted
  pin_retry : {old : Header} → Move c (pinning old) c (pinning c.header)
  unpin_win :
      {is_write : Bool} {old new : Header} {pre : ℕ}
      → dec_body is_write old ≡ some (new, pre)
      → c.header ≡ old
      → Move c (unpinning is_write old) (record c { header = new }) idle
  unpin_retry :
      {is_write : Bool} {old : Header}
      → Move c (unpinning is_write old) c (unpinning is_write c.header)
  lock_load : Move c idle c (locking c.header)
  lock_fail : {old : Header} → lock_body old ≡ none → Move c (locking old) c idle
  lock_win :
      {old new : Header}
      → lock_body old ≡ some new
      → c.header ≡ old
      → Move c (locking old) (record c { header = new }) (owner locked)
  lock_retry : {old : Header} → Move c (locking old) c (locking c.header)
  write_load : {s : Stage} → writes s ≡ true → Move c (owner s) c (storing s c.header)
  write_store :
      {s t : Stage} {old new : Header}
      → Write s old new t
      → Move c (storing s old) (record c { header = new }) (owner t)
  put_ppage :
      (p : ℕ)
      → p < empty_ppage_id
      → Move c (owner exist_set) (record c { ppage_id = p }) (owner ppage_set)
  clear_ppage :
      Move c (owner dirty_cleared) (record c { ppage_id = empty_ppage_id }) (owner deleted)
  release_created : Move c (owner created) c (unlocking created c.header)
  release_deleted : Move c (owner deleted) c (unlocking deleted c.header)
  unlock_fail :
      {s : Stage} {old : Header} → unlock_body old ≡ none → Move c (unlocking s old) c (owner s)
  unlock_created :
      {old new : Header}
      → unlock_body old ≡ some new
      → c.header ≡ old
      → Move c (unlocking created old) (record c { header = new }) counted
  unlock_deleted :
      {old new : Header}
      → unlock_body old ≡ some new
      → c.header ≡ old
      → Move c (unlocking deleted old) (record c { header = new }) idle
  unlock_retry : {s : Stage} {old : Header} → Move c (unlocking s old) c (unlocking s c.header)

pub record System : Type 0 where
  pub cell : Cell
  pub threads : List Pc
  pub held : List ℕ  -- the frames that `pin` has returned and that nobody has given back

-- The references that a thread has while it runs `pin` or `unpin`.
abbrev pub pins : Pc → ℕ
pins counted = 1
pins (unpinning _ _) = 1
pins _ = 0

-- The reference that the owner has stored for the time after its release.
abbrev pub reserved : Pc → ℕ
reserved (owner created) = 1
reserved (unlocking created _) = 1
reserved _ = 0

-- All references that are taken and not given back.
abbrev pub references : System → ℕ
references s = tally pins s.threads + tally reserved s.threads + length s.held

abbrev pub remove : List ℕ → ℕ → List ℕ
remove [] k = []
remove (x ∷ xs) zero = xs
remove (x ∷ xs) (suc k) = x ∷ remove xs k

pub data Step (s : System) : System → Type 0 where
  pick :
      (i : ℕ) {c : Cell} {p : Pc}
      → i < length s.threads
      → Move s.cell (get_or s.threads i idle) c p
      → Step s (record s { cell = c; threads = set s.threads i p })
  -- `pin` returns the frame that it reads.
  pin_read :
      (i : ℕ)
      → i < length s.threads
      → get_or s.threads i idle ≡ counted
      → Step s (record s { threads = set s.threads i idle; held = s.cell.ppage_id ∷ s.held })
  -- A thread starts to give back a reference, whoever has taken it.
  unpin_load :
      (i k : ℕ) (is_write : Bool)
      → i < length s.threads
      → get_or s.threads i idle ≡ idle
      → k < length s.held
      → Step s (record s {
        threads = set s.threads i (unpinning is_write s.cell.header);
        held = remove s.held k;
      })

-- The page is absent, and `n` threads are idle.
abbrev pub init : ℕ → System
init n = record {
  cell = record { header = empty_header; ppage_id = empty_ppage_id };
  threads = replicate n idle;
  held = [];
}

-- The runs of `n` threads in which fewer than 2^13 references are taken at once, for which the counter has room.
pub data Reach (n : ℕ) : System → Type 0 where
  start : Reach n (init n)
  later : {s t : System} → Reach n s → Step s t → references t < 2 ^ 13 → Reach n t

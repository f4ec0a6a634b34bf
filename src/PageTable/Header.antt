-- ===== src/PageTable/Header.antt =====
-- include/compact_hash_page_table.hpp, `pte_header`: three flags and a counter in one 16-bit word,
-- changed by compare-exchange loops. Each `..._body` is the body of such a loop on the value that
-- was loaded: `none` where it returns or asserts, else the value to exchange.
pub mod Packing
use tri_cache.Base.{
  ℕ, ◌+◌, ◌-◌, ◌*◌, ◌/◌, ◌%◌, ◌^◌, ◌==◌, if◌then◌else◌, Bool, true, false, not, ◌&&◌, ◌||◌, Option,
  none, some, ltb,
}

pub record Header : Type 0 where
  pub exist : Bool
  pub busy : Bool
  pub dirty : Bool
  pub ref_count : ℕ  -- 13 bits

-- `ref_count` is a bit-field of 13 bits, so that it wraps.
abbrev pub u13 : ℕ → ℕ
u13 n = n % 2 ^ 13

abbrev bit : Bool → ℕ
bit b = if b then 1 else 0

-- `as_packed`, with the bit-fields from the lowest bit up
unfoldable pub as_packed : Header → ℕ
as_packed h = bit h.exist + 2 * bit h.busy + 4 * bit h.dirty + 8 * h.ref_count

unfoldable pub from_packed : ℕ → Header
from_packed w = record {
  exist = w % 2 == 1;
  busy = w / 2 % 2 == 1;
  dirty = w / 4 % 2 == 1;
  ref_count = w / 8;
}

abbrev pub empty_header : Header
empty_header = record { exist = false; busy = false; dirty = false; ref_count = 0 }

-- `inc_ref_count`; the assertion compares with `numeric_limits<uint16_t>::max() - 1`.
unfoldable pub inc_body : Header → Option (Header × ℕ)
inc_body h =
    if not h.exist || h.busy
    then none
    else if ltb h.ref_count 65534
    then some (record h { ref_count = u13 (h.ref_count + 1) }, h.ref_count)
    else none

-- `dec_ref_count(is_write)`, with `assert(exist && !busy && ref_count > 0)`
unfoldable pub dec_body : Bool → Header → Option (Header × ℕ)
dec_body is_write h =
    if h.exist && (not h.busy && ltb 0 h.ref_count)
    then some (
      record h { ref_count = u13 (h.ref_count + 2 ^ 13 - 1); dirty = is_write || h.dirty },
      h.ref_count,
    )
    else none

unfoldable pub lock_body : Header → Option Header
lock_body h = if not (h.ref_count == 0) || h.busy then none else some (record h { busy = true })

unfoldable pub unlock_body : Header → Option Header
unlock_body h = if not h.busy then none else some (record h { busy = false })

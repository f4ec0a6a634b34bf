-- ===== src/CachedPtr.antt =====
-- include/cached_ptr.hpp, class `CachedPtr`: offsets into the space of a cache. The cache that a pointer has is
-- a number, and the calls of a cache are a parameter; `sizeof(element_type)` is an argument. An offset wraps at
-- 64 bits, and a difference is the 64-bit word of the signed number.
pub mod Arithmetic
pub mod Access
use tri_cache.MemoryPool.{cache_page_size}
use tri_cache.Base.{
  ℕ, ◌+◌, ◌-◌, ◌*◌, ◌/◌, ◌%◌, ◌^◌, ◌==◌, if◌then◌else◌, ltb, Bool, true, false, not, ◌&&◌, ◌||◌,
  Option, none, some, pointer_eq, is_null, ℤ, pos, negsuc, sub_ℕ,
}

-- `NULL_OFFSET`
abbrev pub null_offset : ℕ
null_offset = 2 ^ 64 - 1

pub record CachedPtr : Type 0 where
  pub cache : Option ℕ
  pub offset : ℕ

-- `CachedPtr()` and `CachedPtr(_cache)`
abbrev pub new_null : Option ℕ → CachedPtr
new_null cache = record { cache = cache; offset = null_offset }

-- `!cache || offset == NULL_OFFSET`
unfoldable pub is_none : CachedPtr → Bool
is_none p = is_null p.cache || p.offset == null_offset

-- `operator bool`
unfoldable pub to_bool : CachedPtr → Bool
unfolding is_none
to_bool p = not (is_none p)

-- The 64-bit word of a difference.
abbrev pub word : ℤ → ℕ
word (pos n) = n % 2 ^ 64
word (negsuc n) = 2 ^ 64 - 1 - n % 2 ^ 64

-- `operator+=` and `operator-=`; `+` and `-` of a pointer and a number are copies of these.
unfoldable pub add : ℕ → CachedPtr → ℤ → CachedPtr
add element_size p diff = record p { offset = (p.offset + word diff * element_size) % 2 ^ 64 }

unfoldable pub sub : ℕ → CachedPtr → ℤ → CachedPtr
sub element_size p diff = record p {
  offset = (p.offset + (2 ^ 64 - word diff * element_size % 2 ^ 64)) % 2 ^ 64;
}

unfoldable pub increment : ℕ → CachedPtr → CachedPtr
increment element_size p = record p { offset = (p.offset + element_size) % 2 ^ 64 }

unfoldable pub decrement : ℕ → CachedPtr → CachedPtr
decrement element_size p = record p { offset = (p.offset + 2 ^ 64 - element_size) % 2 ^ 64 }

-- Division of a signed number, which rounds towards 0.
abbrev pub quotient : ℤ → ℕ → ℤ
quotient (pos n) d = pos (n / d)
quotient (negsuc n) d = sub_ℕ 0 ((n + 1) / d)

-- The signed number that a 64-bit word stands for.
abbrev pub signed : ℕ → ℤ
signed n = if ltb n (2 ^ 63) then pos n else negsuc (2 ^ 64 - 1 - n)

-- `operator-` of two pointers
unfoldable pub difference : ℕ → CachedPtr → CachedPtr → ℤ
difference element_size left right =
    quotient (signed ((left.offset + 2 ^ 64 - right.offset) % 2 ^ 64)) element_size

unfoldable pub equal : CachedPtr → CachedPtr → Bool
equal left right =
    (left.offset == null_offset && right.offset == null_offset)
    || (pointer_eq left.cache right.cache && left.offset == right.offset)

unfoldable pub less : CachedPtr → CachedPtr → Bool
less left right = pointer_eq left.cache right.cache && ltb left.offset right.offset

unfoldable pub greater : CachedPtr → CachedPtr → Bool
greater left right = pointer_eq left.cache right.cache && ltb right.offset left.offset

unfoldable pub less_equal : CachedPtr → CachedPtr → Bool
unfolding less equal
less_equal left right = less left right || equal left right

unfoldable pub greater_equal : CachedPtr → CachedPtr → Bool
unfolding greater equal
greater_equal left right = greater left right || equal left right

-- The page and the place in it.
abbrev pub page_id : ℕ → ℕ
page_id offset = offset / cache_page_size

abbrev pub page_offset_of : ℕ → ℕ
page_offset_of offset = offset % cache_page_size

unfoldable pub page_offset : CachedPtr → ℕ
unfolding is_none
page_offset p = if is_none p then 0 else page_offset_of p.offset

-- What is called of `IntegratedCache`: the first argument is the cache. Pointers are addresses.
pub record Caches (W : Type 0) : Type 0 where
  pub access : ℕ → ℕ → Bool → W → ℕ × W
  pub pin : ℕ → ℕ → W → ℕ × W
  pub unpin : ℕ → ℕ → Bool → W → W
  pub shared_pin : ℕ → ℕ → W → ℕ × W
  pub shared_unpin : ℕ → ℕ → Bool → W → W

module _ {W : Type 0} (caches : Caches W) where
  -- A call for the page of a pointer; `nullptr` is 0.
  abbrev pub at_page : CachedPtr → (ℕ → ℕ → W → ℕ × W) → W → ℕ × W
  at_page p call w = elim p.cache [
    | none ↦ (0, w)
    | some c ↦
        if p.offset == null_offset
        then (0, w)
        else (let (a, v) = call c (page_id p.offset) w in (a + page_offset_of p.offset, v))
  ]

  -- `get`, and `operator->` and `operator*`
  unfoldable pub get : Bool → CachedPtr → W → ℕ × W
  get is_const p w = at_page p (λ c page. caches.access c page (not is_const)) w

  unfoldable pub pin : CachedPtr → W → ℕ × W
  pin p w = at_page p caches.pin w

  -- The address of the page, without the place in it.
  unfoldable pub shared_pin : CachedPtr → W → ℕ × W
  shared_pin p w = elim p.cache [
    | none ↦ (0, w)
    | some c ↦ if p.offset == null_offset then (0, w) else caches.shared_pin c (page_id p.offset) w
  ]

  abbrev pub give_back : CachedPtr → (ℕ → ℕ → W → W) → W → W
  give_back p call w = elim p.cache [
    | none ↦ w
    | some c ↦ if p.offset == null_offset then w else call c (page_id p.offset) w
  ]

  unfoldable pub unpin : CachedPtr → Bool → W → W
  unpin p is_write w = give_back p (λ c page. caches.unpin c page is_write) w

  unfoldable pub shared_unpin : CachedPtr → Bool → W → W
  shared_unpin p is_write w = give_back p (λ c page. caches.shared_unpin c page is_write) w

  -- `operator[]`; a null cache is a fault.
  unfoldable pub index : ℕ → Bool → CachedPtr → ℤ → W → Option (ℕ × W)
  index element_size is_const p diff w = elim p.cache [
    | none ↦ none
    | some c ↦
        let tmp_off = (p.offset + word diff * element_size) % 2 ^ 64 in
        let (a, v) = caches.access c (page_id tmp_off) (not is_const) w in
        some (a + page_offset_of tmp_off, v)
  ]

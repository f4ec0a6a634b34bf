-- ===== src/SharedCache/Direct.antt =====
-- A client of include/shared_cache.hpp that pins and unpins a mapped page in the page table by itself, and
-- tells the server of the first reference and of the last.
use mathlib.Core.Path.{subst}
use tri_cache.SharedSingleThreadCache.{Cache, Functions}
use tri_cache.SharedSingleThreadCache.Methods.{notify_pin, notify_unpin}
use tri_cache.SharedSingleThreadCache.Frames.{IsPage}
use tri_cache.SharedSingleThreadCache.Invariant.{IsCache}
use tri_cache.SharedSingleThreadCache.Pinned.{recounted}
use tri_cache.SharedSingleThreadCache.Notices.{notify_pin_lem, notify_unpin_lem}
use tri_cache.Replacement.Policy.{Operations, IsPolicy}
use tri_cache.PageTable.Table.{Pte}
use tri_cache.PageTable.Mapping
use tri_cache.PageTable.Place.{Writes, At}
use tri_cache.PageTable.Entry.{line_of_mapped}
use tri_cache.PageTable.Effects.{pin-Writes, unpin-Writes}
use tri_cache.Base.{
  ℕ, ◌+◌, ◌-◌, ◌^◌, ◌<◌, ◌≡◌, ◌==◌, ◌||◌, if◌then◌else◌, Bool, true, false, some, none, Returns,
  arith, refl, inl, inr, Bool-cases, sym,
}

module _ {E X S W : Type 0} (ops : Operations S) (f : Functions E X W) (valid : S → Type 0)
    (bound : S → ℕ) (holds : S → ℕ → Bool) (policy : IsPolicy ops valid bound holds) where
  module _ {c : Cache E S W} {view : ℕ → Pte} (is : IsCache ops f valid bound holds c view) (v : ℕ)
      (page : IsPage v) (here : (view v).exist ≡ true) where
    -- The page's entry, with another counter.
    abbrev pub recount : Bool → ℕ → ℕ → Pte
    recount dirty n w = if w == v then record (view v) { ref_count = n; dirty = dirty } else view w

    abbrev pub counted : Bool → ℕ → Pte
    counted dirty n = record (view v) { ref_count = n; dirty = dirty }

    abbrev Good : (ℕ → Pte) → Cache E S W → Type 0
    Good seen d = IsCache ops f valid bound holds d seen

    -- The reference is taken in the table, and the server hears of it if it is the first.
    pub pinned_direct :
        (view v).ref_count + 1 < 2 ^ 13
        → Returns (Mapping.pin c.page_table v none) (λ a.
          (a.0 ≡ (true, (view v).ppage_id, (view v).ref_count))
          × Returns
              (if (view v).ref_count == 0
                then notify_pin ops f v (record c { page_table = a.1 })
                else some (record c { page_table = a.1 }))
              (Good (recount (view v).dirty ((view v).ref_count + 1))))
    pinned_direct room =
        let (h, found) = line_of_mapped is.table v (is.reads v page) here in
        let at : At c.page_table v h none = record {
          table = is.table;
          real = omega arith;
          found = found;
          hinted = inl refl;
        } in
        let free = is.frames.unlocked v page in
        let owned = is.frames.mapped v page here in
        let (a, pins, says) = (pin-Writes at (is.reads v page) room).0 here free in
        let e = counted (view v).dirty ((view v).ref_count + 1) in
        elim (Bool-cases ((view v).ref_count == 0)) [
          | inl first ↦
              let none_yet : (view v).ref_count ≡ 0 = ground arith in
              let one : 1 ≡ (view v).ref_count + 1 = omega (arith, none_yet) in
              let writes =
                subst (λ (n : ℕ). Writes c.page_table v (counted (view v).dirty n) a.1) (sym one)
                  says.1 in
              let told =
                notify_pin_lem ops f valid bound holds policy is v page here a.1 none_yet writes in
              rw first (
                a,
                pins,
                (
                  says.0,
                  subst
                      (λ (n : ℕ).
                        Returns (notify_pin ops f v (record c { page_table = a.1 }))
                          (Good (recount (view v).dirty n)))
                      one told,
                ),
              )
          | inr more ↦
              let kept =
                recounted ops f valid bound holds policy is v h page found here a.1 c.replacement e
                  c.pinned_size is.pinned says.1 here free refl room is.is_valid refl
                  (λ p lt. ground (arith, is.frames.evictable p lt, owned, more)) is.pinned_pos
                  (ground (arith, more)) in
              rw more (a, pins, (says.0, (record c { page_table = a.1 }, refl, kept)))
        ]

    -- The reference is given back in the table, and the server hears of it if it is the last.
    pub unpinned_direct :
        (is_write : Bool)
        → 0 < (view v).ref_count
        → Returns (Mapping.unpin c.page_table v is_write none) (λ a.
          (a.0 ≡ (view v).ref_count)
          × Returns
              (if (view v).ref_count == 1
                then notify_unpin ops f v (record c { page_table = a.1 })
                else some (record c { page_table = a.1 }))
              (Good (recount (is_write || (view v).dirty) ((view v).ref_count - 1))))
    unpinned_direct is_write some_left =
        let (h, found) = line_of_mapped is.table v (is.reads v page) here in
        let at : At c.page_table v h none = record {
          table = is.table;
          real = omega arith;
          found = found;
          hinted = inl refl;
        } in
        let free = is.frames.unlocked v page in
        let owned = is.frames.mapped v page here in
        let small = is.frames.counted v page in
        let dirty = is_write || (view v).dirty in
        let (a, unpins, says) =
          (unpin-Writes at is_write (is.reads v page) small).0 here free some_left in
        let e = counted dirty ((view v).ref_count - 1) in
        elim (Bool-cases ((view v).ref_count == 1)) [
          | inl last ↦
              let one_left : (view v).ref_count ≡ 1 = ground arith in
              let gone : 0 ≡ (view v).ref_count - 1 = omega (arith, one_left) in
              let writes =
                subst (λ (n : ℕ). Writes c.page_table v (counted dirty n) a.1) (sym gone) says.1 in
              let told =
                notify_unpin_lem ops f valid bound holds policy is v page here a.1 dirty one_left
                  writes in
              rw last (
                a,
                unpins,
                (
                  says.0,
                  subst
                      (λ (n : ℕ).
                        Returns (notify_unpin ops f v (record c { page_table = a.1 }))
                          (Good (recount dirty n)))
                      gone told,
                ),
              )
          | inr more ↦
              let kept =
                recounted ops f valid bound holds policy is v h page found here a.1 c.replacement e
                  c.pinned_size is.pinned says.1 here free refl (omega (arith, small)) is.is_valid
                  refl (λ p lt. ground (arith, is.frames.evictable p lt, owned, more, some_left))
                  is.pinned_pos (ground (arith, more, some_left)) in
              rw more (a, unpins, (says.0, (record c { page_table = a.1 }, refl, kept)))
        ]

-- A notice does not change the number of frames.
module _ {E X S W : Type 0} (ops : Operations S) (f : Functions E X W) where
  pub notify_pin_max :
      (told : Bool) (v : ℕ) (c d : Cache E S W)
      → (if told then notify_pin ops f v c else some c) ≡ some d
      → d.max_ppage_id ≡ c.max_ppage_id
  unfolding notify_pin
  notify_pin_max false v c d e = ground (arith, e)
  notify_pin_max true v c d e = ground (arith, e)

  pub notify_unpin_max :
      (told : Bool) (v : ℕ) (c d : Cache E S W)
      → (if told then notify_unpin ops f v c else some c) ≡ some d
      → d.max_ppage_id ≡ c.max_ppage_id
  unfolding notify_unpin
  notify_unpin_max false v c d e = ground (arith, e)
  notify_unpin_max true v c d e = ground (arith, e)

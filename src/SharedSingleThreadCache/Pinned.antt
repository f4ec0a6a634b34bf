-- ===== src/SharedSingleThreadCache/Pinned.antt =====
-- `pin` and `unpin` of include/shared_single_thread_cache.hpp on a page that is mapped.
use tri_cache.SharedSingleThreadCache.{Cache, Context, Functions, ended}
use tri_cache.SharedSingleThreadCache.Process.{hit_phase, unpin_phase}
use tri_cache.SharedSingleThreadCache.Frames.{pinned_frame, IsPage, recount-Frames}
use tri_cache.SharedSingleThreadCache.Invariant.{IsCache, pages_of}
use tri_cache.Replacement.Policy.{Operations, IsPolicy}
use tri_cache.PageTable.Place.{Writes, At}
use tri_cache.PageTable.Effects.{pin-Writes, unpin-Writes}
use tri_cache.PageTable.Mapping.{find_hint}
use tri_cache.PageTable.Table.{Table, Pte}
use tri_cache.Base.{
  number_pos, ◌-ℤ◌, ◌∙◌, ltb, ℤ, pos, ◌+ℤ◌, ℕ, ◌+◌, ◌-◌, ◌^◌, ◌<◌, ◌≡◌, ◌==◌, if◌then◌else◌, ◌||◌,
  Bool, true, false, some, none, Returns, refl, arith, inl, inr, Bool-cases,
}

module _ {E X S W : Type 0} (ops : Operations S) (f : Functions E X W) (valid : S → Type 0)
    (bound : S → ℕ) (holds : S → ℕ → Bool) (policy : IsPolicy ops valid bound holds) where
  module _ {c : Cache E S W} {view : ℕ → Pte} (is : IsCache ops f valid bound holds c view)
      (v h : ℕ) (page : IsPage v) (found : find_hint c.page_table v ≡ some h)
      (here : (view v).exist ≡ true) where
    page_placed : At c.page_table v h (some h)
    page_placed = record { table = is.table; real = omega arith; found = found; hinted = inr refl }

    -- The entry is written, and the policy and the count follow.
    pub recounted :
        (t : Table) (r : S) (e : Pte) (z : ℤ) (n : ℕ)
        → Writes c.page_table v e t
        → e.exist ≡ true
        → e.busy ≡ false
        → e.ppage_id ≡ (view v).ppage_id
        → e.ref_count < 2 ^ 13
        → valid r
        → bound r ≡ bound c.replacement
        → ((p : ℕ)
            → p < c.max_ppage_id
            → holds r p
              ≡ (if (view v).ppage_id == p then e.ref_count == 0 else holds c.replacement p))
        → z ≡ pos n
        → n + (if ltb 0 (view v).ref_count then 1 else 0)
          ≡ is.pinned + (if ltb 0 e.ref_count then 1 else 0)
        → IsCache ops f valid bound holds
            (record c { page_table = t; pinned_size = z; replacement = r })
            (λ w. if w == v then e else view w)
    recounted t r e z n writes exists free frame small fits same held is_n sum = record {
      table = writes.shape;
      reads = λ w w_page. ground (arith, writes.reads w, is.reads w w_page);
      sized = is.sized;
      small = is.small;
      is_valid = fits;
      bounded = same ∙ is.bounded;
      pinned = n;
      pinned_pos = is_n;
      frames = recount-Frames is.frames v e (holds r) n page here exists free frame small held sum;
    }

    pub hit_lem :
        (x : Context E X)
        → x.vpage_id ≡ v
        → x.hint ≡ some h
        → x.pte ≡ view v
        → (view v).ref_count + 1 < 2 ^ 13
        → Returns (hit_phase ops f x c) (λ a.
          (a.0 ≡ false)
          × (a.1.phase ≡ ended)
          × (a.1.ppage_id ≡ (view v).ppage_id)
          × IsCache ops f valid bound holds a.2 (λ w.
            if w == v then record (view v) { ref_count = (view v).ref_count + 1 } else view w)
          × (a.1.external_state ≡ some (view v).ppage_id)
          × (a.2.states ≡ c.states)
          × (a.2.world ≡ c.world))
    unfolding hit_phase ◌+ℤ◌
    hit_lem x for_v hinted entry room =
        let e = record (view v) { ref_count = (view v).ref_count + 1 } in
        let owned = is.frames.mapped v page here in
        let free = is.frames.unlocked v page in
        let (a, pins, says) = (pin-Writes page_placed (is.reads v page) room).0 here free in
        let y = record x {
          ppage_id = a.0.1;
          external_state = some x.pte.ppage_id;
          pre_external_state = none;
          phase = ended;
        } in
        elim (Bool-cases ((view v).ref_count == 0)) [
          | inr more ↦ (
            (false, y, record c { page_table = a.1 }),
            ground (arith, pins, says.0, more, owned),
            (
              refl,
              refl,
              ground (arith, says.0),
              recounted a.1 c.replacement e c.pinned_size is.pinned says.1 here free refl room
                  is.is_valid refl (λ p lt. ground (arith, is.frames.evictable p lt, owned, more))
                  is.pinned_pos (ground (arith, more)),
              rw entry refl,
              refl,
              refl,
            ),
          )
          | inl first ↦
              let (r, erases, becomes) =
                policy.erases c.replacement (view v).ppage_id is.is_valid (rw is.bounded owned.0) in
              (
                (
                  false,
                  y,
                  record c {
                    page_table = a.1;
                    pinned_size = c.pinned_size +ℤ pos 1;
                    replacement = r;
                  },
                ),
                ground (arith, pins, says.0, first, owned, erases, entry),
                (
                  refl,
                  refl,
                  ground (arith, says.0),
                  recounted a.1 r e _ (is.pinned + 1) says.1 here free refl room becomes.is_valid
                      becomes.same_bound (λ p lt. ground (arith, becomes.reads p))
                      (ground (arith, is.pinned_pos)) (ground (arith, first)),
                  rw entry refl,
                  refl,
                  refl,
                ),
              )
        ]

    pub unpin_lem :
        (x : Context E X)
        → x.vpage_id ≡ v
        → x.hint ≡ some h
        → x.pte ≡ view v
        → 0 < (view v).ref_count
        → Returns (unpin_phase ops f x c) (λ a.
          (a.0 ≡ false)
          × (a.1.phase ≡ ended)
          × (a.1.is_unpin ≡ ((view v).ref_count == 1))
          × IsCache ops f valid bound holds a.2 (λ w.
            if w == v
            then record (view v) {
              ref_count = (view v).ref_count - 1;
              dirty = x.is_write || (view v).dirty;
            }
            else view w)
          × (a.2.states ≡ c.states)
          × (a.2.world ≡ c.world))
    unfolding unpin_phase ◌-ℤ◌
    unpin_lem x for_v hinted entry some_left =
        let e = record (view v) {
          ref_count = (view v).ref_count - 1;
          dirty = x.is_write || (view v).dirty;
        } in
        let owned = is.frames.mapped v page here in
        let free = is.frames.unlocked v page in
        let room = is.frames.counted v page in
        let some_pinned : 0 < is.pinned = rw is.frames.tallied (
          number_pos (pinned_frame (pages_of ops f valid bound holds c) view) c.max_ppage_id
            (view v).ppage_id owned.0 (ground (arith, owned, some_left))) in
        let (a, unpins, says) =
          (unpin-Writes page_placed x.is_write (is.reads v page) room).0 here free some_left in
        let y = record x { is_unpin = false; phase = ended } in
        elim (Bool-cases ((view v).ref_count == 1)) [
          | inr more ↦ (
            (false, y, record c { page_table = a.1 }),
            ground (arith, unpins, says.0, more, owned),
            (
              refl,
              refl,
              ground (arith, more),
              recounted a.1 c.replacement e c.pinned_size is.pinned says.1 here free refl
                  (omega (arith, room)) is.is_valid refl
                  (λ p lt. ground (arith, is.frames.evictable p lt, owned, more, some_left))
                  is.pinned_pos (ground (arith, more, some_left)),
              refl,
              refl,
            ),
          )
          | inl last ↦
              let (r, pushes, becomes) =
                policy.pushes c.replacement (view v).ppage_id is.is_valid (rw is.bounded owned.0) in
              (
                (
                  false,
                  record y { is_unpin = true },
                  record c {
                    page_table = a.1;
                    pinned_size = c.pinned_size -ℤ pos 1;
                    replacement = r;
                  },
                ),
                ground (arith, unpins, says.0, last, owned, pushes, entry),
                (
                  refl,
                  refl,
                  ground (arith, last),
                  recounted a.1 r e _ (is.pinned - 1) says.1 here free refl (omega (arith, room))
                      becomes.is_valid becomes.same_bound
                      (λ p lt. ground (arith, becomes.reads p, last))
                      (ground (arith, is.pinned_pos, some_pinned))
                      (ground (arith, last, some_pinned)),
                  refl,
                  refl,
                ),
              )
        ]

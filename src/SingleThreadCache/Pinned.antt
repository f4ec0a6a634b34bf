-- ===== src/SingleThreadCache/Pinned.antt =====
-- `pin` and `unpin` of include/single_thread_cache.hpp on a page that is mapped.
use tri_cache.SingleThreadCache.{Cache, Context, Map, IsMap, more, fewer}
use tri_cache.SingleThreadCache.Process.{hit_phase, unpin_phase, unpin_state}
use tri_cache.SingleThreadCache.Invariant.{IsCache, pages_of}
use tri_cache.SharedSingleThreadCache.{Functions, ended}
use tri_cache.SharedSingleThreadCache.Frames.{pinned_frame, recount-Frames}
use tri_cache.Replacement.Policy.{Operations, IsPolicy}
use tri_cache.PageTable.Table.{Pte}
use native.Mathlib.Nat.{mod-eq_of_lt}
use tri_cache.Base.{
  ℕ, ◌+◌, ◌-◌, ◌%◌, ◌^◌, ◌<◌, ◌≤◌, ◌≡◌, ◌==◌, ◌∙◌, ◌||◌, if◌then◌else◌, ltb, Bool, true, false,
  some, none, Returns, refl, arith, inl, inr, Bool-cases, number_pos, number-le,
}

module _ {E X S T W : Type 0} (ops : Operations S) (map : Map T Pte) (f : Functions E X W)
    (ref_bits : ℕ) (unset : Pte) (valid : S → Type 0) (bound : S → ℕ) (holds : S → ℕ → Bool)
    (fits : T → Type 0) (InTable : ℕ → Type 0) (policy : IsPolicy ops valid bound holds)
    (is_map : IsMap map fits InTable (λ e. e.exist ≡ true)) where
  module _ {c : Cache E S T W} {view : ℕ → Pte}
      (is : IsCache ops map f ref_bits unset valid bound holds fits InTable c view) (v : ℕ)
      (page : InTable v) (here : (view v).exist ≡ true) where
    -- The state is written, and the policy and the count follow.
    recounted :
        (r : S) (e : Pte) (n : ℕ)
        → e.exist ≡ true
        → e.busy ≡ false
        → e.ppage_id ≡ (view v).ppage_id
        → e.ref_count < 2 ^ ref_bits
        → valid r
        → bound r ≡ bound c.replacement
        → ((p : ℕ)
            → p < c.max_ppage_id
            → holds r p
              ≡ (if (view v).ppage_id == p then e.ref_count == 0 else holds c.replacement p))
        → n + (if ltb 0 (view v).ref_count then 1 else 0)
          ≡ c.pinned_size + (if ltb 0 e.ref_count then 1 else 0)
        → IsCache ops map f ref_bits unset valid bound holds fits InTable
            (record c { page_table = map.put v e c.page_table; pinned_size = n; replacement = r })
            (λ w. if w == v then e else view w)
    recounted r e n exists free frame small r_valid same held sum =
        let puts = is_map.put-get c.page_table v e is.table page exists in
        record {
          table = puts.0;
          reads = λ w w_page. ground (arith, puts.1 w, is.reads w w_page, exists);
          sized = is.sized;
          small = is.small;
          is_valid = r_valid;
          bounded = same ∙ is.bounded;
          frames =
              recount-Frames is.frames v e (holds r) n page here exists free frame small held sum;
        }

    read : map.get v c.page_table ≡ some (view v)
    read = is.reads v page ∙ rw here refl

    few : c.pinned_size ≤ c.max_ppage_id
    few = rw is.frames.tallied (
        number-le
          (pinned_frame (pages_of ops map f ref_bits unset valid bound holds fits InTable c) view)
          c.max_ppage_id)

    pub hit_lem :
        (x : Context E X)
        → x.vpage_id ≡ v
        → (view v).ref_count + 1 < 2 ^ ref_bits
        → Returns (hit_phase ops map f ref_bits unset x (view v) c) (λ a.
          (a.0 ≡ false)
          × (a.1.phase ≡ ended)
          × (a.1.ppage_id ≡ (view v).ppage_id)
          × IsCache ops map f ref_bits unset valid bound holds fits InTable a.2 (λ w.
            if w == v then record (view v) { ref_count = (view v).ref_count + 1 } else view w))
    unfolding hit_phase
    hit_lem x for_v room =
        let e = record (view v) { ref_count = (view v).ref_count + 1 } in
        let owned = is.frames.mapped v page here in
        let wraps_not : ((view v).ref_count + 1) % 2 ^ ref_bits ≡ (view v).ref_count + 1 =
          mod-eq_of_lt room in
        let y = record x {
          page_table_state = some e;
          ppage_id = e.ppage_id;
          external_state = some e.ppage_id;
          pre_external_state = none;
          phase = ended;
        } in
        let t = map.put v e c.page_table in
        let free = is.frames.unlocked v page in
        elim (Bool-cases ((view v).ref_count == 0)) [
          | inr again ↦ (
            (false, y, record c { page_table = t }),
            ground (arith, again, owned, here, for_v, wraps_not),
            (
              refl,
              refl,
              refl,
              recounted c.replacement e c.pinned_size here free refl room is.is_valid refl
                  (λ p lt. ground (arith, is.frames.evictable p lt, owned, again))
                  (ground (arith, again)),
            ),
          )
          | inl first ↦
              let (r, erases, becomes) =
                policy.erases c.replacement (view v).ppage_id is.is_valid (rw is.bounded owned.0) in
              let counts : more c.pinned_size ≡ c.pinned_size + 1 =
                mod-eq_of_lt (omega (arith, few, is.small)) in
              (
                (
                  false,
                  y,
                  record c { page_table = t; pinned_size = c.pinned_size + 1; replacement = r },
                ),
                ground (arith, first, owned, here, for_v, wraps_not, erases, counts),
                (
                  refl,
                  refl,
                  refl,
                  recounted r e (c.pinned_size + 1) here free refl room becomes.is_valid
                      becomes.same_bound (λ p lt. ground (arith, becomes.reads p))
                      (ground (arith, first)),
                ),
              )
        ]

    pub unpin_lem :
        (x : Context E X)
        → x.vpage_id ≡ v
        → x.page_table_state ≡ some (view v)
        → 0 < (view v).ref_count
        → Returns (unpin_phase ops map f ref_bits unset x c) (λ a.
          (a.0 ≡ false)
          × (a.1.phase ≡ ended)
          × (a.1.is_unpin ≡ true)
          × IsCache ops map f ref_bits unset valid bound holds fits InTable a.2 (λ w.
            if w == v
            then record (view v) {
              ref_count = (view v).ref_count - 1;
              dirty = x.is_write || (view v).dirty;
            }
            else view w))
    unfolding unpin_phase unpin_state
    unpin_lem x for_v entry some_left =
        let e = record (view v) {
          ref_count = (view v).ref_count - 1;
          dirty = x.is_write || (view v).dirty;
        } in
        let owned = is.frames.mapped v page here in
        let free = is.frames.unlocked v page in
        let room = is.frames.counted v page in
        let some_pinned : 0 < c.pinned_size = rw is.frames.tallied (
          number_pos
            (pinned_frame (pages_of ops map f ref_bits unset valid bound holds fits InTable c) view)
            c.max_ppage_id (view v).ppage_id owned.0
            (ground (arith, is.frames.real v page, owned, some_left))) in
        let y = record x { page_table_state = some e; is_unpin = true; phase = ended } in
        let t = map.put v e c.page_table in
        elim (Bool-cases ((view v).ref_count == 1)) [
          | inr more_left ↦ (
            (false, y, record c { page_table = t }),
            ground (arith, more_left, owned, here, for_v, entry, some_left),
            (
              refl,
              refl,
              refl,
              recounted c.replacement e c.pinned_size here free refl (omega (arith, room))
                  is.is_valid refl
                  (λ p lt. ground (arith, is.frames.evictable p lt, owned, more_left, some_left))
                  (ground (arith, more_left, some_left)),
            ),
          )
          | inl last ↦
              let (r, pushes, becomes) =
                policy.pushes c.replacement (view v).ppage_id is.is_valid (rw is.bounded owned.0) in
              let counts : fewer c.pinned_size ≡ c.pinned_size - 1 =
                ground (arith, few, is.small, some_pinned) in
              (
                (
                  false,
                  y,
                  record c { page_table = t; pinned_size = c.pinned_size - 1; replacement = r },
                ),
                ground (arith, last, owned, here, for_v, entry, pushes, counts),
                (
                  refl,
                  refl,
                  refl,
                  recounted r e (c.pinned_size - 1) here free refl (omega (arith, room))
                      becomes.is_valid becomes.same_bound
                      (λ p lt. ground (arith, becomes.reads p, last))
                      (ground (arith, last, some_pinned)),
                ),
              )
        ]

-- ===== src/SharedSingleThreadCache/Begun.antt =====
-- The first phase of `process` of include/shared_single_thread_cache.hpp between two calls, and the last
-- of a call.
use tri_cache.SharedSingleThreadCache.{
  Cache, Context, Functions, begin, initing, pin_call, unpin_call,
}
use tri_cache.SharedSingleThreadCache.Process.{
  run, step, begin_phase, initing_phase, hit_phase, unpin_phase,
}
use tri_cache.SharedSingleThreadCache.Frames.{IsPage}
use tri_cache.SharedSingleThreadCache.Invariant.{IsCache}
use tri_cache.SharedSingleThreadCache.Loaded.{run-step}
use tri_cache.SharedSingleThreadCache.Assigned.{Missed}
use tri_cache.Replacement.Policy.{Operations}
use tri_cache.PageTable.Place.{At}
use tri_cache.PageTable.Create.{Keeps, find_or_create_hint-Keeps}
use tri_cache.PageTable.Entry.{find_or_create_hint_found, get_pte-hint, line_of_mapped}
use tri_cache.PageTable.Mapping.{get_pte, find_hint, find_or_create_hint}
use tri_cache.PageTable.Table.{Pte, Table}
use tri_cache.Base.{
  ◌⊎◌, ℕ, suc, ◌<◌, ◌≡◌, ◌∙◌, Bool, true, false, some, arith, refl, length, Returns, inl, inr,
}

module _ {E X S W : Type 0} (ops : Operations S) (f : Functions E X W) (valid : S → Type 0)
    (bound : S → ℕ) (holds : S → ℕ → Bool) where
  -- The page's line is looked up or created, and nothing else changes.
  pub begun :
      {c : Cache E S W} {view : ℕ → Pte} {t : Table}
      → IsCache ops f valid bound holds c view
      → Keeps c.page_table t
      → IsCache ops f valid bound holds (record c { page_table = t }) view
  begun is keeps = record {
    table = keeps.shape;
    reads = λ w w_page. keeps.reads w (omega (arith, w_page)) ∙ is.reads w w_page;
    sized = is.sized;
    small = is.small;
    is_valid = is.is_valid;
    bounded = is.bounded;
    pinned = is.pinned;
    pinned_pos = is.pinned_pos;
    frames = is.frames;
  }

  module _ {c : Cache E S W} {view : ℕ → Pte} (is : IsCache ops f valid bound holds c view)
      (x : Context E X) (page : IsPage x.vpage_id)
      (stocked : (0 < length c.page_table.pool) ⊎ ((view x.vpage_id).exist ≡ true))
      (start : x.phase ≡ begin) where
    -- The second phase starts with the page's line and entry.
    pub record Begins (a : ℕ × Table) : Type 0 where
      pub keeps : Keeps c.page_table a.1
      pub lined : find_hint a.1 x.vpage_id ≡ some a.0
      pub runs :
          (n : ℕ)
          → run ops f (suc n) x c
            ≡ run ops f n
                (record x { hint = some a.0; pte = view x.vpage_id; phase = initing })
                (record c { page_table = a.1 })

    created :
        Returns
          (find_or_create_hint c.page_table x.vpage_id)
          (λ a. Keeps c.page_table a.1 × (find_hint a.1 x.vpage_id ≡ some a.0))
    created = elim stocked [
      | inl some_left ↦
          let (a, runs, says) =
            find_or_create_hint-Keeps is.table x.vpage_id (omega (arith, page)) some_left in
          (a, runs, (says.0, says.1))
      | inr here ↦
          let (h, found) = line_of_mapped is.table x.vpage_id (is.reads x.vpage_id page) here in
          (
            (h, c.page_table),
            find_or_create_hint_found is.table x.vpage_id h found,
            (record { shape = is.table; reads = λ w _. refl }, found),
          )
    ]

    pub begins : (a : ℕ × Table) × Begins a
    unfolding step begin_phase
    begins =
        let ((h, t), runs, says) = created in
        let at : At t x.vpage_id h (some h) = record {
          table = says.0.shape;
          real = omega (arith, page);
          found = says.1;
          hinted = inr refl;
        } in
        let read : get_pte t x.vpage_id (some h) ≡ some (view x.vpage_id) =
          get_pte-hint at
          ∙ says.0.reads x.vpage_id (omega (arith, page))
          ∙ is.reads x.vpage_id page in
        let free = is.frames.unlocked x.vpage_id page in
        (
          (h, t),
          record {
            keeps = says.0;
            lined = says.1;
            runs = λ n. run-step ops f n x _ c _ (ground (arith, start, runs, read, free));
          },
        )

  pub to_hit :
      (x : Context E X) (c : Cache E S W)
      → x.phase ≡ initing
      → x.kind ≡ pin_call
      → x.pte.exist ≡ true
      → step ops f x c ≡ hit_phase ops f x c
  unfolding step initing_phase
  to_hit x c start kind here = ground (arith, start, kind, here)

  pub to_unpin :
      (x : Context E X) (c : Cache E S W)
      → x.phase ≡ initing
      → x.kind ≡ unpin_call
      → step ops f x c ≡ unpin_phase ops f x c
  unfolding step initing_phase
  to_unpin x c start kind = ground (arith, start, kind)

  -- The lookup of the page's line does not matter to the rest.
  pub from_start :
      (c : Cache E S W) (t : Table) {view : ℕ → Pte} {v p : ℕ} {e : Cache E S W}
      → Missed ops f valid bound holds (record c { page_table = t }) view v p e
      → Missed ops f valid bound holds c view v p e
  from_start c t m = record {
    inside = m.inside;
    idle = m.idle;
    loaded = m.loaded;
    others = m.others;
    same_max = m.same_max;
    is_cache = m.is_cache;
  }

  -- A phase that ends the loop.
  pub ends_run :
      (n : ℕ) (x : Context E X) (c : Cache E S W) (a : Bool × Context E X × Cache E S W)
      → step ops f x c ≡ some a
      → a.0 ≡ false
      → run ops f (suc n) x c ≡ some (a.1, a.2)
  unfolding run
  ends_run n x c a steps last = rw (steps, last) refl

-- ===== src/SharedSingleThreadCache/Freed.antt =====
-- The last loop of `flush` of include/shared_single_thread_cache.hpp. The policy is empty by then: `held`
-- says what it held before.
use tri_cache.SharedSingleThreadCache.{Cache, Context, Functions, State, empty_vpage_id, free}
use tri_cache.SharedSingleThreadCache.Process.{init_state, state_at}
use tri_cache.SharedSingleThreadCache.Flush.{free_frames}
use tri_cache.SharedSingleThreadCache.Frames.{used, IsPage, free-Frames}
use tri_cache.SharedSingleThreadCache.Invariant.{IsCache, pages_of}
use tri_cache.Replacement.Policy.{Operations}
use tri_cache.PageTable.Place.{At, Writes}
use tri_cache.PageTable.Release.{Frees, release_mapping_lock-Frees}
use tri_cache.PageTable.Effects.{delete_mapping-Writes}
use tri_cache.PageTable.Entry.{line_of_mapped}
use tri_cache.PageTable.Table.{Pte, Table, empty_pte}
use tri_cache.Base.{
  Option, ◌⊎◌, ap, ℕ, suc, zero, ◌+◌, ◌≤◌, ◌<◌, ◌≡◌, ◌==◌, ◌∙◌, sym, if◌then◌else◌, Bool, true,
  false, none, List, [], ◌∷◌, Returns, arith, refl, inl, inr, get_or-set, length-set, ==_refl,
}

module _ {E X S W : Type 0} (ops : Operations S) (f : Functions E X W) (valid : S → Type 0)
    (bound : S → ℕ) where
  -- `d` is cache `c` with the frame of page `u` free.
  pub record FreesFrame (c : Cache E S W) (view : ℕ → Pte) (held : ℕ → Bool) (p u : ℕ)
      (d : Cache E S W) : Type 0 where
    pub is_cache :
        IsCache ops f valid bound
          (λ _ j. if p == j then false else held j)
          d
          (λ w. if w == u then empty_pte else view w)
    pub pages :
        (j : ℕ)
        → (state_at ops f d j).vpage_id
          ≡ (if p == j then empty_vpage_id else (state_at ops f c j).vpage_id)
    pub rest :
        (d.replacement ≡ c.replacement) × (d.world ≡ c.world) × (d.max_ppage_id ≡ c.max_ppage_id)

  module _ {c : Cache E S W} {view : ℕ → Pte} {held : ℕ → Bool}
      (is : IsCache ops f valid bound (λ _. held) c view) (x : Context E X)
      (inside : x.ppage_id < c.max_ppage_id)
      (in_use : used (pages_of ops f valid bound (λ _. held) c) x.ppage_id ≡ true)
      (of_page : x.pre_vpage_id ≡ pages_of ops f valid bound (λ _. held) c x.ppage_id)
      (idle : (view x.pre_vpage_id).ref_count ≡ 0) where
    abbrev my_frame : ℕ
    my_frame = x.ppage_id

    abbrev my_page : ℕ
    my_page = x.pre_vpage_id

    owned : IsPage my_page × ((view my_page).exist ≡ true) × ((view my_page).ppage_id ≡ my_frame)
    owned = rw of_page (is.frames.owner my_frame inside in_use)

    -- The cache with another table.
    abbrev freed : Table → Cache E S W
    freed t = free my_frame (init_state ops f my_frame (record c { page_table = t }))

    freed_pages :
        (t : Table) (j : ℕ)
        → (state_at ops f (freed t) j).vpage_id
          ≡ (if my_frame == j then empty_vpage_id else (state_at ops f c j).vpage_id)
    unfolding free
    freed_pages t j =
        let none_here : State E = record { vpage_id = empty_vpage_id; external = f.new_external } in
        ground (arith, get_or-set c.states my_frame j none_here none_here (rw is.sized inside))

    freed-IsCache :
        (t t' : Table) (o : Option ℕ)
        → Writes c.page_table my_page (record empty_pte { busy = true }) t
        → Frees t my_page empty_pte o t'
        → IsCache ops f valid bound
            (λ _ j. if my_frame == j then false else held j)
            (freed t')
            (λ w. if w == my_page then empty_pte else view w)
    unfolding free
    freed-IsCache t t' o deletes frees = record {
      table = frees.shape;
      reads = λ w w_page. ground (arith, frees.reads w, deletes.reads w, is.reads w w_page);
      sized = length-set c.states my_frame _ ∙ is.sized;
      small = is.small;
      is_valid = is.is_valid;
      bounded = is.bounded;
      pinned = is.pinned;
      pinned_pos = is.pinned_pos;
      frames = rw of_page (
          free-Frames is.frames my_frame (pages_of ops f valid bound (λ _. held) (freed t'))
            (λ j. if my_frame == j then false else held j) inside in_use (rw (← of_page) idle)
            (freed_pages t') (λ j lt. refl));
    }

    pub frees_frame :
        (d : Cache E S W) × ((xs : List (Context E X))
          → free_frames ops f (x ∷ xs) c ≡ free_frames ops f xs d)
        × FreesFrame c view held my_frame my_page d
    unfolding free_frames free
    frees_frame =
        let (q, lined) = line_of_mapped is.table my_page (is.reads my_page owned.0) owned.1 in
        let at : At c.page_table my_page q none = record {
          table = is.table;
          real = omega (arith, owned.0);
          found = lined;
          hinted = inl refl;
        } in
        let (a, deletes, first) =
          (delete_mapping-Writes at (is.reads my_page owned.0) owned.1).0
            (is.frames.unlocked my_page owned.0) idle in
        let at_locked : At a.1 my_page q none = record {
          table = first.1.shape;
          real = omega (arith, owned.0);
          found = first.1.hints my_page ∙ lined;
          hinted = inl refl;
        } in
        let (b, releases, second) =
          release_mapping_lock-Frees at_locked
            (first.1.reads my_page ∙ rw (==_refl my_page) refl) in
        (
          freed b.1,
          λ xs. rw (deletes, releases) refl,
          record {
            is_cache = freed-IsCache a.1 b.1 _ first.1 second.1;
            pages = freed_pages b.1;
            rest = (refl, refl, refl);
          },
        )

  -- The contexts of the frames in use among the `n` frames from frame `i` on, each once, in order.
  unfoldable pub Evictions : (ℕ → ℕ) → ℕ → ℕ → List (Context E X) → Type 0
  Evictions vp zero i xs = xs ≡ []
  Evictions vp (suc n) i xs =
      ((used vp i ≡ false) × Evictions vp n (i + 1) xs)
      ⊎ ((used vp i ≡ true)
          × (x : Context E X) × (ys : List (Context E X)) × (xs ≡ x ∷ ys)
          × (x.ppage_id ≡ i)
          × (x.pre_vpage_id ≡ vp i)
          × (x.processing ≡ false)
          × Evictions vp n (i + 1) ys)

  -- All frames are free.
  pub record Emptied (c e : Cache E S W) (held : ℕ → Bool) : Type 0 where
    pub view : ℕ → Pte
    pub is_cache : IsCache ops f valid bound (λ _. held) e view
    pub unused :
        (j : ℕ) → j < c.max_ppage_id → used (pages_of ops f valid bound (λ _. held) e) j ≡ false
    pub rest :
        (e.replacement ≡ c.replacement) × (e.world ≡ c.world) × (e.max_ppage_id ≡ c.max_ppage_id)

  pub frees_frames :
      (n i : ℕ) (vp : ℕ → ℕ) (xs : List (Context E X)) (c : Cache E S W) (view : ℕ → Pte)
      (held : ℕ → Bool)
      → IsCache ops f valid bound (λ _. held) c view
      → n + i ≡ c.max_ppage_id
      → Evictions vp n i xs
      → ((j : ℕ) → i ≤ j → j < c.max_ppage_id → (state_at ops f c j).vpage_id ≡ vp j)
      → ((j : ℕ) → j < i → (state_at ops f c j).vpage_id ≡ empty_vpage_id)
      → ((j : ℕ)
          → j < c.max_ppage_id
          → used (pages_of ops f valid bound (λ _. held) c) j ≡ true
          → (view (state_at ops f c j).vpage_id).ref_count ≡ 0)
      → Returns (free_frames ops f xs c) (λ e. (h : ℕ → Bool) × Emptied c e h)
  unfolding Evictions free_frames
  frees_frames zero i vp xs c view held is all es rest done idle = (
    c,
    rw es refl,
    (
      held,
      record {
        view = view;
        is_cache = is;
        unused = λ j lt. ground (arith, done j, all);
        rest = (refl, refl, refl);
      },
    ),
  )
  frees_frames (suc n) i vp xs c view held is all es rest done idle = elim es [
    | inl (unused, more) ↦
        frees_frames n (i + 1) vp xs c view held is (omega (arith, all)) more
          (λ j ge lt. rest j (omega (arith, ge)) lt)
          (λ j lt. ground (arith, done j, rest j, unused, all)) idle
    | inr (in_use, x, ys, e, frame, page, ready, more) ↦
        let same : (state_at ops f c x.ppage_id).vpage_id ≡ vp i =
          rw frame (rest i (omega arith) (omega (arith, all))) in
        let (d, frees, of_d) =
          frees_frame is x (omega (arith, frame, all)) (ground (arith, in_use, same))
            (page ∙ sym same)
            (rw (page, ← same)
              (idle x.ppage_id (omega (arith, frame, all)) (ground (arith, in_use, same)))) in
        let (last, ends, says) =
          frees_frames n (i + 1) vp ys d _ _ of_d.is_cache (omega (arith, all, of_d.rest.2)) more
            (λ j ge lt. ground (
              arith,
              of_d.pages j,
              frame,
              of_d.rest.2,
              ge,
              rest j (omega (arith, ge)) (omega (arith, lt, of_d.rest.2)),
            ))
            (λ j lt. ground (arith, of_d.pages j, frame, done j))
            (λ j lt h. ground (arith, of_d.pages j, h, idle j (omega (arith, lt, of_d.rest.2)))) in
        (
          last,
          ap (λ (zs : List (Context E X)). free_frames ops f zs c) e ∙ frees ys ∙ ends,
          (
            says.0,
            record {
              view = says.1.view;
              is_cache = says.1.is_cache;
              unused = λ j lt. says.1.unused j (omega (arith, lt, of_d.rest.2));
              rest = (
                says.1.rest.0 ∙ of_d.rest.0,
                says.1.rest.1 ∙ of_d.rest.1,
                says.1.rest.2 ∙ of_d.rest.2,
              );
            },
          ),
        )
  ]

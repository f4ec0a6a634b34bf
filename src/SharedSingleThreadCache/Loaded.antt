-- ===== src/SharedSingleThreadCache/Loaded.antt =====
-- The last two phases of `process` of include/shared_single_thread_cache.hpp, where `load_func` is done
-- at once: the frame is loaded and the lock of its page released.
use tri_cache.SharedSingleThreadCache.{
  empty_vpage_id, Cache, Context, Functions, State, evicting, ended,
}
use tri_cache.SharedSingleThreadCache.Process.{
  state_at, evicting_phase, loading_phase, call_load, release_victim, run, step,
}
use tri_cache.Replacement.Policy.{Operations}
use tri_cache.PageTable.Place.{At, Writes}
use tri_cache.PageTable.Release.{release_mapping_lock-Writes}
use tri_cache.PageTable.Mapping.{get_pte}
use tri_cache.PageTable.Table.{Pte}
use tri_cache.Base.{
  ℕ, suc, ◌<◌, ◌≡◌, ◌==◌, if◌then◌else◌, true, false, some, none, length, get_or, set, get_or-set,
  length-set, Returns, refl, arith, ◌∙◌, ==_refl, ap, ◌≢◌, ==_eq_false,
}

-- The entry of a page that is loaded into frame `p`.
abbrev pub loaded_pte : ℕ → Pte
loaded_pte p = record { exist = true; busy = false; dirty = false; ref_count = 1; ppage_id = p }

module _ {E X S W : Type 0} (ops : Operations S) (f : Functions E X W) where
  -- `e` is cache `d` where frame `p` is loaded with page `v`.
  pub record Loads (d : Cache E S W) (v p : ℕ) (e : Cache E S W) : Type 0 where
    pub writes : Writes d.page_table v (loaded_pte p) e.page_table
    pub pages :
        (x : ℕ)
        → (state_at ops f e x).vpage_id ≡ (if p == x then v else (state_at ops f d x).vpage_id)
    pub others : (j : ℕ) → p ≢ j → state_at ops f e j ≡ state_at ops f d j
    pub sized : length e.states ≡ length d.states
    pub rest :
        (e.replacement ≡ d.replacement)
        × (e.cur_id ≡ d.cur_id)
        × (e.recycle_pool ≡ d.recycle_pool)
        × (e.pinned_size ≡ d.pinned_size)
        × (e.max_ppage_id ≡ d.max_ppage_id)
    pub loaded :
        let (_, s, _, w) = f.load f.default_context v p f.new_external d.world in
        ((state_at ops f e p).external ≡ s) × (e.world ≡ w)

  -- A phase that lets the loop go on.
  pub run-step :
      (n : ℕ) (x y : Context E X) (c d : Cache E S W)
      → step ops f x c ≡ some (true, y, d)
      → run ops f (suc n) x c ≡ run ops f n y d
  unfolding run
  run-step n x y c d e = rw e

  pub loads_lem :
      (y : Context E X) (c d : Cache E S W) (h : ℕ)
      → ((x : X) (v p : ℕ) (s : E) (w : W) → (f.load x v p s w).0 ≡ true)
      → y.phase ≡ evicting
      → y.processing ≡ false
      → release_victim ops f y c ≡ some d
      → At d.page_table y.vpage_id h (some h)
      → y.hint ≡ some h
      → y.ppage_id < length d.states
      → get_pte d.page_table y.vpage_id none ≡ some (record (loaded_pte y.ppage_id) { busy = true })
      → Returns (run ops f 2 y c) (λ a.
        (a.0.phase ≡ ended)
        × (a.0.ppage_id ≡ y.ppage_id)
        × Loads d y.vpage_id y.ppage_id a.1
        × (a.0.external_state ≡ some y.ppage_id))
  unfolding run step evicting_phase loading_phase call_load
  loads_lem y c d h done phase idle released at hinted inside read =
      let v = y.vpage_id in
      let p = y.ppage_id in
      let (a, unlocks, says) = (release_mapping_lock-Writes at read refl).0 refl in
      let called = f.load f.default_context v p f.new_external d.world in
      let none_here : State E = record { vpage_id = empty_vpage_id; external = f.new_external } in
      let fresh : State E = record { vpage_id = v; external = f.new_external } in
      let first = set d.states p none_here in
      let second = set first p fresh in
      let third = set second p (record { vpage_id = v; external = called.1 }) in
      let at_first : get_or first p none_here ≡ none_here =
        get_or-set d.states p p none_here none_here inside ∙ rw (==_refl p) in
      let first_inside : p < length first = rw (length-set d.states p none_here) inside in
      let at_second : get_or second p none_here ≡ fresh =
        get_or-set first p p fresh none_here first_inside ∙ rw (==_refl p) in
      let second_inside : p < length second = rw (length-set first p fresh) first_inside in
      let whole : get_or third p none_here ≡ record { vpage_id = v; external = called.1 } =
        get_or-set second p p (record { vpage_id = v; external = called.1 }) none_here second_inside
        ∙ rw (==_refl p) in
      let at_third : (x : ℕ)
          → (get_or third x none_here).vpage_id
            ≡ (if p == x then v else (get_or d.states x none_here).vpage_id) =
        λ x. ground (
          arith,
          get_or-set second p x (record { vpage_id = v; external = called.1 }) none_here
              second_inside,
          get_or-set first p x fresh none_here first_inside,
          get_or-set d.states p x none_here none_here inside,
        ) in
      (
        (
          record y {
            phase = ended;
            external_state = some p;
            external_context = called.2;
            processing = false;
          },
          record d { page_table = a.1; states = third; world = called.3 },
        ),
        ground (
          arith,
          phase,
          idle,
          released,
          unlocks,
          hinted,
          done f.default_context v p f.new_external d.world,
          at_first,
          at_second,
          at_third p,
          says.1.reads v,
        ),
        (
          refl,
          refl,
          record {
            writes = says.1;
            pages = at_third;
            others = λ j other.
                get_or-set second p j _ none_here second_inside
                ∙ rw (==_eq_false p j other) (
                    get_or-set first p j fresh none_here first_inside
                    ∙ rw (==_eq_false p j other) (
                        get_or-set d.states p j none_here none_here inside
                        ∙ rw (==_eq_false p j other) refl));
            sized =
                length-set second p _ ∙ length-set first p fresh ∙ length-set d.states p none_here;
            rest = (refl, refl, refl, refl, refl);
            loaded = (ap (λ (s : State E). s.external) whole, refl);
          },
          refl,
        ),
      )

-- ===== src/SingleThreadCache/Loaded.antt =====
-- The last two phases of `process` of include/single_thread_cache.hpp, where `load_func` is done at once:
-- the frame is loaded and its page unlocked.
use tri_cache.SingleThreadCache.{Cache, Context, Map, IsMap}
use tri_cache.SingleThreadCache.Process.{
  state_at, evicting_phase, loading_phase, call_load, drop_victim, run, step,
}
use tri_cache.SharedSingleThreadCache.{empty_vpage_id, Functions, State, evicting, ended}
use tri_cache.SharedSingleThreadCache.Loaded.{loaded_pte}
use tri_cache.Replacement.Policy.{Operations}
use tri_cache.PageTable.Table.{Pte}
use tri_cache.Base.{
  ℕ, suc, ◌<◌, ◌≡◌, ◌==◌, if◌then◌else◌, true, false, some, length, get_or, set, get_or-set,
  length-set, Returns, refl, arith, ◌∙◌, ==_refl, ap,
}

module _ {E X S T W : Type 0} (ops : Operations S) (map : Map T Pte) (f : Functions E X W)
    (ref_bits : ℕ) (unset : Pte) (fits : T → Type 0) (InTable : ℕ → Type 0)
    (is_map : IsMap map fits InTable (λ e. e.exist ≡ true)) where
  -- `e` is cache `d` where frame `p` is loaded with page `v`.
  pub record Loads (d : Cache E S T W) (v p : ℕ) (e : Cache E S T W) : Type 0 where
    pub table : fits e.page_table
    pub reads :
        (j : ℕ)
        → map.get j e.page_table ≡ (if v == j then some (loaded_pte p) else map.get j d.page_table)
    pub pages :
        (j : ℕ)
        → (state_at ops map f ref_bits unset e j).vpage_id
          ≡ (if p == j then v else (state_at ops map f ref_bits unset d j).vpage_id)
    pub sized : length e.states ≡ length d.states
    pub rest :
        (e.replacement ≡ d.replacement)
        × (e.cur_id ≡ d.cur_id)
        × (e.recycle_pool ≡ d.recycle_pool)
        × (e.pinned_size ≡ d.pinned_size)
        × (e.max_ppage_id ≡ d.max_ppage_id)
    pub loaded :
        let (_, s, _, w) = f.load f.default_context v p f.new_external d.world in
        ((state_at ops map f ref_bits unset e p).external ≡ s) × (e.world ≡ w)

  pub run-step :
      (n : ℕ) (x y : Context E X) (c d : Cache E S T W)
      → step ops map f ref_bits unset x c ≡ some (true, y, d)
      → run ops map f ref_bits unset (suc n) x c ≡ run ops map f ref_bits unset n y d
  unfolding run
  run-step n x y c d e = rw e

  pub loads_lem :
      (y : Context E X) (c d : Cache E S T W)
      → ((x : X) (v p : ℕ) (s : E) (w : W) → (f.load x v p s w).0 ≡ true)
      → y.phase ≡ evicting
      → y.processing ≡ false
      → drop_victim ops map f ref_bits unset y c ≡ d
      → fits d.page_table
      → InTable y.vpage_id
      → y.ppage_id < length d.states
      → Returns (run ops map f ref_bits unset 2 y c) (λ a.
        (a.0.phase ≡ ended) × (a.0.ppage_id ≡ y.ppage_id) × Loads d y.vpage_id y.ppage_id a.1)
  unfolding run step evicting_phase loading_phase call_load
  loads_lem y c d done phase idle dropped d_fits page inside =
      let v = y.vpage_id in
      let p = y.ppage_id in
      let busy = record (loaded_pte p) { busy = true; ref_count = 0 } in
      let puts = is_map.put-get d.page_table v busy d_fits page refl in
      let again = is_map.put-get (map.put v busy d.page_table) v (loaded_pte p) puts.0 page refl in
      let called = f.load f.default_context v p f.new_external d.world in
      let none_here : State E = record { vpage_id = empty_vpage_id; external = f.new_external } in
      let fresh : State E = record { vpage_id = v; external = f.new_external } in
      let first = set d.states p none_here in
      let second = set first p fresh in
      let third = set second p (record { vpage_id = v; external = called.1 }) in
      let at_first : get_or first p none_here ≡ none_here =
        get_or-set d.states p p none_here none_here inside ∙ rw (==_refl p) in
      let first_inside : p < length first = rw (length-set d.states p none_here) inside in
      let at_second : get_or second p none_here ≡ fresh =
        get_or-set first p p fresh none_here first_inside ∙ rw (==_refl p) in
      let second_inside : p < length second = rw (length-set first p fresh) first_inside in
      let whole : get_or third p none_here ≡ record { vpage_id = v; external = called.1 } =
        get_or-set second p p (record { vpage_id = v; external = called.1 }) none_here second_inside
        ∙ rw (==_refl p) in
      (
        (
          record y {
            phase = ended;
            page_table_state = some (loaded_pte p);
            external_state = some p;
            external_context = called.2;
            processing = false;
          },
          record d {
            page_table = map.put v (loaded_pte p) (map.put v busy d.page_table);
            states = third;
            world = called.3;
          },
        ),
        ground (
          arith,
          phase,
          idle,
          dropped,
          done f.default_context v p f.new_external d.world,
          at_first,
          at_second,
        ),
        (
          refl,
          refl,
          record {
            table = again.0;
            reads = λ j. ground (arith, again.1 j, puts.1 j);
            pages = λ x. ground (
              arith,
              get_or-set second p x (record { vpage_id = v; external = called.1 }) none_here
                  second_inside,
              get_or-set first p x fresh none_here first_inside,
              get_or-set d.states p x none_here none_here inside,
            );
            sized =
                length-set second p _ ∙ length-set first p fresh ∙ length-set d.states p none_here;
            rest = (refl, refl, refl, refl, refl);
            loaded = (ap (λ (s : State E). s.external) whole, refl);
          },
        ),
      )

-- ===== src/SingleThreadCache/Process.antt =====
-- `process` of include/single_thread_cache.hpp, one function for each phase. A phase says whether the
-- loop goes on. A failed assertion, or the value of an empty option, is `none`, as is a round on a
-- context that has ended, on which the loop would go round for ever.
use tri_cache.SingleThreadCache.{Map, Context, Cache, more, fewer, full, full_pin, alloc}
use tri_cache.SharedSingleThreadCache.{
  empty_vpage_id, no_ppage_id, State, pin_call, unpin_call, begin, initing, evicting, loading,
  ended, Functions,
}
use tri_cache.Replacement.Policy.{Operations}
use tri_cache.PageTable.Table.{Pte}
use tri_cache.Base.{
  ℕ, zero, suc, ◌+◌, ◌-◌, ◌%◌, ◌^◌, ◌==◌, if◌then◌else◌, Bool, true, false, not, ◌||◌, Option, none,
  some, get_or, set, ◌>>=◌, ◌>>◌, assert,
}

-- `page_table_state_type()`
abbrev pub no_state : Pte
no_state = record { exist = false; busy = false; dirty = false; ref_count = 0; ppage_id = 0 }

-- `unset` is the memory of a state that is declared without a value; `ref_bits` is the width of the
-- counter.
module _ {E X S T W : Type 0} (ops : Operations S) (map : Map T Pte) (f : Functions E X W)
    (ref_bits : ℕ) (unset : Pte) where
  abbrev pub state_at : Cache E S T W → ℕ → State E
  state_at c p = get_or c.states p (record { vpage_id = empty_vpage_id; external = f.new_external })

  abbrev pub set_state : ℕ → State E → Cache E S T W → Cache E S T W
  set_state p s c = record c { states = set c.states p s }

  -- `init_state`
  abbrev pub init_state : ℕ → Cache E S T W → Cache E S T W
  init_state p c = set_state p (record { vpage_id = empty_vpage_id; external = f.new_external }) c

  abbrev pub put : ℕ → Pte → Cache E S T W → Cache E S T W
  put v e c = record c { page_table = map.put v e c.page_table }

  -- What a phase leaves: whether the loop goes on, the context and the cache.
  abbrev pub After : Type 0
  After = Option (Bool × Context E X × Cache E S T W)

  unfoldable pub begin_phase : Context E X → Cache E S T W → After
  begin_phase x c =
      let y = record x { page_table_state = map.get x.vpage_id c.page_table } in
      elim (map.get x.vpage_id c.page_table) [
        | none ↦ some (true, record y { phase = initing }, c)
        | some e ↦
            if not e.exist
            then some (true, record y { phase = initing; page_table_state = none }, c)
            else if e.busy
            then some (false, y, c)
            else some (true, record y { phase = initing }, c)
      ]

  -- The state of a page that gets the call's dirty mark and loses a reference, if it has one.
  unfoldable pub unpin_state :
      Context E X → Pte → Cache E S T W → Option (Bool × Pte × Cache E S T W)
  unpin_state x e c =
      let d = record e { dirty = x.is_write || e.dirty } in
      if d.ref_count == 0
      then some (false, d, c)
      else (let u = record d { ref_count = d.ref_count - 1 } in
          if u.ref_count == 0
          then (do
            r ← ops.push u.ppage_id c.replacement
            some (true, u, record c { pinned_size = fewer c.pinned_size; replacement = r }))
          else some (true, u, c))

  unfoldable pub unpin_phase : Context E X → Cache E S T W → After
  unfolding unpin_state
  unpin_phase x c = elim x.page_table_state [
    | none ↦ some (false, record x { is_unpin = false; phase = ended }, c)
    | some e ↦ do
      assert e.exist
      assert ((state_at c e.ppage_id).vpage_id == x.vpage_id)
      (flag, u, d) ← unpin_state x e c
      some (
        false,
        record x { page_table_state = some u; is_unpin = flag; phase = ended },
        put x.vpage_id u d,
      )
  ]

  -- `pin` of a page that is mapped.
  unfoldable pub hit_phase : Context E X → Pte → Cache E S T W → After
  hit_phase x e c = do
    assert e.exist
    assert ((state_at c e.ppage_id).vpage_id == x.vpage_id)
    d ←
        if e.ref_count == 0
        then (do
          r ← ops.erase e.ppage_id c.replacement
          some (record c { replacement = r; pinned_size = more c.pinned_size }))
        else some c
    let u = record e { ref_count = (e.ref_count + 1) % 2 ^ ref_bits }
    some (
      false,
      record x {
        page_table_state = some u;
        ppage_id = u.ppage_id;
        external_state = some u.ppage_id;
        pre_external_state = none;
        phase = ended;
      },
      put x.vpage_id u d,
    )

  -- `evict_func` with the context's arguments; the loop goes on when it is done.
  unfoldable pub call_evict : Context E X → Cache E S T W → After
  call_evict x c =
      let s = state_at c x.ppage_id in
      let (done, ctx, w) =
        f.evict x.external_context x.pre_vpage_id x.ppage_id x.dirty s.external c.world in
      some
        (done, record x { processing = not done; external_context = ctx }, record c { world = w })

  unfoldable pub call_load : Context E X → Cache E S T W → After
  call_load x c =
      let s = state_at c x.ppage_id in
      let (done, e, ctx, w) = f.load x.external_context x.vpage_id x.ppage_id s.external c.world in
      some (
        done,
        record x { processing = not done; external_context = ctx },
        record (set_state x.ppage_id (record s { external = e }) c) { world = w },
      )

  -- `pin` of a page that is not mapped, where all frames hold pages.
  unfoldable pub evict_page : Context E X → Cache E S T W → After
  unfolding call_evict
  evict_page x c = do
    (p, prefetch, r) ← ops.pop c.replacement
    let s = state_at c p
    e ← map.get s.vpage_id c.page_table
    let d =
        put x.vpage_id (record unset { exist = true; busy = true; ppage_id = p })
          (put s.vpage_id (record e { busy = true }) (record c { replacement = r }))
    call_evict
        (record x {
          ppage_id = p;
          prefetch_ppage_id = prefetch;
          pre_vpage_id = s.vpage_id;
          pre_external_state = some s.external;
          dirty = e.dirty;
          phase = evicting;
          external_context = f.default_context;
        })
        d

  -- `pin` of a page that is not mapped.
  unfoldable pub miss_phase : Context E X → Cache E S T W → After
  unfolding evict_page
  miss_phase x c =
      if full_pin c
      then some (false, record x { ppage_id = no_ppage_id; phase = ended }, c)
      else (let counted = record c { pinned_size = more c.pinned_size } in
          if full counted then evict_page x counted else (do
            (p, d) ← alloc counted
            some (true, record x { ppage_id = p; phase = evicting; processing = false }, d)))

  unfoldable pub initing_phase : Context E X → Cache E S T W → After
  initing_phase x c = elim x.kind [
    | unpin_call ↦ unpin_phase x c
    | pin_call ↦ elim x.page_table_state [ some e ↦ hit_phase x e c | none ↦ miss_phase x c ]
  ]

  -- `del` of the page that was evicted, if any.
  abbrev pub drop_victim : Context E X → Cache E S T W → Cache E S T W
  drop_victim x c = elim x.pre_external_state [
    | none ↦ c
    | some s ↦ record c { page_table = map.del x.pre_vpage_id c.page_table }
  ]

  unfoldable pub evicting_phase : Context E X → Cache E S T W → After
  unfolding call_evict call_load
  evicting_phase x c =
      if x.processing
      then call_evict x c
      else (let fresh = init_state x.ppage_id (drop_victim x c) in
          let e = record no_state { exist = true; busy = true; ppage_id = x.ppage_id } in
          let mine =
            set_state x.ppage_id (record (state_at fresh x.ppage_id) { vpage_id = x.vpage_id })
              (put x.vpage_id e fresh) in
          call_load
            (record x {
              page_table_state = some e;
              phase = loading;
              external_state = some x.ppage_id;
              external_context = f.default_context;
            })
            mine)

  unfoldable pub loading_phase : Context E X → Cache E S T W → After
  unfolding call_load
  loading_phase x c = if x.processing then call_load x c else (do
    e ← x.page_table_state
    let u = record e { dirty = false; ref_count = 1; busy = false }
    some (false, record x { page_table_state = some u; phase = ended }, put x.vpage_id u c))

  unfoldable pub step : Context E X → Cache E S T W → After
  step x c = elim x.phase [
    | begin ↦ begin_phase x c
    | initing ↦ initing_phase x c
    | evicting ↦ evicting_phase x c
    | loading ↦ loading_phase x c
    | ended ↦ none
  ]

  -- The loop of `process`, on fuel.
  unfoldable pub run : ℕ → Context E X → Cache E S T W → Option (Context E X × Cache E S T W)
  run zero x c = none
  run (suc n) x c = do
    (again, y, d) ← step x c
    elim again [ true ↦ run n y d | false ↦ some (y, d) ]

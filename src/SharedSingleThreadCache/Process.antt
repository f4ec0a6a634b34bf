-- ===== src/SharedSingleThreadCache/Process.antt =====
-- `process` of include/shared_single_thread_cache.hpp, one function for each phase. A phase says
-- whether the loop goes on. A failed assertion is `none`.
use tri_cache.SharedSingleThreadCache.{
  empty_vpage_id, no_ppage_id, State, pin_call, unpin_call, begin, initing, evicting, loading,
  ended, Context, Functions, Cache, full, full_pin, alloc,
}
use tri_cache.Replacement.Policy.{Operations}
use tri_cache.PageTable.Mapping
use tri_cache.PageTable.Mapping.{
  create_mapping, delete_mapping, release_mapping_lock, get_pte, find_or_create_hint, find_hint,
}
use tri_cache.Base.{
  ℕ, zero, suc, ◌==◌, if◌then◌else◌, Bool, true, false, not, ◌||◌, Option, none, some, get_or, set,
  pos, ◌+ℤ◌, ◌-ℤ◌, ◌>>=◌, ◌>>◌, assert,
}

module _ {E X S W : Type 0} (ops : Operations S) (f : Functions E X W) where
  abbrev pub state_at : Cache E S W → ℕ → State E
  state_at c p = get_or c.states p (record { vpage_id = empty_vpage_id; external = f.new_external })

  abbrev pub set_state : ℕ → State E → Cache E S W → Cache E S W
  set_state p s c = record c { states = set c.states p s }

  -- `init_state`
  abbrev pub init_state : ℕ → Cache E S W → Cache E S W
  init_state p c = set_state p (record { vpage_id = empty_vpage_id; external = f.new_external }) c

  -- What a phase leaves: whether the loop goes on, the context and the cache.
  abbrev pub After : Type 0
  After = Option (Bool × Context E X × Cache E S W)

  unfoldable pub begin_phase : Context E X → Cache E S W → After
  begin_phase x c = do
    (h, t) ← find_or_create_hint c.page_table x.vpage_id
    e ← get_pte t x.vpage_id (some h)
    let y = record x { hint = some h; pte = e }
    some (
      not e.busy,
      if e.busy then y else record y { phase = initing },
      record c { page_table = t },
    )

  unfoldable pub unpin_phase : Context E X → Cache E S W → After
  unpin_phase x c =
      let y = record x { is_unpin = false; phase = ended } in
      if x.pte.exist
      then (do
        assert ((state_at c x.pte.ppage_id).vpage_id == x.vpage_id)
        (pre, t) ← Mapping.unpin c.page_table x.vpage_id x.is_write x.hint
        if pre == 1
            then (do
              r ← ops.push x.pte.ppage_id c.replacement
              some (
                false,
                record y { is_unpin = true },
                record c { page_table = t; pinned_size = c.pinned_size -ℤ pos 1; replacement = r },
              ))
            else some (false, y, record c { page_table = t }))
      else some (false, y, c)

  -- `pin` of a page that is mapped.
  unfoldable pub hit_phase : Context E X → Cache E S W → After
  hit_phase x c = do
    assert ((state_at c x.pte.ppage_id).vpage_id == x.vpage_id)
    (a, t) ← Mapping.pin c.page_table x.vpage_id x.hint
    assert a.0
    let y = record x {
      ppage_id = a.1;
      external_state = some x.pte.ppage_id;
      pre_external_state = none;
      phase = ended;
    }
    if a.2 == 0
        then (do
          r ← ops.erase x.pte.ppage_id c.replacement
          some (
            false,
            y,
            record c { page_table = t; pinned_size = c.pinned_size +ℤ pos 1; replacement = r },
          ))
        else some (false, y, record c { page_table = t })

  -- The loop that looks for a page to evict: `pop` until a page is found that is not referenced and
  -- can be locked. It takes one round at most for each frame.
  unfoldable pub take_victim : ℕ → Context E X → Cache E S W → Option (Context E X × Cache E S W)
  take_victim zero x c = none
  take_victim (suc n) x c = do
    (p, prefetch, r) ← ops.pop c.replacement
    let v = (state_at c p).vpage_id
    h ← find_hint c.page_table v
    e ← get_pte c.page_table v (some h)
    let y = record x {
      ppage_id = p;
      prefetch_ppage_id = prefetch;
      pre_vpage_id = v;
      pre_hint = some h;
    }
    let d = record c { replacement = r }
    elim (not (e.ref_count == 0) || e.busy) [
      | true ↦ take_victim n y d
      | false ↦ do
        (deleted, t) ← delete_mapping c.page_table v (some h)
        elim deleted [
          | true ↦ some (
            record y { pre_external_state = some (state_at c p).external; dirty = e.dirty },
            record d { page_table = t },
          )
          | false ↦ take_victim n y d
        ]
    ]

  -- `evict_func` with the context's arguments; the loop goes on when it is done.
  unfoldable pub call_evict : Context E X → Cache E S W → After
  call_evict x c = elim x.pre_external_state [
    | none ↦ none
    | some s ↦
        let (done, ctx, w) =
          f.evict x.external_context x.pre_vpage_id x.ppage_id x.dirty s c.world in
        some
          (done, record x { processing = not done; external_context = ctx }, record c { world = w })
  ]

  unfoldable pub call_load : Context E X → Cache E S W → After
  call_load x c =
      let s = state_at c x.ppage_id in
      let (done, e, ctx, w) = f.load x.external_context x.vpage_id x.ppage_id s.external c.world in
      some (
        done,
        record x { processing = not done; external_context = ctx },
        record (set_state x.ppage_id (record s { external = e }) c) { world = w },
      )

  -- `create_mapping` of the page, with `assert(success == true)`
  unfoldable pub map_page : Context E X → Cache E S W → Option (Cache E S W)
  map_page x c = do
    (success, t) ← create_mapping c.page_table x.vpage_id x.ppage_id 1 x.hint
    assert success
    some (record c { page_table = t })

  -- `pin` of a page that is not mapped.
  unfoldable pub miss_phase : Context E X → Cache E S W → After
  unfolding map_page call_evict
  miss_phase x c =
      if full_pin c
      then some (false, record x { ppage_id = no_ppage_id; phase = ended }, c)
      else (let counted = record c { pinned_size = c.pinned_size +ℤ pos 1 } in
          if full counted
          then (do
            (y, d) ← take_victim (suc counted.max_ppage_id) x counted
            mapped ← map_page y d
            call_evict (record y { phase = evicting; external_context = f.default_context }) mapped)
          else (do
            (p, d) ← alloc counted
            let y = record x { ppage_id = p }
            mapped ← map_page y d
            some (true, record y { phase = evicting; processing = false }, mapped)))

  unfoldable pub initing_phase : Context E X → Cache E S W → After
  initing_phase x c = elim x.kind [
    | unpin_call ↦ unpin_phase x c
    | pin_call ↦ if x.pte.exist then hit_phase x c else miss_phase x c
  ]

  -- `release_mapping_lock` of the page that was evicted, if any.
  unfoldable pub release_victim : Context E X → Cache E S W → Option (Cache E S W)
  release_victim x c = elim x.pre_external_state [
    | none ↦ some c
    | some s ↦ do
      (_, t) ← release_mapping_lock c.page_table x.pre_vpage_id x.pre_hint
      some (record c { page_table = t })
  ]

  unfoldable pub evicting_phase : Context E X → Cache E S W → After
  unfolding call_evict call_load release_victim
  evicting_phase x c = if x.processing then call_evict x c else (do
    d ← release_victim x c
    let fresh = init_state x.ppage_id d
    let mine =
        set_state x.ppage_id (record (state_at fresh x.ppage_id) { vpage_id = x.vpage_id }) fresh
    let y = record x {
      phase = loading;
      external_state = some x.ppage_id;
      external_context = f.default_context;
    }
    call_load y mine)

  unfoldable pub loading_phase : Context E X → Cache E S W → After
  unfolding call_load
  loading_phase x c = if x.processing then call_load x c else (do
    (_, t) ← release_mapping_lock c.page_table x.vpage_id x.hint
    e ← get_pte t x.vpage_id none
    assert (e.ppage_id == x.ppage_id)
    assert ((state_at c x.ppage_id).vpage_id == x.vpage_id)
    some (false, record x { phase = ended }, record c { page_table = t }))

  unfoldable pub step : Context E X → Cache E S W → After
  step x c = elim x.phase [
    | begin ↦ begin_phase x c
    | initing ↦ initing_phase x c
    | evicting ↦ evicting_phase x c
    | loading ↦ loading_phase x c
    | ended ↦ none
  ]

  -- The loop of `process`, on fuel.
  unfoldable pub run : ℕ → Context E X → Cache E S W → Option (Context E X × Cache E S W)
  run zero x c = none
  run (suc n) x c = do
    (again, y, d) ← step x c
    elim again [ true ↦ run n y d | false ↦ some (y, d) ]

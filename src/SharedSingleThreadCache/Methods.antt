-- ===== src/SharedSingleThreadCache/Methods.antt =====
-- The calls of include/shared_single_thread_cache.hpp: the constructor, `pin` and `unpin`, the notices
-- of a client, and `flush`.
use tri_cache.SharedSingleThreadCache.{
  empty_vpage_id, pin_call, unpin_call, begin, Context, Functions, Cache,
}
use tri_cache.SharedSingleThreadCache.Process.{run}
use tri_cache.Replacement.Policy.{Operations}
use tri_cache.PageTable.Table.{new_table}
use tri_cache.PageTable.Mapping.{get_pte}
use tri_cache.Base.{
  ℕ, ◌==◌, if◌then◌else◌, Bool, not, ◌||◌, Option, none, some, [], replicate, pos, ◌+ℤ◌, ◌-ℤ◌,
  ◌>>=◌,
}

module _ {E X S W : Type 0} (ops : Operations S) (f : Functions E X W) where
  -- The constructor; `replacement(max_ppage_id)` is the third argument.
  unfoldable pub new_cache : ℕ → S → W → Cache E S W
  new_cache max_ppage_id replacement world = record {
    max_ppage_id = max_ppage_id;
    page_table = new_table max_ppage_id;
    pinned_size = pos 0;
    cur_id = 0;
    recycle_pool = [];
    states =
        replicate max_ppage_id (record { vpage_id = empty_vpage_id; external = f.new_external });
    replacement = replacement;
    world = world;
  }

  -- No call goes through more than four phases.
  unfoldable pub process : Context E X → Cache E S W → Option (Context E X × Cache E S W)
  process x c = run ops f 4 x c

  -- `x` is the memory of the new context, which has no `pre_external_state`.
  unfoldable pub pin : ℕ → Context E X → Cache E S W → Option (Context E X × Cache E S W)
  unfolding process
  pin v x c =
      process (record x { kind = pin_call; phase = begin; vpage_id = v; pre_external_state = none })
        c

  unfoldable pub unpin : ℕ → Bool → Context E X → Cache E S W → Option (Context E X × Cache E S W)
  unfolding process
  unpin v is_write x c =
      process
        (record x {
          kind = unpin_call;
          phase = begin;
          vpage_id = v;
          is_write = is_write;
          pre_external_state = none;
        })
        c

  -- A client has pinned the page in the page table by itself.
  unfoldable pub notify_pin : ℕ → Cache E S W → Option (Cache E S W)
  notify_pin v c = do
    e ← get_pte c.page_table v none
    let d = record c { pinned_size = c.pinned_size +ℤ pos 1 }
    if e.ref_count == 0
        then some d
        else (do r ← ops.erase e.ppage_id c.replacement; some (record d { replacement = r }))

  unfoldable pub notify_unpin : ℕ → Cache E S W → Option (Cache E S W)
  notify_unpin v c = do
    e ← get_pte c.page_table v none
    let d = record c { pinned_size = c.pinned_size -ℤ pos 1 }
    if not e.exist || not (e.ref_count == 0)
        then some d
        else (do r ← ops.push e.ppage_id c.replacement; some (record d { replacement = r }))

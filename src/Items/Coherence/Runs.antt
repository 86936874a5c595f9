-- ===== src/Items/Coherence/Runs.antt =====
-- Reads and changes of items, one after the other, from a server without copies of items.
use fastapi_newyear.Base.{ℕ, ◌≤◌, ◌<◌, ◌≡◌, sym, ◌∙◌, false, none, arith}
use mathlib.Core.Path.{subst}
use fastapi_newyear.Env.{Env}
use fastapi_newyear.World.{World, Db}
use fastapi_newyear.Common.Cache.Client.{peek}
use fastapi_newyear.Items.Repository.{get_active_by_id}
use fastapi_newyear.Items.Schemas.{PaginationDto}
use fastapi_newyear.Items.Service.{list_items, get_item, item_cache_key}
use fastapi_newyear.Items.Titles.{IsWellFormed}
use fastapi_newyear.Items.Titles.Operations.{
  create_item-IsWellFormed, put_item-IsWellFormed, patch_item-IsWellFormed,
  delete_item-IsWellFormed,
}
use fastapi_newyear.Items.Refinement.{Command, creation, replacement, patch, deletion, run}
use fastapi_newyear.Items.Coherence.{
  IsCoherent, none≢some, reading, IsCoherent-get_item, get_item_reads, get_item_frame,
}
use fastapi_newyear.Items.Coherence.Commands.{
  IsCoherent-put_item, IsCoherent-patch_item, IsCoherent-delete_item,
}
use fastapi_newyear.Items.Coherence.Creation.{IsCoherent-create_item}
use fastapi_newyear.Items.Coherence.Pages.{IsCoherent-list_items, list_items_frame}

module _ ⦃env : Env⦄ where
  -- One use of the items, or a lapse of time.
  pub data ItemStep : World → World → Type 0 where
    read : (id u : ℕ) (w : World) → ItemStep w (get_item id u w).1
    page : (p : PaginationDto) (u : ℕ) (w : World) → ItemStep w (list_items p u w).1
    change : (c : Command) (u : ℕ) (w : World) → ItemStep w (run c u w)
    wait : (t : ℕ) (w : World) → w.now ≤ t → ItemStep w (record w { now = t })

  pub data ItemRun (v : World) : World → Type 0 where
    here : ItemRun v v
    then : {w x : World} → ItemRun v w → ItemStep w x → ItemRun v x

  -- The cache is coherent, and the items are well-formed.
  abbrev IsSound : World → Type 0
  IsSound w = IsCoherent w × IsWellFormed w.db.holiday_items

  module _ (up : (n : ℕ) → env.redis_fails n ≡ false) where
    change-IsSound : (c : Command) (u : ℕ) (w : World) → IsSound w → IsSound (run c u w)
    unfolding run
    change-IsSound (creation d) u w (h, wf) =
        (IsCoherent-create_item d u w h, create_item-IsWellFormed d u w wf)
    change-IsSound (replacement i d) u w (h, wf) =
        (IsCoherent-put_item up i u d w wf h, put_item-IsWellFormed i u d w wf)
    change-IsSound (patch i d) u w (h, wf) =
        (IsCoherent-patch_item up i u d w wf h, patch_item-IsWellFormed i u d w wf)
    change-IsSound (deletion i) u w (h, wf) =
        (IsCoherent-delete_item up i u w wf h, delete_item-IsWellFormed i u w wf)

    step-IsSound : {v w : World} → ItemStep v w → IsSound v → IsSound w
    unfolding get_active_by_id
    step-IsSound (read id u w) (h, wf) = (
      IsCoherent-get_item id u w h,
      subst (λ (d : Db). IsWellFormed d.holiday_items) (sym (get_item_frame id u w).0) wf,
    )
    step-IsSound (page p u w) (h, wf) = (
      IsCoherent-list_items p u w h,
      subst (λ (d : Db). IsWellFormed d.holiday_items) (sym (list_items_frame p u w).0) wf,
    )
    step-IsSound (change c u w) s = change-IsSound c u w s
    step-IsSound (wait t w later) (h, wf) = (λ j x s v after e. h j x s v (omega arith) e, wf)

    run-IsSound : {v w : World} → IsSound v → ItemRun v w → IsSound w
    run-IsSound s here = s
    run-IsSound s (then before step) = step-IsSound step (run-IsSound s before)

    -- After any sequence of reads, pages, creations, replacements, patches and deletions of items by any users, with any
    -- time between them, a read through the cache answers as the database alone does: with 404, with 403, or with the
    -- response that is built from the active item, which fails its validation where a patch has set a field to null.
    -- The cache starts without copies of items, no call of Redis fails, and the cache's time to live is positive.
    pub get_item_uncached :
        (v w : World) (id u : ℕ)
        → 0 < env.settings.items_cache_ttl_seconds
        → IsWellFormed v.db.holiday_items
        → ((j x t : ℕ) → v.now ≤ t → peek t (item_cache_key x j) v.server ≡ none)
        → ItemRun v w
        → (get_item id u w).0 ≡ reading (get_active_by_id id w) u
    get_item_uncached v w id u pos wf empty steps =
        get_item_reads id u w pos
          (run-IsSound (λ j x t value after e. absurd (none≢some (sym (empty j x t after) ∙ e)), wf)
            steps).0

-- ===== src/Queue/Laws.antt =====
-- What the queue page shows after a fetch (frontend/tenant-dashboard/app/dashboard/queue/page.tsx).
use modera_shield.Base.{
  String, true, none, List, [], ◌∷◌, map, length, filter, ◌≡◌, refl, arith, ok, thrown, or_default,
  if◌then◌else◌, nat_eq,
}
use modera_shield.Client.Types.{RecentRequestItem, RecentRequestsResponse}
use modera_shield.Client.Http.{Env}
use modera_shield.Client.Api.{get_requests}
use modera_shield.Page.{Page, set_ui, on_world_lem, present-error_of}
use modera_shield.Queue.{
  Ui, failed, clean, table, row, is_flagged_item, fetch_flagged, view, settled,
}

abbrev started : Page Ui → Page Ui
started p = set_ui (λ u. record u { is_loading = true; error = none }) p

settled_lem :
    (items : List RecentRequestItem)
    → settled none items
      ≡ (if nat_eq (length items) 0 then clean else table (length items) (map row items))
settled_lem [] = refl
settled_lem (item ∷ items) = ground arith

-- When the first page of 100 requests is answered, the queue is "clean" if none of them is flagged,
-- and else a table of exactly the flagged ones, in their order and with their number.
fetch_flagged-shows :
    (env : Env) (p : Page Ui) (res : RecentRequestsResponse)
    → (get_requests env 1 100 p.world).0 ≡ ok res
    → (view (fetch_flagged env p).1.ui ≡ (
        if nat_eq (length (filter is_flagged_item res.items)) 0
        then clean
        else table
            (length (filter is_flagged_item res.items))
            (map row (filter is_flagged_item res.items))))
unfolding fetch_flagged view
fetch_flagged-shows env p res e =
    rw (on_world_lem (get_requests env 1 100) (started p) e)
      (settled_lem (filter is_flagged_item res.items))

-- When that request fails, the page shows an error that is not empty, with the "Retry" button, and
-- keeps the items that it had.
fetch_flagged-fails :
    (env : Env) (p : Page Ui) (message : String)
    → (get_requests env 1 100 p.world).0 ≡ thrown message
    → (view (fetch_flagged env p).1.ui
        ≡ failed (or_default message "Failed to load flagged queue."))
      × ((fetch_flagged env p).1.ui.flagged_items ≡ p.ui.flagged_items)
unfolding fetch_flagged view
fetch_flagged-fails env p message e =
    rw (on_world_lem (get_requests env 1 100) (started p) e)
      (rw (present-error_of message "Failed to load flagged queue." refl) refl, refl)

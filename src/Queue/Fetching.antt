-- ===== src/Queue/Fetching.antt =====
-- frontend/tenant-dashboard/app/dashboard/queue/page.tsx: fetchFlagged up to its `await` and from
-- there on, and the effect that calls it. It depends on nothing, so only the buttons call it again.
use modera_shield.Base.{
  true, false, none, some, List, Result, ok, thrown, ◌≡◌, refl, or_default, filter, All, arith,
}
use modera_shield.Client.Types.{RecentRequestItem, RecentRequestsResponse}
use modera_shield.Client.Http.{Env}
use modera_shield.Client.Api.{get_requests}
use modera_shield.Page.{Page, error_of, Result-cases}
use modera_shield.Queue.{Ui, initial, is_flagged_item, fetch_flagged, listed, view}
use modera_shield.Fetching.{Fetches, Live, Event, opened, run, AtRest, in_order, settle}
use modera_shield.Fetching.Settled.{settle-IsShown}

unfoldable begin : Ui → Ui
begin u = record u { is_loading = true; error = none }

-- What the page keeps of an answer.
abbrev flagged : Result RecentRequestsResponse → Result (List RecentRequestItem)
flagged (ok res) = ok (filter is_flagged_item res.items)
flagged (thrown e) = thrown e

unfoldable finish : Result (List RecentRequestItem) → Ui → Ui
finish (ok items) u = record u { is_loading = false; flagged_items = items }
finish (thrown e) u = record u {
  is_loading = false;
  error = error_of e "Failed to load flagged queue.";
}

-- The handler is the two parts around the request.
fetch_flagged_lem :
    (env : Env) (p : Page Ui)
    → fetch_flagged env p ≡ (
      ok tt,
      record {
        ui = finish (flagged (get_requests env 1 100 p.world).0) (begin p.ui);
        world = (get_requests env 1 100 p.world).1;
      },
    )
unfolding fetch_flagged finish begin
fetch_flagged_lem env p = ground (arith, Result-cases (get_requests env 1 100 p.world).0)

queue : Fetches Ui (Unit {0}) (List RecentRequestItem)
unfolding begin finish
queue = record {
  key = λ u. tt;
  set_key = λ k u. u;
  same = λ j k. true;
  begin = begin;
  finish = finish;
  content = λ u. some u.flagged_items;
  error = λ u. u.error;
  message = λ e. or_default e "Failed to load flagged queue.";
  is_loading = λ u. u.is_loading;
  same-eq = λ j k h. refl;
  key-set_key = λ k u. refl;
  content-set_key = λ k u. refl;
  error-set_key = λ k u. refl;
  is_loading-set_key = λ k u. refl;
  key-begin = λ u. refl;
  content-begin = λ u. refl;
  error-begin = λ u. refl;
  is_loading-begin = λ u. refl;
  key-finish = λ r u. refl;
  content-ok = λ a u. refl;
  content-thrown = λ e u. refl;
  error-ok = λ a u. refl;
  error-thrown = λ e u. refl;
  is_loading-finish = loaded;
}
  where
    loaded : (r : Result (List RecentRequestItem)) (u : Ui) → (finish r u).is_loading ≡ false
    loaded (ok items) u = refl
    loaded (thrown e) u = refl

view-listed :
    (u : Ui) (items : List RecentRequestItem)
    → u.is_loading ≡ false
    → u.error ≡ none
    → u.flagged_items ≡ items
    → view u ≡ listed items
unfolding view
view-listed u items l e f = rw (l, e, f) refl

same_items :
    {r : Result (List RecentRequestItem)} {shown answer items : List RecentRequestItem}
    → some shown ≡ some answer
    → r ≡ ok answer
    → r ≡ ok items
    → shown ≡ items
same_items c a e = cc

module _ (reply : Unit {0} → Result (List RecentRequestItem)) where
  -- The page, opened and after the events.
  abbrev after : List (Event (Unit {0})) → Live Ui (Unit {0})
  after es = run queue reply es (opened initial)

  -- Where the answer to every call has the same flagged items, the queue that is left alone, however
  -- often it was refreshed, comes to rest and lists these items.
  queue-lists :
      (es : List (Event (Unit {0}))) (items : List RecentRequestItem)
      → reply tt ≡ ok items
      → All (λ e. in_order e ≡ true) es
      → AtRest (run queue reply (settle (after es)) (after es))
        × (view (run queue reply (settle (after es)) (after es)).ui ≡ listed items)
  unfolding queue
  queue-lists es items e order =
      let (rest, done) = settle-IsShown queue reply (λ k. (items, e)) es initial order refl in
      (
        rest,
        view-listed _ items done.is_loading done.error (same_items done.content done.is_answer e),
      )

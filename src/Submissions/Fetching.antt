-- ===== src/Submissions/Fetching.antt =====
-- frontend/tenant-dashboard/app/dashboard/submissions/page.tsx: fetchRequests up to its `await` and
-- from there on, and the effect that calls it when the page of the log changes.
use modera_shield.Base.{
  ℕ, ◌≤◌, true, false, some, List, [], ◌∷◌, Result, ok, thrown, ◌≡◌, refl, nat_eq, or_default, All,
  arith, trim, ◌+◌, ◌/◌,
}
use modera_shield.Client.Types.{RecentRequestItem, RecentRequestsResponse}
use modera_shield.Client.Http.{Env}
use modera_shield.Client.Api.{get_requests}
use modera_shield.Page.{Page, Result-cases}
use modera_shield.Submissions.{
  Ui, initial, begin, finish, fetch_requests, view, filtered_items, click, next, next_page,
  total_pages, controls,
}
use modera_shield.Fetching.{
  Fetches, Live, settle, step, opened, Event, fires, refreshes, answers, run, in_order, AtRest,
}
use modera_shield.Fetching.Laws.{IsShown}
use modera_shield.Fetching.Settled.{settle-IsShown}
use modera_shield.Fetching.Overtaken.{overtaken, asked, IsStale, overtaken-IsStale}

-- The handler is the two parts around the request.
fetch_requests_lem :
    (env : Env) (page : ℕ) (p : Page Ui)
    → fetch_requests env page p ≡ (
      ok tt,
      record {
        ui = finish (get_requests env page 25 p.world).0 (begin p.ui);
        world = (get_requests env page 25 p.world).1;
      },
    )
unfolding fetch_requests finish begin
fetch_requests_lem env page p = ground (arith, Result-cases (get_requests env page 25 p.world).0)

set_page : ℕ → Ui → Ui
set_page page u = record u { page = page }

nat_eq-eq : (m n : ℕ) → nat_eq m n ≡ true → m ≡ n
nat_eq-eq m n h = ground (arith, h)

pub submissions : Fetches Ui ℕ RecentRequestsResponse
unfolding begin finish set_page
submissions = record {
  key = λ u. u.page;
  set_key = set_page;
  same = nat_eq;
  begin = begin;
  finish = finish;
  content = λ u. u.content;
  error = λ u. u.error;
  message = λ e. or_default e "Failed to load submissions.";
  is_loading = λ u. u.is_loading;
  same-eq = nat_eq-eq;
  key-set_key = λ k u. refl;
  content-set_key = λ k u. refl;
  error-set_key = λ k u. refl;
  is_loading-set_key = λ k u. refl;
  key-begin = λ u. refl;
  content-begin = λ u. refl;
  error-begin = λ u. refl;
  is_loading-begin = λ u. refl;
  key-finish = key_kept;
  content-ok = λ a u. refl;
  content-thrown = λ e u. refl;
  error-ok = λ a u. refl;
  error-thrown = λ e u. refl;
  is_loading-finish = loaded;
}
  where
    key_kept : (r : Result RecentRequestsResponse) (u : Ui) → (finish r u).page ≡ u.page
    key_kept (ok res) u = refl
    key_kept (thrown e) u = refl

    loaded : (r : Result RecentRequestsResponse) (u : Ui) → (finish r u).is_loading ≡ false
    loaded (ok res) u = refl
    loaded (thrown e) u = refl

module _ (reply : ℕ → Result RecentRequestsResponse) where
  -- The page, opened and after the events.
  abbrev after : List (Event ℕ) → Live Ui ℕ
  after es = run submissions reply es (opened initial)

  -- Where every call is answered with a page of the log and the answers come in the order of the
  -- calls, then, whatever the user did, the submissions that are left alone come to rest and show
  -- the answer for the page that is chosen.
  submissions-IsShown :
      (es : List (Event ℕ))
      → ((page : ℕ) → (res : RecentRequestsResponse) × (reply page ≡ ok res))
      → All (λ e. in_order e ≡ true) es
      → AtRest (run submissions reply (settle (after es)) (after es))
        × IsShown submissions reply (run submissions reply (settle (after es)) (after es)).ui
  unfolding submissions
  submissions-IsShown es total order = settle-IsShown submissions reply total es initial order refl

  -- The page as it is opened, answered, and refreshed meanwhile.
  abbrev pub refreshed : Live Ui ℕ
  refreshed = after (fires ∷ refreshes ∷ answers 0 ∷ [])

  refreshed-asked :
      (res : RecentRequestsResponse)
      → reply 1 ≡ ok res
      → refreshed ≡ asked 1 (record initial { is_loading = false; content = some res })
  unfolding submissions run step begin finish
  refreshed-asked res e = rw e refl

  next_page_of :
      (res : RecentRequestsResponse) (item : RecentRequestItem) (items : List RecentRequestItem)
      → res.items ≡ item ∷ items
      → 26 ≤ res.total
      → (click next (record initial { is_loading = false; content = some res })).page ≡ 2
  unfolding click view filtered_items controls next_page total_pages trim
  next_page_of res item items e h =
      let more : nat_eq 1 ((res.total + 24) / 25) ≡ false = ground (arith, h) in
      rw (e, more) (omega arith)

  -- For a log of more than 25 requests: when it is refreshed while its first page, which is not
  -- empty, is loaded, then the button for the next page is there once that is shown; and when the
  -- next page is chosen then and is answered before the refresh, the submissions come to rest with
  -- the first page's answer under the number of the second one, and without an error.
  pub submissions-shows_first :
      (first second : RecentRequestsResponse)
      → (item : RecentRequestItem) (items : List RecentRequestItem) → first.items ≡ item ∷ items
      → 26 ≤ first.total
      → reply 1 ≡ ok first
      → reply 2 ≡ ok second
      → ((click next refreshed.ui).page ≡ 2)
        × IsStale submissions reply 2 first (run submissions reply (overtaken 2) refreshed)
  unfolding submissions
  submissions-shows_first first second item items e h p q = rw (refreshed-asked first p) (
    next_page_of first item items e h,
    overtaken-IsStale submissions reply 1 2 first second _ refl p q,
  )

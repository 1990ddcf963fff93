-- ===== src/Overview/View.antt =====
-- What the overview shows (frontend/tenant-dashboard/app/dashboard/page.tsx).
use Prim.Native.String.{◌++◌}
use modera_shield.Base.{
  ℕ, String, Option, none, some, List, [], map, nat_eq, if◌then◌else◌, present, take_chars,
}
use modera_shield.Client.Types.{
  OverviewMetrics, UsageMetrics, UsageDay, RecentRequestsResponse, RecentRequestItem,
}
use modera_shield.Charts.{
  Legend, CategoryBar, donut_data, legend, flag_rate, top_categories, counted,
}
use modera_shield.Overview.{Ui}

-- A row of the recent submissions; its time is shown in the browser's format.
pub record Row : Type 0 where
  pub id : String
  pub status : String
  pub categories : List String
  pub model : Option String
  pub created_at : String
  pub inspect : String

unfoldable row : RecentRequestItem → Row
row item = record {
  id = take_chars 12 item.id ++ "...";
  status = item.status;
  categories = item.categories;
  model = item.model;
  created_at = item.created_at;
  inspect = "/dashboard/submissions/" ++ item.id;
}

-- What the page shows below the figures: a call to create a key where nothing was moderated yet, or
-- else the ring's legend, the days of the chart, the recent submissions and the categories.
pub data Charts : Type 0 where
  nothing_yet : Charts
  charts : List Legend → List UsageDay → List Row → List CategoryBar → Charts

pub record Figures : Type 0 where
  pub total : ℕ
  pub approved : ℕ
  pub flagged : ℕ
  pub rate : String
  pub body : Charts

abbrev days : Option UsageMetrics → List UsageDay
days none = []
days (some u) = u.days

abbrev recent : Option RecentRequestsResponse → List RecentRequestItem
recent none = []
recent (some r) = r.items

unfoldable pub figures : Ui → Figures
unfolding donut_data legend flag_rate top_categories row
figures u = record {
  total = counted (λ o. o.total_requests) u.overview_data;
  approved = counted (λ o. o.approved_requests) u.overview_data;
  flagged = counted (λ o. o.flagged_requests) u.overview_data;
  rate = flag_rate 1 u.overview_data;
  body =
      if nat_eq (counted (λ o. o.total_requests) u.overview_data) 0
      then nothing_yet
      else charts (map (legend u.overview_data) (donut_data u.overview_data)) (days u.usage_data)
          (map row (recent u.requests_data)) (top_categories u.category_data);
}

pub data View : Type 0 where
  loading : View
  failed : String → View
  shown : Figures → View

-- `if (error && !overview)`: with metrics an error is not shown.
abbrev pub settled : Option String → Option OverviewMetrics → Figures → View
settled (some error) none f = failed error
settled (some error) (some o) f = shown f
settled none o f = shown f

unfoldable pub view : Ui → View
view u = if u.is_loading then loading else settled (present u.error) u.overview_data (figures u)

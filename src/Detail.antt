-- ===== src/Detail.antt =====
-- frontend/tenant-dashboard/app/dashboard/submissions/[requestId]/page.tsx: one request, polled
-- until it is decided.
-- `timer` tells whether the second effect has a timer pending. That effect runs when `detail`
-- changes: it clears the pending timer and sets a new one unless the status is final.
pub mod Laws
use modera_shield.Base.{
  ℕ, zero, suc, ◌<◌, String, Bool, true, false, not, ◌||◌, Option, none, some, List, [], ◌∷◌, map,
  M, pure, modify, ◌>>=◌, ◌>>◌, try_catch, finally, ◌==◌, if◌then◌else◌, present,
  replace_underscore,
}
use modera_shield.Client.Types.{ModerationResultResponse, Decimal}
use modera_shield.Numeric.{fraction_of, round, times, is_over_half, to_fixed}
use modera_shield.Client.Http.{Env}
use modera_shield.Client.Api.{get_request_detail}
use modera_shield.Page.{Page, on_world, set_ui, error_of}

pub record Ui : Type 0 where
  pub is_loading : Bool
  pub error : Option String
  pub detail : Option ModerationResultResponse
  pub timer : Bool

abbrev initial : Ui
initial = record { is_loading = true; error = none; detail = none; timer = false }

unfoldable pub is_final : String → Bool
is_final status = status == "approved" || status == "flagged" || status == "failed"

-- `setDetail(res)`, and the effect that it causes.
pub set_detail : ModerationResultResponse → Ui → Ui
set_detail res u = record u { detail = some res; timer = not (is_final res.status) }

abbrev load_detail : Env → String → M (Page Ui) (Unit {0})
load_detail env request_id = do
  res ← on_world (get_request_detail env request_id)
  modify (set_ui (set_detail res))

abbrev show_error : String → M (Page Ui) (Unit {0})
show_error message =
    modify (set_ui λ u. record u { error = error_of message "Failed to load submission details." })

unfoldable pub fetch_detail : Env → String → M (Page Ui) (Unit {0})
fetch_detail env request_id = do
  modify (set_ui λ u. record u { is_loading = true })
  modify (set_ui λ u. record u { error = none })
  finally (try_catch (load_detail env request_id) show_error)
      (set_ui λ u. record u { is_loading = false })

-- The timer fires: `getRequestDetail(requestId).then(setDetail).catch(() => {})`.
unfoldable pub poll : Env → String → M (Page Ui) (Unit {0})
poll env request_id = do
  modify (set_ui λ u. record u { timer = false })
  try_catch (load_detail env request_id) (λ _. pure tt)

-- The page through the next `n` seconds: a pending timer fires, with none pending nothing happens.
pub wait : Env → String → ℕ → Page Ui → Page Ui
wait env request_id zero p = p
wait env request_id (suc n) p =
    let polled = wait env request_id n (poll env request_id p).1 in if p.ui.timer then polled else p

-- The scores' bars: the width in percent, the score with four decimals, and whether it is over the
-- threshold.
pub record Bar : Type 0 where
  pub category : String
  pub percent : ℕ
  pub score : String
  pub is_high : Bool

unfoldable pub bar : String × Decimal → Bar
bar (category, score) = record {
  category = replace_underscore category;
  percent = round (times 100 (fraction_of score));
  score = to_fixed 4 (fraction_of score);
  is_high = is_over_half (fraction_of score);
}

pub record Card : Type 0 where
  pub is_flagged : Bool
  pub verdict : String
  pub id : String
  pub status : String
  pub content_type : Option String
  pub model : String
  pub submitted : String
  pub actioned : String
  pub content : String
  pub bars : List Bar

pub data View : Type 0 where
  loading : View
  failed : String → View
  missing : View
  shown : Card → View

abbrev is_true : Option Bool → Bool
is_true (some true) = true
is_true (some false) = false
is_true none = false

abbrev text_or : String → Option String → String
text_or fallback none = fallback
text_or fallback (some text) = text

unfoldable pub card : ModerationResultResponse → Card
card d = record {
  is_flagged = is_true d.is_flagged;
  verdict = if is_true d.is_flagged then "Flagged / Abusive" else "Clean / Approved";
  id = d.id;
  status = d.status;
  content_type = d.content_type;
  model = text_or "—" (present d.model);
  submitted = d.created_at;
  actioned = d.updated_at;
  content = text_or "[Content Body Not Logged]" (present d.content);
  bars = map bar d.scores;
}

abbrev settled : Option String → Option ModerationResultResponse → View
settled (some error) detail = failed error
settled none none = missing
settled none (some d) = shown (card d)

unfoldable pub view : Ui → View
unfolding card
view u = if u.is_loading then loading else settled (present u.error) u.detail

-- ===== src/App/Reached.antt =====
-- What handlers of any pages, one after the other, leave stored
-- (frontend/tenant-dashboard/app/login/page.tsx, frontend/tenant-dashboard/app/signup/page.tsx).
use modera_shield.Base.{true, ◌≡◌, ◌∙◌}
use modera_shield.Client.Browser.{World}
use modera_shield.Client.Http.{Env}
use modera_shield.App.Acts.{act}
use modera_shield.App.Machine.{Reach, here, next, act-Step}
use modera_shield.App.Steps.{Run, begin, Run-append}
use modera_shield.App.Runs.{act-Run}

module _ (env : Env) where
  Reach-browser : (w v : World) → w.browser ≡ true → Reach env w v → v.browser ≡ true
  Reach-browser w v b here = b
  Reach-browser w v b (next {v = u} a r e) =
      let before = Reach-browser w u b r in rw e ((act-Step env u a before).same_browser ∙ before)

  -- The handlers are a run of their pieces.
  pub Reach-Run : (w v : World) → w.browser ≡ true → Reach env w v → Run env w v
  Reach-Run w v b here = begin
  Reach-Run w v b (next {v = u} a r e) = rw e (
      Run-append env w u (act env a u) (Reach-Run w u b r)
        (act-Run env a u (Reach-browser w u b r)))

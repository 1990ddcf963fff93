-- ===== src/App/Visits.antt =====
-- Where the handlers send the browser (frontend/tenant-dashboard/app/,
-- frontend/tenant-dashboard/components/layout/sidebar.tsx, frontend/tenant-dashboard/lib/api/client.ts).
use modera_shield.Base.{
  String, Bool, true, false, if◌then◌else◌, All, ◌≡◌, refl, arith, Bool-cases, inl, inr,
}
use modera_shield.Client.Browser.{
  World, set_stored_api_key, set_stored_tenant, remove_stored_api_key,
}
use modera_shield.Client.Http.{
  Env, Fetched, unreachable, replied, is_ok, is_denied, Json, parsed, malformed, read_json, receive,
  expire_session,
}
use modera_shield.Routes.{leads, route_of, path_of}
use modera_shield.App.Tracks.{IsHere, at_page}
use modera_shield.App.Machine.{Reach}
use modera_shield.App.Reached.{Reach-Run}
use modera_shield.App.Steps.{
  Piece, Run, begin, more, sends, receives, checks, drops, stores_key, stores_tenant, visits,
  alerts, copies,
}

session_expired-leads : leads "/login?error=session_expired" ≡ true
unfolding leads route_of path_of
session_expired-leads = refl

-- All that the browser went to is a page of the site, or the page of a request.
pub record OnSite (w : World) : Type 0 where
  pub on_site : All IsHere w.visited

same-OnSite : (w v : World) → v.visited ≡ w.visited → OnSite w → OnSite v
same-OnSite w v e h = record { on_site = rw e h.on_site }

set_stored_api_key-OnSite :
    (key : String) (w : World) → OnSite w → OnSite (set_stored_api_key key w)
unfolding set_stored_api_key
set_stored_api_key-OnSite key w = same-OnSite w _ (ground arith)

remove_stored_api_key-OnSite : (w : World) → OnSite w → OnSite (remove_stored_api_key w)
unfolding remove_stored_api_key
remove_stored_api_key-OnSite w = same-OnSite w _ (ground arith)

set_stored_tenant-OnSite :
    (id name : String) (w : World) → OnSite w → OnSite (set_stored_tenant id name w)
unfolding set_stored_tenant
set_stored_tenant-OnSite id name w = same-OnSite w _ (ground arith)

either-OnSite : (b : Bool) (v w : World) → OnSite v → OnSite w → OnSite (if b then v else w)
either-OnSite true v w p q = p
either-OnSite false v w p q = q

expire_session-OnSite : (w : World) → OnSite w → OnSite (expire_session w)
unfolding expire_session
expire_session-OnSite w h =
    either-OnSite w.browser _ _
      (record {
        on_site = (at_page session_expired-leads, (remove_stored_api_key-OnSite w h).on_site);
      })
      (remove_stored_api_key-OnSite w h)

read_json-OnSite : {A : Type 0} (j : Json A) (w : World) → OnSite w → OnSite (read_json j w).1
read_json-OnSite (parsed a) w h = h
read_json-OnSite (malformed e) w h = h

receive-OnSite : {A : Type 0} (f : Fetched A) (w : World) → OnSite w → OnSite (receive f w).1
unfolding receive
receive-OnSite (unreachable e) w h = h
receive-OnSite (replied r) w h = elim (Bool-cases (is_ok r.status)) [
  | inl e ↦ rw e (read_json-OnSite r.value w h)
  | inr e ↦ elim (Bool-cases (is_denied r.status)) [
    | inl d ↦ rw (e, d) (expire_session-OnSite w h)
    | inr d ↦ rw (e, d) h
  ]
]

Piece-OnSite : (env : Env) (w v : World) → Piece env w v → OnSite w → OnSite v
Piece-OnSite env w v (sends r e) h = same-OnSite w v (rw e refl) h
Piece-OnSite env w v (receives t f e) h = rw e (receive-OnSite f w h)
Piece-OnSite env w v (checks key g e) h = rw e (set_stored_api_key-OnSite _ w h)
Piece-OnSite env w v (drops e) h = rw e (remove_stored_api_key-OnSite w h)
Piece-OnSite env w v (stores_key id name before k f e) h = rw e (set_stored_api_key-OnSite _ w h)
Piece-OnSite env w v (stores_tenant id name e) h = rw e (set_stored_tenant-OnSite id name w h)
Piece-OnSite env w v (visits path g e) h = rw e (record { on_site = (g, h.on_site) })
Piece-OnSite env w v (alerts text e) h = same-OnSite w v (rw e refl) h
Piece-OnSite env w v (copies text e) h = same-OnSite w v (rw e refl) h

Run-OnSite : (env : Env) (w v : World) → OnSite w → Run env w v → OnSite v
Run-OnSite env w v h begin = h
Run-OnSite env w v h (more {v = u} run piece) =
    Piece-OnSite env u v piece (Run-OnSite env w u h run)

-- In a browser that has been to no address but the pages of the site and those of requests, no
-- handlers of any pages, one after the other, send it to another one.
pub Reach-OnSite :
    (env : Env) (w v : World) → w.browser ≡ true → OnSite w → Reach env w v → OnSite v
Reach-OnSite env w v b h r = Run-OnSite env w v h (Reach-Run env w v b r)

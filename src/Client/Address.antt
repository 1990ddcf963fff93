-- ===== src/Client/Address.antt =====
-- The address of the backend (`getApiUrl` of frontend/tenant-dashboard/lib/api/client.ts).
use Prim.Native.String.{◌++◌}
use text.Mathlib.TextLemmas.{nil-append, cons-append}
use modera_shield.Base.{
  String, true, none, ◌≡◌, inl, inr, arith, eq_refl, present, ends_with, Bool-cases,
}
use modera_shield.Client.Browser.{World, get_item, api_url_item}
use modera_shield.Client.Http.{Env, get_api_url, with_api_path, drop_slash}

ends_with_self : (t : String) → ends_with t t ≡ true
unfolding ends_with
ends_with_self String.[] = eq_refl ""
ends_with_self (String.◌∷◌ c s) = ground (arith, eq_refl (String.◌∷◌ c s))

ends_with-append : (s t : String) → ends_with (s ++ t) t ≡ true
unfolding ends_with
ends_with-append String.[] t = rw nil-append (ground (arith, ends_with_self t))
ends_with-append (String.◌∷◌ c s) t = rw cons-append (ground (arith, ends_with-append s t))

with_api_path-ends_with : (url : String) → ends_with (with_api_path url) "/api/v1" ≡ true
with_api_path-ends_with url =
    ground
      (arith, ends_with-append (drop_slash url) "/api/v1", Bool-cases (ends_with url "/api/v1"))

-- Unless the storage holds an address, the requests go to one that ends with the API's path,
-- whatever the build configured.
get_api_url-ends_with :
    (env : Env) (w : World)
    → present (get_item api_url_item w.storage) ≡ none
    → ends_with (get_api_url env w) "/api/v1" ≡ true
unfolding get_api_url
get_api_url-ends_with env w h = elim (Bool-cases w.browser) [
  | inl b ↦ rw (b, h) (with_api_path-ends_with _)
  | inr b ↦ rw b (with_api_path-ends_with _)
]

-- ===== src/App/Tracks.antt =====
-- What every handler of the pages is made of, between two `await`s, as an interface: a relation of
-- two browsers that these pieces respect is respected by every handler that is made of them.
use Prim.Native.String.{◌++◌}
use modera_shield.Base.{some, String, true, M, Result, ok, thrown, and_then, ◌≡◌}
use modera_shield.Client.Types.{ReplyType, Reply}
use modera_shield.Client.Browser.{World, Request, send, visit, remove_stored_api_key}
use modera_shield.Client.Http.{Env, Options, Fetched, receive, request}
use modera_shield.Client.Requests.{request_lem}
use modera_shield.ApiKeys
use modera_shield.Routes.{leads, detail_folder}

-- An address of a page of the site, or that of the page of a request.
pub data IsHere (path : String) : Type 0 where
  at_page : leads path ≡ true → IsHere path
  at_request : (id : String) → path ≡ detail_folder ++ id → IsHere path

-- The browser stays as it is, or one change follows another; a call is sent; its answer is received,
-- whatever it is; the session is dropped; the browser goes to a page of the site, or to the address
-- of a request's page; an alert is shown; a text is put on the clipboard.
pub record Tracks (R : World → World → Type 0) : Type 0 where
  pub stays : (w : World) → R w w
  pub follows : {u v w : World} → R u v → R v w → R u w
  pub sends : (r : Request) (w : World) → R w (send r w)
  pub receives : (t : ReplyType) (f : Fetched (Reply t)) (w : World) → R w (receive f w).1
  pub drops : (w : World) → R w (remove_stored_api_key w)
  pub visits : (path : String) (w : World) → IsHere path → R w (visit path w)
  pub alerts : (text : String) (w : World) → R w (ApiKeys.alert text w)
  pub copies : (text : String) (w : World) → R w (record w { clipboard = some text })

module _ (R : World → World → Type 0) (tracks : Tracks R) where
  -- The rule for a request.
  pub request-Tracks :
      (env : Env) (t : ReplyType) (path : String) (options : Options) (w : World)
      → R w (request env t path options w).1
  request-Tracks env t path options w =
      rw (request_lem env t path options w)
        (tracks.follows (tracks.sends _ w) (tracks.receives t _ _))

  -- The rule for a method of the client that is followed by others.
  pub call_then_rule :
      {A B : Type 0} (w : World) (r : Result A × World) (k : A → M World B)
      → R w r.1
      → ((a : A) (v : World) → R v (k a v).1)
      → R w (and_then r k).1
  call_then_rule w (ok a, s) k h rest = tracks.follows h (rest a s)
  call_then_rule w (thrown e, s) k h rest = h

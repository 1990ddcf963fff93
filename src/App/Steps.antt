-- ===== src/App/Steps.antt =====
-- The handlers in pieces: what a handler of frontend/tenant-dashboard/app/ does to the browser
-- between two `await`s. Pieces of several handlers may follow one another in any order.
use modera_shield.Base.{
  String, true, false, none, some, ok, ◌≡◌, refl, sym, ◌∙◌, ◌⊎◌, inl, inr, arith, trim,
}
use modera_shield.Client.Types.{ReplyType, Reply, ApiKeyCreatedResponse}
use modera_shield.Client.Browser.{
  World, Request, send, visit, get_stored_api_key, set_stored_api_key, remove_stored_api_key,
  set_stored_tenant,
}
use modera_shield.Client.Http.{Env, Fetched, receive}
use modera_shield.Client.Api.{create_api_key}
use modera_shield.Client.Session.{get_stored_api_key-set, get_stored_api_key-set_stored_tenant}
use modera_shield.Login.Laws.{is_refused}
use modera_shield.App.Tracks.{Tracks, IsHere}
use modera_shield.ApiKeys
use modera_shield.App.Kept.{Kept, Kept-Tracks}

-- A key that a user gave the login page in the form of one, or that the backend made.
pub data IsKnown (env : Env) (key : String) : Type 0 where
  submitted : (api_key : String) → is_refused api_key ≡ false → key ≡ trim api_key → IsKnown env key
  made :
      (tenant_id name : String) (w : World) (k : ApiKeyCreatedResponse)
      → (create_api_key env tenant_id name w).0 ≡ ok k
      → key ≡ k.key
      → IsKnown env key

-- A piece: a call is sent; its answer, whatever it is, is received; the login page stores the key
-- that it checks, or drops it; a session's key or tenant is stored; the browser goes to a
-- page of the site or of a request; an alert is shown; or a text is copied.
pub data Piece (env : Env) (w v : World) : Type 0 where
  sends : (r : Request) → v ≡ send r w → Piece env w v
  receives : (t : ReplyType) (f : Fetched (Reply t)) → v ≡ (receive f w).1 → Piece env w v
  checks :
      (api_key : String)
      → is_refused api_key ≡ false
      → v ≡ set_stored_api_key (trim api_key) w
      → Piece env w v
  drops : v ≡ remove_stored_api_key w → Piece env w v
  stores_key :
      (tenant_id name : String) (before : World) (k : ApiKeyCreatedResponse)
      → (create_api_key env tenant_id name before).0 ≡ ok k
      → v ≡ set_stored_api_key k.key w
      → Piece env w v
  stores_tenant : (id name : String) → v ≡ set_stored_tenant id name w → Piece env w v
  visits : (path : String) → IsHere path → v ≡ visit path w → Piece env w v
  alerts : (text : String) → v ≡ ApiKeys.alert text w → Piece env w v
  copies : (text : String) → v ≡ record w { clipboard = some text } → Piece env w v

-- The browsers that pieces, one after the other, make of a browser.
pub data Run (env : Env) (w : World) : World → Type 0 where
  begin : Run env w w
  more : {v u : World} → Run env w v → Piece env v u → Run env w u

pub Run-append : (env : Env) (w v u : World) → Run env w v → Run env v u → Run env w u
Run-append env w v u p begin = p
Run-append env w v u p (more {v = x} q piece) = more (Run-append env w v x p q) piece

pub Run-Tracks : (env : Env) → Tracks (Run env)
Run-Tracks env = record {
  stays = λ w. begin;
  follows = λ {u} {v} {w} p q. Run-append env u v w p q;
  sends = λ r w. more begin (sends r refl);
  receives = λ t f w. more begin (receives t f refl);
  drops = λ w. more begin (drops refl);
  visits = λ path w h. more begin (visits path h refl);
  alerts = λ text w. more begin (alerts text refl);
  copies = λ text w. more begin (copies text refl);
}

-- The kind of the browser stays, and the key stays, goes, or is a known one.
pub record Effect (env : Env) (w v : World) : Type 0 where
  pub same_browser : v.browser ≡ w.browser
  pub key :
      (get_stored_api_key v ≡ get_stored_api_key w)
      ⊎ ((get_stored_api_key v ≡ none)
          ⊎ ((key : String) × (get_stored_api_key v ≡ some key) × IsKnown env key))

Kept-Effect : (env : Env) {w v : World} → Kept w v → Effect env w v
Kept-Effect env k = record {
  same_browser = k.same_browser;
  key = elim k.key [ inl e ↦ inl e | inr e ↦ inr (inl e) ];
}

set_stored_api_key-Effect :
    (env : Env) (key : String) (w : World)
    → w.browser ≡ true
    → IsKnown env key
    → Effect env w (set_stored_api_key key w)
unfolding set_stored_api_key
set_stored_api_key-Effect env key w b known = record {
  same_browser = ground arith;
  key = inr (inr (key, get_stored_api_key-set key w b, known));
}

set_stored_tenant-Effect :
    (env : Env) (id name : String) (w : World) → Effect env w (set_stored_tenant id name w)
unfolding set_stored_tenant
set_stored_tenant-Effect env id name w = record {
  same_browser = ground arith;
  key = inl (get_stored_api_key-set_stored_tenant id name w);
}

module _ (env : Env) (w v : World) (b : w.browser ≡ true) where
  Piece-Effect : Piece env w v → Effect env w v
  Piece-Effect (sends r e) = rw e (Kept-Effect env (Kept-Tracks.sends r w))
  Piece-Effect (receives t f e) = rw e (Kept-Effect env (Kept-Tracks.receives t f w))
  Piece-Effect (checks api_key h e) =
      rw e (set_stored_api_key-Effect env (trim api_key) w b (submitted api_key h refl))
  Piece-Effect (drops e) = rw e (Kept-Effect env (Kept-Tracks.drops w))
  Piece-Effect (stores_key tenant_id name before k f e) =
      rw e (set_stored_api_key-Effect env k.key w b (made tenant_id name before k f refl))
  Piece-Effect (stores_tenant id name e) = rw e (set_stored_tenant-Effect env id name w)
  Piece-Effect (visits path h e) = rw e (Kept-Effect env (Kept-Tracks.visits path w h))
  Piece-Effect (copies text e) = rw e (Kept-Effect env (Kept-Tracks.copies text w))
  Piece-Effect (alerts text e) = rw e (Kept-Effect env (Kept-Tracks.alerts text w))

-- The browser stays one, and a stored key is known.
pub record Sound (env : Env) (w : World) : Type 0 where
  pub is_browser : w.browser ≡ true
  pub known : (key : String) → get_stored_api_key w ≡ some key → IsKnown env key

Effect-IsKnown :
    (env : Env) (w v : World)
    → Effect env w v
    → ((key : String) → get_stored_api_key w ≡ some key → IsKnown env key)
    → (key : String) → get_stored_api_key v ≡ some key
    → IsKnown env key
Effect-IsKnown env w v effect h key k = elim effect.key [
  | inl e ↦ h key (sym e ∙ k)
  | inr (inl e) ↦ cc
  | inr (inr (new, e, known)) ↦ let same : new ≡ key = cc in rw same at known
]

Run-Sound : (env : Env) (w v : World) → Run env w v → Sound env w → Sound env v
Run-Sound env w v begin h = h
Run-Sound env w v (more {v = u} run piece) h =
    let before = Run-Sound env w u run h in
    let effect = Piece-Effect env u v before.is_browser piece in
    record {
      is_browser = effect.same_browser ∙ before.is_browser;
      known = Effect-IsKnown env u v effect before.known;
    }

-- From a browser with no stored key, however the pieces of the handlers follow one another, a
-- stored key is one that a user gave the login page in the form of a key, or that the backend made.
pub Run-IsKnown :
    (env : Env) (w v : World) (key : String)
    → w.browser ≡ true
    → get_stored_api_key w ≡ none
    → Run env w v
    → get_stored_api_key v ≡ some key
    → IsKnown env key
Run-IsKnown env w v key b e run k =
    (Run-Sound env w v run (record { is_browser = b; known = λ key k. cc })).known key k

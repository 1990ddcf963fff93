-- ===== src/App/Kept.antt =====
-- Code that leaves the key of the session as it is or drops it: a relation of two browsers, and its
-- rules for each piece that the handlers are made of.
use modera_shield.Base.{none, some, ◌≡◌, refl, ◌∙◌, ◌⊎◌, inl, inr, Bool-cases, arith}
use modera_shield.Client.Browser.{
  World, Request, send, visit, get_stored_api_key, remove_stored_api_key,
}
use modera_shield.Client.Http.{
  Fetched, unreachable, replied, is_ok, is_denied, read_json, parsed, malformed, Json, receive,
  expire_session,
}
use modera_shield.Client.Requests.{expire_session-ends_session}
use modera_shield.ApiKeys
use modera_shield.App.Tracks.{Tracks}
use modera_shield.Client.Session.{remove_stored_api_key-ends_session}

pub record Kept (w w' : World) : Type 0 where
  pub same_browser : w'.browser ≡ w.browser
  pub key : (get_stored_api_key w' ≡ get_stored_api_key w) ⊎ (get_stored_api_key w' ≡ none)

Kept-refl : (w : World) → Kept w w
Kept-refl w = record { same_browser = refl; key = inl refl }

pub Kept-trans : {u v w : World} → Kept u v → Kept v w → Kept u w
Kept-trans p q = record {
  same_browser = q.same_browser ∙ p.same_browser;
  key = elim q.key [
    | inl e ↦ elim p.key [ inl f ↦ inl (e ∙ f) | inr f ↦ inr (e ∙ f) ]
    | inr e ↦ inr e
  ];
}

-- A change of the browser that leaves its kind and its storage.
Kept-same : (w w' : World) → w'.browser ≡ w.browser → w'.storage ≡ w.storage → Kept w w'
unfolding get_stored_api_key
Kept-same w w' b s = record { same_browser = b; key = inl (rw (b, s) refl) }

Kept-remove : (w : World) → Kept w (remove_stored_api_key w)
unfolding remove_stored_api_key
Kept-remove w = record {
  same_browser = ground arith;
  key = inr (remove_stored_api_key-ends_session w).0;
}

Kept-expire : (w : World) → Kept w (expire_session w)
unfolding expire_session remove_stored_api_key
Kept-expire w = record { same_browser = ground arith; key = inr (expire_session-ends_session w).0 }

read_json-Kept : {A : Type 0} (j : Json A) (w : World) → Kept w (read_json j w).1
read_json-Kept (parsed a) w = Kept-refl w
read_json-Kept (malformed e) w = Kept-refl w

receive-Kept : {A : Type 0} (f : Fetched A) (w : World) → Kept w (receive f w).1
unfolding receive
receive-Kept (unreachable e) w = Kept-refl w
receive-Kept (replied r) w = elim (Bool-cases (is_ok r.status)) [
  | inl e ↦ rw e (read_json-Kept r.value w)
  | inr e ↦ elim (Bool-cases (is_denied r.status)) [
    | inl d ↦ rw (e, d) (Kept-expire w)
    | inr d ↦ rw (e, d) (Kept-refl w)
  ]
]

send-Kept : (r : Request) (w : World) → Kept w (send r w)
send-Kept r w = Kept-same w (send r w) refl refl

pub Kept-Tracks : Tracks Kept
Kept-Tracks = record {
  stays = Kept-refl;
  follows = Kept-trans;
  sends = send-Kept;
  receives = λ t f w. receive-Kept f w;
  drops = Kept-remove;
  visits = λ path w h. Kept-same w (visit path w) refl refl;
  alerts = λ text w. Kept-same w (ApiKeys.alert text w) refl refl;
  copies = λ text w. Kept-same w (record w { clipboard = some text }) refl refl;
}

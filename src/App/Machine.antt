-- ===== src/App/Machine.antt =====
-- The pages together, as a machine on one browser: each step is a handler of a page
-- (frontend/tenant-dashboard/app/, frontend/tenant-dashboard/components/layout/), which runs from
-- its call to its end on whatever the page's state is then.
use modera_shield.Base.{
  arith, String, true, none, some, Option, Bool-cases, ◌==◌, Option-cases, ◌≡◌, ◌∙◌, sym, refl, ◌⊎◌,
  inl, inr, present,
}
use modera_shield.Client.Browser.{World, get_stored_api_key, visit}
use modera_shield.Client.Http.{Env}
use modera_shield.App.Kept.{Kept, Kept-Tracks}
use modera_shield.App.Tracks.{Tracks}
use modera_shield.App.Acts.{Act, page, act, act-Tracks}
use modera_shield.App.SignIn.{
  IsTrusted, Move, stay, leave, enter, Kept-Move, login_form-Move, login_form-browser,
  signup_form-Move, signup_form-browser,
}
use modera_shield.Sidebar

Move-trans : (env : Env) {r s t : Option String} → Move env r s → Move env s t → Move env r t
Move-trans env p (leave e) = leave e
Move-trans env p (enter key e trusted) = enter key e trusted
Move-trans env (stay d) (stay e) = stay (e ∙ d)
Move-trans env (leave d) (stay e) = leave (e ∙ d)
Move-trans env (enter key d trusted) (stay e) = enter key (e ∙ d) trusted

-- What a browser `v` may become of a browser `w`: the same kind, and a move of its session.
pub record Step (env : Env) (w v : World) : Type 0 where
  pub same_browser : v.browser ≡ w.browser
  pub move : Move env (get_stored_api_key w) (get_stored_api_key v)

Kept-Step : (env : Env) {w v : World} → Kept w v → Step env w v
Kept-Step env k = record { same_browser = k.same_browser; move = Kept-Move env k }

Step-Tracks : (env : Env) → Tracks (Step env)
Step-Tracks env = record {
  stays = λ w. Kept-Step env (Kept-Tracks.stays w);
  follows = λ p q. record {
    same_browser = q.same_browser ∙ p.same_browser;
    move = Move-trans env p.move q.move;
  };
  sends = λ r w. Kept-Step env (Kept-Tracks.sends r w);
  receives = λ t f w. Kept-Step env (Kept-Tracks.receives t f w);
  drops = λ w. Kept-Step env (Kept-Tracks.drops w);
  visits = λ path w h. Kept-Step env (Kept-Tracks.visits path w h);
  alerts = λ text w. Kept-Step env (Kept-Tracks.alerts text w);
  copies = λ text w. Kept-Step env (Kept-Tracks.copies text w);
}

module _ (env : Env) (w : World) where
  pub act-Step : (a : Act) → w.browser ≡ true → Step env w (act env a w)
  unfolding act
  act-Step a b =
      act-Tracks (Step env) (Step-Tracks env) env w
        (λ api_key u. record {
          same_browser = login_form-browser env api_key (page u w);
          move = login_form-Move env api_key (page u w) b;
        })
        (λ is_email v u. record {
          same_browser = signup_form-browser env is_email v (page u w);
          move = signup_form-Move env is_email v (page u w) b;
        })
        a

  -- In the browser, whatever the page, its state and the handler, and whatever the backend answers, the handler
  -- leaves the stored key, drops it, or stores a key that the backend vouched for.
  pub act-Move :
      (a : Act)
      → w.browser ≡ true
      → Move env (get_stored_api_key w) (get_stored_api_key (act env a w))
  act-Move a b = (act-Step a b).move

-- The browsers that handlers, one after the other, make of a browser.
pub data Reach (env : Env) (w : World) : World → Type 0 where
  here : Reach env w w
  next : {v u : World} (a : Act) → Reach env w v → u ≡ act env a v → Reach env w u

-- A stored key is one that the backend vouched for.
pub record Vouched (env : Env) (w : World) : Type 0 where
  pub is_browser : w.browser ≡ true
  pub trusted : (key : String) → get_stored_api_key w ≡ some key → IsTrusted env key

trusted_after :
    (env : Env) (s t : Option String)
    → Move env s t
    → ((key : String) → s ≡ some key → IsTrusted env key)
    → (key : String) → t ≡ some key
    → IsTrusted env key
trusted_after env s t (stay e) h key k = h key (sym e ∙ k)
trusted_after env s t (leave e) h key k = cc
trusted_after env s t (enter new e trusted) h key k =
    let same : new ≡ key = cc in rw same at trusted

present-some : (o : Option String) (key : String) → present o ≡ some key → o ≡ some key
present-some none key e = e
present-some (some s) key e = ground (arith, e, Bool-cases (s == ""))

module _ (env : Env) where
  act-Vouched : (a : Act) (w : World) → Vouched env w → Vouched env (act env a w)
  act-Vouched a w h =
      let step = act-Step env w a h.is_browser in
      record {
        is_browser = step.same_browser ∙ h.is_browser;
        trusted =
            trusted_after env (get_stored_api_key w) (get_stored_api_key (act env a w)) step.move
              h.trusted;
      }

  Reach-Vouched : (w v : World) → Reach env w v → Vouched env w → Vouched env v
  Reach-Vouched w v here h = h
  Reach-Vouched w v (next {v = u} a r e) h = rw e (act-Vouched a u (Reach-Vouched w u r h))

  -- A browser that no key is stored in.
  fresh-Vouched : (w : World) → w.browser ≡ true → get_stored_api_key w ≡ none → Vouched env w
  fresh-Vouched w b e = record { is_browser = b; trusted = λ key k. cc }

  -- From a browser with no stored key, after any handlers of any pages, one after the other, the
  -- guard of the dashboard's pages sends the browser to the login page, or it leaves the browser
  -- alone and the stored key is one that the backend vouched for.
  pub check_session-IsTrusted :
      (w v : World) (u : Sidebar.Ui)
      → w.browser ≡ true
      → get_stored_api_key w ≡ none
      → Reach env w v
      → ((Sidebar.check_session (page u v)).world ≡ visit "/login" v)
        ⊎ ((key : String) × ((Sidebar.check_session (page u v)).world ≡ v)
            × (get_stored_api_key v ≡ some key)
            × IsTrusted env key)
  unfolding Sidebar.check_session
  check_session-IsTrusted w v u b e r = elim (Option-cases (present (get_stored_api_key v))) [
    | inl f ↦ inl (rw f refl)
    | inr (key, f) ↦
        let k = present-some (get_stored_api_key v) key f in
        inr (key, rw f refl, k, (Reach-Vouched w v r (fresh-Vouched w b e)).trusted key k)
  ]

-- ===== src/OAuth/Logout.antt =====
-- helper.js: a logout through OAuth, down to the header of requests.
use rocketmq.Shared.{◌≡◌, refl, ap, ◌∙◌, none, some, ◌∷◌, ◌++◌, Text, codes, true}
use rocketmq.Prefs.Session.{authorization_header}
use rocketmq.Prefs.Account.{Account, logout, header, run_op, replay_op}
use rocketmq.Prefs.Kept.{Keeps, header_lem}
use rocketmq.Prefs.Refinement.{run_op-Keeps}
use rocketmq.OAuth.Session.{
  Visit, somebody, remove_user, ask, set_location, oauth_redirect_to_login, oauth_initiate_logout,
}

header-logout : (a : Account) → header (replay_op logout a) ≡ none
unfolding header replay_op
header-logout a = refl

-- Where the console initiated the logon and its provider has no endpoint that ends sessions, a logout of a
-- user, from a browser that keeps an account, returns: no header of requests is left, the OpenID client
-- is asked to forget the user, and the page goes to the login.
pub oauth_initiate_logout-header :
    (prefix : Text) (v : Visit) (a : Account)
    → Keeps v.browser a
    → v.oauth.sp_initiated ≡ some true
    → (w : Visit) × (oauth_initiate_logout prefix (somebody none) v ≡ some w)
      × (authorization_header w.browser ≡ some none)
      × (w.asked ≡ remove_user ∷ v.asked)
      × (w.location ≡ some (prefix ++ codes "/"))
unfolding oauth_initiate_logout oauth_redirect_to_login ask set_location run_op
oauth_initiate_logout-header prefix v a k initiated =
    let (d, done, kept) = run_op-Keeps logout k in
    let w = record v {
      browser = d;
      asked = remove_user ∷ v.asked;
      location = some (prefix ++ codes "/");
    } in
    (w, rw (initiated, done) refl, header_lem kept ∙ ap some (header-logout a), refl, refl)

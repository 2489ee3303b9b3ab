-- ===== src/OAuth/Login.antt =====
-- helper.js: a login through OAuth, down to the header of requests.
use rocketmq.Shared.{
  ◌≡◌, ◌+◌, ◌*◌, refl, ap, ◌∙◌, arith, Option, none, some, [], ◌∷◌, ◌++◌, Text, codes, text_eq,
  starts_with, Dict, lookup, remove, lookup-insert, lookup-remove,
}
use rocketmq.Prefs.Store.{Browser, storage_key, get_pref, clear_pref, default_pref, or_else}
use rocketmq.Prefs.Session.{set_token_auth, authorization_header}
use rocketmq.Prefs.Marks.{live_marks}
use rocketmq.Prefs.Account.{Account, login, header, run_op, replay_op}
use rocketmq.Prefs.Kept.{Keeps, header_lem}
use rocketmq.Prefs.Logins.{set_items, login_stores, later_is_alive}
use rocketmq.OAuth.Session.{
  Visit, signed_in, return_path, go_to, set_location, oauth_redirect_to_home, oauth_complete_login,
}

abbrev return_key : Text
return_key = codes "oauth-return-to"

-- The header after a login.
header-login :
    (scheme secret : Text) (a : Account)
    → header (replay_op (login scheme secret) a) ≡ some (scheme ++ (32 ∷ secret))
unfolding header replay_op live_marks
header-login scheme secret a = rw (later_is_alive a.now (a.now + 8 * 3600000) (omega arith)) refl

-- A preference that is cleared is no part of an account.
clear_pref-Keeps :
    {d : Browser} {a : Account} (k : Keeps d a)
    → Keeps (record d { storage = some (remove (storage_key return_key) k.items) }) a
unfolding text_eq
clear_pref-Keeps k = record {
  now = k.now;
  items = remove (storage_key return_key) k.items;
  stored = refl;
  scheme = lookup-remove (storage_key return_key) _ k.items ∙ k.scheme;
  secret = lookup-remove (storage_key return_key) _ k.items ∙ k.secret;
  cookie = k.cookie;
}

clear_pref-stored :
    (d : Browser) (items : Dict Text)
    → d.storage ≡ some items
    → clear_pref return_key d
      ≡ some (record d { storage = some (remove (storage_key return_key) items) })
unfolding clear_pref
clear_pref-stored d items e = rw (e) refl

-- The credentials are kept under other keys.
lookup-set_items :
    (scheme secret : Text) (items : Dict Text)
    → lookup (storage_key return_key) (set_items scheme secret items)
      ≡ lookup (storage_key return_key) items
unfolding text_eq
lookup-set_items scheme secret items =
    lookup-insert _ (storage_key return_key) scheme _
    ∙ (lookup-insert _ (storage_key return_key) secret _
        ∙ (lookup-remove _ (storage_key return_key) _
            ∙ lookup-remove _ (storage_key return_key) items))

return_path-or_else : (o : Option Text) → return_path (or_else o (some [])) ≡ return_path o
return_path-or_else none = refl
return_path-or_else (some t) = refl

get_pref-return :
    (d : Browser) (items : Dict Text)
    → d.storage ≡ some items
    → get_pref return_key none d ≡ some (or_else (lookup (storage_key return_key) items) (some []))
unfolding get_pref default_pref starts_with text_eq
get_pref-return d items e = rw (e) refl

redirect_lem :
    (prefix : Text) (v : Visit) (d : Browser) (items : Dict Text)
    → d.storage ≡ some items
    → oauth_redirect_to_home prefix (record v { browser = d })
      ≡ some (record v {
        browser = record d { storage = some (remove (storage_key return_key) items) };
        location =
            some (prefix ++ (codes "/" ++ return_path (lookup (storage_key return_key) items)));
      })
unfolding oauth_redirect_to_home go_to set_location
redirect_lem prefix v d items e =
    rw
      (
        get_pref-return d items e,
        clear_pref-stored d items e,
        return_path-or_else (lookup (storage_key return_key) items),
      )
      refl

-- From a browser that keeps an account, a login of the OpenID client with an access token returns: the
-- header of requests then has this token, the page goes to the address that was kept for the return, and
-- the kept address is cleared.
pub oauth_complete_login-header :
    (prefix token : Text) (v : Visit) (a : Account) (k : Keeps v.browser a)
    → (w : Visit) × (oauth_complete_login prefix (signed_in token) v ≡ some w)
      × (authorization_header w.browser ≡ some (some (codes "Bearer " ++ token)))
      × (w.location
          ≡ some (prefix ++ (codes "/" ++ return_path (lookup (storage_key return_key) k.items))))
      × (get_pref return_key none w.browser ≡ some (some []))
unfolding oauth_complete_login set_token_auth run_op text_eq
oauth_complete_login-header prefix token v a k =
    let (d, done, kept, same) = login_stores (codes "Bearer") token k in
    let c = clear_pref-Keeps kept in
    let path : lookup (storage_key return_key) kept.items
        ≡ lookup (storage_key return_key) k.items =
      ap (λ i. lookup (storage_key return_key) i) same
      ∙ lookup-set_items (codes "Bearer") token k.items in
    let gone : lookup (storage_key return_key) (remove (storage_key return_key) kept.items) ≡ none =
      lookup-remove (storage_key return_key) (storage_key return_key) kept.items in
    let w = record v {
      browser = record d { storage = some (remove (storage_key return_key) kept.items) };
      location =
          some (prefix ++ (codes "/" ++ return_path (lookup (storage_key return_key) kept.items)));
    } in
    (
      w,
      rw (done) (redirect_lem prefix v d kept.items kept.stored),
      header_lem c ∙ ap some (header-login (codes "Bearer") token a),
      ap (λ o. some (prefix ++ (codes "/" ++ return_path o))) path,
      get_pref-return _ (remove (storage_key return_key) kept.items) refl
          ∙ ap (λ o. some (or_else o (some []))) gone,
    )
